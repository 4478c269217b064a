-- ===== src/SccWriter/Level.antt =====
-- How deep a text stands in braces, and texts that leave the depth alone.
use lfsc.Common.{
  ℕ, zero, suc, ◌+◌, ◌/◌, ◌%◌, ◌≡◌, refl, ◌∙◌, Bool, true, false, ◌&&◌, not, Option, none, some,
  List, [], ◌∷◌, ◌++◌, ◌==◌, leb, ltb, if◌then◌else◌, arith, Bool-cases, inl, inr,
}
use lfsc.Trie.{Key}
use lfsc.SccWriter.{
  Text, codes, Piece, lit, var, text_of, digits, decimal, var_char, get_var_name, spaces, ret_mod,
  inc_text,
}

abbrev outer : ℕ → Option ℕ
outer zero = none
outer (suc d) = some d

-- The depth behind a character; none where a brace is closed that is not open.
abbrev pub step : Option ℕ → ℕ → Option ℕ
step none c = none
step (some d) c = if c == b'{' then some (suc d) else if c == b'}' then outer d else some d

abbrev pub level : Option ℕ → Text → Option ℕ
level o [] = o
level o (c ∷ t) = level (step o c) t

-- Every brace is closed, in the order of nesting.
abbrev pub IsNested : Text → Type 0
IsNested t = level (some 0) t ≡ some 0

pub level-append : (o : Option ℕ) (s t : Text) → level o (s ++ t) ≡ level (level o s) t
level-append o [] t = refl
level-append o (c ∷ s) t = level-append (step o c) s t

level-none : (t : Text) → level none t ≡ none
level-none [] = refl
level-none (c ∷ t) = level-none t

-- A text that has no effect on the depth.
abbrev pub Plain : Text → Type 0
Plain t = (d : ℕ) → level (some d) t ≡ some d

pub Plain-append : (s t : Text) → Plain s → Plain t → Plain (s ++ t)
Plain-append s t p q = λ d. rw (level-append (some d) s t, p d) (q d)

-- No character is a brace, or becomes one in the name of a variable.
abbrev pub clean_char : ℕ → Bool
clean_char c = not (c == b'{') && not (c == b'}') && leb c 126

abbrev pub IsClean : Text → Type 0
IsClean [] = Unit
IsClean (c ∷ t) = (clean_char c ≡ true) × IsClean t

abbrev NoBrace : ℕ → Type 0
NoBrace c = ((c == b'{') ≡ false) × ((c == b'}') ≡ false)

Plain-cons : (c : ℕ) (t : Text) → NoBrace c → Plain t → Plain (c ∷ t)
Plain-cons c t h p d = rw (h.0, h.1) (p d)

pub IsClean-Plain : (t : Text) → IsClean t → Plain t
IsClean-Plain [] h = λ d. refl
IsClean-Plain (c ∷ t) h = Plain-cons c t (ground arith) (IsClean-Plain t h.1)

var_char_lem : (c : ℕ) → clean_char c ≡ true → NoBrace (var_char c)
unfolding var_char
var_char_lem c h = ground arith

pub get_var_name-Plain : (s : Key) → IsClean s → Plain (get_var_name s)
unfolding get_var_name
get_var_name-Plain [] h = λ d. refl
get_var_name-Plain (c ∷ s) h =
    Plain-cons (var_char c) (get_var_name s) (var_char_lem c h.0) (get_var_name-Plain s h.1)

digits-Plain : (f n : ℕ) (acc : Text) → Plain acc → Plain (digits f n acc)
unfolding digits
digits-Plain zero n acc p = p
digits-Plain (suc f) n acc p =
    let q = Plain-cons (48 + n % 10) acc (ground arith) p in
    elim (Bool-cases (ltb n 10)) [
      | inl e ↦ rw e q
      | inr e ↦ rw e (digits-Plain f (n / 10) ((48 + n % 10) ∷ acc) q)
    ]

pub decimal-Plain : (n : ℕ) → Plain (decimal n)
unfolding decimal
decimal-Plain n = digits-Plain (suc n) n [] (λ d. refl)

pub spaces-Plain : (n : ℕ) → Plain (spaces n)
spaces-Plain zero d = refl
spaces-Plain (suc n) d = spaces-Plain n d

-- The depth behind what is written, texts that were computed left out.
abbrev pub levels : Option ℕ → List Piece → Option ℕ
levels o [] = o
levels o (lit s ∷ ps) = levels (level o (codes s)) ps
levels o (var t ∷ ps) = levels o ps

abbrev pub AllPlain : List Text → Type 0
AllPlain [] = Unit
AllPlain (t ∷ ts) = Plain t × AllPlain ts

-- The computed texts have no effect.
abbrev pub PlainVars : List Piece → Type 0
PlainVars [] = Unit
PlainVars (lit s ∷ ps) = PlainVars ps
PlainVars (var t ∷ ps) = Plain t × PlainVars ps

level-Plain : (o : Option ℕ) (t : Text) → Plain t → level o t ≡ o
level-Plain none t p = level-none t
level-Plain (some d) t p = p d

pub level-text_of :
    (o : Option ℕ) (ps : List Piece) → PlainVars ps → level o (text_of ps) ≡ levels o ps
level-text_of o [] h = refl
level-text_of o (lit s ∷ ps) h =
    level-append o (codes s) (text_of ps) ∙ level-text_of (level o (codes s)) ps h
level-text_of o (var t ∷ ps) h =
    level-append o t (text_of ps) ∙ rw (level-Plain o t h.0) (level-text_of o ps h.1)

-- `retModStr` is no text or a plain one.
abbrev pub PlainRet : Option Text → Type 0
PlainRet none = Unit
PlainRet (some r) = Plain r

pub ret_mod-Plain : (ret : Option Text) → PlainRet ret → Plain (ret_mod ret)
ret_mod-Plain none h = λ d. refl
ret_mod-Plain (some r) h = Plain-append r (codes " = ") h (λ d. refl)

pub inc_text-Plain : (ret : Option Text) → PlainRet ret → Plain (inc_text ret)
inc_text-Plain none h = λ d. refl
inc_text-Plain (some r) h = Plain-append r (codes "->inc();") h (λ d. refl)
