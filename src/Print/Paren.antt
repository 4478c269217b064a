-- ===== src/Print/Paren.antt =====
-- Texts whose parentheses are balanced, and the constant texts of `Expr::print`.
use lfsc.Common.{
  ℕ, zero, suc, ◌+◌, ◌/◌, ◌%◌, ◌≡◌, refl, Bool, true, false, not, ◌&&◌, Option, none, some, [], ◌∷◌,
  ◌++◌, String, ◌==◌, ltb, if◌then◌else◌, arith, Bool-cases, inl, inr,
}
use mathlib.Core.List.{append_assoc}
use lfsc.Header.{Op, op_code, class_code}
use lfsc.SccWriter.{Text, codes, decimal, digits}
use lfsc.Print.{group, op_text, constant_text}

-- The texts whose parentheses are balanced.
pub data IsBalanced : Text → Type 0 where
  nothing : IsBalanced []
  char :
      {c : ℕ} {t : Text}
      → (c == b'(') ≡ false
      → (c == b')') ≡ false
      → IsBalanced t
      → IsBalanced (c ∷ t)
  nest : {s t : Text} → IsBalanced s → IsBalanced t → IsBalanced (b'(' ∷ (s ++ b')' ∷ t))

-- A text without parentheses.
abbrev pub HasNoParen : Text → Type 0
HasNoParen [] = Unit
HasNoParen (c ∷ t) = ((c == b'(') ≡ false) × ((c == b')') ≡ false) × HasNoParen t

pub HasNoParen-IsBalanced : (t : Text) → HasNoParen t → IsBalanced t
HasNoParen-IsBalanced [] h = nothing
HasNoParen-IsBalanced (c ∷ t) h = char h.0 h.1 (HasNoParen-IsBalanced t h.2)

nest-append : (s t u : Text) → (b'(' ∷ (s ++ b')' ∷ t)) ++ u ≡ b'(' ∷ (s ++ b')' ∷ (t ++ u))
nest-append s t u = simp append_assoc

pub append-IsBalanced : {s t : Text} → IsBalanced s → IsBalanced t → IsBalanced (s ++ t)
append-IsBalanced nothing q = q
append-IsBalanced (char a b p) q = char a b (append-IsBalanced p q)
append-IsBalanced {t = u} (nest {s} {t} p r) q =
    rw (nest-append s t u) (nest p (append-IsBalanced r q))

pub group-IsBalanced : {t : Text} → IsBalanced t → IsBalanced (group t)
group-IsBalanced p = nest p nothing

digits-IsBalanced : (f n : ℕ) (acc : Text) → IsBalanced acc → IsBalanced (digits f n acc)
unfolding digits
digits-IsBalanced zero n acc p = p
digits-IsBalanced (suc f) n acc p =
    let q : IsBalanced ((48 + n % 10) ∷ acc) = char (ground arith) (ground arith) p in
    elim (Bool-cases (ltb n 10)) [
      | inl e ↦ rw e q
      | inr e ↦ rw e (digits-IsBalanced f (n / 10) ((48 + n % 10) ∷ acc) q)
    ]

pub if-IsBalanced :
    (b : Bool) {s t : Text} → IsBalanced s → IsBalanced t → IsBalanced (if b then s else t)
if-IsBalanced true p q = p
if-IsBalanced false p q = q

decimal-IsBalanced : (n : ℕ) → IsBalanced (decimal n)
unfolding decimal
decimal-IsBalanced n = digits-IsBalanced (suc n) n [] nothing

abbrev pub no_paren : Text → Bool
no_paren [] = true
no_paren (c ∷ t) = not (c == b'(') && (not (c == b')') && no_paren t)

no_paren_lem : (t : Text) → no_paren t ≡ true → HasNoParen t
no_paren_lem [] h = tt
no_paren_lem (c ∷ t) h = (ground arith, ground arith, no_paren_lem t (ground arith))

pub literal : (s : String) → no_paren (codes s) ≡ true → IsBalanced (codes s)
literal s h = HasNoParen-IsBalanced (codes s) (no_paren_lem (codes s) h)

abbrev pub no_paren_in : Option String → Bool
no_paren_in none = true
no_paren_in (some s) = no_paren (codes s)

pub op_text_lem : (o : Op) → no_paren_in (op_text o) ≡ true
op_text_lem Op.app = refl
op_text_lem _ = refl

pub constant_text-IsBalanced : (o : Op) → IsBalanced (constant_text o)
unfolding constant_text class_code
constant_text-IsBalanced Op.type = literal "type" refl
constant_text-IsBalanced Op.kind = literal "kind" refl
constant_text-IsBalanced Op.mpz = literal "mpz" refl
constant_text-IsBalanced Op.mpq = literal "mpq" refl
constant_text-IsBalanced o =
    append-IsBalanced
      (append-IsBalanced (literal "; unrecognized form of expr" refl)
        (nest (literal "2" refl) (literal " " refl)))
      (append-IsBalanced (decimal-IsBalanced (op_code o)) (char refl refl (decimal-IsBalanced 0)))
