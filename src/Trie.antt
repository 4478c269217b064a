-- ===== src/Trie.antt =====
-- The symbol table, src/trie.h: a trie that keeps the end of a key in one node as long as no
-- second key needs the node. A child's index is a character code `unsigned c = s[0]`, taken as a
-- number with `c + 1` in range: so it is for the ASCII characters, which do not have the sign bit.
pub mod Find
pub mod Insert
pub mod Scope
mod Examples
use lfsc.Common.{
  ℕ, zero, suc, Bool, true, false, ◌&&◌, ◌||◌, Option, none, some, List, [], ◌∷◌, leb,
  if◌then◌else◌, get_or, list_eq, length,
}

-- The characters of a C string, its terminator left off.
abbrev pub Key : Type 0
Key = List ℕ

-- `str` (none: NULL), `d`, `using_next`, and the vector `next` of pointers to children.
mutual
  pub data Trie {ℓ} (D : Type ℓ) : Type ℓ where
    trie : Option Key → D → Bool → Children D → Trie D

  pub data Children {ℓ} (D : Type ℓ) : Type ℓ where
    end : Children D
    null : Children D → Children D
    sub : Trie D → Children D → Children D

module _ {ℓ} {D : Type ℓ} where
  -- `next.size()`
  abbrev pub size : Children D → ℕ
  size end = zero
  size (null n) = suc (size n)
  size (sub t n) = suc (size n)

  -- `next[c]`, with none for NULL and for an index out of range.
  abbrev pub find : Children D → ℕ → Option (Trie D)
  find end c = none
  find (null n) zero = none
  find (null n) (suc c) = find n c
  find (sub t n) zero = some t
  find (sub t n) (suc c) = find n c

  -- `if (c >= next.size()) next.resize(c + 1); next[c] = t`
  abbrev pub assign : Children D → ℕ → Trie D → Children D
  assign end zero t = sub t end
  assign end (suc c) t = null (assign end c t)
  assign (null n) zero t = sub t n
  assign (null n) (suc c) t = null (assign n c t)
  assign (sub u n) zero t = sub t n
  assign (sub u n) (suc c) t = sub u (assign n c t)

-- `!str || !str[0]`
abbrev pub blank : Option Key → Bool
blank none = true
blank (some []) = true
blank (some (c ∷ k)) = false

-- `str && strcmp(str, s) == 0`
abbrev pub same : Option Key → Key → Bool
same none s = false
same (some k) s = list_eq k s

abbrev pub is_empty : Key → Bool
is_empty [] = true
is_empty (c ∷ s) = false

-- `dflt` is the value `Data()`.
module _ {ℓ} {D : Type ℓ} (dflt : D) where
  abbrev pub new_trie : Trie D
  new_trie = trie none dflt false end

  -- `none` is the failed assertion of get_next at an empty key.
  unfoldable pub get : Trie D → Key → Option D
  get (trie str d using_next next) [] =
      if blank str then some d else (if using_next then none else some dflt)
  get (trie str d using_next next) (c ∷ s) =
      if same str (c ∷ s)
      then some d
      else if using_next
      then (elim (find next c) [ none ↦ some dflt | some t ↦ get t s ])
      else some dflt

  -- `insert_next`, over the `insert` of the children. The result's second part is `using_next`.
  unfoldable pub insert_next :
      (Trie D → Key → D → Option (Trie D × D))
      → Children D
      → Bool
      → ℕ
      → Key
      → D
      → Option (Children D × Bool × D)
  insert_next insert next using_next c s x = elim (insert (get_or (find next c) new_trie) s x) [
    | none ↦ none
    | some (t, old) ↦ some (assign next c t, using_next || leb (size next) c, old)
  ]

  -- A child's insert is given one less fuel. The result's second part is the returned value.
  unfoldable pub insert : ℕ → Trie D → Key → D → Option (Trie D × D)
  insert zero t s x = none
  insert (suc f) (trie none d using_next next) [] x = some (trie (some []) x using_next next, dflt)
  insert (suc f) (trie (some []) d using_next next) [] x =
      some (trie (some []) x using_next next, d)
  insert (suc f) (trie (some (b ∷ k)) d using_next next) [] x =
      elim (insert_next (insert f) next using_next b k d) [
        | none ↦ none
        | some (next', un, _) ↦ some (trie (some []) x un next', dflt)
      ]
  insert (suc f) (trie none d using_next next) (a ∷ s) x =
      let below = insert_next (insert f) next using_next a s x in
      if using_next
      then (elim below [ none ↦ none | some (next', un, old) ↦ some (trie none d un next', old) ])
      else some (trie (some (a ∷ s)) x using_next next, dflt)
  insert (suc f) (trie (some []) d using_next next) (a ∷ s) x =
      elim (insert_next (insert f) next using_next a s x) [
        | none ↦ none
        | some (next', un, old) ↦ some (trie (some []) d un next', old)
      ]
  insert (suc f) (trie (some (b ∷ k)) d using_next next) (a ∷ s) x =
      elim (insert_next (insert f) next using_next b k d) [
        | none ↦ none
        | some (next₁, un₁, _) ↦ elim (insert_next (insert f) next₁ un₁ a s x) [
          | none ↦ none
          | some (next₂, un₂, old) ↦ some (trie none dflt un₂ next₂, old)
        ]
      ]
