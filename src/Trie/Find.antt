-- ===== src/Trie/Find.antt =====
-- The vector of children, and the well-formed tries.
use lfsc.Common.{ℕ, zero, suc, ◌≡◌, true, false, none, some, [], arith, ◌==◌, if◌then◌else◌}
use mathlib.Core.Path.{subst}
use mathlib.Core.Option.{some-injective}
use lfsc.Trie.{Key, Trie, trie, Children, end, null, sub, find, assign}

module _ {ℓ} {D : Type ℓ} where
  pub find-assign :
      (n : Children D) (c j : ℕ) (t : Trie D)
      → find (assign n c t) j ≡ (if c == j then some t else find n j)
  find-assign end zero zero t = ground arith
  find-assign end zero (suc j) t = ground arith
  find-assign end (suc c) zero t = ground arith
  find-assign end (suc c) (suc j) t = ground (arith, find-assign end c j t)
  find-assign (null n) zero zero t = ground arith
  find-assign (null n) zero (suc j) t = ground arith
  find-assign (null n) (suc c) zero t = ground arith
  find-assign (null n) (suc c) (suc j) t = ground (arith, find-assign n c j t)
  find-assign (sub u n) zero zero t = ground arith
  find-assign (sub u n) zero (suc j) t = ground arith
  find-assign (sub u n) (suc c) zero t = ground arith
  find-assign (sub u n) (suc c) (suc j) t = ground (arith, find-assign n c j t)

-- The well-formed tries: a stored key leaves no children, a node with no key holds `Data()`, and
-- `using_next` is false only of a node with no children.
module _ {ℓ} {D : Type ℓ} (dflt : D) where
  mutual
    pub data IsTrie : Trie D → Type ℓ where
      unused : {d : D} → d ≡ dflt → IsTrie (trie none d false end)
      branch : {d : D} {n : Children D} → d ≡ dflt → AllChildren n → IsTrie (trie none d true n)
      here : {d : D} {n : Children D} → AllChildren n → IsTrie (trie (some []) d true n)
      leaf : {d : D} (k : Key) → IsTrie (trie (some k) d false end)

    pub data AllChildren : Children D → Type ℓ where
      all_end : AllChildren end
      all_null : {n : Children D} → AllChildren n → AllChildren (null n)
      all_sub : {t : Trie D} {n : Children D} → IsTrie t → AllChildren n → AllChildren (sub t n)

module _ {ℓ} {D : Type ℓ} {dflt : D} where
  pub find-IsTrie :
      (c : ℕ) {n : Children D}
      → AllChildren dflt n
      → (t : Trie D) → find n c ≡ some t
      → IsTrie dflt t
  find-IsTrie c all_end t e = cc
  find-IsTrie zero (all_null a) t e = cc
  find-IsTrie (suc c) (all_null a) t e = find-IsTrie c a t e
  find-IsTrie zero (all_sub v a) t e = subst (IsTrie dflt) (some-injective _ _ e) v
  find-IsTrie (suc c) (all_sub v a) t e = find-IsTrie c a t e

  pub assign-AllChildren :
      (c : ℕ) {n : Children D} {t : Trie D}
      → AllChildren dflt n
      → IsTrie dflt t
      → AllChildren dflt (assign n c t)
  assign-AllChildren zero all_end v = all_sub v all_end
  assign-AllChildren (suc c) all_end v = all_null (assign-AllChildren c all_end v)
  assign-AllChildren zero (all_null a) v = all_sub v a
  assign-AllChildren (suc c) (all_null a) v = all_null (assign-AllChildren c a v)
  assign-AllChildren zero (all_sub u a) v = all_sub v a
  assign-AllChildren (suc c) (all_sub u a) v = all_sub u (assign-AllChildren c a v)
