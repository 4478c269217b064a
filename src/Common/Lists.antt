-- ===== src/Common/Lists.antt =====
-- Lists measured and indexed by native numbers, and equality of lists of numbers.
use Prim.Native.Nat.{ℕ, zero, suc, ◌+◌}
use mathlib.Core.Path.{◌≡◌, refl}
use mathlib.Core.Bool.{Bool, true, false, ◌&&◌, ◌||◌}
use mathlib.Core.List.{List, [], ◌∷◌, ◌++◌}
use mathlib.Core.Option.{Option, none, some}
use native.Mathlib.Omega.{arith}
use lfsc.Common.Tests.{◌==◌}

module _ {ℓ} {A : Type ℓ} where
  abbrev pub length : List A → ℕ
  length [] = 0
  length (x ∷ xs) = suc (length xs)

  abbrev pub get_elem? : List A → ℕ → Option A
  get_elem? [] i = none
  get_elem? (x ∷ xs) zero = some x
  get_elem? (x ∷ xs) (suc i) = get_elem? xs i

  abbrev pub take : ℕ → List A → List A
  take zero xs = []
  take (suc n) [] = []
  take (suc n) (x ∷ xs) = x ∷ take n xs

  abbrev pub get_or : Option A → A → A
  get_or none d = d
  get_or (some a) d = a

  abbrev pub All : (A → Type 0) → List A → Type 0
  All P [] = Unit
  All P (x ∷ xs) = P x × All P xs

  pub All-map : {P Q : A → Type 0} (xs : List A) → ((x : A) → P x → Q x) → All P xs → All Q xs
  All-map [] f h = tt
  All-map (x ∷ xs) f h = (f x h.0, All-map xs f h.1)

  pub length-append : (xs ys : List A) → length (xs ++ ys) ≡ length xs + length ys
  length-append [] ys = omega arith
  length-append (x ∷ xs) ys = omega (arith, length-append xs ys)

-- Equality of two lists of numbers.
abbrev pub list_eq : List ℕ → List ℕ → Bool
list_eq [] [] = true
list_eq (a ∷ s) (b ∷ t) = (a == b) && list_eq s t
list_eq _ _ = false

pub list_eq_refl : (s : List ℕ) → list_eq s s ≡ true
list_eq_refl [] = refl
list_eq_refl (a ∷ s) = ground (arith, list_eq_refl s)

pub eq_of_list_eq : (s t : List ℕ) → list_eq s t ≡ true → s ≡ t
eq_of_list_eq [] [] h = refl
eq_of_list_eq [] (b ∷ t) h = ground arith
eq_of_list_eq (a ∷ s) [] h = ground arith
eq_of_list_eq (a ∷ s) (b ∷ t) h = ground (arith, eq_of_list_eq s t)

abbrev pub mem : ℕ → List ℕ → Bool
mem a [] = false
mem a (b ∷ s) = (a == b) || mem a s
