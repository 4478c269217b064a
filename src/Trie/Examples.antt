-- ===== src/Trie/Examples.antt =====
-- Runs of the symbol table, and the theorems at concrete tables.
use lfsc.Common.{ℕ, ◌≡◌, refl, Option, none, some, List, [], ◌∷◌, list_eq, if◌then◌else◌}
use mathlib.Core.Bool.{false}
use lfsc.Trie.{Key, Trie, trie, end, new_trie, get, insert_next, insert}
use lfsc.Trie.Find.{IsTrie, leaf}
use lfsc.Trie.Scope.{insert_key, bind_all, restore_all, get-insert, restore_all-bind_all, Agree}

abbrev a : Key
a = b'a' ∷ []

abbrev abc : Key
abc = b'a' ∷ b'b' ∷ b'c' ∷ []

-- The run of unit_test_trie.
unit_test : Option (List (Option ℕ))
unfolding insert insert_next get insert_key
unit_test =
    elim (bind_all {D = ℕ} 0 (new_trie 0)
      ((a, 1) ∷ (b'b' ∷ [], 2) ∷ (abc, 3) ∷ (b'b' ∷ [], 0) ∷ [])) [
        | none ↦ none
        | some (t, _) ↦ some (get 0 t a ∷ get 0 t (b'b' ∷ []) ∷ get 0 t abc ∷ [])
      ]

unit_test_output : unit_test ≡ some (some 1 ∷ some 0 ∷ some 3 ∷ [])
unfolding unit_test bind_all insert_key insert insert_next get
unit_test_output = refl

abbrev one : Trie ℕ
one = trie (some abc) 7 false end

get-insert_example :
    (t₁ : Trie ℕ) × (old : ℕ) × (insert_key 0 one a 5 ≡ some (t₁, old))
    × IsTrie 0 t₁
    × (get 0 one a ≡ some old)
    × ((k : Key) → get 0 t₁ k ≡ (if list_eq a k then some 5 else get 0 one k))
get-insert_example = get-insert 0 a 5 (leaf abc)

restore_all-bind_all_example :
    (t₁ : Trie ℕ) × (olds : List (Key × ℕ)) × (bind_all 0 one ((a, 5) ∷ (abc, 6) ∷ (a, 8) ∷ [])
      ≡ some (t₁, olds))
    × IsTrie 0 t₁
    × ((u : Trie ℕ)
        → IsTrie 0 u
        → Agree 0 u t₁
        → (u₁ : Trie ℕ) × (restore_all 0 u olds ≡ some u₁) × IsTrie 0 u₁ × Agree 0 u₁ one)
restore_all-bind_all_example = restore_all-bind_all 0 ((a, 5) ∷ (abc, 6) ∷ (a, 8) ∷ []) (leaf abc)
