-- ===== src/Trie/Scope.antt =====
-- Scopes: a binding is undone by inserting the value that its insertion returned. The checker does
-- so for every binder, and from the last to the first for a list of declarations.
use lfsc.Common.{
  ◌+◌, ◌≡◌, refl, sym, ap, ◌∙◌, Option, none, some, List, [], ◌∷◌, arith, if◌then◌else◌, length,
  list_eq, eq_of_list_eq, Bool-cases, inl, inr,
}
use lfsc.Trie.{Key, Trie, get, insert}
use lfsc.Trie.Find.{IsTrie}
use lfsc.Trie.Insert.{Inserted, insert-Inserted}

module _ {ℓ} {D : Type ℓ} (dflt : D) where
  -- `insert` with the fuel that its key needs.
  unfoldable pub insert_key : Trie D → Key → D → Option (Trie D × D)
  insert_key t s x = insert dflt (length s + 2) t s x

  -- Each declaration is bound in turn, and what it hid is kept (`old_bindings`).
  unfoldable pub bind_all : Trie D → List (Key × D) → Option (Trie D × List (Key × D))
  bind_all t [] = some (t, [])
  bind_all t ((s, x) ∷ l) = elim (insert_key t s x) [
    | none ↦ none
    | some (t₁, old) ↦ elim (bind_all t₁ l) [
      | none ↦ none
      | some (t₂, olds) ↦ some (t₂, (s, old) ∷ olds)
    ]
  ]

  -- The hidden bindings are put back from the last to the first (`rbegin` to `rend`).
  unfoldable pub restore_all : Trie D → List (Key × D) → Option (Trie D)
  restore_all t [] = some t
  restore_all t ((s, old) ∷ l) = elim (restore_all t l) [
    | none ↦ none
    | some t₁ ↦ elim (insert_key t₁ s old) [ none ↦ none | some (t₂, _) ↦ some t₂ ]
  ]

  pub insert_key-Inserted :
      {t : Trie D} (s : Key) (x : D) → IsTrie dflt t → Inserted dflt t s x (insert_key t s x)
  unfolding insert_key
  insert_key-Inserted s x v = insert-Inserted dflt (length s + 2) s x (omega arith) v

  -- In a well-formed table, inserting ends with a well-formed table and the value that the key had
  -- (`Data()` for none), and gives the key, and no other, the new value.
  pub get-insert :
      {t : Trie D} (s : Key) (x : D)
      → IsTrie dflt t
      → (t₁ : Trie D) × (old : D) × (insert_key t s x ≡ some (t₁, old))
        × IsTrie dflt t₁
        × (get dflt t s ≡ some old)
        × ((k : Key) → get dflt t₁ k ≡ (if list_eq s k then some x else get dflt t k))
  get-insert s x v =
      let r = insert_key-Inserted s x v in (r.after, r.old, r.returns, r.valid, r.was, r.now)

  -- Giving a key its old value undoes the change.
  pub put_back :
      (s k : Key) (before after : Key → Option D) (x old : D) (y : Option D)
      → before s ≡ some old
      → after k ≡ (if list_eq s k then some x else before k)
      → y ≡ after k
      → (if list_eq s k then some old else y) ≡ before k
  put_back s k before after x old y was now a = elim (Bool-cases (list_eq s k)) [
    | inl e ↦ rw e (sym was ∙ ap before (eq_of_list_eq s k e))
    | inr e ↦ rw e (a ∙ now ∙ rw e)
  ]

  -- Two tables that agree at every key.
  abbrev pub Agree : Trie D → Trie D → Type ℓ
  Agree t u = (k : Key) → get dflt t k ≡ get dflt u k

  -- Binding a list of declarations and restoring what they hid ends, and leaves every key with
  -- the value that it had, also where the list binds a key twice. The table in between may be
  -- replaced by any well-formed table that agrees with it.
  pub restore_all-bind_all :
      (l : List (Key × D)) {t : Trie D}
      → IsTrie dflt t
      → (t₁ : Trie D) × (olds : List (Key × D)) × (bind_all t l ≡ some (t₁, olds))
        × IsTrie dflt t₁
        × ((u : Trie D)
            → IsTrie dflt u
            → Agree u t₁
            → (u₁ : Trie D) × (restore_all u olds ≡ some u₁) × IsTrie dflt u₁ × Agree u₁ t)
  unfolding bind_all restore_all
  restore_all-bind_all [] {t} v = (t, [], refl, v, λ u w a. (u, refl, w, a))
  restore_all-bind_all ((s, x) ∷ l) {t} v =
      let r = insert_key-Inserted s x v in
      let (t₁, olds, bound, v₁, back) = restore_all-bind_all l r.valid in
      (
        t₁,
        (s, r.old) ∷ olds,
        rw (r.returns, bound, bind_all),
        v₁,
        λ u w a.
            let (u₁, restored, w₁, a₁) = back u w a in
            let q = insert_key-Inserted s r.old w₁ in
            (
              q.after,
              rw (restored, q.returns, restore_all),
              q.valid,
              λ k.
                  q.now k
                  ∙ put_back s k (get dflt t) (get dflt r.after) x r.old _ r.was (r.now k) (a₁ k),
            ),
      )
