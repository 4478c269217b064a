-- ===== src/Trie/Insert/Next.antt =====
-- Insertion into a new trie, and into the children of a node: `insert_next`.
use lfsc.Common.{
  ℕ, suc, ◌≡◌, refl, inl, inr, Bool, true, false, Option, none, some, [], ◌∷◌, ◌==◌, ==_iff,
  Bool-cases, ◌∙◌, ◌||◌, ◌&&◌, leb, Option-cases, if◌then◌else◌, get_or, list_eq,
}
use lfsc.Trie.{
  Key, Trie, trie, Children, end, size, find, assign, blank, new_trie, get, insert_next, insert,
}
use lfsc.Trie.Find.{find-assign, IsTrie, unused, leaf, AllChildren, find-IsTrie, assign-AllChildren}

module _ {ℓ} {D : Type ℓ} (dflt : D) where
  -- What `insert` owes at the trie `t`, the key `s` and the value `x`.
  pub record Inserted (t : Trie D) (s : Key) (x : D) (r : Option (Trie D × D)) : Type ℓ where
    pub after : Trie D
    pub old : D
    pub returns : r ≡ some (after, old)
    pub valid : IsTrie dflt after
    pub was : get dflt t s ≡ some old
    pub now : (k : Key) → get dflt after k ≡ (if list_eq s k then some x else get dflt t k)

  pub get-new : (s : Key) → get dflt (new_trie dflt) s ≡ some dflt
  unfolding get
  get-new [] = refl
  get-new (c ∷ s) = refl

  insert-new :
      (f : ℕ) (s : Key) (x : D)
      → insert dflt (suc f) (new_trie dflt) s x ≡ some (trie (some s) x false end, dflt)
  unfolding insert
  insert-new f [] x = refl
  insert-new f (c ∷ s) x = refl

  -- The value of the key `c ∷ s`, as the children have it.
  abbrev pub child : Children D → ℕ → Key → Option D
  child n c s = get dflt (get_or (find n c) (new_trie dflt)) s

  get_next-child :
      (n : Children D) (c : ℕ) (s : Key)
      → (elim (find n c) [ none ↦ some dflt | some t ↦ get dflt t s ]) ≡ child n c s
  get_next-child n c s = elim (Option-cases (find n c)) [
    | inl e ↦ rw e (rw (get-new s))
    | inr (t, e) ↦ rw e
  ]

  pub get_or-IsTrie :
      (n : Children D) (c : ℕ)
      → AllChildren dflt n
      → IsTrie dflt (get_or (find n c) (new_trie dflt))
  get_or-IsTrie n c a = elim (Option-cases (find n c)) [
    | inl e ↦ rw e (unused refl)
    | inr (t, e) ↦ rw e (find-IsTrie c a t e)
  ]

  -- What `insert_next` owes.
  pub record Put (n : Children D) (un : Bool) (c : ℕ) (s : Key) (x : D)
      (r : Option (Children D × Bool × D)) : Type ℓ where
    pub next' : Children D
    pub old : D
    pub returns : r ≡ some (next', un || leb (size n) c, old)
    pub valid : AllChildren dflt next'
    pub was : child n c s ≡ some old
    pub now :
        (j : ℕ) (k : Key)
        → child next' j k ≡ (if (c == j) && list_eq s k then some x else child n j k)

  pub put :
      (f : ℕ) (n : Children D) (un : Bool) (c : ℕ) (s : Key) (x : D)
      → AllChildren dflt n
      → (let t = get_or (find n c) (new_trie dflt) in Inserted t s x (insert dflt f t s x))
      → Put n un c s x (insert_next dflt (insert dflt f) n un c s x)
  unfolding insert_next
  put f n un c s x a r = record {
    next' = assign n c r.after;
    old = r.old;
    returns = rw (r.returns, insert_next);
    valid = assign-AllChildren c a r.valid;
    was = r.was;
    now = λ j k. rw (find-assign n c j r.after) (elim (Bool-cases (c == j)) [
      | inl e ↦ rw e (r.now k ∙ rw ((==_iff c j).0 e))
      | inr e ↦ rw e
    ]);
  }

  pub new-Inserted :
      (f : ℕ) (s : Key) (x : D)
      → Inserted (new_trie dflt) s x (insert dflt (suc f) (new_trie dflt) s x)
  unfolding get
  new-Inserted f s x = record {
    after = trie (some s) x false end;
    old = dflt;
    returns = insert-new f s x;
    valid = leaf s;
    was = get-new s;
    now =
        elim s
          as (λ s.
            (k : Key)
            → get dflt (trie (some s) x false end) k
              ≡ (if list_eq s k then some x else get dflt (new_trie dflt) k)) [
                | [] ↦ elim [ [] ↦ refl | c ∷ k ↦ refl ]
                | b ∷ s ↦ elim [ [] ↦ refl | c ∷ k ↦ refl ]
              ];
  }

  pub get-branch :
      (n : Children D) (d : D) (str : Option Key)
      → blank str ≡ true
      → (j : ℕ) (k : Key) → get dflt (trie str d true n) (j ∷ k) ≡ child n j k
  unfolding get
  get-branch n d none b j k = get_next-child n j k
  get-branch n d (some []) b j k = get_next-child n j k
  get-branch n d (some (e ∷ l)) b j k = cc

  pub get-blank :
      (d : D) (str : Option Key) (un : Bool) (n : Children D)
      → blank str ≡ true
      → get dflt (trie str d un n) [] ≡ some d
  unfolding get
  get-blank d str un n b = rw b
