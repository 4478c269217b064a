-- ===== src/Trie/Insert.antt =====
-- Insertion into a well-formed trie: it ends, returns what the key had, and changes that key alone.
pub mod Next
use lfsc.Common.{
  ℕ, zero, suc, ◌+◌, ap, ◌<◌, ◌≡◌, refl, sym, inl, inr, Bool, true, false, Option, none, some, [],
  ◌∷◌, arith, ◌==◌, ==_iff, Bool-cases, ◌∙◌, ◌||◌, ◌&&◌, leb, Option-cases, if◌then◌else◌, get_or,
  length, list_eq,
}
use lfsc.Trie.{
  Key, Trie, trie, Children, end, size, find, assign, blank, new_trie, get, insert_next, insert,
}
use lfsc.Trie.Find.{
  find-assign, IsTrie, unused, branch, here, leaf, AllChildren, all_end, find-IsTrie,
  assign-AllChildren,
}
pub use Next.{Inserted}
use Next.{Put, put, get-new, get_or-IsTrie, new-Inserted, get-branch, get-blank}

module _ {ℓ} {D : Type ℓ} (dflt : D) where
  -- At a node with children, the key `c ∷ s` goes to the children.
  module _ (f : ℕ) {n : Children D} (c : ℕ) (s : Key) (x : D) (a : AllChildren dflt n)
      (r : let t = get_or (find n c) (new_trie dflt) in
        Inserted dflt t s x (insert dflt f t s x)) where
    below : Put dflt n true c s x (insert_next dflt (insert dflt f) n true c s x)
    below = put dflt f n true c s x a r

    now-branch :
        (d : D) (str : Option Key)
        → blank str ≡ true
        → (k : Key)
        → get dflt (trie str d true below.next') k
          ≡ (if list_eq (c ∷ s) k then some x else get dflt (trie str d true n) k)
    now-branch d str b [] =
        get-blank dflt d str true below.next' b ∙ sym (get-blank dflt d str true n b)
    now-branch d str b (j ∷ k) =
        get-branch dflt below.next' d str b j k ∙ below.now j k ∙ rw (get-branch dflt n d str b j k)

    branch-Inserted :
        (d : D)
        → d ≡ dflt
        → Inserted dflt
            (trie none d true n)
            (c ∷ s)
            x
            (insert dflt (suc f) (trie none d true n) (c ∷ s) x)
    unfolding insert
    branch-Inserted d e = record {
      after = trie none d true below.next';
      old = below.old;
      returns = rw (below.returns, insert);
      valid = branch e below.valid;
      was = get-branch dflt n d none refl c s ∙ below.was;
      now = now-branch d none refl;
    }

    here-Inserted :
        (d : D)
        → Inserted dflt
            (trie (some []) d true n)
            (c ∷ s)
            x
            (insert dflt (suc f) (trie (some []) d true n) (c ∷ s) x)
    unfolding insert
    here-Inserted d = record {
      after = trie (some []) d true below.next';
      old = below.old;
      returns = rw (below.returns, insert);
      valid = here below.valid;
      was = get-branch dflt n d (some []) refl c s ∙ below.was;
      now = now-branch d (some []) refl;
    }

  get-leaf : (b : ℕ) (k : Key) (d : D) → get dflt (trie (some (b ∷ k)) d false end) [] ≡ some dflt
  unfolding get
  get-leaf b k d = refl

  -- The children of a leaf `b ∷ k` once its key has been pushed down.
  module _ (f : ℕ) (b : ℕ) (k : Key) (d : D) where
    pushed : Put dflt end false b k d (insert_next dflt (insert dflt (suc f)) end false b k d)
    pushed = put dflt (suc f) end false b k d all_end (new-Inserted dflt f k d)

    pushed-returns :
        insert_next dflt (insert dflt (suc f)) end false b k d
        ≡ some (pushed.next', true, pushed.old)
    pushed-returns = pushed.returns ∙ ground arith

    get-pushed :
        (e : D) (str : Option Key)
        → blank str ≡ true
        → (j : ℕ) (l : Key)
        → get dflt (trie str e true pushed.next') (j ∷ l)
          ≡ get dflt (trie (some (b ∷ k)) d false end) (j ∷ l)
    unfolding get
    get-pushed e str h j l =
        get-branch dflt pushed.next' e str h j l ∙ pushed.now j l ∙ rw (get-new dflt l)

    leaf-Inserted_nil :
        (x : D)
        → Inserted dflt
            (trie (some (b ∷ k)) d false end)
            []
            x
            (insert dflt (suc (suc f)) (trie (some (b ∷ k)) d false end) [] x)
    unfolding insert get
    leaf-Inserted_nil x = record {
      after = trie (some []) x true pushed.next';
      old = dflt;
      returns = rw (pushed-returns, insert);
      valid = here pushed.valid;
      was = refl;
      now = elim [ [] ↦ refl | j ∷ l ↦ get-pushed x (some []) refl j l ];
    }

    leaf-Inserted :
        (c : ℕ) (s : Key) (x : D)
        → (let t = get_or (find pushed.next' c) (new_trie dflt) in
            Inserted dflt t s x (insert dflt (suc f) t s x))
        → Inserted dflt
            (trie (some (b ∷ k)) d false end)
            (c ∷ s)
            x
            (insert dflt (suc (suc f)) (trie (some (b ∷ k)) d false end) (c ∷ s) x)
    unfolding insert
    leaf-Inserted c s x r =
        let p = below (suc f) c s x pushed.valid r in
        record {
          after = trie none dflt true p.next';
          old = p.old;
          returns = rw (pushed-returns, p.returns, insert);
          valid = branch refl p.valid;
          was =
              sym (get-pushed dflt none refl c s)
              ∙ get-branch dflt pushed.next' dflt none refl c s
              ∙ p.was;
          now = elim [
            | [] ↦ get-blank dflt dflt none true p.next' refl ∙ sym (get-leaf b k d)
            | j ∷ l ↦
                now-branch (suc f) c s x pushed.valid r dflt none refl (j ∷ l)
                ∙ rw (get-pushed dflt none refl j l)
          ];
        }

  -- Enough fuel is the key's length and two.
  pub insert-Inserted :
      (f : ℕ) {t : Trie D} (s : Key) (x : D)
      → length s + 1 < f
      → IsTrie dflt t
      → Inserted dflt t s x (insert dflt f t s x)
  unfolding insert get
  insert-Inserted zero s x h v = absurd (omega arith)
  insert-Inserted (suc zero) s x h v = absurd (omega arith)
  insert-Inserted (suc (suc f)) [] x h (unused e) = record {
    after = trie (some []) x false end;
    old = dflt;
    returns = refl;
    valid = leaf [];
    was = ap some e;
    now = elim [ [] ↦ refl | j ∷ k ↦ refl ];
  }
  insert-Inserted (suc (suc f)) [] x h (branch {n} e a) = record {
    after = trie (some []) x true n;
    old = dflt;
    returns = refl;
    valid = here a;
    was = ap some e;
    now = elim [ [] ↦ refl | j ∷ k ↦ refl ];
  }
  insert-Inserted (suc (suc f)) [] x h (here {d} {n} a) = record {
    after = trie (some []) x true n;
    old = d;
    returns = refl;
    valid = here a;
    was = refl;
    now = elim [ [] ↦ refl | j ∷ k ↦ refl ];
  }
  insert-Inserted (suc (suc f)) [] x h (leaf {d} []) = record {
    after = trie (some []) x false end;
    old = d;
    returns = refl;
    valid = leaf [];
    was = refl;
    now = elim [ [] ↦ refl | j ∷ k ↦ refl ];
  }
  insert-Inserted (suc (suc f)) [] x h (leaf {d} (b ∷ k)) = leaf-Inserted_nil f b k d x
  insert-Inserted (suc (suc f)) (c ∷ s) x h (unused e) = record {
    after = trie (some (c ∷ s)) x false end;
    old = dflt;
    returns = refl;
    valid = leaf (c ∷ s);
    was = refl;
    now = elim [ [] ↦ ap some (sym e) | j ∷ k ↦ refl ];
  }
  insert-Inserted (suc (suc f)) (c ∷ s) x h (branch {d} {n} e a) =
      branch-Inserted (suc f) c s x a
        (insert-Inserted (suc f) s x (omega arith) (get_or-IsTrie dflt n c a)) d e
  insert-Inserted (suc (suc f)) (c ∷ s) x h (here {d} {n} a) =
      here-Inserted (suc f) c s x a
        (insert-Inserted (suc f) s x (omega arith) (get_or-IsTrie dflt n c a)) d
  insert-Inserted (suc (suc f)) (c ∷ s) x h (leaf {d} []) =
      let p = pushed f c s x in
      record {
        after = trie (some []) d true p.next';
        old = p.old;
        returns = rw (pushed-returns f c s x, insert);
        valid = here p.valid;
        was = sym (get-new dflt s) ∙ p.was;
        now = elim [ [] ↦ refl | j ∷ k ↦ get-pushed f c s x d (some []) refl j k ];
      }
  insert-Inserted (suc (suc f)) (c ∷ s) x h (leaf {d} (b ∷ k)) = leaf-Inserted f b k d c s x (
      insert-Inserted (suc f) s x (omega arith)
        (get_or-IsTrie dflt (pushed f b k d).next' c (pushed f b k d).valid))
