-- ===== src/Heap/Frame.antt =====
-- What `dec` leaves of memory: it deletes and counts down, and changes nothing else.
use lfsc.Common.{
  ℕ, zero, suc, ◌≤◌, ◌≡◌, refl, ◌∙◌, ap, Bool, true, false, Bool-cases, inl, inr, none, some, List,
  [], ◌∷◌, ◌==◌, if◌then◌else◌, arith, ==_iff, Option-cases, get_or,
}
use mathlib.Core.Path.{sym as sym_path}
use lfsc.Header.{is_prog, dec_ref}
use lfsc.Heap.{
  Ptr, null, Node, int, rat, hole, sym, syms, cexp, Cell, Heap, put, Cmd, and_then, read, write,
  node, getop,
}
use lfsc.Heap.Returns
use lfsc.Heap.Returns.{Ensures, ensures, stops}
use lfsc.Heap.Count.{delete, destroy_kids, destroy_sym, destroy, dec}

dec_ref-le : (n : ℕ) → dec_ref n ≤ n
unfolding dec_ref
dec_ref-le n = ground arith

module _ {Z Q : Type 0} where
  -- What is in memory at `q` in `h'` was there in `h`, the same but for a count that may be less.
  pub record Remains (h h' : Heap Z Q) (q : Ptr) (c' : Cell Z Q) : Type 0 where
    pub before : Cell Z Q
    pub was : h.cell q ≡ some before
    pub same_node : before.node ≡ c'.node
    pub same_mark : before.mark ≡ c'.mark
    pub fewer : c'.count ≤ before.count

  pub record Shrinks (h h' : Heap Z Q) : Type 0 where
    pub same_next : h'.next ≡ h.next
    pub remains : (q : Ptr) (c' : Cell Z Q) → h'.cell q ≡ some c' → Remains h h' q c'

  Shrinks-refl : (h : Heap Z Q) → Shrinks h h
  Shrinks-refl h = record {
    same_next = refl;
    remains = λ q c' e. record {
      before = c';
      was = e;
      same_node = refl;
      same_mark = refl;
      fewer = omega arith;
    };
  }

  pub Shrinks-trans : {h i j : Heap Z Q} → Shrinks h i → Shrinks i j → Shrinks h j
  Shrinks-trans a b = record {
    same_next = b.same_next ∙ a.same_next;
    remains = λ q c' e.
        let r = b.remains q c' e in
        let t = a.remains q r.before r.was in
        record {
          before = t.before;
          was = t.was;
          same_node = t.same_node ∙ r.same_node;
          same_mark = t.same_mark ∙ r.same_mark;
          fewer = omega (arith, r.fewer, t.fewer);
        };
  }

  -- Commands that only delete and count down.
  abbrev pub Frees : Cmd (Heap Z Q) (Unit {0}) → Type 0
  Frees m = (h : Heap Z Q) → Ensures (λ _ h'. Shrinks h h') (m h)

  Frees-then :
      {m n : Cmd (Heap Z Q) (Unit {0})} → Frees m → Frees n → Frees (λ h. and_then (m h) λ _. n)
  Frees-then p q h = Returns.bind (p h) λ _ i a. Returns.mono (q i) λ _ j b. Shrinks-trans a b

  Frees-if :
      (b : Bool) {m n : Cmd (Heap Z Q) (Unit {0})} → Frees m → Frees n → Frees (if b then m else n)
  Frees-if true p q = p
  Frees-if false p q = q

  unchanged : {h h' : Heap Z Q} (q : Ptr) (c : Cell Z Q) → h.cell q ≡ some c → Remains h h' q c
  unchanged q c e = record {
    before = c;
    was = e;
    same_node = refl;
    same_mark = refl;
    fewer = omega arith;
  }

  -- One cell is deleted, or its count falls.
  deleted : (p : Ptr) (h : Heap Z Q) → Shrinks h (record h { cell = put h.cell p none })
  deleted p h = record {
    same_next = refl;
    remains = λ q c' e. elim (Bool-cases (q == p)) [
      | inl y ↦ let gone = rw y at e in absurd cc
      | inr n ↦ unchanged q c' (rw n at e)
    ];
  }

  fewer_there :
      (p : Ptr) (c : Cell Z Q) (k : ℕ) (h : Heap Z Q)
      → h.cell p ≡ some c
      → k ≤ c.count
      → Shrinks h (record h { cell = put h.cell p (some (record c { count = k })) })
  fewer_there p c k h e l = record {
    same_next = refl;
    remains = λ q c' a. elim (Bool-cases (q == p)) [
      | inl y ↦
          let same : record c { count = k } ≡ c' = ap (λ o. get_or o c) (rw y at a) in
          record {
            before = c;
            was = ap h.cell ((==_iff q p).0 y) ∙ e;
            same_node = ap (λ d. d.node) same;
            same_mark = ap (λ d. d.mark) same;
            fewer = rw (ap (λ (d : Cell Z Q). d.count) (sym_path same)) l;
          }
      | inr n ↦ unchanged q c' (rw n at a)
    ];
  }

  if_at :
      (b : Bool) (m n : Cmd (Heap Z Q) (Unit {0})) (h : Heap Z Q)
      → Ensures (λ _ h'. Shrinks h h') (m h)
      → Ensures (λ _ h'. Shrinks h h') (n h)
      → Ensures (λ _ h'. Shrinks h h') ((if b then m else n) h)
  if_at true m n h p q = p
  if_at false m n h p q = q

  delete-Frees : (p : Ptr) → Frees (delete p)
  unfolding delete read write
  delete-Frees p h = elim (Option-cases (h.cell p)) [
    | inl e ↦ rw (delete, read, e) stops
    | inr (c, e) ↦ rw (delete, read, e) (ensures (deleted p h))
  ]

  getop-Shrinks : (p : Ptr) (h : Heap Z Q) → Ensures (λ _ h'. Shrinks h h') (getop p h)
  unfolding getop node read
  getop-Shrinks p h = elim (Option-cases (h.cell p)) [
    | inl e ↦ rw (getop, node, read, e) stops
    | inr (c, e) ↦ rw (getop, node, read, e) (ensures (Shrinks-refl h))
  ]

  module _ (release : Ptr → Cmd (Heap Z Q) (Unit {0})) (w : (p : Ptr) → Frees (release p)) where
    destroy_kids-Frees : (p k : Ptr) (ks : List Ptr) → Frees (destroy_kids release p k ks)
    unfolding destroy_kids
    destroy_kids-Frees p k [] = Frees-then (delete-Frees p) (w k)
    destroy_kids-Frees p k (k' ∷ ks) = Frees-then (w k) (destroy_kids-Frees p k' ks)

    destroy_sym-Frees : (p v : Ptr) → Frees (destroy_sym release p v)
    unfolding destroy_sym
    destroy_sym-Frees p v = Frees-if (v == null) (delete-Frees p) λ h.
        Returns.bind (getop-Shrinks v h) λ o i a.
          Returns.mono (Frees-if (is_prog o) (delete-Frees p) (Frees-then (delete-Frees p) (w v)) i)
            (λ _ j b. Shrinks-trans a b)

    destroy-Frees : (p : Ptr) (n : Node Z Q) → Frees (destroy release p n)
    unfolding destroy
    destroy-Frees p (int n) = delete-Frees p
    destroy-Frees p (rat n) = λ h. ensures (Shrinks-refl h)
    destroy-Frees p (hole v) =
        Frees-if (v == null) (delete-Frees p) (Frees-then (delete-Frees p) (w v))
    destroy-Frees p (sym v) = destroy_sym-Frees p v
    destroy-Frees p (syms s v) = destroy_sym-Frees p v
    destroy-Frees p (cexp o []) = λ h. ensures (Shrinks-refl h)
    destroy-Frees p (cexp o (k ∷ ks)) = destroy_kids-Frees p k ks

  -- Releasing an expression, with all that is destroyed then, makes nothing new in memory, and what
  -- is still in memory has the node and the flag that it had, and no greater count.
  pub dec-Shrinks : (f : ℕ) (p : Ptr) → Frees (dec f p)
  unfolding dec read write
  dec-Shrinks zero p h = stops
  dec-Shrinks (suc f) p h = elim (Option-cases (h.cell p)) [
    | inl e ↦ rw (dec, read, e) stops
    | inr (c, e) ↦
        rw (dec, read, e)
          (if_at (dec_ref c.count == 0) _ _ h (destroy-Frees (dec f) (dec-Shrinks f) p c.node h)
            (ensures (fewer_there p c (dec_ref c.count) h e (dec_ref-le c.count))))
  ]
