-- ===== src/Code/Run/Values.antt =====
-- What happens to the values of variables: commands that change those of some variables only.
use lfsc.Common.{
  ℕ, ◌≡◌, refl, ◌∙◌, ap, false, Option, some, Option-cases, Bool-cases, inl, inr, ◌==◌, ==_iff,
}
use lfsc.Header.{inc_ref}
use lfsc.Heap.{
  Ptr, null, Node, int, rat, hole, syms, cexp, Cell, Heap, Outcome, ok, stop, Cmd, and_then, put,
  read, write, node, sym_val, set_val, pure,
}
use lfsc.Heap
use lfsc.Heap.Count.{inc}
use lfsc.Heap.Frame.{Shrinks}
use lfsc.Heap.Returns.{Ensures, ensures, stops}
use lfsc.Code.Run.Restores.{HasVal-node}
use lfsc.Expr.Restores.{HasVal}

module _ {Z Q : Type 0} where
  -- What `v` has for a value in `h'` it had in `h`.
  abbrev pub Back : Ptr → Heap Z Q → Heap Z Q → Type 0
  Back v h h' = (x : Ptr) → HasVal v x h' → HasVal v x h

  pub same_node-Back :
      (v : Ptr) (h h' : Heap Z Q) (c c' : Cell Z Q)
      → h.cell v ≡ some c
      → h'.cell v ≡ some c'
      → c.node ≡ c'.node
      → Back v h h'
  unfolding HasVal sym_val node read
  same_node-Back v h h' c c' e e' q x a = go c'.node refl
    where
      go : (n : Node Z Q) → c'.node ≡ n → sym_val v h ≡ ok x h
      go (Heap.sym w) p =
          rw (sym_val, node, read, e, q ∙ p) (ap (λ y. ok y h) (HasVal-node v x h' c' _ e' p a))
      go (syms s w) p =
          rw (sym_val, node, read, e, q ∙ p) (ap (λ y. ok y h) (HasVal-node v x h' c' _ e' p a))
      go (int z) p = let b = rw (sym_val, node, read, e', p) at a in absurd cc
      go (rat z) p = let b = rw (sym_val, node, read, e', p) at a in absurd cc
      go (hole w) p = let b = rw (sym_val, node, read, e', p) at a in absurd cc
      go (cexp o ks) p = let b = rw (sym_val, node, read, e', p) at a in absurd cc

  pub Shrinks-Back : (v : Ptr) (h h' : Heap Z Q) → Shrinks h h' → Back v h h'
  unfolding HasVal sym_val node read
  Shrinks-Back v h h' s x a = elim (Option-cases (h'.cell v)) [
    | inl e ↦ let gone = rw (sym_val, node, read, e) at a in absurd cc
    | inr (c', e') ↦
        let r = s.remains v c' e' in same_node-Back v h h' r.before c' r.was e' r.same_node x a
  ]

  pub write-Back :
      (u v : Ptr) (o : Option (Cell Z Q)) (h : Heap Z Q)
      → (u == v) ≡ false
      → Back u h (record h { cell = put h.cell v o })
  unfolding HasVal sym_val node read
  write-Back u v o h n x a = elim (Option-cases (h.cell u)) [
    | inl e ↦ let gone = rw (sym_val, node, read, n, e) at a in absurd cc
    | inr (c, e) ↦ same_node-Back u h _ c c e (rw (n, e)) refl x a
  ]

  -- Setting a value changes that of no other variable.
  pub set_val-Back :
      (v x : Ptr) (h : Heap Z Q)
      → Ensures (λ _ h'. (u : Ptr) → (u == v) ≡ false → Back u h h') (set_val v x h)
  unfolding set_val read write
  set_val-Back v x h = elim (Option-cases (h.cell v)) [
    | inl e ↦ rw (set_val, read, e) stops
    | inr (c, e) ↦ go c c.node e refl
  ]
    where
      go :
          (c : Cell Z Q) (k : Node Z Q)
          → h.cell v ≡ some c
          → c.node ≡ k
          → Ensures (λ _ h'. (u : Ptr) → (u == v) ≡ false → Back u h h') (set_val v x h)
      go c (Heap.sym w) e q = rw (set_val, read, e, q) (ensures (λ u n. write-Back u v _ h n))
      go c (syms i w) e q = rw (set_val, read, e, q) (ensures (λ u n. write-Back u v _ h n))
      go c _ e q = rw (set_val, read, e, q) stops

  pub HasVal-unique : (v x y : Ptr) (h : Heap Z Q) → HasVal v x h → HasVal v y h → x ≡ y
  unfolding HasVal
  HasVal-unique v x y h a b = cc

  recount :
      (p u k : ℕ) (c : Cell Z Q) (h : Heap Z Q)
      → h.cell p ≡ some c
      → Back u h (record h { cell = put h.cell p (some (record c { count = k })) })
  recount p u k c h e = elim (Bool-cases (u == p)) [
    | inl y ↦
        same_node-Back u h _ c (record c { count = k }) (ap h.cell ((==_iff u p).0 y) ∙ e) (rw y)
          refl
    | inr n ↦ write-Back u p _ h n
  ]

  pub inc-Back : (p : Ptr) (h : Heap Z Q) → Ensures (λ _ h'. (u : Ptr) → Back u h h') (inc p h)
  unfolding inc read write
  inc-Back p h = elim (Option-cases (h.cell p)) [
    | inl e ↦ rw (inc, read, e) stops
    | inr (c, e) ↦ rw (inc, read, e) (ensures (λ u. recount p u (inc_ref c.count) c h e))
  ]
