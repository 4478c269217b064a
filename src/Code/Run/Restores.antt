-- ===== src/Code/Run/Restores.antt =====
-- LET of `run_code_internal` puts back the value of its variable.
use lfsc.Common.{ℕ, ◌≡◌, refl, sym, ◌∙◌, false, some, Option-cases, inl, inr, List, ◌==◌}
use lfsc.Heap.{
  Ptr, null, Node, int, rat, hole, sym as sym_node, syms, cexp, val_of, Cell, Heap, Outcome, ok,
  stop, Cmd, nth, read, node, sym_val, set_val,
}
use lfsc.Heap.Count.{dec}
use lfsc.Heap.Frame.{Shrinks, dec-Shrinks}
use lfsc.Heap.Returns
use lfsc.Heap.Returns.{Ensures, ensures, stops, finishes}
use lfsc.Expr.Restores.{HasVal, set_val-HasVal}
use lfsc.Code.{Machine, mem}
use lfsc.Code.Run.Numbers.{Rec}
use lfsc.Code.Run.Matching.{run_let}

module _ {Z Q : Type 0} where
  -- The variable has the value `x`, if it is still in memory.
  abbrev pub KeepsVal : Ptr → Ptr → Heap Z Q → Type 0
  KeepsVal v x h = (y : Ptr) → HasVal v y h → y ≡ x

  pub HasVal-node :
      (v x : Ptr) (h : Heap Z Q) (c : Cell Z Q) (n : Node Z Q)
      → h.cell v ≡ some c
      → c.node ≡ n
      → HasVal v x h
      → val_of n ≡ x
  unfolding HasVal sym_val node read
  HasVal-node v x h c (sym_node w) e q a = let b = rw (sym_val, node, read, e, q) at a in cc
  HasVal-node v x h c (syms i w) e q a = let b = rw (sym_val, node, read, e, q) at a in cc
  HasVal-node v x h c (int z) e q a = let b = rw (sym_val, node, read, e, q) at a in absurd cc
  HasVal-node v x h c (rat z) e q a = let b = rw (sym_val, node, read, e, q) at a in absurd cc
  HasVal-node v x h c (hole w) e q a = let b = rw (sym_val, node, read, e, q) at a in absurd cc
  HasVal-node v x h c (cexp o ks) e q a = let b = rw (sym_val, node, read, e, q) at a in absurd cc

  Shrinks-KeepsVal : (v x : Ptr) {h h' : Heap Z Q} → Shrinks h h' → HasVal v x h → KeepsVal v x h'
  unfolding HasVal sym_val node read
  Shrinks-KeepsVal v x {h} {h'} s a y b = elim (Option-cases (h'.cell v)) [
    | inl e ↦ let gone = rw (sym_val, node, read, e) at b in absurd cc
    | inr (c', e') ↦
        let r = s.remains v c' e' in
        sym (HasVal-node v y h' c' c'.node e' refl b)
        ∙ HasVal-node v x h r.before c'.node r.was r.same_node a
  ]

  pub mem-Ensures :
      {A : Type 0} (P : A → Heap Z Q → Type 0) (m : Cmd (Heap Z Q) A) (s : Machine Z Q)
      → Ensures P (m s.heap)
      → Ensures (λ a t. P a t.heap) (mem m s)
  unfolding mem
  mem-Ensures {A} P m s p = go (m s.heap) p
    where
      go :
          (r : Outcome (Heap Z Q) A)
          → Ensures P r
          → Ensures {A = A}
              (λ a t. P a t.heap)
              (elim r [ ok a h ↦ ok a (record s { heap = h }) | stop e ↦ stop e ])
      go (ok a h) (ensures q) = ensures q
      go (stop e) stops = stops

  mem-sym_val : (v x : Ptr) (s : Machine Z Q) → HasVal v x s.heap → mem (sym_val v) s ≡ ok x s
  unfolding mem HasVal
  mem-sym_val v x s e = rw (mem, e)

  -- Whatever running the body does, if LET ends, its variable, if it is still in memory, has the
  -- value that it had when the value of LET was found, which is no failure.
  pub run_let-KeepsVal :
      (f : ℕ) (run : Rec Z Q) (ks : List Ptr) (r prev : Ptr) (m m₁ : Machine Z Q)
      → run (nth ks 1) m ≡ ok r m₁
      → (r == null) ≡ false
      → HasVal (nth ks 0) prev m₁.heap
      → Ensures (λ _ t. KeepsVal (nth ks 0) prev t.heap) (run_let f run ks m)
  unfolding run_let
  run_let-KeepsVal f run ks r prev m m₁ e n v =
      rw (e, n, mem-sym_val (nth ks 0) prev m₁ v)
        (Returns.bind (finishes (mem (set_val (nth ks 0) r) m₁)) λ _ s₁ _.
          Returns.bind (finishes (run (nth ks 2) s₁)) λ r₁ s₂ _.
            Returns.bind (mem-Ensures _ _ s₂ (set_val-HasVal (nth ks 0) prev s₂.heap)) λ _ s₃ h.
              Returns.bind (mem-Ensures _ (dec f r) s₃ (dec-Shrinks f r s₃.heap))
                λ _ s₄ l. ensures (Shrinks-KeepsVal (nth ks 0) prev l h))
