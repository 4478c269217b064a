-- ===== src/Expr/Restores.antt =====
-- `defeq` and `clone` let a bound variable stand for another while they look at the body; the value
-- that it had is put back.
use lfsc.Common.{ℕ, ◌≡◌, refl, some, Option-cases, inl, inr, arith}
use lfsc.Heap.{
  Ptr, Node, int, rat, hole, sym as sym_node, syms, cexp, Cell, Heap, ok, Cmd, read, write, kid,
  node, sym_val, set_val,
}
use lfsc.Heap.Returns
use lfsc.Heap.Returns.{Ensures, ensures, stops, finishes}
use lfsc.Expr.{follow_defs}
use lfsc.Expr.Clone.{clone_under}
use lfsc.Expr.Defeq.{Rec, defeq_under}

module _ {Z Q : Type 0} where
  -- The variable `v` has the value `x`.
  unfoldable pub HasVal : Ptr → Ptr → Heap Z Q → Type 0
  HasVal v x h = sym_val v h ≡ ok x h

  set_val-at :
      (v x : Ptr) (h : Heap Z Q) (c : Cell Z Q) (n : Node Z Q)
      → h.cell v ≡ some c
      → c.node ≡ n
      → Ensures (λ _ h'. HasVal v x h') (set_val v x h)
  unfolding set_val sym_val node read write HasVal
  set_val-at v x h c (sym_node w) e o = rw (set_val, read, e, o) (ensures (grind arith))
  set_val-at v x h c (syms s w) e o = rw (set_val, read, e, o) (ensures (grind arith))
  set_val-at v x h c (int z) e o = rw (set_val, read, e, o) stops
  set_val-at v x h c (rat q) e o = rw (set_val, read, e, o) stops
  set_val-at v x h c (hole w) e o = rw (set_val, read, e, o) stops
  set_val-at v x h c (cexp k ks) e o = rw (set_val, read, e, o) stops

  pub set_val-HasVal : (v x : Ptr) (h : Heap Z Q) → Ensures (λ _ h'. HasVal v x h') (set_val v x h)
  unfolding set_val read
  set_val-HasVal v x h = elim (Option-cases (h.cell v)) [
    | inl e ↦ rw (set_val, read, e) stops
    | inr (c, e) ↦ set_val-at v x h c c.node e refl
  ]

  -- Whatever cloning the body does, if it ends, the variable has the value afterwards that it had.
  pub clone_under-HasVal :
      (clone : Ptr → Cmd (Heap Z Q) Ptr) (var new_var body prev : Ptr) (h : Heap Z Q)
      → HasVal var prev h
      → Ensures (λ _ h'. HasVal var prev h') (clone_under clone var new_var body h)
  unfolding clone_under HasVal
  clone_under-HasVal clone var new_var body prev h e = rw e (
      Returns.bind (finishes (set_val var new_var h)) λ _ h₁ _.
        Returns.bind (finishes (clone body h₁))
          λ bod h₂ _. Returns.bind (set_val-HasVal var prev h₂) λ _ h₃ r. ensures r)

  -- Whatever comparing the bodies does, if it ends, the variable of the first binder has the value
  -- afterwards that it had.
  pub defeq_under-HasVal :
      (f : ℕ) (defeq : Rec Z Q) (p q : Ptr) (i : ℕ) (var prev : Ptr) (h : Heap Z Q)
      → kid p 0 h ≡ ok var h
      → HasVal var prev h
      → Ensures (λ _ h'. HasVal var prev h') (defeq_under f defeq p q i h)
  unfolding defeq_under HasVal
  defeq_under-HasVal f defeq p q i var prev h k e =
      rw (k, e)
        (Returns.bind (finishes (kid q 0 h)) λ w h₁ _.
          Returns.bind (finishes (follow_defs f w h₁)) λ v₂ h₂ _.
            Returns.bind (finishes (set_val var v₂ h₂)) λ _ h₃ _.
              Returns.bind (finishes (kid p i h₃)) λ b₁ h₄ _.
                Returns.bind (finishes (kid q i h₄)) λ b₂ h₅ _.
                  Returns.bind (finishes (defeq b₁ b₂ h₅))
                    λ b h₆ _. Returns.bind (set_val-HasVal var prev h₆) λ _ h₇ r. ensures r)
