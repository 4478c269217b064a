-- ===== src/Expr/Follow.antt =====
-- `followDefs` ends where the values of symbols and holes form no cycle.
use lfsc.Common.{ℕ, zero, suc, ◌<◌, ◌≡◌, inl, inr, Bool-cases, ==_iff, false, some, ◌==◌, arith}
use lfsc.Heap.{Ptr, null, Cell, Heap, ok, node, read, val_of}
use lfsc.Expr.{follow_defs}
use lfsc.Expr.Arguments.{IsLive, is_live}

module _ {Z Q : Type 0} where
  -- `p` stands for `q`: the values are followed to an expression that has none.
  pub data StandsFor (h : Heap Z Q) (q : Ptr) : Ptr → Type 0 where
    itself : (c : Cell Z Q) → h.cell q ≡ some c → val_of c.node ≡ null → StandsFor h q q
    through :
        {p : Ptr} (c : Cell Z Q)
        → h.cell p ≡ some c
        → (val_of c.node == null) ≡ false
        → StandsFor h q (val_of c.node)
        → StandsFor h q p

  -- A value is in memory, and has a smaller rank.
  unfoldable pub Ranked : Heap Z Q → (Ptr → ℕ) → Type 0
  Ranked h rank =
      (p : Ptr) (c : Cell Z Q)
      → h.cell p ≡ some c
      → (val_of c.node == null) ≡ false
      → IsLive h (val_of c.node) × (rank (val_of c.node) < rank p)

  -- Where the values in memory have ranks that fall, following an expression with more fuel than its
  -- rank ends with the expression that it stands for, and changes nothing.
  pub follow_defs-StandsFor :
      (f : ℕ) (p : Ptr) (h : Heap Z Q) (rank : Ptr → ℕ)
      → Ranked h rank
      → IsLive h p
      → rank p < f
      → (q : Ptr) × (follow_defs f p h ≡ ok q h) × StandsFor h q p
  unfolding follow_defs node read Ranked
  follow_defs-StandsFor zero p h rank r l e = absurd (omega arith)
  follow_defs-StandsFor (suc f) p h rank r (is_live c at) e =
      elim (Bool-cases (val_of c.node == null)) [
        | inl z ↦ (p, rw (node, read, at, z), itself c at ((==_iff (val_of c.node) null).0 z))
        | inr z ↦
            let (live, falls) = r p c at z in
            let (q, followed, stands) =
              follow_defs-StandsFor f (val_of c.node) h rank r live (omega arith) in
            (q, rw (node, read, at, z) followed, through c at z stands)
      ]
