-- ===== src/Code/Kind.antt =====
-- `compute_kind` of src/check.cpp.
use lfsc.Common.{ℕ, zero, suc, if◌then◌else◌, List, [], ◌∷◌, ◌==◌}
use lfsc.Header.{Op, is_pi}
use lfsc.Heap.{
  Ptr, null, Node, int, rat, hole, sym, syms, cexp, report_error, timeout, Cmd, pure, halt, ◌>>=◌,
  ◌>>◌, node, op_of, kids_of, nth, sym_val, set_val,
}
use lfsc.Expr.{follow_defs, first, behind}
use lfsc.Code.Symbols.{Checker, mem, get_symbol, stat_type}

module _ {Z Q : Type 0} where
  -- The loop over the arguments of an application whose head has the type `head`. Each variable
  -- stands for its argument while the range is looked at; the values are put back in reverse.
  unfoldable pub kind_args :
      ℕ → (Ptr → Cmd (Checker Z Q) Ptr) → Ptr → List Ptr → Cmd (Checker Z Q) Ptr
  kind_args f rec head [] = pure head
  kind_args f rec head (a ∷ args) = do
    n ← mem (node head)
    let var = nth (kids_of n) 0
    let apply : Cmd (Checker Z Q) Ptr = do
      actual ← mem (follow_defs f a)
      old ← mem (sym_val var)
      mem (set_val var actual)
      head' ← rec (nth (kids_of n) 2)
      r ← kind_args f rec head' args
      mem (set_val var old)
      pure r
    if is_pi (op_of n) then apply else halt report_error

  unfoldable pub kind_node :
      ℕ → (Ptr → Cmd (Checker Z Q) Ptr) → Ptr → Node Z Q → Cmd (Checker Z Q) Ptr
  unfolding kind_args
  kind_node f rec e (cexp Op.app ks) = do head ← rec (first ks); kind_args f rec head (behind ks)
  kind_node f rec e (cexp Op.mpq ks) = pure stat_type
  kind_node f rec e (cexp Op.mpz ks) = pure stat_type
  kind_node f rec e (cexp o ks) = pure e
  kind_node f rec e (syms s v) = do b ← get_symbol s; pure (if b.1 == null then e else b.1)
  kind_node f rec e (sym v) = pure e
  kind_node f rec e (rat q) = pure e
  kind_node f rec e (int n) = pure e
  kind_node f rec e (hole v) = halt report_error

  unfoldable pub compute_kind : ℕ → Ptr → Cmd (Checker Z Q) Ptr
  unfolding kind_node
  compute_kind zero e = halt timeout
  compute_kind (suc f) e = do
    e' ← mem (follow_defs f e)
    n ← mem (node e')
    kind_node f (compute_kind f) e' n
