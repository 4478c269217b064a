-- ===== src/Code/Check/Cases.antt =====
-- MATCH of check_code.
use lfsc.Common.{ℕ, true, not, ◌||◌, if◌then◌else◌, List, [], ◌∷◌, ◌==◌}
use lfsc.Header.{Op, is_pi}
use lfsc.Gmp.{Gmp}
use lfsc.Heap.{
  Ptr, null, Node, syms, cexp, fault, Cmd, pure, halt, ◌>>=◌, ◌>>◌, node, op_of, kids_of, nth,
  getop, is_datatype,
}
use lfsc.Expr.{follow_defs, collect_args}
use lfsc.Expr.Defeq.{defeq}
use lfsc.Code.Symbols.{Checker, mem, get_symbol, insert_symbol, stat_type}
use lfsc.Code.Kind.{compute_kind}
use lfsc.Code.Check.Simple.{Rec, require, name}

module _ {Z Q : Type 0} where
  -- The variables of a pattern are bound to the domains of the constructor's type `curtp`, the body
  -- is checked, and the bindings are restored from the last to the first.
  unfoldable pub check_pattern : ℕ → Rec Z Q → Ptr → List Ptr → Ptr → Cmd (Checker Z Q) Ptr
  check_pattern f check curtp [] body = do
    t ← mem (follow_defs f curtp)
    o ← mem (getop t)
    require (not (is_pi o)) (check body)
  check_pattern f check curtp (v ∷ vars) body = do
    t ← mem (follow_defs f curtp)
    n ← mem (node t)
    require (is_pi (op_of n)) do
      s ← name v
      prev ← insert_symbol s (null, nth (kids_of n) 1)
      tp ← check_pattern f check (nth (kids_of n) 2) vars body
      insert_symbol s prev
      pure tp

  -- A pattern with arguments; its head is read as a SymSExpr.
  unfoldable pub check_app_case : ℕ → Rec Z Q → Ptr → Ptr → Cmd (Checker Z Q) Ptr
  unfolding check_pattern
  check_app_case f check pat body = do
    (vars, ctor) ← mem (collect_args f true pat)
    b ← get_symbol (← name ctor)
    check_pattern f check b.1 vars body

  -- The type of a case or of the default `c`, whose node is `n`.
  unfoldable pub case_node : ℕ → Rec Z Q → Ptr → Node Z Q → Cmd (Checker Z Q) Ptr
  unfolding check_app_case
  case_node f check c (cexp Op.case ks) = do
    p ← mem (node (nth ks 0))
    elim p [ syms s v ↦ check (nth ks 1) | _ ↦ check_app_case f check (nth ks 0) (nth ks 1) ]
  case_node f check c _ = check c

  unfoldable pub check_case : ℕ → Rec Z Q → Ptr → Cmd (Checker Z Q) Ptr
  unfolding case_node
  check_case f check c = do n ← mem (node c); case_node f check c n

  module _ (gmp : Gmp Z Q) where
    -- The cases in turn: `mtp` is the type of the first, NULL before it.
    unfoldable pub check_cases : ℕ → Rec Z Q → Ptr → List Ptr → Cmd (Checker Z Q) Ptr
    unfolding check_case
    check_cases f check mtp [] = pure mtp
    check_cases f check mtp (c ∷ cases) = do
      tp ← check_case f check c
      same ← if mtp == null then pure true else mem (defeq gmp f mtp tp)
      require same (check_cases f check (if mtp == null then tp else mtp) cases)

    unfoldable pub check_match : ℕ → Rec Z Q → List Ptr → Cmd (Checker Z Q) Ptr
    unfolding check_cases
    check_match f check [] = halt fault
    check_match f check (e ∷ cases) = do
      scrut_tp ← check e
      kind ← compute_kind f scrut_tp
      n ← mem (node scrut_tp)
      require ((kind == stat_type) || is_datatype n) (check_cases f check null cases)
