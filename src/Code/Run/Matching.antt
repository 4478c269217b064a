-- ===== src/Code/Run/Matching.antt =====
-- LET and MATCH of run_code_internal.
use lfsc.Common.{ℕ, Bool, true, false, if◌then◌else◌, List, [], ◌∷◌, ◌==◌}
use lfsc.Header.{Op}
use lfsc.Heap.{
  Ptr, null, Node, cexp, Heap, fault, Cmd, pure, halt, ◌>>=◌, ◌>>◌, node, nth, sym_val, set_val,
}
use lfsc.Heap.Count.{inc, dec}
use lfsc.Expr.{collect_args, get_head}
use lfsc.Expr.Whr.{whr}
use lfsc.Code.{Machine, mem, unless_null}
use lfsc.Code.Run.Numbers.{Rec}

module _ {Z Q : Type 0} where
  unfoldable pub run_let : ℕ → Rec Z Q → List Ptr → Cmd (Machine Z Q) Ptr
  run_let f run ks = do
    r₀ ← run (nth ks 1)
    unless_null r₀ do
      prev ← mem (sym_val (nth ks 0))
      mem (set_val (nth ks 0) r₀)
      r₁ ← run (nth ks 2)
      mem (set_val (nth ks 0) prev)
      mem (dec f r₀)
      pure r₁

  -- The variables of a pattern are bound to the arguments, one for each argument; `vars[j]` is out
  -- of range where the pattern has too few. The result is the values that they had.
  unfoldable pub bind_vars : List Ptr → List Ptr → Cmd (Heap Z Q) (List Ptr)
  bind_vars vars [] = pure []
  bind_vars [] (a ∷ args) = halt fault
  bind_vars (v ∷ vars) (a ∷ args) = do
    old ← sym_val v
    set_val v a
    inc a
    olds ← bind_vars vars args
    pure (old ∷ olds)

  unfoldable pub restore_vars : ℕ → List Ptr → List Ptr → List Ptr → Cmd (Heap Z Q) (Unit {0})
  restore_vars f (v ∷ vars) (old ∷ olds) (a ∷ args) = do
    set_val v old
    dec f a
    restore_vars f vars olds args
  restore_vars f _ _ _ = pure tt

  unfoldable pub run_case : ℕ → Rec Z Q → Ptr → List Ptr → Ptr → Ptr → Cmd (Machine Z Q) Ptr
  unfolding bind_vars restore_vars
  run_case f run scrut args pat body = do
    (vars, _) ← mem (collect_args f true pat)
    olds ← mem (bind_vars vars args)
    mem (dec f scrut)
    ret ← run body
    mem (restore_vars f vars olds args)
    pure ret

  -- A case with the node `n`: its body where its pattern has the head `hd`, else the cases behind
  -- it; what is no CASE is the default.
  unfoldable pub one_case :
      ℕ
      → Rec Z Q
      → Ptr
      → List Ptr
      → Ptr
      → Ptr
      → Cmd (Machine Z Q) Ptr
      → Node Z Q
      → Cmd (Machine Z Q) Ptr
  unfolding run_case
  one_case f run scrut args hd c others (cexp Op.case ks) = do
    head ← mem (get_head f true (nth ks 0))
    if hd == head then run_case f run scrut args (nth ks 0) (nth ks 1) else others
  one_case f run scrut args hd c others _ = run c

  -- The cases in turn.
  unfoldable pub run_cases : ℕ → Rec Z Q → Ptr → List Ptr → Ptr → List Ptr → Cmd (Machine Z Q) Ptr
  unfolding one_case
  run_cases f run scrut args hd [] = pure null
  run_cases f run scrut args hd (c ∷ cases) = do
    n ← mem (node c)
    one_case f run scrut args hd c (run_cases f run scrut args hd cases) n

  abbrev pub is_cexpr : Node Z Q → Bool
  is_cexpr (cexp o ks) = true
  is_cexpr _ = false

  -- A scrutinee that is a CExpr is reduced.
  unfoldable pub reduce_scrutinee : ℕ → Ptr → Cmd (Heap Z Q) Ptr
  reduce_scrutinee f scrut = do
    n ← node scrut
    let reduced : Cmd (Heap Z Q) Ptr = do
      tmp ← whr f scrut
      if tmp == scrut then pure scrut else (do dec f scrut; pure tmp)
    if is_cexpr n then reduced else pure scrut

  unfoldable pub run_match : ℕ → Rec Z Q → List Ptr → Cmd (Machine Z Q) Ptr
  unfolding run_cases reduce_scrutinee
  run_match f run [] = halt fault
  run_match f run (e ∷ cases) = do
    r ← run e
    unless_null r do
      scrut ← mem (reduce_scrutinee f r)
      (args, hd) ← mem (collect_args f true scrut)
      run_cases f run scrut args hd cases
