-- ===== src/Code/Run/Interp.antt =====
-- The interpreter run_code_internal of src/code.cpp, its cases put together, and run_code.
use lfsc.Common.{ℕ, zero, suc, Bool, false, if◌then◌else◌, List, ◌==◌}
use lfsc.Header.{Op}
use lfsc.Heap.{
  Ptr, null, Node, int, rat, hole, sym, syms, cexp, Heap, report_error, timeout, Cmd, ok, pure,
  halt, and_then, ◌>>=◌, ◌>>◌, node, nth,
}
use lfsc.Heap.Count.{inc, dec}
use lfsc.Expr.{follow_defs}
use lfsc.Expr.Clone.{dec_all}
use lfsc.Code.{Machine, Env, mem, unless_null}
use lfsc.Code.Cache.{empty, references}
use lfsc.Code.Run.Numbers.{Rec, run_arith, run_neg, run_mpz_to_mpq, run_if_number}
use lfsc.Code.Run.Tests.{run_if_marked, run_mark_var, run_compare, run_if_equal}
use lfsc.Code.Run.Matching.{run_let, run_match}
use lfsc.Code.Run.Calls.{run_app}

module _ {Z Q : Type 0} where
  -- A hole or a symbol stands for its value, and the result is a new reference.
  unfoldable pub run_hole : ℕ → Ptr → Cmd (Heap Z Q) Ptr
  run_hole f e = do
    tmp ← follow_defs f e
    if tmp == e then halt report_error else (do inc tmp; pure tmp)

  unfoldable pub run_sym : ℕ → Ptr → Cmd (Heap Z Q) Ptr
  run_sym f e = do tmp ← follow_defs f e; inc tmp; pure tmp

  unfoldable pub run_do : ℕ → Rec Z Q → List Ptr → Cmd (Machine Z Q) Ptr
  run_do f run ks = do tmp ← run (nth ks 0); unless_null tmp (do mem (dec f tmp); run (nth ks 1))

  module _ (env : Env Z Q) where
    unfoldable pub run_node : ℕ → (Bool → Rec Z Q) → Bool → Ptr → Node Z Q → Cmd (Machine Z Q) Ptr
    unfolding run_hole run_sym run_do
    run_node f run uc e (int n) = mem (do inc e; pure e)
    run_node f run uc e (rat q) = mem (do inc e; pure e)
    run_node f run uc e (hole v) = mem (run_hole f e)
    run_node f run uc e (sym v) = mem (run_sym f e)
    run_node f run uc e (syms s v) = mem (run_sym f e)
    run_node f run uc e (cexp Op.fail ks) = pure null
    run_node f run uc e (cexp Op.do_ ks) = run_do f (run uc) ks
    run_node f run uc e (cexp Op.let_ ks) = run_let f (run uc) ks
    run_node f run uc e (cexp Op.add ks) = run_arith env.gmp f (run uc) Op.add ks
    run_node f run uc e (cexp Op.mul ks) = run_arith env.gmp f (run uc) Op.mul ks
    run_node f run uc e (cexp Op.div ks) = run_arith env.gmp f (run uc) Op.div ks
    run_node f run uc e (cexp Op.neg ks) = run_neg env.gmp f (run uc) ks
    run_node f run uc e (cexp Op.mpz_to_mpq ks) = run_mpz_to_mpq env.gmp (run uc) ks
    run_node f run uc e (cexp Op.ifneg ks) = run_if_number env.gmp f (run uc) Op.ifneg ks
    run_node f run uc e (cexp Op.ifzero ks) = run_if_number env.gmp f (run uc) Op.ifzero ks
    run_node f run uc e (cexp Op.ifmarked ks) = run_if_marked env f (run uc) uc ks
    run_node f run uc e (cexp Op.compare ks) = run_compare env f (run uc) ks
    run_node f run uc e (cexp Op.ifequal ks) = run_if_equal env f (run uc) ks
    run_node f run uc e (cexp Op.markvar ks) = run_mark_var env f (run uc) ks
    run_node f run uc e (cexp Op.match ks) = run_match f (run uc) ks
    run_node f run uc e (cexp Op.app ks) = run_app env f run uc e
    run_node f run uc e (cexp o ks) = pure null

    unfoldable pub run_code_internal : ℕ → Bool → Ptr → Cmd (Machine Z Q) Ptr
    unfolding run_node
    run_code_internal zero uc e = halt timeout
    run_code_internal (suc f) uc e = do n ← mem (node e); run_node f (run_code_internal f) uc e n

    -- A run starts with an empty cache, whose references are given back at its end.
    unfoldable pub run_code : ℕ → Ptr → Cmd (Machine Z Q) Ptr
    unfolding run_code_internal
    run_code f e s = and_then (run_code_internal f false e (record s { cache = empty })) λ r s₁.
        and_then (mem (dec_all f (references s₁.cache)) s₁)
          λ _ s₂. ok r (record s₂ { cache = empty })
