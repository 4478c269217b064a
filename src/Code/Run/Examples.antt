-- ===== src/Code/Run/Examples.antt =====
-- The interpreter at `(let x 5 (mp_add x 1))`.
use lfsc.Common.{ℕ, ◌≡◌, refl, false, none, some, List, [], ◌∷◌, ◌==◌, All, if◌then◌else◌}
use lfsc.Header.{Op, inc_ref, dec_ref}
use lfsc.Heap.Frame.{Shrinks, dec-Shrinks}
use lfsc.Heap.Returns.{Ensures}
use lfsc.Expr.Restores.{HasVal}
use lfsc.Code.Run.Restores.{KeepsVal, run_let-KeepsVal}
use lfsc.Code.Run.Calls.{bind_params, run_body}
use lfsc.Code.Run.Params.{Kept, run_body-Kept}
use lfsc.Heap.{
  put, null, int, syms, cexp, ok, stop, fault, halt, read, write, node, alloc, set_val, sym_val,
}
use lfsc.Heap.Count.{inc, dec, destroy, destroy_sym, delete}
use lfsc.Expr.{follow_defs}
use lfsc.Expr.Clone.{dec_all}
use lfsc.Code.{Machine, Env, mem}
use lfsc.Code.Cache.{empty, references}
use lfsc.Code.Examples.{naturals, cell, x}
use lfsc.Code.Run.Numbers.{Rec, run_arith, arith_result, int_op}
use lfsc.Code.Run.Matching.{run_let}
use lfsc.Code.Run.Interp.{run_sym, run_node, run_code_internal, run_code}

abbrev env : Env ℕ ℕ
env = record {
  gmp = naturals;
  prog_functions = [];
  run_scc = false;
  run_compiled_scc = λ head args. halt fault;
}

abbrev machine : Machine ℕ ℕ
machine = record {
  heap = record {
    next = 10;
    cell = λ p.
        if p == 5
        then some (cell (int 5))
        else if p == 6
        then some (cell (syms x null))
        else if p == 7
        then some (cell (int 1))
        else if p == 8
        then some (cell (cexp Op.add (6 ∷ 7 ∷ [])))
        else if p == 9
        then some (cell (cexp Op.let_ (6 ∷ 5 ∷ 8 ∷ [])))
        else none;
  };
  marks = λ p. 0;
  cache = empty;
}

-- The number at the result.
result : List ℕ
unfolding run_code
result = elim (run_code env 10 9 machine) [
  | stop e ↦ []
  | ok r s ↦ elim (s.heap.cell r) [ none ↦ [] | some c ↦ elim c.node [ int n ↦ n ∷ [] | _ ↦ [] ] ]
]

result_output : result ≡ 6 ∷ []
unfolding result run_code run_code_internal run_node run_let run_arith arith_result int_op run_sym
    mem follow_defs references dec_all inc dec destroy destroy_sym delete read write node alloc
    set_val sym_val inc_ref dec_ref
result_output = refl

-- The value of the variable is found, and the body runs.
interpreter : Rec ℕ ℕ
interpreter = run_code_internal env 9 false

abbrev found : Machine ℕ ℕ
found = record machine {
  heap = record machine.heap {
    cell = put machine.heap.cell 5 (some (record (cell (int 5)) { count = 3 }));
  };
}

found_lem : interpreter 5 machine ≡ ok 5 found
unfolding interpreter run_code_internal run_node mem inc read write node inc_ref
found_lem = refl

no_value : HasVal 6 null found.heap
unfolding HasVal sym_val node read
no_value = refl

run_let-KeepsVal_example :
    Ensures (λ _ t. KeepsVal 6 null t.heap) (run_let 9 interpreter (6 ∷ 5 ∷ 8 ∷ []) machine)
run_let-KeepsVal_example =
    run_let-KeepsVal 9 interpreter (6 ∷ 5 ∷ 8 ∷ []) 5 null machine found found_lem refl no_value

-- A call that binds the variable to 5 and has the body `(mp_add x 1)`.
abbrev bound : Machine ℕ ℕ
bound = record machine {
  heap = record machine.heap {
    cell = put machine.heap.cell 6 (some (record (cell (syms x null)) { node = syms x 5 }));
  };
}

bound_lem : mem (bind_params (6 ∷ []) (5 ∷ [])) machine ≡ ok (some (null ∷ [])) bound
unfolding bind_params mem set_val sym_val node read write
bound_lem = refl

run_body-Kept_example :
    Ensures
      (λ _ t. All (Kept machine.heap t.heap) (6 ∷ []))
      (run_body 9
        (λ c. run_code_internal env 9 c)
        false
        (4 ∷ 5 ∷ [])
        (6 ∷ [])
        (null ∷ [])
        (5 ∷ [])
        8
        bound)
run_body-Kept_example =
    run_body-Kept 9 (λ c. run_code_internal env 9 c) false (4 ∷ 5 ∷ []) (6 ∷ []) (null ∷ [])
      (5 ∷ []) 8 machine bound (tt, tt) bound_lem

dec-Shrinks_example : Ensures (λ _ h. Shrinks machine.heap h) (dec 9 9 machine.heap)
dec-Shrinks_example = dec-Shrinks 9 9 machine.heap
