-- ===== src/Code/Run/Numbers.antt =====
-- ADD, MUL, DIV, NEG, MPZ_TO_MPQ, IFNEG and IFZERO of run_code_internal.
use lfsc.Common.{ℕ, Bool, true, false, if◌then◌else◌, List, Option, none, some}
use lfsc.Header.{Op}
use lfsc.Gmp.{Sign, Gmp}
use lfsc.Heap.{
  Ptr, null, Node, int, rat, Heap, fault, Cmd, pure, halt, ◌>>=◌, ◌>>◌, alloc, node, nth,
}
use lfsc.Heap.Count.{dec}
use lfsc.Code.{Machine, mem, unless_null}

abbrev pub is_zero : Sign → Bool
is_zero Sign.zero = true
is_zero _ = false

abbrev pub is_negative : Sign → Bool
is_negative Sign.negative = true
is_negative _ = false

-- The recursive call of the interpreter.
abbrev pub Rec : Type 0 → Type 0 → Type 0
Rec Z Q = Ptr → Cmd (Machine Z Q) Ptr

module _ {Z Q : Type 0} (gmp : Gmp Z Q) where
  -- The result of an operator on two integers; none is a division by zero.
  unfoldable pub int_op : Op → Z → Z → Option Z
  int_op Op.add n m = some (gmp.mpz_add n m)
  int_op Op.mul n m = some (gmp.mpz_mul n m)
  int_op _ n m = if is_zero (gmp.mpz_sgn m) then none else some (gmp.mpz_fdiv_q n m)

  unfoldable pub rat_op : Op → Q → Q → Option Q
  rat_op Op.add n m = some (gmp.mpq_add n m)
  rat_op Op.mul n m = some (gmp.mpq_mul n m)
  rat_op _ n m = if is_zero (gmp.mpq_sgn m) then none else some (gmp.mpq_div n m)

  -- `new IntExpr(n)` and `new RatExpr(q)`, if there is a result, else NULL.
  abbrev pub new_int : Option Z → Cmd (Heap Z Q) Ptr
  new_int none = pure null
  new_int (some n) = alloc (int n)

  abbrev pub new_rat : Option Q → Cmd (Heap Z Q) Ptr
  new_rat none = pure null
  new_rat (some q) = alloc (rat (gmp.mpq_canonicalize q))

  unfoldable pub arith_result : Op → Node Z Q → Node Z Q → Cmd (Heap Z Q) Ptr
  unfolding int_op rat_op
  arith_result o (int n) (int m) = new_int (int_op o n m)
  arith_result o (rat n) (rat m) = new_rat (rat_op o n m)
  arith_result o _ _ = pure null

  -- ADD, MUL and DIV. The first result is not released where the second is NULL.
  unfoldable pub run_arith : ℕ → Rec Z Q → Op → List Ptr → Cmd (Machine Z Q) Ptr
  unfolding arith_result
  run_arith f run o ks = do
    r₁ ← run (nth ks 0)
    unless_null r₁ do
      r₂ ← run (nth ks 1)
      unless_null r₂ (mem do n₁ ← node r₁; n₂ ← node r₂; dec f r₁; dec f r₂; arith_result o n₁ n₂)

  unfoldable pub neg_result : Node Z Q → Cmd (Heap Z Q) Ptr
  neg_result (int n) = alloc (int (gmp.mpz_neg n))
  neg_result (rat q) = alloc (rat (gmp.mpq_canonicalize (gmp.mpq_neg q)))
  neg_result _ = pure null

  unfoldable pub run_neg : ℕ → Rec Z Q → List Ptr → Cmd (Machine Z Q) Ptr
  unfolding neg_result
  run_neg f run ks = do r ← run (nth ks 0); unless_null r (mem do n ← node r; dec f r; neg_result n)

  -- The result is read as an IntExpr, whatever it is, and is not released.
  unfoldable pub run_mpz_to_mpq : Rec Z Q → List Ptr → Cmd (Machine Z Q) Ptr
  run_mpz_to_mpq run ks = do
    r ← run (nth ks 0)
    unless_null r (
        mem do
          n ← node r
          elim n [
            | int z ↦ alloc (rat (gmp.mpq_canonicalize (gmp.mpq_from_num z)))
            | _ ↦ halt fault
          ])

  -- Whether the test of IFNEG or IFZERO holds; none is an expression that is no number.
  unfoldable pub number_test : Op → Node Z Q → Option Bool
  number_test Op.ifneg (int n) = some (is_negative (gmp.mpz_sgn n))
  number_test Op.ifneg (rat q) = some (is_negative (gmp.mpq_sgn q))
  number_test o (int n) = some (is_zero (gmp.mpz_sgn n))
  number_test o (rat q) = some (is_zero (gmp.mpq_sgn q))
  number_test o _ = none

  unfoldable pub run_if_number : ℕ → Rec Z Q → Op → List Ptr → Cmd (Machine Z Q) Ptr
  unfolding number_test
  run_if_number f run o ks = do
    r ← run (nth ks 0)
    unless_null r do
      n ← mem (node r)
      mem (dec f r)
      elim (number_test o n) [
        | none ↦ pure null
        | some true ↦ run (nth ks 1)
        | some false ↦ run (nth ks 2)
      ]
