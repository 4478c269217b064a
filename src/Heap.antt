-- ===== src/Heap.antt =====
-- The expressions in memory, src/expr.h, and the commands that read and write them.
pub mod Count
pub mod Examples
pub mod Frame
pub mod Returns
pub mod Word
use lfsc.Common.{
  ℕ, zero, suc, ◌+◌, ◌≡◌, Bool, true, false, Option, none, some, List, [], ◌∷◌, ◌==◌, if◌then◌else◌,
}
use lfsc.Header.{Class, Op}
use lfsc.Trie.{Key}

-- An address; NULL is 0. Addresses are never used again, so that a use after `delete` faults.
abbrev pub Ptr : Type 0
Ptr = ℕ

abbrev pub null : Ptr
null = 0

-- The classes of expressions and their fields: the numbers of GMP, the `val` of a hole or a symbol,
-- the name of a symbol, and the array `kids` of a CExpr, its terminator left off. A SymExpr has no
-- name of its own; with DEBUG_SYM_NAMES, as the code is built, every symbol is a SymSExpr.
pub data Node (Z Q : Type 0) : Type 0 where
  int : Z → Node Z Q
  rat : Q → Node Z Q
  hole : Ptr → Node Z Q
  sym : Ptr → Node Z Q
  syms : Key → Ptr → Node Z Q
  cexp : Op → List Ptr → Node Z Q

-- An expression: the count and the flag of its word `data`, whose other fields its node shows.
pub record Cell (Z Q : Type 0) : Type 0 where
  pub count : ℕ
  pub mark : Bool
  pub node : Node Z Q

-- The cells in use, and the address for the next `new`.
pub record Heap (Z Q : Type 0) : Type 0 where
  pub next : Ptr
  pub cell : Ptr → Option (Cell Z Q)

-- How a command ends without a result: undefined behaviour (a NULL or deleted expression, or a
-- field that its class does not have), `report_error`, `abort`, or the fuel ran out.
pub data Stop : Type 0 where
  fault report_error abort timeout : Stop

pub data Outcome (S A : Type 0) : Type 0 where
  ok : A → S → Outcome S A
  stop : Stop → Outcome S A

abbrev pub Cmd : Type 0 → Type 0 → Type 0
Cmd S A = S → Outcome S A

module _ {S A : Type 0} where
  abbrev pub pure : A → Cmd S A
  pure = ok

  abbrev pub halt : Stop → Cmd S A
  halt e = λ _. stop e

module _ {S A B : Type 0} where
  abbrev pub and_then : Outcome S A → (A → Cmd S B) → Outcome S B
  and_then (ok a s) k = k a s
  and_then (stop e) k = stop e

  infixl 5 ◌>>=◌ ◌>>◌
  abbrev pub ◌>>=◌ : Cmd S A → (A → Cmd S B) → Cmd S B
  m >>= k = λ s. and_then (m s) k

  abbrev pub ◌>>◌ : Cmd S A → Cmd S B → Cmd S B
  m >> n = m >>= λ _. n

-- `kids[i]`, the terminator NULL behind the last.
abbrev pub nth : List Ptr → ℕ → Ptr
nth [] i = null
nth (p ∷ ps) zero = p
nth (p ∷ ps) (suc i) = nth ps i

-- A parameter of the commands on cells is the type of the cells.
module _ {Z Q : Type 0} where
  abbrev pub put : (Ptr → Option (Cell Z Q)) → Ptr → Option (Cell Z Q) → Ptr → Option (Cell Z Q)
  put cells p c q = if q == p then c else cells q

  unfoldable pub read : Ptr → Cmd (Heap Z Q) (Cell Z Q)
  read p h = elim (h.cell p) [ none ↦ stop fault | some c ↦ ok c h ]

  unfoldable pub write : Ptr → Option (Cell Z Q) → Cmd (Heap Z Q) (Unit {0})
  write p c h = ok tt (record h { cell = put h.cell p c })

  -- `new`: the count is 1 and the flag is not set.
  unfoldable pub alloc : Node Z Q → Cmd (Heap Z Q) Ptr
  alloc n h = ok h.next (record {
    next = h.next + 1;
    cell = put h.cell h.next (some (record { count = 1; mark = false; node = n }));
  })

  unfoldable pub node : Ptr → Cmd (Heap Z Q) (Node Z Q)
  node p = do pure (← read p).node

  unfoldable pub set_mark : Ptr → Bool → Cmd (Heap Z Q) (Unit {0})
  set_mark p b = do c ← read p; write p (some (record c { mark = b }))

  unfoldable pub mark : Ptr → Cmd (Heap Z Q) Bool
  mark p = do pure (← read p).mark

  -- `getclass`
  abbrev pub class_of : Node Z Q → Class
  class_of (int n) = Class.int_expr
  class_of (rat n) = Class.rat_expr
  class_of (hole v) = Class.hole_expr
  class_of (sym v) = Class.sym_expr
  class_of (syms s v) = Class.syms_expr
  class_of (cexp o ps) = Class.cexpr

  -- `getop`
  abbrev pub op_of : Node Z Q → Op
  op_of (cexp o ps) = o
  op_of _ = Op.not_cexpr

  -- `val`, NULL where there is none.
  abbrev pub val_of : Node Z Q → Ptr
  val_of (hole v) = v
  val_of (sym v) = v
  val_of (syms s v) = v
  val_of _ = null

  abbrev pub kids_of : Node Z Q → List Ptr
  kids_of (cexp o ps) = ps
  kids_of _ = []

  -- `isSymbolic`
  abbrev pub is_symbolic : Node Z Q → Bool
  is_symbolic (sym v) = true
  is_symbolic (syms s v) = true
  is_symbolic _ = false

  -- `isDatatype`
  abbrev pub is_datatype : Node Z Q → Bool
  is_datatype (syms s v) = true
  is_datatype (cexp Op.mpz ps) = true
  is_datatype (cexp Op.mpq ps) = true
  is_datatype _ = false

  unfoldable pub getop : Ptr → Cmd (Heap Z Q) Op
  getop p = do pure (op_of (← node p))

  -- `((CExpr *)e)->kids`, which other classes do not have.
  unfoldable pub kids : Ptr → Cmd (Heap Z Q) (List Ptr)
  kids p = do n ← node p; elim n [ cexp o ps ↦ pure ps | _ ↦ halt fault ]

  unfoldable pub kid : Ptr → ℕ → Cmd (Heap Z Q) Ptr
  kid p i = do pure (nth (← kids p) i)

  -- `((SymExpr *)e)->val`
  unfoldable pub sym_val : Ptr → Cmd (Heap Z Q) Ptr
  sym_val p = do n ← node p; elim n [ sym v ↦ pure v | syms s v ↦ pure v | _ ↦ halt fault ]

  -- `((SymExpr *)e)->val = v`
  unfoldable pub set_val : Ptr → Ptr → Cmd (Heap Z Q) (Unit {0})
  set_val p v = do
    c ← read p
    elim c.node [
      | sym _ ↦ write p (some (record c { node = sym v }))
      | syms s _ ↦ write p (some (record c { node = syms s v }))
      | _ ↦ halt fault
    ]
