-- ===== src/Term.antt =====
-- Checking of terms, `check` of src/check.cpp: what it is asked, what it answers, and what its
-- cases share. `rec` is its recursive call, and where the source says `goto start_check` the
-- model calls it too. The fuel `f` also bounds the loops and the depth of the calls on expressions.
-- The messages of errors are left out.
pub mod Apps
pub mod Binders
pub mod Cases
pub mod Decls
pub mod Stable
pub mod Types
use lfsc.Common.{ℕ, Bool, true, false, ◌||◌, Option, none, some, List, [], ◌∷◌, ◌==◌, if◌then◌else◌}
use lfsc.Header.{Op, is_pi, is_app}
use lfsc.Gmp.{Gmp}
use lfsc.Trie.{Key}
use lfsc.Heap.{
  Ptr, null, cexp, Heap, fault, Cmd, pure, halt, ◌>>=◌, ◌>>◌, alloc, getop, set_val, set_mark,
}
use lfsc.Heap.Count.{inc, dec}
use lfsc.Expr.{follow_defs}
use lfsc.Expr.Whr.{whr}
use lfsc.Expr.FreeIn.{calc_free_in}
use lfsc.Expr.Defeq.{defeq}
use lfsc.Code.Symbols.{Binding}
use lfsc.Session.{Session, mem, bind_symbol, require}

-- The arguments of `check`: `computed` and `is_hole` say whether these pointers are given. NULL for
-- `expected` stands for none.
pub record Ask : Type 0 where
  pub create : Bool
  pub expected : Ptr
  pub computed : Bool
  pub is_hole : Bool
  pub return_pos : Bool
  pub in_asc : Bool

-- The term, NULL unless it is created, what was stored in `*computed`, and whether `*is_hole` was set.
pub record Answer : Type 0 where
  pub term : Ptr
  pub classifier : Option Ptr
  pub hole : Bool

abbrev pub answer : Ptr → Option Ptr → Answer
answer p o = record { term = p; classifier = o; hole = false }

-- `check(create, expected)` and `check(create, NULL, &computed)`
abbrev pub against : Bool → Ptr → Ask
against create expected = record {
  create = create;
  expected = expected;
  computed = false;
  is_hole = false;
  return_pos = false;
  in_asc = false;
}

abbrev pub computing : Bool → Ask
computing create = record {
  create = create;
  expected = null;
  computed = true;
  is_hole = false;
  return_pos = false;
  in_asc = false;
}

-- A variable that starts as NULL and is stored to.
abbrev pub or_null : Option Ptr → Ptr
or_null none = null
or_null (some p) = p

abbrev pub is_sort : Op → Bool
is_sort Op.type = true
is_sort Op.kind = true
is_sort _ = false

abbrev pub is_type_op : Op → Bool
is_type_op Op.type = true
is_type_op _ = false

abbrev pub is_run : Op → Bool
is_run Op.run = true
is_run _ = false

-- The recursive call of `check`.
abbrev pub Rec : Type 0 → Type 0 → Type 0
Rec Z Q = Ask → Cmd (Session Z Q) Answer

module _ {Z Q : Type 0} where
  -- `*computed = p`
  unfoldable pub store : Ask → Ptr → Cmd (Session Z Q) (Option Ptr)
  store a p = if a.computed then pure (some p) else halt fault

  -- `*computed`, which nothing but a store sets.
  unfoldable pub stored : Answer → Cmd (Session Z Q) Ptr
  stored r = elim r.classifier [ none ↦ halt fault | some p ↦ pure p ]

  -- `p->followDefs()->getop()`
  unfoldable pub head_op : ℕ → Ptr → Cmd (Session Z Q) Op
  head_op f p = mem do q ← follow_defs f p; getop q

  -- `new CExpr(PI, var, domain, range)` and its `calc_free_in`.
  unfoldable pub new_pi : ℕ → Ptr → Ptr → Ptr → Cmd (Session Z Q) Ptr
  new_pi f var domain range =
      mem do p ← alloc (cexp Op.pi (var ∷ domain ∷ range ∷ [])); calc_free_in f p; pure p

  -- `if (!expected->defeq(actual)) report_error(…)`
  unfoldable pub must_equal : Gmp Z Q → ℕ → Ptr → Ptr → Cmd (Session Z Q) (Unit {0})
  must_equal gmp f p q = do same ← mem (defeq gmp f p q); require same

  -- An application is reduced before a name is bound to it (`insertAndBindSymbol`).
  unfoldable pub reduce_def : ℕ → Ptr → Cmd (Heap Z Q) Ptr
  reduce_def f e = do
    o ← getop e
    if is_app o
        then (do er ← whr f e; if er == e then pure e else (do inc er; dec f e; pure er))
        else pure e

  unfoldable pub insert_and_bind : ℕ → Key → Ptr → Ptr → Ptr → Cmd (Session Z Q) Binding
  insert_and_bind f id sym e t = do
    mem do e' ← reduce_def f e; set_val sym e'
    bind_symbol id (sym, t)

  -- `new CExpr(LAM, var, body)`, marked as cloned.
  unfoldable pub cloned_lam : Ptr → Ptr → Cmd (Session Z Q) Ptr
  cloned_lam var body = mem do r ← alloc (cexp Op.lam (var ∷ body ∷ [])); set_mark r true; pure r
