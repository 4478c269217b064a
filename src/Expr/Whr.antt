-- ===== src/Expr/Whr.antt =====
-- Weak head reduction, `CExpr::whr` of src/expr.cpp.
use lfsc.Common.{ℕ, true, List, [], ◌∷◌, if◌then◌else◌}
use lfsc.Header.{is_lam}
use lfsc.Heap.{Ptr, Heap, fault, Cmd, pure, halt, ◌>>=◌, ◌>>◌, set_mark, mark, getop, kid, set_val}
use lfsc.Heap.Count.{inc, dec}
use lfsc.Expr.{follow_defs, collect_args, get_head, build_app, inc_all}
use lfsc.Expr.Clone.{clone}

module _ {Z Q : Type 0} where
  -- The loop: the variable of each λ is bound to an argument. The result is the body that is
  -- reached and the arguments left over. With no argument `args[0]` is out of range.
  unfoldable pub bind_args : ℕ → Ptr → List Ptr → Cmd (Heap Z Q) (Ptr × List Ptr)
  bind_args f head [] = halt fault
  bind_args f head (a ∷ []) = do
    tmp ← follow_defs f a
    var ← kid head 0
    set_val var tmp
    inc tmp
    body ← kid head 1
    pure (body, [])
  bind_args f head (a ∷ b ∷ args) = do
    tmp ← follow_defs f a
    var ← kid head 0
    set_val var tmp
    inc tmp
    body ← kid head 1
    o ← getop body
    let more = bind_args f body (b ∷ args)
    if is_lam o then more else pure (body, b ∷ args)

  -- A λ that was used before is cloned, any other is marked as used.
  unfoldable pub take_head : ℕ → Ptr → Cmd (Heap Z Q) Ptr
  take_head f head = do
    used ← mark head
    if used then clone f head else (set_mark head true >> pure head)

  unfoldable pub reduce : ℕ → Ptr → Cmd (Heap Z Q) Ptr
  unfolding bind_args take_head
  reduce f p = do
    (args, head) ← collect_args f true p
    used ← mark head
    lam ← take_head f head
    (body, rest) ← bind_args f lam args
    inc_all rest
    inc body
    if used then dec f lam else pure tt
    build_app body rest

  unfoldable pub whr : ℕ → Ptr → Cmd (Heap Z Q) Ptr
  unfolding reduce
  whr f p = do head ← get_head f true p; o ← getop head; if is_lam o then reduce f p else pure p
