-- ===== src/Expr.antt =====
-- Expressions as graphs in memory, src/expr.cpp: definitions, heads, arguments and applications.
-- A loop or a recursion along pointers takes fuel, which bounds its depth.
pub mod Clone
pub mod Arguments
pub mod Defeq
pub mod Examples
pub mod Follow
pub mod FreeIn
pub mod Restores
pub mod Tree
pub mod Whr
use lfsc.Common.{ℕ, zero, suc, Bool, true, false, List, [], ◌∷◌, ◌++◌, ◌==◌, if◌then◌else◌}
use lfsc.Header.{Op, is_app, is_pi, is_prog}
use lfsc.Heap.{
  Ptr, null, Node, cexp, Heap, fault, timeout, Cmd, pure, halt, and_then, ◌>>=◌, ◌>>◌, alloc, node,
  op_of, val_of, kids_of, getop, kids, kid, nth,
}
use lfsc.Heap.Count.{inc}

-- `kids[0]` and the kids behind it.
abbrev pub first : List Ptr → Ptr
first [] = null
first (p ∷ ps) = p

abbrev pub behind : List Ptr → List Ptr
behind [] = []
behind (p ∷ ps) = ps

module _ {Z Q : Type 0} where
  unfoldable pub follow_defs : ℕ → Ptr → Cmd (Heap Z Q) Ptr
  follow_defs zero p = halt timeout
  follow_defs (suc f) p = do
    n ← node p
    let rest = follow_defs f (val_of n)
    if val_of n == null then pure p else rest

  -- The arguments and the head. The parameter `follow` is `follow_defs` in the source.
  unfoldable pub collect_args : ℕ → Bool → Ptr → Cmd (Heap Z Q) (List Ptr × Ptr)
  collect_args f follow p = do
    n ← node p
    let e = if is_app (op_of n) then first (kids_of n) else p
    let args = if is_app (op_of n) then behind (kids_of n) else []
    head ← if follow then follow_defs f e else pure e
    pure (args, head)

  unfoldable pub get_head : ℕ → Bool → Ptr → Cmd (Heap Z Q) Ptr
  get_head zero follow p = halt timeout
  get_head (suc f) follow p = do
    n ← node p
    let e = first (kids_of n)
    let rest : Cmd (Heap Z Q) Ptr = do
      e' ← if follow then follow_defs f e else pure e
      get_head f follow e'
    if is_app (op_of n) then rest else pure p

  -- `get_body`, at the operator PI, which is its default.
  unfoldable pub get_body : ℕ → Bool → Ptr → Cmd (Heap Z Q) Ptr
  get_body zero follow p = halt timeout
  get_body (suc f) follow p = do
    n ← node p
    let e = nth (kids_of n) 2
    let rest : Cmd (Heap Z Q) Ptr = do
      e' ← if follow then follow_defs f e else pure e
      get_body f follow e'
    if is_pi (op_of n) then rest else pure p

  -- `build_app(hd, args, start)`, with `args` from `start` on.
  unfoldable pub build_app : Ptr → List Ptr → Cmd (Heap Z Q) Ptr
  build_app hd [] = pure hd
  build_app hd (a ∷ args) = alloc (cexp Op.app (hd ∷ a ∷ args))

  unfoldable pub inc_all : List Ptr → Cmd (Heap Z Q) (Unit {0})
  inc_all [] = pure tt
  inc_all (p ∷ ps) = do inc p; inc_all ps

  -- The kids of any CExpr, whatever its operator, are taken over into the new application.
  unfoldable pub make_app : Ptr → Ptr → Cmd (Heap Z Q) Ptr
  unfolding inc_all
  make_app e₁ e₂ = do
    n ← node e₁
    elim n [
      | cexp o ks ↦ inc_all ks >> alloc (cexp Op.app (ks ++ e₂ ∷ []))
      | _ ↦ alloc (cexp Op.app (e₁ ∷ e₂ ∷ []))
    ]

  -- `isType`, at the expression `stat_type`.
  unfoldable pub is_type : ℕ → Ptr → Ptr → Cmd (Heap Z Q) Bool
  is_type zero stat_type p = halt timeout
  is_type (suc f) stat_type p = if p == stat_type then pure true else do
    n ← node p
    let rest = is_type f stat_type (nth (kids_of n) 2)
    if is_pi (op_of n) then rest else pure false
