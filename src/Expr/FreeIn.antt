-- ===== src/Expr/FreeIn.antt =====
-- `_free_in` and `calc_free_in` of src/expr.cpp. The set `visited` is a list that is passed on.
use lfsc.Common.{
  ℕ, zero, suc, Bool, true, false, ◌||◌, ◌&&◌, List, [], ◌∷◌, ◌==◌, if◌then◌else◌, mem,
}
use lfsc.Header.{is_lam, is_pi}
use lfsc.Heap.{
  Ptr, null, Node, int, rat, hole, sym, syms, cexp, Heap, timeout, Cmd, pure, halt, ◌>>=◌, ◌>>◌,
  node, set_mark, nth, kid,
}

module _ {Z Q : Type 0} where
  -- The loop over the kids stops at the first in which `x` is free.
  unfoldable pub any_free_in :
      (Ptr → List Ptr → Cmd (Heap Z Q) (Bool × List Ptr))
      → List Ptr
      → List Ptr
      → Cmd (Heap Z Q) (Bool × List Ptr)
  any_free_in rec [] visited = pure (false, visited)
  any_free_in rec (k ∷ ks) visited = do
    (b, visited') ← rec k visited
    let rest = any_free_in rec ks visited'
    if b then pure (true, visited') else rest

  abbrev pub is_hole : Node Z Q → Bool
  is_hole (hole v) = true
  is_hole _ = false

  unfoldable pub sym_free_in :
      (Ptr → List Ptr → Cmd (Heap Z Q) (Bool × List Ptr))
      → Ptr
      → Ptr
      → Ptr
      → List Ptr
      → Cmd (Heap Z Q) (Bool × List Ptr)
  sym_free_in rec x p v visited =
      if v == null
      then pure (p == x, visited)
      else do n ← node v; if is_hole n then rec v visited else pure (p == x, visited)

  unfoldable pub node_free_in :
      (Ptr → List Ptr → Cmd (Heap Z Q) (Bool × List Ptr))
      → Ptr
      → Ptr
      → Node Z Q
      → List Ptr
      → Cmd (Heap Z Q) (Bool × List Ptr)
  unfolding any_free_in sym_free_in
  node_free_in rec x p (hole v) visited =
      if v == null then pure (p == x, visited) else rec v visited
  node_free_in rec x p (sym v) visited = sym_free_in rec x p v visited
  node_free_in rec x p (syms s v) visited = sym_free_in rec x p v visited
  node_free_in rec x p (int n) visited = pure (false, visited)
  node_free_in rec x p (rat n) visited = pure (false, visited)
  node_free_in rec x p (cexp o ks) visited =
      if (is_lam o || is_pi o) && (x == nth ks 0)
      then pure (false, visited)
      else any_free_in rec ks (p ∷ visited)

  unfoldable pub free_in_from : ℕ → Ptr → Ptr → List Ptr → Cmd (Heap Z Q) (Bool × List Ptr)
  unfolding node_free_in
  free_in_from zero x p visited = halt timeout
  free_in_from (suc f) x p visited =
      if mem p visited
      then pure (false, visited)
      else do n ← node p; node_free_in (free_in_from f x) x p n visited

  -- `p->free_in(x)`
  unfoldable pub free_in : ℕ → Ptr → Ptr → Cmd (Heap Z Q) Bool
  unfolding free_in_from
  free_in f x p = do (b, _) ← free_in_from f x p []; pure b

  unfoldable pub calc_free_in : ℕ → Ptr → Cmd (Heap Z Q) (Unit {0})
  unfolding free_in
  calc_free_in f p = do
    set_mark p false
    var ← kid p 0
    range ← kid p 2
    b ← free_in f var range
    if b then set_mark p true else pure tt
