-- ===== src/Expr/Tree.antt =====
-- `convert_to_tree_app` and `convert_to_flat_app` of src/expr.cpp.
use lfsc.Common.{ℕ, zero, suc, true, List, [], ◌∷◌, if◌then◌else◌}
use lfsc.Header.{Op, is_app}
use lfsc.Heap.{Ptr, cexp, Heap, timeout, Cmd, pure, halt, ◌>>=◌, ◌>>◌, alloc, getop, kids}
use lfsc.Heap.Count.{inc}
use lfsc.Expr.{behind, collect_args, get_head, build_app}

module _ {Z Q : Type 0} where
  -- The loops over the arguments.
  unfoldable pub convert_all : (Ptr → Cmd (Heap Z Q) Ptr) → List Ptr → Cmd (Heap Z Q) (List Ptr)
  convert_all convert [] = pure []
  convert_all convert (p ∷ ps) = do q ← convert p; qs ← convert_all convert ps; pure (q ∷ qs)

  unfoldable pub convert_to_tree_app : ℕ → Ptr → Cmd (Heap Z Q) Ptr
  unfolding convert_all
  convert_to_tree_app zero e = halt timeout
  convert_to_tree_app (suc f) e = do
    o ← getop e
    let app : Cmd (Heap Z Q) Ptr = do
      ks ← kids e
      kds ← convert_all (convert_to_tree_app f) (behind ks)
      hd ← get_head f true e
      build_app hd kds
    if is_app o then app else pure e

  unfoldable pub convert_to_flat_app : ℕ → Ptr → Cmd (Heap Z Q) Ptr
  unfolding convert_all
  convert_to_flat_app zero e = halt timeout
  convert_to_flat_app (suc f) e = do
    o ← getop e
    let app : Cmd (Heap Z Q) Ptr = do
      (args, hd) ← collect_args f true e
      ks ← convert_all (convert_to_flat_app f) args
      nce ← alloc (cexp Op.app (hd ∷ ks))
      inc nce
      pure nce
    if is_app o then app else pure e
