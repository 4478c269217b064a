-- ===== src/Heap/Count.antt =====
-- Reference counts in memory: `inc`, `dec` and `destroy` of src/expr.h and src/expr.cpp.
use lfsc.Common.{ℕ, zero, suc, none, some, List, [], ◌∷◌, ◌==◌, if◌then◌else◌}
use lfsc.Header.{is_prog, inc_ref, dec_ref}
use lfsc.Heap.{
  Ptr, null, Node, int, rat, hole, sym, syms, cexp, Heap, timeout, Cmd, pure, halt, ◌>>=◌, ◌>>◌,
  read, write, getop,
}

module _ {Z Q : Type 0} where
  unfoldable pub inc : Ptr → Cmd (Heap Z Q) (Unit {0})
  inc p = do c ← read p; write p (some (record c { count = inc_ref c.count }))

  -- `delete e`
  unfoldable pub delete : Ptr → Cmd (Heap Z Q) (Unit {0})
  delete p = do c ← read p; write p none

  -- The kids of a CExpr: all but the last are released first, then the CExpr is deleted, and the
  -- last is released. With no kid the loop never runs, and the CExpr is not deleted.
  unfoldable pub destroy_kids :
      (Ptr → Cmd (Heap Z Q) (Unit {0})) → Ptr → Ptr → List Ptr → Cmd (Heap Z Q) (Unit {0})
  destroy_kids release p k [] = do delete p; release k
  destroy_kids release p k (k' ∷ ks) = do release k; destroy_kids release p k' ks

  -- `val && val->getop() != PROG`: the value is released once the symbol is deleted.
  unfoldable pub destroy_sym :
      (Ptr → Cmd (Heap Z Q) (Unit {0})) → Ptr → Ptr → Cmd (Heap Z Q) (Unit {0})
  destroy_sym release p v =
      if v == null
      then delete p
      else do o ← getop v; if is_prog o then delete p else (delete p >> release v)

  -- `destroy`, with the kids released by `release`. A RatExpr has no case: it is not deleted.
  unfoldable pub destroy :
      (Ptr → Cmd (Heap Z Q) (Unit {0})) → Ptr → Node Z Q → Cmd (Heap Z Q) (Unit {0})
  unfolding destroy_kids destroy_sym
  destroy release p (int n) = delete p
  destroy release p (rat n) = pure tt
  destroy release p (hole v) = if v == null then delete p else delete p >> release v
  destroy release p (sym v) = destroy_sym release p v
  destroy release p (syms s v) = destroy_sym release p v
  destroy release p (cexp o []) = pure tt
  destroy release p (cexp o (k ∷ ks)) = destroy_kids release p k ks

  -- `dec`, and the macro `destroydec` that the loop of `destroy` uses. The fuel bounds the depth.
  unfoldable pub dec : ℕ → Ptr → Cmd (Heap Z Q) (Unit {0})
  unfolding destroy
  dec zero p = halt timeout
  dec (suc f) p = do
    c ← read p
    let r = dec_ref c.count
    let kept = write p (some (record c { count = r }))
    if r == 0 then destroy (dec f) p c.node else kept
