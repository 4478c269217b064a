-- ===== src/Expr/Clone.antt =====
-- `Expr::clone` of src/expr.cpp: abstractions are copied with new variables, and everything that a
-- variable with a value stands for is taken over.
use lfsc.Common.{ℕ, zero, suc, Bool, true, false, ◌||◌, not, List, [], ◌∷◌, ◌==◌, if◌then◌else◌}
use lfsc.Header.{Op, is_prog}
use lfsc.Heap.{
  Ptr, null, Node, int, rat, hole, sym, syms, cexp, Heap, fault, timeout, Cmd, pure, halt, ◌>>=◌,
  ◌>>◌, alloc, node, set_mark, mark, getop, nth, sym_val, set_val,
}
use lfsc.Heap.Count.{inc, dec}

module _ {Z Q : Type 0} where
  -- `new SymSExpr(*var, SYMS_EXPR)`: the name of a SymSExpr is copied, its value is not.
  unfoldable pub copy_var : Ptr → Cmd (Heap Z Q) Ptr
  copy_var var = do n ← node var; elim n [ syms s v ↦ alloc (syms s null) | _ ↦ halt fault ]

  -- Clone the body with the variable standing for the new one.
  unfoldable pub clone_under : (Ptr → Cmd (Heap Z Q) Ptr) → Ptr → Ptr → Ptr → Cmd (Heap Z Q) Ptr
  clone_under rec var new_var body = do
    prev ← sym_val var
    set_val var new_var
    bod ← rec body
    set_val var prev
    pure bod

  unfoldable pub clone_kids :
      (Ptr → Cmd (Heap Z Q) Ptr) → List Ptr → Cmd (Heap Z Q) (List Ptr × Bool)
  clone_kids rec [] = pure ([], false)
  clone_kids rec (k ∷ ks) = do
    c ← rec k
    (cs, diff) ← clone_kids rec ks
    pure (c ∷ cs, not (c == k) || diff)

  unfoldable pub dec_all : ℕ → List Ptr → Cmd (Heap Z Q) (Unit {0})
  dec_all f [] = pure tt
  dec_all f (p ∷ ps) = do dec f p; dec_all f ps

  unfoldable pub keep : Ptr → Cmd (Heap Z Q) Ptr
  keep p = do inc p; pure p

  -- A symbol with a value that is no program, and a hole with a value, stand for the value.
  unfoldable pub clone_sym : (Ptr → Cmd (Heap Z Q) Ptr) → Ptr → Ptr → Cmd (Heap Z Q) Ptr
  unfolding keep
  clone_sym rec p v =
      if v == null then keep p else do o ← getop v; if is_prog o then keep p else rec v

  unfoldable pub clone_lam : (Ptr → Cmd (Heap Z Q) Ptr) → Ptr → List Ptr → Cmd (Heap Z Q) Ptr
  unfolding copy_var clone_under
  clone_lam rec p ks = do
    new_var ← copy_var (nth ks 0)
    bod ← clone_under rec (nth ks 0) new_var (nth ks 1)
    r ← alloc (cexp Op.lam (new_var ∷ bod ∷ []))
    used ← mark p
    if used then set_mark r true else pure tt
    pure r

  unfoldable pub clone_pi : (Ptr → Cmd (Heap Z Q) Ptr) → Ptr → List Ptr → Cmd (Heap Z Q) Ptr
  unfolding copy_var clone_under
  clone_pi rec p ks = do
    new_var ← copy_var (nth ks 0)
    tp ← rec (nth ks 1)
    bod ← clone_under rec (nth ks 0) new_var (nth ks 2)
    r ← alloc (cexp Op.pi (new_var ∷ tp ∷ bod ∷ []))
    free ← mark p
    if free then set_mark r true else pure tt
    pure r

  unfoldable pub clone_cexpr :
      ℕ → (Ptr → Cmd (Heap Z Q) Ptr) → Ptr → Op → List Ptr → Cmd (Heap Z Q) Ptr
  unfolding clone_kids dec_all keep
  clone_cexpr f rec p o ks = do
    (cs, diff) ← clone_kids rec ks
    if diff then alloc (cexp o cs) else (dec_all f cs >> keep p)

  unfoldable pub clone_node : ℕ → (Ptr → Cmd (Heap Z Q) Ptr) → Ptr → Node Z Q → Cmd (Heap Z Q) Ptr
  unfolding keep clone_sym clone_lam clone_pi clone_cexpr
  clone_node f rec p (int n) = keep p
  clone_node f rec p (rat n) = keep p
  clone_node f rec p (hole v) = if v == null then keep p else rec v
  clone_node f rec p (sym v) = clone_sym rec p v
  clone_node f rec p (syms s v) = clone_sym rec p v
  clone_node f rec p (cexp Op.lam ks) = clone_lam rec p ks
  clone_node f rec p (cexp Op.pi ks) = clone_pi rec p ks
  clone_node f rec p (cexp o ks) = clone_cexpr f rec p o ks

  unfoldable pub clone : ℕ → Ptr → Cmd (Heap Z Q) Ptr
  unfolding clone_node
  clone zero p = halt timeout
  clone (suc f) p = do n ← node p; clone_node f (clone f) p n
