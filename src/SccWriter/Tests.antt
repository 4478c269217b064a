-- ===== src/SccWriter/Tests.antt =====
-- The tests of `write_code`: MARKVAR, IFMARKED, COMPARE and IFEQUAL.
use lfsc.Common.{ℕ, ◌+◌, Option, none, some, List, [], ◌∷◌}
use lfsc.Heap.{Ptr, int, Cmd, fault, pure, halt, ◌>>=◌, ◌>>◌, node, nth}
use lfsc.SccWriter.{
  Text, lit, var, Source, Writer, no_opts, check_sym, WriteCode, decimal, line, ret_mod, inc_text,
  look,
}
use lfsc.SccWriter.Exprs.{write_expr, write_dec}

module _ {Z Q : Type 0} (src : Source Z Q) where
  -- `((IntExpr*)kids[0])->get_num()`
  unfoldable pub mark_text : List Ptr → Cmd Writer Text
  mark_text ks = do
    n ← look src (node (nth ks 0))
    elim n [ int z ↦ pure (decimal (src.gmp.mpz_get_ui z)) | _ ↦ halt fault ]

  module _ (write_code : WriteCode) where
    -- The value of the marked variable, if it is returned.
    unfoldable pub write_result : ℕ → Option Text → Text → Cmd Writer (Unit {0})
    write_result ind none e = pure tt
    write_result ind (some r) e = do
      line ind (var (ret_mod (some r)) ∷ var e ∷ lit ";" ∷ [])
      line ind (var (inc_text (some r)) ∷ [])

    unfoldable pub write_mark_var : List Ptr → ℕ → Option Text → Cmd Writer (Unit {0})
    unfolding mark_text write_result
    write_mark_var ks ind ret = do
      e ← write_expr src write_code (nth ks 1) ind check_sym
      m ← mark_text ks
      line ind
          (lit "if ( ((SymExpr*)" ∷ var e ∷ lit "->followDefs())->getmark(" ∷ var m ∷ lit "))" ∷ [])
      line (ind + 1)
          (lit "((SymExpr*)" ∷ var e ∷ lit "->followDefs())->clearmark(" ∷ var m ∷ lit ");" ∷ [])
      line ind (lit "else" ∷ [])
      line (ind + 1)
          (lit "((SymExpr*)" ∷ var e ∷ lit "->followDefs())->setmark(" ∷ var m ∷ lit ");" ∷ [])
      write_result ind ret e
      write_dec ind e

    -- The two branches of a test, which opens the first.
    unfoldable pub write_branches : List Ptr → ℕ → Option Text → Cmd Writer (Unit {0})
    write_branches ks ind ret = do
      write_code (nth ks 2) (ind + 1) ret no_opts
      line ind (lit "}else{" ∷ [])
      write_code (nth ks 3) (ind + 1) ret no_opts
      line ind (lit "}" ∷ [])

    unfoldable pub write_if_marked : List Ptr → ℕ → Option Text → Cmd Writer (Unit {0})
    unfolding mark_text write_branches
    write_if_marked ks ind ret = do
      e ← write_expr src write_code (nth ks 1) ind check_sym
      m ← mark_text ks
      line ind (
          lit "if ( ((SymExpr*)" ∷ var e ∷ lit "->followDefs())->getmark(" ∷ var m ∷ lit ")){" ∷ [])
      write_branches ks ind ret
      write_dec ind e

    unfoldable pub write_compare : List Ptr → ℕ → Option Text → Cmd Writer (Unit {0})
    unfolding write_branches
    write_compare ks ind ret = do
      e₁ ← write_expr src write_code (nth ks 0) ind check_sym
      e₂ ← write_expr src write_code (nth ks 1) ind check_sym
      line ind (
          lit "if( ((SymExpr*)"
          ∷ var e₁
          ∷ lit ")->followDefs() < ((SymExpr*)"
          ∷ var e₂
          ∷ lit ")->followDefs() ){"
          ∷ [])
      write_branches ks ind ret
      write_dec ind e₁
      write_dec ind e₂

    unfoldable pub write_if_equal : List Ptr → ℕ → Option Text → Cmd Writer (Unit {0})
    unfolding write_branches
    write_if_equal ks ind ret = do
      e₁ ← write_expr src write_code (nth ks 0) ind check_sym
      e₂ ← write_expr src write_code (nth ks 1) ind check_sym
      line ind (lit "if( " ∷ var e₁ ∷ lit "->defeq( " ∷ var e₂ ∷ lit ") ){" ∷ [])
      write_branches ks ind ret
      write_dec ind e₁
      write_dec ind e₂
