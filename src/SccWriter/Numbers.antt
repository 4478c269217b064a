-- ===== src/SccWriter/Numbers.antt =====
-- The numbers of `write_code`: literals, ADD, MUL, DIV, NEG, MPZ_TO_MPQ, IFNEG and IFZERO.
use lfsc.Common.{ℕ, ◌+◌, Option, List, [], ◌∷◌, String}
use lfsc.Header.{Op}
use lfsc.Heap.{Ptr, Cmd, ◌>>=◌, ◌>>◌, nth}
use lfsc.SccWriter.{
  Text, Piece, lit, var, Source, Writer, no_opts, WriteCode, line, new_rnum, ret_mod, inc_text,
  codes,
}
use lfsc.SccWriter.Exprs.{write_expr, write_dec}

-- The functions of GMP that are written for ADD, MUL and DIV: on integers there is no division.
abbrev pub mpz_name : Op → Text
mpz_name Op.add = codes "add"
mpz_name _ = codes "mul"

abbrev pub mpq_name : Op → Text
mpq_name Op.add = codes "add"
mpq_name Op.mul = codes "mul"
mpq_name _ = codes "div"

abbrev pub sign_test : Op → Text
sign_test Op.ifneg = codes "<"
sign_test _ = codes "=="

-- `if( e->followDefs()->getclass()==INT_EXPR ){`
abbrev pub class_test : String → Text → String → List Piece
class_test before e class =
    lit before ∷ var e ∷ lit "->followDefs()->getclass()==" ∷ lit class ∷ lit " ){" ∷ []

module _ {Z Q : Type 0} (src : Source Z Q) where
  unfoldable pub write_int : Z → ℕ → Option Text → Cmd Writer (Unit {0})
  write_int z ind ret = do
    line ind (
        var (ret_mod ret)
        ∷ lit "new IntExpr( (signed long int)"
        ∷ var (src.si_text z)
        ∷ lit " );"
        ∷ [])
    line ind (var (inc_text ret) ∷ [])

  unfoldable pub write_rat : Q → ℕ → Option Text → Cmd Writer (Unit {0})
  write_rat q ind ret = do
    line ind (
        var (ret_mod ret)
        ∷ lit "new RatExpr( "
        ∷ var (src.si_text (src.mpq_get_num q))
        ∷ lit ", "
        ∷ var (src.si_text (src.mpq_get_den q))
        ∷ lit " );"
        ∷ [])
    line ind (var (inc_text ret) ∷ [])

  module _ (write_code : WriteCode) where
    -- One class of numbers: `mpz_t` with IntExpr, or `mpq_t` with RatExpr.
    unfoldable pub write_operation :
        ℕ → Option Text → Text → Text → Text → Text → List Piece → Cmd Writer (Unit {0})
    write_operation ind ret gmp name class r args = do
      line ind (var gmp ∷ lit "_t " ∷ var r ∷ lit ";" ∷ [])
      line ind (var gmp ∷ lit "_init(" ∷ var r ∷ lit ");" ∷ [])
      line ind (var gmp ∷ lit "_" ∷ var name ∷ lit "( " ∷ var r ∷ args)
      line ind (var (ret_mod ret) ∷ lit "new " ∷ var class ∷ lit "(" ∷ var r ∷ lit ");" ∷ [])

    abbrev pub two_args : Text → Text → Text → List Piece
    two_args class e₁ e₂ =
        lit ", (("
        ∷ var class
        ∷ lit "*)"
        ∷ var e₁
        ∷ lit "->followDefs())->n, (("
        ∷ var class
        ∷ lit "*)"
        ∷ var e₂
        ∷ lit "->followDefs())->n);"
        ∷ []

    abbrev pub one_arg : Text → Text → List Piece
    one_arg class e = lit ", ((" ∷ var class ∷ lit "*)" ∷ var e ∷ lit "->followDefs())->n );" ∷ []

    unfoldable pub write_arith : Op → List Ptr → ℕ → Option Text → Cmd Writer (Unit {0})
    unfolding write_operation
    write_arith o ks ind ret = do
      e₁ ← write_expr src write_code (nth ks 0) ind no_opts
      e₂ ← write_expr src write_code (nth ks 1) ind no_opts
      r ← new_rnum
      line ind (class_test "if( " e₁ "INT_EXPR")
      write_operation (ind + 1) ret (codes "mpz") (mpz_name o) (codes "IntExpr") r
          (two_args (codes "IntExpr") e₁ e₂)
      line ind (class_test "}else if( " e₁ "RAT_EXPR")
      write_operation (ind + 1) ret (codes "mpq") (mpq_name o) (codes "RatExpr") r
          (two_args (codes "RatExpr") e₁ e₂)
      line ind (lit "}" ∷ [])
      write_dec ind e₁
      write_dec ind e₂

    unfoldable pub write_neg : List Ptr → ℕ → Option Text → Cmd Writer (Unit {0})
    unfolding write_operation
    write_neg ks ind ret = do
      e ← write_expr src write_code (nth ks 0) ind no_opts
      r ← new_rnum
      line ind (class_test "if( " e "INT_EXPR")
      write_operation (ind + 1) ret (codes "mpz") (codes "neg") (codes "IntExpr") r
          (one_arg (codes "IntExpr") e)
      line ind (class_test "}else if( " e "RAT_EXPR")
      write_operation (ind + 1) ret (codes "mpq") (codes "neg") (codes "RatExpr") r
          (one_arg (codes "RatExpr") e)
      line ind (lit "}" ∷ [])
      write_dec ind e

    unfoldable pub write_mpz_to_mpq : List Ptr → ℕ → Option Text → Cmd Writer (Unit {0})
    unfolding write_operation
    write_mpz_to_mpq ks ind ret = do
      e ← write_expr src write_code (nth ks 0) ind no_opts
      r ← new_rnum
      write_operation ind ret (codes "mpq") (codes "set_num") (codes "RatExpr") r
          (one_arg (codes "IntExpr") e)
      write_dec ind e

    -- The test of a sign with its two branches, for one class.
    unfoldable pub write_sign :
        Op → List Ptr → ℕ → Option Text → Text → Text → Text → Cmd Writer (Unit {0})
    write_sign o ks ind ret gmp class e = do
      line ind (
          lit "if( "
          ∷ var gmp
          ∷ lit "_sgn( (("
          ∷ var class
          ∷ lit " *)"
          ∷ var e
          ∷ lit "->followDefs())->n ) "
          ∷ var (sign_test o)
          ∷ lit " 0 ){"
          ∷ [])
      write_code (nth ks 1) (ind + 1) ret no_opts
      line ind (lit "}else{" ∷ [])
      write_code (nth ks 2) (ind + 1) ret no_opts
      line ind (lit "}" ∷ [])

    unfoldable pub write_if_number : Op → List Ptr → ℕ → Option Text → Cmd Writer (Unit {0})
    unfolding write_sign
    write_if_number o ks ind ret = do
      e ← write_expr src write_code (nth ks 0) ind no_opts
      line ind (class_test "if( " e "INT_EXPR")
      write_sign o ks (ind + 1) ret (codes "mpz") (codes "IntExpr") e
      line ind (class_test "}else if( " e "RAT_EXPR")
      write_sign o ks (ind + 1) ret (codes "mpq") (codes "RatExpr") e
      line ind (lit "}" ∷ [])
      write_dec ind e
