-- ===== src/SccWriter/Code.antt =====
-- `write_code` of src/sccwriter.cpp. The fuel bounds the depth of the code.
use lfsc.Common.{ℕ, zero, suc, Option, List}
use lfsc.Header.{Op}
use lfsc.Heap.{Ptr, Node, int, rat, hole, sym, syms, cexp, Cmd, timeout, pure, halt, ◌>>=◌, node}
use lfsc.SccWriter.{Text, Source, Writer, Opts, WriteCode, look}
use lfsc.SccWriter.Numbers.{
  write_int, write_rat, write_arith, write_neg, write_mpz_to_mpq, write_if_number,
}
use lfsc.SccWriter.Tests.{write_mark_var, write_if_marked, write_compare, write_if_equal}
use lfsc.SccWriter.Matching.{
  write_sym, write_app, write_match, write_case_part, write_do, write_let, write_fail,
}

module _ {Z Q : Type 0} (src : Source Z Q) where
  -- What is no code writes nothing.
  unfoldable pub write_cexpr :
      ℕ → WriteCode → Op → List Ptr → Ptr → ℕ → Option Text → Opts → Cmd Writer (Unit {0})
  write_cexpr f rec Op.app ks code ind ret opts = write_app src f rec code ind ret
  write_cexpr f rec Op.match ks code ind ret opts = write_match src f rec ks ind ret
  write_cexpr f rec Op.case ks code ind ret opts = write_case_part src f rec ks ind ret opts
  write_cexpr f rec Op.do_ ks code ind ret opts = write_do src f rec ks ind ret
  write_cexpr f rec Op.let_ ks code ind ret opts = write_let src f rec ks ind ret
  write_cexpr f rec Op.fail ks code ind ret opts = write_fail src ind ret
  write_cexpr f rec Op.markvar ks code ind ret opts = write_mark_var src rec ks ind ret
  write_cexpr f rec Op.compare ks code ind ret opts = write_compare src rec ks ind ret
  write_cexpr f rec Op.ifequal ks code ind ret opts = write_if_equal src rec ks ind ret
  write_cexpr f rec Op.ifmarked ks code ind ret opts = write_if_marked src rec ks ind ret
  write_cexpr f rec Op.add ks code ind ret opts = write_arith src rec Op.add ks ind ret
  write_cexpr f rec Op.mul ks code ind ret opts = write_arith src rec Op.mul ks ind ret
  write_cexpr f rec Op.div ks code ind ret opts = write_arith src rec Op.div ks ind ret
  write_cexpr f rec Op.neg ks code ind ret opts = write_neg src rec ks ind ret
  write_cexpr f rec Op.mpz_to_mpq ks code ind ret opts = write_mpz_to_mpq src rec ks ind ret
  write_cexpr f rec Op.ifneg ks code ind ret opts = write_if_number src rec Op.ifneg ks ind ret
  write_cexpr f rec Op.ifzero ks code ind ret opts = write_if_number src rec Op.ifzero ks ind ret
  write_cexpr f rec _ ks code ind ret opts = pure tt

  unfoldable pub write_node :
      ℕ → WriteCode → Node Z Q → Ptr → ℕ → Option Text → Opts → Cmd Writer (Unit {0})
  unfolding write_cexpr
  write_node f rec (int z) code ind ret opts = write_int src z ind ret
  write_node f rec (rat q) code ind ret opts = write_rat src q ind ret
  write_node f rec (syms s v) code ind ret opts = write_sym src s ind ret
  write_node f rec (cexp o ks) code ind ret opts = write_cexpr f rec o ks code ind ret opts
  write_node f rec (hole v) code ind ret opts = pure tt
  write_node f rec (sym v) code ind ret opts = pure tt

  unfoldable pub write_code : ℕ → WriteCode
  unfolding write_node
  write_code zero code ind ret opts = halt timeout
  write_code (suc f) code ind ret opts = do
    n ← look src (node code)
    write_node f (write_code f) n code ind ret opts
