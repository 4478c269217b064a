-- ===== src/SccWriter/Nested/Code.antt =====
-- `write_code` keeps the depth in braces.
use lfsc.Common.{ℕ, zero, suc, Option, List}
use lfsc.Header.{Op}
use lfsc.Heap.{Ptr, Node, int, rat, hole, sym, syms, cexp, timeout}
use lfsc.SccWriter.{Text, Source, Opts, WriteCode}
use lfsc.SccWriter.Level.{PlainRet}
use lfsc.SccWriter.Code.{write_cexpr, write_node, write_code}
use lfsc.SccWriter.Nested.{Level, Writes-pure, Writes-halt, Writes-bind}
use lfsc.SccWriter.Nested.Exprs.{CleanNode, IsSource, KeepsLevel, node-Writes}
use lfsc.SccWriter.Nested.Numbers.{
  write_int-Level, write_rat-Level, write_arith-Level, write_neg-Level, write_mpz_to_mpq-Level,
  write_if_number-Level,
}
use lfsc.SccWriter.Nested.Tests.{
  write_mark_var-Level, write_if_marked-Level, write_compare-Level, write_if_equal-Level,
}
use lfsc.SccWriter.Nested.Apps.{
  write_sym-Level, write_fail-Level, write_app-Level, write_case_part-Level, write_do-Level,
  write_let-Level,
}
use lfsc.SccWriter.Nested.Matching.{write_match-Level}

module _ {Z Q : Type 0} (src : Source Z Q) (v : IsSource src) where
  module _ (f : ℕ) (rec : WriteCode) (h : KeepsLevel rec) (a : ℕ) where
    write_cexpr-Level :
        (o : Op) (ks : List Ptr) (code : Ptr) (ind : ℕ) (ret : Option Text) (opts : Opts)
        → CleanNode src.heap (cexp o ks)
        → PlainRet ret
        → Level a (write_cexpr src f rec o ks code ind ret opts)
    unfolding write_cexpr
    write_cexpr-Level Op.app ks code ind ret opts c w =
        write_app-Level src v f rec h a code ind ret w
    write_cexpr-Level Op.match ks code ind ret opts c w =
        write_match-Level src v f rec h a ks ind ret c w
    write_cexpr-Level Op.case ks code ind ret opts c w =
        write_case_part-Level src v f rec h a ks ind ret opts w
    write_cexpr-Level Op.do_ ks code ind ret opts c w = write_do-Level src v f rec h a ks ind ret w
    write_cexpr-Level Op.let_ ks code ind ret opts c w =
        write_let-Level src v f rec h a ks ind ret w
    write_cexpr-Level Op.fail ks code ind ret opts c w = write_fail-Level src v a ind ret w
    write_cexpr-Level Op.markvar ks code ind ret opts c w =
        write_mark_var-Level src v a rec h ks ind ret w
    write_cexpr-Level Op.compare ks code ind ret opts c w =
        write_compare-Level src v a rec h ks ind ret w
    write_cexpr-Level Op.ifequal ks code ind ret opts c w =
        write_if_equal-Level src v a rec h ks ind ret w
    write_cexpr-Level Op.ifmarked ks code ind ret opts c w =
        write_if_marked-Level src v a rec h ks ind ret w
    write_cexpr-Level Op.add ks code ind ret opts c w =
        write_arith-Level src v a rec h Op.add ks ind ret w
    write_cexpr-Level Op.mul ks code ind ret opts c w =
        write_arith-Level src v a rec h Op.mul ks ind ret w
    write_cexpr-Level Op.div ks code ind ret opts c w =
        write_arith-Level src v a rec h Op.div ks ind ret w
    write_cexpr-Level Op.neg ks code ind ret opts c w = write_neg-Level src v a rec h ks ind ret w
    write_cexpr-Level Op.mpz_to_mpq ks code ind ret opts c w =
        write_mpz_to_mpq-Level src v a rec h ks ind ret w
    write_cexpr-Level Op.ifneg ks code ind ret opts c w =
        write_if_number-Level src v a rec h Op.ifneg ks ind ret w
    write_cexpr-Level Op.ifzero ks code ind ret opts c w =
        write_if_number-Level src v a rec h Op.ifzero ks ind ret w
    write_cexpr-Level _ ks code ind ret opts c w = Writes-pure a _ tt tt

    write_node-Level :
        (n : Node Z Q) (code : Ptr) (ind : ℕ) (ret : Option Text) (opts : Opts)
        → CleanNode src.heap n
        → PlainRet ret
        → Level a (write_node src f rec n code ind ret opts)
    unfolding write_node
    write_node-Level (int z) code ind ret opts c w = write_int-Level src v a z ind ret w
    write_node-Level (rat q) code ind ret opts c w = write_rat-Level src v a q ind ret w
    write_node-Level (syms s x) code ind ret opts c w = write_sym-Level src v a s ind ret c w
    write_node-Level (cexp o ks) code ind ret opts c w =
        write_cexpr-Level o ks code ind ret opts c w
    write_node-Level (hole x) code ind ret opts c w = Writes-pure a _ tt tt
    write_node-Level (sym x) code ind ret opts c w = Writes-pure a _ tt tt

  pub write_code-Level : (f : ℕ) → KeepsLevel (write_code src f)
  unfolding write_code
  write_code-Level zero a code ind ret opts w = Writes-halt a a _ timeout
  write_code-Level (suc f) a code ind ret opts w =
      Writes-bind (node-Writes src v a code)
        λ n c. write_node-Level f (write_code src f) (write_code-Level f) a n code ind ret opts c w
