-- ===== src/Code/Check/Types.antt =====
-- `check_code` of src/code.cpp: its cases put together.
use lfsc.Common.{ℕ, zero, suc}
use lfsc.Header.{Op}
use lfsc.Gmp.{Gmp}
use lfsc.Heap.{
  Ptr, Node, int, rat, hole, sym, syms, cexp, report_error, timeout, Cmd, pure, halt, ◌>>=◌, ◌>>◌,
  node, nth,
}
use lfsc.Code.Symbols.{Checker, mem, stat_type, stat_mpz, stat_mpq}
use lfsc.Code.Check.Simple.{
  Rec, check_sym, check_let, check_arith, check_neg, check_mpz_to_mpq, check_if_number, check_fail,
  check_mark, check_if_marked, check_compare, check_if_equal,
}
use lfsc.Code.Check.Apps.{check_app}
use lfsc.Code.Check.Cases.{check_match}

module _ {Z Q : Type 0} (gmp : Gmp Z Q) where
  unfoldable pub check_node : ℕ → Rec Z Q → Node Z Q → Cmd (Checker Z Q) Ptr
  check_node f check (int n) = pure stat_mpz
  check_node f check (rat q) = pure stat_mpq
  check_node f check (sym v) = halt report_error
  check_node f check (syms s v) = check_sym s
  check_node f check (hole v) = halt report_error
  check_node f check (cexp Op.app ks) = check_app gmp f check ks
  check_node f check (cexp Op.mpz ks) = pure stat_type
  check_node f check (cexp Op.mpq ks) = pure stat_type
  check_node f check (cexp Op.do_ ks) = check (nth ks 0) >> check (nth ks 1)
  check_node f check (cexp Op.let_ ks) = check_let check ks
  check_node f check (cexp Op.add ks) = check_arith f check ks
  check_node f check (cexp Op.mul ks) = check_arith f check ks
  check_node f check (cexp Op.div ks) = check_arith f check ks
  check_node f check (cexp Op.neg ks) = check_neg f check ks
  check_node f check (cexp Op.mpz_to_mpq ks) = check_mpz_to_mpq f check ks
  check_node f check (cexp Op.ifneg ks) = check_if_number f check ks
  check_node f check (cexp Op.ifzero ks) = check_if_number f check ks
  check_node f check (cexp Op.fail ks) = check_fail check ks
  check_node f check (cexp Op.markvar ks) = check_mark f check ks
  check_node f check (cexp Op.ifmarked ks) = check_if_marked f check ks
  check_node f check (cexp Op.compare ks) = check_compare f check ks
  check_node f check (cexp Op.ifequal ks) = check_if_equal f check ks
  check_node f check (cexp Op.match ks) = check_match gmp f check ks
  check_node f check (cexp o ks) = halt report_error

  unfoldable pub check_code : ℕ → Ptr → Cmd (Checker Z Q) Ptr
  check_code zero e = halt timeout
  check_code (suc f) e = do n ← mem (node e); check_node f (check_code f) n
