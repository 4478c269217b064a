-- ===== src/SccWriter/Debug.antt =====
-- `debug_write_code` of src/sccwriter.cpp, which writes code as a tree.
use lfsc.Common.{ℕ, zero, suc, ◌+◌, List, [], ◌∷◌, ◌++◌}
use lfsc.Header.{Op}
use lfsc.Heap.{
  Ptr, Node, int, rat, hole, sym, syms, cexp, timeout, Cmd, pure, halt, ◌>>=◌, ◌>>◌, node, kids_of,
}
use lfsc.SccWriter.{Text, var, codes, Source, Writer, line, look}

abbrev pub op_name : Op → Text
op_name Op.app = codes "app"
op_name Op.pi = codes "pi"
op_name Op.lam = codes "lam"
op_name Op.type = codes "type"
op_name Op.kind = codes "kind"
op_name Op.ascribe = codes "ascribe"
op_name Op.mpz = codes "mpz"
op_name Op.prog = codes "prog"
op_name Op.progvars = codes "progvars"
op_name Op.match = codes "match"
op_name Op.case = codes "case"
op_name Op.pat = codes "pat"
op_name Op.do_ = codes "do"
op_name Op.add = codes "add"
op_name Op.neg = codes "neg"
op_name Op.let_ = codes "let"
op_name Op.run = codes "run"
op_name Op.fail = codes "fail"
op_name Op.markvar = codes "markvar"
op_name Op.ifmarked = codes "ifmarked"
op_name Op.compare = codes "compare"
op_name _ = codes "???"

module _ {Z Q : Type 0} where
  abbrev pub node_name : Node Z Q → Text
  node_name (int z) = codes "int_expr"
  node_name (rat q) = op_name Op.not_cexpr
  node_name (hole v) = codes "hole_expr"
  node_name (sym v) = codes "sym_expr"
  node_name (syms s v) = codes "syms_expr: " ++ s
  node_name (cexp o ks) = op_name o

  -- The kids stand one step further in; what is no CExpr has none.
  module _ (src : Source Z Q) where
    unfoldable pub debug_kids :
        (Ptr → ℕ → Cmd Writer (Unit {0})) → List Ptr → ℕ → Cmd Writer (Unit {0})
    debug_kids rec [] ind = pure tt
    debug_kids rec (p ∷ ps) ind = do rec p ind; debug_kids rec ps ind

    unfoldable pub debug_write_code : ℕ → Ptr → ℕ → Cmd Writer (Unit {0})
    unfolding debug_kids
    debug_write_code zero code ind = halt timeout
    debug_write_code (suc f) code ind = do
      n ← look src (node code)
      line ind (var (node_name n) ∷ [])
      debug_kids (debug_write_code f) (kids_of n) (ind + 1)
