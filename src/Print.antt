-- ===== src/Print.antt =====
-- `Expr::print` of src/expr.cpp: expressions as text. Values of symbols and holes are printed in
-- their place, so the fuel bounds the depth with these followed.
pub mod Balanced
mod Ends
mod Examples
pub mod Paren
use lfsc.Common.{
  ℕ, zero, suc, ◌+◌, Bool, true, false, Option, none, some, List, [], ◌∷◌, ◌++◌, String, ◌==◌,
  if◌then◌else◌,
}
use lfsc.Header.{Op, Class, is_prog, op_code, class_code}
use lfsc.Gmp.{Gmp, Sign}
use lfsc.Trie.{Key}
use lfsc.Heap.{
  Ptr, null, Node, int, rat, hole, sym, syms, cexp, Heap, Cmd, fault, timeout, pure, halt, and_then,
  ◌>>=◌, node, getop,
}
use lfsc.Expr.{collect_args}
use lfsc.SccWriter.{Text, codes, decimal}

-- `mpz_get_str` in base 10, `mpq_get_num` and `mpq_get_den`, and how `<<` prints an address.
pub record Texts (Z Q : Type 0) : Type 0 where
  pub gmp : Gmp Z Q
  pub mpz_get_str : Z → Text
  pub mpq_get_num : Q → Z
  pub mpq_get_den : Q → Z
  pub address : Ptr → Text

abbrev pub is_negative : Sign → Bool
is_negative Sign.negative = true
is_negative _ = false

-- What is printed between parentheses.
abbrev pub group : Text → Text
group t = b'(' ∷ (t ++ b')' ∷ [])

-- What stands in front of the kids, for the operators that print these in parentheses.
abbrev pub op_text : Op → Option String
op_text Op.lam = some "\\"
op_text Op.pi = some "!"
op_text Op.add = some "mp_add"
op_text Op.mul = some "mp_mul"
op_text Op.div = some "mp_div"
op_text Op.neg = some "mp_neg"
op_text Op.mpz_to_mpq = some "mpz_to_mpq"
op_text Op.ifneg = some "ifneg"
op_text Op.ifzero = some "ifzero"
op_text Op.run = some "run"
op_text Op.prog = some "prog"
op_text Op.progvars = some ""
op_text Op.match = some "match"
op_text Op.case = some ""
op_text Op.let_ = some "let"
op_text Op.do_ = some "do"
op_text Op.ifmarked = some "ifmarked"
op_text Op.compare = some "compare"
op_text Op.ifequal = some "ifequal"
op_text Op.markvar = some "markvar"
op_text Op.fail = some "fail "
op_text Op.ascribe = some ":"
op_text _ = none

-- What is printed for the others.
unfoldable pub constant_text : Op → Text
constant_text Op.type = codes "type"
constant_text Op.kind = codes "kind"
constant_text Op.mpz = codes "mpz"
constant_text Op.mpq = codes "mpq"
constant_text o =
    codes "; unrecognized form of expr(2) "
    ++ (decimal (op_code o) ++ b' ' ∷ decimal (class_code Class.cexpr))

module _ {Z Q : Type 0} (texts : Texts Z Q) where
  unfoldable pub print_int : Z → Text
  print_int z =
      if is_negative (texts.gmp.mpz_sgn z)
      then group (codes "~ " ++ texts.mpz_get_str (texts.gmp.mpz_neg z))
      else texts.mpz_get_str z

  abbrev pub fraction : Q → Text
  fraction q =
      texts.mpz_get_str (texts.mpq_get_num q) ++ b'/' ∷ texts.mpz_get_str (texts.mpq_get_den q)

  unfoldable pub print_rat : Q → Text
  print_rat q =
      if is_negative (texts.gmp.mpq_sgn q)
      then group (codes "~ " ++ fraction (texts.gmp.mpq_neg q))
      else fraction q

  module _ (print : Ptr → Cmd (Heap Z Q) Text) where
    -- `print_kids` and `print_vector`: a space in front of each.
    unfoldable pub print_kids : List Ptr → Cmd (Heap Z Q) Text
    print_kids [] = pure []
    print_kids (p ∷ ps) = do t ← print p; ts ← print_kids ps; pure (b' ' ∷ (t ++ ts))

    -- The name of a program, which is no text for its value; else the value is printed.
    unfoldable pub print_val : Key → Ptr → Cmd (Heap Z Q) Text
    print_val s v = do o ← getop v; if is_prog o then pure s else print v

    unfoldable pub print_app : ℕ → Ptr → Cmd (Heap Z Q) Text
    unfolding print_kids
    print_app f p = do
      (args, head) ← collect_args f false p
      h ← print head
      ts ← print_kids args
      pure (group (h ++ ts))

    unfoldable pub print_op : Option String → Op → List Ptr → Cmd (Heap Z Q) Text
    unfolding print_kids
    print_op none o ks = pure (constant_text o)
    print_op (some name) o ks = do ts ← print_kids ks; pure (group (codes name ++ ts))

    unfoldable pub print_cexpr : ℕ → Op → List Ptr → Ptr → Cmd (Heap Z Q) Text
    unfolding print_app print_op
    print_cexpr f Op.app ks p = print_app f p
    print_cexpr f o ks p = print_op (op_text o) o ks

    -- Every symbol has a name, see Heap.
    unfoldable pub print_node : ℕ → Node Z Q → Ptr → Cmd (Heap Z Q) Text
    unfolding print_int print_rat print_val print_cexpr
    print_node f (int z) p = pure (print_int z)
    print_node f (rat q) p = pure (print_rat q)
    print_node f (hole v) p =
        if v == null then pure (codes "_[ " ++ (texts.address p ++ b']' ∷ [])) else print v
    print_node f (sym v) p = halt fault
    print_node f (syms s v) p = if v == null then pure s else print_val s v
    print_node f (cexp o ks) p = print_cexpr f o ks p

  unfoldable pub print : ℕ → Ptr → Cmd (Heap Z Q) Text
  unfolding print_node
  print zero p = halt timeout
  print (suc f) p = do n ← node p; print_node (print f) f n p
