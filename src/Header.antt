-- ===== src/Header.antt =====
-- The word `data` of an expression, src/expr.h: bits 0-2 are the class, bits 3-7 the operator, bit 8
-- a flag, and the rest a reference count that stays at its maximum once it is there. The fields
-- are disjoint, so `|` is written as a sum, and a shift as a product or a quotient.
pub mod Examples
pub mod Laws
use lfsc.Common.{
  ℕ, ◌+◌, ◌-◌, ◌*◌, ◌/◌, ◌%◌, Bool, true, false, Option, none, some, ltb, ◌==◌, not, if◌then◌else◌,
}

pub data Class : Type 0 where
  cexpr int_expr rat_expr hole_expr sym_expr syms_expr : Class

unfoldable pub class_code : Class → ℕ
class_code Class.cexpr = 0
class_code Class.int_expr = 1
class_code Class.rat_expr = 2
class_code Class.hole_expr = 3
class_code Class.sym_expr = 4
class_code Class.syms_expr = 5

pub data Op : Type 0 where
  not_cexpr app pi lam type kind ascribe mpz mpq : Op
  prog progvars match case pat do_ add mul div neg ifneg ifzero mpz_to_mpq let_ run fail : Op
  markvar ifmarked compare ifequal : Op

unfoldable pub op_code : Op → ℕ
op_code Op.not_cexpr = 0
op_code Op.app = 1
op_code Op.pi = 2
op_code Op.lam = 3
op_code Op.type = 4
op_code Op.kind = 5
op_code Op.ascribe = 6
op_code Op.mpz = 7
op_code Op.mpq = 8
op_code Op.prog = 9
op_code Op.progvars = 10
op_code Op.match = 11
op_code Op.case = 12
op_code Op.pat = 13
op_code Op.do_ = 14
op_code Op.add = 15
op_code Op.mul = 16
op_code Op.div = 17
op_code Op.neg = 18
op_code Op.ifneg = 19
op_code Op.ifzero = 20
op_code Op.mpz_to_mpq = 21
op_code Op.let_ = 22
op_code Op.run = 23
op_code Op.fail = 24
op_code Op.markvar = 25
op_code Op.ifmarked = 26
op_code Op.compare = 27
op_code Op.ifequal = 28

-- Whether an operator is that of applications, and so on.
abbrev pub is_app : Op → Bool
is_app Op.app = true
is_app _ = false

abbrev pub is_lam : Op → Bool
is_lam Op.lam = true
is_lam _ = false

abbrev pub is_pi : Op → Bool
is_pi Op.pi = true
is_pi _ = false

abbrev pub is_prog : Op → Bool
is_prog Op.prog = true
is_prog _ = false

abbrev pub is_case : Op → Bool
is_case Op.case = true
is_case _ = false

-- `d_maxRefCount`
abbrev pub max_ref_count : ℕ
max_ref_count = 4194303

-- The constructor: `1 << 9 | _op << 3 | _class`.
unfoldable pub new_data : Class → Op → ℕ
new_data c o = 512 + op_code o * 8 + class_code c

unfoldable pub getclass : ℕ → ℕ
getclass data' = data' % 8

unfoldable pub getop : ℕ → ℕ
getop data' = (data' / 8) % 32

-- `data & 256`, which `cloned` and `get_free_in` read too.
unfoldable pub getexmark : ℕ → Bool
getexmark data' = not ((data' / 256) % 2 == 0)

-- `data |= 256`
unfoldable pub setexmark : ℕ → ℕ
unfolding getexmark
setexmark data' = if getexmark data' then data' else data' + 256

-- `data &= ~256`
unfoldable pub clearexmark : ℕ → ℕ
unfolding getexmark
clearexmark data' = if getexmark data' then data' - 256 else data'

unfoldable pub getrefcnt : ℕ → ℕ
getrefcnt data' = data' / 512

unfoldable pub inc_ref : ℕ → ℕ
inc_ref ref = if ltb ref max_ref_count then ref + 1 else ref

unfoldable pub dec_ref : ℕ → ℕ
dec_ref ref = if ltb ref max_ref_count then ref - 1 else ref

unfoldable pub inc : ℕ → ℕ
unfolding getrefcnt inc_ref
inc data' = inc_ref (getrefcnt data') * 512 + data' % 512

-- `none`: the count reached 0, and `destroy` is called.
unfoldable pub dec : ℕ → Option ℕ
unfolding getrefcnt dec_ref
dec data' =
    let ref = dec_ref (getrefcnt data') in if ref == 0 then none else some (ref * 512 + data' % 512)
