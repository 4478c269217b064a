-- ===== src/File.antt =====
-- The commands of a proof file, `check_file` of src/check.cpp, and `init`. The fuel `f` also bounds
-- the loops and the depth of the calls on expressions. Messages and what is printed are left out,
-- but for "success", which is counted.
mod Examples
pub mod Names
pub mod Program
pub mod Retains
use lfsc.Common.{
  ℕ, zero, suc, ◌+◌, Bool, true, false, ◌&&◌, not, Option, none, some, List, [], ◌∷◌, ◌==◌,
  if◌then◌else◌,
}
use lfsc.Header.{Op}
use lfsc.Trie.{Key}
use lfsc.Heap.{Ptr, null, timeout, report_error, Cmd, pure, halt, ◌>>=◌, ◌>>◌}
use lfsc.Heap.Count.{inc, dec}
use lfsc.Expr.{follow_defs}
use lfsc.Lexer.{Token, same_token, next_token, prefix_id}
use lfsc.Code.Symbols.{Binding, stat_type, stat_kind, stat_mpz, stat_mpq}
use lfsc.Code.Check.Types.{check_code}
use lfsc.Session.{
  Session, Config, gets, modify, scan, typed, mem, bind_symbol, new_sym, dec_if, require,
  eat_excess, call_run_code,
}
use lfsc.Read.{restore}
use lfsc.Read.Code.{read_code}
use lfsc.Term.{Ask, Answer, against, computing, is_sort, stored, head_op, insert_and_bind}
use lfsc.Term.Decls.{check_decl_list, build_validate_pi, build_macro}
use lfsc.Term.Types.{check}
use lfsc.File.Program.{program}

abbrev is_kind : Op → Bool
is_kind Op.kind = true
is_kind _ = false

abbrev pub not_bound : Binding → Bool
not_bound b = (b.0 == null) && (b.1 == null)

module _ {Z Q : Type 0} where
  -- A name that the table gets, and which must be new to it.
  unfoldable pub new_binding : Key → Ptr → Cmd (Session Z Q) (Unit {0})
  new_binding id tp = do var ← new_sym id; prev ← bind_symbol id (var, tp); require (not_bound prev)

  unfoldable pub new_definition : ℕ → Key → Ptr → Ptr → Cmd (Session Z Q) (Unit {0})
  new_definition f id e tp = do
    var ← new_sym id
    prev ← insert_and_bind f id var e tp
    require (not_bound prev)

  -- The clean up of `local_sym_names`, the newest first.
  unfoldable pub restore_locals : List (Key × Binding) → Cmd (Session Z Q) (Unit {0})
  restore_locals [] = pure tt
  restore_locals ((id, prev) ∷ l) = do bind_symbol id prev; restore_locals l

module _ {Z Q : Type 0} (cfg : Config Z Q) where
  -- `check(create, NULL, &computed, NULL, true)`, and the `)` that it leaves.
  unfoldable pub check_top : ℕ → Bool → Cmd (Session Z Q) Answer
  check_top f create = do
    prevo ← gets λ s. s.open_parens
    r ← check cfg f (record (computing create) { return_pos = true })
    eat_excess prevo
    pure r

  unfoldable pub define : ℕ → Cmd (Session Z Q) (Unit {0})
  define f = do
    id ← scan prefix_id
    r ← check_top f true
    tp ← stored r
    o ← head_op f tp
    require (not (is_kind o))
    new_definition f id r.term tp

  unfoldable pub declare : ℕ → Cmd (Session Z Q) (Unit {0})
  declare f = do
    id ← scan prefix_id
    r ← check_top f true
    computed ← stored r
    tp ← mem (follow_defs f computed)
    o ← head_op f tp
    require (is_sort o)
    mem (dec f tp)
    new_binding id r.term

  unfoldable pub declare_rule : ℕ → Cmd (Session Z Q) (Unit {0})
  declare_rule f = do
    id ← scan prefix_id
    (ds, olds) ← check_decl_list f (check cfg f) true
    r ← check cfg f (computing true)
    ret_kind ← stored r
    restore olds
    p ← build_validate_pi f ds r.term ret_kind true
    mem (dec f p.1)
    new_binding id p.0

  unfoldable pub declare_type : ℕ → Cmd (Session Z Q) (Unit {0})
  declare_type f = do
    id ← scan prefix_id
    (ds, olds) ← check_decl_list f (check cfg f) true
    restore olds
    p ← build_validate_pi f ds stat_type stat_kind true
    mem (dec f p.1)
    new_binding id p.0

  unfoldable pub define_const : ℕ → Cmd (Session Z Q) (Unit {0})
  define_const f = do
    id ← scan prefix_id
    (ds, olds) ← check_decl_list f (check cfg f) true
    r ← check cfg f (computing true)
    ret_ty ← stored r
    macro ← build_macro f ds r.term ret_ty
    restore olds
    new_definition f id macro.0 macro.1

  -- The compiled side conditions are set up for a check.
  unfoldable pub set_up : Cmd (Session Z Q) (Unit {0})
  set_up = if cfg.run_scc then mem cfg.init_compiled_scc else pure tt

  -- What ends a check.
  unfoldable pub clean_up : ℕ → Cmd (Session Z Q) (Unit {0})
  clean_up prev = do
    locals ← gets λ s. s.local_sym_names
    restore_locals locals
    modify λ s. record s { local_sym_names = []; marks = λ p. 0 }
    eat_excess prev
    modify λ s. record s { successes = s.successes + 1 }

  unfoldable pub check_proof : ℕ → Cmd (Session Z Q) (Unit {0})
  check_proof f = do
    set_up
    prev ← gets λ s. s.open_parens
    modify λ s. record s { big_check = true }
    r ← check cfg f (record (computing false) { return_pos = true })
    modify λ s. record s { asc_holes = [] }
    computed ← stored r
    mem (dec f computed)
    clean_up prev

  unfoldable pub check_assuming : ℕ → Cmd (Session Z Q) (Unit {0})
  check_assuming f = do
    set_up
    prev ← gets λ s. s.open_parens
    (ds, olds) ← check_decl_list f (check cfg f) false
    ex_type ← check cfg f (against true stat_type)
    check cfg f (against false ex_type.term)
    restore olds
    clean_up prev

  unfoldable pub opaque_ : ℕ → Cmd (Session Z Q) (Unit {0})
  opaque_ f = do
    id ← scan prefix_id
    r ← check_top f false
    tp ← stored r
    o ← head_op f tp
    require (not (is_kind o))
    new_binding id tp

  unfoldable pub run_command : ℕ → Cmd (Session Z Q) (Unit {0})
  run_command f = do
    code ← read_code cfg.gmp f
    typed (check_code cfg.gmp f code)
    r ← call_run_code cfg f code
    dec_if f r
    mem (dec f code)

  unfoldable pub command : ℕ → Token → Cmd (Session Z Q) (Unit {0})
  command f Token.define = define f
  command f Token.declare = declare f
  command f Token.declare_rule = declare_rule f
  command f Token.declare_type = declare_type f
  command f Token.define_const = define_const f
  command f Token.check = check_proof f
  command f Token.check_assuming = check_assuming f
  command f Token.opaque = opaque_ f
  command f Token.run = run_command f
  command f Token.program = program cfg f false
  command f Token.function = program cfg f true
  command f c = halt report_error

  -- A token at the top: a command, a `)` that is left over, or an error.
  unfoldable pub top_token : ℕ → Token → Cmd (Session Z Q) (Unit {0})
  top_token f Token.open_ = do c ← scan next_token; command f c
  top_token f Token.close = pure tt
  top_token f c = halt report_error

  unfoldable pub check_file : ℕ → ℕ → Cmd (Session Z Q) (Unit {0})
  check_file f zero = halt timeout
  check_file f (suc g) = do
    c ← scan next_token
    let more : Cmd (Session Z Q) (Unit {0}) = do top_token f c; check_file f g
    if same_token c Token.eof then pure tt else more

-- The names "type", "mpz" and "mpq".
abbrev type_name : Key
type_name = b't' ∷ b'y' ∷ b'p' ∷ b'e' ∷ []

abbrev mpz_name : Key
mpz_name = b'm' ∷ b'p' ∷ b'z' ∷ []

abbrev mpq_name : Key
mpq_name = b'm' ∷ b'p' ∷ b'q' ∷ []

module _ {Z Q : Type 0} where
  unfoldable pub init : Cmd (Session Z Q) (Unit {0})
  init = do
    bind_symbol type_name (stat_type, stat_kind)
    mem (inc stat_type)
    bind_symbol mpz_name (stat_mpz, stat_type)
    bind_symbol mpq_name (stat_mpq, stat_type)
    pure tt
