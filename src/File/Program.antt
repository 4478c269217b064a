-- ===== src/File/Program.antt =====
-- The commands `program` and `function` of src/check.cpp.
use lfsc.Common.{
  ℕ, zero, suc, Bool, true, false, ◌||◌, Option, none, some, List, [], ◌∷◌, ◌==◌, if◌then◌else◌,
}
use lfsc.Header.{Op}
use lfsc.Trie.{Key}
use lfsc.Heap.{
  Ptr, null, cexp, timeout, Cmd, pure, halt, ◌>>=◌, ◌>>◌, alloc, node, is_datatype, set_val,
}
use lfsc.Heap.Count.{inc, dec}
use lfsc.Lexer.{Token, same_token, next_token, reinsert_token, eat_token, prefix_id}
use lfsc.Code.Symbols.{unbound, get_symbol, stat_type}
use lfsc.Code.Kind.{compute_kind}
use lfsc.Code.Check.Types.{check_code}
use lfsc.Session.{
  Session, Config, gets, modify, scan, typed, mem, bind_symbol, new_sym, require, eat_excess,
  lookup_prog,
}
use lfsc.Read.Code.{read_code}
use lfsc.Term.{Rec, computing, against, new_pi, must_equal}
use lfsc.Term.Types.{check}

-- A variable of a program, its name and its type.
abbrev pub Param : Type 0
Param = Key × Ptr × Ptr

abbrev vars_of : List Param → List Ptr
vars_of [] = []
vars_of ((id, var, tp) ∷ ps) = var ∷ vars_of ps

abbrev is_new : Option Ptr → Bool
is_new none = true
is_new (some p) = false

abbrev has_params : List Param → Bool
has_params [] = false
has_params (p ∷ ps) = true

module _ {Z Q : Type 0} where
  -- `if (kind != statType && !tp->isDatatype()) report_error(…)`
  unfoldable pub must_be_data : ℕ → Ptr → Cmd (Session Z Q) (Unit {0})
  must_be_data f tp = do
    kind ← typed (compute_kind f tp)
    n ← mem (node tp)
    require ((kind == stat_type) || is_datatype n)

  -- A program is entered under a name that is new to `progs`, NULL included.
  unfoldable pub new_program : Key → Ptr → Bool → Cmd (Session Z Q) (Unit {0})
  new_program id prog cached = do
    known ← gets λ s. lookup_prog id s.progs
    require (is_new known)
    modify λ s. record s { progs = (id, prog) ∷ s.progs }
    if cached then modify (λ s. record s { prog_functions = prog ∷ s.prog_functions }) else pure tt

  -- `((x T) …)`, where each variable is bound for the ones behind it and the body. No variable may
  -- have the name of what has an expression.
  unfoldable pub read_params : ℕ → Rec Z Q → ℕ → Cmd (Session Z Q) (List Param)
  read_params f rec zero = halt timeout
  read_params f rec (suc g) = do
    d ← scan next_token
    let param : Cmd (Session Z Q) (List Param) = do
      scan (reinsert_token d)
      scan (eat_token Token.open_)
      id ← scan prefix_id
      b ← typed (get_symbol id)
      require (b.0 == null)
      var ← new_sym id
      mem (inc stat_type)
      prev ← gets λ s. s.open_parens
      r ← rec (record (computing true) { return_pos = true })
      must_be_data f r.term
      eat_excess prev
      scan (eat_token Token.close)
      bind_symbol id (var, r.term)
      ps ← read_params f rec g
      pure ((id, var, r.term) ∷ ps)
    if same_token d Token.close then pure [] else param

  -- The type of the program, a Π for each variable.
  unfoldable pub program_type : ℕ → List Param → Ptr → Cmd (Session Z Q) Ptr
  program_type f [] ret = pure ret
  program_type f ((id, var, tp) ∷ ps) ret = do
    r ← program_type f ps ret
    mem (inc var)
    new_pi f var tp r

  -- The variables are removed from the table.
  unfoldable pub remove_params : List Param → Cmd (Session Z Q) (Unit {0})
  remove_params [] = pure tt
  remove_params ((id, var, tp) ∷ ps) = do bind_symbol id unbound; remove_params ps

  module _ (cfg : Config Z Q) where
    unfoldable pub return_type : ℕ → Rec Z Q → Cmd (Session Z Q) Ptr
    return_type f rec = do
      mem (inc stat_type)
      prev ← gets λ s. s.open_parens
      r ← rec (record (against true stat_type) { computed = true; return_pos = true })
      eat_excess prev
      must_be_data f r.term
      pure r.term

    -- The body is checked while the program has a type and no body.
    unfoldable pub program_body :
        ℕ → Key → Ptr → List Param → Ptr → Ptr → Cmd (Session Z Q) (Unit {0})
    program_body f id prog ps ret code = do
      tp ← program_type f ps ret
      sketch ← mem (alloc (cexp Op.prog (tp ∷ [])))
      mem (set_val prog sketch)
      body_tp ← typed (check_code cfg.gmp f code)
      must_equal cfg.gmp f body_tp ret
      vars ← mem (alloc (cexp Op.progvars (vars_of ps)))
      body ← mem (alloc (cexp Op.prog (tp ∷ vars ∷ code ∷ [])))
      if cfg.compile_scc then modify (λ s. record s { sccs = (id, body) ∷ s.sccs }) else pure tt
      remove_params ps
      mem do inc tp; dec f sketch; set_val prog body

    unfoldable pub program : ℕ → Bool → Cmd (Session Z Q) (Unit {0})
    program f cached = do
      id ← scan prefix_id
      prog ← new_sym id
      new_program id prog cached
      scan (eat_token Token.open_)
      ps ← read_params f (check cfg f) f
      require (has_params ps)
      ret ← return_type f (check cfg f)
      code ← read_code cfg.gmp f
      program_body f id prog ps ret code
