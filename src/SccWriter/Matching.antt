-- ===== src/SccWriter/Matching.antt =====
-- Symbols, applications, MATCH, CASE, DO, LET and FAIL of `write_code`.
use lfsc.Common.{
  ℕ, zero, suc, ◌+◌, ◌||◌, not, Bool, true, false, Option, none, some, List, [], ◌∷◌, ◌++◌, String,
  if◌then◌else◌,
}
use lfsc.Header.{is_case, is_prog}
use lfsc.Trie.{Key}
use lfsc.Heap.{Ptr, Cmd, fault, pure, halt, ◌>>=◌, ◌>>◌, nth, getop, kids}
use lfsc.SccWriter.{
  Text, lit, var, Source, Writer, Opts, no_opts, WriteCode, decimal, get_var_name, has_name,
  prog_index, line, push_var, add_global_sym, get_vars, new_expr, get_program, next_args, ret_mod,
  inc_text, look, sym_name, codes,
}
use lfsc.SccWriter.Exprs.{write_expr, write_exprs, write_args, write_dec, write_decs}
use lfsc.Expr.{behind, collect_args, get_head}

-- The arguments of a call, with commas between them.
abbrev pub commas : List Text → Text
commas [] = []
commas (e ∷ []) = e
commas (e ∷ d ∷ es) = e ++ (codes ", " ++ commas (d ∷ es))

-- `}else` stands before all but the first case.
abbrev pub otherwise : Bool → String → String → String
otherwise true one more = one
otherwise false one more = more

-- `args[a]` and the texts behind it, none being out of range.
abbrev pub first_of : List Text → Option Text
first_of [] = none
first_of (e ∷ es) = some e

abbrev pub rest_of : List Text → List Text
rest_of [] = []
rest_of (e ∷ es) = es

abbrev pub name_at : List Key → ℕ → Key
name_at [] i = []
name_at (n ∷ ns) zero = n
name_at (n ∷ ns) (suc i) = name_at ns i

module _ {Z Q : Type 0} (src : Source Z Q) where
  unfoldable pub write_sym : Key → ℕ → Option Text → Cmd Writer (Unit {0})
  write_sym s ind ret = do
    vars ← get_vars
    let global : Cmd Writer (Unit {0}) = do
      line ind (var (ret_mod ret) ∷ lit "e_" ∷ var (get_var_name s) ∷ lit ";" ∷ [])
      add_global_sym (get_var_name s)
    let local : Cmd Writer (Unit {0}) =
        line ind (var (ret_mod ret) ∷ var (get_var_name s) ∷ lit ";" ∷ [])
    if has_name s vars then local else global
    line ind (var (inc_text ret) ∷ [])

  unfoldable pub write_fail : ℕ → Option Text → Cmd Writer (Unit {0})
  write_fail ind ret = line ind (var (ret_mod ret) ∷ lit "NULL;" ∷ [])

  module _ (f : ℕ) (write_code : WriteCode) where
    unfoldable pub write_call : Key → List Text → ℕ → Option Text → Cmd Writer (Unit {0})
    write_call name args ind ret = do
      line ind
          (var (ret_mod ret) ∷ lit "f_" ∷ var name ∷ lit "( " ∷ var (commas args) ∷ lit " );" ∷ [])
      write_decs ind args

    unfoldable pub write_new_app : Ptr → List Text → ℕ → Option Text → Cmd Writer (Unit {0})
    write_new_app hd args ind ret = do
      e ← write_expr src write_code hd ind no_opts
      line ind (
          var (ret_mod ret)
          ∷ lit "new CExpr( APP, "
          ∷ var e
          ∷ lit ", "
          ∷ var (commas args)
          ∷ lit " );"
          ∷ [])

    -- The head is a program that is written too, or any other expression.
    unfoldable pub write_app : Ptr → ℕ → Option Text → Cmd Writer (Unit {0})
    unfolding write_call write_new_app
    write_app code ind ret = do
      taken ← look src (collect_args f true code)
      args ← write_exprs src write_code taken.0 ind
      hd ← look src (get_head f true code)
      o ← look src (getop hd)
      elim (if is_prog o then prog_index 0 hd src.prog_ptrs else none) [
        | none ↦ write_new_app hd args ind ret
        | some i ↦ write_call (name_at src.prog_names i) args ind ret
      ]

    -- The variables of a pattern get the arguments of the scrutinee.
    unfoldable pub write_vars : Text → ℕ → List Ptr → ℕ → Cmd Writer (Unit {0})
    write_vars expr b [] ind = pure tt
    write_vars expr b (p ∷ ps) ind = do
      s ← sym_name src p
      line ind (
          lit "Expr* "
          ∷ var (get_var_name s)
          ∷ lit " = ((CExpr*)"
          ∷ var expr
          ∷ lit "->followDefs())->kids["
          ∷ var (decimal (b + 1))
          ∷ lit "];"
          ∷ [])
      push_var s
      write_vars expr (b + 1) ps ind

    unfoldable pub write_default : Bool → Ptr → ℕ → Option Text → Cmd Writer (Unit {0})
    write_default first k ind ret = do
      line ind (lit (otherwise first "{" "}else{") ∷ [])
      write_code k (ind + 1) ret no_opts
      line ind (lit "}" ∷ [])

    -- `args[a]` is the text for the case, whose constructor `hd` is compared with.
    unfoldable pub write_case :
        Bool → Text → Text → Option Text → Ptr → ℕ → Option Text → Cmd Writer (Unit {0})
    unfolding write_vars
    write_case first expr hd none k ind ret = halt fault
    write_case first expr hd (some arg) k ind ret = do
      line ind
          (lit (otherwise first "if( " "}else if( ") ∷ var hd ∷ lit "==" ∷ var arg ∷ lit " ){" ∷ [])
      next_args
      ks ← look src (kids k)
      vars ← look src (collect_args f true (nth ks 0))
      write_vars expr 0 vars.0 (ind + 1)
      write_code k (ind + 1) ret (record { case_body = true; check_sym_expr = false })

    -- The kids behind the scrutinee, with the texts that go with them. The result is
    -- `encounterDefault`.
    unfoldable pub write_cases :
        Bool → Text → Text → List Text → List Ptr → ℕ → Option Text → Cmd Writer Bool
    unfolding write_default write_case
    write_cases first expr hd args [] ind ret = pure false
    write_cases first expr hd args (k ∷ ks) ind ret = do
      o ← look src (getop k)
      let default' = write_default first k ind ret
      if is_case o then write_case first expr hd (first_of args) k ind ret else default'
      found ← write_cases false expr hd (rest_of args) ks ind ret
      pure (not (is_case o) || found)

    unfoldable pub write_no_match : Text → ℕ → Cmd Writer (Unit {0})
    write_no_match hd ind = do
      i ← get_program
      line ind (lit "}else{" ∷ [])
      line (ind + 1) (
          lit "std::cout << \"Could not find match for expression in function f_"
          ∷ var (name_at src.prog_names i)
          ∷ lit " \";"
          ∷ [])
      line (ind + 1) (var hd ∷ lit "->print( std::cout );" ∷ [])
      line (ind + 1) (lit "std::cout << std::endl;" ∷ [])
      line (ind + 1) (lit "exit( 1 );" ∷ [])
      line ind (lit "}" ∷ [])

    unfoldable pub write_match : List Ptr → ℕ → Option Text → Cmd Writer (Unit {0})
    unfolding write_cases write_no_match
    write_match ks ind ret = do
      expr ← write_expr src write_code (nth ks 0) ind no_opts
      hd ← new_expr
      line ind
          (lit "Expr* " ∷ var hd ∷ lit " = " ∷ var expr ∷ lit "->followDefs()->get_head();" ∷ [])
      args ← write_args src write_code (behind ks) false ind no_opts
      found ← write_cases true expr hd args (behind ks) ind ret
      if found then pure tt else write_no_match hd ind
      write_dec ind expr
      write_decs ind args

    unfoldable pub write_case_part : List Ptr → ℕ → Option Text → Opts → Cmd Writer (Unit {0})
    write_case_part ks ind ret opts = do
      let pattern' : Cmd Writer (Unit {0}) = do
        hd ← look src (get_head f true (nth ks 0))
        write_code hd ind ret no_opts
      if opts.case_body then write_code (nth ks 1) ind ret no_opts else pattern'

    -- All but the last are written and released.
    unfoldable pub write_do : List Ptr → ℕ → Option Text → Cmd Writer (Unit {0})
    write_do [] ind ret = pure tt
    write_do (k ∷ []) ind ret = write_code k ind ret no_opts
    write_do (k ∷ l ∷ ks) ind ret = do
      e ← write_expr src write_code k ind no_opts
      write_dec ind e
      write_do (l ∷ ks) ind ret

    unfoldable pub write_let : List Ptr → ℕ → Option Text → Cmd Writer (Unit {0})
    write_let ks ind ret = do
      s ← sym_name src (nth ks 0)
      line ind (lit "Expr* " ∷ var (get_var_name s) ∷ lit " = NULL;" ∷ [])
      write_code (nth ks 1) ind (some (get_var_name s)) no_opts
      push_var s
      write_code (nth ks 2) ind ret no_opts
      line ind (var (get_var_name s) ∷ lit "->dec();" ∷ [])
