-- ===== src/SccWriter/Exprs.antt =====
-- `write_expr`, `write_args` and `write_dec` of src/sccwriter.cpp.
use lfsc.Common.{ℕ, ◌+◌, Bool, true, false, ◌||◌, not, some, List, [], ◌∷◌, if◌then◌else◌}
use lfsc.Header.{is_case}
use lfsc.Trie.{Key}
use lfsc.Heap.{Ptr, Node, syms, Cmd, pure, ◌>>=◌, ◌>>◌, node, op_of}
use lfsc.SccWriter.{
  Text, lit, var, Source, Writer, Opts, no_opts, WriteCode, get_var_name, has_name, line, push_var,
  get_vars, new_expr, look, codes,
}

unfoldable pub write_dec : ℕ → Text → Cmd Writer (Unit {0})
write_dec ind expr = line ind (var expr ∷ lit "->dec();" ∷ [])

-- `if (expr->getclass() != SYM_EXPR) exit(1)`, in the text.
unfoldable pub write_check : ℕ → Text → Cmd Writer (Unit {0})
write_check ind e = do
  line ind (lit "if (" ∷ var e ∷ lit "->getclass() != SYM_EXPR) {" ∷ [])
  line (ind + 1) (lit "exit( 1 );" ∷ [])
  line ind (lit "}" ∷ [])

-- A symbol that is none of the variables has an expression that is kept from call to call.
abbrev pub storage : Bool → Text
storage true = codes "static "
storage false = []

abbrev pub is_syms : {Z Q : Type 0} → Node Z Q → Bool
is_syms (syms s v) = true
is_syms _ = false

module _ {Z Q : Type 0} (src : Source Z Q) (write_code : WriteCode) where
  unfoldable pub write_new : Ptr → Bool → ℕ → Opts → Cmd Writer Text
  unfolding write_check
  write_new code static ind opts = do
    e ← new_expr
    line ind (var (storage static) ∷ lit "Expr* " ∷ var e ∷ lit " = NULL;" ∷ [])
    write_code code ind (some e) opts
    push_var e
    if opts.check_sym_expr then write_check ind e else pure tt
    pure e

  unfoldable pub write_var : Key → ℕ → Cmd Writer Text
  write_var s ind = do line ind (var (get_var_name s) ∷ lit "->inc();" ∷ []); pure (get_var_name s)

  -- The result is the text that stands for the value.
  unfoldable pub write_expr : Ptr → ℕ → Opts → Cmd Writer Text
  unfolding write_new write_var look
  write_expr code ind opts = do
    n ← look src (node code)
    vars ← get_vars
    elim n [
      | syms s v ↦ if has_name s vars then write_var s ind else write_new code true ind opts
      | _ ↦ write_new code false ind opts
    ]

  unfoldable pub write_exprs : List Ptr → ℕ → Cmd Writer (List Text)
  unfolding write_expr
  write_exprs [] ind = pure []
  write_exprs (p ∷ ps) ind = do e ← write_expr p ind no_opts; es ← write_exprs ps ind; pure (e ∷ es)

  unfoldable pub write_arg : Node Z Q → Ptr → ℕ → Opts → Cmd Writer Text
  unfolding write_expr
  write_arg (syms s v) p ind opts = pure s
  write_arg _ p ind opts = write_expr p ind opts

  -- The kids up to the first that is no CASE and follows one. `seen` is `encounterCase`.
  unfoldable pub write_args : List Ptr → Bool → ℕ → Opts → Cmd Writer (List Text)
  unfolding write_arg look
  write_args [] seen ind opts = pure []
  write_args (p ∷ ps) seen ind opts = do
    n ← look src (node p)
    let rest : Cmd Writer (List Text) = do
      e ← write_arg n p ind opts
      es ← write_args ps (seen || is_case (op_of n)) ind opts
      pure (e ∷ es)
    if not seen || is_case (op_of n) then rest else pure []

unfoldable pub write_decs : ℕ → List Text → Cmd Writer (Unit {0})
unfolding write_dec
write_decs ind [] = pure tt
write_decs ind (e ∷ es) = do write_dec ind e; write_decs ind es
