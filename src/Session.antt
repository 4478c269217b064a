-- ===== src/Session.antt =====
-- The state of a run of the checker, the global variables of src/check.cpp and src/code.cpp, and what
-- it is configured with.
pub mod Examples
pub mod Opens
pub mod Scoped
pub mod Stable
use lfsc.Common.{
  ℕ, zero, suc, ◌+◌, ◌-◌, Bool, true, false, List, [], ◌∷◌, ◌==◌, ltb, if◌then◌else◌, Option, none,
  some, list_eq,
}
use lfsc.Gmp.{Gmp}
use lfsc.Trie.{Key, Trie}
use lfsc.Heap.{
  Ptr, null, Node, syms, Heap, Cmd, ok, stop, pure, halt, and_then, ◌>>=◌, ◌>>◌, report_error,
  timeout, alloc,
}
use lfsc.Heap.Count.{inc, dec}
use lfsc.Lexer.{Token, Lexer, eat_token}
use lfsc.Code.{Machine, Env}
use lfsc.Code.Cache.{empty}
use lfsc.Code.Symbols
use lfsc.Code.Symbols.{Binding, Checker, insert_symbol}
use lfsc.Code.Run.{run_code}

-- GMP, the flags `tail_calls` and `run_scc`, what the build generates for `--run-scc`, and whether
-- programs are handed to the writer of compiled side conditions.
pub record Config (Z Q : Type 0) : Type 0 where
  pub gmp : Gmp Z Q
  pub tail_calls : Bool
  pub run_scc : Bool
  pub run_compiled_scc : Ptr → List Ptr → Cmd (Heap Z Q) Ptr
  pub init_compiled_scc : Cmd (Heap Z Q) (Unit {0})
  pub compile_scc : Bool

-- The expressions and `symbols`, `mark_map`, the lexer, `open_parens`, `allow_run`, `big_check`,
-- `local_sym_names`, `ascHoles`, `progs`, `progFunctions`, the programs that the writer has got, and
-- how often "success" was printed. `open_parens` never falls below 0 in a run.
pub record Session (Z Q : Type 0) : Type 0 where
  pub checker : Checker Z Q
  pub marks : Ptr → ℕ
  pub lexer : Lexer
  pub open_parens : ℕ
  pub allow_run : Bool
  pub big_check : Bool
  pub local_sym_names : List (Key × Binding)
  pub asc_holes : List Ptr
  pub progs : List (Key × Ptr)
  pub prog_functions : List Ptr
  pub sccs : List (Key × Ptr)
  pub successes : ℕ

module _ {S : Type 0} where
  unfoldable pub gets : {A : Type 0} → (S → A) → Cmd S A
  gets f s = ok (f s) s

  unfoldable pub modify : (S → S) → Cmd S (Unit {0})
  modify f s = ok tt (f s)

module _ {Z Q : Type 0} where
  -- A command on the lexer, and one on the expressions and the symbol table.
  unfoldable pub scan : {A : Type 0} → Cmd Lexer A → Cmd (Session Z Q) A
  scan m s = elim (m s.lexer) [ ok a l ↦ ok a (record s { lexer = l }) | stop e ↦ stop e ]

  unfoldable pub typed : {A : Type 0} → Cmd (Checker Z Q) A → Cmd (Session Z Q) A
  typed m s = elim (m s.checker) [ ok a c ↦ ok a (record s { checker = c }) | stop e ↦ stop e ]

  unfoldable pub mem : {A : Type 0} → Cmd (Heap Z Q) A → Cmd (Session Z Q) A
  mem m = typed (Symbols.mem m)

  -- `symbols->insert`
  unfoldable pub bind_symbol : Key → Binding → Cmd (Session Z Q) Binding
  bind_symbol k b = typed (insert_symbol k b)

  -- `new SymSExpr(id)`
  unfoldable pub new_sym : Key → Cmd (Session Z Q) Ptr
  new_sym id = mem (alloc (syms id null))

  -- `if (p) p->inc()`, and so for `dec`.
  unfoldable pub inc_if : Ptr → Cmd (Session Z Q) (Unit {0})
  inc_if p = if p == null then pure tt else mem (inc p)

  unfoldable pub dec_if : ℕ → Ptr → Cmd (Session Z Q) (Unit {0})
  dec_if f p = if p == null then pure tt else mem (dec f p)

  -- `if (!ok) report_error(…)`
  unfoldable pub require : Bool → Cmd (Session Z Q) (Unit {0})
  require holds = if holds then pure tt else halt report_error

  -- `eat_rparen`
  unfoldable pub eat_rparen : Cmd (Session Z Q) (Unit {0})
  eat_rparen = do
    scan (eat_token Token.close)
    modify λ s. record s { open_parens = s.open_parens - 1 }

  -- `eat_excess`, a round for each `)`.
  unfoldable pub eat_times : ℕ → Cmd (Session Z Q) (Unit {0})
  eat_times zero = pure tt
  eat_times (suc n) = eat_rparen >> eat_times n

  unfoldable pub eat_excess : ℕ → Cmd (Session Z Q) (Unit {0})
  eat_excess prev = do n ← gets λ s. s.open_parens; eat_times (n - prev)

  -- `call_run_code`: the cache of results is new.
  unfoldable pub call_run_code : Config Z Q → ℕ → Ptr → Cmd (Session Z Q) Ptr
  call_run_code cfg f code s =
      let env : Env Z Q = record {
        gmp = cfg.gmp;
        prog_functions = s.prog_functions;
        run_scc = cfg.run_scc;
        run_compiled_scc = cfg.run_compiled_scc;
      } in
      let machine : Machine Z Q = record {
        heap = s.checker.heap;
        marks = s.marks;
        cache = empty;
      } in
      elim (run_code env f code machine) [
        | ok r m ↦ ok r (record s {
          checker = record { heap = m.heap; symbols = s.checker.symbols };
          marks = m.marks;
        })
        | stop e ↦ stop e
      ]

-- `progs[id]`: a name that is absent is entered with NULL.
unfoldable pub lookup_prog : Key → List (Key × Ptr) → Option Ptr
lookup_prog k [] = none
lookup_prog k ((j, p) ∷ l) = if list_eq j k then some p else lookup_prog k l

module _ {Z Q : Type 0} where
  unfoldable pub get_prog : Key → Cmd (Session Z Q) Ptr
  get_prog id s = elim (lookup_prog id s.progs) [
    | some p ↦ ok p s
    | none ↦ ok null (record s { progs = (id, null) ∷ s.progs })
  ]
