-- ===== src/Main.antt =====
-- src/main.cpp: the command line, and a run of the checker on the files that it names.
mod Arguments
mod Examples
use lfsc.Common.{
  ℕ, Bool, true, false, ◌&&◌, ◌||◌, not, Option, none, some, List, [], ◌∷◌, ◌++◌, ◌==◌, list_eq,
  if◌then◌else◌,
}
use lfsc.Trie.{Key}
use lfsc.Heap.{Cmd, ok, stop, pure, halt, report_error, ◌>>◌, Ptr}
use lfsc.Lexer.{Lexeme}
use lfsc.Session.{Config, Session, modify}
use lfsc.File.{check_file, init}
use lfsc.SccWriter.{Text, codes, Source, add_scc}
use lfsc.SccWriter.Output.{new_writer, write_file}

pub record Args : Type 0 where
  pub files : List Key
  pub show_runs : Bool
  pub no_tail_calls : Bool
  pub compile_scc : Bool
  pub compile_scc_debug : Bool
  pub run_scc : Bool
  pub use_nested_app : Bool

-- `a` at the start of `main`.
abbrev pub no_args : Args
no_args = record {
  files = [];
  show_runs = false;
  no_tail_calls = false;
  compile_scc = false;
  compile_scc_debug = false;
  run_scc = false;
  use_nested_app = false;
}

-- `strncmp(p, s, strlen(p)) == 0`
abbrev has_prefix : Text → Key → Bool
has_prefix [] s = true
has_prefix (c ∷ p) [] = false
has_prefix (c ∷ p) (d ∷ s) = (c == d) && has_prefix p s

unfoldable pub is_help : Key → Bool
is_help s = has_prefix (codes "-h") s || has_prefix (codes "--h") s

-- One argument that does not ask for help.
unfoldable pub parse_arg : Key → Args → Args
parse_arg s a =
    if list_eq (codes "--show-runs") s
    then record a { show_runs = true }
    else if list_eq (codes "--no-tail-calls") s
    then record a { no_tail_calls = true }
    else if list_eq (codes "--compile-scc") s
    then record a { compile_scc = true; compile_scc_debug = false }
    else if list_eq (codes "--compile-scc-debug") s
    then record a { compile_scc = true; compile_scc_debug = true }
    else if list_eq (codes "--run-scc") s
    then record a { run_scc = true }
    else if list_eq (codes "--use-nested-app") s
    then record a { use_nested_app = true }
    else record a { files = a.files ++ s ∷ [] }

-- The arguments behind the name of the program; none where the usage is printed and the program
-- exits.
unfoldable pub parse_args : List Key → Args → Option Args
unfolding parse_arg is_help
parse_args [] a = some a
parse_args (s ∷ ss) a = let rest = parse_args ss (parse_arg s a) in if is_help s then none else rest

-- How a run ends: with the usage, after the files, or with the two files that are written.
pub data Ending : Type 0 where
  usage : Ending
  checked : Ending
  written : Text → Text → Ending

module _ {Z Q : Type 0} where
  -- The flags that `check_file` takes from the arguments.
  abbrev configured : Args → Config Z Q → Config Z Q
  configured a cfg = record cfg {
    tail_calls = not a.no_tail_calls;
    run_scc = a.run_scc;
    compile_scc = a.compile_scc;
  }

  -- The programs that the writer has got, the last first.
  abbrev add_all : List (Key × Ptr) → Source Z Q → Source Z Q
  add_all [] src = src
  add_all ((id, p) ∷ ps) src = add_scc id p (add_all ps src)

  -- The scanner's output for each file that can be opened, and what GMP prints, are given.
  module _ (contents : Key → Option (List Lexeme)) (base : Source Z Q) (f g : ℕ) where
    -- A new scanner, by which the buffer of tokens is not changed.
    unfoldable new_scanner : List Lexeme → Cmd (Session Z Q) (Unit {0})
    new_scanner ls = modify λ s. record s { lexer = record s.lexer { input = ls; text = [] } }

    -- For "stdin" the stream is not opened, and nothing can be read from it.
    unfoldable pub check_named : Config Z Q → Key → Cmd (Session Z Q) (Unit {0})
    unfolding new_scanner
    check_named cfg name = elim (contents name) [
      | some ls ↦ new_scanner ls >> check_file cfg f g
      | none ↦
          if list_eq name (codes "stdin")
          then new_scanner [] >> check_file cfg f g
          else halt report_error
    ]

    unfoldable check_files : Config Z Q → List Key → Cmd (Session Z Q) (Unit {0})
    unfolding check_named
    check_files cfg [] = pure tt
    check_files cfg (n ∷ ns) = do check_named cfg n; check_files cfg ns

    -- `scw->write_file()`, with memory as it then is.
    unfoldable write_sccs : Bool → Cmd (Session Z Q) Ending
    write_sccs debug s =
        let none_yet = record base {
          heap = s.checker.heap;
          progs = [];
          prog_ptrs = [];
          prog_names = [];
          call_debug = debug;
        } in
        elim (write_file (add_all s.sccs none_yet) f new_writer) [
          | ok r t ↦ ok (written r.0 r.1) s
          | stop e ↦ stop e
        ]

    unfoldable pub run_files : Config Z Q → Args → Cmd (Session Z Q) Ending
    unfolding check_files write_sccs
    run_files cfg a = elim a.files [
      | [] ↦ check_named cfg (codes "stdin") >> pure checked
      | n ∷ ns ↦
          check_files cfg (n ∷ ns)
          >> (if a.compile_scc then write_sccs a.compile_scc_debug else pure checked)
    ]

    unfoldable pub main : Config Z Q → List Key → Cmd (Session Z Q) Ending
    unfolding parse_args run_files
    main cfg args = elim (parse_args args no_args) [
      | none ↦ pure usage
      | some a ↦ init >> run_files (configured a cfg) a
    ]
