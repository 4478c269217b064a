-- ===== src/SccWriter/Output.antt =====
-- `write_function_header` and `write_file` of src/sccwriter.cpp. The two files are texts; what is
-- printed for debugging is left out.
use lfsc.Common.{
  ℕ, zero, suc, ◌+◌, Bool, true, false, List, [], ◌∷◌, ◌++◌, String, list_eq, length, take,
  if◌then◌else◌,
}
use lfsc.Trie.{Key}
use lfsc.Heap.{Ptr, null, Cmd, ok, pure, and_then, ◌>>=◌, ◌>>◌, kids, kid}
use lfsc.SccWriter.{
  Text, lit, var, Source, Writer, no_opts, decimal, get_function_name, get_var_name, say, line,
  push_var, look, sym_name,
}
use lfsc.SccWriter.Exprs.{write_expr}
use lfsc.SccWriter.Matching.{name_at}
use lfsc.SccWriter.Code.{write_code}

-- A new sccwriter: nothing is written yet.
abbrev pub new_writer : Writer
new_writer = record {
  out = [];
  vars = [];
  global_syms = [];
  curr_program = 0;
  expr_count = 0;
  args_count = 0;
  rnum_count = 0;
}

-- `progs[k]`
abbrev pub prog_at : Key → List (Key × Ptr) → Ptr
prog_at k [] = null
prog_at k ((j, p) ∷ m) = if list_eq j k then p else prog_at k m

abbrev pub comma : Bool → Text
comma true = []
comma false = b',' ∷ b' ' ∷ []

unfoldable pub start_program : ℕ → Cmd Writer (Unit {0})
start_program n s =
    ok tt (record s { vars = []; curr_program = n; expr_count = 0; args_count = 0; rnum_count = 0 })

unfoldable pub declare_all : List Key → Cmd Writer (Unit {0})
declare_all [] = pure tt
declare_all (n ∷ ns) = do say (lit "Expr* e_" ∷ var n ∷ lit ";\n" ∷ []); declare_all ns

unfoldable pub init_symbols : List Key → Cmd Writer (Unit {0})
init_symbols [] = pure tt
init_symbols (n ∷ ns) = do
  line 1 (lit "e_" ∷ var n ∷ lit " = symbols->get(\"" ∷ var n ∷ lit "\").first;" ∷ [])
  init_symbols ns

unfoldable pub init_progs : List Key → Cmd Writer (Unit {0})
init_progs [] = pure tt
init_progs (n ∷ ns) = do
  line 1 (lit "e_" ∷ var n ∷ lit " = progs[\"" ∷ var n ∷ lit "\"];" ∷ [])
  init_progs ns

-- `args[0], args[1], …`
abbrev pub arg_texts : Bool → ℕ → List Ptr → Text
arg_texts first i [] = []
arg_texts first i (p ∷ ps) =
    comma first
    ++ b'a' ∷ b'r' ∷ b'g' ∷ b's' ∷ b'[' ∷ (decimal i ++ b']' ∷ arg_texts false (i + 1) ps)

abbrev pub else_if : ℕ → String
else_if zero = ""
else_if (suc n) = "}else "

-- A stream of its own: what `m` writes is its result, and the old stream is left.
unfoldable pub stream : Cmd Writer (Unit {0}) → Cmd Writer Text
stream m s = and_then (m (record s { out = [] })) λ _ t. ok t.out (record t { out = s.out })

unfoldable pub get_syms : Cmd Writer (List Key)
get_syms s = ok s.global_syms s

module _ {Z Q : Type 0} (src : Source Z Q) where
  -- `get_prog(n)`
  abbrev pub get_prog : ℕ → Ptr
  get_prog n = prog_at (name_at src.prog_names n) src.progs

  -- `get_prog(n)->kids[1]->kids`
  unfoldable pub prog_vars : ℕ → Cmd Writer (List Ptr)
  prog_vars n = do vars ← look src (kid (get_prog n) 1); look src (kids vars)

  unfoldable pub write_params : Bool → Bool → List Ptr → Cmd Writer (Unit {0})
  write_params add_args first [] = pure tt
  write_params add_args first (p ∷ ps) = do
    s ← sym_name src p
    say (var (comma first) ∷ lit "Expr* " ∷ var (get_var_name s) ∷ [])
    if add_args then push_var s else pure tt
    write_params add_args false ps

  unfoldable pub print_params : Bool → List Ptr → Cmd Writer (Unit {0})
  print_params first [] = pure tt
  print_params first (p ∷ ps) = do
    if first then pure tt else line 1 (lit "std::cout << \", \";" ∷ [])
    s ← sym_name src p
    line 1 (var (get_var_name s) ∷ lit "->print( std::cout );" ∷ [])
    print_params false ps

  unfoldable pub write_call_debug : Key → List Ptr → Cmd Writer (Unit {0})
  unfolding print_params
  write_call_debug name vars = do
    say (lit "{\n" ∷ [])
    line 1 (
        lit "std::cout << \"Call function "
        ∷ var (get_function_name name)
        ∷ lit " with arguments \";"
        ∷ [])
    print_params true vars
    line 1 (lit "std::cout << std::endl;" ∷ [])

  unfoldable pub write_function_header : ℕ → Bool → Bool → Cmd Writer (Unit {0})
  unfolding prog_vars write_params write_call_debug
  write_function_header n add_args call_debug = do
    say (lit "Expr* " ∷ var (get_function_name (name_at src.prog_names n)) ∷ lit "( " ∷ [])
    vars ← prog_vars n
    write_params add_args true vars
    say (lit " )" ∷ [])
    if call_debug then write_call_debug (name_at src.prog_names n) vars else pure tt

  -- The loops over the programs: from `n` on, `k` of them.
  unfoldable pub write_declarations : ℕ → ℕ → Cmd Writer (Unit {0})
  unfolding write_function_header
  write_declarations n zero = pure tt
  write_declarations n (suc k) = do
    say (lit "inline " ∷ [])
    write_function_header n false false
    say (lit ";\n\n" ∷ [])
    write_declarations (suc n) k

  -- `scccode.h`
  unfoldable pub write_h : Cmd Writer (Unit {0})
  unfolding write_declarations
  write_h = do
    say (lit "#ifndef SCC_CODE_H\n#define SCC_CODE_H\n\n#include \"check.h\"\n\n" ∷ [])
    say (lit "void init_compiled_scc();\n\n" ∷ [])
    say (lit "Expr* run_compiled_scc( Expr* p, std::vector< Expr* >& args );\n\n" ∷ [])
    write_declarations 0 (length src.progs)
    say (lit "#endif\n\n" ∷ [])

  unfoldable pub write_function : ℕ → ℕ → Cmd Writer (Unit {0})
  unfolding write_function_header
  write_function f n = do
    start_program n
    write_function_header n true src.call_debug
    if src.call_debug then pure tt else say (lit "{\n" ∷ [])
    body ← look src (kid (get_prog n) 2)
    e ← write_expr src (write_code src f) body 1 no_opts
    line 1 (lit "return " ∷ var e ∷ lit ";" ∷ [])
    say (lit "}\n\n" ∷ [])

  unfoldable pub write_functions : ℕ → ℕ → ℕ → Cmd Writer (Unit {0})
  unfolding write_function
  write_functions f n zero = pure tt
  write_functions f n (suc k) = do write_function f n; write_functions f (suc n) k

  unfoldable pub write_entry : ℕ → Cmd Writer (Unit {0})
  unfolding prog_vars
  write_entry n = do
    line 1 (lit (else_if n) ∷ lit "if( p==e_" ∷ var (name_at src.prog_names n) ∷ lit " ){" ∷ [])
    vars ← prog_vars n
    line 2 (
        lit "return "
        ∷ var (get_function_name (name_at src.prog_names n))
        ∷ lit "( "
        ∷ var (arg_texts true 0 vars)
        ∷ lit " );"
        ∷ [])

  unfoldable pub write_entries : ℕ → ℕ → Cmd Writer (Unit {0})
  unfolding write_entry
  write_entries n zero = pure tt
  write_entries n (suc k) = do write_entry n; write_entries (suc n) k

  -- `scccode.cpp` in front of the functions.
  unfoldable pub write_tables : List Key → Cmd Writer (Unit {0})
  unfolding declare_all init_symbols init_progs write_entries
  write_tables syms = do
    say (lit "#include \"scccode.h\"\n\n" ∷ [])
    declare_all syms
    declare_all (take (length src.progs) src.prog_names)
    say (lit "\nvoid init_compiled_scc(){\n" ∷ [])
    init_symbols syms
    init_progs (take (length src.progs) src.prog_names)
    say (lit "}\n\nExpr* run_compiled_scc( Expr* p, std::vector< Expr* >& args ){\n" ∷ [])
    write_entries 0 (length src.progs)
    line 1 (lit "}else{" ∷ [])
    line 2 (lit "return NULL;" ∷ [])
    line 1 (lit "}" ∷ [])
    say (lit "}\n\n" ∷ [])

  -- The texts of `scccode.h` and `scccode.cpp`.
  unfoldable pub write_file : ℕ → Cmd Writer (Text × Text)
  unfolding write_h write_functions write_tables
  write_file f = do
    h ← stream write_h
    functions ← stream (write_functions f 0 (length src.progs))
    syms ← get_syms
    tables ← stream (write_tables syms)
    pure (h, tables ++ functions)
