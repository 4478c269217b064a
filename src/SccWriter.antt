-- ===== src/SccWriter.antt =====
-- The class sccwriter of src/sccwriter.h and src/sccwriter.cpp, which writes side conditions as C++:
-- its state, the names that it makes, and the lines that it writes.
pub mod Code
pub mod Debug
mod Examples
pub mod Exprs
pub mod Level
pub mod Matching
pub mod Nested
pub mod Numbers
pub mod Output
pub mod Tests
use Prim.Native.Char.{code}
use lfsc.Common.{
  ℕ, zero, suc, ◌+◌, ◌-◌, ◌/◌, ◌%◌, Bool, true, false, ◌&&◌, ◌||◌, Option, none, some, List, [],
  ◌∷◌, ◌++◌, String, ◌==◌, leb, ltb, list_eq, get_or, if◌then◌else◌,
}
use lfsc.Gmp.{Gmp}
use lfsc.Trie.{Key}
use lfsc.Heap.{
  Ptr, null, Node, int, rat, hole, sym, syms, cexp, Heap, Cmd, fault, ok, stop, pure, halt,
  and_then, ◌>>=◌, ◌>>◌, node,
}

-- A text, its characters being ASCII.
abbrev pub Text : Type 0
Text = List ℕ

abbrev pub codes : String → Text
codes String.[] = []
codes (String.◌∷◌ c s) = code c ∷ codes s

-- What one `<<` writes: a literal, or a text that was computed.
pub data Piece : Type 0 where
  lit : String → Piece
  var : Text → Piece

abbrev pub text_of : List Piece → Text
text_of [] = []
text_of (lit s ∷ ps) = codes s ++ text_of ps
text_of (var t ∷ ps) = t ++ text_of ps

-- What is read and not changed: memory, GMP, `mpz_get_si` as `<<` prints it with `mpq_get_num` and
-- `mpq_get_den` before it, the programs `progs`, `progPtrs` and `progNames`, and whether the option
-- `opt_write_call_debug` is set.
pub record Source (Z Q : Type 0) : Type 0 where
  pub heap : Heap Z Q
  pub gmp : Gmp Z Q
  pub si_text : Z → Text
  pub mpq_get_num : Q → Z
  pub mpq_get_den : Q → Z
  pub progs : List (Key × Ptr)
  pub prog_ptrs : List Ptr
  pub prog_names : List Key
  pub call_debug : Bool

-- The stream that is written to, `vars`, `globalSyms`, `currProgram`, and the counters `exprCount`,
-- `argsCount` and `rnumCount`; `strCount` and `decSyms` are not used.
pub record Writer : Type 0 where
  pub out : Text
  pub vars : List Key
  pub global_syms : List Key
  pub curr_program : ℕ
  pub expr_count : ℕ
  pub args_count : ℕ
  pub rnum_count : ℕ

-- The options of `write_code` and `write_expr`.
pub record Opts : Type 0 where
  pub case_body : Bool
  pub check_sym_expr : Bool

abbrev pub no_opts : Opts
no_opts = record { case_body = false; check_sym_expr = false }

abbrev pub check_sym : Opts
check_sym = record { case_body = false; check_sym_expr = true }

-- `write_code(code, os, ind, retModStr, opts)`, where none is NULL.
abbrev pub WriteCode : Type 0
WriteCode = Ptr → ℕ → Option Text → Opts → Cmd Writer (Unit {0})

-- How `<<` prints an integer that is not negative.
unfoldable pub digits : ℕ → ℕ → Text → Text
digits zero n acc = acc
digits (suc f) n acc =
    let more = digits f (n / 10) ((48 + n % 10) ∷ acc) in
    if ltb n 10 then (48 + n % 10) ∷ acc else more

unfoldable pub decimal : ℕ → Text
decimal n = digits (suc n) n []

-- `get_function_name`
abbrev pub get_function_name : Key → Text
get_function_name pname = codes "f_" ++ pname

-- One character of `get_var_name`.
unfoldable pub var_char : ℕ → ℕ
var_char c =
    let d = if leb c 47 then c + 65 else if leb 58 c && leb c 64 then c + 39 else c in
    if (leb 91 d && leb d 94) || d == 96 then d + 13 else if leb 123 d then d - 4 else d

unfoldable pub get_var_name : Key → Text
get_var_name [] = []
get_var_name (c ∷ s) = var_char c ∷ get_var_name s

-- `is_var`, and the loop of `add_global_sym`.
unfoldable pub has_name : Key → List Key → Bool
has_name s [] = false
has_name s (n ∷ ns) = list_eq n s || has_name s ns

-- `get_prog_index_by_expr`, with none for -1.
unfoldable pub prog_index : ℕ → Ptr → List Ptr → Option ℕ
prog_index a e [] = none
prog_index a e (p ∷ ps) = if p == e then some a else prog_index (a + 1) e ps

abbrev pub spaces : ℕ → Text
spaces zero = []
spaces (suc n) = b' ' ∷ b' ' ∷ b' ' ∷ spaces n

unfoldable pub say : List Piece → Cmd Writer (Unit {0})
say ps s = ok tt (record s { out = s.out ++ text_of ps })

unfoldable pub indent : ℕ → Cmd Writer (Unit {0})
indent ind = say (var (spaces ind) ∷ [])

-- `indent(os, ind); os << … << std::endl;`
unfoldable pub line : ℕ → List Piece → Cmd Writer (Unit {0})
unfolding say indent
line ind ps = do indent ind; say ps; say (lit "\n" ∷ [])

unfoldable pub push_var : Key → Cmd Writer (Unit {0})
push_var n s = ok tt (record s { vars = s.vars ++ n ∷ [] })

unfoldable pub add_global_sym : Key → Cmd Writer (Unit {0})
add_global_sym n s =
    if has_name n s.global_syms
    then ok tt s
    else ok tt (record s { global_syms = s.global_syms ++ n ∷ [] })

unfoldable pub get_vars : Cmd Writer (List Key)
get_vars s = ok s.vars s

unfoldable pub get_program : Cmd Writer ℕ
get_program s = ok s.curr_program s

-- `ss << "e" << exprCount; exprCount++`
unfoldable pub new_expr : Cmd Writer Text
new_expr s = ok (b'e' ∷ decimal s.expr_count) (record s { expr_count = s.expr_count + 1 })

-- `ss << "rnum" << rnumCount; rnumCount++`
unfoldable pub new_rnum : Cmd Writer Text
new_rnum s = ok (codes "rnum" ++ decimal s.rnum_count) (record s { rnum_count = s.rnum_count + 1 })

unfoldable pub next_args : Cmd Writer (Unit {0})
next_args s = ok tt (record s { args_count = s.args_count + 1 })

-- `retModString` and `incString`
abbrev pub ret_mod : Option Text → Text
ret_mod none = []
ret_mod (some r) = r ++ codes " = "

abbrev pub inc_text : Option Text → Text
inc_text none = []
inc_text (some r) = r ++ codes "->inc();"

-- `progs[k] = p`
abbrev pub set_prog : Key → Ptr → List (Key × Ptr) → List (Key × Ptr)
set_prog k p [] = (k, p) ∷ []
set_prog k p ((j, q) ∷ m) = if list_eq j k then (k, p) ∷ m else (j, q) ∷ set_prog k p m

module _ {Z Q : Type 0} where
  -- A command that reads memory. None of those that are used below changes it.
  unfoldable pub look : Source Z Q → {A : Type 0} → Cmd (Heap Z Q) A → Cmd Writer A
  look src m s = elim (m src.heap) [ ok a h ↦ ok a s | stop e ↦ stop e ]

  -- `((SymSExpr *)e)->s`
  unfoldable pub sym_name : Source Z Q → Ptr → Cmd Writer Key
  unfolding look
  sym_name src p = do n ← look src (node p); elim n [ syms s v ↦ pure s | _ ↦ halt fault ]

  -- `progs[pname] = exp; progPtrs.push_back(exp); progNames.push_back(pname)`
  unfoldable pub add_scc : Key → Ptr → Source Z Q → Source Z Q
  add_scc pname exp src = record src {
    progs = set_prog pname exp src.progs;
    prog_ptrs = src.prog_ptrs ++ exp ∷ [];
    prog_names = src.prog_names ++ pname ∷ [];
  }
