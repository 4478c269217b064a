-- ===== src/Lib.antt =====
-- LFSC, a proof checker: a model of src/expr.h, src/expr.cpp, src/code.cpp, src/check.cpp, src/trie.h,
-- src/sccwriter.cpp, src/chunking_memory_management.h, src/main.cpp and of the tokens that they read.
--
-- A proof file declares types, programs and proofs. Its terms are graphs of expressions that count
-- their references. The checker keeps the names in a symbol table, compares types by definitional
-- equality, and runs programs, the side conditions, by an interpreter.
--
-- - Common: tests on numbers, options and lists.
-- - Trie: src/trie.h. A trie is its fields `str`, `d`, `using_next` and `next`; `get`, `insert` and
--   `insert_next` are the methods. Trie.Scope binds declarations and restores what they hid, as
--   `check_decl_list` and `check_file` of src/check.cpp do. A node's method calls that of a child on
--   a shorter key, and `insert` has the length of the key plus two as its fuel.
-- - Header: the word `data` of an expression, src/expr.h, on numbers: class, operator, flag, count.
-- - Heap: memory as a map from addresses to cells, and the commands on it, which end with a result
--   or stop: at a fault (undefined behaviour of the source, such as a NULL or deleted expression),
--   at `report_error`, at `abort`, or out of fuel. Heap.Count has `inc`, `dec` and `destroy`;
--   Heap.Word relates a cell to its header word, Heap.Frame the memory before and after `dec`.
-- - Expr: src/expr.cpp. `followDefs`, `collect_args`, `get_head`, `get_body`, `build_app`,
--   `make_app` and `isType` are in Expr; `clone` is Expr.Clone, `whr` is Expr.Whr, `_free_in` and
--   `calc_free_in` are Expr.FreeIn, `defeq` is Expr.Defeq; Expr.Tree has `convert_to_tree_app` and
--   `convert_to_flat_app`.
-- - Gmp: the functions of GMP, a parameter.
-- - Code: src/code.cpp. Code.Cache is the class ExprTrie, Code.Marks the marks of variables, Code.Run
--   the interpreter `run_code_internal`, a function for each group of its cases, and `run_code`;
--   Code.Run.Restores and Code.Run.Params are about the values of variables that it binds.
--   Code.Check is `check_code`, again by groups of cases, over Code.Symbols, the state that it can
--   change. Code.Kind is `compute_kind` of src/check.cpp. The code that a build with compiled side
--   conditions generates is a parameter.
-- - Lexer: src/token.h and the functions at the end of src/lexer.flex: the buffer of two tokens over
--   the output of the scanner, a list of tokens with their texts.
-- - Session: the state of a run, the global variables of src/check.cpp and src/code.cpp, and the
--   commands on it that the parts share. Session.Stable, Session.Scoped and Session.Opens have the
--   rules for what commands do to the symbol table: Stable leaves the bindings alone, Opens binds
--   names and says in its result what they hide, Closes puts that back.
-- - Read: `read_ctor`, `read_case` and `read_code` of src/code.cpp, which read code into expressions.
-- - Term: `check` of src/check.cpp, which reads terms and classifies them. Ask and Answer are its
--   arguments and results. Term.Binders, Term.Decls, Term.Cases and Term.Apps have its cases, with
--   `check_decl_list`, `build_validate_pi` and `build_macro`; `goto start_check` is the recursive call.
-- - File: the commands of `check_file` of src/check.cpp, and `init`; File.Program has `program` and
--   `function`. A command reads with Term and Read, and changes the table of Session.
-- - Print: `Expr::print` of src/expr.cpp and what it calls. The text is the list of its characters.
-- - SccWriter: src/sccwriter.cpp, which writes programs as C++. Writer is the state of the class,
--   the counters, variables and symbols, with the lines written so far. SccWriter.Exprs, Numbers,
--   Tests and Matching have the cases of `write_expr` and `write_code`, SccWriter.Code ties them
--   together, SccWriter.Output is `write_file`, SccWriter.Debug is `debug_write_code`. The programs
--   and what GMP prints are read from a Source. SccWriter.Level and the modules under
--   SccWriter.Nested follow the depth in braces through all of it.
-- - Main: src/main.cpp, the command line and a run on its files. What the scanner makes of each file
--   is a parameter.
-- - Chunks: src/chunking_memory_management.h, the operators `new` and `delete` for expressions over
--   chunks and a list of freed cells. The chunks that `malloc` gives are a parameter.
--
-- Recursion that follows pointers takes fuel, a bound of its depth, since a graph may have a cycle,
-- on which the source does not return; so it does in Print and SccWriter. In the parsers fuel also
-- bounds the nesting of the input and the rounds of a loop, of which each reads a token; in
-- `check_file` the number of commands has a fuel of its own. Running out of fuel is an outcome of its
-- own. Expr.Follow and Print.Ends compare the fuel with the depth of what is followed or printed.
--
-- Not modelled: the scanner, which is generated from src/lexer.flex, and positions; `cleanup`, which
-- frees memory at the end; messages; src/lfscc.cpp, which fills the arguments; the test in
-- src/trie.cpp. The addresses of Heap are never used again, those of Chunks are. The marks of a
-- variable are the bits of a number below 2 ^ 32, and their indices are read without overflow. The
-- keys of the table are ASCII. Assertions abort, as in a build that has them; those of the cache are
-- in `remember`, for which `set_data` is called.
pub mod Chunks
pub mod Code
pub mod Common
pub mod Expr
pub mod File
pub mod Gmp
pub mod Header
pub mod Heap
pub mod Lexer
pub mod Main
pub mod Print
pub mod Read
pub mod SccWriter
pub mod Session
pub mod Term
pub mod Trie
