-- ===== src/File/Examples.antt =====
-- Reading `(@ x 5 mpz)`, checking `(! x mpz mpz)`, the command `(declare x mpz)` and a program.
use lfsc.Common.{◌≡◌, refl, true, false, List, [], ◌∷◌}
use lfsc.Heap.{stop, report_error, timeout}
use lfsc.Heap.Returns.{Ensures, ended}
use lfsc.Lexer.{Token, Lexeme}
use lfsc.Trie.{get}
use lfsc.Trie.Find.{leaf}
use lfsc.Code.Examples.{x}
use lfsc.Session.{Session}
use lfsc.Session.Stable.{look, Has}
use lfsc.Session.Examples.{config, mpz_name, word, sign, reading}
use lfsc.Read.Code.{read_code}
use lfsc.Read.Stable.{read_code-Has}
use lfsc.Term.{computing}
use lfsc.Term.Types.{check}
use lfsc.Term.Stable.{creates}
use lfsc.Term.Stable.Types.{check-Has}
use lfsc.File.{command, check_file, new_binding}
use lfsc.File.Program.{program}
use lfsc.File.Retains.{Retains}
use lfsc.File.Retains.Program.{program-Retains}
use lfsc.File.Names.{new_binding-error}

abbrev a_let : List Lexeme
a_let =
    sign Token.open_
    ∷ sign Token.at
    ∷ word x
    ∷ sign Token.natural
    ∷ word mpz_name
    ∷ sign Token.close
    ∷ []

read_code-Has_example :
    Ensures (λ _ t. Has (look (reading a_let)) t) (read_code config.gmp 10 (reading a_let))
read_code-Has_example = read_code-Has config.gmp 10 (reading a_let) (leaf mpz_name)

abbrev a_pi : List Lexeme
a_pi =
    sign Token.open_
    ∷ sign Token.bang
    ∷ word x
    ∷ word mpz_name
    ∷ word mpz_name
    ∷ sign Token.close
    ∷ []

check-Has_example :
    Ensures (λ _ t. Has (look (reading a_pi)) t) (check config 10 (computing true) (reading a_pi))
check-Has_example =
    check-Has config 10 (computing true) (reading a_pi) (creates refl) (leaf mpz_name)

abbrev a_declaration : List Lexeme
a_declaration = word x ∷ word mpz_name ∷ sign Token.close ∷ []

new_binding-error_example : new_binding mpz_name 1 (reading []) ≡ stop report_error
unfolding get
new_binding-error_example =
    new_binding-error mpz_name 1 (3, 1) (reading []) (leaf mpz_name) refl refl

abbrev a_file : List Lexeme
a_file = sign Token.open_ ∷ sign Token.declare ∷ a_declaration

-- `p ((x mpz)) mpz x)`, what follows the word "program".
abbrev a_program : List Lexeme
a_program =
    word (b'p' ∷ [])
    ∷ sign Token.open_
    ∷ sign Token.open_
    ∷ word x
    ∷ word mpz_name
    ∷ sign Token.close
    ∷ sign Token.close
    ∷ word mpz_name
    ∷ word x
    ∷ sign Token.close
    ∷ []

program-Retains_example :
    Ensures
      (λ _ t. Retains (look (reading a_program)) t)
      (program config 10 false (reading a_program))
program-Retains_example = program-Retains config 10 false (reading a_program) (leaf mpz_name)

-- These runs end with a result.
read_code_output : ended (read_code config.gmp 10 (reading a_let)) ≡ true
unfolding read_code lfsc.Read.Code.read_token lfsc.Read.Code.read_open lfsc.Read.read_let
    lfsc.Read.new_cexpr lfsc.Read.Code.read_natural lfsc.Read.Code.read_ident
    lfsc.Read.Code.symbol_first lfsc.Session.scan lfsc.Session.typed lfsc.Session.mem
    lfsc.Session.gets lfsc.Session.modify lfsc.Session.require lfsc.Session.new_sym
    lfsc.Session.bind_symbol lfsc.Code.Symbols.mem lfsc.Code.Symbols.get_symbol
    lfsc.Code.Symbols.insert_symbol lfsc.Trie.get lfsc.Trie.insert lfsc.Trie.insert_next
    lfsc.Trie.Scope.insert_key lfsc.Lexer.next_token lfsc.Lexer.yylex lfsc.Lexer.token_code
    lfsc.Lexer.desugar lfsc.Lexer.prefix_id lfsc.Lexer.token_str lfsc.Lexer.eat_token
    lfsc.Heap.alloc lfsc.Heap.read lfsc.Heap.write lfsc.Heap.node lfsc.Heap.Count.inc
    lfsc.Header.inc_ref
read_code_output = refl

check_output : ended (check config 10 (computing true) (reading a_pi)) ≡ true
unfolding check lfsc.Term.Types.check_token lfsc.Term.Types.check_open lfsc.Term.Binders.check_pi
    lfsc.Term.Binders.check_domain lfsc.Term.Binders.close_pi lfsc.Term.Cases.check_leaf
    lfsc.Term.Cases.check_ident lfsc.Term.must_equal lfsc.Expr.Defeq.defeq
    lfsc.Expr.Defeq.defeq_left lfsc.Expr.Defeq.defeq_right lfsc.Expr.Defeq.defeq_same
    lfsc.Expr.Defeq.defeq_cexpr lfsc.Term.new_pi lfsc.Term.store lfsc.Session.inc_if
    lfsc.Session.eat_excess lfsc.Session.eat_times lfsc.Session.eat_rparen lfsc.Heap.Count.dec
    lfsc.Heap.Count.destroy lfsc.Header.dec_ref lfsc.Expr.FreeIn.calc_free_in
    lfsc.Expr.FreeIn.free_in lfsc.Expr.FreeIn.free_in_from lfsc.Expr.FreeIn.node_free_in
    lfsc.Expr.FreeIn.any_free_in lfsc.Heap.set_mark lfsc.Heap.kid lfsc.Heap.kids lfsc.Header.op_code
    lfsc.Session.scan lfsc.Session.typed lfsc.Session.mem lfsc.Session.gets lfsc.Session.modify
    lfsc.Session.require lfsc.Session.new_sym lfsc.Session.bind_symbol lfsc.Code.Symbols.mem
    lfsc.Code.Symbols.get_symbol lfsc.Code.Symbols.insert_symbol lfsc.Trie.get lfsc.Trie.insert
    lfsc.Trie.insert_next lfsc.Trie.Scope.insert_key lfsc.Lexer.next_token lfsc.Lexer.yylex
    lfsc.Lexer.token_code lfsc.Lexer.desugar lfsc.Lexer.prefix_id lfsc.Lexer.token_str
    lfsc.Lexer.eat_token lfsc.Heap.alloc lfsc.Heap.read lfsc.Heap.write lfsc.Heap.node
    lfsc.Heap.Count.inc lfsc.Header.inc_ref
check_output = refl

check_file_output : ended (check_file config 10 10 (reading a_file)) ≡ true
unfolding check_file lfsc.File.top_token command lfsc.File.declare lfsc.File.check_top
    lfsc.Term.stored lfsc.Term.head_op lfsc.Expr.follow_defs lfsc.Heap.getop lfsc.File.new_binding
    check lfsc.Term.Types.check_token lfsc.Term.Types.check_open lfsc.Term.Binders.check_pi
    lfsc.Term.Binders.check_domain lfsc.Term.Binders.close_pi lfsc.Term.Cases.check_leaf
    lfsc.Term.Cases.check_ident lfsc.Term.must_equal lfsc.Expr.Defeq.defeq
    lfsc.Expr.Defeq.defeq_left lfsc.Expr.Defeq.defeq_right lfsc.Expr.Defeq.defeq_same
    lfsc.Expr.Defeq.defeq_cexpr lfsc.Term.new_pi lfsc.Term.store lfsc.Session.inc_if
    lfsc.Session.eat_excess lfsc.Session.eat_times lfsc.Session.eat_rparen lfsc.Heap.Count.dec
    lfsc.Heap.Count.destroy lfsc.Header.dec_ref lfsc.Expr.FreeIn.calc_free_in
    lfsc.Expr.FreeIn.free_in lfsc.Expr.FreeIn.free_in_from lfsc.Expr.FreeIn.node_free_in
    lfsc.Expr.FreeIn.any_free_in lfsc.Heap.set_mark lfsc.Heap.kid lfsc.Heap.kids lfsc.Header.op_code
    lfsc.Session.scan lfsc.Session.typed lfsc.Session.mem lfsc.Session.gets lfsc.Session.modify
    lfsc.Session.require lfsc.Session.new_sym lfsc.Session.bind_symbol lfsc.Code.Symbols.mem
    lfsc.Code.Symbols.get_symbol lfsc.Code.Symbols.insert_symbol lfsc.Trie.get lfsc.Trie.insert
    lfsc.Trie.insert_next lfsc.Trie.Scope.insert_key lfsc.Lexer.next_token lfsc.Lexer.yylex
    lfsc.Lexer.token_code lfsc.Lexer.desugar lfsc.Lexer.prefix_id lfsc.Lexer.token_str
    lfsc.Lexer.eat_token lfsc.Heap.alloc lfsc.Heap.read lfsc.Heap.write lfsc.Heap.node
    lfsc.Heap.Count.inc lfsc.Header.inc_ref
check_file_output = refl

program_output : ended (program config 10 false (reading a_program)) ≡ true
unfolding program lfsc.File.Program.must_be_data lfsc.File.Program.new_program
    lfsc.File.Program.read_params lfsc.File.Program.program_type lfsc.File.Program.remove_params
    lfsc.File.Program.return_type lfsc.File.Program.program_body lfsc.Code.Kind.compute_kind
    lfsc.Code.Check.Types.check_code lfsc.Session.eat_excess lfsc.Lexer.reinsert_token
    lfsc.Heap.set_val lfsc.Session.lookup_prog read_code lfsc.Expr.follow_defs
    lfsc.Code.Check.Types.check_node lfsc.Code.Check.Simple.check_sym lfsc.Heap.Count.delete
    lfsc.Term.Types.check_token lfsc.Term.Types.check_open lfsc.Term.Binders.check_pi
    lfsc.Term.Binders.check_domain lfsc.Term.Binders.close_pi lfsc.Term.Cases.check_leaf
    lfsc.Term.Cases.check_ident lfsc.Term.must_equal lfsc.Expr.Defeq.defeq
    lfsc.Expr.Defeq.defeq_left lfsc.Expr.Defeq.defeq_right lfsc.Expr.Defeq.defeq_same
    lfsc.Expr.Defeq.defeq_cexpr lfsc.Term.new_pi lfsc.Term.store lfsc.Session.inc_if
    lfsc.Session.eat_times lfsc.Session.eat_rparen lfsc.Heap.Count.dec lfsc.Heap.Count.destroy
    lfsc.Header.dec_ref lfsc.Expr.FreeIn.calc_free_in lfsc.Expr.FreeIn.free_in
    lfsc.Expr.FreeIn.free_in_from lfsc.Expr.FreeIn.node_free_in lfsc.Expr.FreeIn.any_free_in
    lfsc.Heap.set_mark lfsc.Heap.kid lfsc.Heap.kids lfsc.Header.op_code lfsc.Read.Code.read_token
    lfsc.Read.Code.read_open lfsc.Read.read_let lfsc.Read.new_cexpr lfsc.Read.Code.read_natural
    lfsc.Read.Code.read_ident lfsc.Read.Code.symbol_first lfsc.Session.scan lfsc.Session.typed
    lfsc.Session.mem lfsc.Session.gets lfsc.Session.modify lfsc.Session.require lfsc.Session.new_sym
    lfsc.Session.bind_symbol lfsc.Code.Symbols.mem lfsc.Code.Symbols.get_symbol
    lfsc.Code.Symbols.insert_symbol lfsc.Trie.get lfsc.Trie.insert lfsc.Trie.insert_next
    lfsc.Trie.Scope.insert_key lfsc.Lexer.next_token lfsc.Lexer.yylex lfsc.Lexer.token_code
    lfsc.Lexer.desugar lfsc.Lexer.prefix_id lfsc.Lexer.token_str lfsc.Lexer.eat_token
    lfsc.Heap.alloc lfsc.Heap.read lfsc.Heap.write lfsc.Heap.node lfsc.Heap.Count.inc
    lfsc.Header.inc_ref check
program_output = refl
