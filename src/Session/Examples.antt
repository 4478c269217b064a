-- ===== src/Session/Examples.antt =====
-- A session at the start of a file, in which "mpz" is the only name.
use lfsc.Common.{ℕ, true, false, none, some, List, [], ◌∷◌, ◌==◌, if◌then◌else◌}
use lfsc.Header.{Op}
use lfsc.Trie.{Key, trie, end}
use lfsc.Heap.{fault, halt, pure, cexp}
use lfsc.Lexer.{Token, Lexeme}
use lfsc.Code.Examples.{naturals, cell}
use lfsc.Session.{Session, Config}

-- Every numeral is read as 5.
abbrev pub config : Config ℕ ℕ
config = record {
  gmp = record naturals { mpz_set_str = λ k. some 5 };
  tail_calls = true;
  run_scc = false;
  run_compiled_scc = λ p args. halt fault;
  init_compiled_scc = pure tt;
  compile_scc = false;
}

abbrev pub mpz_name : Key
mpz_name = b'm' ∷ b'p' ∷ b'z' ∷ []

abbrev pub word : Key → Lexeme
word k = record { token = Token.ident; text = k }

abbrev pub sign : Token → Lexeme
sign t = record { token = t; text = [] }

abbrev pub reading : List Lexeme → Session ℕ ℕ
reading ls = record {
  checker = record {
    heap = record {
      next = 5;
      cell = λ p.
          if p == 1
          then some (cell (cexp Op.type []))
          else if p == 2
          then some (cell (cexp Op.kind []))
          else if p == 3
          then some (cell (cexp Op.mpz []))
          else if p == 4
          then some (cell (cexp Op.mpq []))
          else none;
    };
    symbols = trie (some mpz_name) (3, 1) false end;
  };
  marks = λ p. 0;
  lexer = record { input = ls; peeked₀ = Token.token_err; peeked₁ = Token.token_err; text = [] };
  open_parens = 0;
  allow_run = false;
  big_check = true;
  local_sym_names = [];
  asc_holes = [];
  progs = [];
  prog_functions = [];
  sccs = [];
  successes = 0;
}
