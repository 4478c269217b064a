-- ===== src/Lexer.antt =====
-- Tokens, src/token.h, and the buffer of tokens over the scanner, src/lexer.h and the code at the
-- end of src/lexer.flex. The scanner itself is generated: its output, a list of tokens with their
-- texts, is what is left to read.
mod Examples
pub mod Laws
use lfsc.Common.{ℕ, Bool, true, false, List, [], ◌∷◌, ◌==◌, if◌then◌else◌}
use lfsc.Trie.{Key}
use lfsc.Heap.{abort, report_error, Cmd, ok, stop, pure, halt, and_then, ◌>>=◌, ◌>>◌}

pub data Token : Type 0 where
  eof declare define check program function opaque run type percent bang at colon : Token
  reverse_solidus pound caret hole let_ tilde do_ match default mpz mpq mp_add mp_neg : Token
  mp_div mp_mul mp_if_neg mp_if_zero mpz_to_mpq compare if_equal fail mark_var if_marked : Token
  open_ close natural rational ident provided forall_ lam declare_rule define_const : Token
  declare_type arrow check_assuming token_err : Token

-- The value of a token in the enumeration.
unfoldable pub token_code : Token → ℕ
token_code Token.eof = 0
token_code Token.declare = 1
token_code Token.define = 2
token_code Token.check = 3
token_code Token.program = 4
token_code Token.function = 5
token_code Token.opaque = 6
token_code Token.run = 7
token_code Token.type = 8
token_code Token.percent = 9
token_code Token.bang = 10
token_code Token.at = 11
token_code Token.colon = 12
token_code Token.reverse_solidus = 13
token_code Token.pound = 14
token_code Token.caret = 15
token_code Token.hole = 16
token_code Token.let_ = 17
token_code Token.tilde = 18
token_code Token.do_ = 19
token_code Token.match = 20
token_code Token.default = 21
token_code Token.mpz = 22
token_code Token.mpq = 23
token_code Token.mp_add = 24
token_code Token.mp_neg = 25
token_code Token.mp_div = 26
token_code Token.mp_mul = 27
token_code Token.mp_if_neg = 28
token_code Token.mp_if_zero = 29
token_code Token.mpz_to_mpq = 30
token_code Token.compare = 31
token_code Token.if_equal = 32
token_code Token.fail = 33
token_code Token.mark_var = 34
token_code Token.if_marked = 35
token_code Token.open_ = 36
token_code Token.close = 37
token_code Token.natural = 38
token_code Token.rational = 39
token_code Token.ident = 40
token_code Token.provided = 41
token_code Token.forall_ = 42
token_code Token.lam = 43
token_code Token.declare_rule = 44
token_code Token.define_const = 45
token_code Token.declare_type = 46
token_code Token.arrow = 47
token_code Token.check_assuming = 48
token_code Token.token_err = 49

abbrev pub same_token : Token → Token → Bool
same_token t u = token_code t == token_code u

-- A token of the scanner, with `YYText`.
pub record Lexeme : Type 0 where
  pub token : Token
  pub text : Key

-- What is left to scan, `s_peeked`, and the text of the token that was scanned last.
pub record Lexer : Type 0 where
  pub input : List Lexeme
  pub peeked₀ : Token
  pub peeked₁ : Token
  pub text : Key

-- `yylex`; at the end of the input the token is Eof, and its text is empty.
unfoldable pub yylex : Cmd Lexer Token
yylex s = elim s.input [
  | [] ↦ ok Token.eof (record s { text = [] })
  | l ∷ ls ↦ ok l.token (record s { input = ls; text = l.text })
]

-- The tokens that are read as others.
unfoldable pub desugar : Token → Token
desugar Token.provided = Token.caret
desugar Token.forall_ = Token.bang
desugar Token.lam = Token.reverse_solidus
desugar Token.let_ = Token.at
desugar t = t

abbrev pub pop : Cmd Lexer Token
pop s = ok s.peeked₀ (record s { peeked₀ = s.peeked₁; peeked₁ = Token.token_err })

unfoldable pub next_token : Cmd Lexer Token
unfolding yylex desugar
next_token s =
    and_then ((if same_token s.peeked₀ Token.token_err then yylex else pop) s) λ t. pure (desugar t)

unfoldable pub reinsert_token : Token → Cmd Lexer (Unit {0})
reinsert_token t s =
    if same_token s.peeked₀ Token.token_err
    then ok tt (record s { peeked₀ = t })
    else if same_token s.peeked₁ Token.token_err
    then ok tt (record s { peeked₁ = s.peeked₀; peeked₀ = t })
    else stop abort

unfoldable pub token_str : Cmd Lexer Key
token_str s = ok s.text s

unfoldable pub eat_token : Token → Cmd Lexer (Unit {0})
unfolding next_token
eat_token t = do u ← next_token; if same_token t u then pure tt else halt report_error

-- The text of the next token, whatever it is.
unfoldable pub prefix_id : Cmd Lexer Key
unfolding next_token token_str
prefix_id = do next_token; token_str
