-- ===== src/Lexer/Examples.antt =====
-- The buffer of tokens, with one token left in it.
use lfsc.Common.{◌≡◌, refl, []}
use lfsc.Heap.{ok, and_then}
use lfsc.Lexer.{Token, Lexer, token_code, desugar, next_token, reinsert_token}
use lfsc.Lexer.Laws.{next_token-reinsert_token}

abbrev one_left : Lexer
one_left = record { input = []; peeked₀ = Token.close; peeked₁ = Token.token_err; text = [] }

next_token-reinsert_token_example :
    and_then (reinsert_token Token.open_ one_left) (λ _. next_token) ≡ ok Token.open_ one_left
unfolding desugar token_code
next_token-reinsert_token_example = next_token-reinsert_token Token.open_ one_left refl refl refl
