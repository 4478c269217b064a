-- ===== src/Lexer/Laws.antt =====
-- The buffer is a stack of two tokens.
use lfsc.Common.{◌≡◌, refl, true, false, Bool-cases, inl, inr, arith}
use lfsc.Heap.{ok, ◌>>◌}
use lfsc.Lexer.{Token, token_code, same_token, Lexer, desugar, next_token, reinsert_token}

-- A token that `next_token` can return. Such a token is in the buffer after it was put back.
pub desugar-desugar : (t : Token) → desugar (desugar t) ≡ desugar t
unfolding desugar
desugar-desugar Token.provided = refl
desugar-desugar Token.forall_ = refl
desugar-desugar Token.lam = refl
desugar-desugar Token.let_ = refl
desugar-desugar _ = refl

token_err-eq : (t : Token) → same_token t Token.token_err ≡ true → t ≡ Token.token_err
unfolding token_code
token_err-eq Token.token_err h = refl
token_err-eq t h = absurd (cc)

-- A token that was read and is put back is read again, and the lexer is as it was, if there is room
-- in the buffer for it: that is, if the second place is free.
pub next_token-reinsert_token :
    (t : Token) (s : Lexer)
    → desugar t ≡ t
    → same_token t Token.token_err ≡ false
    → s.peeked₁ ≡ Token.token_err
    → (reinsert_token t >> next_token) s ≡ ok t s
unfolding reinsert_token next_token token_code
next_token-reinsert_token t s d e f = elim (Bool-cases (same_token s.peeked₀ Token.token_err)) [
  | inl a ↦ let z : s.peeked₀ ≡ Token.token_err = token_err-eq s.peeked₀ a in ground arith
  | inr a ↦ ground arith
]
