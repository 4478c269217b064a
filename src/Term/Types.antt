-- ===== src/Term/Types.antt =====
-- `check` of src/check.cpp: its cases put together.
use lfsc.Common.{ℕ, zero, suc, ◌+◌}
use lfsc.Heap.{timeout, report_error, Cmd, halt, ◌>>=◌, ◌>>◌}
use lfsc.Lexer.{Token, next_token}
use lfsc.Session.{Session, Config, modify, scan}
use lfsc.Term.{Ask, Answer, Rec}
use lfsc.Term.Binders.{check_pi, check_annotated, check_big, check_lam, check_local}
use lfsc.Term.Decls.{check_arrow}
use lfsc.Term.Cases.{check_run, check_ascription, check_negative, check_leaf}
use lfsc.Term.Apps.{check_app}

module _ {Z Q : Type 0} (cfg : Config Z Q) where
  -- What follows `(`.
  unfoldable pub check_open : ℕ → Rec Z Q → Token → Ask → Cmd (Session Z Q) Answer
  check_open f rec Token.eof a = halt report_error
  check_open f rec Token.bang a = check_pi f rec a
  check_open f rec Token.arrow a = check_arrow f rec a
  check_open f rec Token.pound a = check_annotated cfg.gmp f rec a
  check_open f rec Token.percent a = check_big f rec a
  check_open f rec Token.reverse_solidus a = check_lam cfg f rec a
  check_open f rec Token.caret a = check_run cfg.gmp f rec a
  check_open f rec Token.colon a = check_ascription cfg.gmp f rec a
  check_open f rec Token.at a = check_local cfg f rec a
  check_open f rec Token.tilde a = check_negative cfg.gmp rec a
  check_open f rec c a = check_app cfg f rec a c

  unfoldable pub check_token : ℕ → Rec Z Q → Token → Ask → Cmd (Session Z Q) Answer
  check_token f rec Token.open_ a = do
    modify λ s. record s { open_parens = s.open_parens + 1 }
    c ← scan next_token
    check_open f rec c a
  check_token f rec t a = check_leaf cfg.gmp f t a

  unfoldable pub check : ℕ → Ask → Cmd (Session Z Q) Answer
  check zero a = halt timeout
  check (suc f) a = do t ← scan next_token; check_token f (check f) t a
