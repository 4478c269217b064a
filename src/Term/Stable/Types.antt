-- ===== src/Term/Stable/Types.antt =====
-- Checking a term undoes the bindings that it makes.
use lfsc.Common.{ℕ, zero, suc, refl}
use lfsc.Heap.Returns.{Ensures}
use lfsc.Lexer.{Token}
use lfsc.Session.{Session, Config}
use lfsc.Session.Stable.{
  look, Valid, Has, Stable, Stable-halt, Stable-scan, Stable-modify, Stable-bind,
}
use lfsc.Term.{Ask, Rec}
use lfsc.Term.Types.{check_open, check_token, check}
use lfsc.Term.Stable.{IsLocal}
use lfsc.Term.Stable.Binders.{
  check_pi-Stable, check_annotated-Stable, check_big-Stable, check_lam-Stable, check_local-Stable,
}
use lfsc.Term.Stable.Decls.{check_arrow-Stable}
use lfsc.Term.Stable.Cases.{
  check_run-Stable, check_ascription-Stable, check_negative-Stable, check_leaf-Stable,
}
use lfsc.Term.Stable.Apps.{check_app-Stable}

module _ {Z Q : Type 0} (cfg : Config Z Q) where
  module _ (f : ℕ) (rec : Rec Z Q) (h : (a : Ask) → IsLocal a → Stable (rec a)) where
    check_open-Stable : (c : Token) (a : Ask) → IsLocal a → Stable (check_open cfg f rec c a)
    unfolding check_open
    check_open-Stable Token.eof a l = Stable-halt _
    check_open-Stable Token.bang a l = check_pi-Stable f rec h a l
    check_open-Stable Token.arrow a l = check_arrow-Stable f rec h a
    check_open-Stable Token.pound a l = check_annotated-Stable f rec h cfg.gmp a l
    check_open-Stable Token.percent a l = check_big-Stable f rec h a l
    check_open-Stable Token.reverse_solidus a l = check_lam-Stable f rec h cfg a l
    check_open-Stable Token.caret a l = check_run-Stable cfg.gmp f rec h a
    check_open-Stable Token.colon a l = check_ascription-Stable cfg.gmp f rec h a l
    check_open-Stable Token.at a l = check_local-Stable f rec h cfg a l
    check_open-Stable Token.tilde a l = check_negative-Stable cfg.gmp f rec h a l
    check_open-Stable c a l = check_app-Stable f cfg rec h a l c

    check_token-Stable : (t : Token) (a : Ask) → IsLocal a → Stable (check_token cfg f rec t a)
    unfolding check_token
    check_token-Stable Token.open_ a l =
        Stable-bind (Stable-modify _ λ s. refl)
          λ _. Stable-bind (Stable-scan _) λ c. check_open-Stable c a l
    check_token-Stable t a l = check_leaf-Stable cfg.gmp f t a

  pub check-Stable : (f : ℕ) (a : Ask) → IsLocal a → Stable (check cfg f a)
  unfolding check
  check-Stable zero a l = Stable-halt _
  check-Stable (suc f) a l =
      Stable-bind (Stable-scan _) λ t. check_token-Stable f (check cfg f) (check-Stable f) t a l

  -- Checking a term from a well-formed symbol table, where the term is created or is not in return
  -- position, leaves a well-formed table in which every name has the binding that it had before, if
  -- the check ends with an answer.
  pub check-Has :
      (f : ℕ) (a : Ask) (s : Session Z Q)
      → IsLocal a
      → Valid s
      → Ensures (λ _ t. Has (look s) t) (check cfg f a s)
  check-Has f a s l v = (check-Stable f a l).run s v
