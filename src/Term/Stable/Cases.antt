-- ===== src/Term/Stable/Cases.antt =====
-- Code, ascriptions, negative numbers and leaves in `check` undo the bindings that they make.
use lfsc.Common.{ℕ, refl, ◌==◌, none, some}
use lfsc.Gmp.{Gmp}
use lfsc.Heap.{Ptr, null}
use lfsc.Lexer.{Token}
use lfsc.Code.Check.Scoped.{check_code-Safe}
use lfsc.Session.Stable.{
  Stable, Stable-pure, Stable-halt, Stable-gets, Stable-if, Stable-scan, Stable-mem, Stable-typed,
  Stable-bind,
}
use lfsc.Read.{Reader}
use lfsc.Read.Stable.{
  require-Stable, get_symbol-Stable, read_code-Stable, read_natural-Stable, read_rational-Stable,
}
use lfsc.Term.{Ask, Rec}
use lfsc.Term.Cases.{
  check_run, check_ascription, check_negative, check_hole, check_number, check_ident, check_leaf,
}
use lfsc.Term.Stable.{
  IsLocal, creates, same-IsLocal, eat_rparen-Stable, eat_excess-Stable, store-Stable, stored-Stable,
  must_equal-Stable,
}

module _ {Z Q : Type 0} (gmp : Gmp Z Q) where
  module _ (f : ℕ) where
    check_hole-Stable : (a : Ask) → Stable (check_hole gmp f a)
    unfolding check_hole
    check_hole-Stable a = Stable-bind (require-Stable _) λ _.
        Stable-bind (Stable-if (a.expected == null) (Stable-pure tt) (Stable-mem _))
          λ _. Stable-bind (Stable-mem _) λ p. Stable-pure _

    check_number-Stable :
        (tp : Ptr) (make : Reader Z Q)
        → Stable make
        → (a : Ask) → Stable (check_number gmp f tp make a)
    unfolding check_number
    check_number-Stable tp make m a =
        Stable-bind
          (Stable-if (a.expected == null) (Stable-bind (Stable-mem _) λ _. store-Stable a tp)
            (Stable-bind (require-Stable _) λ _. Stable-bind (Stable-mem _) λ _. Stable-pure none))
          λ o. Stable-bind (Stable-if a.create m (Stable-pure null)) λ p. Stable-pure _

    check_ident-Stable : (a : Ask) → Stable (check_ident gmp f a)
    unfolding check_ident
    check_ident-Stable a = Stable-bind (Stable-scan _) λ id. Stable-bind (get_symbol-Stable id) λ b.
        Stable-bind (require-Stable _) λ _.
          Stable-bind
            (Stable-if (a.expected == null)
              (Stable-if a.computed (Stable-bind (Stable-mem _) λ _. Stable-pure (some b.1))
                (Stable-pure none))
              (Stable-bind (must_equal-Stable gmp f _ _)
                λ _. Stable-bind (Stable-mem _) λ _. Stable-pure none))
            λ o. Stable-bind (Stable-if a.create (Stable-mem _) (Stable-pure tt)) λ _. Stable-pure _

    pub check_leaf-Stable : (t : Token) (a : Ask) → Stable (check_leaf gmp f t a)
    unfolding check_leaf
    check_leaf-Stable Token.eof a = Stable-halt _
    check_leaf-Stable Token.hole a = check_hole-Stable a
    check_leaf-Stable Token.natural a = check_number-Stable _ _ (read_natural-Stable gmp) a
    check_leaf-Stable Token.rational a = check_number-Stable _ _ (read_rational-Stable gmp) a
    check_leaf-Stable t a = check_ident-Stable a

  module _ (f : ℕ) (rec : Rec Z Q) (h : (a : Ask) → IsLocal a → Stable (rec a)) where
    pub check_run-Stable : (a : Ask) → Stable (check_run gmp f rec a)
    unfolding check_run
    check_run-Stable a = Stable-bind (Stable-gets _) λ allowed. Stable-bind (require-Stable _) λ _.
        Stable-bind (read_code-Stable gmp f) λ code.
          Stable-bind (Stable-typed (check_code-Safe gmp f code)) λ progret.
            Stable-bind (Stable-gets _) λ n. Stable-bind (Stable-mem _) λ _.
              Stable-bind (h _ (creates refl)) λ r. Stable-bind (eat_excess-Stable n) λ _.
                Stable-bind eat_rparen-Stable λ _. Stable-bind (Stable-mem _) λ o.
                  Stable-bind (require-Stable _) λ _.
                    Stable-bind (Stable-mem _) λ _. Stable-bind (Stable-mem _) λ p. Stable-pure _

    pub check_ascription-Stable : (a : Ask) → IsLocal a → Stable (check_ascription gmp f rec a)
    unfolding check_ascription
    check_ascription-Stable a l = Stable-bind (Stable-mem _) λ _. Stable-bind (Stable-gets _) λ n.
        Stable-bind (h _ (creates refl)) λ t. Stable-bind (eat_excess-Stable n) λ _.
          Stable-bind (Stable-if (a.expected == null) (Stable-mem _) (Stable-pure tt)) λ _.
            Stable-bind (h _ (same-IsLocal a _ refl refl l)) λ r.
              Stable-bind (eat_excess-Stable n) λ _. Stable-bind eat_rparen-Stable λ _.
                Stable-bind
                  (Stable-if (a.expected == null) (store-Stable a t.term) (
                    Stable-bind (must_equal-Stable gmp f _ _) λ _. Stable-bind (Stable-mem _) λ _.
                      Stable-bind (Stable-if a.create (Stable-pure tt) (Stable-mem _))
                        λ _. Stable-pure none))
                  λ o. Stable-pure _

    pub check_negative-Stable : (a : Ask) → IsLocal a → Stable (check_negative gmp rec a)
    unfolding check_negative
    check_negative-Stable a l = Stable-bind (Stable-gets _) λ n.
        Stable-bind (h _ (same-IsLocal a _ refl refl l)) λ r. Stable-bind (eat_excess-Stable n) λ _.
          Stable-bind eat_rparen-Stable λ _.
            Stable-bind (Stable-if (a.expected == null) (stored-Stable r) (Stable-pure a.expected))
              λ tp. Stable-bind (require-Stable _) λ _.
                Stable-bind (Stable-if a.create (Stable-mem _) (Stable-pure tt)) λ _. Stable-pure _
