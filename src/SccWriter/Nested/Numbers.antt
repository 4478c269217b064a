-- ===== src/SccWriter/Nested/Numbers.antt =====
-- The numbers of `write_code` keep the depth in braces.
use lfsc.Common.{ℕ, suc, ◌≡◌, refl, Option, some, List}
use lfsc.Header.{Op}
use lfsc.Heap.{Ptr, nth}
use lfsc.SccWriter.{Text, Piece, Source, no_opts, WriteCode}
use lfsc.SccWriter.Level.{
  levels, Plain, PlainVars, IsClean-Plain, PlainRet, ret_mod-Plain, inc_text-Plain,
}
use lfsc.SccWriter.Nested.{Level, Writes-bind, line-Writes, line-then, new_rnum-Names}
use lfsc.SccWriter.Nested.Exprs.{IsSource, KeepsLevel, write_expr-Names, write_dec-Level}
use lfsc.SccWriter.Numbers.{
  mpz_name, mpq_name, sign_test, write_int, write_rat, write_operation, two_args, one_arg,
  write_arith, write_neg, write_mpz_to_mpq, write_sign, write_if_number,
}

mpz_name-Plain : (o : Op) → Plain (mpz_name o)
mpz_name-Plain Op.add = λ d. refl
mpz_name-Plain _ = λ d. refl

mpq_name-Plain : (o : Op) → Plain (mpq_name o)
mpq_name-Plain Op.add = λ d. refl
mpq_name-Plain Op.mul = λ d. refl
mpq_name-Plain _ = λ d. refl

sign_test-Plain : (o : Op) → Plain (sign_test o)
sign_test-Plain Op.ifneg = λ d. refl
sign_test-Plain _ = λ d. refl

module _ {Z Q : Type 0} (src : Source Z Q) (v : IsSource src) (a : ℕ) where
  pub write_int-Level :
      (z : Z) (ind : ℕ) (ret : Option Text) → PlainRet ret → Level a (write_int src z ind ret)
  unfolding write_int
  write_int-Level z ind ret r =
      line-then _ _ _ refl (ret_mod-Plain ret r, (IsClean-Plain _ (v.si_text z), tt))
        (line-Writes _ _ refl (inc_text-Plain ret r, tt))

  pub write_rat-Level :
      (q : Q) (ind : ℕ) (ret : Option Text) → PlainRet ret → Level a (write_rat src q ind ret)
  unfolding write_rat
  write_rat-Level q ind ret r =
      line-then _ _ _ refl
        (
          ret_mod-Plain ret r,
          (
            IsClean-Plain _ (v.si_text (src.mpq_get_num q)),
            (IsClean-Plain _ (v.si_text (src.mpq_get_den q)), tt),
          ),
        )
        (line-Writes _ _ refl (inc_text-Plain ret r, tt))

  module _ (rec : WriteCode) (h : KeepsLevel rec) where
    -- Pieces that keep the depth, with plain texts.
    record Keeps (ps : List Piece) : Type 0 where
      keeps : (d : ℕ) → levels (some d) ps ≡ some d
      plain : PlainVars ps

    two_args-Keeps :
        (class e₁ e₂ : Text)
        → Plain class
        → Plain e₁
        → Plain e₂
        → Keeps (two_args src rec class e₁ e₂)
    two_args-Keeps class e₁ e₂ c p q = record { keeps = λ d. refl; plain = (c, (p, (c, (q, tt)))) }

    one_arg-Keeps : (class e : Text) → Plain class → Plain e → Keeps (one_arg src rec class e)
    one_arg-Keeps class e c p = record { keeps = λ d. refl; plain = (c, (p, tt)) }

    write_operation-Level :
        (d ind : ℕ) (ret : Option Text) (gmp name class r : Text) (args : List Piece)
        → PlainRet ret
        → Plain gmp
        → Plain name
        → Plain class
        → Plain r
        → Keeps args
        → Level d (write_operation src rec ind ret gmp name class r args)
    unfolding write_operation
    write_operation-Level d ind ret gmp name class r args w g n c p k =
        line-then _ _ _ refl (g, (p, tt))
          (line-then _ _ _ refl (g, (p, tt))
            (line-then _ _ _ (k.keeps d) (g, (n, (p, k.plain)))
              (line-Writes _ _ refl (ret_mod-Plain ret w, (c, (p, tt))))))

    pub write_arith-Level :
        (o : Op) (ks : List Ptr) (ind : ℕ) (ret : Option Text)
        → PlainRet ret
        → Level a (write_arith src rec o ks ind ret)
    unfolding write_arith
    write_arith-Level o ks ind ret w =
        Writes-bind (write_expr-Names src v rec h a (nth ks 0) ind no_opts) λ e₁ p.
          Writes-bind (write_expr-Names src v rec h a (nth ks 1) ind no_opts) λ e₂ q.
            Writes-bind (new_rnum-Names a) λ r n.
              line-then _ _ _ refl (p, tt)
                (Writes-bind
                  (write_operation-Level (suc a) _ ret _ _ _ r _ w (λ d. refl) (mpz_name-Plain o)
                    (λ d. refl) n (two_args-Keeps _ e₁ e₂ (λ d. refl) p q))
                  λ _ _.
                    line-then _ _ _ refl (p, tt)
                      (Writes-bind
                        (write_operation-Level (suc a) _ ret _ _ _ r _ w (λ d. refl)
                          (mpq_name-Plain o) (λ d. refl) n (two_args-Keeps _ e₁ e₂ (λ d. refl) p q))
                        λ _ _. line-then _ _ _ refl tt (
                          Writes-bind (write_dec-Level a ind e₁ p)
                            λ _ _. write_dec-Level a ind e₂ q)))

    pub write_neg-Level :
        (ks : List Ptr) (ind : ℕ) (ret : Option Text)
        → PlainRet ret
        → Level a (write_neg src rec ks ind ret)
    unfolding write_neg
    write_neg-Level ks ind ret w =
        Writes-bind (write_expr-Names src v rec h a (nth ks 0) ind no_opts) λ e p.
          Writes-bind (new_rnum-Names a) λ r n.
            line-then _ _ _ refl (p, tt)
              (Writes-bind
                (write_operation-Level (suc a) _ ret _ _ _ r _ w (λ d. refl) (λ d. refl) (λ d. refl)
                  n (one_arg-Keeps _ e (λ d. refl) p))
                λ _ _.
                  line-then _ _ _ refl (p, tt)
                    (Writes-bind
                      (write_operation-Level (suc a) _ ret _ _ _ r _ w (λ d. refl) (λ d. refl)
                        (λ d. refl) n (one_arg-Keeps _ e (λ d. refl) p))
                      λ _ _. line-then _ _ _ refl tt (write_dec-Level a ind e p)))

    pub write_mpz_to_mpq-Level :
        (ks : List Ptr) (ind : ℕ) (ret : Option Text)
        → PlainRet ret
        → Level a (write_mpz_to_mpq src rec ks ind ret)
    unfolding write_mpz_to_mpq
    write_mpz_to_mpq-Level ks ind ret w =
        Writes-bind (write_expr-Names src v rec h a (nth ks 0) ind no_opts) λ e p.
          Writes-bind (new_rnum-Names a) λ r n.
            Writes-bind
              (write_operation-Level a ind ret _ _ _ r _ w (λ d. refl) (λ d. refl) (λ d. refl) n
                (one_arg-Keeps _ e (λ d. refl) p))
              λ _ _. write_dec-Level a ind e p

    write_sign-Level :
        (o : Op) (ks : List Ptr) (d ind : ℕ) (ret : Option Text) (gmp class e : Text)
        → PlainRet ret
        → Plain gmp
        → Plain class
        → Plain e
        → Level d (write_sign src rec o ks ind ret gmp class e)
    unfolding write_sign
    write_sign-Level o ks d ind ret gmp class e w g c p =
        line-then _ _ _ refl (g, (c, (p, (sign_test-Plain o, tt))))
          (Writes-bind (h (suc d) _ _ ret no_opts w) λ _ _.
            line-then _ _ _ refl tt
              (Writes-bind (h (suc d) _ _ ret no_opts w) λ _ _. line-Writes _ _ refl tt))

    pub write_if_number-Level :
        (o : Op) (ks : List Ptr) (ind : ℕ) (ret : Option Text)
        → PlainRet ret
        → Level a (write_if_number src rec o ks ind ret)
    unfolding write_if_number
    write_if_number-Level o ks ind ret w =
        Writes-bind (write_expr-Names src v rec h a (nth ks 0) ind no_opts) λ e p.
          line-then _ _ _ refl (p, tt)
            (Writes-bind (write_sign-Level o ks (suc a) _ ret _ _ e w (λ d. refl) (λ d. refl) p)
              λ _ _.
                line-then _ _ _ refl (p, tt)
                  (Writes-bind
                    (write_sign-Level o ks (suc a) _ ret _ _ e w (λ d. refl) (λ d. refl) p)
                    λ _ _. line-then _ _ _ refl tt (write_dec-Level a ind e p)))
