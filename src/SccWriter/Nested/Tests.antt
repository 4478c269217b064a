-- ===== src/SccWriter/Nested/Tests.antt =====
-- The tests of `write_code` keep the depth in braces.
use lfsc.Common.{ℕ, suc, refl, Option, none, some, List}
use lfsc.Heap.{Ptr, Node, int, syms, pure, halt, fault, nth}
use lfsc.SccWriter.{Text, Source, no_opts, check_sym, WriteCode, decimal}
use lfsc.SccWriter.Level.{Plain, decimal-Plain, PlainRet, ret_mod-Plain, inc_text-Plain}
use lfsc.SccWriter.Nested.{
  Writes, Level, Names, Writes-pure, Writes-halt, Writes-bind, line-Writes, line-then, look-Level,
}
use lfsc.SccWriter.Nested.Exprs.{IsSource, KeepsLevel, write_expr-Names, write_dec-Level}
use lfsc.SccWriter.Tests.{
  mark_text, write_result, write_mark_var, write_branches, write_if_marked, write_compare,
  write_if_equal,
}

module _ {Z Q : Type 0} (src : Source Z Q) (v : IsSource src) (a : ℕ) where
  mark_text-Names : (ks : List Ptr) → Names a (mark_text src ks)
  unfolding mark_text
  mark_text-Names ks = Writes-bind (look-Level src a _) λ n _. go n
    where
      go :
          (n : Node Z Q)
          → Names a (elim n [ int z ↦ pure (decimal (src.gmp.mpz_get_ui z)) | _ ↦ halt fault ])
      go (int z) = Writes-pure a Plain _ (decimal-Plain (src.gmp.mpz_get_ui z))
      go (syms s w) = Writes-halt a a Plain fault
      go _ = Writes-halt a a Plain fault

  module _ (rec : WriteCode) (h : KeepsLevel rec) where
    write_result-Level :
        (ind : ℕ) (ret : Option Text) (e : Text)
        → PlainRet ret
        → Plain e
        → Level a (write_result src rec ind ret e)
    unfolding write_result
    write_result-Level ind none e w p = Writes-pure a _ tt tt
    write_result-Level ind (some r) e w p =
        line-then _ _ _ refl (ret_mod-Plain (some r) w, (p, tt))
          (line-Writes _ _ refl (inc_text-Plain (some r) w, tt))

    pub write_mark_var-Level :
        (ks : List Ptr) (ind : ℕ) (ret : Option Text)
        → PlainRet ret
        → Level a (write_mark_var src rec ks ind ret)
    unfolding write_mark_var
    write_mark_var-Level ks ind ret w =
        Writes-bind (write_expr-Names src v rec h a (nth ks 1) ind check_sym) λ e p.
          Writes-bind (mark_text-Names ks) λ m q.
            line-then _ _ _ refl (p, (q, tt))
              (line-then _ _ _ refl (p, (q, tt))
                (line-then _ _ _ refl tt (
                  line-then _ _ _ refl (p, (q, tt))
                    (Writes-bind (write_result-Level ind ret e w p)
                      λ _ _. write_dec-Level a ind e p))))

    -- The branches stand one brace further in, and close it.
    write_branches-Writes :
        (ks : List Ptr) (ind : ℕ) (ret : Option Text)
        → PlainRet ret
        → Writes (suc a) a (λ _. Unit {0}) (write_branches src rec ks ind ret)
    unfolding write_branches
    write_branches-Writes ks ind ret w = Writes-bind (h (suc a) _ _ ret no_opts w) λ _ _.
        line-then _ _ _ refl tt
          (Writes-bind (h (suc a) _ _ ret no_opts w) λ _ _. line-Writes _ _ refl tt)

    pub write_if_marked-Level :
        (ks : List Ptr) (ind : ℕ) (ret : Option Text)
        → PlainRet ret
        → Level a (write_if_marked src rec ks ind ret)
    unfolding write_if_marked
    write_if_marked-Level ks ind ret w =
        Writes-bind (write_expr-Names src v rec h a (nth ks 1) ind check_sym) λ e p.
          Writes-bind (mark_text-Names ks) λ m q.
            line-then _ _ _ refl (p, (q, tt))
              (Writes-bind (write_branches-Writes ks ind ret w) λ _ _. write_dec-Level a ind e p)

    pub write_compare-Level :
        (ks : List Ptr) (ind : ℕ) (ret : Option Text)
        → PlainRet ret
        → Level a (write_compare src rec ks ind ret)
    unfolding write_compare
    write_compare-Level ks ind ret w =
        Writes-bind (write_expr-Names src v rec h a (nth ks 0) ind check_sym) λ e₁ p.
          Writes-bind (write_expr-Names src v rec h a (nth ks 1) ind check_sym) λ e₂ q.
            line-then _ _ _ refl (p, (q, tt))
              (Writes-bind (write_branches-Writes ks ind ret w)
                λ _ _. Writes-bind (write_dec-Level a ind e₁ p) λ _ _. write_dec-Level a ind e₂ q)

    pub write_if_equal-Level :
        (ks : List Ptr) (ind : ℕ) (ret : Option Text)
        → PlainRet ret
        → Level a (write_if_equal src rec ks ind ret)
    unfolding write_if_equal
    write_if_equal-Level ks ind ret w =
        Writes-bind (write_expr-Names src v rec h a (nth ks 0) ind check_sym) λ e₁ p.
          Writes-bind (write_expr-Names src v rec h a (nth ks 1) ind check_sym) λ e₂ q.
            line-then _ _ _ refl (p, (q, tt))
              (Writes-bind (write_branches-Writes ks ind ret w)
                λ _ _. Writes-bind (write_dec-Level a ind e₁ p) λ _ _. write_dec-Level a ind e₂ q)
