-- ===== src/Term/Stable/Binders.antt =====
-- The cases of `check` for binders undo the bindings that they make.
use lfsc.Common.{ℕ, refl, [], ◌∷◌}
use lfsc.Gmp.{Gmp}
use lfsc.Trie.{Key}
use lfsc.Heap.{Ptr}
use lfsc.Code.Symbols.{Binding}
use lfsc.Session.{Config}
use lfsc.Session.Stable.{
  Stable, Stable-pure, Stable-gets, Stable-scan, Stable-mem, Stable-modify, Stable-bind,
  stable_rules,
}
use lfsc.Session.Scoped.{
  Closes, Closes-step, Closes-then, Stable-Opens, bind_symbol-Opens, bind_symbol-Closes,
}
use lfsc.Session.Opens.{Opens-step}
use lfsc.Session.Scoped.{Opens}
use lfsc.Read.Stable.{require-Stable, new_sym-Stable}
use lfsc.Term.{Ask, Answer, Rec, insert_and_bind}
use lfsc.Term.Binders.{
  check_domain, close_pi, check_pi, expected_range, independent_pi, check_annotated, check_big,
  lam_whole, check_lam, check_local,
}
use lfsc.Term.Stable.{
  IsLocal, creates, same-IsLocal, big_not_local, inc_if-Stable, dec_if-Stable, eat_rparen-Stable,
  eat_excess-Stable, store-Stable, stored-Stable, head_op-Stable, new_pi-Stable, cloned_lam-Stable,
  must_equal-Stable, Stable-require, Stable-in_tail,
}

module _ {Z Q : Type 0} (f : ℕ) (rec : Rec Z Q) (h : (a : Ask) → IsLocal a → Stable (rec a)) where
  check_domain-Stable : Stable (check_domain rec)
  unfolding check_domain
  check_domain-Stable = Stable-bind (Stable-modify _ λ s. refl) λ _.
      Stable-bind (Stable-gets _) λ n. Stable-bind (h _ (creates refl)) λ d.
        Stable-bind (eat_excess-Stable n)
          λ _. Stable-bind (Stable-modify _ λ s. refl) λ _. Stable-pure _

  close_pi-Stable : (a : Ask) (v d : Ptr) (r : Answer) → Stable (close_pi {Z = Z} {Q = Q} f a v d r)
  unfolding close_pi
  close_pi-Stable a v d r =
      search (new_pi-Stable, head_op-Stable, require-Stable, stored-Stable, stable_rules) depth 14

  pub check_pi-Stable : (a : Ask) → IsLocal a → Stable (check_pi f rec a)
  unfolding check_pi
  check_pi-Stable a l = Stable-bind (Stable-scan _) λ id. Stable-bind (new_sym-Stable id) λ v.
      Stable-bind (Stable-gets _) λ n. Stable-bind check_domain-Stable λ d.
        Stable-Opens (bind_symbol-Opens id _) λ prev. Closes-step (inc_if-Stable _) λ _.
          Closes-step (h _ (same-IsLocal a _ refl refl l)) λ r.
            Closes-step (eat_excess-Stable n) λ _.
              Closes-step eat_rparen-Stable
                λ _. Closes-then (bind_symbol-Closes id prev) λ _. close_pi-Stable a v d r

  independent_pi-Stable :
      (id : Key) (v d r : Ptr) → Stable (independent_pi {Z = Z} {Q = Q} f id v d r)
  unfolding independent_pi
  independent_pi-Stable id v d r =
      search (new_pi-Stable, new_sym-Stable, require-Stable, stable_rules) depth 14

  expected_range-Stable : (gmp : Gmp Z Q) (a : Ask) (d : Ptr) → Stable (expected_range gmp f a d)
  unfolding expected_range
  expected_range-Stable gmp a d =
      search (head_op-Stable, must_equal-Stable, require-Stable, stable_rules) depth 16

  pub check_annotated-Stable :
      (gmp : Gmp Z Q) (a : Ask) → IsLocal a → Stable (check_annotated gmp f rec a)
  unfolding check_annotated
  check_annotated-Stable gmp a l = Stable-bind (Stable-scan _) λ id.
      Stable-bind (new_sym-Stable id) λ v. Stable-bind (Stable-gets _) λ n.
        Stable-bind check_domain-Stable λ d. Stable-Opens (bind_symbol-Opens id _) λ prev.
          Closes-step (expected_range-Stable gmp a d) λ range.
            Closes-step (h _ (same-IsLocal a _ refl refl l)) λ r.
              Closes-step (dec_if-Stable f _) λ _. Closes-step (eat_excess-Stable n) λ _.
                Closes-step eat_rparen-Stable λ _.
                  Closes-step (independent_pi-Stable id v d _) λ tp.
                    Closes-step (store-Stable a tp) λ o.
                      Closes-then (bind_symbol-Closes id prev)
                        λ _. search (cloned_lam-Stable, stable_rules)

  pub check_big-Stable : (a : Ask) → IsLocal a → Stable (check_big f rec a)
  unfolding check_big
  check_big-Stable a l =
      Stable-bind (Stable-gets _) λ big. Stable-require _ λ _ e. big_not_local a _ big l e

  lam_whole-Closes :
      (a : Ask) (v pivar old d range : Ptr) (id : Key) (prev : Binding)
      → IsLocal a
      → Closes ((id, prev) ∷ []) (lam_whole f rec a v pivar old d range id prev)
  unfolding lam_whole
  lam_whole-Closes a v pivar old d range id prev l = Closes-step (Stable-gets _) λ n.
      Closes-step (h _ (same-IsLocal a _ refl refl l)) λ r. Closes-step (eat_excess-Stable n) λ _.
        Closes-step eat_rparen-Stable
          λ _. Closes-then (bind_symbol-Closes id prev) λ _. search stable_rules depth 14

  pub check_lam-Stable : (cfg : Config Z Q) (a : Ask) → IsLocal a → Stable (check_lam cfg f rec a)
  unfolding check_lam
  check_lam-Stable cfg a l = Stable-bind (require-Stable _) λ _. Stable-bind (Stable-mem _) λ pi.
      Stable-bind (Stable-mem _) λ o. Stable-bind (require-Stable _) λ _.
        Stable-bind (Stable-scan _) λ id. Stable-bind (new_sym-Stable id) λ v.
          Stable-bind (Stable-mem _) λ d. Stable-bind (Stable-mem _) λ range.
            Stable-bind (Stable-mem _) λ pivar. Stable-bind (head_op-Stable f range) λ ro.
              Stable-bind (require-Stable _) λ _. Stable-in_tail cfg a l λ tail e. rw e (
                Stable-Opens (bind_symbol-Opens id _) λ prev. Closes-step (Stable-mem _) λ old.
                  Closes-step (Stable-mem _) λ _. lam_whole-Closes a v pivar old d range id prev l)

  insert_and_bind-Opens :
      (id : Key) (v e t : Ptr)
      → Opens (λ prev. (id, prev) ∷ []) (insert_and_bind {Z = Z} {Q = Q} f id v e t)
  unfolding insert_and_bind
  insert_and_bind-Opens id v e t = Opens-step (Stable-mem _) λ _. bind_symbol-Opens id _

  pub check_local-Stable :
      (cfg : Config Z Q) (a : Ask) → IsLocal a → Stable (check_local cfg f rec a)
  unfolding check_local
  check_local-Stable cfg a l = Stable-bind (Stable-scan _) λ id.
      Stable-bind (new_sym-Stable id) λ v. Stable-bind (Stable-gets _) λ n.
        Stable-bind (h _ (creates refl)) λ d. Stable-bind (eat_excess-Stable n) λ _.
          Stable-in_tail cfg a l λ tail e. rw e (
            Stable-Opens (insert_and_bind-Opens id v d.term _) λ prev.
              Closes-step (Stable-gets _) λ n'.
                Closes-step (h _ (same-IsLocal a _ refl refl l)) λ r.
                  Closes-step (eat_excess-Stable n') λ _.
                    Closes-step eat_rparen-Stable λ _.
                      Closes-then (bind_symbol-Closes id prev) λ _. search stable_rules depth 14)
