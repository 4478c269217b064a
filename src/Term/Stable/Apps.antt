-- ===== src/Term/Stable/Apps.antt =====
-- The other cases of `check` undo the bindings that they make.
use lfsc.Common.{
  ℕ, zero, suc, Bool, true, false, not, ◌&&◌, ◌||◌, ◌≡◌, refl, arith, List, [], ◌∷◌, ◌==◌, none,
}
use lfsc.Header.{is_pi}
use lfsc.Heap.{Ptr, null, Node, op_of, Cmd, Outcome, ok, stop}
use lfsc.Heap.Returns.{Ensures, ensures, stops}
use lfsc.Lexer.{Token}
use lfsc.Code.{Machine}
use lfsc.Session.{Session, Config, call_run_code}
use lfsc.Session.Stable.{
  look, Valid, Has, Stable, Stable-pure, Stable-halt, Stable-gets, Stable-if, Stable-scan,
  Stable-mem, Stable-modify, Stable-bind,
}
use lfsc.Read.Stable.{require-Stable, apply_to-Stable}
use lfsc.Term.{Ask, Answer, Rec}
use lfsc.Term.Apps.{
  tail_holes, end_holes, side_condition, trailing_run, end_app, tail_arg, whole_arg, check_arg,
  app_round, app_loop, check_app,
}
use lfsc.Term.Stable.{
  IsLocal, creates, inside, eat_excess-Stable, store-Stable, stored-Stable, must_equal-Stable,
  Stable-when,
}

module _ {Z Q : Type 0} where
  call_run_code-Stable : (cfg : Config Z Q) (f : ℕ) (code : Ptr) → Stable (call_run_code cfg f code)
  unfolding call_run_code
  call_run_code-Stable cfg f code = record { run = λ s v. ended s v _ }
    where
      ended :
          (s : Session Z Q)
          → Valid s
          → (r : Outcome (Machine Z Q) Ptr)
          → Ensures {A = Ptr}
              (λ _ t. Has (look s) t)
              (elim r [
                | ok r m ↦ ok r (record s {
                  checker = record { heap = m.heap; symbols = s.checker.symbols };
                  marks = m.marks;
                })
                | stop e ↦ stop e
              ])
      ended s v (ok r m) = ensures (record { valid = v; agree = λ k. refl })
      ended s v (stop e) = stops

  module _ (f : ℕ) where
    tail_holes-Stable : (d : Ptr) (hs : List Ptr) → Stable (tail_holes {Z = Z} {Q = Q} f d hs)
    unfolding tail_holes
    tail_holes-Stable d [] = Stable-pure tt
    tail_holes-Stable d (p ∷ hs) = Stable-bind (Stable-mem _) λ v.
        Stable-bind (Stable-if (v == null) (Stable-mem _) (Stable-pure true)) λ free.
          Stable-bind (require-Stable _) λ _. Stable-bind (Stable-mem _) λ _. tail_holes-Stable d hs

    end_holes-Stable :
        (in_asc : Bool) (hs : List Ptr) → Stable (end_holes {Z = Z} {Q = Q} f in_asc hs)
    unfolding end_holes
    end_holes-Stable in_asc [] = Stable-pure tt
    end_holes-Stable in_asc (p ∷ hs) = Stable-bind (Stable-mem _) λ v.
        Stable-bind
          (Stable-if (v == null) (Stable-if in_asc (Stable-modify _ λ s. refl) (Stable-halt _))
            (Stable-pure tt))
          λ _. Stable-bind (Stable-mem _) λ _. end_holes-Stable in_asc hs

    module _ (cfg : Config Z Q) where
      side_condition-Stable : (code e : Ptr) → Stable (side_condition cfg f code e)
      unfolding side_condition
      side_condition-Stable code e = Stable-bind (call_run_code-Stable cfg f code) λ r.
          Stable-bind (require-Stable _)
            λ _. Stable-bind (must_equal-Stable _ f _ _) λ _. Stable-pure _

      trailing_run-Stable : (tp : Ptr) → Stable (trailing_run cfg f tp)
      unfolding trailing_run
      trailing_run-Stable tp = Stable-bind (Stable-mem _) λ n.
          Stable-bind (Stable-if (is_pi (op_of n)) (Stable-mem _) (Stable-pure n)) λ d.
            Stable-if _
              (Stable-bind (Stable-mem _) λ code.
                Stable-bind (side_condition-Stable code _)
                  λ r. Stable-bind (Stable-mem _) λ _. Stable-pure _)
              (Stable-pure _)

      end_app-Stable : (a : Ask) (p tp : Ptr) (hs : List Ptr) → Stable (end_app cfg f a p tp hs)
      unfolding end_app
      end_app-Stable a p tp hs = Stable-bind (Stable-modify _ λ s. refl) λ _.
          Stable-bind (trailing_run-Stable tp) λ tp'.
            Stable-bind
              (Stable-if (a.expected == null) (store-Stable a tp') (
                Stable-bind (must_equal-Stable _ f _ _)
                  λ _. Stable-bind (Stable-mem _) λ _. Stable-pure none))
              λ o. Stable-bind (end_holes-Stable a.in_asc hs) λ _. Stable-pure _

      module _ (rec : Rec Z Q) (h : (a : Ask) → IsLocal a → Stable (rec a)) where
        tail_arg-Stable :
            (a : Ask) (tp d r : Ptr) (hs : List Ptr)
            → a.return_pos ≡ false
            → Stable (tail_arg cfg f rec a tp d r hs)
        unfolding tail_arg
        tail_arg-Stable a tp d r hs e =
            Stable-bind
              (Stable-if (a.expected == null) (Stable-bind (Stable-mem _) λ _. store-Stable a r) (
                Stable-bind (must_equal-Stable _ f _ _)
                  λ _. Stable-bind (Stable-mem _) λ _. Stable-pure none))
              λ o. Stable-bind (Stable-mem _) λ _.
                Stable-bind (tail_holes-Stable d hs)
                  λ _. Stable-bind (h _ (inside e)) λ r'. Stable-pure _

        whole_arg-Stable :
            (a : Ask) (loop : Ptr → Ptr → List Ptr → Cmd (Session Z Q) Answer)
            → ((p tp : Ptr) (hs : List Ptr) → Stable (loop p tp hs))
            → (n : ℕ) (c v : Bool) (p tp : Ptr) (pi : Node Z Q) (hs : List Ptr)
            → Stable (whole_arg cfg f rec a loop n c v p tp pi hs)
        unfolding whole_arg
        whole_arg-Stable a loop hl n c v p tp pi hs = Stable-bind (h _ (inside refl)) λ r.
            Stable-bind (eat_excess-Stable n) λ _.
              Stable-bind (Stable-if a.create (apply_to-Stable f p r.term) (Stable-pure p)) λ p'.
                Stable-bind (Stable-if v (Stable-mem _) (Stable-pure tt)) λ _.
                  Stable-bind (Stable-if _ (Stable-mem _) (Stable-pure tt))
                    λ _. Stable-bind (Stable-mem _) λ _. hl _ _ _

        -- An argument is a tail call only where the application is not created.
        not_created :
            (a : Ask) (t v p : Bool)
            → IsLocal a
            → (t && not (a.create || v) && p) ≡ true
            → a.return_pos ≡ false
        not_created a t v p (creates e) w = absurd (grind arith)
        not_created a t v p (inside e) w = e

        check_arg-Stable :
            (a : Ask)
            → IsLocal a
            → (loop : Ptr → Ptr → List Ptr → Cmd (Session Z Q) Answer)
            → ((p tp : Ptr) (hs : List Ptr) → Stable (loop p tp hs))
            → (n : ℕ) (p tp : Ptr) (pi : Node Z Q) (hs : List Ptr)
            → Stable (check_arg cfg f rec a loop n p tp pi hs)
        unfolding check_arg
        check_arg-Stable a l loop hl n p tp pi hs = Stable-bind (Stable-mem _) λ v.
            Stable-bind (Stable-mem _) λ _. Stable-bind (Stable-mem _) λ o.
              Stable-when (cfg.tail_calls && not (a.create || v) && not (is_pi o))
                (λ w. tail_arg-Stable a tp _ _ hs (not_created a cfg.tail_calls v _ l w))
                (whole_arg-Stable a loop hl n _ v p tp pi hs)

        app_round-Stable :
            (a : Ask)
            → IsLocal a
            → (loop : Ptr → Ptr → List Ptr → Cmd (Session Z Q) Answer)
            → ((p tp : Ptr) (hs : List Ptr) → Stable (loop p tp hs))
            → (n : ℕ) (p tp : Ptr) (hs : List Ptr) → Stable (app_round cfg f rec a loop n p tp hs)
        unfolding app_round
        app_round-Stable a l loop hl n p tp hs = Stable-bind (Stable-mem _) λ pi.
            Stable-bind (require-Stable _) λ _. Stable-bind (Stable-mem _) λ d.
              Stable-if _
                (Stable-bind (side_condition-Stable _ _)
                  λ r. Stable-bind (Stable-mem _) λ _. hl _ _ _)
                (check_arg-Stable a l loop hl n p tp pi hs)

        app_loop-Stable :
            (a : Ask)
            → IsLocal a
            → (n g : ℕ) (p tp : Ptr) (hs : List Ptr) → Stable (app_loop cfg f rec a n g p tp hs)
        unfolding app_loop
        app_loop-Stable a l n zero p tp hs = Stable-halt _
        app_loop-Stable a l n (suc g) p tp hs = Stable-bind (Stable-scan _) λ c.
            Stable-if _ (end_app-Stable a p tp hs) (
              Stable-bind (Stable-scan _)
                λ _. app_round-Stable a l _ (app_loop-Stable a l n g) n p tp hs)

        pub check_app-Stable :
            (a : Ask) → IsLocal a → (c : Token) → Stable (check_app cfg f rec a c)
        unfolding check_app
        check_app-Stable a l c = Stable-bind (Stable-scan _) λ _. Stable-bind (Stable-gets _) λ n.
            Stable-bind (h _ (inside refl)) λ r. Stable-bind (eat_excess-Stable n) λ _.
              Stable-bind (stored-Stable r)
                λ computed. Stable-bind (Stable-mem _) λ tp. app_loop-Stable a l n f r.term tp []
