-- ===== src/Code/Check/Scoped.antt =====
-- Type checking of code undoes each binding that it makes.
use lfsc.Common.{ℕ, zero, suc, Bool, true, false, List, [], ◌∷◌, ◌==◌, if◌then◌else◌}
use lfsc.Header.{Op}
use lfsc.Gmp.{Gmp}
use lfsc.Trie.{Key}
use lfsc.Trie.Find.{IsTrie}
use lfsc.Heap.{Ptr, Node, int, syms, cexp, Cmd, ◌>>=◌, nth, kids_of, pure, null}
use lfsc.Heap.Returns.{Ensures}
use lfsc.Code.Symbols.{unbound, Checker, get_symbol, stat_type}
use lfsc.Code.Symbols.Safe.{
  SameSymbols, Safe, Safe-pure, Safe-halt, Safe-mem, Safe-if, Safe-bind, Safe-scope, safe_rules,
}
use lfsc.Expr.{is_type}
use lfsc.Expr.Defeq.{defeq}
use lfsc.Code.Kind.{kind_args, kind_node, compute_kind}
use lfsc.Code.Check.Simple.{
  Rec, name, check_sym, check_branches, check_let, check_arith, check_neg, check_mpz_to_mpq,
  check_if_number, check_fail, type_of_base, check_mark, check_if_marked, check_compare,
  check_if_equal,
}
use lfsc.Code.Check.Apps.{check_all, head_type, check_independent, matches, check_args, check_app}
use lfsc.Code.Check.Cases.{
  check_pattern, check_app_case, case_node, check_case, check_cases, check_match,
}
use lfsc.Code.Check.Types.{check_node, check_code}

module _ {Z Q : Type 0} where
  kind_args-Safe :
      (f : ℕ) (rec : Ptr → Cmd (Checker Z Q) Ptr)
      → ((e : Ptr) → Safe (rec e))
      → (head : Ptr) (args : List Ptr) → Safe (kind_args f rec head args)
  unfolding kind_args
  kind_args-Safe f rec h head [] = search safe_rules
  kind_args-Safe f rec h head (a ∷ args) = Safe-bind (Safe-mem _) λ n.
      Safe-if _
        (Safe-bind (Safe-mem _) λ actual. Safe-bind (Safe-mem _) λ old. Safe-bind (Safe-mem _) λ _.
          Safe-bind (h _)
            λ head'. Safe-bind (kind_args-Safe f rec h head' args) λ r. search safe_rules)
        (Safe-halt _)

  kind_node-Safe :
      (f : ℕ) (rec : Ptr → Cmd (Checker Z Q) Ptr)
      → ((e : Ptr) → Safe (rec e))
      → (e : Ptr) (n : Node Z Q) → Safe (kind_node f rec e n)
  unfolding kind_node
  kind_node-Safe f rec h e (cexp Op.app ks) = search (h, kind_args-Safe f rec h, safe_rules)
  kind_node-Safe f rec h e (syms s v) = search safe_rules
  kind_node-Safe f rec h e _ = search safe_rules

  pub compute_kind-Safe : (f : ℕ) (e : Ptr) → Safe (compute_kind {Z = Z} {Q = Q} f e)
  unfolding compute_kind
  compute_kind-Safe zero e = Safe-halt _
  compute_kind-Safe (suc f) e = search (kind_node-Safe f _ (compute_kind-Safe f), safe_rules)

  name-Safe : (p : Ptr) → Safe (name {Z = Z} {Q = Q} p)
  unfolding name
  name-Safe p = search safe_rules

  module _ (f : ℕ) (check : Rec Z Q) (h : (e : Ptr) → Safe (check e)) where
    check_sym-Safe : (s : Key) → Safe (check_sym {Z = Z} {Q = Q} s)
    unfolding check_sym
    check_sym-Safe s = search safe_rules

    check_branches-Safe : (e₁ e₂ : Ptr) → Safe (check_branches f check e₁ e₂)
    unfolding check_branches
    check_branches-Safe e₁ e₂ = search safe_rules depth 12

    check_let-Safe : (ks : List Ptr) → Safe (check_let check ks)
    unfolding check_let
    check_let-Safe ks = search (h, name-Safe, Safe-scope, safe_rules) depth 12

    check_arith-Safe : (ks : List Ptr) → Safe (check_arith f check ks)
    unfolding check_arith
    check_arith-Safe ks = search (h, safe_rules) depth 12

    check_neg-Safe : (ks : List Ptr) → Safe (check_neg f check ks)
    unfolding check_neg
    check_neg-Safe ks = search (h, safe_rules) depth 12

    check_mpz_to_mpq-Safe : (ks : List Ptr) → Safe (check_mpz_to_mpq f check ks)
    unfolding check_mpz_to_mpq
    check_mpz_to_mpq-Safe ks = search (h, safe_rules) depth 12

    check_if_number-Safe : (ks : List Ptr) → Safe (check_if_number f check ks)
    unfolding check_if_number
    check_if_number-Safe ks = search (h, check_branches-Safe, safe_rules) depth 12

    check_fail-Safe : (ks : List Ptr) → Safe (check_fail check ks)
    unfolding check_fail
    check_fail-Safe ks = search (h, safe_rules) depth 12

    type_of_base-Safe : (tp : Ptr) → Safe (type_of_base {Z = Z} {Q = Q} tp)
    unfolding type_of_base
    type_of_base-Safe tp =
        Safe-bind (Safe-mem _) (elim [ syms s v ↦ search safe_rules | _ ↦ Safe-pure _ ])

    check_mark-Safe : (ks : List Ptr) → Safe (check_mark f check ks)
    unfolding check_mark
    check_mark-Safe ks = Safe-bind (h _) λ tp. Safe-bind (type_of_base-Safe tp) λ tptp.
        Safe-bind {A = Bool}
          (Safe-if (tptp == null) (Safe-pure false) (Safe-mem (is_type f stat_type tptp)))
          λ is. Safe-if is (Safe-pure tp) (Safe-halt _)

    check_if_marked-Safe : (ks : List Ptr) → Safe (check_if_marked f check ks)
    unfolding check_if_marked
    check_if_marked-Safe ks = search (check_mark-Safe, check_branches-Safe, safe_rules) depth 12

    check_compare-Safe : (ks : List Ptr) → Safe (check_compare f check ks)
    unfolding check_compare
    check_compare-Safe ks = search (h, check_branches-Safe, safe_rules) depth 12

    check_if_equal-Safe : (ks : List Ptr) → Safe (check_if_equal f check ks)
    unfolding check_if_equal
    check_if_equal-Safe ks = search (h, check_branches-Safe, safe_rules) depth 12

    check_all-Safe : (es : List Ptr) → Safe (check_all check es)
    unfolding check_all
    check_all-Safe [] = Safe-pure _
    check_all-Safe (e ∷ es) = Safe-bind (h e) λ tp. Safe-bind (check_all-Safe es) λ tps. Safe-pure _

    -- The type that the table gives to what a symbol is.
    of_symbol-Safe :
        (n : Node Z Q) {other : Cmd (Checker Z Q) Ptr}
        → Safe other
        → Safe (elim n [ syms s v ↦ (do b ← get_symbol s; pure b.1) | _ ↦ other ])
    of_symbol-Safe (syms s v) o = search safe_rules
    of_symbol-Safe _ o = o

    head_type-Safe : (k p : Ptr) → Safe (head_type {Z = Z} {Q = Q} k p)
    unfolding head_type
    head_type-Safe k p = Safe-bind (Safe-mem _) λ n.
        Safe-bind (Safe-mem _)
          λ m. Safe-if _ (Safe-pure _) (of_symbol-Safe n (of_symbol-Safe m (Safe-halt _)))

    check_independent-Safe : (cur : Ptr) → Safe (check_independent {Z = Z} {Q = Q} f cur)
    unfolding check_independent
    check_independent-Safe cur = search safe_rules depth 12

    check_pattern-Safe :
        (curtp : Ptr) (vars : List Ptr) (body : Ptr) → Safe (check_pattern f check curtp vars body)
    unfolding check_pattern
    check_pattern-Safe curtp [] body = search (h, safe_rules) depth 12
    check_pattern-Safe curtp (v ∷ vars) body = Safe-bind (Safe-mem _) λ t.
        Safe-bind (Safe-mem _) λ n.
          Safe-if _
            (Safe-bind (name-Safe v)
              λ s. Safe-scope s _ (check_pattern-Safe (nth (kids_of n) 2) vars body))
            (Safe-halt _)

    check_app_case-Safe : (pat body : Ptr) → Safe (check_app_case f check pat body)
    unfolding check_app_case
    check_app_case-Safe pat body = search (check_pattern-Safe, name-Safe, safe_rules) depth 12

    check_case-Safe : (c : Ptr) → Safe (check_case f check c)
    unfolding check_case case_node
    check_case-Safe c = Safe-bind (Safe-mem _) (elim [
      | cexp Op.case ks ↦
          Safe-bind (Safe-mem _) (elim [ syms s v ↦ h _ | _ ↦ check_app_case-Safe _ _ ])
      | _ ↦ h c
    ])

    module _ (gmp : Gmp Z Q) where
      check_args-Safe : (cur : Ptr) (tps : List Ptr) → Safe (check_args gmp f cur tps)
      unfolding check_args matches
      check_args-Safe cur [] = search safe_rules
      check_args-Safe cur (tp ∷ tps) = Safe-bind (Safe-mem _) λ n.
          Safe-if _
            (Safe-bind (Safe-mem _) λ same.
              Safe-if _
                (Safe-bind (check_independent-Safe cur)
                  λ _. check_args-Safe (nth (kids_of n) 2) tps)
                (Safe-halt _))
            (Safe-halt _)

      check_app-Safe : (ks : List Ptr) → Safe (check_app gmp f check ks)
      unfolding check_app
      check_app-Safe ks = Safe-bind (Safe-mem _) λ p. Safe-bind (check_all-Safe _) λ tps.
          Safe-bind (head_type-Safe _ p) λ t.
            Safe-if _
              (Safe-bind (Safe-mem _)
                λ tp. Safe-bind (Safe-mem _) λ o. Safe-if _ (check_args-Safe tp tps) (Safe-halt _))
              (Safe-halt _)

      check_cases-Safe : (mtp : Ptr) (cs : List Ptr) → Safe (check_cases gmp f check mtp cs)
      unfolding check_cases
      check_cases-Safe mtp [] = Safe-pure _
      check_cases-Safe mtp (c ∷ cs) = Safe-bind (check_case-Safe c) λ tp.
          Safe-bind {A = Bool}
            (Safe-if (mtp == null) (Safe-pure true) (Safe-mem (defeq gmp f mtp tp)))
            λ same.
              Safe-if same (check_cases-Safe (if mtp == null then tp else mtp) cs) (Safe-halt _)

      check_match-Safe : (ks : List Ptr) → Safe (check_match gmp f check ks)
      unfolding check_match
      check_match-Safe [] = Safe-halt _
      check_match-Safe (e ∷ cs) =
          search (h, compute_kind-Safe, check_cases-Safe, safe_rules) depth 12

      check_node-Safe : (n : Node Z Q) → Safe (check_node gmp f check n)
      unfolding check_node
      check_node-Safe (int n) = Safe-pure _
      check_node-Safe (syms s v) = check_sym-Safe s
      check_node-Safe (cexp Op.app ks) = check_app-Safe ks
      check_node-Safe (cexp Op.let_ ks) = check_let-Safe ks
      check_node-Safe (cexp Op.add ks) = check_arith-Safe ks
      check_node-Safe (cexp Op.mul ks) = check_arith-Safe ks
      check_node-Safe (cexp Op.div ks) = check_arith-Safe ks
      check_node-Safe (cexp Op.neg ks) = check_neg-Safe ks
      check_node-Safe (cexp Op.mpz_to_mpq ks) = check_mpz_to_mpq-Safe ks
      check_node-Safe (cexp Op.ifneg ks) = check_if_number-Safe ks
      check_node-Safe (cexp Op.ifzero ks) = check_if_number-Safe ks
      check_node-Safe (cexp Op.fail ks) = check_fail-Safe ks
      check_node-Safe (cexp Op.markvar ks) = check_mark-Safe ks
      check_node-Safe (cexp Op.ifmarked ks) = check_if_marked-Safe ks
      check_node-Safe (cexp Op.compare ks) = check_compare-Safe ks
      check_node-Safe (cexp Op.ifequal ks) = check_if_equal-Safe ks
      check_node-Safe (cexp Op.match ks) = check_match-Safe ks
      check_node-Safe (cexp Op.do_ ks) = Safe-bind (h _) λ _. h _
      check_node-Safe (cexp o ks) = search safe_rules
      check_node-Safe n = search safe_rules

module _ {Z Q : Type 0} (gmp : Gmp Z Q) where
  pub check_code-Safe : (f : ℕ) (e : Ptr) → Safe (check_code gmp f e)
  unfolding check_code
  check_code-Safe zero e = Safe-halt _
  check_code-Safe (suc f) e = search (check_node-Safe f _ (check_code-Safe f) gmp, safe_rules)

  -- Checking a piece of code from a well-formed symbol table, if it ends with a type, leaves a
  -- well-formed table in which every name has the binding that it had before.
  pub check_code-SameSymbols :
      (f : ℕ) (e : Ptr) (s : Checker Z Q)
      → IsTrie unbound s.symbols
      → Ensures (λ _ t. SameSymbols s t) (check_code gmp f e s)
  check_code-SameSymbols f e s v = (check_code-Safe f e).run s v
