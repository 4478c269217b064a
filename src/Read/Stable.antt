-- ===== src/Read/Stable.antt =====
-- Reading code undoes each binding that it makes.
use lfsc.Common.{ℕ, zero, suc, Bool, Option, none, some, List, [], ◌∷◌, refl}
use lfsc.Header.{Op}
use lfsc.Gmp.{Gmp}
use lfsc.Trie.{Key}
use lfsc.Heap.{Ptr, null, Node, int, rat, halt, ok, alloc, report_error}
use lfsc.Heap.Returns.{Ensures, ensures}
use lfsc.Lexer.{Token}
use lfsc.Code.Symbols.{get_symbol}
use lfsc.Code.Symbols.Safe.{Safe-get_symbol}
use lfsc.Session.{Session, require, new_sym, get_prog, typed, mem, lookup_prog}
use lfsc.Session.Stable.{
  look, Has, Valid, Stable, Stable-pure, Stable-halt, Stable-if, Stable-scan, Stable-typed,
  Stable-mem, Stable-bind, stable_rules,
}
use lfsc.Session.Scoped.{
  Opens, Closes-step, Closes-then, Stable-Opens, restore-Closes, bind_symbol-Opens,
  bind_symbol-Closes,
}
use lfsc.Session.Opens.{
  Opens-pure, Opens-halt, Opens-if, Opens-step, Opens-bind, Under-step, Under-map,
}
use lfsc.Read.{
  Reader, new_cexpr, apply_to, read_ctor, read_vars, read_pattern, read_case, read_seq, read_cases,
  read_let, read_times, read_op, mark_index, has_mark,
}
use lfsc.Read.Code.{
  read_do, read_match, read_args, prog_first, symbol_first, read_app, read_ident, read_natural,
  read_rational, read_tilde, read_if_marked, read_mark_var, read_open, read_token, read_code,
}

module _ {Z Q : Type 0} where
  pub require-Stable : (b : Bool) → Stable (require {Z = Z} {Q = Q} b)
  unfolding require
  require-Stable b = search stable_rules

  pub get_symbol-Stable : (k : Key) → Stable (typed (get_symbol {Z = Z} {Q = Q} k))
  get_symbol-Stable k = Stable-typed (Safe-get_symbol k)

  pub new_sym-Stable : (k : Key) → Stable (new_sym {Z = Z} {Q = Q} k)
  unfolding new_sym
  new_sym-Stable k = Stable-mem _

  get_prog_run :
      (k : Key) (s : Session Z Q) (o : Option Ptr)
      → Valid s
      → Ensures {A = Ptr}
          (λ _ t. Has (look s) t)
          (elim o [ some p ↦ ok p s | none ↦ ok null (record s { progs = (k, null) ∷ s.progs }) ])
  get_prog_run k s none v = ensures (record { valid = v; agree = λ j. refl })
  get_prog_run k s (some p) v = ensures (record { valid = v; agree = λ j. refl })

  pub get_prog-Stable : (k : Key) → Stable (get_prog {Z = Z} {Q = Q} k)
  unfolding get_prog
  get_prog-Stable k = record { run = λ s v. get_prog_run k s (lookup_prog k s.progs) v }

  new_cexpr-Stable : (o : Op) (ks : List Ptr) → Stable (new_cexpr {Z = Z} {Q = Q} o ks)
  unfolding new_cexpr
  new_cexpr-Stable o ks = Stable-mem _

  pub apply_to-Stable : (f : ℕ) (e a : Ptr) → Stable (apply_to {Z = Z} {Q = Q} f e a)
  unfolding apply_to
  apply_to-Stable f e a = Stable-mem _

  ruleset read_rules = (
    stable_rules, require-Stable, get_symbol-Stable, new_sym-Stable, get_prog-Stable,
    new_cexpr-Stable, apply_to-Stable,
  )

  read_ctor-Stable : Stable (read_ctor {Z = Z} {Q = Q})
  unfolding read_ctor
  read_ctor-Stable = search read_rules depth 14

  module _ (f : ℕ) where
    read_vars-Opens : (g : ℕ) (pat : Ptr) → Opens (λ r. r.1) (read_vars {Z = Z} {Q = Q} f g pat)
    unfolding read_vars
    read_vars-Opens zero pat = Opens-halt _
    read_vars-Opens (suc g) pat = Opens-step (Stable-scan _) λ c. Opens-if _ (Opens-pure _ refl) (
        Opens-step (Stable-scan _) λ _. Opens-step (Stable-scan _) λ id.
          Opens-step (require-Stable _) λ _. Opens-step (new_sym-Stable id) λ v.
            Opens-bind id _ λ prev.
              Under-step (apply_to-Stable f pat v)
                λ pat'. Under-map (λ r. (r.0, (id, prev) ∷ r.1)) (read_vars-Opens g pat') λ r. refl)

    read_pattern-Opens : (d : Token) → Opens (λ r. r.1) (read_pattern {Z = Z} {Q = Q} f d)
    unfolding read_pattern
    read_pattern-Opens Token.open_ =
        Opens-step read_ctor-Stable λ pat. Opens-step (require-Stable _) λ _. read_vars-Opens f pat
    read_pattern-Opens Token.eof = Opens-halt _
    read_pattern-Opens d =
        Opens-step (Stable-scan _) λ _. Opens-step read_ctor-Stable λ pat. Opens-pure _ refl

  -- The literal that a text stands for.
  literal-Stable :
      {N : Type 0} (make : N → Node Z Q) (o : Option N)
      → Stable {Z = Z} {Q = Q} {A = Ptr}
          (elim o [ none ↦ halt report_error | some n ↦ mem (alloc (make n)) ])
  literal-Stable make none = Stable-halt _
  literal-Stable make (some n) = Stable-mem _

  module _ (gmp : Gmp Z Q) where
    pub read_natural-Stable : Stable (read_natural gmp)
    unfolding read_natural
    read_natural-Stable =
        Stable-bind (Stable-scan _) λ text. literal-Stable int (gmp.mpz_set_str text)

    pub read_rational-Stable : Stable (read_rational gmp)
    unfolding read_rational
    read_rational-Stable =
        Stable-bind (Stable-scan _) λ text. literal-Stable rat (gmp.mpq_set_str text)

  module _ (f : ℕ) (rec : Reader Z Q) (h : Stable rec) where
    read_case-Stable : Stable (read_case f rec)
    unfolding read_case
    read_case-Stable = Stable-bind (Stable-scan _) λ _. Stable-bind (Stable-scan _) λ d.
        Stable-Opens (read_pattern-Opens f d) λ p. Closes-step h λ body.
          Closes-step (Stable-if _ (Stable-pure body) (new_cexpr-Stable _ _))
            λ ret. Closes-then (restore-Closes p.1) λ _. search stable_rules

    read_seq-Stable : (g : ℕ) (ret : Ptr) → Stable (read_seq rec g ret)
    unfolding read_seq
    read_seq-Stable zero ret = Stable-halt _
    read_seq-Stable (suc g) ret = Stable-bind (Stable-scan _) λ c. Stable-if _ (Stable-pure _) (
        Stable-bind (Stable-scan _)
          λ _. Stable-bind h λ e. Stable-bind (new_cexpr-Stable _ _) λ r. read_seq-Stable g r)

    read_cases-Stable : (g : ℕ) → Stable (read_cases f rec g)
    unfolding read_cases
    read_cases-Stable zero = Stable-halt _
    read_cases-Stable (suc g) = Stable-bind (Stable-scan _) λ c. Stable-if _ (Stable-pure _) (
        Stable-bind (Stable-scan _) λ _.
          Stable-bind read_case-Stable λ e. Stable-bind (read_cases-Stable g) λ es. Stable-pure _)

    read_let-Stable : Stable (read_let rec)
    unfolding read_let
    read_let-Stable = Stable-bind (Stable-scan _) λ id. Stable-bind (new_sym-Stable id) λ var.
        Stable-bind h λ t₁. Stable-Opens (bind_symbol-Opens id _) λ prev.
          Closes-step h λ t₂. Closes-then (bind_symbol-Closes id prev) λ _. search read_rules

    read_times-Stable : (n : ℕ) → Stable (read_times rec n)
    unfolding read_times
    read_times-Stable zero = Stable-pure _
    read_times-Stable (suc n) = search (h, read_times-Stable n, stable_rules)

    read_op-Stable : (o : Op) (n : ℕ) → Stable (read_op rec o n)
    unfolding read_op
    read_op-Stable o n = search (read_times-Stable, read_rules) depth 12

    read_do-Stable : Stable (read_do f rec)
    unfolding read_do
    read_do-Stable = search (h, read_seq-Stable, stable_rules)

    read_match-Stable : Stable (read_match f rec)
    unfolding read_match
    read_match-Stable = Stable-bind h λ e.
        Stable-bind (read_cases-Stable f)
          (elim [ [] ↦ Stable-halt _ | c ∷ cs ↦ new_cexpr-Stable _ _ ])

    read_args-Stable : (g : ℕ) (ret : Ptr) → Stable (read_args f rec g ret)
    unfolding read_args
    read_args-Stable zero ret = Stable-halt _
    read_args-Stable (suc g) ret = Stable-bind (Stable-scan _) λ c. Stable-if _ (Stable-pure _) (
        Stable-bind (Stable-scan _)
          λ _. Stable-bind h λ e. Stable-bind (apply_to-Stable _ _ _) λ r. read_args-Stable g r)

    prog_first-Stable : (k : Key) → Stable (prog_first {Z = Z} {Q = Q} k)
    unfolding prog_first
    prog_first-Stable k = search read_rules

    symbol_first-Stable : (k : Key) → Stable (symbol_first {Z = Z} {Q = Q} k)
    unfolding symbol_first
    symbol_first-Stable k = search read_rules

    read_app-Stable : Stable (read_app f rec)
    unfolding read_app
    read_app-Stable = search (prog_first-Stable, read_args-Stable, read_rules) depth 12

    read_ident-Stable : Stable (read_ident {Z = Z} {Q = Q})
    unfolding read_ident
    read_ident-Stable = search (symbol_first-Stable, read_rules) depth 12

    module _ (gmp : Gmp Z Q) where
      read_tilde-Stable : Stable (read_tilde gmp rec)
      unfolding read_tilde
      read_tilde-Stable =
          Stable-bind h
            λ e. Stable-bind (Stable-mem _) λ _. Stable-bind (Stable-scan _) λ _. Stable-pure _

      read_if_marked-Stable : Stable (read_if_marked gmp rec)
      unfolding read_if_marked
      read_if_marked-Stable = Stable-bind (Stable-scan _) λ text.
          Stable-bind (read_times-Stable 3) λ es.
            Stable-bind
              (Stable-if (has_mark (mark_index 8 text))
                (Stable-bind (Stable-mem _) λ i. new_cexpr-Stable _ _) (Stable-pure null))
              λ ret. Stable-bind (Stable-scan _) λ _. Stable-pure _

      read_mark_var-Stable : Stable (read_mark_var gmp rec)
      unfolding read_mark_var
      read_mark_var-Stable = Stable-bind (Stable-scan _) λ text.
          Stable-bind
            (Stable-if (has_mark (mark_index 7 text))
              (Stable-bind (Stable-mem _) λ i. Stable-bind h λ e. new_cexpr-Stable _ _)
              (Stable-pure null))
            λ ret. Stable-bind (Stable-scan _) λ _. Stable-pure _

      read_open-Stable : (c : Token) → Stable (read_open gmp f rec c)
      unfolding read_open
      read_open-Stable Token.do_ = read_do-Stable
      read_open-Stable Token.fail = read_op-Stable _ _
      read_open-Stable Token.at = read_let-Stable
      read_open-Stable Token.if_marked = read_if_marked-Stable
      read_open-Stable Token.if_equal = read_op-Stable _ _
      read_open-Stable Token.match = read_match-Stable
      read_open-Stable Token.mark_var = read_mark_var-Stable
      read_open-Stable Token.mp_add = read_op-Stable _ _
      read_open-Stable Token.mp_mul = read_op-Stable _ _
      read_open-Stable Token.mp_div = read_op-Stable _ _
      read_open-Stable Token.mp_neg = read_op-Stable _ _
      read_open-Stable Token.mpz_to_mpq = read_op-Stable _ _
      read_open-Stable Token.mp_if_neg = read_op-Stable _ _
      read_open-Stable Token.mp_if_zero = read_op-Stable _ _
      read_open-Stable Token.tilde = read_tilde-Stable
      read_open-Stable Token.compare = read_op-Stable _ _
      read_open-Stable Token.eof = Stable-halt _
      read_open-Stable c = read_app-Stable

      read_token-Stable : (d : Token) → Stable (read_token gmp f rec d)
      unfolding read_token
      read_token-Stable Token.open_ = Stable-bind (Stable-scan _) read_open-Stable
      read_token-Stable Token.natural = read_natural-Stable gmp
      read_token-Stable Token.rational = read_rational-Stable gmp
      read_token-Stable Token.eof = Stable-halt _
      read_token-Stable d = read_ident-Stable

module _ {Z Q : Type 0} (gmp : Gmp Z Q) where
  pub read_code-Stable : (f : ℕ) → Stable (read_code gmp f)
  unfolding read_code
  read_code-Stable zero = Stable-halt _
  read_code-Stable (suc f) =
      Stable-bind (Stable-scan _) (read_token-Stable f _ (read_code-Stable f) gmp)

  -- Reading a piece of code from a well-formed symbol table, if it ends with an expression, leaves
  -- a well-formed table in which every name has the binding that it had before.
  pub read_code-Has :
      (f : ℕ) (s : Session Z Q) → Valid s → Ensures (λ _ t. Has (look s) t) (read_code gmp f s)
  read_code-Has f = (read_code-Stable f).run
