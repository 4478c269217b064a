-- ===== src/SccWriter/Nested/Matching.antt =====
-- MATCH of `write_code` keeps the depth in braces.
use lfsc.Common.{
  ℕ, suc, ◌+◌, ◌≡◌, refl, Bool, true, false, not, ◌||◌, Option, none, some, List, [], ◌∷◌, String,
  if◌then◌else◌,
}
use lfsc.Header.{is_case}
use lfsc.Heap.{Ptr, Cell, pure, fault, and_then, read, node, op_of, getop, nth}
use lfsc.Heap.Returns
use lfsc.Heap.Returns.{Ensures, ensures, stops}
use lfsc.SccWriter.{Text, lit, var, Source, Writer, no_opts, WriteCode}
use lfsc.SccWriter.Level.{levels, Plain, AllPlain, get_var_name-Plain, decimal-Plain, PlainRet}
use lfsc.SccWriter.Nested.{
  At, Writes, Level, Writes-pure, Writes-halt, Writes-bind, line-Writes, line-then, push_var-Level,
  get_program-Level, next_args-Level, new_expr-Names, look-Writes, look-Level,
}
use lfsc.SccWriter.Nested.Exprs.{
  Clauses, last, more, IsSource, names-Plain, sym_name-Writes, KeepsLevel, write_expr-Names,
  write_args-Writes, write_dec-Level, write_decs-Level,
}
use lfsc.Expr.{behind}
use lfsc.SccWriter.Matching.{
  otherwise, first_of, rest_of, write_vars, write_default, write_case, write_cases, write_no_match,
  write_match,
}
use lfsc.SccWriter.Nested.Apps.{name_at-Plain}

-- The depth in front of a case: the first stands at the depth `a`, and another in the one before.
abbrev entry : Bool → ℕ → ℕ
entry true a = a
entry false a = suc a

module _ {Z Q : Type 0} (src : Source Z Q) (v : IsSource src) where
  module _ (f : ℕ) (rec : WriteCode) (h : KeepsLevel rec) where
    write_vars-Level :
        (a : ℕ) (expr : Text) (b : ℕ) (ps : List Ptr) (ind : ℕ)
        → Plain expr
        → Level a (write_vars src f rec expr b ps ind)
    unfolding write_vars
    write_vars-Level a expr b [] ind p = Writes-pure a _ tt tt
    write_vars-Level a expr b (q ∷ ps) ind p = Writes-bind (sym_name-Writes src v a q) λ s c.
        line-then _ _ _ refl (get_var_name-Plain s c, (p, (decimal-Plain (b + 1), tt)))
          (Writes-bind (push_var-Level a s) λ _ _. write_vars-Level a expr (b + 1) ps ind p)

    opening :
        (first : Bool) (a : ℕ) (one next : String)
        → levels (some a) (lit one ∷ []) ≡ some (suc a)
        → levels (some (suc a)) (lit next ∷ []) ≡ some (suc a)
        → levels (some (entry first a)) (lit (otherwise first one next) ∷ []) ≡ some (suc a)
    opening true a one next p q = p
    opening false a one next p q = q

    write_default-Writes :
        (first : Bool) (a : ℕ) (k : Ptr) (ind : ℕ) (ret : Option Text)
        → PlainRet ret
        → Writes (entry first a) a (λ _. Unit {0}) (write_default src f rec first k ind ret)
    unfolding write_default
    write_default-Writes first a k ind ret w =
        line-then _ _ _ (opening first a "{" "}else{" refl refl) tt
          (Writes-bind (h (suc a) k _ ret no_opts w) λ _ _. line-Writes _ _ refl tt)

    case_line :
        (first : Bool) (a : ℕ) (hd arg : Text)
        → levels (some (entry first a)) (
            lit (otherwise first "if( " "}else if( ")
            ∷ var hd
            ∷ lit "=="
            ∷ var arg
            ∷ lit " ){"
            ∷ [])
          ≡ some (suc a)
    case_line true a hd arg = refl
    case_line false a hd arg = refl

    write_case-Writes :
        (first : Bool) (a : ℕ) (expr hd : Text) (arg : Option Text) (k : Ptr) (ind : ℕ)
        (ret : Option Text)
        → Plain expr
        → Plain hd
        → PlainRet arg
        → PlainRet ret
        → Writes
            (entry first a)
            (suc a)
            (λ _. Unit {0})
            (write_case src f rec first expr hd arg k ind ret)
    unfolding write_case
    write_case-Writes first a expr hd none k ind ret p q r w = Writes-halt _ _ _ fault
    write_case-Writes first a expr hd (some arg) k ind ret p q r w =
        line-then _ _ _ (case_line first a hd arg) (q, (r, tt))
          (Writes-bind (next_args-Level (suc a)) λ _ _.
            Writes-bind (look-Level src (suc a) _) λ ks _.
              Writes-bind (look-Level src (suc a) _) λ vars _.
                Writes-bind (write_vars-Level (suc a) expr 0 vars.0 (ind + 1) p)
                  λ _ _. h (suc a) k (ind + 1) ret _ w)

    first_of-Plain : (args : List Text) → AllPlain args → PlainRet (first_of args)
    first_of-Plain [] p = tt
    first_of-Plain (e ∷ es) p = p.0

    rest_of-Plain : (args : List Text) → AllPlain args → AllPlain (rest_of args)
    rest_of-Plain [] p = tt
    rest_of-Plain (e ∷ es) p = p.1

    -- A match ends at the depth `a` behind a default, and else in its last case.
    abbrev Ends : ℕ → Bool → Writer → Type 0
    Ends a found t = At (if found then a else suc a) t

    module _ (a : ℕ) (expr hd : Text) (ind : ℕ) (ret : Option Text) (p : Plain expr) (q : Plain hd)
        (w : PlainRet ret) where
      -- The last case or the default.
      last_clause :
          (b first : Bool) (args : List Text) (k : Ptr) (s : Writer)
          → AllPlain args
          → At (entry first a) s
          → Ensures (Ends a) (
              and_then
                ((if b
                    then write_case src f rec first expr hd (first_of args) k ind ret
                    else write_default src f rec first k ind ret)
                  s)
                λ _ t.
                  and_then
                    (write_cases src f rec false expr hd (rest_of args) [] ind ret t)
                    λ found. pure (not b || found))
      unfolding write_cases
      last_clause true first args k s r g =
          Returns.bind
            ((write_case-Writes first a expr hd (first_of args) k ind ret p q
                (first_of-Plain args r) w).run
              s g)
            λ _ t z. ensures z.1
      last_clause false first args k s r g =
          Returns.bind ((write_default-Writes first a k ind ret w).run s g) λ _ t z. ensures z.1

      case_op :
          (k : Ptr) (c : Cell Z Q)
          → src.heap.cell k ≡ some c
          → is_case (op_of c.node) ≡ true
          → Ensures (λ o _. is_case o ≡ true) (getop k src.heap)
      unfolding getop node read
      case_op k c e i = rw (getop, node, read, e) (ensures i)

      write_cases-Ends :
          (first : Bool) (args : List Text) (ks : List Ptr) (s : Writer)
          → Clauses src.heap ks
          → AllPlain args
          → At (entry first a) s
          → Ensures (Ends a) (write_cases src f rec first expr hd args ks ind ret s)
      unfolding write_cases
      write_cases-Ends first args [] s m r g = elim m [ ]
      write_cases-Ends first args (k ∷ []) s (last _) r g =
          Returns.bind ((look-Level src (entry first a) (getop k)).run s g)
            λ o t z. last_clause (is_case o) first args k t r z.1
      write_cases-Ends first args (k ∷ ks) s (more _ c e i m) r g =
          Returns.bind ((look-Writes src (entry first a) (getop k) _ (case_op k c e i)).run s g)
            λ o t z. rw z.0 (
              Returns.bind
                ((write_case-Writes first a expr hd (first_of args) k ind ret p q
                    (first_of-Plain args r) w).run
                  t z.1)
                λ _ u y.
                  Returns.bind
                    (write_cases-Ends false (rest_of args) ks u m (rest_of-Plain args r) y.1)
                    λ found t' x. ensures x)

      write_no_match-Writes : Writes (suc a) a (λ _. Unit {0}) (write_no_match src f rec hd ind)
      unfolding write_no_match
      write_no_match-Writes = Writes-bind (get_program-Level (suc a)) λ i _.
          line-then _ _ _ refl tt (
            line-then _ _ _ refl (name_at-Plain src.prog_names i (names-Plain src v), tt)
              (line-then _ _ _ refl (q, tt)
                (line-then _ _ _ refl tt (line-then _ _ _ refl tt (line-Writes _ _ refl tt)))))

      -- What stands behind the cases.
      end_match :
          (found : Bool) (s : Writer)
          → Ends a found s
          → Ensures
              (λ _ t. Unit {0} × At a t)
              ((if found then pure tt else write_no_match src f rec hd ind) s)
      end_match true s g = ensures (tt, g)
      end_match false s g = write_no_match-Writes.run s g

    pub write_match-Level :
        (a : ℕ) (ks : List Ptr) (ind : ℕ) (ret : Option Text)
        → Clauses src.heap (behind ks)
        → PlainRet ret
        → Level a (write_match src f rec ks ind ret)
    unfolding write_match
    write_match-Level a ks ind ret m w =
        Writes-bind (write_expr-Names src v rec h a (nth ks 0) ind no_opts) λ expr p.
          Writes-bind (new_expr-Names a) λ hd q.
            line-then _ _ _ refl (q, (p, tt))
              (Writes-bind (write_args-Writes src v rec h a (behind ks) false ind no_opts) λ args r.
                record {
                  run = λ s g.
                      Returns.bind
                        (write_cases-Ends a expr hd ind ret p q w true args (behind ks) s m r g)
                        λ found t z.
                          Returns.bind (end_match a expr hd ind ret p q w found t z) λ _ u y.
                            (Writes-bind (write_dec-Level a ind expr p)
                                λ _ _. write_decs-Level a ind args r).run
                              u y.1;
                })
