-- ===== src/File/Names.antt =====
-- New names: what adds a name to the table that had no binding, and changes nothing else there.
pub mod Commands
pub mod Definition
use lfsc.Common.{
  ℕ, ◌+◌, Bool, true, false, ◌&&◌, not, ◌≡◌, refl, sym, ap, ◌∙◌, Option, none, some, List, [], ◌∷◌,
  ◌==◌, if◌then◌else◌, list_eq, get_or, arith, subst, ==_refl,
}
use lfsc.Trie.{Key}
use lfsc.Heap
use lfsc.Heap.{
  Ptr, null, put, Node, int, rat, hole, syms, cexp, Cell, Heap, Cmd, read, write, alloc, set_val,
  val_of, report_error, and_then, Outcome, ok, stop,
}
use lfsc.Heap.Returns
use lfsc.Heap.Returns.{Ensures, ensures, stops, finishes, Gives}
use lfsc.Lexer.{Token}
use lfsc.Code.Symbols
use lfsc.Code.Symbols.{Binding, unbound, Checker}
use lfsc.Session.{Session, Config, require, bind_symbol, new_sym, mem, typed}
use lfsc.Session.Stable.{
  look, Valid, Has, Stable, Stable-pure, Stable-gets, Stable-if, Stable-scan, Stable-mem,
  Stable-bind,
}
use lfsc.Session.Scoped.{
  Pending, Pending-agree, Opens, Closes, Stable-Opens, restore-Closes, Bound, bind_symbol-Bound,
}
use lfsc.Read.Stable.{require-Stable, new_sym-Stable}
use lfsc.Term.{Ask, insert_and_bind, reduce_def}
use lfsc.Term.Stable.{IsLocal, creates, inside, eat_excess-Stable, stored-Stable, head_op-Stable}
use lfsc.Term.Stable.Decls.{check_decl_list-Opens, build_validate_pi-Stable, build_macro-Stable}
use lfsc.Term.Stable.Types.{check-Stable}
use lfsc.File.{
  not_bound, new_binding, new_definition, check_top, define, declare, declare_rule, declare_type,
  define_const, command,
}

-- A binding with nothing in it.
not_bound-eq : (b : Binding) → not_bound b ≡ true → b ≡ unbound
not_bound-eq (p, q) e = grind arith

module _ {Z Q : Type 0} where
  -- The table with the bindings `B` and one more, of the name `id`, that had none. `Is` says what
  -- the new binding is, in memory as it then is.
  pub record NewName (id : Key) (Is : Heap Z Q → Binding → Type 0) (B : Key → Option Binding)
      (t : Session Z Q) : Type 0 where
    pub valid : Valid t
    pub binding : Binding
    pub was : B id ≡ some unbound
    pub now : (k : Key) → look t k ≡ (if list_eq id k then some binding else B k)
    pub is_a : Is t.checker.heap binding

  -- A new symbol with that name and without a value, and its type.
  abbrev pub IsDeclared : Key → (Ptr → Type 0) → Heap Z Q → Binding → Type 0
  IsDeclared id IsOfType h b =
      (h.cell b.0 ≡ some (record { count = 1; mark = false; node = syms id null })) × IsOfType b.1

  -- A symbol whose value is the term, reduced if it is an application, and the type `tp`.
  abbrev pub IsDefined : ℕ → Ptr → Ptr → Heap Z Q → Binding → Type 0
  IsDefined f e tp h b =
      (c : Cell Z Q) × (h.cell b.0 ≡ some c)
      × Gives {S = Heap Z Q} (reduce_def f e) (val_of c.node)
      × (b.1 ≡ tp)

  module _ (id : Key) (Is : Heap Z Q → Binding → Type 0) where
    pub record Adds {A : Type 0} (m : Cmd (Session Z Q) A) : Type 0 where
      pub run : (s : Session Z Q) → Valid s → Ensures (λ _ t. NewName id Is (look s) t) (m s)

    -- The command puts the bindings `l` back and adds a name.
    pub record ClosesAdds (l : List (Key × Binding)) {A : Type 0} (m : Cmd (Session Z Q) A)
        : Type 0 where
      pub run :
          (B : Key → Option Binding) (s : Session Z Q)
          → Valid s
          → Pending B l (look s)
          → Ensures (λ _ t. NewName id Is B t) (m s)

    pub NewName-from :
        {B D : Key → Option Binding} {t : Session Z Q}
        → ((k : Key) → D k ≡ B k)
        → NewName id Is D t
        → NewName id Is B t
    NewName-from e n = record {
      valid = n.valid;
      binding = n.binding;
      was = sym (e id) ∙ n.was;
      now = λ k. n.now k ∙ rw (e k);
      is_a = n.is_a;
    }

    module _ {A C : Type 0} {m : Cmd (Session Z Q) A} {k : A → Cmd (Session Z Q) C} where
      pub Adds-step : Stable m → ((a : A) → Gives m a → Adds (k a)) → Adds (λ s. and_then (m s) k)
      Adds-step p q = record {
        run = λ s v. Returns.bind_eq (p.run s v) λ a t e h.
            Returns.mono ((q a (s, t, e)).run t h.valid) (λ _ u n. NewName-from h.agree n);
      }

      pub ClosesAdds-step :
          {l : List (Key × Binding)}
          → Stable m
          → ((a : A) → Gives m a → ClosesAdds l (k a))
          → ClosesAdds l (λ s. and_then (m s) k)
      ClosesAdds-step p q = record {
        run = λ B s v w.
            Returns.bind_eq (p.run s v)
              λ a t e h. (q a (s, t, e)).run B t h.valid (Pending-agree w h.agree);
      }

      pub ClosesAdds-then :
          {l : List (Key × Binding)}
          → Closes l m
          → ((a : A) → Adds (k a))
          → ClosesAdds l (λ s. and_then (m s) k)
      ClosesAdds-then p q = record {
        run = λ B s v w.
            Returns.bind (p.run B s v w)
              λ a t h. Returns.mono ((q a).run t h.valid) (λ _ u n. NewName-from h.agree n);
      }

      pub Adds-Opens :
          {olds : A → List (Key × Binding)}
          → Opens olds m
          → ((a : A) → Gives m a → ClosesAdds (olds a) (k a))
          → Adds (λ s. and_then (m s) k)
      Adds-Opens p q = record {
        run = λ s v. Returns.bind_eq (p.run s v) λ a t e w. (q a (s, t, e)).run (look s) t w.0 w.1;
      }

    required :
        {s : Session Z Q} {b : Binding} (r : Bound s id b) (c : Bool)
        → not_bound r.old ≡ c
        → Is s.checker.heap b
        → Ensures (λ _ t. NewName id Is (look s) t) (require c r.after)
    unfolding require
    required r false e i = stops
    required {b} r true e i = ensures (record {
      valid = r.valid;
      binding = b;
      was = r.was ∙ ap some (not_bound-eq r.old e);
      now = r.now;
      is_a = subst (λ h. Is h b) (sym r.memory) i;
    })

    -- A binding that hides nothing.
    pub bind_new :
        (b : Binding) (s : Session Z Q)
        → Valid s
        → Is s.checker.heap b
        → Ensures
            (λ _ t. NewName id Is (look s) t)
            (and_then (bind_symbol id b s) λ prev. require (not_bound prev))
    bind_new b s v i = let r = bind_symbol-Bound s id b v in rw r.returns (required r _ refl i)

  pub Adds-mono :
      (id : Key) {Is Is' : Heap Z Q → Binding → Type 0} {A : Type 0} {m : Cmd (Session Z Q) A}
      → Adds id Is m
      → ((h : Heap Z Q) (b : Binding) → Is h b → Is' h b)
      → Adds id Is' m
  Adds-mono id p weaken = record {
    run = λ s v. Returns.mono (p.run s v) λ _ t n. record {
      valid = n.valid;
      binding = n.binding;
      was = n.was;
      now = n.now;
      is_a = weaken _ _ n.is_a;
    };
  }

  pub new_binding-Adds :
      (id : Key) (tp : Ptr) (IsOfType : Ptr → Type 0)
      → IsOfType tp
      → Adds id (IsDeclared id IsOfType) (new_binding id tp)
  unfolding new_binding new_sym mem typed Symbols.mem alloc
  new_binding-Adds id tp IsOfType i = record {
    run = λ s v.
        bind_new id (IsDeclared id IsOfType) (s.checker.heap.next, tp) _ v
          (rw (==_refl s.checker.heap.next), i);
  }

module _ {Z Q : Type 0} where
  rebind :
      (id : Key) (new b : Binding) (s : Session Z Q)
      → Valid s
      → look s id ≡ some b
      → not_bound b ≡ false
      → and_then (bind_symbol id new s) (λ prev. require (not_bound prev)) ≡ stop report_error
  unfolding require
  rebind id new b s v e n =
      let r = bind_symbol-Bound s id new v in
      let same : r.old ≡ b = ap (λ o. get_or o b) (sym r.was ∙ e) in
      rw (r.returns, same, require, n)

  -- Declaring a name that has a binding ends with an error.
  pub new_binding-error :
      (id : Key) (tp : Ptr) (b : Binding) (s : Session Z Q)
      → Valid s
      → look s id ≡ some b
      → not_bound b ≡ false
      → new_binding id tp s ≡ stop report_error
  unfolding new_binding new_sym mem typed Symbols.mem alloc
  new_binding-error id tp b s v e n = rebind id _ b _ v e n
