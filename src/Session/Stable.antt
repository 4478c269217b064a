-- ===== src/Session/Stable.antt =====
-- Commands of a session that leave every name with the binding that it had, and the rules by which
-- they are put together. Within a scope, the bindings that it hides wait to be put back.
use lfsc.Common.{◌≡◌, refl, ◌∙◌, Bool, true, false, Option, if◌then◌else◌}
use lfsc.Trie.{Key, get}
use lfsc.Trie.Find.{IsTrie}
use lfsc.Heap.{Heap, Stop, Outcome, ok, stop, Cmd, pure, halt, and_then}
use lfsc.Heap.Returns
use lfsc.Heap.Returns.{Ensures, ensures, stops}
use lfsc.Lexer.{Lexer}
use lfsc.Code.Symbols.{Binding, unbound, Checker}
use lfsc.Code.Symbols.Safe.{SameSymbols, Safe, Safe-mem}
use lfsc.Session.{Session, gets, modify, scan, typed, mem}

module _ {Z Q : Type 0} where
  -- The bindings of a session.
  abbrev pub look : Session Z Q → Key → Option Binding
  look s = get unbound s.checker.symbols

  abbrev pub Valid : Session Z Q → Type 0
  Valid s = IsTrie unbound s.checker.symbols

  -- A well-formed table with the bindings `B`.
  pub record Has (B : Key → Option Binding) (t : Session Z Q) : Type 0 where
    pub valid : Valid t
    pub agree : (k : Key) → look t k ≡ B k

  pub record Stable {A : Type 0} (m : Cmd (Session Z Q) A) : Type 0 where
    pub run : (s : Session Z Q) → Valid s → Ensures (λ _ t. Has (look s) t) (m s)

  pub Has-trans :
      {B : Key → Option Binding} {t u : Session Z Q} → Has B t → Has (look t) u → Has B u
  Has-trans a b = record { valid = b.valid; agree = λ k. b.agree k ∙ a.agree k }

  module _ {A : Type 0} where
    pub Stable-pure : (a : A) → Stable (pure a)
    Stable-pure a = record { run = λ s v. ensures (record { valid = v; agree = λ k. refl }) }

    pub Stable-halt : (e : Stop) → Stable {A = A} (halt e)
    Stable-halt e = record { run = λ s v. stops }

    pub Stable-gets : (f : Session Z Q → A) → Stable (gets f)
    unfolding gets
    Stable-gets f = record { run = λ s v. ensures (record { valid = v; agree = λ k. refl }) }

    pub Stable-if :
        (b : Bool) {m n : Cmd (Session Z Q) A} → Stable m → Stable n → Stable (if b then m else n)
    Stable-if true p q = p
    Stable-if false p q = q

    Stable-scan_run :
        (s : Session Z Q) (r : Outcome Lexer A)
        → Valid s
        → Ensures {A = A}
            (λ _ t. Has (look s) t)
            (elim r [ ok a l ↦ ok a (record s { lexer = l }) | stop e ↦ stop e ])
    Stable-scan_run s (ok a l) v = ensures (record { valid = v; agree = λ k. refl })
    Stable-scan_run s (stop e) v = stops

    pub Stable-scan : (m : Cmd Lexer A) → Stable (scan m)
    unfolding scan
    Stable-scan m = record { run = λ s v. Stable-scan_run s (m s.lexer) v }

    Stable-typed_run :
        (s : Session Z Q) (r : Outcome (Checker Z Q) A)
        → Ensures (λ _ c. SameSymbols s.checker c) r
        → Ensures {A = A}
            (λ _ t. Has (look s) t)
            (elim r [ ok a c ↦ ok a (record s { checker = c }) | stop e ↦ stop e ])
    Stable-typed_run s (ok a c) (ensures p) = ensures (record { valid = p.valid; agree = p.agree })
    Stable-typed_run s (stop e) stops = stops

    pub Stable-typed : {m : Cmd (Checker Z Q) A} → Safe m → Stable (typed m)
    unfolding typed
    Stable-typed {m} p = record {
      run = λ s v. Stable-typed_run s (m s.checker) (p.run s.checker v);
    }

    pub Stable-mem : (m : Cmd (Heap Z Q) A) → Stable (mem m)
    unfolding mem
    Stable-mem m = Stable-typed (Safe-mem m)

  pub Stable-modify :
      (g : Session Z Q → Session Z Q)
      → ((s : Session Z Q) → (g s).checker ≡ s.checker)
      → Stable (modify g)
  unfolding modify
  Stable-modify g e = record {
    run = λ s v. ensures (record { valid = rw (e s) v; agree = λ k. rw (e s) });
  }

  module _ {A B : Type 0} where
    pub Stable-and_then :
        {D : Key → Option Binding} {r : Outcome (Session Z Q) A} {k : A → Cmd (Session Z Q) B}
        → Ensures (λ _ t. Has D t) r
        → ((a : A) → Stable (k a))
        → Ensures (λ _ t. Has D t) (and_then r k)
    Stable-and_then stops q = stops
    Stable-and_then (ensures {a} {s = t} p) q =
        Returns.mono ((q a).run t p.valid) (λ b u w. Has-trans p w)

    pub Stable-bind :
        {m : Cmd (Session Z Q) A} {k : A → Cmd (Session Z Q) B}
        → Stable m
        → ((a : A) → Stable (k a))
        → Stable (λ s. and_then (m s) k)
    Stable-bind p q = record { run = λ s v. Stable-and_then (p.run s v) q }

pub ruleset stable_rules =
    (Stable-pure, Stable-halt, Stable-gets, Stable-if, Stable-scan, Stable-mem, Stable-bind)
