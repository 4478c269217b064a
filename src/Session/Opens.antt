-- ===== src/Session/Opens.antt =====
-- The rules for commands that bind names one after the other.
use lfsc.Common.{◌≡◌, refl, Bool, true, false, List, [], ◌∷◌, if◌then◌else◌}
use lfsc.Trie.{Key}
use lfsc.Heap.{Stop, Cmd, pure, halt, and_then}
use lfsc.Heap.Returns
use lfsc.Heap.Returns.{Ensures, ensures, stops}
use lfsc.Code.Symbols.{Binding}
use lfsc.Session.{Session, bind_symbol}
use lfsc.Session.Stable.{look, Valid, Stable}
use lfsc.Session.Scoped.{Pending, none_wait, one_waits, Pending-from, Opens, bind_symbol-Bound}

module _ {Z Q : Type 0} where
  -- The command runs where `id` hides `prev`, and its result says so first.
  pub record Under (id : Key) (prev : Binding) {A : Type 0} (olds : A → List (Key × Binding))
      (m : Cmd (Session Z Q) A) : Type 0 where
    pub run :
        (s : Session Z Q)
        → Valid s
        → Ensures
            (λ a t.
              Valid t
              × (l : List (Key × Binding)) × (olds a ≡ (id, prev) ∷ l)
              × Pending (look s) l (look t))
            (m s)

  module _ {A : Type 0} {olds : A → List (Key × Binding)} where
    pub Opens-pure : (a : A) → olds a ≡ [] → Opens {Z = Z} {Q = Q} olds (pure a)
    Opens-pure a e = record { run = λ s v. ensures (v, rw e (none_wait λ k. refl)) }

    pub Opens-halt : (e : Stop) → Opens {Z = Z} {Q = Q} olds (halt e)
    Opens-halt e = record { run = λ s v. stops }

    pub Opens-if :
        (b : Bool) {m n : Cmd (Session Z Q) A}
        → Opens olds m
        → Opens olds n
        → Opens olds (if b then m else n)
    Opens-if true p q = p
    Opens-if false p q = q

    module _ {C : Type 0} where
      pub Opens-step :
          {m : Cmd (Session Z Q) C} {k : C → Cmd (Session Z Q) A}
          → Stable m
          → ((c : C) → Opens olds (k c))
          → Opens olds (λ s. and_then (m s) k)
      Opens-step p q = record {
        run = λ s v.
            Returns.bind (p.run s v)
              λ c t h. Returns.mono ((q c).run t h.valid) λ a u w. (w.0, Pending-from w.1 h.agree);
      }

      pub Under-step :
          {id : Key} {prev : Binding} {m : Cmd (Session Z Q) C} {k : C → Cmd (Session Z Q) A}
          → Stable m
          → ((c : C) → Under id prev olds (k c))
          → Under id prev olds (λ s. and_then (m s) k)
      Under-step p q = record {
        run = λ s v. Returns.bind (p.run s v) λ c t h.
            Returns.mono ((q c).run t h.valid) λ a u w. (w.0, w.1, w.2, Pending-from w.3 h.agree);
      }

      -- The result of the command is passed on, without and with the name.
      pub Opens-map :
          {inner : C → List (Key × Binding)} {m : Cmd (Session Z Q) C} (g : C → A)
          → Opens inner m
          → ((c : C) → olds (g c) ≡ inner c)
          → Opens olds (λ s. and_then (m s) λ c. pure (g c))
      Opens-map g p e = record {
        run = λ s v. Returns.bind (p.run s v) λ c t w. ensures (w.0, rw (e c) w.1);
      }

      pub Under-map :
          {id : Key} {prev : Binding} {inner : C → List (Key × Binding)} {m : Cmd (Session Z Q) C}
          (g : C → A)
          → Opens inner m
          → ((c : C) → olds (g c) ≡ (id, prev) ∷ inner c)
          → Under id prev olds (λ s. and_then (m s) λ c. pure (g c))
      Under-map {inner} g p e = record {
        run = λ s v. Returns.bind (p.run s v) λ c t w. ensures (w.0, inner c, e c, w.1);
      }

    pub Opens-bind :
        (id : Key) (b : Binding) {k : Binding → Cmd (Session Z Q) A}
        → ((prev : Binding) → Under id prev olds (k prev))
        → Opens olds (λ s. and_then (bind_symbol id b s) k)
    Opens-bind id b q = record {
      run = λ s v.
          let r = bind_symbol-Bound s id b v in
          rw r.returns (
            Returns.mono ((q r.old).run r.after r.valid)
              λ a u w. (w.0, rw w.2 (one_waits b r.was r.now w.3)));
    }
