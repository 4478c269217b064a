-- ===== src/Heap/Returns.antt =====
-- What a command ensures if it ends: a postcondition of its result and of the state.
use lfsc.Common.{◌≡◌, refl, subst, Bool, true, false, if◌then◌else◌}
use lfsc.Heap.{Stop, Outcome, ok, stop, Cmd, and_then}

pub data Ensures {S A : Type 0} (P : A → S → Type 0) : Outcome S A → Type 0 where
  ensures : {a : A} {s : S} → P a s → Ensures P (ok a s)
  stops : {e : Stop} → Ensures P (stop e)

-- The postcondition where there is a result.
abbrev Holds : {S A : Type 0} → (A → S → Type 0) → Outcome S A → Type 0
Holds P (ok a s) = P a s
Holds P (stop e) = Unit

module _ {S A : Type 0} {P : A → S → Type 0} where
  pub bind :
      {B : Type 0} {R : B → S → Type 0} {r : Outcome S A} {k : A → Cmd S B}
      → Ensures P r
      → ((a : A) (s : S) → P a s → Ensures R (k a s))
      → Ensures R (and_then r k)
  bind (ensures p) next = next _ _ p
  bind stops next = stops

  -- The rest may use that this is the result.
  pub bind_eq :
      {B : Type 0} {R : B → S → Type 0} {r : Outcome S A} {k : A → Cmd S B}
      → Ensures P r
      → ((a : A) (s : S) → r ≡ ok a s → P a s → Ensures R (k a s))
      → Ensures R (and_then r k)
  bind_eq (ensures p) next = next _ _ refl p
  bind_eq stops next = stops

  pub mono :
      {R : A → S → Type 0} {r : Outcome S A}
      → Ensures P r
      → ((a : A) (s : S) → P a s → R a s)
      → Ensures R r
  mono (ensures p) weaken = ensures (weaken _ _ p)
  mono stops weaken = stops

  pub Ensures-if :
      (b : Bool) {r r' : Outcome S A} → Ensures P r → Ensures P r' → Ensures P (if b then r else r')
  Ensures-if true p q = p
  Ensures-if false p q = q

  pub ensured : {r : Outcome S A} (a : A) (s : S) → Ensures P r → r ≡ ok a s → P a s
  ensured a s (ensures p) e = subst (Holds P) e p
  ensured a s stops e = absurd cc

pub finishes : {S A : Type 0} (r : Outcome S A) → Ensures (λ _ _. Unit {0}) r
finishes (ok a s) = ensures tt
finishes (stop e) = stops

-- Some run of the command has this result.
abbrev pub Gives : {S A : Type 0} → Cmd S A → A → Type 0
Gives {S} m a = (s t : S) × (m s ≡ ok a t)

-- Whether there is a result.
abbrev pub ended : {S A : Type 0} → Outcome S A → Bool
ended (ok a s) = true
ended (stop e) = false
