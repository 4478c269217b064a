-- ===== src/Term/Stable.antt =====
-- Checking of terms undoes the bindings that it makes, but for those of a tail call that only
-- classifies a term in return position: what the cases share.
pub mod Apps
pub mod Binders
pub mod Cases
pub mod Decls
pub mod Types
use lfsc.Common.{
  ℕ, zero, suc, ◌-◌, arith, Bool, true, false, not, ◌&&◌, ◌||◌, ◌≡◌, refl, ◌∙◌, ◌⊎◌, inl, inr,
  Option, none, some, if◌then◌else◌,
}
use lfsc.Gmp.{Gmp}
use lfsc.Heap.{Ptr, Cmd, fault, pure, and_then, halt}
use lfsc.Session.{
  Session, Config, gets, require, inc_if, dec_if, eat_rparen, eat_times, eat_excess, call_run_code,
}
use lfsc.Session.Stable.{
  Stable, Stable-pure, Stable-halt, Stable-gets, Stable-if, Stable-scan, Stable-mem, Stable-modify,
  Stable-bind, stable_rules,
}
use lfsc.Read.Stable.{require-Stable}
use lfsc.Term.{Ask, Answer, Rec, store, stored, head_op, new_pi, must_equal, cloned_lam}
use lfsc.Term.Binders.{in_tail}

-- The term is created, or it is not in return position.
pub data IsLocal (a : Ask) : Type 0 where
  creates : a.create ≡ true → IsLocal a
  inside : a.return_pos ≡ false → IsLocal a

local_case : (a : Ask) → IsLocal a → a.create ≡ true ⊎ a.return_pos ≡ false
local_case a (creates e) = inl e
local_case a (inside e) = inr e

-- The test of a tail call fails there.
not_tail : (t b p c : Bool) → (c ≡ true ⊎ p ≡ false) → (t && b && p && not c) ≡ false
not_tail t b p c (inl e) = grind arith
not_tail t b p c (inr e) = grind arith

-- The condition of the big λ fails there.
pub big_not_local :
    {A : Type 0} (a : Ask) (x b : Bool)
    → IsLocal a
    → (x && not a.create && a.return_pos && b) ≡ true
    → A
big_not_local a x b (creates e) h = absurd (grind arith)
big_not_local a x b (inside e) h = absurd (grind arith)

-- A call with the same `create` and `return_pos` is local too.
pub same-IsLocal :
    (a b : Ask) → b.create ≡ a.create → b.return_pos ≡ a.return_pos → IsLocal a → IsLocal b
same-IsLocal a b c p (creates e) = creates (c ∙ e)
same-IsLocal a b c p (inside e) = inside (p ∙ e)

module _ {Z Q : Type 0} where
  pub inc_if-Stable : (p : Ptr) → Stable (inc_if {Z = Z} {Q = Q} p)
  unfolding inc_if
  inc_if-Stable p = search stable_rules

  pub dec_if-Stable : (f : ℕ) (p : Ptr) → Stable (dec_if {Z = Z} {Q = Q} f p)
  unfolding dec_if
  dec_if-Stable f p = search stable_rules

  pub eat_rparen-Stable : Stable (eat_rparen {Z = Z} {Q = Q})
  unfolding eat_rparen
  eat_rparen-Stable = Stable-bind (Stable-scan _) λ _. Stable-modify _ λ s. refl

  eat_times-Stable : (n : ℕ) → Stable (eat_times {Z = Z} {Q = Q} n)
  unfolding eat_times
  eat_times-Stable zero = Stable-pure tt
  eat_times-Stable (suc n) = Stable-bind eat_rparen-Stable λ _. eat_times-Stable n

  pub eat_excess-Stable : (n : ℕ) → Stable (eat_excess {Z = Z} {Q = Q} n)
  unfolding eat_excess
  eat_excess-Stable n = Stable-bind (Stable-gets _) λ k. eat_times-Stable _

  pub store-Stable : (a : Ask) (p : Ptr) → Stable (store {Z = Z} {Q = Q} a p)
  unfolding store
  store-Stable a p = Stable-if a.computed (Stable-pure _) (Stable-halt _)

  stored_run :
      (o : Option Ptr)
      → Stable {Z = Z} {Q = Q} {A = Ptr} (elim o [ none ↦ halt fault | some p ↦ pure p ])
  stored_run none = Stable-halt _
  stored_run (some p) = Stable-pure p

  pub stored-Stable : (r : Answer) → Stable (stored {Z = Z} {Q = Q} r)
  unfolding stored
  stored-Stable r = stored_run r.classifier

  pub head_op-Stable : (f : ℕ) (p : Ptr) → Stable (head_op {Z = Z} {Q = Q} f p)
  unfolding head_op
  head_op-Stable f p = Stable-mem _

  pub new_pi-Stable : (f : ℕ) (v d r : Ptr) → Stable (new_pi {Z = Z} {Q = Q} f v d r)
  unfolding new_pi
  new_pi-Stable f v d r = Stable-mem _

  pub cloned_lam-Stable : (v b : Ptr) → Stable (cloned_lam {Z = Z} {Q = Q} v b)
  unfolding cloned_lam
  cloned_lam-Stable v b = Stable-mem _

  pub must_equal-Stable : (gmp : Gmp Z Q) (f : ℕ) (p q : Ptr) → Stable (must_equal gmp f p q)
  unfolding must_equal
  must_equal-Stable gmp f p q = Stable-bind (Stable-mem _) λ same. require-Stable same

  -- What follows a requirement may rely on it.
  pub Stable-require :
      {A : Type 0} (b : Bool) {k : Unit {0} → Cmd (Session Z Q) A}
      → ((u : Unit {0}) → b ≡ true → Stable (k u))
      → Stable (λ s. and_then (require b s) k)
  unfolding require
  Stable-require true h = h tt refl
  Stable-require false h = Stable-halt _

  -- A condition that the first branch may rely on.
  pub Stable-when :
      {A : Type 0} (b : Bool) {m n : Cmd (Session Z Q) A}
      → (b ≡ true → Stable m)
      → Stable n
      → Stable (if b then m else n)
  Stable-when true p q = p refl
  Stable-when false p q = q

  -- A local call is no tail call.
  pub Stable-in_tail :
      {A : Type 0} (cfg : Config Z Q) (a : Ask) {k : Bool → Cmd (Session Z Q) A}
      → IsLocal a
      → ((t : Bool) → t ≡ false → Stable (k t))
      → Stable (λ s. and_then (in_tail cfg a s) k)
  unfolding in_tail gets
  Stable-in_tail cfg a l h = record {
    run = λ s v.
        (h _ (not_tail cfg.tail_calls s.big_check a.return_pos a.create (local_case a l))).run s v;
  }
