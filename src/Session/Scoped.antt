-- ===== src/Session/Scoped.antt =====
-- Scopes in a session: what binds names, and what puts the hidden bindings back.
use lfsc.Common.{◌≡◌, refl, sym, ◌∙◌, Option, some, List, [], ◌∷◌, if◌then◌else◌, list_eq}
use lfsc.Trie.{Key}
use lfsc.Trie.Scope.{insert_key-Inserted, put_back}
use lfsc.Heap.{Outcome, ok, Cmd, and_then}
use lfsc.Heap.Returns
use lfsc.Heap.Returns.{Ensures, ensures, stops}
use lfsc.Code.Symbols.{Binding, unbound, insert_symbol}
use lfsc.Session.{Session, typed, bind_symbol}
use lfsc.Session.Stable.{look, Valid, Has, Stable, Stable-and_then}
use lfsc.Read.{restore}

-- The bindings are `B` once those that wait are put back, the last one first.
pub data Pending
    : (Key → Option Binding) → List (Key × Binding) → (Key → Option Binding) → Type 0 where
  none_wait : {B T : Key → Option Binding} → ((k : Key) → T k ≡ B k) → Pending B [] T
  one_waits :
      {B M T : Key → Option Binding} {id : Key} {prev : Binding} {l : List (Key × Binding)}
      → (x : Binding) → B id ≡ some prev
      → ((k : Key) → M k ≡ (if list_eq id k then some x else B k))
      → Pending M l T
      → Pending B ((id, prev) ∷ l) T

pub Pending-agree :
    {B T U : Key → Option Binding} {l : List (Key × Binding)}
    → Pending B l T
    → ((k : Key) → U k ≡ T k)
    → Pending B l U
Pending-agree (none_wait p) e = none_wait (λ k. e k ∙ p k)
Pending-agree (one_waits x was now p) e = one_waits x was now (Pending-agree p e)

-- `Pending` from another table with the same bindings.
pub Pending-from :
    {B C T : Key → Option Binding} {l : List (Key × Binding)}
    → Pending B l T
    → ((k : Key) → B k ≡ C k)
    → Pending C l T
Pending-from (none_wait p) e = none_wait (λ k. p k ∙ e k)
Pending-from (one_waits {id} x was now p) e =
    one_waits x (sym (e id) ∙ was) (λ k. now k ∙ rw (e k)) p

module _ {Z Q : Type 0} where
  -- The command puts the bindings `l` back.
  pub record Closes (l : List (Key × Binding)) {A : Type 0} (m : Cmd (Session Z Q) A) : Type 0 where
    pub run :
        (B : Key → Option Binding) (s : Session Z Q)
        → Valid s
        → Pending B l (look s)
        → Ensures (λ _ t. Has B t) (m s)

  -- The command binds names and its result says what they hide.
  pub record Opens {A : Type 0} (olds : A → List (Key × Binding)) (m : Cmd (Session Z Q) A)
      : Type 0 where
    pub run :
        (s : Session Z Q)
        → Valid s
        → Ensures (λ a t. Valid t × Pending (look s) (olds a) (look t)) (m s)

  -- What a binding does to the table.
  pub record Bound (s : Session Z Q) (id : Key) (b : Binding) : Type 0 where
    pub after : Session Z Q
    pub old : Binding
    pub returns : bind_symbol id b s ≡ ok old after
    pub valid : Valid after
    pub was : look s id ≡ some old
    pub now : (k : Key) → look after k ≡ (if list_eq id k then some b else look s k)
    pub memory : after.checker.heap ≡ s.checker.heap

  pub bind_symbol-Bound : (s : Session Z Q) (id : Key) (b : Binding) → Valid s → Bound s id b
  unfolding bind_symbol typed insert_symbol
  bind_symbol-Bound s id b v =
      let r = insert_key-Inserted unbound id b v in
      record {
        after = record s { checker = record { heap = s.checker.heap; symbols = r.after } };
        old = r.old;
        returns = rw (typed, insert_symbol, r.returns);
        valid = r.valid;
        was = r.was;
        now = r.now;
        memory = refl;
      }

  -- A name that was given `x` gets its old binding.
  put_back-Has :
      (B M : Key → Option Binding) (t : Session Z Q) (id : Key) (prev x : Binding)
      → B id ≡ some prev
      → ((k : Key) → M k ≡ (if list_eq id k then some x else B k))
      → Has M t
      → (r : Bound t id prev) → Has B r.after
  put_back-Has B M t id prev x was now h r = record {
    valid = r.valid;
    agree = λ k. r.now k ∙ put_back unbound id k B M x prev _ was (now k) (h.agree k);
  }

  -- Putting back all that waits.
  restore_run :
      (l : List (Key × Binding)) (B : Key → Option Binding) (s : Session Z Q)
      → Valid s
      → Pending B l (look s)
      → Ensures (λ _ t. Has B t) (restore l s)
  unfolding restore
  restore_run [] B s v (none_wait p) = ensures (record { valid = v; agree = p })
  restore_run ((id, prev) ∷ l) B s v (one_waits x was now p) =
      Returns.bind (restore_run l _ s v p) λ _ t h.
        let r = bind_symbol-Bound t id prev h.valid in
        rw r.returns (ensures (put_back-Has B _ t id prev x was now h r))

  pub restore-Closes : (l : List (Key × Binding)) → Closes l (restore {Z = Z} {Q = Q} l)
  restore-Closes l = record { run = restore_run l }

  module _ {A C : Type 0} {l : List (Key × Binding)} where
    -- A stable command before the bindings are put back, and one behind.
    Closes-and_then :
        {B D : Key → Option Binding} {r : Outcome (Session Z Q) A} {k : A → Cmd (Session Z Q) C}
        → Pending B l D
        → Ensures (λ _ t. Has D t) r
        → ((a : A) → Closes l (k a))
        → Ensures (λ _ t. Has B t) (and_then r k)
    Closes-and_then p stops q = stops
    Closes-and_then {B} p (ensures {a} {s = t} h) q =
        (q a).run B t h.valid (Pending-agree p h.agree)

    pub Closes-step :
        {m : Cmd (Session Z Q) A} {k : A → Cmd (Session Z Q) C}
        → Stable m
        → ((a : A) → Closes l (k a))
        → Closes l (λ s. and_then (m s) k)
    Closes-step p q = record { run = λ B s v w. Closes-and_then w (p.run s v) q }

    pub Closes-then :
        {m : Cmd (Session Z Q) A} {k : A → Cmd (Session Z Q) C}
        → Closes l m
        → ((a : A) → Stable (k a))
        → Closes l (λ s. and_then (m s) k)
    Closes-then p q = record { run = λ B s v w. Stable-and_then (p.run B s v w) q }

  module _ {A C : Type 0} where
    pub Stable-Opens :
        {olds : A → List (Key × Binding)} {m : Cmd (Session Z Q) A} {k : A → Cmd (Session Z Q) C}
        → Opens olds m
        → ((a : A) → Closes (olds a) (k a))
        → Stable (λ s. and_then (m s) k)
    Stable-Opens p q = record {
      run = λ s v. Returns.bind (p.run s v) λ a t w. (q a).run (look s) t w.0 w.1;
    }

  -- One name.
  pub bind_symbol-Opens :
      (id : Key) (b : Binding) → Opens (λ prev. (id, prev) ∷ []) (bind_symbol {Z = Z} {Q = Q} id b)
  bind_symbol-Opens id b = record {
    run = λ s v.
        let r = bind_symbol-Bound s id b v in
        rw r.returns (ensures (r.valid, one_waits b r.was r.now (none_wait λ k. refl)));
  }

  bind_symbol_run :
      (id : Key) (prev : Binding) (B : Key → Option Binding) (s : Session Z Q)
      → Valid s
      → Pending B ((id, prev) ∷ []) (look s)
      → Ensures (λ _ t. Has B t) (bind_symbol id prev s)
  bind_symbol_run id prev B s v (one_waits x was now (none_wait e)) =
      let r = bind_symbol-Bound s id prev v in
      rw r.returns
        (ensures (put_back-Has B _ s id prev x was now (record { valid = v; agree = e }) r))

  pub bind_symbol-Closes :
      (id : Key) (prev : Binding) → Closes ((id, prev) ∷ []) (bind_symbol {Z = Z} {Q = Q} id prev)
  bind_symbol-Closes id prev = record { run = bind_symbol_run id prev }
