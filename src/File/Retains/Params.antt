-- ===== src/File/Retains/Params.antt =====
-- The variables of a program, which are bound one after the other.
use lfsc.Common.{
  ℕ, zero, suc, Bool, true, false, ◌≡◌, refl, sym, ap, ◌∙◌, Option, none, some, List, ◌∷◌, ◌==◌,
  if◌then◌else◌, get_or,
}
use lfsc.Trie.{Key}
use lfsc.Heap.{Ptr, null, Cmd, pure, and_then}
use lfsc.Heap.Returns
use lfsc.Heap.Returns.{Ensures, ensures, stops}
use lfsc.Code.Check.Scoped.{compute_kind-Safe}
use lfsc.Code.Symbols.{Binding, get_symbol}
use lfsc.Session.{Session, bind_symbol, typed, require}
use lfsc.Session.Stable.{
  look, Valid, Has, Stable, Stable-gets, Stable-scan, Stable-mem, Stable-typed, Stable-bind,
}
use lfsc.Session.Scoped.{bind_symbol-Bound}
use lfsc.Read.Stable.{require-Stable, new_sym-Stable}
use lfsc.Term.{Ask, Rec}
use lfsc.Term.Stable.{IsLocal, creates, eat_excess-Stable}
use lfsc.File.Program.{Param, must_be_data, read_params}
use lfsc.File.Retains.{
  IsFree, AllFree, no_more, one_more, Retains, Retains-trans, AllFree-back, bind-Retains,
}

module _ {Z Q : Type 0} where
  -- The command binds free names, which its result lists.
  pub record Binds (m : Cmd (Session Z Q) (List Param)) : Type 0 where
    pub run :
        (s : Session Z Q)
        → Valid s
        → Ensures (λ ps t. Retains (look s) t × AllFree (look s) ps) (m s)

  -- The same, where `id` is free.
  record BindsFree (id : Key) (m : Cmd (Session Z Q) (List Param)) : Type 0 where
    run :
        (s : Session Z Q)
        → Valid s
        → IsFree (look s) id
        → Ensures (λ ps t. Retains (look s) t × AllFree (look s) ps) (m s)

  pub Retains-self : (s : Session Z Q) → Valid s → Retains (look s) s
  Retains-self s v = record { valid = v; retains = λ k b e n. e }

  from_Has : {B : Key → Option Binding} {t : Session Z Q} → Has B t → Retains B t
  from_Has h = record { valid = h.valid; retains = λ k b e n. h.agree k ∙ e }

  IsFree-Has :
      {B : Key → Option Binding} {t : Session Z Q} {id : Key}
      → Has B t
      → IsFree B id
      → IsFree (look t) id
  IsFree-Has {id} h q = record { free = λ b e. q.free b (sym (h.agree id) ∙ e) }

  pub later :
      {B : Key → Option Binding} {t u : Session Z Q} {ps : List Param}
      → Retains B t
      → (Retains (look t) u × AllFree (look t) ps)
      → Retains B u × AllFree B ps
  later r w = (Retains-trans r w.0, AllFree-back r w.1)

  Binds-if :
      (b : Bool) {m n : Cmd (Session Z Q) (List Param)}
      → Binds m
      → Binds n
      → Binds (if b then m else n)
  Binds-if true p q = p
  Binds-if false p q = q

  module _ {A : Type 0} where
    Binds-step :
        {m : Cmd (Session Z Q) A} {k : A → Cmd (Session Z Q) (List Param)}
        → Stable m
        → ((a : A) → Binds (k a))
        → Binds (λ s. and_then (m s) k)
    Binds-step p q = record {
      run = λ s v.
          Returns.bind (p.run s v)
            λ a t h. Returns.mono ((q a).run t h.valid) λ ps u w. later (from_Has h) w;
    }

    BindsFree-step :
        {id : Key} {m : Cmd (Session Z Q) A} {k : A → Cmd (Session Z Q) (List Param)}
        → Stable m
        → ((a : A) → BindsFree id (k a))
        → BindsFree id (λ s. and_then (m s) k)
    BindsFree-step p q = record {
      run = λ s v w. Returns.bind (p.run s v) λ a t h.
          Returns.mono ((q a).run t h.valid (IsFree-Has h w)) λ ps u z. later (from_Has h) z;
    }

  -- A name that the table gives no expression is free.
  got_free :
      (id : Key) (s : Session Z Q) (b : Binding) (c : Bool)
      (k : Unit {0} → Cmd (Session Z Q) (List Param))
      → Valid s
      → look s id ≡ some b
      → (b.0 == null) ≡ c
      → ((u : Unit {0}) → BindsFree id (k u))
      → Ensures
          (λ ps t. Retains (look s) t × AllFree (look s) ps)
          (and_then (require (b.0 == null) s) k)
  unfolding require
  got_free id s b false k v e n h = rw (n, require) stops
  got_free id s b true k v e n h =
      let free : IsFree (look s) id = record {
        free = λ b' e'. let same : b' ≡ b = ap (λ o. get_or o b) (sym e' ∙ e) in rw (same, n);
      } in
      rw (n, require) ((h tt).run s v free)

  got :
      (id : Key) (s : Session Z Q) (o : Option Binding)
      (k : Binding → Unit {0} → Cmd (Session Z Q) (List Param))
      → Valid s
      → look s id ≡ o
      → ((b : Binding) (u : Unit {0}) → BindsFree id (k b u))
      → Ensures
          (λ ps t. Retains (look s) t × AllFree (look s) ps)
          (and_then (typed (get_symbol id) s) λ b t. and_then (require (b.0 == null) t) (k b))
  unfolding typed get_symbol
  got id s none k v e h = rw (e, typed, get_symbol) stops
  got id s (some b) k v e h = rw (e, typed, get_symbol) (got_free id s b _ (k b) v e refl (h b))

  Binds-free :
      (id : Key) {k : Binding → Unit {0} → Cmd (Session Z Q) (List Param)}
      → ((b : Binding) (u : Unit {0}) → BindsFree id (k b u))
      → Binds
          (λ s. and_then (typed (get_symbol id) s) λ b t. and_then (require (b.0 == null) t) (k b))
  Binds-free id h = record { run = λ s v. got id s _ _ v refl h }

  BindsFree-bind :
      (id : Key) (new : Binding) (rest : Ptr × Ptr) {m : Cmd (Session Z Q) (List Param)}
      → Binds m
      → BindsFree id (λ s.
        and_then
          (bind_symbol id new s)
          λ _ t. and_then (m t) λ ps. pure ((id, rest.0, rest.1) ∷ ps))
  BindsFree-bind id new rest p = record {
    run = λ s v q.
        let r = bind_symbol-Bound s id new v in
        let bound : Retains (look s) r.after = bind-Retains (Retains-self s v) q r in
        rw r.returns (
          Returns.bind (p.run r.after r.valid)
            λ ps u w. let z = later bound w in ensures (z.0, one_more q z.1));
  }

  pub must_be_data-Stable : (f : ℕ) (tp : Ptr) → Stable (must_be_data {Z = Z} {Q = Q} f tp)
  unfolding must_be_data
  must_be_data-Stable f tp =
      Stable-bind (Stable-typed (compute_kind-Safe f tp))
        λ kind. Stable-bind (Stable-mem _) λ n. require-Stable _

  module _ (f : ℕ) (rec : Rec Z Q) (h : (a : Ask) → IsLocal a → Stable (rec a)) where
    pub read_params-Binds : (g : ℕ) → Binds (read_params f rec g)
    unfolding read_params
    read_params-Binds zero = record { run = λ s v. stops }
    read_params-Binds (suc g) = Binds-step (Stable-scan _) λ d.
        Binds-if _ (record { run = λ s v. ensures (Retains-self s v, no_more) })
          (Binds-step (Stable-scan _) λ _. Binds-step (Stable-scan _) λ _.
            Binds-step (Stable-scan _) λ id. Binds-free id λ b _.
              BindsFree-step (new_sym-Stable id) λ v. BindsFree-step (Stable-mem _) λ _.
                BindsFree-step (Stable-gets _) λ n. BindsFree-step (h _ (creates refl)) λ r.
                  BindsFree-step (must_be_data-Stable f r.term) λ _.
                    BindsFree-step (eat_excess-Stable n) λ _.
                      BindsFree-step (Stable-scan _)
                        λ _. BindsFree-bind id _ (v, r.term) (read_params-Binds g))
