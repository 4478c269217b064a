-- ===== src/Code/Run/Params.antt =====
-- A call of a program binds its variables, and puts their values back when its body has been run.
use lfsc.Common.{
  ℕ, ◌≡◌, refl, ◌∙◌, false, Bool, true, Option, some, none, Option-cases, Bool-cases, inl, inr,
  List, [], ◌∷◌, ◌&&◌, not, ◌==◌, All, All-map, arith, if◌then◌else◌,
}
use lfsc.Heap.{
  Ptr, null, Node, int, rat, hole, syms, cexp, Cell, Heap, Outcome, ok, stop, Cmd, and_then, put,
  read, write, node, sym_val, set_val, pure,
}
use lfsc.Heap
use lfsc.Heap.Count.{inc}
use lfsc.Heap.Frame.{dec-Shrinks}
use lfsc.Heap.Returns
use lfsc.Heap.Returns.{Ensures, ensures, stops, finishes}
use lfsc.Expr.Restores.{HasVal, set_val-HasVal}
use lfsc.Code.{Machine, mem}
use lfsc.Code.Cache.{get_data}
use lfsc.Code.Run.Numbers.{Rec}
use lfsc.Code.Run.Calls.{bind_params, restore_params, remember, run_body}
use lfsc.Code.Run.Restores.{KeepsVal, mem-Ensures}
use lfsc.Code.Run.Values.{Back, Shrinks-Back, set_val-Back, HasVal-unique, inc-Back}

abbrev pub AreDistinct : List Ptr → Type 0
AreDistinct [] = Unit
AreDistinct (v ∷ vs) = All (λ u. (u == v) ≡ false) vs × AreDistinct vs

==_false_swap : (u v : Ptr) → (u == v) ≡ false → (v == u) ≡ false
==_false_swap u v n = ground arith

module _ {Z Q : Type 0} where
  -- The values of the variables, as many as there are arguments.
  pub data Olds (h : Heap Z Q) : List Ptr → List Ptr → List Ptr → Type 0 where
    no_vars : Olds h [] [] []
    one_var :
        {v o a : Ptr} {vs os args : List Ptr}
        → HasVal v o h
        → Olds h vs os args
        → Olds h (v ∷ vs) (o ∷ os) (a ∷ args)

  -- A variable keeps the value that it had in `h`.
  abbrev pub Kept : Heap Z Q → Heap Z Q → Ptr → Type 0
  Kept h h' v = (x : Ptr) → HasVal v x h → KeepsVal v x h'

  Olds-Back :
      (h h' : Heap Z Q) {vs os args : List Ptr}
      → All (λ u. Back u h h') vs
      → Olds h' vs os args
      → Olds h vs os args
  Olds-Back h h' b no_vars = no_vars
  Olds-Back h h' b (one_var {o = o} x l) = one_var (b.0 o x) (Olds-Back h h' b.1 l)

  sym_val-reads : (v : Ptr) (h : Heap Z Q) → Ensures (λ o h₀. HasVal v o h × (h₀ ≡ h)) (sym_val v h)
  unfolding HasVal sym_val node read
  sym_val-reads v h = elim (Option-cases (h.cell v)) [
    | inl e ↦ rw (sym_val, node, read, e) stops
    | inr (c, e) ↦ go c c.node e refl
  ]
    where
      go :
          (c : Cell Z Q) (k : Node Z Q)
          → h.cell v ≡ some c
          → c.node ≡ k
          → Ensures (λ o h₀. (sym_val v h ≡ ok o h) × (h₀ ≡ h)) (sym_val v h)
      go c (Heap.sym w) e q = rw (sym_val, node, read, e, q) (ensures (refl, refl))
      go c (syms i w) e q = rw (sym_val, node, read, e, q) (ensures (refl, refl))
      go c _ e q = rw (sym_val, node, read, e, q) stops

  -- What a binding of the variables returns.
  unfoldable pub AreOlds : Heap Z Q → List Ptr → List Ptr → Option (List Ptr) → Type 0
  AreOlds h vs args none = Unit
  AreOlds h vs args (some os) = Olds h vs os args

  bind_params-Olds :
      (vs args : List Ptr) (h : Heap Z Q)
      → AreDistinct vs
      → Ensures (λ r _. AreOlds h vs args r) (bind_params vs args h)
  unfolding bind_params AreOlds
  bind_params-Olds [] [] h d = ensures no_vars
  bind_params-Olds [] (a ∷ args) h d = ensures tt
  bind_params-Olds (v ∷ vs) [] h d = ensures tt
  bind_params-Olds (v ∷ vs) (a ∷ args) h d = Returns.bind (sym_val-reads v h) λ o h₀ e. rw e.1 (
      Returns.bind (set_val-Back v a h) λ _ h₁ b.
        Returns.bind (bind_params-Olds vs args h₁ d.1)
          λ r h₂ l. go o e.0 h₁ h₂ (All-map vs (λ u n. b u n) d.0) r l)
    where
      go :
          (o : Ptr)
          → HasVal v o h
          → (h₁ h₂ : Heap Z Q) → All (λ u. Back u h h₁) vs
          → (r : Option (List Ptr)) → AreOlds h₁ vs args r
          → Ensures
              (λ s _. AreOlds h (v ∷ vs) (a ∷ args) s)
              (ok (elim r [ none ↦ none | some os ↦ some (o ∷ os) ]) h₂)
      go o e h₁ h₂ b none l = ensures tt
      go o e h₁ h₂ b (some os) l = ensures (one_var e (Olds-Back h h₁ b l))

  -- What putting the values back ensures.
  unfoldable Restored : Heap Z Q → Heap Z Q → List Ptr → Heap Z Q → Type 0
  Restored h₀ h vs h' =
      All (Kept h₀ h') vs × ((u : Ptr) → All (λ v. (u == v) ≡ false) vs → Back u h h')

  both :
      {P R : Unit {0} → Heap Z Q → Type 0} (r : Outcome (Heap Z Q) (Unit {0}))
      → Ensures P r
      → Ensures R r
      → Ensures (λ a h'. P a h' × R a h') r
  both (ok a t) (ensures p) (ensures q) = ensures (p, q)
  both (stop e) stops stops = stops

  restore_params-Restored :
      (f : ℕ) (h₀ h : Heap Z Q) {vs os args : List Ptr}
      → AreDistinct vs
      → Olds h₀ vs os args
      → Ensures (λ _ h'. Restored h₀ h vs h') (restore_params f vs os args h)
  unfolding restore_params Restored
  restore_params-Restored f h₀ h d no_vars = ensures (tt, λ u _ x a. a)
  restore_params-Restored f h₀ h d (one_var {v} {o} {a} {vs} {os} {args} x l) =
      Returns.bind (dec-Shrinks f a h) λ _ h₁ s.
        Returns.bind (both (set_val v o h₁) (set_val-HasVal v o h₁) (set_val-Back v o h₁)) λ _ h₂ w.
          Returns.mono (restore_params-Restored f h₀ h₂ d.1 l) λ _ h' r.
            let apart = All-map vs (λ u n. ==_false_swap u v n) d.0 in
            let kept : Kept h₀ h' v = λ y b z c.
              HasVal-unique v z o h₂ (r.1 v apart z c) w.0 ∙ HasVal-unique v o y h₀ x b in
            ((kept, r.0), λ u n y c. Shrinks-Back u h h₁ s y (w.1 u n.0 y (r.1 u n.1 y c)))

  remember-Back :
      (path : List Ptr) (ret : Ptr) (s : Machine Z Q)
      → Ensures (λ _ t. (u : Ptr) → Back u s.heap t.heap) (remember path ret s)
  unfolding remember
  remember-Back path ret s = elim (Bool-cases (get_data path s.cache == null)) [
    | inl y ↦ rw y (mem-Ensures _ (inc ret) _ (inc-Back ret s.heap))
    | inr n ↦ rw n stops
  ]

  -- Where the variables of a program are different and were bound to the arguments of a call, then
  -- whatever running the body does, if the call ends, every variable that is still in memory has the
  -- value that it had before the call.
  pub run_body-Kept :
      (f : ℕ) (run : Bool → Rec Z Q) (cached : Bool) (path vars olds args : List Ptr) (body : Ptr)
      (m m₁ : Machine Z Q)
      → AreDistinct vars
      → mem (bind_params vars args) m ≡ ok (some olds) m₁
      → Ensures
          (λ _ t. All (Kept m.heap t.heap) vars)
          (run_body f run cached path vars olds args body m₁)
  unfolding run_body AreOlds Restored
  run_body-Kept f run cached path vars olds args body m m₁ d e =
      let bound = mem-Ensures _ (bind_params vars args) m (bind_params-Olds vars args m.heap d) in
      let old = Returns.ensured (some olds) m₁ bound e in
      Returns.bind (finishes (run cached body m₁)) λ ret s₂ _.
        Returns.bind (mem-Ensures _ _ s₂ (restore_params-Restored f m.heap s₂.heap d old)) λ _ s₃ r.
          Returns.bind (cache_after (cached && not (ret == null)) ret s₃)
            λ _ s₄ b. ensures (All-map vars (λ v k x a y c. k x a y (b v y c)) r.0)
    where
      cache_after :
          (b : Bool) (ret : Ptr) (s : Machine Z Q)
          → Ensures
              (λ _ t. (u : Ptr) → Back u s.heap t.heap)
              ((if b then remember path ret else pure tt) s)
      cache_after true ret s = remember-Back path ret s
      cache_after false ret s = ensures (λ u x a. a)
