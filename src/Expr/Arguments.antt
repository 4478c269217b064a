-- ===== src/Expr/Arguments.antt =====
-- Applications are built and taken apart: `make_app`, `inc_all` and `collect_args`.
use lfsc.Common.{
  ℕ, ◌+◌, ◌≡◌, refl, Bool, false, Bool-cases, inl, inr, some, List, [], ◌∷◌, ◌++◌, ◌==◌, arith,
}
use lfsc.Header.{Op, inc_ref}
use lfsc.Heap.{
  Ptr, Node, int, rat, hole, sym, syms, cexp, Cell, Heap, ok, read, write, alloc, node, put,
}
use lfsc.Heap.Count.{inc}
use lfsc.Expr.{collect_args, inc_all, make_app}
use lfsc.Trie.{Key}

module _ {Z Q : Type 0} where
  -- An expression that is in memory.
  pub data IsLive (h : Heap Z Q) : Ptr → Type 0 where
    is_live : {p : Ptr} (c : Cell Z Q) → h.cell p ≡ some c → IsLive h p

  pub data AllLive (h : Heap Z Q) : List Ptr → Type 0 where
    none_left : AllLive h []
    one_more : {p : Ptr} {ps : List Ptr} → IsLive h p → AllLive h ps → AllLive h (p ∷ ps)

  -- The memory after `new CExpr(APP, …)`.
  abbrev with_app : Ptr → List Ptr → Heap Z Q → Heap Z Q
  with_app hd args h = record {
    next = h.next + 1;
    cell =
        put h.cell h.next
          (some (record { count = 1; mark = false; node = cexp Op.app (hd ∷ args) }));
  }

  collect_args-with_app :
      (f : ℕ) (hd : Ptr) (args : List Ptr) (h : Heap Z Q)
      → collect_args f false h.next (with_app hd args h) ≡ ok (args, hd) (with_app hd args h)
  unfolding collect_args node read
  collect_args-with_app f hd args h = grind arith

  -- What `make_app` can apply: an application whose kids are in memory, and what is no CExpr.
  pub data CanApply (h : Heap Z Q) : Node Z Q → Type 0 where
    an_app :
        (hd : Ptr) (args : List Ptr) → AllLive h (hd ∷ args) → CanApply h (cexp Op.app (hd ∷ args))
    an_int : (z : Z) → CanApply h (int z)
    a_rat : (q : Q) → CanApply h (rat q)
    a_hole : (v : Ptr) → CanApply h (hole v)
    a_sym : (v : Ptr) → CanApply h (sym v)
    a_syms : (s : Key) (v : Ptr) → CanApply h (syms s v)

  IsLive-put :
      (p : Ptr) (c : Cell Z Q) {h : Heap Z Q} {q : Ptr}
      → IsLive h q
      → IsLive (record h { cell = put h.cell p (some c) }) q
  IsLive-put p c {q = q} (is_live d e) = elim (Bool-cases (q == p)) [
    | inl b ↦ is_live c (rw b)
    | inr b ↦ is_live d (rw (b, e))
  ]

  AllLive-put :
      (p : Ptr) (c : Cell Z Q) {h : Heap Z Q} {ps : List Ptr}
      → AllLive h ps
      → AllLive (record h { cell = put h.cell p (some c) }) ps
  AllLive-put p c none_left = none_left
  AllLive-put p c (one_more l ls) = one_more (IsLive-put p c l) (AllLive-put p c ls)

  inc-live :
      (p : Ptr) (c : Cell Z Q) (h : Heap Z Q)
      → h.cell p ≡ some c
      → inc p h
        ≡ ok tt (record h { cell = put h.cell p (some (record c { count = inc_ref c.count })) })
  unfolding inc read write
  inc-live p c h e = rw (read, e)

  -- Taking references of expressions in memory ends.
  inc_all-total :
      (ps : List Ptr) (h : Heap Z Q) → AllLive h ps → (h₁ : Heap Z Q) × (inc_all ps h ≡ ok tt h₁)
  unfolding inc_all
  inc_all-total [] h ls = (h, refl)
  inc_all-total (p ∷ ps) h (one_more (is_live c e) ls) =
      let rest = inc_all-total ps _ (AllLive-put p (record c { count = inc_ref c.count }) ls) in
      (rest.0, rw (inc-live p c h e) rest.1)

  -- `e₁` is in memory, with the node `n`.
  unfoldable pub IsAt : Heap Z Q → Ptr → Node Z Q → Type 0
  IsAt h p n = (k : ℕ) × (m : Bool) × (h.cell p ≡ some (record { count = k; mark = m; node = n }))

  -- `make_app` at a head without arguments.
  make_app-head :
      (f : ℕ) (e₁ e₂ hd : Ptr) (args : List Ptr) (h : Heap Z Q)
      → make_app e₁ e₂ h ≡ ok h.next (with_app e₁ (e₂ ∷ []) h)
      → collect_args f false e₁ h ≡ ok ([], e₁) h
      → collect_args f false e₁ h ≡ ok (args, hd) h
      → (q : Ptr) × (h₁ : Heap Z Q) × (make_app e₁ e₂ h ≡ ok q h₁)
        × (collect_args f false q h₁ ≡ ok (args ++ e₂ ∷ [], hd) h₁)
  make_app-head f e₁ e₂ hd args h made at d =
      let built = collect_args-with_app f e₁ (e₂ ∷ []) h in
      let no_args : args ≡ [] = cc in
      let head : hd ≡ e₁ = cc in (h.next, with_app e₁ (e₂ ∷ []) h, made, rw (no_args, head) built)

  -- Where `e₁` is in memory, and is an application whose kids are in memory or no CExpr, applying it
  -- to `e₂` ends with an expression with the head of `e₁` and the arguments of `e₁` followed by `e₂`,
  -- as `collect_args` finds these when it does not follow the definition of the head.
  pub collect_args-make_app :
      (f : ℕ) (e₁ e₂ hd : Ptr) (args : List Ptr) (n : Node Z Q) (h : Heap Z Q)
      → IsAt h e₁ n
      → CanApply h n
      → collect_args f false e₁ h ≡ ok (args, hd) h
      → (q : Ptr) × (h₁ : Heap Z Q) × (make_app e₁ e₂ h ≡ ok q h₁)
        × (collect_args f false q h₁ ≡ ok (args ++ e₂ ∷ [], hd) h₁)
  unfolding make_app collect_args node read alloc IsAt
  collect_args-make_app f e₁ e₂ hd args n h (k, m, e) (an_int z) d =
      make_app-head f e₁ e₂ hd args h (rw (node, read, e)) (rw (node, read, e)) d
  collect_args-make_app f e₁ e₂ hd args n h (k, m, e) (a_rat q) d =
      make_app-head f e₁ e₂ hd args h (rw (node, read, e)) (rw (node, read, e)) d
  collect_args-make_app f e₁ e₂ hd args n h (k, m, e) (a_hole v) d =
      make_app-head f e₁ e₂ hd args h (rw (node, read, e)) (rw (node, read, e)) d
  collect_args-make_app f e₁ e₂ hd args n h (k, m, e) (a_sym v) d =
      make_app-head f e₁ e₂ hd args h (rw (node, read, e)) (rw (node, read, e)) d
  collect_args-make_app f e₁ e₂ hd args n h (k, m, e) (a_syms s v) d =
      make_app-head f e₁ e₂ hd args h (rw (node, read, e)) (rw (node, read, e)) d
  collect_args-make_app f e₁ e₂ hd args n h (k, m, e) (an_app hd' args' ls) d =
      let (h₁, i) = inc_all-total (hd' ∷ args') h ls in
      let at = rw (node, read, e) at d in
      let args_of : args ≡ args' = cc in
      let head_of : hd ≡ hd' = cc in
      let built = collect_args-with_app f hd' (args' ++ e₂ ∷ []) h₁ in
      (
        h₁.next,
        with_app hd' (args' ++ e₂ ∷ []) h₁,
        rw (node, read, e, i),
        rw (args_of, head_of) built,
      )
