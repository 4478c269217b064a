-- ===== src/Expr/Defeq.antt =====
-- `Expr::defeq` of src/expr.cpp: definitional equality up to α, which fills holes as it goes. Its
-- three parts are the switch on this expression, the switch on the other, and the comparison of
-- two expressions of one operator. `rec` is the recursive call.
use lfsc.Common.{
  ℕ, zero, suc, Bool, true, false, ◌||◌, ◌&&◌, not, List, [], ◌∷◌, ◌==◌, if◌then◌else◌, ltb, length,
  Option, none, some, ◌+◌,
}
use lfsc.Header.{Op, op_code}
use lfsc.Gmp.{Sign, Gmp}
use lfsc.Heap.{
  Ptr, null, Node, int, rat, hole, sym, syms, cexp, Heap, fault, abort, timeout, Cmd, pure, halt,
  ◌>>=◌, ◌>>◌, alloc, read, write, node, set_mark, op_of, val_of, nth, kid, sym_val, set_val,
  is_symbolic,
}
use lfsc.Heap.Count.{inc, dec}
use lfsc.Expr.{follow_defs, collect_args, get_head}
use lfsc.Expr.Whr.{whr}

abbrev is_zero : Sign → Bool
is_zero Sign.zero = true
is_zero _ = false

-- One test for two operators: their positions in the enumeration.
abbrev pub same_op : Op → Op → Bool
same_op o₁ o₂ = op_code o₁ == op_code o₂

-- `kids[i] = k`
abbrev replace : List Ptr → ℕ → Ptr → List Ptr
replace [] i k = []
replace (p ∷ ps) zero k = k ∷ ps
replace (p ∷ ps) (suc i) k = p ∷ replace ps i k

-- The recursive call of `defeq`.
abbrev pub Rec : Type 0 → Type 0 → Type 0
Rec Z Q = Ptr → Ptr → Cmd (Heap Z Q) Bool

module _ {Z Q : Type 0} where
  unfoldable pub set_hole : Ptr → Ptr → Cmd (Heap Z Q) (Unit {0})
  set_hole p v = do
    c ← read p
    elim c.node [ hole _ ↦ write p (some (record c { node = hole v })) | _ ↦ halt fault ]

  unfoldable pub set_kid : Ptr → ℕ → Ptr → Cmd (Heap Z Q) (Unit {0})
  set_kid p i k = do
    c ← read p
    elim c.node [
      | cexp o ks ↦ write p (some (record c { node = cexp o (replace ks i k) }))
      | _ ↦ halt fault
    ]

  -- Fill the hole `p` with what `q` stands for.
  unfoldable pub fill : ℕ → Ptr → Ptr → Cmd (Heap Z Q) Bool
  unfolding set_hole
  fill f p q = do tmp ← follow_defs f q; set_hole p tmp; inc tmp; pure true

  -- An argument that the pattern of a hole cannot have: no SYM_EXPR, or one that came before.
  abbrev not_pattern : Node Z Q → Bool → Bool
  not_pattern (sym v) used = used
  not_pattern _ used = true

  -- The loop that abstracts `t` over the arguments, marking each; none is the early return.
  unfoldable pub abstract : List Ptr → Ptr → Cmd (Heap Z Q) (Option Ptr)
  abstract [] t = pure (some t)
  abstract (a ∷ args) t = do
    c ← read a
    let v = if val_of c.node == null then a else val_of c.node
    let rest : Cmd (Heap Z Q) (Option Ptr) = do
      inc v
      t' ← alloc (cexp Op.lam (v ∷ t ∷ []))
      set_mark a true
      abstract args t'
    if not_pattern c.node c.mark then pure none else rest

  unfoldable pub clear_marks : List Ptr → Cmd (Heap Z Q) (Unit {0})
  clear_marks [] = pure tt
  clear_marks (a ∷ args) = do set_mark a false; clear_marks args

  -- `(_ v₁ … vₙ)` against `q`.
  unfoldable pub fill_pattern : ℕ → Ptr → Ptr → Cmd (Heap Z Q) Bool
  unfolding set_hole abstract clear_marks
  fill_pattern f p q = do
    (args, head) ← collect_args f true p
    inc q
    t ← abstract args q
    elim t [ none ↦ pure false | some t' ↦ do clear_marks args; set_hole head t'; pure true ]

  abbrev pub is_hole : Node Z Q → Bool
  is_hole (hole v) = true
  is_hole _ = false

  -- Both switches, on an application: it is reduced if it can be.
  unfoldable pub reduced :
      ℕ → (Ptr → Cmd (Heap Z Q) Bool) → Ptr → Cmd (Heap Z Q) Bool → Cmd (Heap Z Q) Bool
  reduced f compare p next = do
    tmp ← whr f p
    if tmp == p then next else do b ← compare tmp; dec f tmp; pure b

  -- The first switch. The parameter `next` is what follows it.
  unfoldable pub defeq_left :
      ℕ → Rec Z Q → Ptr → Ptr → Node Z Q → Cmd (Heap Z Q) Bool → Cmd (Heap Z Q) Bool
  unfolding fill fill_pattern reduced
  defeq_left f rec p q (int n) next = next
  defeq_left f rec p q (rat n) next = next
  defeq_left f rec p q (hole v) next = if v == null then fill f p q else rec v q
  defeq_left f rec p q (sym v) next = if v == null then next else rec v q
  defeq_left f rec p q (syms s v) next = if v == null then next else rec v q
  defeq_left f rec p q (cexp Op.ascribe ks) next = rec (nth ks 0) q
  defeq_left f rec p q (cexp Op.app ks) next =
      reduced f (λ tmp. rec tmp q) p
        do head ← get_head f true p; n ← node head; if is_hole n then fill_pattern f p q else next
  defeq_left f rec p q (cexp o ks) next = next

  -- The second switch.
  unfoldable pub defeq_right :
      ℕ → Rec Z Q → Ptr → Ptr → Node Z Q → Cmd (Heap Z Q) Bool → Cmd (Heap Z Q) Bool
  unfolding fill reduced
  defeq_right f rec p q (int n) next = next
  defeq_right f rec p q (rat n) next = next
  defeq_right f rec p q (hole v) next = if v == null then fill f q p else rec p v
  defeq_right f rec p q (sym v) next = if v == null then next else rec p v
  defeq_right f rec p q (syms s v) next = if v == null then next else rec p v
  defeq_right f rec p q (cexp Op.ascribe ks) next = rec p (nth ks 0)
  defeq_right f rec p q (cexp Op.app ks) next = reduced f (λ tmp. rec p tmp) q next
  defeq_right f rec p q (cexp o ks) next = next

  -- Under a binder the first variable stands for the second; `i` is the place of the body.
  unfoldable pub defeq_under : ℕ → Rec Z Q → Ptr → Ptr → ℕ → Cmd (Heap Z Q) Bool
  defeq_under f rec p q i = do
    v₁ ← kid p 0
    prev ← sym_val v₁
    v₂ ← follow_defs f (← kid q 0)
    set_val v₁ v₂
    b ← rec (← kid p i) (← kid q i)
    set_val v₁ prev
    pure b

  -- One of two equal kids replaces the other: a symbol if there is one, else the one with the
  -- larger count.
  unfoldable pub share : ℕ → Ptr → Ptr → ℕ → Ptr → Ptr → Cmd (Heap Z Q) (Unit {0})
  unfolding set_kid
  share f p q i k₁ k₂ = do
    c₁ ← read k₁
    c₂ ← read k₂
    if is_symbolic c₂.node || (not (is_symbolic c₁.node) && ltb c₁.count c₂.count)
        then (do dec f k₁; inc k₂; set_kid p i k₂)
        else (do dec f k₂; inc k₁; set_kid q i k₁)

  -- The loop over the kids of two applications, from the kid `i` on, `n` kids to go in the first.
  unfoldable pub defeq_kids : ℕ → Rec Z Q → Ptr → Ptr → ℕ → ℕ → Cmd (Heap Z Q) Bool
  unfolding share
  defeq_kids f rec p q i zero = do k₂ ← kid q i; pure (k₂ == null)
  defeq_kids f rec p q i (suc n) = do
    k₁ ← kid p i
    k₂ ← kid q i
    let more = defeq_kids f rec p q (i + 1) n
    let unequal : Cmd (Heap Z Q) Bool = do
      b ← rec k₁ k₂
      if b then (do share f p q i (← kid p i) (← kid q i); more) else pure false
    if k₁ == k₂ then more else (if k₂ == null then pure false else unequal)

  module _ (gmp : Gmp Z Q) where
    -- Two expressions that are no CExprs. Only this expression's class is looked at, and the other
    -- is read as one of that class.
    unfoldable pub defeq_literal : Ptr → Ptr → Node Z Q → Node Z Q → Cmd (Heap Z Q) Bool
    defeq_literal p q (int n) (int m) = pure (is_zero (gmp.mpz_cmp n m))
    defeq_literal p q (int n) _ = halt fault
    defeq_literal p q (rat n) (rat m) = pure (is_zero (gmp.mpq_cmp n m))
    defeq_literal p q (rat n) _ = halt fault
    defeq_literal p q (sym v) _ = pure (p == q)
    defeq_literal p q (syms s v) _ = pure (p == q)
    defeq_literal p q _ _ = halt abort

    -- Two CExprs of one operator.
    unfoldable pub defeq_cexpr : ℕ → Rec Z Q → Ptr → Ptr → Op → List Ptr → Cmd (Heap Z Q) Bool
    unfolding defeq_under defeq_kids
    defeq_cexpr f rec p q Op.pi ks = do
      same ← rec (← kid p 1) (← kid q 1)
      if same then defeq_under f rec p q 2 else pure false
    defeq_cexpr f rec p q Op.lam ks = defeq_under f rec p q 1
    defeq_cexpr f rec p q Op.app ks = defeq_kids f rec p q 0 (length ks)
    defeq_cexpr f rec p q Op.type ks = pure true
    defeq_cexpr f rec p q Op.kind ks = pure true
    defeq_cexpr f rec p q Op.mpz ks = pure true
    defeq_cexpr f rec p q _ ks = halt abort

    unfoldable pub defeq_same : ℕ → Rec Z Q → Ptr → Ptr → Cmd (Heap Z Q) Bool
    unfolding defeq_literal defeq_cexpr
    defeq_same f rec p q = do
      n₁ ← node p
      n₂ ← node q
      if same_op (op_of n₁) (op_of n₂)
          then (elim n₁ [ cexp o ks ↦ defeq_cexpr f rec p q o ks | n ↦ defeq_literal p q n n₂ ])
          else pure false

    unfoldable pub defeq : ℕ → Ptr → Ptr → Cmd (Heap Z Q) Bool
    unfolding defeq_left defeq_right defeq_same
    defeq zero p q = halt timeout
    defeq (suc f) p q = if p == q then pure true else do
      n₁ ← node p
      defeq_left f (defeq f) p q n₁
          do n₂ ← node q; defeq_right f (defeq f) p q n₂ (defeq_same f (defeq f) p q)
