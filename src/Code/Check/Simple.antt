-- ===== src/Code/Check/Simple.antt =====
-- The cases of check_code besides APP and MATCH.
use lfsc.Common.{ℕ, Bool, false, not, ◌||◌, if◌then◌else◌, List, ◌==◌}
use lfsc.Trie.{Key}
use lfsc.Heap.{Ptr, null, Node, syms, fault, report_error, Cmd, pure, halt, ◌>>=◌, ◌>>◌, node, nth}
use lfsc.Expr.{follow_defs, is_type}
use lfsc.Code.Symbols.{Checker, mem, get_symbol, insert_symbol, stat_type, stat_mpz, stat_mpq}

-- The recursive call of check_code.
abbrev pub Rec : Type 0 → Type 0 → Type 0
Rec Z Q = Ptr → Cmd (Checker Z Q) Ptr

-- Whether a type is `mpz` or `mpq`.
abbrev pub is_number : Ptr → Bool
is_number tp = (tp == stat_mpz) || (tp == stat_mpq)

module _ {Z Q : Type 0} where
  -- `if (!ok) report_error(…)`
  abbrev pub require : Bool → Cmd (Checker Z Q) Ptr → Cmd (Checker Z Q) Ptr
  require holds next = if holds then next else halt report_error

  -- `((SymSExpr *)p)->s`
  unfoldable pub name : Ptr → Cmd (Checker Z Q) Key
  name p = mem do n ← node p; elim n [ syms s v ↦ pure s | _ ↦ halt fault ]

  unfoldable pub check_sym : Key → Cmd (Checker Z Q) Ptr
  check_sym s = do b ← get_symbol s; require (not (b.1 == null)) (pure b.1)

  -- The types of two branches, which must stand for one expression.
  unfoldable pub check_branches : ℕ → Rec Z Q → Ptr → Ptr → Cmd (Checker Z Q) Ptr
  check_branches f check e₁ e₂ = do
    t₁ ← check e₁
    t₂ ← check e₂
    tp₁ ← mem (follow_defs f t₁)
    tp₂ ← mem (follow_defs f t₂)
    require (tp₁ == tp₂) (pure tp₁)

  -- The variable is bound to its type, with no expression, while the body is checked.
  unfoldable pub check_let : Rec Z Q → List Ptr → Cmd (Checker Z Q) Ptr
  check_let check ks = do
    s ← name (nth ks 0)
    tp₁ ← check (nth ks 1)
    prev ← insert_symbol s (null, tp₁)
    tp₂ ← check (nth ks 2)
    insert_symbol s prev
    pure tp₂

  unfoldable pub check_arith : ℕ → Rec Z Q → List Ptr → Cmd (Checker Z Q) Ptr
  check_arith f check ks = do
    t₀ ← check (nth ks 0)
    t₁ ← check (nth ks 1)
    tp₀ ← mem (follow_defs f t₀)
    tp₁ ← mem (follow_defs f t₁)
    require (is_number tp₀) (require (tp₀ == tp₁) (pure tp₀))

  unfoldable pub check_neg : ℕ → Rec Z Q → List Ptr → Cmd (Checker Z Q) Ptr
  check_neg f check ks = do
    t₀ ← check (nth ks 0)
    tp₀ ← mem (follow_defs f t₀)
    require (is_number tp₀) (pure tp₀)

  unfoldable pub check_mpz_to_mpq : ℕ → Rec Z Q → List Ptr → Cmd (Checker Z Q) Ptr
  check_mpz_to_mpq f check ks = do
    t₀ ← check (nth ks 0)
    tp₀ ← mem (follow_defs f t₀)
    require (tp₀ == stat_mpz) (pure stat_mpq)

  unfoldable pub check_if_number : ℕ → Rec Z Q → List Ptr → Cmd (Checker Z Q) Ptr
  unfolding check_branches
  check_if_number f check ks = do
    t₀ ← check (nth ks 0)
    tp₀ ← mem (follow_defs f t₀)
    require (is_number tp₀) (check_branches f check (nth ks 1) (nth ks 2))

  unfoldable pub check_fail : Rec Z Q → List Ptr → Cmd (Checker Z Q) Ptr
  check_fail check ks = do tp ← check (nth ks 0); require (tp == stat_type) (pure (nth ks 0))

  -- The type of the type `tp`, NULL unless `tp` is a symbol with no value.
  unfoldable pub type_of_base : Ptr → Cmd (Checker Z Q) Ptr
  type_of_base tp = do
    n ← mem (node tp)
    elim n [
      | syms s v ↦ if v == null then (do b ← get_symbol s; pure b.1) else pure null
      | _ ↦ pure null
    ]

  -- MARKVAR, and the first part of IFMARKED: the type must be a symbol whose type is a type.
  unfoldable pub check_mark : ℕ → Rec Z Q → List Ptr → Cmd (Checker Z Q) Ptr
  unfolding type_of_base
  check_mark f check ks = do
    tp ← check (nth ks 1)
    tptp ← type_of_base tp
    is ← if tptp == null then pure false else mem (is_type f stat_type tptp)
    require is (pure tp)

  unfoldable pub check_if_marked : ℕ → Rec Z Q → List Ptr → Cmd (Checker Z Q) Ptr
  unfolding check_mark check_branches
  check_if_marked f check ks = check_mark f check ks >> check_branches f check (nth ks 2) (nth ks 3)

  -- A symbol with no value.
  abbrev pub is_base : Node Z Q → Bool
  is_base (syms s v) = v == null
  is_base _ = false

  unfoldable pub check_compare : ℕ → Rec Z Q → List Ptr → Cmd (Checker Z Q) Ptr
  unfolding check_branches
  check_compare f check ks = do
    tp₀ ← check (nth ks 0)
    n₀ ← mem (node tp₀)
    require (is_base n₀) do
      tp₁ ← check (nth ks 1)
      n₁ ← mem (node tp₁)
      require (is_base n₁) (check_branches f check (nth ks 2) (nth ks 3))

  -- The types of the two expressions are compared as they are.
  unfoldable pub check_if_equal : ℕ → Rec Z Q → List Ptr → Cmd (Checker Z Q) Ptr
  unfolding check_branches
  check_if_equal f check ks = do
    tp₀ ← check (nth ks 0)
    tp₁ ← check (nth ks 1)
    require (tp₀ == tp₁) (check_branches f check (nth ks 2) (nth ks 3))
