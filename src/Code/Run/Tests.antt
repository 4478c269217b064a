-- ===== src/Code/Run/Tests.antt =====
-- IFMARKED, MARKVAR, COMPARE and IFEQUAL of run_code_internal.
use lfsc.Common.{ℕ, Bool, if◌then◌else◌, List, ◌==◌, ltb}
use lfsc.Heap.{Ptr, null, int, fault, Cmd, ok, pure, halt, ◌>>=◌, ◌>>◌, node, nth, is_symbolic}
use lfsc.Heap.Count.{dec}
use lfsc.Expr.Defeq.{defeq}
use lfsc.Code.{Machine, Env, mem, unless_null}
use lfsc.Code.Marks.{getmark, setmark, clearmark}
use lfsc.Code.Run.Numbers.{Rec}

module _ {Z Q : Type 0} (env : Env Z Q) where
  -- `((IntExpr *)e)->get_num()`
  unfoldable pub get_num : Ptr → Cmd (Machine Z Q) ℕ
  get_num p = mem do n ← node p; elim n [ int z ↦ pure (env.gmp.mpz_get_ui z) | _ ↦ halt fault ]

  -- Go on with a symbol; any other expression is released, and the result is NULL.
  unfoldable pub when_symbolic : ℕ → Ptr → Cmd (Machine Z Q) Ptr → Cmd (Machine Z Q) Ptr
  when_symbolic f r next = do
    n ← mem (node r)
    if is_symbolic n then next else (do mem (dec f r); pure null)

  abbrev pub marks : Ptr → Cmd (Machine Z Q) ℕ
  marks p s = ok (s.marks p) s

  abbrev pub set_marks : Ptr → ℕ → Cmd (Machine Z Q) (Unit {0})
  set_marks p m s = ok tt (record s { marks = λ q. if q == p then m else s.marks q })

  unfoldable pub run_if_marked : ℕ → Rec Z Q → Bool → List Ptr → Cmd (Machine Z Q) Ptr
  unfolding get_num when_symbolic
  run_if_marked f run use_cache ks = if use_cache then pure null else do
    r ← run (nth ks 1)
    unless_null r (
        when_symbolic f r do
          i ← get_num (nth ks 0)
          m ← marks r
          mem (dec f r)
          run (if getmark m i then nth ks 2 else nth ks 3))

  -- The mark is flipped, and the variable is the result.
  unfoldable pub run_mark_var : ℕ → Rec Z Q → List Ptr → Cmd (Machine Z Q) Ptr
  unfolding get_num when_symbolic
  run_mark_var f run ks = do
    r ← run (nth ks 1)
    unless_null r (
        when_symbolic f r do
          i ← get_num (nth ks 0)
          m ← marks r
          set_marks r (if getmark m i then clearmark m i else setmark m i)
          pure r)

  -- `r1 < r2`: the addresses are compared.
  unfoldable pub run_compare : ℕ → Rec Z Q → List Ptr → Cmd (Machine Z Q) Ptr
  unfolding when_symbolic
  run_compare f run ks = do
    r₁ ← run (nth ks 0)
    unless_null r₁ (
        when_symbolic f r₁ do
          r₂ ← run (nth ks 1)
          unless_null r₂ (
              when_symbolic f r₂
                do mem (dec f r₁); mem (dec f r₂); run (if ltb r₁ r₂ then nth ks 2 else nth ks 3)))

  unfoldable pub run_if_equal : ℕ → Rec Z Q → List Ptr → Cmd (Machine Z Q) Ptr
  run_if_equal f run ks = do
    r₁ ← run (nth ks 0)
    unless_null r₁ do
      r₂ ← run (nth ks 1)
      unless_null r₂ do
        b ← mem (defeq env.gmp f r₁ r₂)
        mem (dec f r₁)
        mem (dec f r₂)
        run (if b then nth ks 2 else nth ks 3)
