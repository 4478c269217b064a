-- ===== src/Code/Check/Apps.antt =====
-- APP of check_code: a program or a constructor applied to all its arguments.
use lfsc.Common.{ℕ, Bool, true, false, not, ◌||◌, if◌then◌else◌, List, [], ◌∷◌, ◌==◌}
use lfsc.Gmp.{Gmp}
use lfsc.Header.{is_app, is_pi, is_prog}
use lfsc.Heap.{
  Ptr, null, syms, report_error, Cmd, pure, halt, ◌>>=◌, ◌>>◌, node, op_of, kids_of, nth, getop,
  mark, set_mark,
}
use lfsc.Expr.{follow_defs, first, behind}
use lfsc.Expr.Defeq.{defeq}
use lfsc.Expr.FreeIn.{calc_free_in}
use lfsc.Code.Symbols.{Checker, mem, get_symbol}
use lfsc.Code.Check.Simple.{Rec, require}

module _ {Z Q : Type 0} where
  unfoldable pub check_all : Rec Z Q → List Ptr → Cmd (Checker Z Q) (List Ptr)
  check_all check [] = pure []
  check_all check (e ∷ es) = do tp ← check e; tps ← check_all check es; pure (tp ∷ tps)

  -- The type of the head `k`, which stands for `h`: a program's own, or that of the name, of `h` or
  -- else (where `h` is what a macro stands for) of `k`.
  unfoldable pub head_type : Ptr → Ptr → Cmd (Checker Z Q) Ptr
  head_type k h = do
    n ← mem (node h)
    m ← mem (node k)
    let of_macro : Cmd (Checker Z Q) Ptr = elim m [
      | syms s v ↦ (do b ← get_symbol s; pure b.1)
      | _ ↦ halt report_error
    ]
    if is_prog (op_of n)
        then pure (first (kids_of n))
        else (elim n [ syms s v ↦ (do b ← get_symbol s; pure b.1) | _ ↦ of_macro ])

  -- The flag of a PI is computed again where it is set: a dependent function is refused.
  unfoldable pub check_independent : ℕ → Ptr → Cmd (Checker Z Q) (Unit {0})
  check_independent f cur = do
    free ← mem (mark cur)
    let again : Cmd (Checker Z Q) (Unit {0}) = do
      mem (calc_free_in f cur)
      still ← mem (mark cur)
      if still then halt report_error else mem (set_mark cur true)
    if free then again else pure tt

  module _ (gmp : Gmp Z Q) where
    -- The type of an argument matches the domain, or is an application whose head does.
    unfoldable pub matches : ℕ → Ptr → Ptr → Cmd (Checker Z Q) Bool
    matches f tp domain = mem do
      types_match ← defeq gmp f tp domain
      n ← node tp
      app_types_match ←
          if is_app (op_of n) then defeq gmp f (first (kids_of n)) domain else pure false
      pure (types_match || app_types_match)

    -- The loop over the types of the arguments, `cur` being the type of what is left to apply.
    unfoldable pub check_args : ℕ → Ptr → List Ptr → Cmd (Checker Z Q) Ptr
    unfolding check_independent matches
    check_args f cur [] = do o ← mem (getop cur); require (not (is_pi o)) (pure cur)
    check_args f cur (tp ∷ tps) = do
      n ← mem (node cur)
      require (is_pi (op_of n)) do
        same ← matches f tp (nth (kids_of n) 1)
        require same do check_independent f cur; check_args f (nth (kids_of n) 2) tps

    unfoldable pub check_app : ℕ → Rec Z Q → List Ptr → Cmd (Checker Z Q) Ptr
    unfolding check_all head_type check_args
    check_app f check ks = do
      h ← mem (follow_defs f (first ks))
      tps ← check_all check (behind ks)
      t ← head_type (first ks) h
      require (not (t == null))
          do tp ← mem (follow_defs f t); o ← mem (getop tp); require (is_pi o) (check_args f tp tps)
