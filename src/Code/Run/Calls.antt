-- ===== src/Code/Run/Calls.antt =====
-- APP of run_code_internal: constructors, programs, and functions, whose results are cached.
use lfsc.Common.{
  ℕ, Bool, true, false, ◌&&◌, if◌then◌else◌, List, [], ◌∷◌, ◌++◌, ◌==◌, Option, none, some,
}
use lfsc.Common as Common
use lfsc.Header.{is_prog}
use lfsc.Heap.{
  Ptr, null, Node, syms, Heap, abort, Cmd, ok, pure, halt, and_then, ◌>>=◌, ◌>>◌, node, getop, kids,
  kid, sym_val, set_val,
}
use lfsc.Heap.Count.{inc, dec}
use lfsc.Expr.{collect_args, get_head, build_app, inc_all}
use lfsc.Expr.Clone.{dec_all}
use lfsc.Code.{Machine, Env, mem}
use lfsc.Code.Cache.{touch, new_edges, get_data, set_data}
use lfsc.Code.Run.Numbers.{Rec}

module _ {Z Q : Type 0} where
  -- The arguments are run from left to right. At a NULL those before it are released, and the
  -- result is none.
  unfoldable pub run_args :
      ℕ → Rec Z Q → List Ptr → List Ptr → Cmd (Machine Z Q) (Option (List Ptr))
  run_args f run done [] = pure (some done)
  run_args f run done (a ∷ args) = do
    r ← run a
    let rest = run_args f run (done ++ r ∷ []) args
    if r == null then (do mem (dec_all f done); pure none) else rest

  -- The variables of a program are bound to its arguments, and the values that they had are the
  -- result; none if there are too few arguments or too many.
  unfoldable pub bind_params : List Ptr → List Ptr → Cmd (Heap Z Q) (Option (List Ptr))
  bind_params [] [] = pure (some [])
  bind_params [] (a ∷ args) = pure none
  bind_params (v ∷ vars) [] = pure none
  bind_params (v ∷ vars) (a ∷ args) = do
    old ← sym_val v
    set_val v a
    olds ← bind_params vars args
    pure (elim olds [ none ↦ none | some os ↦ some (old ∷ os) ])

  unfoldable pub restore_params : ℕ → List Ptr → List Ptr → List Ptr → Cmd (Heap Z Q) (Unit {0})
  restore_params f (v ∷ vars) (old ∷ olds) (a ∷ args) = do
    dec f a
    set_val v old
    restore_params f vars olds args
  restore_params f _ _ _ = pure tt

  -- `cache.get(path)->getData()`
  unfoldable pub look_up : List Ptr → Cmd (Machine Z Q) Ptr
  look_up path s =
      and_then (mem (inc_all (new_edges path s.cache)) s)
        λ _ s'. ok (get_data path s.cache) (record s' { cache = touch path s'.cache })

  -- `currLookup->setData(ret)`, with its assertion.
  unfoldable pub remember : List Ptr → Ptr → Cmd (Machine Z Q) (Unit {0})
  remember path ret s =
      if get_data path s.cache == null
      then mem (inc ret) (record s { cache = set_data path ret s.cache })
      else halt abort s

  -- The body of a program whose variables are bound, and their release.
  unfoldable pub run_body :
      ℕ
      → (Bool → Rec Z Q)
      → Bool
      → List Ptr
      → List Ptr
      → List Ptr
      → List Ptr
      → Ptr
      → Cmd (Machine Z Q) Ptr
  unfolding remember restore_params
  run_body f run call_cache path vars olds args body = do
    ret ← run call_cache body
    mem (restore_params f vars olds args)
    if call_cache && Common.not (ret == null) then remember path ret else pure tt
    pure ret

  -- A call whose variables are bound. A function's result is taken from the cache if it is there.
  -- A program is not to be called in a function.
  unfoldable pub call_bound :
      ℕ
      → (Bool → Rec Z Q)
      → Bool
      → Bool
      → List Ptr
      → List Ptr
      → List Ptr
      → List Ptr
      → Ptr
      → Cmd (Machine Z Q) Ptr
  unfolding look_up run_body
  call_bound f run use_cache is_function path vars olds args body =
      if is_function
      then (do
        found ← look_up path
        if found == null
            then run_body f run true path vars olds args body
            else (do mem (inc found); pure found))
      else (if use_cache then pure null else run_body f run false path vars olds args body)

  module _ (env : Env Z Q) where
    unfoldable pub call_program :
        ℕ → (Bool → Rec Z Q) → Bool → Ptr → List Ptr → List Ptr → Ptr → Cmd (Machine Z Q) Ptr
    unfolding bind_params call_bound
    call_program f run use_cache head vars args body = do
      olds ← mem (bind_params vars args)
      elim olds [
        | none ↦ do mem (dec_all f args); pure null
        | some os ↦
            call_bound f run use_cache (Common.mem head env.prog_functions) (head ∷ args) vars os
              args body
      ]

    abbrev pub is_syms : Node Z Q → Bool
    is_syms (syms s v) = true
    is_syms _ = false

    unfoldable pub run_app : ℕ → (Bool → Rec Z Q) → Bool → Ptr → Cmd (Machine Z Q) Ptr
    unfolding run_args call_program
    run_app f run use_cache e = do
      (args₀, hd) ← mem (collect_args f true e)
      results ← run_args f (run use_cache) [] args₀
      elim results [
        | none ↦ pure null
        | some args ↦ do
          o ← mem (getop hd)
          let construct : Cmd (Machine Z Q) Ptr = mem (do inc hd; build_app hd args)
          let call : Cmd (Machine Z Q) Ptr = do
            vars ← mem (kids (← mem (kid hd 1)))
            head ← mem (get_head f false e)
            n ← mem (node head)
            body ← mem (kid hd 2)
            let compiled : Cmd (Machine Z Q) Ptr =
                mem do ret ← env.run_compiled_scc head args; dec_all f args; pure ret
            if env.run_scc && is_syms n
                then compiled
                else call_program f run use_cache head vars args body
          if is_prog o then call else construct
      ]
