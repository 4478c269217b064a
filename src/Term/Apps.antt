-- ===== src/Term/Apps.antt =====
-- The case of `check` for applications.
use lfsc.Common.{
  ℕ, zero, suc, ◌-◌, Bool, true, false, ◌&&◌, ◌||◌, not, Option, none, List, [], ◌∷◌, ◌++◌, ◌==◌,
  if◌then◌else◌,
}
use lfsc.Header.{is_pi}
use lfsc.Heap.{
  Ptr, null, Node, hole, timeout, fault, Heap, Cmd, pure, halt, report_error, ◌>>=◌, ◌>>◌, getop,
  set_mark, mark, node, op_of, kids_of, nth, set_val,
}
use lfsc.Heap.Count.{inc, dec}
use lfsc.Expr.{follow_defs}
use lfsc.Expr.Clone.{clone}
use lfsc.Expr.FreeIn.{free_in}
use lfsc.Lexer.{Token, same_token, next_token, reinsert_token}
use lfsc.Session.{Session, Config, gets, modify, scan, mem, require, eat_excess, call_run_code}
use lfsc.Read.{apply_to}
use lfsc.Term.{Ask, Answer, Rec, answer, computing, is_run, store, stored, must_equal}

module _ {Z Q : Type 0} where
  -- The value of a hole.
  unfoldable pub hole_val : Ptr → Cmd (Heap Z Q) Ptr
  hole_val p = do n ← node p; elim n [ hole v ↦ pure v | _ ↦ halt fault ]

  -- The holes at a tail call: one that is not filled must be free in the domain, which is what the
  -- tail call expects.
  unfoldable pub tail_holes : ℕ → Ptr → List Ptr → Cmd (Session Z Q) (Unit {0})
  tail_holes f domain [] = pure tt
  tail_holes f domain (h ∷ hs) = do
    v ← mem (hole_val h)
    free ← if v == null then mem (free_in f h domain) else pure true
    require free
    mem (dec f h)
    tail_holes f domain hs

  -- The holes at the end: in an ascription they are collected, elsewhere they must be filled.
  unfoldable pub end_holes : ℕ → Bool → List Ptr → Cmd (Session Z Q) (Unit {0})
  end_holes f in_asc [] = pure tt
  end_holes f in_asc (h ∷ hs) = do
    v ← mem (hole_val h)
    let unfilled : Cmd (Session Z Q) (Unit {0}) =
        if in_asc
        then modify (λ s. record s { asc_holes = s.asc_holes ++ h ∷ [] })
        else halt report_error
    if v == null then unfilled else pure tt
    mem (dec f h)
    end_holes f in_asc hs

  -- The type of the head is used by one application: it is a clone if it was used before.
  unfoldable pub own_type : ℕ → Ptr → Cmd (Heap Z Q) Ptr
  own_type f computed = do
    tp ← follow_defs f computed
    inc tp
    dec f computed
    used ← mark tp
    if used then (do c ← clone f tp; dec f tp; pure c) else (do set_mark tp true; pure tp)

  -- `headtp_range->inc(); headtp->dec(); headtp = headtp_range`
  unfoldable pub into_range : ℕ → Ptr → Ptr → Cmd (Heap Z Q) (Unit {0})
  into_range f tp range = do inc range; dec f tp

  module _ (cfg : Config Z Q) where
    -- A side condition must have a result, which the expected one must equal.
    unfoldable pub side_condition : ℕ → Ptr → Ptr → Cmd (Session Z Q) Ptr
    side_condition f code expected_result = do
      r ← call_run_code cfg f code
      require (not (r == null))
      must_equal cfg.gmp f expected_result r
      pure r

    -- The side condition that is left when the arguments have been read.
    unfoldable pub trailing_run : ℕ → Ptr → Cmd (Session Z Q) Ptr
    trailing_run f tp = do
      n ← mem (node tp)
      d ← if is_pi (op_of n) then mem (node (nth (kids_of n) 1)) else pure n
      let run : Cmd (Session Z Q) Ptr = do
        code ← mem (follow_defs f (nth (kids_of d) 0))
        r ← side_condition f code (nth (kids_of d) 1)
        mem do into_range f tp (nth (kids_of n) 2); dec f r
        pure (nth (kids_of n) 2)
      if is_pi (op_of n) && is_run (op_of d) then run else pure tp

    unfoldable pub end_app : ℕ → Ask → Ptr → Ptr → List Ptr → Cmd (Session Z Q) Answer
    end_app f a head headtp holes = do
      modify λ s. record s { open_parens = s.open_parens - 1 }
      tp ← trailing_run f headtp
      let equal : Cmd (Session Z Q) (Option Ptr) = do
        must_equal cfg.gmp f a.expected tp
        mem do dec f a.expected; dec f tp
        pure none
      o ← if a.expected == null then store a tp else equal
      end_holes f a.in_asc holes
      pure (answer (if a.create then head else null) o)

    -- The last argument of an application that is not created is checked by a tail call.
    unfoldable pub tail_arg :
        ℕ → Rec Z Q → Ask → Ptr → Ptr → Ptr → List Ptr → Cmd (Session Z Q) Answer
    tail_arg f rec a tp domain range holes = do
      let equal : Cmd (Session Z Q) (Option Ptr) = do
        must_equal cfg.gmp f a.expected range
        mem (dec f a.expected)
        pure none
      o ← if a.expected == null then (do mem (inc range); store a range) else equal
      mem (dec f tp)
      tail_holes f domain holes
      r ← rec (record a { create = false; expected = domain; computed = false; is_hole = false })
      pure (answer r.term o)

    -- The loop of an application, at a head, its type and the holes among its arguments.
    abbrev Loop : Type 0
    Loop = Ptr → Ptr → List Ptr → Cmd (Session Z Q) Answer

    -- An argument that is no tail call. `prev` is the number of open parentheses before it.
    unfoldable pub whole_arg :
        ℕ
        → Rec Z Q
        → Ask
        → Loop
        → ℕ
        → Bool
        → Bool
        → Ptr
        → Ptr
        → Node Z Q
        → List Ptr
        → Cmd (Session Z Q) Answer
    whole_arg f rec a loop prev create_arg var_in_range head tp pi holes = do
      r ← rec (record {
        create = create_arg;
        expected = nth (kids_of pi) 1;
        computed = false;
        is_hole = true;
        return_pos = false;
        in_asc = false;
      })
      eat_excess prev
      head' ← if a.create then apply_to f head r.term else pure head
      let subst : Cmd (Heap Z Q) (Unit {0}) = do
        tmp ← follow_defs f r.term
        inc tmp
        set_val (nth (kids_of pi) 0) tmp
      if var_in_range then mem subst else pure tt
      if r.hole && a.create then mem (inc r.term) else pure tt
      mem (into_range f tp (nth (kids_of pi) 2))
      loop head' (nth (kids_of pi) 2) (if r.hole then holes ++ r.term ∷ [] else holes)

    unfoldable pub check_arg :
        ℕ → Rec Z Q → Ask → Loop → ℕ → Ptr → Ptr → Node Z Q → List Ptr → Cmd (Session Z Q) Answer
    check_arg f rec a loop prev head tp pi holes = do
      var_in_range ← mem (mark tp)
      let create_arg = a.create || var_in_range
      mem (inc (nth (kids_of pi) 1))
      o ← mem (getop (nth (kids_of pi) 2))
      if cfg.tail_calls && not create_arg && not (is_pi o)
          then tail_arg f rec a tp (nth (kids_of pi) 1) (nth (kids_of pi) 2) holes
          else whole_arg f rec a loop prev create_arg var_in_range head tp pi holes

    -- A round of the loop: a side condition in the type of the head is run, otherwise an argument
    -- is read.
    unfoldable pub app_round :
        ℕ → Rec Z Q → Ask → Loop → ℕ → Ptr → Ptr → List Ptr → Cmd (Session Z Q) Answer
    app_round f rec a loop prev head tp holes = do
      pi ← mem (node tp)
      require (is_pi (op_of pi))
      d ← mem (node (nth (kids_of pi) 1))
      let run : Cmd (Session Z Q) Answer = do
        r ← side_condition f (nth (kids_of d) 0) (nth (kids_of d) 1)
        mem do dec f r; into_range f tp (nth (kids_of pi) 2)
        loop head (nth (kids_of pi) 2) holes
      if is_run (op_of d) then run else check_arg f rec a loop prev head tp pi holes

    unfoldable pub app_loop :
        ℕ → Rec Z Q → Ask → ℕ → ℕ → Ptr → Ptr → List Ptr → Cmd (Session Z Q) Answer
    app_loop f rec a prev zero head tp holes = halt timeout
    app_loop f rec a prev (suc g) head tp holes = do
      c ← scan next_token
      let round : Cmd (Session Z Q) Answer = do
        scan (reinsert_token c)
        app_round f rec a (app_loop f rec a prev g) prev head tp holes
      if same_token c Token.close then end_app f a head tp holes else round

    unfoldable pub check_app : ℕ → Rec Z Q → Ask → Token → Cmd (Session Z Q) Answer
    check_app f rec a c = do
      scan (reinsert_token c)
      prev ← gets λ s. s.open_parens
      h ← rec (computing a.create)
      eat_excess prev
      computed ← stored h
      tp ← mem (own_type f computed)
      app_loop f rec a prev f h.term tp []
