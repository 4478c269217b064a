-- ===== src/Term/Binders.antt =====
-- The cases of `check` for what binds a variable: Π, the annotated λ, the big λ, λ and the local
-- definition.
use lfsc.Common.{ℕ, Bool, true, false, ◌&&◌, not, none, [], ◌∷◌, ◌==◌, if◌then◌else◌}
use lfsc.Header.{Op, is_pi}
use lfsc.Gmp.{Gmp}
use lfsc.Trie.{Key}
use lfsc.Heap.{Ptr, null, cexp, Cmd, pure, ◌>>=◌, ◌>>◌, alloc, getop, mark, kid, sym_val, set_val}
use lfsc.Heap.Count.{inc, dec}
use lfsc.Expr.{follow_defs}
use lfsc.Expr.Defeq.{set_kid}
use lfsc.Lexer.{prefix_id}
use lfsc.Code.Symbols.{stat_type}
use lfsc.Session.{
  Session, Config, gets, modify, scan, mem, bind_symbol, new_sym, inc_if, dec_if, require,
  eat_rparen, eat_excess,
}
use lfsc.Term.{
  Ask, Answer, Rec, answer, against, computing, or_null, is_sort, is_type_op, store, stored,
  head_op, new_pi, must_equal, insert_and_bind, cloned_lam,
}

module _ {Z Q : Type 0} where
  -- The domain of a Π or an annotated λ, in which code may be run.
  unfoldable pub check_domain : Rec Z Q → Cmd (Session Z Q) Ptr
  check_domain rec = do
    modify λ s. record s { allow_run = true }
    prevo ← gets λ s. s.open_parens
    d ← rec (against true stat_type)
    eat_excess prevo
    modify λ s. record s { allow_run = false }
    pure d.term

  -- What ends a Π: its classifier must be "type" or "kind". It is not asked for where the term is
  -- created and no classifier is expected.
  unfoldable pub close_pi : ℕ → Ask → Ptr → Ptr → Answer → Cmd (Session Z Q) Answer
  close_pi f a var domain r =
      let made : Cmd (Session Z Q) Answer = do
        p ← new_pi f var domain r.term
        pure (answer p r.classifier)
      in if not (a.expected == null)
        then (do
          o ← head_op f a.expected
          mem (dec f a.expected)
          require (is_sort o)
          if a.create then made else pure (answer null r.classifier))
        else if a.create
        then made
        else (do
          tp ← stored r
          o ← head_op f tp
          require (is_sort o)
          pure (answer null r.classifier))

  unfoldable pub check_pi : ℕ → Rec Z Q → Ask → Cmd (Session Z Q) Answer
  check_pi f rec a = do
    id ← scan prefix_id
    var ← new_sym id
    prevo ← gets λ s. s.open_parens
    domain ← check_domain rec
    prev ← bind_symbol id (var, domain)
    inc_if a.expected
    r ← rec (record a { is_hole = false; in_asc = false })
    eat_excess prevo
    eat_rparen
    bind_symbol id prev
    close_pi f a var domain r

  -- The type of an annotated λ, which must not depend on the variable, gets a variable of its own.
  unfoldable pub independent_pi : ℕ → Key → Ptr → Ptr → Ptr → Cmd (Session Z Q) Ptr
  independent_pi f id var domain range = do
    tp ← new_pi f var domain range
    free ← mem (mark tp)
    require (not free)
    var' ← new_sym id
    mem (set_kid tp 0 var')
    pure tp

  module _ (gmp : Gmp Z Q) where
    -- The range that is expected of an annotated λ, NULL for none.
    unfoldable pub expected_range : ℕ → Ask → Ptr → Cmd (Session Z Q) Ptr
    expected_range f a domain = if a.expected == null then pure null else (do
      mem (inc a.expected)
      o ← head_op f a.expected
      require (is_pi o)
      pi ← mem (follow_defs f a.expected)
      expected_domain ← mem (kid pi 1)
      must_equal gmp f expected_domain domain
      mem (kid pi 2))

    -- The classifier of the body is NULL where the call does not store one.
    unfoldable pub check_annotated : ℕ → Rec Z Q → Ask → Cmd (Session Z Q) Answer
    check_annotated f rec a = do
      id ← scan prefix_id
      var ← new_sym id
      prevo ← gets λ s. s.open_parens
      domain ← check_domain rec
      prev ← bind_symbol id (var, domain)
      range ← expected_range f a domain
      r ← rec (record {
        create = a.create;
        expected = range;
        computed = true;
        is_hole = false;
        return_pos = a.return_pos;
        in_asc = false;
      })
      dec_if f a.expected
      eat_excess prevo
      eat_rparen
      tp ← independent_pi f id var domain (or_null r.classifier)
      o ← store a tp
      bind_symbol id prev
      if a.create then (do l ← cloned_lam var r.term; pure (answer l o)) else pure (answer null o)

  -- The big λ: its variable stays bound until the command ends.
  unfoldable pub check_big : ℕ → Rec Z Q → Ask → Cmd (Session Z Q) Answer
  check_big f rec a = do
    big ← gets λ s. s.big_check
    require ((a.expected == null) && not a.create && a.return_pos && big)
    id ← scan prefix_id
    var ← new_sym id
    prevo ← gets λ s. s.open_parens
    d ← rec (against true stat_type)
    eat_excess prevo
    prev ← bind_symbol id (var, d.term)
    mem (inc d.term)
    modify λ s. record s { local_sym_names = (id, prev) ∷ s.local_sym_names }
    dec_if f prev.0
    dec_if f prev.1
    rec (record a { create = false; expected = null; is_hole = false })

  -- The tail call of a λ: the variable stays bound until the command ends.
  unfoldable pub lam_tail :
      ℕ → Rec Z Q → Ask → Key → (Ptr × Ptr) → Ptr → Ptr → Cmd (Session Z Q) Answer
  lam_tail f rec a id prev old_val range = do
    modify λ s. record s { local_sym_names = (id, prev) ∷ s.local_sym_names }
    dec_if f old_val
    dec_if f prev.0
    dec_if f prev.1
    mem (dec f a.expected)
    rec (record a { create = false; expected = range; computed = false; is_hole = false })

  -- Otherwise the body is checked, and what the λ bound is undone. The variable `pivar` of the
  -- expected Π stands for the variable of the λ meanwhile.
  unfoldable pub lam_whole :
      ℕ → Rec Z Q → Ask → Ptr → Ptr → Ptr → Ptr → Ptr → Key → (Ptr × Ptr) → Cmd (Session Z Q) Answer
  lam_whole f rec a var pivar old_val domain range id prev = do
    prevo ← gets λ s. s.open_parens
    r ← rec (record {
      create = a.create;
      expected = range;
      computed = false;
      is_hole = false;
      return_pos = a.return_pos;
      in_asc = false;
    })
    eat_excess prevo
    eat_rparen
    bind_symbol id prev
    mem (dec f domain)
    mem (set_val pivar old_val)
    mem (dec f a.expected)
    mem (dec f var)
    if a.create
        then (do l ← mem (alloc (cexp Op.lam (var ∷ r.term ∷ []))); pure (answer l none))
        else (do mem (dec f var); pure (answer null none))

  -- Whether the cases of λ and the local definition make a tail call.
  unfoldable pub in_tail : Config Z Q → Ask → Cmd (Session Z Q) Bool
  in_tail cfg a = do
    big ← gets λ s. s.big_check
    pure (cfg.tail_calls && big && a.return_pos && not a.create)

  unfoldable pub check_lam : Config Z Q → ℕ → Rec Z Q → Ask → Cmd (Session Z Q) Answer
  check_lam cfg f rec a = do
    require (not (a.expected == null))
    pi ← mem (follow_defs f a.expected)
    o ← mem (getop pi)
    require (is_pi o)
    id ← scan prefix_id
    var ← new_sym id
    domain ← mem (kid pi 1)
    range ← mem (kid pi 2)
    pivar ← mem (kid pi 0)
    ro ← head_op f range
    require (not (is_type_op ro))
    tail ← in_tail cfg a
    prev ← bind_symbol id (var, domain)
    old_val ← mem (sym_val pivar)
    mem do inc var; set_val pivar var; inc domain; inc range
    if tail
        then lam_tail f rec a id prev old_val range
        else lam_whole f rec a var pivar old_val domain range id prev

  -- The local definition. In a tail call its name stays bound, also when the command ends.
  unfoldable pub check_local : Config Z Q → ℕ → Rec Z Q → Ask → Cmd (Session Z Q) Answer
  check_local cfg f rec a = do
    id ← scan prefix_id
    var ← new_sym id
    prevo ← gets λ s. s.open_parens
    d ← rec (computing true)
    eat_excess prevo
    let tp = or_null d.classifier
    tail ← in_tail cfg a
    prev ← insert_and_bind f id var d.term tp
    if tail then (do dec_if f prev.0; dec_if f prev.1; rec a) else (do
      prevo' ← gets λ s. s.open_parens
      r ← rec (record a { in_asc = false })
      eat_excess prevo'
      eat_rparen
      bind_symbol id prev
      mem (dec f tp)
      mem (dec f var)
      pure r)
