-- ===== src/Term/Cases.antt =====
-- The cases of `check` for code, ascriptions and negative numbers, and for terms without
-- parentheses.
use lfsc.Common.{ℕ, true, false, ◌&&◌, not, Option, none, some, [], ◌∷◌, ◌==◌, if◌then◌else◌}
use lfsc.Header.{Op}
use lfsc.Gmp.{Gmp}
use lfsc.Heap.{Ptr, null, hole, cexp, Cmd, pure, halt, report_error, ◌>>=◌, ◌>>◌, alloc, getop}
use lfsc.Heap.Count.{inc, dec}
use lfsc.Lexer.{Token, token_str}
use lfsc.Code.Symbols.{get_symbol, stat_type, stat_mpz, stat_mpq}
use lfsc.Code.Check.Simple.{is_number}
use lfsc.Code.Check.Types.{check_code}
use lfsc.Session.{Session, gets, scan, typed, mem, require, eat_rparen, eat_excess}
use lfsc.Read.{Reader}
use lfsc.Read.Code.{read_code, read_natural, read_rational, negate}
use lfsc.Term.{Ask, Answer, Rec, answer, against, is_type_op, store, stored, must_equal}

module _ {Z Q : Type 0} (gmp : Gmp Z Q) where
  -- `(^ code term)`
  unfoldable pub check_run : ℕ → Rec Z Q → Ask → Cmd (Session Z Q) Answer
  check_run f rec a = do
    allowed ← gets λ s. s.allow_run
    require (allowed && a.create && not (a.expected == null))
    code ← read_code gmp f
    progret ← typed (check_code gmp f code)
    prev ← gets λ s. s.open_parens
    mem (inc progret)
    r ← rec (against true progret)
    eat_excess prev
    eat_rparen
    o ← mem (getop a.expected)
    require (is_type_op o)
    mem (dec f a.expected)
    p ← mem (alloc (cexp Op.run (code ∷ r.term ∷ [])))
    pure (answer p none)

  -- `(: type term)`. Where a type is expected, the term is given back also if it was not created.
  unfoldable pub check_ascription : ℕ → Rec Z Q → Ask → Cmd (Session Z Q) Answer
  check_ascription f rec a = do
    mem (inc stat_type)
    prev ← gets λ s. s.open_parens
    t ← rec (record {
      create = true;
      expected = stat_type;
      computed = false;
      is_hole = false;
      return_pos = false;
      in_asc = true;
    })
    eat_excess prev
    if a.expected == null then mem (inc t.term) else pure tt
    r ← rec (record {
      create = a.create;
      expected = t.term;
      computed = false;
      is_hole = false;
      return_pos = a.return_pos;
      in_asc = false;
    })
    eat_excess prev
    eat_rparen
    let computed : Cmd (Session Z Q) (Option Ptr) = store a t.term
    let equal : Cmd (Session Z Q) (Option Ptr) = do
      must_equal gmp f a.expected t.term
      mem (dec f a.expected)
      if a.create then pure tt else mem (dec f r.term)
      pure none
    o ← if a.expected == null then computed else equal
    pure (answer (if a.create then r.term else null) o)

  -- `(~ number)`
  unfoldable pub check_negative : Rec Z Q → Ask → Cmd (Session Z Q) Answer
  check_negative rec a = do
    prev ← gets λ s. s.open_parens
    r ← rec (record a { in_asc = false })
    eat_excess prev
    eat_rparen
    tp ← if a.expected == null then stored r else pure a.expected
    require (is_number tp)
    if a.create then mem (negate gmp r.term) else pure tt
    pure (record r { term = if a.create then r.term else null })

  unfoldable pub check_hole : ℕ → Ask → Cmd (Session Z Q) Answer
  check_hole f a = do
    require a.is_hole
    if a.expected == null then pure tt else mem (dec f a.expected)
    p ← mem (alloc (hole null))
    pure (record { term = p; classifier = none; hole = true })

  -- A number, whose type is the static expression `tp`.
  unfoldable pub check_number : ℕ → Ptr → Reader Z Q → Ask → Cmd (Session Z Q) Answer
  check_number f tp make a = do
    o ←
        if a.expected == null
        then (do mem (inc tp); store a tp)
        else (do require (a.expected == tp); mem (dec f a.expected); pure none)
    p ← if a.create then make else pure null
    pure (answer p o)

  -- A name. Its type is not stored where `computed` is NULL.
  unfoldable pub check_ident : ℕ → Ask → Cmd (Session Z Q) Answer
  check_ident f a = do
    id ← scan token_str
    b ← typed (get_symbol id)
    require (not (b.0 == null))
    let computed : Cmd (Session Z Q) (Option Ptr) =
        if a.computed then (do mem (inc b.1); pure (some b.1)) else pure none
    let equal : Cmd (Session Z Q) (Option Ptr) = do
      must_equal gmp f a.expected b.1
      mem (dec f a.expected)
      pure none
    o ← if a.expected == null then computed else equal
    if a.create then mem (inc b.0) else pure tt
    pure (answer (if a.create then b.0 else null) o)

  -- What is not in parentheses.
  unfoldable pub check_leaf : ℕ → Token → Ask → Cmd (Session Z Q) Answer
  check_leaf f Token.eof a = halt report_error
  check_leaf f Token.hole a = check_hole f a
  check_leaf f Token.natural a = check_number f stat_mpz (read_natural gmp) a
  check_leaf f Token.rational a = check_number f stat_mpq (read_rational gmp) a
  check_leaf f t a = check_ident f a
