-- ===== src/Read/Code.antt =====
-- `read_code` of src/code.cpp: its cases put together.
use lfsc.Common.{ℕ, zero, suc, ◌-◌, none, some, [], ◌∷◌, ◌==◌, not, if◌then◌else◌}
use lfsc.Header.{Op}
use lfsc.Gmp.{Gmp}
use lfsc.Trie.{Key}
use lfsc.Heap.{
  Ptr, null, int, rat, Heap, report_error, timeout, Cmd, pure, halt, ◌>>=◌, ◌>>◌, alloc, read,
  write,
}
use lfsc.Heap.Count.{inc}
use lfsc.Lexer.{Token, same_token, next_token, reinsert_token, token_str, eat_token}
use lfsc.Code.Symbols.{get_symbol}
use lfsc.Session.{scan, typed, mem, require, get_prog}
use lfsc.Read.{
  Reader, mark_index, has_mark, new_cexpr, apply_to, read_seq, read_cases, read_let, read_times,
  read_op,
}

module _ {Z Q : Type 0} where
  unfoldable pub read_do : ℕ → Reader Z Q → Reader Z Q
  read_do f rec = do e ← rec; read_seq rec f e

  unfoldable pub read_match : ℕ → Reader Z Q → Reader Z Q
  read_match f rec = do
    e ← rec
    cs ← read_cases f rec f
    elim cs [ [] ↦ halt report_error | c ∷ cs' ↦ new_cexpr Op.match (e ∷ c ∷ cs') ]

  -- The arguments of an application, up to the `)`.
  unfoldable pub read_args : ℕ → Reader Z Q → ℕ → Ptr → Reader Z Q
  read_args f rec zero ret = halt timeout
  read_args f rec (suc g) ret = do
    c ← scan next_token
    let more : Reader Z Q = do
      scan (reinsert_token c)
      e ← rec
      r ← apply_to f ret e
      read_args f rec g r
    if same_token c Token.close then pure ret else more

  -- The expression of a name: of a program before one of the symbol table, or the other way.
  unfoldable pub prog_first : Key → Reader Z Q
  prog_first id = do
    p ← get_prog id
    if p == null then (do b ← typed (get_symbol id); pure b.0) else pure p

  unfoldable pub symbol_first : Key → Reader Z Q
  symbol_first id = do b ← typed (get_symbol id); if b.0 == null then get_prog id else pure b.0

  unfoldable pub read_app : ℕ → Reader Z Q → Reader Z Q
  read_app f rec = do
    id ← scan token_str
    head ← prog_first id
    require (not (head == null))
    mem (inc head)
    read_args f rec f head

  unfoldable pub read_ident : Reader Z Q
  read_ident = do
    id ← scan token_str
    e ← symbol_first id
    require (not (e == null))
    mem (inc e)
    pure e

  module _ (gmp : Gmp Z Q) where
    -- `new IntExpr(…)` and `new RatExpr(…)` of the text of the token.
    unfoldable pub read_natural : Reader Z Q
    read_natural = do
      text ← scan token_str
      elim (gmp.mpz_set_str text) [ none ↦ halt report_error | some n ↦ mem (alloc (int n)) ]

    unfoldable pub read_rational : Reader Z Q
    read_rational = do
      text ← scan token_str
      elim (gmp.mpq_set_str text) [ none ↦ halt report_error | some n ↦ mem (alloc (rat n)) ]

    -- A literal is negated where it stands in memory; another expression is an error.
    unfoldable pub negate : Ptr → Cmd (Heap Z Q) (Unit {0})
    negate e = do
      c ← read e
      elim c.node [
        | int n ↦ write e (some (record c { node = int (gmp.mpz_neg n) }))
        | rat n ↦ write e (some (record c { node = rat (gmp.mpq_neg n) }))
        | _ ↦ halt report_error
      ]

    unfoldable pub read_tilde : Reader Z Q → Reader Z Q
    read_tilde rec = do e ← rec; mem (negate e); scan (eat_token Token.close); pure e

    -- An index that is out of range gives NULL; MARKVAR then reads no code.
    unfoldable pub read_if_marked : Reader Z Q → Reader Z Q
    read_if_marked rec = do
      text ← scan token_str
      let index = mark_index 8 text
      es ← read_times rec 3
      ret ←
          if has_mark index
          then (do
            i ← mem (alloc (int (gmp.mpz_set_si (index - 1))))
            new_cexpr Op.ifmarked (i ∷ es))
          else pure null
      scan (eat_token Token.close)
      pure ret

    unfoldable pub read_mark_var : Reader Z Q → Reader Z Q
    read_mark_var rec = do
      text ← scan token_str
      let index = mark_index 7 text
      let marks : Reader Z Q = do
        i ← mem (alloc (int (gmp.mpz_set_si (index - 1))))
        e ← rec
        new_cexpr Op.markvar (i ∷ e ∷ [])
      ret ← if has_mark index then marks else pure null
      scan (eat_token Token.close)
      pure ret

    -- What follows `(`.
    unfoldable pub read_open : ℕ → Reader Z Q → Token → Reader Z Q
    read_open f rec Token.do_ = read_do f rec
    read_open f rec Token.fail = read_op rec Op.fail 1
    read_open f rec Token.at = read_let rec
    read_open f rec Token.if_marked = read_if_marked rec
    read_open f rec Token.if_equal = read_op rec Op.ifequal 4
    read_open f rec Token.match = read_match f rec
    read_open f rec Token.mark_var = read_mark_var rec
    read_open f rec Token.mp_add = read_op rec Op.add 2
    read_open f rec Token.mp_mul = read_op rec Op.mul 2
    read_open f rec Token.mp_div = read_op rec Op.div 2
    read_open f rec Token.mp_neg = read_op rec Op.neg 1
    read_open f rec Token.mpz_to_mpq = read_op rec Op.mpz_to_mpq 1
    read_open f rec Token.mp_if_neg = read_op rec Op.ifneg 3
    read_open f rec Token.mp_if_zero = read_op rec Op.ifzero 3
    read_open f rec Token.tilde = read_tilde rec
    read_open f rec Token.compare = read_op rec Op.compare 4
    read_open f rec Token.eof = halt report_error
    read_open f rec c = read_app f rec

    unfoldable pub read_token : ℕ → Reader Z Q → Token → Reader Z Q
    read_token f rec Token.open_ = do c ← scan next_token; read_open f rec c
    read_token f rec Token.natural = read_natural
    read_token f rec Token.rational = read_rational
    read_token f rec Token.eof = halt report_error
    read_token f rec d = read_ident

    unfoldable pub read_code : ℕ → Reader Z Q
    read_code zero = halt timeout
    read_code (suc f) = do d ← scan next_token; read_token f (read_code f) d
