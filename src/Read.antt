-- ===== src/Read.antt =====
-- The parser of code, `read_ctor`, `read_case` and `read_code` of src/code.cpp. `rec` is the
-- recursive call of read_code. The fuel `f` also bounds the rounds of each loop, a token at least
-- in a round, and the depth of `dec`. The messages of errors are left out.
pub mod Code
pub mod Stable
use lfsc.Common.{
  ℕ, zero, suc, ◌+◌, ◌*◌, ◌-◌, Bool, true, false, ◌&&◌, not, Option, none, some, List, [], ◌∷◌,
  ◌==◌, ltb, leb, list_eq, length, if◌then◌else◌,
}
use lfsc.Header.{Op}
use lfsc.Gmp.{Gmp}
use lfsc.Trie.{Key, is_empty}
use lfsc.Heap.{
  Ptr, null, Node, int, rat, cexp, Heap, report_error, timeout, Cmd, ok, stop, pure, halt, and_then,
  ◌>>=◌, ◌>>◌, alloc, node, read, write,
}
use lfsc.Heap.Count.{inc, dec}
use lfsc.Expr.{make_app}
use lfsc.Lexer.{Token, same_token, next_token, reinsert_token, token_str, eat_token, prefix_id}
use lfsc.Code.Symbols.{Binding, get_symbol}
use lfsc.Code.Check.Simple.{is_base}
use lfsc.Session.{Session, scan, typed, mem, bind_symbol, new_sym, require, get_prog}

-- The name "default".
abbrev default_name : Key
default_name = b'd' ∷ b'e' ∷ b'f' ∷ b'a' ∷ b'u' ∷ b'l' ∷ b't' ∷ []

-- `atoi`, at the digits that follow the name of a mark.
abbrev atoi_from : ℕ → Key → ℕ
atoi_from n [] = n
atoi_from n (c ∷ k) = if leb b'0' c && leb c b'9' then atoi_from (10 * n + (c - b'0')) k else n

abbrev skip : ℕ → Key → Key
skip zero k = k
skip (suc n) [] = []
skip (suc n) (c ∷ k) = skip n k

-- The index of a mark, in a token whose name has `n` characters.
abbrev pub mark_index : ℕ → Key → ℕ
mark_index n text = if ltb n (length text) then atoi_from 0 (skip n text) else 1

abbrev pub has_mark : ℕ → Bool
has_mark i = leb 1 i && leb i 32

-- What reads an expression, as the recursive call does.
abbrev pub Reader : Type 0 → Type 0 → Type 0
Reader Z Q = Cmd (Session Z Q) Ptr

module _ {Z Q : Type 0} where
  -- `new CExpr(…)`
  unfoldable pub new_cexpr : Op → List Ptr → Reader Z Q
  new_cexpr o ks = mem (alloc (cexp o ks))

  -- `make_app`, which gives back the reference of a head that is a CExpr.
  unfoldable pub apply_to : ℕ → Ptr → Ptr → Reader Z Q
  apply_to f head arg = mem do
    r ← make_app head arg
    n ← node head
    elim n [ cexp o ks ↦ dec f head | _ ↦ pure tt ]
    pure r

  -- NULL for "default".
  unfoldable pub read_ctor : Reader Z Q
  read_ctor = do
    id ← scan prefix_id
    if list_eq id default_name then pure null else do
      b ← typed (get_symbol id)
      require (not (b.1 == null))
      n ← mem (node b.0)
      require (is_base n)
      mem (inc b.0)
      pure b.0

  -- The variables of a pattern, each bound and applied to what was read, and the bindings they hide.
  unfoldable pub read_vars : ℕ → ℕ → Ptr → Cmd (Session Z Q) (Ptr × List (Key × Binding))
  read_vars f zero pat = halt timeout
  read_vars f (suc g) pat = do
    c ← scan next_token
    let var : Cmd (Session Z Q) (Ptr × List (Key × Binding)) = do
      scan (reinsert_token c)
      id ← scan prefix_id
      require (not (is_empty id))
      v ← new_sym id
      prev ← bind_symbol id (v, null)
      pat' ← apply_to f pat v
      (r, prevs) ← read_vars f g pat'
      pure (r, (id, prev) ∷ prevs)
    if same_token c Token.close then pure (pat, []) else var

  unfoldable pub read_pattern : ℕ → Token → Cmd (Session Z Q) (Ptr × List (Key × Binding))
  read_pattern f Token.open_ = do pat ← read_ctor; require (not (pat == null)); read_vars f f pat
  read_pattern f Token.eof = halt report_error
  read_pattern f d = do scan (reinsert_token d); pat ← read_ctor; pure (pat, [])

  -- The hidden bindings are put back from the last to the first.
  unfoldable pub restore : List (Key × Binding) → Cmd (Session Z Q) (Unit {0})
  restore [] = pure tt
  restore ((id, prev) ∷ l) = do restore l; bind_symbol id prev; pure tt

  unfoldable pub read_case : ℕ → Reader Z Q → Reader Z Q
  read_case f rec = do
    scan (eat_token Token.open_)
    d ← scan next_token
    (pat, prevs) ← read_pattern f d
    body ← rec
    ret ← if pat == null then pure body else new_cexpr Op.case (pat ∷ body ∷ [])
    restore prevs
    scan (eat_token Token.close)
    pure ret

  -- The loop of DO, and that of MATCH, whose result is the cases.
  unfoldable pub read_seq : Reader Z Q → ℕ → Ptr → Reader Z Q
  read_seq rec zero ret = halt timeout
  read_seq rec (suc g) ret = do
    c ← scan next_token
    let more : Reader Z Q = do
      scan (reinsert_token c)
      e ← rec
      r ← new_cexpr Op.do_ (ret ∷ e ∷ [])
      read_seq rec g r
    if same_token c Token.close then pure ret else more

  unfoldable pub read_cases : ℕ → Reader Z Q → ℕ → Cmd (Session Z Q) (List Ptr)
  read_cases f rec zero = halt timeout
  read_cases f rec (suc g) = do
    c ← scan next_token
    let more : Cmd (Session Z Q) (List Ptr) = do
      scan (reinsert_token c)
      e ← read_case f rec
      es ← read_cases f rec g
      pure (e ∷ es)
    if same_token c Token.close then pure [] else more

  -- `(@ id t₁ t₂)`: the name is bound while the body is read.
  unfoldable pub read_let : Reader Z Q → Reader Z Q
  read_let rec = do
    id ← scan prefix_id
    var ← new_sym id
    t₁ ← rec
    prev ← bind_symbol id (var, null)
    t₂ ← rec
    bind_symbol id prev
    scan (eat_token Token.close)
    new_cexpr Op.let_ (var ∷ t₁ ∷ t₂ ∷ [])

  -- `n` operands.
  unfoldable pub read_times : Reader Z Q → ℕ → Cmd (Session Z Q) (List Ptr)
  read_times rec zero = pure []
  read_times rec (suc n) = do e ← rec; es ← read_times rec n; pure (e ∷ es)

  -- An operator with `n` operands.
  unfoldable pub read_op : Reader Z Q → Op → ℕ → Reader Z Q
  read_op rec o n = do
    es ← read_times rec n
    r ← new_cexpr o es
    scan (eat_token Token.close)
    pure r
