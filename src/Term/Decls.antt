-- ===== src/Term/Decls.antt =====
-- Lists of declarations, src/check.cpp: `check_decl_list`, `build_validate_pi`, `build_macro`, and
-- the case of `check` for arrows.
use lfsc.Common.{ℕ, zero, suc, Bool, true, not, none, List, [], ◌∷◌, ◌==◌, if◌then◌else◌}
use lfsc.Trie.{Key, is_empty}
use lfsc.Heap.{Ptr, null, syms, timeout, fault, Cmd, pure, halt, ◌>>=◌, ◌>>◌, getop, mark, node}
use lfsc.Heap.Count.{inc, dec}
use lfsc.Expr.Defeq.{set_kid}
use lfsc.Lexer.{Token, same_token, next_token, reinsert_token, eat_token, prefix_id}
use lfsc.Code.Symbols.{Binding, stat_type}
use lfsc.Session.{Session, scan, mem, bind_symbol, new_sym, require, eat_rparen}
use lfsc.Read.{restore}
use lfsc.Term.{
  Ask, Answer, Rec, answer, against, computing, is_sort, store, stored, new_pi, cloned_lam,
}

-- A declared symbol and its type.
abbrev pub Decl : Type 0
Decl = Ptr × Ptr

-- The name "_".
abbrev blank_name : Key
blank_name = b'_' ∷ []

module _ {Z Q : Type 0} where
  -- A name, empty for none, and a type. A type in parentheses is only classified, its classifier
  -- may be anything.
  unfoldable pub check_decl_list_item : ℕ → Rec Z Q → Cmd (Session Z Q) (Key × Ptr)
  check_decl_list_item f rec = do
    t ← scan next_token
    let named : Cmd (Session Z Q) (Key × Ptr) = do
      id ← scan prefix_id
      r ← rec (against true stat_type)
      scan (eat_token Token.close)
      pure (id, r.term)
    let complex : Token → Cmd (Session Z Q) (Key × Ptr) = λ t₂. do
      scan (reinsert_token t₂)
      scan (reinsert_token t)
      r ← rec (computing true)
      dummy ← stored r
      mem (dec f dummy)
      pure ([], r.term)
    let simple : Cmd (Session Z Q) (Key × Ptr) = do
      scan (reinsert_token t)
      r ← rec (against true stat_type)
      pure ([], r.term)
    if same_token t Token.open_
        then (do t₂ ← scan next_token; if same_token t₂ Token.colon then named else complex t₂)
        else simple

  -- The declarations are saved where they are asked for, and the bindings that named ones hide.
  unfoldable pub check_decls :
      ℕ → Rec Z Q → Bool → ℕ → Cmd (Session Z Q) (List Decl × List (Key × Binding))
  check_decls f rec create zero = halt timeout
  check_decls f rec create (suc g) = do
    t ← scan next_token
    let saved : Decl → List Decl → List Decl = λ d ds. if create then d ∷ ds else ds
    let item : Cmd (Session Z Q) (List Decl × List (Key × Binding)) = do
      scan (reinsert_token t)
      (id, tp) ← check_decl_list_item f rec
      let unnamed : Cmd (Session Z Q) (List Decl × List (Key × Binding)) = do
        var ← new_sym blank_name
        (ds, olds) ← check_decls f rec create g
        pure (saved (var, tp) ds, olds)
      let named : Cmd (Session Z Q) (List Decl × List (Key × Binding)) = do
        var ← new_sym id
        old ← bind_symbol id (var, tp)
        (ds, olds) ← check_decls f rec create g
        pure (saved (var, tp) ds, (id, old) ∷ olds)
      if is_empty id then unnamed else named
    if same_token t Token.close then pure ([], []) else item

  unfoldable pub check_decl_list :
      ℕ → Rec Z Q → Bool → Cmd (Session Z Q) (List Decl × List (Key × Binding))
  check_decl_list f rec create = do scan (eat_token Token.open_); check_decls f rec create f

  -- The Π of each declaration over `ret`, the last one first.
  unfoldable pub nest_pi : ℕ → List Decl → Ptr → Cmd (Session Z Q) Ptr
  nest_pi f [] ret = pure ret
  nest_pi f ((var, tp) ∷ ds) ret = do r ← nest_pi f ds ret; new_pi f var tp r

  -- The Π and its classifier.
  unfoldable pub build_validate_pi :
      ℕ → List Decl → Ptr → Ptr → Bool → Cmd (Session Z Q) (Ptr × Ptr)
  build_validate_pi f ds ret ret_kind create = do
    o ← mem (getop ret_kind)
    require (is_sort o)
    p ← if create then nest_pi f ds ret else pure null
    pure (p, ret_kind)

  -- A copy of a variable with its name.
  unfoldable pub same_name : Ptr → Cmd (Session Z Q) Ptr
  same_name p = do n ← mem (node p); elim n [ syms s v ↦ new_sym s | _ ↦ halt fault ]

  -- A λ and a Π for each declaration, the last one first. No type may depend on its variable.
  unfoldable pub build_macro : ℕ → List Decl → Ptr → Ptr → Cmd (Session Z Q) (Ptr × Ptr)
  build_macro f [] ret ret_ty = pure (ret, ret_ty)
  build_macro f ((var, tp) ∷ ds) ret ret_ty = do
    (body, ty) ← build_macro f ds ret ret_ty
    mem (inc tp)
    p ← new_pi f var tp ty
    free ← mem (mark p)
    require (not free)
    var' ← same_name var
    mem (set_kid p 0 var')
    l ← cloned_lam var body
    pure (l, p)

  -- `(-> (…) range)`
  unfoldable pub check_arrow : ℕ → Rec Z Q → Ask → Cmd (Session Z Q) Answer
  check_arrow f rec a = do
    (ds, olds) ← check_decl_list f rec a.create
    r ← rec (computing a.create)
    restore olds
    eat_rparen
    ret_kind ← stored r
    p ← build_validate_pi f ds r.term ret_kind a.create
    o ← if a.expected == null then store a p.1 else (do mem (dec f p.1); pure none)
    pure (answer p.0 o)
