-- ===== src/File/Names/Commands.antt =====
-- The commands that declare or define a name add it to the table, in which it is new, and change
-- nothing else there.
use lfsc.Common.{ℕ, List, Bool, true, false, ◌≡◌}
use lfsc.Trie.{Key}
use lfsc.Heap.{Ptr, Heap, ok}
use lfsc.Heap.Returns
use lfsc.Heap.Returns.{Gives}
use lfsc.Lexer.{Token, Lexer, prefix_id}
use lfsc.Code.Symbols.{Binding, stat_type, stat_kind}
use lfsc.Term.{Answer, stored, computing}
use lfsc.Term.Types.{check}
use lfsc.Term.Decls.{Decl, check_decl_list, build_validate_pi, build_macro}
use lfsc.Session.{Session, Config}
use lfsc.Session.Stable.{look, Stable}
use lfsc.File.{check_top, define, declare, declare_rule, declare_type, define_const}
use lfsc.File.Names.{NewName, IsDeclared, IsDefined}

-- The commands that add a name, but for "opaque".
abbrev pub adds_name : Token → Bool
adds_name Token.define = true
adds_name Token.declare = true
adds_name Token.declare_rule = true
adds_name Token.declare_type = true
adds_name Token.define_const = true
adds_name _ = false

module _ {Z Q : Type 0} (cfg : Config Z Q) (f : ℕ) where
  -- A definition of the term that was checked, with its type.
  abbrev pub IsDefine : Heap Z Q → Binding → Type 0
  IsDefine h b =
      (r : Answer) × (tp : Ptr) × Gives (check_top cfg f true) r
      × Gives {S = Session Z Q} (stored r) tp
      × IsDefined f r.term tp h b

  -- The type is the term that was checked.
  abbrev pub IsTerm : Ptr → Type 0
  IsTerm tp = (r : Answer) × Gives (check_top cfg f true) r × (tp ≡ r.term)

  -- The parameters, with the bindings that they hide.
  abbrev AreParams : List Decl × List (Key × Binding) → Type 0
  AreParams ds = Gives (check_decl_list f (check cfg f) true) ds

  -- The term and its type, as they are read.
  abbrev IsRead : Answer → Ptr → Type 0
  IsRead r tp = Gives (check cfg f (computing true)) r × Gives {S = Session Z Q} (stored r) tp

  -- The type is what is built of parameters and a term.
  abbrev pub IsRule : Ptr → Type 0
  IsRule tp =
      (ds : List Decl × List (Key × Binding)) × (r : Answer) × (kind : Ptr) × (p : Ptr × Ptr)
      × AreParams ds
      × IsRead r kind
      × Gives {S = Session Z Q} (build_validate_pi f ds.0 r.term kind true) p
      × (tp ≡ p.0)

  -- The type is what is built of parameters and the kind of types.
  abbrev pub IsFamily : Ptr → Type 0
  IsFamily tp =
      (ds : List Decl × List (Key × Binding)) × (p : Ptr × Ptr) × AreParams ds
      × Gives {S = Session Z Q} (build_validate_pi f ds.0 stat_type stat_kind true) p
      × (tp ≡ p.0)

  -- A definition of what is built of parameters, a term and its type.
  abbrev pub IsMacro : Heap Z Q → Binding → Type 0
  IsMacro h b =
      (ds : List Decl × List (Key × Binding)) × (r : Answer) × (tp : Ptr) × (m : Ptr × Ptr)
      × AreParams ds
      × IsRead r tp
      × Gives {S = Session Z Q} (build_macro f ds.0 r.term tp) m
      × IsDefined f m.0 m.1 h b

  -- What the command binds the name to.
  abbrev pub IsBound : Token → Key → Heap Z Q → Binding → Type 0
  IsBound Token.define id = IsDefine
  IsBound Token.declare id = IsDeclared id IsTerm
  IsBound Token.define_const id = IsMacro
  IsBound Token.declare_rule id = IsDeclared id IsRule
  IsBound _ id = IsDeclared id IsFamily

  -- The name that is read next is new in the table, and its binding is what the command makes.
  pub record AddsRead (c : Token) (s t : Session Z Q) : Type 0 where
    pub id : Key
    pub rest : Lexer
    pub reads : prefix_id s.lexer ≡ ok id rest
    pub added : NewName id (IsBound c id) (look s) t
