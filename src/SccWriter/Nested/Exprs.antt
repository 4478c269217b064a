-- ===== src/SccWriter/Nested/Exprs.antt =====
-- Sources whose names have no braces, and the depth that `write_expr` and `write_args` keep.
use lfsc.Common.{
  ℕ, ◌≡◌, refl, Bool, true, false, not, ◌||◌, Option, none, some, List, [], ◌∷◌, if◌then◌else◌,
}
use lfsc.Header.{Op, is_case}
use lfsc.Trie.{Key}
use lfsc.Heap.{Ptr, Node, int, syms, cexp, Cell, Heap, pure, halt, fault, read, node, op_of}
use lfsc.Heap.Returns.{Ensures, ensures, stops}
use lfsc.Expr.{behind}
use lfsc.SccWriter.{Text, Source, Opts, no_opts, WriteCode, has_name, look, sym_name}
use lfsc.SccWriter.Exprs.{
  write_expr, write_exprs, write_arg, write_args, write_new, write_var, write_check, write_dec,
  write_decs, storage,
}
use lfsc.SccWriter.Level.{Plain, AllPlain, IsClean, IsClean-Plain, get_var_name-Plain, PlainRet}
use lfsc.SccWriter.Nested.{
  Writes, Level, Names, Writes-pure, Writes-halt, Writes-if, Writes-bind, line-Writes, line-then,
  push_var-Level, get_vars-Level, new_expr-Names, look-Writes,
}

abbrev pub AllClean : List Text → Type 0
AllClean [] = Unit
AllClean (t ∷ ts) = IsClean t × AllClean ts

AllClean-AllPlain : (ts : List Text) → AllClean ts → AllPlain ts
AllClean-AllPlain [] h = tt
AllClean-AllPlain (t ∷ ts) h = (IsClean-Plain t h.0, AllClean-AllPlain ts h.1)

module _ {Z Q : Type 0} where
  -- The kids of a match behind the scrutinee: cases, and at the end a case or a default.
  pub data Clauses (h : Heap Z Q) : List Ptr → Type 0 where
    last : (k : Ptr) → Clauses h (k ∷ [])
    more :
        (k : Ptr) {ks : List Ptr} (c : Cell Z Q)
        → h.cell k ≡ some c
        → is_case (op_of c.node) ≡ true
        → Clauses h ks
        → Clauses h (k ∷ ks)

  abbrev CleanOp : Heap Z Q → Op → List Ptr → Type 0
  CleanOp h Op.match ks = Clauses h (behind ks)
  CleanOp h _ ks = Unit

  -- The names of symbols have no braces, and a default stands behind all cases.
  abbrev pub CleanNode : Heap Z Q → Node Z Q → Type 0
  CleanNode h (syms s v) = IsClean s
  CleanNode h (cexp o ks) = CleanOp h o ks
  CleanNode h _ = Unit

  -- And so for what GMP prints, and for the names of the programs.
  pub record IsSource (src : Source Z Q) : Type 0 where
    pub si_text : (z : Z) → IsClean (src.si_text z)
    pub prog_names : AllClean src.prog_names
    pub nodes : (p : Ptr) (c : Cell Z Q) → src.heap.cell p ≡ some c → CleanNode src.heap c.node

  pub names-Plain : (src : Source Z Q) → IsSource src → AllPlain src.prog_names
  names-Plain src v = AllClean-AllPlain src.prog_names v.prog_names

  module _ (src : Source Z Q) (v : IsSource src) (a : ℕ) where
    found_node :
        (p : Ptr) (o : Option (Cell Z Q))
        → src.heap.cell p ≡ o
        → Ensures (λ n _. CleanNode src.heap n) (node p src.heap)
    unfolding node read
    found_node p none e = rw (e, node, read) stops
    found_node p (some c) e = rw (e, node, read) (ensures (v.nodes p c e))

    pub node-Writes : (p : Ptr) → Writes a a (CleanNode src.heap) (look src (node p))
    node-Writes p = look-Writes src a (node p) _ (found_node p (src.heap.cell p) refl)

    name_of :
        (n : Node Z Q)
        → CleanNode src.heap n
        → Writes a a {A = Key} IsClean (elim n [ syms s v ↦ pure s | _ ↦ halt fault ])
    name_of (syms s v) c = Writes-pure a IsClean s c
    name_of (int z) c = Writes-halt a a IsClean fault
    name_of _ c = Writes-halt a a IsClean fault

    pub sym_name-Writes : (p : Ptr) → Writes a a IsClean (sym_name src p)
    unfolding sym_name
    sym_name-Writes p = Writes-bind (node-Writes p) name_of

pub write_dec-Level : (a ind : ℕ) (e : Text) → Plain e → Level a (write_dec ind e)
unfolding write_dec
write_dec-Level a ind e p = line-Writes ind _ refl (p, tt)

pub write_decs-Level : (a ind : ℕ) (es : List Text) → AllPlain es → Level a (write_decs ind es)
unfolding write_decs
write_decs-Level a ind [] h = Writes-pure a _ tt tt
write_decs-Level a ind (e ∷ es) h =
    Writes-bind (write_dec-Level a ind e h.0) λ _ _. write_decs-Level a ind es h.1

-- `write_code` keeps the depth, whatever it is.
abbrev pub KeepsLevel : WriteCode → Type 0
KeepsLevel write_code =
    (a : ℕ) (code : Ptr) (ind : ℕ) (ret : Option Text) (opts : Opts)
    → PlainRet ret
    → Level a (write_code code ind ret opts)

module _ {Z Q : Type 0} (src : Source Z Q) (v : IsSource src) (rec : WriteCode)
    (h : KeepsLevel rec) where
  module _ (a : ℕ) where
    storage-Plain : (b : Bool) → Plain (storage b)
    storage-Plain true = λ d. refl
    storage-Plain false = λ d. refl

    write_check-Level : (ind : ℕ) (e : Text) → Plain e → Level a (write_check ind e)
    unfolding write_check
    write_check-Level ind e p =
        line-then _ _ _ refl (p, tt) (line-then _ _ _ refl tt (line-Writes _ _ refl tt))

    write_new-Names :
        (code : Ptr) (static : Bool) (ind : ℕ) (opts : Opts)
        → Names a (write_new src rec code static ind opts)
    unfolding write_new
    write_new-Names code static ind opts = Writes-bind (new_expr-Names a) λ e p.
        line-then _ _ _ refl (storage-Plain static, (p, tt))
          (Writes-bind (h a code ind (some e) opts p) λ _ _. Writes-bind (push_var-Level a e) λ _ _.
            Writes-bind
              (Writes-if opts.check_sym_expr (write_check-Level ind e p) (Writes-pure a _ tt tt))
              λ _ _. Writes-pure a Plain e p)

    write_var-Names : (s : Key) (ind : ℕ) → IsClean s → Names a (write_var src rec s ind)
    unfolding write_var
    write_var-Names s ind c =
        line-then _ _ _ refl (get_var_name-Plain s c, tt)
          (Writes-pure a Plain _ (get_var_name-Plain s c))

    pub write_expr-Names :
        (code : Ptr) (ind : ℕ) (opts : Opts) → Names a (write_expr src rec code ind opts)
    unfolding write_expr
    write_expr-Names code ind opts =
        Writes-bind (node-Writes src v a code)
          λ n c. Writes-bind (get_vars-Level a) λ vars _. go n c vars
      where
        go :
            (n : Node Z Q)
            → CleanNode src.heap n
            → (vars : List Key)
            → Names a (elim n [
              | syms s v ↦
                  if has_name s vars
                  then write_var src rec s ind
                  else write_new src rec code true ind opts
              | _ ↦ write_new src rec code false ind opts
            ])
        go (syms s w) c vars =
            Writes-if (has_name s vars) (write_var-Names s ind c)
              (write_new-Names code true ind opts)
        go (int z) c vars = write_new-Names code false ind opts
        go _ c vars = write_new-Names code false ind opts

    pub write_exprs-Writes :
        (ps : List Ptr) (ind : ℕ) → Writes a a AllPlain (write_exprs src rec ps ind)
    unfolding write_exprs
    write_exprs-Writes [] ind = Writes-pure a AllPlain [] tt
    write_exprs-Writes (p ∷ ps) ind = Writes-bind (write_expr-Names p ind no_opts) λ e q.
        Writes-bind (write_exprs-Writes ps ind) λ es qs. Writes-pure a AllPlain (e ∷ es) (q, qs)

    write_arg-Names :
        (n : Node Z Q) (p : Ptr) (ind : ℕ) (opts : Opts)
        → CleanNode src.heap n
        → Names a (write_arg src rec n p ind opts)
    unfolding write_arg
    write_arg-Names (syms s w) p ind opts c = Writes-pure a Plain s (IsClean-Plain s c)
    write_arg-Names (int z) p ind opts c = write_expr-Names p ind opts
    write_arg-Names _ p ind opts c = write_expr-Names p ind opts

    pub write_args-Writes :
        (ps : List Ptr) (seen : Bool) (ind : ℕ) (opts : Opts)
        → Writes a a AllPlain (write_args src rec ps seen ind opts)
    unfolding write_args
    write_args-Writes [] seen ind opts = Writes-pure a AllPlain [] tt
    write_args-Writes (p ∷ ps) seen ind opts = Writes-bind (node-Writes src v a p) λ n c.
        Writes-if (not seen || is_case (op_of n))
          (Writes-bind (write_arg-Names n p ind opts c) λ e q.
            Writes-bind (write_args-Writes ps (seen || is_case (op_of n)) ind opts)
              λ es qs. Writes-pure a AllPlain (e ∷ es) (q, qs))
          (Writes-pure a AllPlain [] tt)
