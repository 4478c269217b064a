-- ===== src/Print/Ends.antt =====
-- `Expr::print` ends where the expressions in memory have ranks that fall, with more fuel than the
-- rank.
use lfsc.Common.{
  ℕ, zero, suc, ◌<◌, ◌≡◌, refl, Bool, true, false, Bool-cases, inl, inr, not, Option, none, some,
  List, [], ◌∷◌, ◌++◌, String, ◌==◌, if◌then◌else◌, arith, All, All-map,
}
use lfsc.Header.{Op, is_app, is_prog}
use lfsc.Trie.{Key}
use lfsc.Heap.{
  Ptr, null, Node, int, rat, hole, sym, syms, cexp, Cell, Heap, Cmd, op_of, ok, pure, and_then,
  node, read, getop,
}
use lfsc.Expr.{collect_args}
use lfsc.Expr.Arguments.{IsLive, is_live}
use lfsc.SccWriter.{Text}
use lfsc.Print.{
  Texts, print_kids, print_val, op_text, group, print_app, print_op, print_cexpr, print_node, print,
}

module _ {Z Q : Type 0} where
  -- The kids, or the value of a hole.
  abbrev pub parts : Node Z Q → List Ptr
  parts (hole v) = if v == null then [] else v ∷ []
  parts (cexp o ks) = ks
  parts _ = []

  -- A symbol has a name, and an application a head.
  abbrev pub is_printable : Node Z Q → Bool
  is_printable (sym v) = false
  is_printable (cexp o []) = not (is_app o)
  is_printable _ = true

  module _ (h : Heap Z Q) (rank : Ptr → ℕ) where
    abbrev pub IsBelow : ℕ → Ptr → Type 0
    IsBelow n p = IsLive h p × (rank p < n)

    -- The value of a symbol, unless it is a program, of which only the name is printed.
    abbrev pub HasValueBelow : ℕ → Node Z Q → Type 0
    HasValueBelow n (syms s v) =
        (v == null) ≡ false
        → (c : Cell Z Q) × (h.cell v ≡ some c) × (is_prog (op_of c.node) ≡ false → rank v < n)
    HasValueBelow n _ = Unit

    -- What is printed for an expression in memory is in memory, and has a smaller rank.
    pub record HasRanks : Type 0 where
      pub printable : (p : Ptr) (c : Cell Z Q) → h.cell p ≡ some c → is_printable c.node ≡ true
      pub falls :
          (p : Ptr) (c : Cell Z Q) → h.cell p ≡ some c → All (IsBelow (rank p)) (parts c.node)
      pub values : (p : Ptr) (c : Cell Z Q) → h.cell p ≡ some c → HasValueBelow (rank p) c.node

    HasValueBelow-suc :
        (m n : ℕ) → m < suc n → (c : Node Z Q) → HasValueBelow m c → HasValueBelow n c
    HasValueBelow-suc m n l (int z) b = tt
    HasValueBelow-suc m n l (rat q) b = tt
    HasValueBelow-suc m n l (hole v) b = tt
    HasValueBelow-suc m n l (sym v) b = tt
    HasValueBelow-suc m n l (syms s v) b =
        λ x. let (c, e, r) = b x in (c, e, λ no. let k = r no in omega arith)
    HasValueBelow-suc m n l (cexp o ks) b = tt

  module _ (texts : Texts Z Q) (h : Heap Z Q) (rank : Ptr → ℕ) where
    -- A command that ends with a result and leaves memory alone.
    abbrev Ends : {A : Type 0} → Cmd (Heap Z Q) A → Type 0
    Ends {A} m = (x : A) × (m h ≡ ok x h)

    module _ {A B : Type 0} where
      Ends-bind :
          (m : Cmd (Heap Z Q) A) (k : A → Cmd (Heap Z Q) B)
          → Ends m
          → ((x : A) → Ends (k x))
          → Ends (λ h. and_then (m h) k)
      Ends-bind m k p q = let r = q p.0 in (r.0, rw p.1 r.1)

    Ends-pure : {A : Type 0} (x : A) → Ends (pure x)
    Ends-pure x = (x, refl)

    module _ (f : ℕ) (rec : Ptr → Cmd (Heap Z Q) Text)
        (w : (p : Ptr) → IsBelow h rank f p → Ends (rec p)) where
      print_kids-Ends : (ps : List Ptr) → All (IsBelow h rank f) ps → Ends (print_kids texts rec ps)
      unfolding print_kids
      print_kids-Ends [] a = Ends-pure _
      print_kids-Ends (p ∷ ps) a =
          Ends-bind (rec p) _ (w p a.0)
            λ t. Ends-bind (print_kids texts rec ps) _ (print_kids-Ends ps a.1) λ ts. Ends-pure _

      print_val-Ends :
          (s : Key) (x : Ptr) (c : Cell Z Q)
          → h.cell x ≡ some c
          → (is_prog (op_of c.node) ≡ false → rank x < f)
          → Ends (print_val texts rec s x)
      unfolding print_val getop node read
      print_val-Ends s x c e l = elim (Bool-cases (is_prog (op_of c.node))) [
        | inl y ↦ (s, rw (getop, node, read, e, y))
        | inr n ↦ let (t, r) = w x (is_live c e, l n) in (t, rw (getop, node, read, e, n) r)
      ]

      print_op-Ends :
          (name : Option String) (o : Op) (ks : List Ptr)
          → All (IsBelow h rank f) ks
          → Ends (print_op texts rec name o ks)
      unfolding print_op
      print_op-Ends none o ks a = Ends-pure _
      print_op-Ends (some name) o ks a =
          Ends-bind (print_kids texts rec ks) _ (print_kids-Ends ks a) λ ts. Ends-pure _

      print_app-Ends :
          (g : ℕ) (p q : Ptr) (ps : List Ptr) (c : Cell Z Q)
          → h.cell p ≡ some c
          → c.node ≡ cexp Op.app (q ∷ ps)
          → All (IsBelow h rank f) (q ∷ ps)
          → Ends (print_app texts rec g p)
      unfolding print_app collect_args node read
      print_app-Ends g p q ps c e n a =
          let (t, r) = w q a.0 in
          let (ts, rs) = print_kids-Ends ps a.1 in
          (group (t ++ ts), rw (collect_args, node, read, e, n, r, rs))

      print_cexpr-Ends :
          (g : ℕ) (o : Op) (ks : List Ptr) (p : Ptr) (c : Cell Z Q)
          → h.cell p ≡ some c
          → c.node ≡ cexp o ks
          → is_printable (cexp o ks) ≡ true
          → All (IsBelow h rank f) ks
          → Ends (print_cexpr texts rec g o ks p)
      unfolding print_cexpr
      print_cexpr-Ends g Op.app [] p c e n y a = absurd cc
      print_cexpr-Ends g Op.app (q ∷ ps) p c e n y a = print_app-Ends g p q ps c e n a
      print_cexpr-Ends g o ks p c e n y a = print_op-Ends (op_text o) o ks a

      print_hole-Ends :
          (b : Bool) (x : Ptr) (t : Text)
          → All (IsBelow h rank f) (if b then [] else x ∷ [])
          → Ends (if b then pure t else rec x)
      print_hole-Ends true x t a = Ends-pure t
      print_hole-Ends false x t a = w x a.0

      print_sym-Ends :
          (s : Key) (x : Ptr)
          → HasValueBelow h rank f (syms s x)
          → Ends (if x == null then pure s else print_val texts rec s x)
      print_sym-Ends s x b = elim (Bool-cases (x == null)) [
        | inl y ↦ (s, rw y)
        | inr n ↦ let (c, e, l) = b n in let (t, r) = print_val-Ends s x c e l in (t, rw n r)
      ]

      print_node-Ends :
          (g : ℕ) (n : Node Z Q) (p : Ptr) (c : Cell Z Q)
          → h.cell p ≡ some c
          → c.node ≡ n
          → is_printable n ≡ true
          → All (IsBelow h rank f) (parts n)
          → HasValueBelow h rank f n
          → Ends (print_node texts rec g n p)
      unfolding print_node
      print_node-Ends g (int z) p c e n y a b = Ends-pure _
      print_node-Ends g (rat q) p c e n y a b = Ends-pure _
      print_node-Ends g (hole x) p c e n y a b = print_hole-Ends (x == null) x _ a
      print_node-Ends g (sym x) p c e n y a b = absurd cc
      print_node-Ends g (syms s x) p c e n y a b = print_sym-Ends s x b
      print_node-Ends g (cexp o ks) p c e n y a b = print_cexpr-Ends g o ks p c e n y a

    -- With more fuel than the rank, printing an expression in memory ends with a text.
    pub print-Ends :
        HasRanks h rank → (f : ℕ) (p : Ptr) → IsBelow h rank f p → Ends (print texts f p)
    unfolding print node read
    print-Ends r zero p b = absurd (omega (arith, b.1))
    print-Ends r (suc f) p (is_live c e, l) =
        let (t, s) =
          print_node-Ends f (print texts f) (print-Ends r f) f c.node p c e refl (r.printable p c e)
            (All-map _ (λ q b. (b.0, omega (arith, b.1))) (r.falls p c e))
            (HasValueBelow-suc h rank _ f l c.node (r.values p c e)) in
        (t, rw (node, read, e) s)
