-- ===== src/Print/Balanced.antt =====
-- What is printed has its parentheses balanced.
use lfsc.Common.{
  ℕ, zero, suc, ◌<◌, ◌≡◌, refl, Bool, true, false, Option, none, some, List, [], ◌∷◌, ◌++◌, String,
  ◌==◌, if◌then◌else◌,
}
use lfsc.Header.{Op, is_prog}
use lfsc.Trie.{Key}
use lfsc.Heap.{
  Ptr, null, Node, int, rat, hole, sym, syms, cexp, Cell, Heap, ok, Cmd, pure, and_then, node, read,
  getop,
}
use lfsc.Heap.Returns
use lfsc.Heap.Returns.{Ensures, ensures, stops}
use lfsc.Expr.{collect_args}
use lfsc.SccWriter.{Text, codes}
use lfsc.Print.{
  Texts, is_negative, is_negative, op_text, print_int, fraction, print_rat, print_kids, print_val,
  print_app, print_op, print_cexpr, print_node, print,
}
use lfsc.Print.Ends.{HasRanks, print-Ends}
use lfsc.Expr.Arguments.{IsLive}
use lfsc.Print.Paren.{
  IsBalanced, char, HasNoParen, HasNoParen-IsBalanced, append-IsBalanced, group-IsBalanced,
  if-IsBalanced, literal, no_paren_in, op_text_lem, constant_text-IsBalanced, nothing,
}

abbrev pub NamedNode : {Z Q : Type 0} → Node Z Q → Type 0
NamedNode (syms s v) = HasNoParen s
NamedNode _ = Unit

module _ {Z Q : Type 0} (texts : Texts Z Q) (h : Heap Z Q) where
  -- No name of a symbol, no numeral and no address has a parenthesis.
  pub record HasNames : Type 0 where
    pub numeral : (z : Z) → HasNoParen (texts.mpz_get_str z)
    pub address : (p : Ptr) → HasNoParen (texts.address p)
    pub names : (p : Ptr) (c : Cell Z Q) → h.cell p ≡ some c → NamedNode c.node

  module _ (v : HasNames) where
    numeral-IsBalanced : (z : Z) → IsBalanced (texts.mpz_get_str z)
    numeral-IsBalanced z = HasNoParen-IsBalanced _ (v.numeral z)

    print_int-IsBalanced : (z : Z) → IsBalanced (print_int texts z)
    unfolding print_int
    print_int-IsBalanced z =
        if-IsBalanced (is_negative (texts.gmp.mpz_sgn z))
          (group-IsBalanced
            (append-IsBalanced (literal "~ " refl) (numeral-IsBalanced (texts.gmp.mpz_neg z))))
          (numeral-IsBalanced z)

    fraction-IsBalanced : (q : Q) → IsBalanced (fraction texts q)
    fraction-IsBalanced q =
        append-IsBalanced (numeral-IsBalanced (texts.mpq_get_num q))
          (char refl refl (numeral-IsBalanced (texts.mpq_get_den q)))

    print_rat-IsBalanced : (q : Q) → IsBalanced (print_rat texts q)
    unfolding print_rat
    print_rat-IsBalanced q =
        if-IsBalanced (is_negative (texts.gmp.mpq_sgn q))
          (group-IsBalanced
            (append-IsBalanced (literal "~ " refl) (fraction-IsBalanced (texts.gmp.mpq_neg q))))
          (fraction-IsBalanced q)

    -- A command that leaves memory alone, with the property of its result.
    abbrev Reads : {A : Type 0} → (A → Type 0) → Cmd (Heap Z Q) A → Type 0
    Reads P m = Ensures (λ x h'. P x × (h' ≡ h)) (m h)

    abbrev Prints : Cmd (Heap Z Q) Text → Type 0
    Prints m = Reads IsBalanced m

    module _ {A B : Type 0} where
      Reads-bind :
          (P : A → Type 0) (R : B → Type 0) (m : Cmd (Heap Z Q) A) (k : A → Cmd (Heap Z Q) B)
          → Reads P m
          → ((x : A) → P x → Reads R (k x))
          → Reads R (λ h. and_then (m h) k)
      Reads-bind P R m k p q = Returns.bind p λ x h' r. rw r.1 (q x r.0)

    node-Reads : (p : Ptr) → Reads NamedNode (node p)
    unfolding node read
    node-Reads p = go (h.cell p) refl
      where
        go : (o : Option (Cell Z Q)) → h.cell p ≡ o → Reads NamedNode (node p)
        go none e = rw (node, read, e) stops
        go (some c) e = rw (node, read, e) (ensures (v.names p c e, refl))

    getop-Reads : (p : Ptr) → Reads (λ _. Unit {0}) (getop p)
    unfolding getop
    getop-Reads p = Reads-bind NamedNode _ (node p) _ (node-Reads p) λ n _. ensures (tt, refl)

    collect_args-Reads : (f : ℕ) (p : Ptr) → Reads (λ _. Unit {0}) (collect_args f false p)
    unfolding collect_args
    collect_args-Reads f p =
        Reads-bind NamedNode _ (node p) _ (node-Reads p) λ n _. ensures (tt, refl)

    module _ (rec : Ptr → Cmd (Heap Z Q) Text) (w : (p : Ptr) → Prints (rec p)) where
      print_kids-Prints : (ps : List Ptr) → Prints (print_kids texts rec ps)
      unfolding print_kids
      print_kids-Prints [] = ensures (nothing, refl)
      print_kids-Prints (p ∷ ps) = Reads-bind IsBalanced IsBalanced (rec p) _ (w p) λ t a.
          Reads-bind IsBalanced IsBalanced (print_kids texts rec ps) _ (print_kids-Prints ps)
            λ ts b. ensures (char refl refl (append-IsBalanced a b), refl)

      print_val-Prints : (s : Key) (x : Ptr) → HasNoParen s → Prints (print_val texts rec s x)
      unfolding print_val
      print_val-Prints s x n =
          Reads-bind _ IsBalanced (getop x) _ (getop-Reads x) λ o _. go (is_prog o)
        where
          go : (b : Bool) → Prints (if b then pure s else rec x)
          go true = ensures (HasNoParen-IsBalanced s n, refl)
          go false = w x

      print_app-Prints : (f : ℕ) (p : Ptr) → Prints (print_app texts rec f p)
      unfolding print_app
      print_app-Prints f p =
          Reads-bind _ IsBalanced (collect_args f false p) _ (collect_args-Reads f p) λ taken _.
            Reads-bind IsBalanced IsBalanced (rec taken.1) _ (w taken.1) λ t a.
              Reads-bind IsBalanced IsBalanced (print_kids texts rec taken.0) _
                (print_kids-Prints taken.0)
                λ ts b. ensures (group-IsBalanced (append-IsBalanced a b), refl)

      print_op-Prints :
          (name : Option String) (o : Op) (ks : List Ptr)
          → no_paren_in name ≡ true
          → Prints (print_op texts rec name o ks)
      unfolding print_op
      print_op-Prints none o ks n = ensures (constant_text-IsBalanced o, refl)
      print_op-Prints (some name) o ks n =
          Reads-bind IsBalanced IsBalanced (print_kids texts rec ks) _ (print_kids-Prints ks)
            λ ts b. ensures (group-IsBalanced (append-IsBalanced (literal name n) b), refl)

      print_cexpr-Prints :
          (f : ℕ) (o : Op) (ks : List Ptr) (p : Ptr) → Prints (print_cexpr texts rec f o ks p)
      unfolding print_cexpr
      print_cexpr-Prints f Op.app ks p = print_app-Prints f p
      print_cexpr-Prints f o ks p = print_op-Prints (op_text o) o ks (op_text_lem o)

      if-Prints :
          (b : Bool) (m n : Cmd (Heap Z Q) Text) → Prints m → Prints n → Prints (if b then m else n)
      if-Prints true m n p q = p
      if-Prints false m n p q = q

      print_node-Prints :
          (f : ℕ) (n : Node Z Q) (p : Ptr) → NamedNode n → Prints (print_node texts rec f n p)
      unfolding print_node
      print_node-Prints f (int z) p c = ensures (print_int-IsBalanced z, refl)
      print_node-Prints f (rat q) p c = ensures (print_rat-IsBalanced q, refl)
      print_node-Prints f (hole x) p c =
          if-Prints (x == null) (pure (codes "_[ " ++ (texts.address p ++ b']' ∷ []))) (rec x)
            (ensures (
              append-IsBalanced (literal "_[ " refl)
                  (append-IsBalanced (HasNoParen-IsBalanced _ (v.address p)) (literal "]" refl)),
              refl,
            ))
            (w x)
      print_node-Prints f (sym x) p c = stops
      print_node-Prints f (syms s x) p c =
          if-Prints (x == null) (pure s) (print_val texts rec s x)
            (ensures (HasNoParen-IsBalanced s c, refl)) (print_val-Prints s x c)
      print_node-Prints f (cexp o ks) p c = print_cexpr-Prints f o ks p

    print-Prints : (f : ℕ) (p : Ptr) → Prints (print texts f p)
    unfolding print
    print-Prints zero p = stops
    print-Prints (suc f) p =
        Reads-bind NamedNode IsBalanced (node p) _ (node-Reads p)
          λ n c. print_node-Prints (print texts f) (print-Prints f) f n p c

    -- Where what is printed for an expression in memory is in memory and has a smaller rank, symbols
    -- have names, applications have heads, and no name, numeral or address has a parenthesis,
    -- printing an expression in memory, with more fuel than its rank, ends with a text whose
    -- parentheses are balanced, and leaves memory as it was.
    pub print-IsBalanced :
        (rank : Ptr → ℕ) (f : ℕ) (p : Ptr)
        → HasRanks h rank
        → IsLive h p
        → rank p < f
        → (t : Text) × (print texts f p h ≡ ok t h) × IsBalanced t
    print-IsBalanced rank f p r live less =
        let (t, e) = print-Ends texts h rank r f p (live, less) in
        (t, e, (Returns.ensured t h (print-Prints f p) e).0)
