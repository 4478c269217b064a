-- ===== src/Term/Stable/Decls.antt =====
-- Lists of declarations: the bindings that they hide are all in the list that they return.
use lfsc.Common.{ℕ, zero, suc, Bool, refl, List, [], ◌∷◌, ◌==◌, none}
use lfsc.Trie.{is_empty}
use lfsc.Heap.{Ptr, null, Node, syms, halt, fault}
use lfsc.Lexer.{Token, same_token}
use lfsc.Session.{new_sym}
use lfsc.Session.Stable.{
  Stable, Stable-pure, Stable-halt, Stable-if, Stable-scan, Stable-mem, Stable-bind,
}
use lfsc.Session.Scoped.{Opens, Closes-step, Closes-then, Stable-Opens, restore-Closes}
use lfsc.Session.Opens.{
  Opens-pure, Opens-halt, Opens-if, Opens-step, Opens-map, Opens-bind, Under-map,
}
use lfsc.Read.Stable.{require-Stable, new_sym-Stable}
use lfsc.Term.{Ask, Rec}
use lfsc.Term.Decls.{
  Decl, check_decl_list_item, check_decls, check_decl_list, nest_pi, build_validate_pi, same_name,
  build_macro, check_arrow,
}
use lfsc.Term.Stable.{
  IsLocal, creates, inside, eat_rparen-Stable, store-Stable, stored-Stable, new_pi-Stable,
  cloned_lam-Stable,
}

module _ {Z Q : Type 0} (f : ℕ) where
  module _ (rec : Rec Z Q) (h : (a : Ask) → IsLocal a → Stable (rec a)) where
    item-Stable : Stable (check_decl_list_item f rec)
    unfolding check_decl_list_item
    item-Stable = Stable-bind (Stable-scan _) λ t.
        Stable-if (same_token t Token.open_)
          (Stable-bind (Stable-scan _) λ t₂.
            Stable-if (same_token t₂ Token.colon)
              (Stable-bind (Stable-scan _) λ id.
                Stable-bind (h _ (creates refl))
                  λ r. Stable-bind (Stable-scan _) λ _. Stable-pure _)
              (Stable-bind (Stable-scan _) λ _. Stable-bind (Stable-scan _) λ _.
                Stable-bind (h _ (creates refl)) λ r.
                  Stable-bind (stored-Stable r)
                    λ dummy. Stable-bind (Stable-mem _) λ _. Stable-pure _))
          (Stable-bind (Stable-scan _) λ _. Stable-bind (h _ (creates refl)) λ r. Stable-pure _)

    check_decls-Opens : (create : Bool) (g : ℕ) → Opens (λ r. r.1) (check_decls f rec create g)
    unfolding check_decls
    check_decls-Opens create zero = Opens-halt _
    check_decls-Opens create (suc g) = Opens-step (Stable-scan _) λ t.
        Opens-if _ (Opens-pure _ refl) (
          Opens-step (Stable-scan _) λ _. Opens-step item-Stable λ item.
            Opens-if (is_empty item.0)
              (Opens-step (new_sym-Stable _)
                λ v. Opens-map _ (check_decls-Opens create g) λ r. refl)
              (Opens-step (new_sym-Stable _)
                λ v. Opens-bind item.0 _ λ old. Under-map _ (check_decls-Opens create g) λ r. refl))

    pub check_decl_list-Opens : (create : Bool) → Opens (λ r. r.1) (check_decl_list f rec create)
    unfolding check_decl_list
    check_decl_list-Opens create = Opens-step (Stable-scan _) λ _. check_decls-Opens create f

  nest_pi-Stable : (ds : List Decl) (ret : Ptr) → Stable (nest_pi {Z = Z} {Q = Q} f ds ret)
  unfolding nest_pi
  nest_pi-Stable [] ret = Stable-pure ret
  nest_pi-Stable (d ∷ ds) ret = Stable-bind (nest_pi-Stable ds ret) λ r. new_pi-Stable f _ _ r

  pub build_validate_pi-Stable :
      (ds : List Decl) (ret kind : Ptr) (create : Bool)
      → Stable (build_validate_pi {Z = Z} {Q = Q} f ds ret kind create)
  unfolding build_validate_pi
  build_validate_pi-Stable ds ret kind create = Stable-bind (Stable-mem _) λ o.
      Stable-bind (require-Stable _) λ _.
        Stable-bind (Stable-if create (nest_pi-Stable ds ret) (Stable-pure null)) λ p. Stable-pure _

  same_name_node :
      (n : Node Z Q)
      → Stable {Z = Z} {Q = Q} {A = Ptr} (elim n [ syms s v ↦ new_sym s | _ ↦ halt fault ])
  same_name_node (syms s v) = new_sym-Stable s
  same_name_node _ = Stable-halt _

  same_name-Stable : (p : Ptr) → Stable (same_name {Z = Z} {Q = Q} p)
  unfolding same_name
  same_name-Stable p = Stable-bind (Stable-mem _) same_name_node

  pub build_macro-Stable :
      (ds : List Decl) (ret ty : Ptr) → Stable (build_macro {Z = Z} {Q = Q} f ds ret ty)
  unfolding build_macro
  build_macro-Stable [] ret ty = Stable-pure _
  build_macro-Stable (d ∷ ds) ret ty = Stable-bind (build_macro-Stable ds ret ty) λ m.
      Stable-bind (Stable-mem _) λ _. Stable-bind (new_pi-Stable f _ _ _) λ p.
        Stable-bind (Stable-mem _) λ free. Stable-bind (require-Stable _) λ _.
          Stable-bind (same_name-Stable _) λ v.
            Stable-bind (Stable-mem _) λ _. Stable-bind (cloned_lam-Stable _ _) λ l. Stable-pure _

  pub check_arrow-Stable :
      (rec : Rec Z Q)
      → ((a : Ask) → IsLocal a → Stable (rec a))
      → (a : Ask) → Stable (check_arrow f rec a)
  unfolding check_arrow
  check_arrow-Stable rec h a = Stable-Opens (check_decl_list-Opens rec h a.create) λ ds.
      Closes-step (h _ (inside refl)) λ r. Closes-then (restore-Closes ds.1) λ _.
        Stable-bind eat_rparen-Stable λ _. Stable-bind (stored-Stable r) λ kind.
          Stable-bind (build_validate_pi-Stable ds.0 r.term kind a.create) λ p.
            Stable-bind
              (Stable-if (a.expected == null) (store-Stable a p.1)
                (Stable-bind (Stable-mem _) λ _. Stable-pure none))
              λ o. Stable-pure _
