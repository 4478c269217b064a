-- ===== src/Code/Cache/Laws.antt =====
-- The cache is a map: `setData` changes one key's entry, and making nodes changes none.
use lfsc.Common.{
  ◌≡◌, refl, ◌∙◌, inl, inr, some, List, [], ◌∷◌, ◌==◌, ==_iff, if◌then◌else◌, list_eq, arith,
  Bool-cases,
}
use lfsc.Heap.{Ptr}
use lfsc.Code.Cache.{
  ExprTrie, expr_trie, Edges, no_edge, edge, find, assign, child, touch, get_data, set_data,
}

find-assign :
    (es : Edges) (e k : Ptr) (t : ExprTrie)
    → find (assign es e t) k ≡ (if e == k then some t else find es k)
find-assign no_edge e k t = ground arith
find-assign (edge j u es) e k t = ground (arith, find-assign es e k t)

child-assign :
    (es : Edges) (e k : Ptr) (t : ExprTrie)
    → child (assign es e t) k ≡ (if e == k then t else child es k)
child-assign es e k t = elim (Bool-cases (e == k)) [
  | inl h ↦ rw (find-assign es e k t, h)
  | inr h ↦ rw (find-assign es e k t, h)
]

-- After `setData` at the key `path` the cache has `x` there, and at any other key what it had.
pub get_data-set_data :
    (path key : List Ptr) (x : Ptr) (t : ExprTrie)
    → get_data key (set_data path x t) ≡ (if list_eq path key then x else get_data key t)
unfolding get_data set_data
get_data-set_data [] [] x (expr_trie d es) = refl
get_data-set_data [] (k ∷ key) x (expr_trie d es) = refl
get_data-set_data (e ∷ path) [] x (expr_trie d es) = refl
get_data-set_data (e ∷ path) (k ∷ key) x (expr_trie d es) =
    rw (child-assign es e k (set_data path x (child es e))) (elim (Bool-cases (e == k)) [
      | inl h ↦ rw h (get_data-set_data path key x (child es e) ∙ rw ((==_iff e k).0 h))
      | inr h ↦ rw h
    ])

-- Looking a key up, which makes the nodes on its way, changes no entry.
pub get_data-touch :
    (path key : List Ptr) (t : ExprTrie) → get_data key (touch path t) ≡ get_data key t
unfolding get_data touch
get_data-touch [] key t = refl
get_data-touch (e ∷ path) [] (expr_trie d es) = refl
get_data-touch (e ∷ path) (k ∷ key) (expr_trie d es) =
    rw (child-assign es e k (touch path (child es e))) (elim (Bool-cases (e == k)) [
      | inl h ↦ rw h (get_data-touch path key (child es e) ∙ rw ((==_iff e k).0 h))
      | inr h ↦ rw h
    ])
