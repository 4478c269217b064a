-- ===== src/Code/Cache.antt =====
-- The class ExprTrie of src/code.cpp: a map from lists of expressions to an expression, as a trie
-- whose edges are sorted by address, as in std::map.
pub mod Laws
use lfsc.Common.{
  ℕ, ◌≡◌, Bool, true, false, Option, none, some, List, [], ◌∷◌, ◌++◌, ◌==◌, ltb, if◌then◌else◌,
  get_or,
}
use lfsc.Heap.{Ptr, null, Heap, Cmd, pure, and_then, ◌>>=◌, ◌>>◌}
use lfsc.Heap.Count.{dec}

-- `d_data` (NULL for none) and `d_children`.
mutual
  pub data ExprTrie : Type 0 where
    expr_trie : Ptr → Edges → ExprTrie

  pub data Edges : Type 0 where
    no_edge : Edges
    edge : Ptr → ExprTrie → Edges → Edges

abbrev pub empty : ExprTrie
empty = expr_trie null no_edge

-- `d_children.find(e)`
abbrev pub find : Edges → Ptr → Option ExprTrie
find no_edge e = none
find (edge k t es) e = if k == e then some t else find es e

-- `d_children[e] = t`
abbrev pub assign : Edges → Ptr → ExprTrie → Edges
assign no_edge e t = edge e t no_edge
assign (edge k u es) e t =
    if k == e
    then edge e t es
    else (if ltb e k then edge e t (edge k u es) else edge k u (assign es e t))

abbrev pub child : Edges → Ptr → ExprTrie
child es e = get_or (find es e) empty

-- The nodes that `get` makes on its way.
unfoldable pub touch : List Ptr → ExprTrie → ExprTrie
touch [] t = t
touch (e ∷ path) (expr_trie d es) = expr_trie d (assign es e (touch path (child es e)))

-- The expressions whose edges are new, which `get` takes a reference of.
unfoldable pub new_edges : List Ptr → ExprTrie → List Ptr
new_edges [] t = []
new_edges (e ∷ path) (expr_trie d es) =
    let rest = new_edges path (child es e) in elim (find es e) [ none ↦ e ∷ rest | some t ↦ rest ]

-- `get(path)->getData()`
unfoldable pub get_data : List Ptr → ExprTrie → Ptr
get_data [] (expr_trie d es) = d
get_data (e ∷ path) (expr_trie d es) = get_data path (child es e)

-- `get(path)->setData(x)`
unfoldable pub set_data : List Ptr → Ptr → ExprTrie → ExprTrie
set_data [] x (expr_trie d es) = expr_trie x es
set_data (e ∷ path) x (expr_trie d es) = expr_trie d (assign es e (set_data path x (child es e)))

-- The references that the destructor gives back: the data, then the edges, then those below.
abbrev edge_keys : Edges → List Ptr
edge_keys no_edge = []
edge_keys (edge k t es) = k ∷ edge_keys es

unfoldable mutual
  pub references : ExprTrie → List Ptr
  references (expr_trie d es) = (if d == null then [] else d ∷ []) ++ (edge_keys es ++ below es)

  pub below : Edges → List Ptr
  below no_edge = []
  below (edge k t es) = references t ++ below es
