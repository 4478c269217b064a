-- ===== src/Code/Symbols.antt =====
-- What type checking changes: the expressions and the symbol table `symbols`, which gives a name its
-- expression and its type. And the expressions statType, statKind, statMpz and statMpq of
-- src/check.cpp, which are made first.
pub mod Safe
use lfsc.Common.{ℕ, none, some}
use lfsc.Trie
use lfsc.Trie.{Key, Trie}
use lfsc.Trie.Scope.{insert_key}
use lfsc.Heap.{Ptr, null, Heap, abort, timeout, ok, stop, Cmd}

abbrev pub Binding : Type 0
Binding = Ptr × Ptr

-- The binding of a name that is not in the table.
abbrev pub unbound : Binding
unbound = (null, null)

pub record Checker (Z Q : Type 0) : Type 0 where
  pub heap : Heap Z Q
  pub symbols : Trie Binding

abbrev pub stat_type : Ptr
stat_type = 1

abbrev pub stat_kind : Ptr
stat_kind = 2

abbrev pub stat_mpz : Ptr
stat_mpz = 3

abbrev pub stat_mpq : Ptr
stat_mpq = 4

module _ {Z Q : Type 0} where
  unfoldable pub mem : {A : Type 0} → Cmd (Heap Z Q) A → Cmd (Checker Z Q) A
  mem m s = elim (m s.heap) [ ok a h ↦ ok a (record s { heap = h }) | stop e ↦ stop e ]

  unfoldable pub get_symbol : Key → Cmd (Checker Z Q) Binding
  get_symbol k s = elim (Trie.get unbound s.symbols k) [ none ↦ stop abort | some b ↦ ok b s ]

  -- The result is the binding that is hidden.
  unfoldable pub insert_symbol : Key → Binding → Cmd (Checker Z Q) Binding
  insert_symbol k b s = elim (insert_key unbound s.symbols k b) [
    | none ↦ stop timeout
    | some (t, old) ↦ ok old (record s { symbols = t })
  ]
