-- ===== src/File/Names/Definition.antt =====
-- A definition adds its name: the symbol gets the term for its value, and is bound with the type.
use lfsc.Common.{ℕ, ◌≡◌, refl, Option, none, some, ==_refl}
use lfsc.Trie.{Key}
use lfsc.Heap
use lfsc.Heap.{
  Ptr, null, put, Node, int, rat, hole, syms, cexp, Cell, Heap, Cmd, read, write, alloc, set_val,
  val_of, report_error, and_then, Outcome, ok, stop,
}
use lfsc.Heap.Returns
use lfsc.Heap.Returns.{Ensures, ensures, stops, finishes, Gives}
use lfsc.Code.Symbols
use lfsc.Code.Symbols.{Binding, unbound, Checker}
use lfsc.Session.{Session, require, bind_symbol, new_sym, mem, typed}
use lfsc.Session.Stable.{look, Valid, Has}
use lfsc.Term.{insert_and_bind, reduce_def}
use lfsc.File.{not_bound, new_definition}
use lfsc.File.Names.{NewName, NewName-from, IsDefined, Adds, bind_new}

module _ {Z Q : Type 0} where
  -- The memory behind a command on it, and the table, which is as it was.
  mem_run :
      {A : Type 0} {P : A → Heap Z Q → Type 0} (s : Session Z Q) {r : Outcome (Heap Z Q) A}
      → Valid s
      → Ensures P r
      → Ensures {A = A}
          (λ a t. P a t.checker.heap × Has (look s) t)
          (elim (elim r as (λ _. Outcome (Checker Z Q) A) [
            | ok a h ↦ ok a (record s.checker { heap = h })
            | stop e ↦ stop e
          ]) [ ok a c ↦ ok a (record s { checker = c }) | stop e ↦ stop e ])
  mem_run s v (ensures p) = ensures (p, record { valid = v; agree = λ k. refl })
  mem_run s v stops = stops

  -- `val` is set.
  set_val-val_of :
      (p x : Ptr) (h : Heap Z Q)
      → Ensures
          (λ _ h'. (c : Cell Z Q) × (h'.cell p ≡ some c) × (val_of c.node ≡ x))
          (set_val p x h)
  unfolding set_val read write
  set_val-val_of p x h = go (h.cell p) refl
    where
      go :
          (o : Option (Cell Z Q))
          → h.cell p ≡ o
          → Ensures
              (λ _ h'. (c : Cell Z Q) × (h'.cell p ≡ some c) × (val_of c.node ≡ x))
              (set_val p x h)
      go none e = rw (read, e) stops
      go (some c) e = at_node c c.node e refl
        where
          at_node :
              (c : Cell Z Q) (n : Node Z Q)
              → h.cell p ≡ some c
              → c.node ≡ n
              → Ensures
                  (λ _ h'. (c : Cell Z Q) × (h'.cell p ≡ some c) × (val_of c.node ≡ x))
                  (set_val p x h)
          at_node c (Heap.sym y) e q =
              rw (read, e, q) (ensures (record c { node = Heap.sym x }, rw (==_refl p), refl))
          at_node c (syms i y) e q =
              rw (read, e, q) (ensures (record c { node = syms i x }, rw (==_refl p), refl))
          at_node c _ e q = rw (read, e, q) stops

  -- The value that the symbol of a definition gets.
  HasValue : ℕ → Ptr → Ptr → Heap Z Q → Type 0
  HasValue f e p h =
      (c : Cell Z Q) × (h.cell p ≡ some c) × Gives {S = Heap Z Q} (reduce_def f e) (val_of c.node)

  give_value :
      (f : ℕ) (e p : Ptr) (h : Heap Z Q)
      → Ensures (λ _ h'. HasValue f e p h') (and_then (reduce_def f e h) λ e'. set_val p e')
  unfolding HasValue
  give_value f e p h =
      Returns.bind_eq (finishes (reduce_def f e h))
        λ x t given _. Returns.mono (set_val-val_of p x t) λ _ u w. (w.0, w.1, rw w.2 (h, t, given))

  bind_value :
      {B : Key → Option Binding} (f : ℕ) (id : Key) (p e tp : Ptr)
      {r : Outcome (Session Z Q) (Unit {0})}
      → Ensures (λ _ t. HasValue f e p t.checker.heap × Has B t) r
      → Ensures
          (λ (_ : Unit {0}) t. NewName id (IsDefined f e tp) B t)
          (and_then (and_then r λ _. bind_symbol id (p, tp)) λ prev. require (not_bound prev))
  unfolding HasValue
  bind_value f id p e tp stops = stops
  bind_value f id p e tp (ensures {s = t} h) =
      Returns.mono (bind_new id (IsDefined f e tp) (p, tp) t h.1.valid (h.0.0, h.0.1, h.0.2, refl))
        (λ _ u n. NewName-from id (IsDefined f e tp) h.1.agree n)

  define_symbol :
      (f : ℕ) (id : Key) (p e tp : Ptr) (s : Session Z Q)
      → Valid s
      → Ensures
          (λ _ t. NewName id (IsDefined f e tp) (look s) t)
          (and_then (insert_and_bind f id p e tp s) λ prev. require (not_bound prev))
  unfolding insert_and_bind mem typed Symbols.mem
  define_symbol f id p e tp s v =
      bind_value f id p e tp (mem_run s v (give_value f e p s.checker.heap))

  pub new_definition-Adds :
      (f : ℕ) (id : Key) (e tp : Ptr)
      → Adds {Z = Z} {Q = Q} id (IsDefined f e tp) (new_definition f id e tp)
  unfolding new_definition new_sym mem typed Symbols.mem alloc
  new_definition-Adds f id e tp = record { run = λ s v. define_symbol f id _ e tp _ v }
