-- ===== src/Code/Symbols/Safe.antt =====
-- Commands that leave every name of the symbol table with the binding that it had, and the rules by
-- which they are put together.
use lfsc.Common.{refl, ◌∙◌, Bool, true, false, Option, none, some, if◌then◌else◌}
use lfsc.Trie.{Key, get}
use lfsc.Trie.Find.{IsTrie}
use lfsc.Trie.Scope.{Agree, insert_key-Inserted, put_back}
use lfsc.Heap.{Heap, Stop, Outcome, ok, stop, Cmd, pure, halt, and_then, ◌>>=◌, ◌>>◌}
use lfsc.Heap.Returns
use lfsc.Heap.Returns.{Ensures, ensures, stops}
use lfsc.Code.Symbols.{Binding, unbound, Checker, mem, get_symbol, insert_symbol}

module _ {Z Q : Type 0} where
  -- The table of `t` is well formed and agrees with that of `s`.
  pub record SameSymbols (s t : Checker Z Q) : Type 0 where
    pub valid : IsTrie unbound t.symbols
    pub agree : Agree unbound t.symbols s.symbols

  -- From a well-formed table, if the command ends, it ends with a table that agrees.
  pub record Safe {A : Type 0} (m : Cmd (Checker Z Q) A) : Type 0 where
    pub run : (s : Checker Z Q) → IsTrie unbound s.symbols → Ensures (λ _ t. SameSymbols s t) (m s)

  SameSymbols-trans : {s t u : Checker Z Q} → SameSymbols s t → SameSymbols t u → SameSymbols s u
  SameSymbols-trans a b = record { valid = b.valid; agree = λ k. b.agree k ∙ a.agree k }

  module _ {A : Type 0} where
    pub Safe-pure : (a : A) → Safe (pure a)
    Safe-pure a = record { run = λ s v. ensures (record { valid = v; agree = λ k. refl }) }

    pub Safe-halt : (e : Stop) → Safe {A = A} (halt e)
    Safe-halt e = record { run = λ s v. stops }

    Safe-mem_run :
        (s : Checker Z Q) (r : Outcome (Heap Z Q) A)
        → IsTrie unbound s.symbols
        → Ensures {A = A}
            (λ _ t. SameSymbols s t)
            (elim r [ ok a h ↦ ok a (record s { heap = h }) | stop e ↦ stop e ])
    Safe-mem_run s (ok a h) v = ensures (record { valid = v; agree = λ k. refl })
    Safe-mem_run s (stop e) v = stops

    pub Safe-mem : (m : Cmd (Heap Z Q) A) → Safe (mem m)
    unfolding mem
    Safe-mem m = record { run = λ s v. Safe-mem_run s (m s.heap) v }

    pub Safe-if :
        (b : Bool) {m n : Cmd (Checker Z Q) A} → Safe m → Safe n → Safe (if b then m else n)
    Safe-if true p q = p
    Safe-if false p q = q

  module _ {A B : Type 0} where
    Safe-and_then :
        {s : Checker Z Q} {r : Outcome (Checker Z Q) A} {k : A → Cmd (Checker Z Q) B}
        → Ensures (λ _ t. SameSymbols s t) r
        → ((a : A) → Safe (k a))
        → Ensures (λ _ t. SameSymbols s t) (and_then r k)
    Safe-and_then stops q = stops
    Safe-and_then (ensures {a} {s = t} p) q =
        Returns.mono ((q a).run t p.valid) (λ b u w. SameSymbols-trans p w)

    pub Safe-bind :
        {m : Cmd (Checker Z Q) A} {k : A → Cmd (Checker Z Q) B}
        → Safe m
        → ((a : A) → Safe (k a))
        → Safe (λ s. and_then (m s) k)
    Safe-bind p q = record { run = λ s v. Safe-and_then (p.run s v) q }

  Safe-get_run :
      (s : Checker Z Q) (r : Option Binding)
      → IsTrie unbound s.symbols
      → Ensures {A = Binding}
          (λ _ t. SameSymbols s t)
          (elim r [ none ↦ stop Stop.abort | some b ↦ ok b s ])
  Safe-get_run s none v = stops
  Safe-get_run s (some b) v = ensures (record { valid = v; agree = λ k. refl })

  pub Safe-get_symbol : (k : Key) → Safe (get_symbol {Z = Z} {Q = Q} k)
  unfolding get_symbol
  Safe-get_symbol k = record { run = λ s v. Safe-get_run s (get unbound s.symbols k) v }

  -- A binding that is put back at the end, whatever it was.
  pub Safe-scope :
      (k : Key) (b : Binding) {A : Type 0} {body : Cmd (Checker Z Q) A}
      → Safe body
      → Safe (do prev ← insert_symbol k b; a ← body; insert_symbol k prev; pure a)
  unfolding insert_symbol
  Safe-scope k b {body} safe = record {
    run = λ s v.
        let r = insert_key-Inserted unbound k b v in
        rw (r.returns, insert_symbol)
          (Returns.bind (safe.run (record s { symbols = r.after }) r.valid) λ a t w.
            let q = insert_key-Inserted unbound k r.old w.valid in
            rw (q.returns, insert_symbol)
              (ensures (record {
                valid = q.valid;
                agree = λ j.
                    q.now j
                    ∙ put_back unbound k j (get unbound s.symbols) (get unbound r.after) b r.old _
                        r.was (r.now j) (w.agree j);
              })));
  }

pub ruleset safe_rules = (Safe-pure, Safe-halt, Safe-mem, Safe-if, Safe-bind, Safe-get_symbol)
