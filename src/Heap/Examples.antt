-- ===== src/Heap/Examples.antt =====
-- The theorems on cells and words at a memory with a marked symbol that has three references.
use lfsc.Common.{ℕ, suc, ◌≡◌, refl, ◌⊎◌, true, false, none, some, [], ◌∷◌, ◌==◌, if◌then◌else◌}
use lfsc.Header as Header
use lfsc.Header.{
  class_code, op_code, getclass, getop, getexmark, getrefcnt, setexmark, clearexmark, new_data,
  Class, Op,
}
use lfsc.Heap.{Cell, Node, syms, Heap, ok, class_of, op_of, set_mark}
use lfsc.Heap.Count.{inc, dec, destroy}
use lfsc.Heap.Word.{word, stored, word-fields, inc-word, set_mark-word, dec-word}

abbrev node : Node ℕ ℕ
node = syms (b'x' ∷ []) 0

abbrev cell : Cell ℕ ℕ
cell = record { count = 3; mark = true; node = node }

abbrev memory : Heap ℕ ℕ
memory = record { next = 2; cell = λ p. if p == 1 then some cell else none }

word-fields_example :
    (getclass (word cell) ≡ class_code (class_of node))
    × (getop (word cell) ≡ op_code (op_of node))
    × (getexmark (word cell) ≡ true)
    × (getrefcnt (word cell) ≡ 3)
word-fields_example = word-fields cell

inc-word_example :
    (c₁ : Cell ℕ ℕ) × (inc 1 memory ≡ ok tt (stored 1 c₁ memory))
    × (c₁.node ≡ node)
    × (word c₁ ≡ Header.inc (word cell))
inc-word_example = inc-word 1 cell memory refl

set_mark-word_example :
    (c₁ : Cell ℕ ℕ) × (set_mark 1 false memory ≡ ok tt (stored 1 c₁ memory))
    × (c₁.node ≡ node)
    × (word c₁ ≡ clearexmark (word cell))
set_mark-word_example = set_mark-word 1 false cell memory refl

dec-word_example :
    ((Header.dec (word cell) ≡ none) × (dec (suc 4) 1 memory ≡ destroy (dec 4) 1 node memory))
    ⊎ ((c₁ : Cell ℕ ℕ) × (dec (suc 4) 1 memory ≡ ok tt (stored 1 c₁ memory))
        × (c₁.node ≡ node)
        × (Header.dec (word cell) ≡ some (word c₁)))
dec-word_example = dec-word 4 1 cell memory refl
