-- ===== src/Heap/Word.antt =====
-- The cell of an expression against the word `data` that it stands for, src/expr.h.
use lfsc.Common.{
  ℕ, suc, ◌+◌, ◌*◌, ◌≡◌, refl, ◌⊎◌, inl, inr, Bool, Bool-cases, none, some, ◌==◌, if◌then◌else◌,
  arith,
}
use lfsc.Header as Header
use lfsc.Header.{
  class_code, op_code, getclass, getop, getexmark, getrefcnt, inc_ref, dec_ref, setexmark,
  clearexmark, new_data,
}
use lfsc.Header.Laws.{class_code-lt, op_code-lt}
use lfsc.Heap.{Ptr, Cell, Heap, ok, class_of, op_of, read, write, put, set_mark}
use lfsc.Heap.Count.{inc, dec, destroy}

module _ {Z Q : Type 0} where
  unfoldable pub word : Cell Z Q → ℕ
  word c =
      c.count * 512
      + (if c.mark then 256 else 0)
      + op_code (op_of c.node) * 8
      + class_code (class_of c.node)

  -- The word has the class and the operator of the node, the flag and the count.
  pub word-fields :
      (c : Cell Z Q)
      → (getclass (word c) ≡ class_code (class_of c.node))
        × (getop (word c) ≡ op_code (op_of c.node))
        × (getexmark (word c) ≡ c.mark)
        × (getrefcnt (word c) ≡ c.count)
  unfolding word getclass getop getexmark getrefcnt
  word-fields c =
      let k = class_code-lt (class_of c.node) in let o = op_code-lt (op_of c.node) in ground arith

  -- The memory with the cell `c` at `p`.
  abbrev pub stored : Ptr → Cell Z Q → Heap Z Q → Heap Z Q
  stored p c h = record h { cell = put h.cell p (some c) }

  -- On an expression in memory, `inc` stores a cell with the same node whose word is the old word
  -- after `inc`.
  pub inc-word :
      (p : Ptr) (c : Cell Z Q) (h : Heap Z Q)
      → h.cell p ≡ some c
      → (c₁ : Cell Z Q) × (inc p h ≡ ok tt (stored p c₁ h))
        × (c₁.node ≡ c.node)
        × (word c₁ ≡ Header.inc (word c))
  unfolding inc Header.inc getrefcnt word read write
  inc-word p c h e =
      let k = class_code-lt (class_of c.node) in
      let o = op_code-lt (op_of c.node) in
      (record c { count = inc_ref c.count }, rw (read, write, e), refl, ground arith)

  -- Setting or clearing the flag of an expression in memory stores a cell with the same node whose
  -- word is the old word after the operation on words.
  pub set_mark-word :
      (p : Ptr) (b : Bool) (c : Cell Z Q) (h : Heap Z Q)
      → h.cell p ≡ some c
      → (c₁ : Cell Z Q) × (set_mark p b h ≡ ok tt (stored p c₁ h))
        × (c₁.node ≡ c.node)
        × (word c₁ ≡ (if b then setexmark (word c) else clearexmark (word c)))
  unfolding set_mark setexmark clearexmark getexmark word read write
  set_mark-word p b c h e =
      let k = class_code-lt (class_of c.node) in
      let o = op_code-lt (op_of c.node) in
      (record c { mark = b }, rw (read, write, e), refl, ground arith)

  -- On an expression in memory, `dec` destroys it where `dec` on its word does, and else it stores a
  -- cell with the same node whose word is the old word after `dec`.
  pub dec-word :
      (f : ℕ) (p : Ptr) (c : Cell Z Q) (h : Heap Z Q)
      → h.cell p ≡ some c
      → ((Header.dec (word c) ≡ none) × (dec (suc f) p h ≡ destroy (dec f) p c.node h))
        ⊎ ((c₁ : Cell Z Q) × (dec (suc f) p h ≡ ok tt (stored p c₁ h))
            × (c₁.node ≡ c.node)
            × (Header.dec (word c) ≡ some (word c₁)))
  unfolding dec Header.dec getrefcnt word read write
  dec-word f p c h e =
      let k = class_code-lt (class_of c.node) in
      let o = op_code-lt (op_of c.node) in
      elim (Bool-cases (dec_ref c.count == 0)) [
        | inl z ↦ inl (ground arith, rw (read, write, e, z))
        | inr z ↦
            inr (record c { count = dec_ref c.count }, rw (read, write, e, z), refl, ground arith)
      ]
