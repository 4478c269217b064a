-- ===== src/Expr/Examples.antt =====
-- The theorems on expressions at a memory with `x`, `λx. x`, `c` and `((λx. x) c)`.
use lfsc.Common.{
  true, ℕ, ◌≡◌, refl, false, none, some, [], ◌∷◌, ◌==◌, if◌then◌else◌, arith, Bool-cases, inl, inr,
}
use mathlib.Core.Path.{sym}
use mathlib.Core.Option.{some-injective}
use lfsc.Header.{Op, inc_ref, dec_ref}
use lfsc.Heap.Returns.{ended}
use lfsc.Heap.{
  Ptr, Node, syms, cexp, Cell, Heap, ok, node, read, write, alloc, mark, set_mark, getop, kid, kids,
  set_val, sym_val, int, hole, val_of, null,
}
use lfsc.Heap.Count.{inc, dec, delete, destroy, destroy_sym, destroy_kids}
use lfsc.Expr.{follow_defs, collect_args, get_head, build_app, inc_all, make_app}
use lfsc.Expr.Arguments.{is_live, AllLive, none_left, one_more, an_app, IsAt, collect_args-make_app}
use lfsc.Expr.Clone.{clone, clone_node, clone_lam, clone_sym, copy_var, clone_under, keep}
use lfsc.Expr.Whr.{bind_args, take_head, reduce, whr}
use lfsc.Expr.Follow.{StandsFor, Ranked, follow_defs-StandsFor}
use lfsc.Heap.Returns.{Ensures}
use lfsc.Expr.Restores.{HasVal, clone_under-HasVal, defeq_under-HasVal}
use lfsc.Expr.Defeq.{defeq, defeq_left, defeq_right, defeq_same, reduced, defeq_under}
use lfsc.Code.Examples.{naturals}

abbrev cell : ℕ → Node ℕ ℕ → Cell ℕ ℕ
cell c n = record { count = c; mark = false; node = n }

abbrev memory : Heap ℕ ℕ
memory = record {
  next = 5;
  cell = λ p.
      if p == 1
      then some (cell 2 (syms (b'x' ∷ []) 0))
      else if p == 2
      then some (cell 1 (cexp Op.lam (1 ∷ 1 ∷ [])))
      else if p == 3
      then some (cell 2 (syms (b'c' ∷ []) 0))
      else if p == 4
      then some (cell 1 (cexp Op.app (2 ∷ 3 ∷ [])))
      else none;
}

whr_run : ended (whr 10 4 memory) ≡ true
unfolding whr reduce get_head collect_args follow_defs take_head bind_args node read mark set_mark
    kid kids getop set_val inc inc_all build_app write
whr_run = refl

memory-IsAt : IsAt memory 4 (cexp Op.app (2 ∷ 3 ∷ []))
unfolding IsAt
memory-IsAt = (1, false, refl)

memory-live : AllLive memory (2 ∷ 3 ∷ [])
memory-live =
    one_more (is_live (cell 1 (cexp Op.lam (1 ∷ 1 ∷ []))) refl)
      (one_more (is_live (cell 2 (syms (b'c' ∷ []) 0)) refl) none_left)

memory-spine : collect_args 0 false 4 memory ≡ ok (3 ∷ [], 2) memory
unfolding collect_args node read
memory-spine = refl

collect_args-make_app_example :
    (q : Ptr) × (h₁ : Heap ℕ ℕ) × (make_app 4 1 memory ≡ ok q h₁)
    × (collect_args 0 false q h₁ ≡ ok (3 ∷ 1 ∷ [], 2) h₁)
collect_args-make_app_example =
    collect_args-make_app 0 4 1 2 (3 ∷ []) (cexp Op.app (2 ∷ 3 ∷ [])) memory memory-IsAt
      (an_app 2 (3 ∷ []) memory-live) memory-spine

clone_run : ended (clone 10 2 memory) ≡ true
unfolding clone clone_node clone_lam clone_sym copy_var clone_under keep alloc node read write mark
    set_mark kid kids getop sym_val set_val inc
clone_run = refl

dec_run : ended (dec 10 4 memory) ≡ true
unfolding dec destroy destroy_kids destroy_sym delete read write dec_ref
dec_run = refl

defeq_run : ended (defeq naturals 10 4 3 memory) ≡ true
unfolding inc_ref defeq defeq_left defeq_right defeq_same reduced whr reduce get_head collect_args
    follow_defs take_head bind_args node read mark set_mark kid kids getop set_val sym_val inc
    inc_all build_app write dec destroy destroy_kids destroy_sym delete dec_ref
defeq_run = refl

-- `y` stands for `x`, which stands for a number.
abbrev values : Heap ℕ ℕ
values = record {
  next = 4;
  cell = λ p.
      if p == 1
      then some (cell 2 (int 7))
      else if p == 2
      then some (cell 2 (syms (b'x' ∷ []) 1))
      else if p == 3
      then some (cell 1 (hole 2))
      else none;
}

values-Ranked : Ranked values (λ p. p)
unfolding Ranked
values-Ranked p c e v = elim (Bool-cases (p == 1)) [
  | inl a ↦
      let at : c ≡ cell 2 (int 7) = some-injective _ _ (sym (rw a at e)) in
      let numeral : (val_of (cell 2 (int 7)).node == null) ≡ false = rw at at v in absurd cc
  | inr a ↦ elim (Bool-cases (p == 2)) [
    | inl b ↦
        let at : c ≡ cell 2 (syms (b'x' ∷ []) 1) = some-injective _ _ (sym (rw (a, b) at e)) in
        rw at (is_live (cell 2 (int 7)) refl, ground arith)
    | inr b ↦ elim (Bool-cases (p == 3)) [
      | inl d ↦
          let at : c ≡ cell 1 (hole 2) = some-injective _ _ (sym (rw (a, b, d) at e)) in
          rw at (is_live (cell 2 (syms (b'x' ∷ []) 1)) refl, ground arith)
      | inr d ↦ let at = rw (a, b, d) at e in absurd cc
    ]
  ]
]

follow_defs-StandsFor_example :
    (q : Ptr) × (follow_defs 4 3 values ≡ ok q values) × StandsFor values q 3
follow_defs-StandsFor_example =
    follow_defs-StandsFor 4 3 values (λ p. p) values-Ranked (is_live (cell 1 (hole 2)) refl)
      (omega arith)

memory-HasVal : HasVal 1 0 memory
unfolding HasVal sym_val node read
memory-HasVal = refl

memory-binder : kid 2 0 memory ≡ ok 1 memory
unfolding kid kids node read
memory-binder = refl

clone_under-HasVal_example : Ensures (λ _ h'. HasVal 1 0 h') (clone_under (clone 9) 1 3 1 memory)
clone_under-HasVal_example = clone_under-HasVal (clone 9) 1 3 1 0 memory memory-HasVal

defeq_under-HasVal_example :
    Ensures (λ _ h'. HasVal 1 0 h') (defeq_under 9 (defeq naturals 9) 2 2 1 memory)
defeq_under-HasVal_example =
    defeq_under-HasVal 9 (defeq naturals 9) 2 2 1 1 0 memory memory-binder memory-HasVal
