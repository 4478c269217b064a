-- ===== src/Chunks/Examples.antt =====
-- Two objects of 8 bytes from a chunk of 16, one of them deleted and made again.
use lfsc.Common.{ℕ, ◌+◌, ◌≤◌, ◌<◌, refl, inr, false, List, [], ◌∷◌, arith, All}
use lfsc.Heap.{Ptr}
use lfsc.Chunks.{Chunks, Regions, no_chunks, operator_new, operator_delete, set_field}
use lfsc.Chunks.Apart.{Lies, IsFresh, Distinct, here, there}
use lfsc.Chunks.Operators.{IsMalloc}
use lfsc.Chunks.Safety.{Use, new, delete, store, Reach, begin, next, Reach-Distinct}

-- Memory behind all that was given before.
abbrev above : Regions → ℕ
above [] = 8
above ((a, n) ∷ rs) = a + n + above rs

abbrev bump_malloc : Regions → ℕ → Ptr
bump_malloc rs n = above rs

IsFresh-above : (a n : ℕ) (rs : Regions) → above rs ≤ a → IsFresh a n rs
IsFresh-above a n [] h = tt
IsFresh-above a n ((b, m) ∷ rs) h = (inr (omega arith), IsFresh-above a n rs (omega arith))

bump_malloc-IsMalloc : IsMalloc bump_malloc 8 2
bump_malloc-IsMalloc = record {
  fresh = λ rs n e. IsFresh-above (above rs) n rs (omega arith);
  some_block = omega arith;
  some_chunk = omega arith;
  fits = omega arith;
}

abbrev field : Ptr → Ptr
field p = 0

abbrev one_chunk : Ptr → Ptr → (Ptr → Ptr) → Chunks
one_chunk free bump f = record {
  freelist = free;
  next_free_block = bump;
  end_of_current_chunk = 24;
  initialized = false;
  field = f;
  regions = (8, 16) ∷ [];
}

abbrev written : Ptr → Ptr
written = set_field field 8 7

abbrev using : Chunks → List Ptr → Use
using c l = record { chunks = c; live = l }

-- Two are made, one is written to and deleted, and the third takes its place.
two_objects :
    Reach bump_malloc 8 2
      (using (no_chunks field) [])
      (using (one_chunk 0 24 (set_field written 8 0)) (8 ∷ 16 ∷ []))
unfolding operator_new operator_delete
two_objects =
    let one =
      next {v = using (no_chunks field) []} {w = using (one_chunk 0 16 field) (8 ∷ [])} begin
        (new 8 refl refl) in
    let two = next {w = using (one_chunk 0 24 field) (16 ∷ 8 ∷ [])} one (new 16 refl refl) in
    let used =
      next {w = using (one_chunk 0 24 written) (16 ∷ 8 ∷ [])} two
        (store 8 7 (16 ∷ []) (there here) refl refl) in
    let gone =
      next {w = using (one_chunk 8 24 (set_field written 8 0)) (16 ∷ [])} used
        (delete 8 (there here) refl) in
    next gone (new 8 refl refl)

Reach-Distinct_example :
    Distinct 8 (8 ∷ 16 ∷ []) × All (λ p. (0 < p) × Lies 8 p ((8, 16) ∷ [])) (8 ∷ 16 ∷ [])
Reach-Distinct_example = Reach-Distinct bump_malloc 8 2 bump_malloc-IsMalloc field two_objects
