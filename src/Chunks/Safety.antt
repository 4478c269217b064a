-- ===== src/Chunks/Safety.antt =====
-- The blocks that are in use after any sequence of `new`, `delete` and writes to blocks in use.
use lfsc.Common.{ℕ, ◌<◌, ◌≡◌, refl, inl, List, [], ◌∷◌, arith, All, All-map}
use lfsc.Heap.{Ptr, null, ok}
use lfsc.Heap.Returns.{Ensures, ensures, stops}
use lfsc.Heap.Returns
use lfsc.Chunks.{Chunks, Regions, set_field, no_chunks, init_chunks, operator_new, operator_delete}
use lfsc.Chunks.Apart.{Without, Lies, Distinct}
use lfsc.Chunks.Laws.{IsPool, HasPool}
use lfsc.Chunks.Operators.{
  IsMalloc, init_chunks-IsPool, operator_new-HasPool, operator_delete-IsPool, store-IsPool,
}

-- The allocator and the addresses of the objects in use.
pub record Use : Type 0 where
  pub chunks : Chunks
  pub live : List Ptr

module _ (malloc : Regions → ℕ → Ptr) (block chunk : ℕ) where
  -- An object is made, is deleted, or has the field changed that links the free list.
  pub data Step (u v : Use) : Type 0 where
    start : init_chunks malloc block chunk u.chunks ≡ ok tt v.chunks → v.live ≡ u.live → Step u v
    new :
        (p : Ptr)
        → operator_new malloc block chunk null u.chunks ≡ ok p v.chunks
        → v.live ≡ p ∷ u.live
        → Step u v
    delete :
        (p : Ptr) → Without p u.live v.live → operator_delete p u.chunks ≡ ok tt v.chunks → Step u v
    store :
        (p x : Ptr) (others : List Ptr)
        → Without p u.live others
        → v.live ≡ u.live
        → v.chunks ≡ record u.chunks { field = set_field u.chunks.field p x }
        → Step u v

  pub data Reach (u : Use) : Use → Type 0 where
    begin : Reach u u
    next : {v w : Use} → Reach u v → Step v w → Reach u w

  module _ (law : IsMalloc malloc block chunk) where
    -- What a step does to a pool.
    Step-HasPool :
        {u v : Use} → Step u v → HasPool block u.chunks u.live → HasPool block v.chunks v.live
    Step-HasPool {u} {v} (start e l) h = rw l (
      h.0,
      Returns.ensured tt v.chunks
          (init_chunks-IsPool malloc block chunk law u.chunks u.live h.0 h.1) e,
    )
    Step-HasPool {u} {v} (new p e l) h = rw l (
        Returns.ensured p v.chunks
          (operator_new-HasPool malloc block chunk law u.chunks u.live h.0 h.1) e)
    Step-HasPool {u} {v} (delete p w e) h = (
      p ∷ h.0,
      Returns.ensured tt v.chunks
          (operator_delete-IsPool malloc block chunk law u.chunks p u.live v.live h.0 w h.1) e,
    )
    Step-HasPool {u} {v} (store p x others w l c) h =
        rw (l, c) (h.0, store-IsPool malloc block chunk law u.chunks p x u.live others h.0 w h.1)

    -- Nothing is in use at the start.
    IsPool-empty : (field : Ptr → Ptr) → IsPool block (no_chunks field) [] []
    IsPool-empty field = record {
      linked = refl;
      live_apart = tt;
      free_apart = tt;
      between = tt;
      live_blocks = tt;
      free_blocks = tt;
      left = 0;
      room = record { whole = omega arith; inside = inl refl };
    }

    Reach-HasPool :
        {field : Ptr → Ptr} {u : Use}
        → Reach (record { chunks = no_chunks field; live = [] }) u
        → HasPool block u.chunks u.live
    Reach-HasPool {field} begin = ([], IsPool-empty field)
    Reach-HasPool (next r s) = Step-HasPool s (Reach-HasPool r)

    -- Where `malloc` gives NULL or memory that it has not given before, blocks and chunks are not empty
    -- and a chunk has less than 2 ^ 32 bytes: after any sequence of `new`, `delete` and writes to
    -- objects in use, no two objects in use overlap, and each lies, at an address that is not NULL, in
    -- memory that `malloc` gave.
    pub Reach-Distinct :
        (field : Ptr → Ptr) {u : Use}
        → Reach (record { chunks = no_chunks field; live = [] }) u
        → Distinct block u.live × All (λ p. (0 < p) × Lies block p u.chunks.regions) u.live
    Reach-Distinct field {u} r =
        let h = Reach-HasPool r in
        (h.1.live_apart, All-map u.live (λ p b. (b.some_address, b.lies)) h.1.live_blocks)
