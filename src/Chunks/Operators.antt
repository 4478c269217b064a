-- ===== src/Chunks/Operators.antt =====
-- `new`, `delete` and a write to a block in use keep the pool: the blocks that are in use, the free
-- list, and what is left of the chunk, with no two of them over each other.
use lfsc.Common.{
  ℕ, zero, suc, ◌*◌, ◌^◌, ◌+◌, ◌<◌, ◌≡◌, refl, inl, inr, true, false, List, ◌∷◌, ◌==◌, arith,
  Bool-cases, ==_refl, All-map,
}
use lfsc.Heap.{Ptr, null}
use lfsc.Heap.Returns.{Ensures, ensures, stops}
use lfsc.Heap.Returns
use lfsc.Chunks.{
  Chunks, Regions, set_field, chunk_bytes, allocate_new_chunk, init_chunks, take_free, bump, carve,
  operator_new, operator_delete,
}
use lfsc.Chunks.Apart.{
  Apart, Apart-sym, All-Without, Without, IsFresh, Distinct-Without, Linked-set,
}
use lfsc.Chunks.Laws.{
  IsBlockOf, HasRoom, IsPool, HasPool, take_free-HasPool, bump-HasPool, with_chunk-IsPool,
  with_chunk-HasRoom,
}

module _ (malloc : Regions → ℕ → Ptr) (block chunk : ℕ) where
  -- What `malloc` gives is NULL or new memory; the sizes fit.
  pub record IsMalloc : Type 0 where
    pub fresh : (rs : Regions) (n : ℕ) → (malloc rs n == null) ≡ false → IsFresh (malloc rs n) n rs
    pub some_block : 0 < block
    pub some_chunk : 0 < chunk
    pub fits : chunk * block < 2 ^ 32

  module _ (law : IsMalloc) where
    bytes : chunk_bytes malloc block chunk ≡ chunk * block
    bytes = grind (arith, law.fits)

    -- After a new chunk the pool is as it was, and there is a block left.
    abbrev Refilled : List Ptr → List Ptr → Unit {0} → Chunks → Type 0
    Refilled live free _ t =
        IsPool block t live free
        × HasRoom block t.next_free_block t.end_of_current_chunk t.regions chunk

    allocate_new_chunk-IsPool :
        (s : Chunks) (live free : List Ptr)
        → IsPool block s live free
        → Ensures (Refilled live free) (allocate_new_chunk malloc block chunk s)
    unfolding allocate_new_chunk
    allocate_new_chunk-IsPool s live free h =
        let a = malloc s.regions (chunk * block) in
        elim (Bool-cases (a == null)) [
          | inl none ↦ rw (bytes, none) stops
          | inr some ↦
              let pos : 0 < a = ground arith in
              let f = law.fresh s.regions (chunk * block) some in
              rw (bytes, some)
                (ensures (
                  with_chunk-IsPool block s live free a chunk h pos f,
                  with_chunk-HasRoom block a chunk s.regions pos,
                ))
        ]

    -- The flag is not part of the pool.
    start_up :
        (s : Chunks) (live free : List Ptr)
        → IsPool block s live free
        → IsPool block (record s { initialized = true }) live free
    start_up s live free h = record {
      linked = h.linked;
      live_apart = h.live_apart;
      free_apart = h.free_apart;
      between = h.between;
      live_blocks = h.live_blocks;
      free_blocks = h.free_blocks;
      left = h.left;
      room = h.room;
    }

    pub init_chunks-IsPool :
        (s : Chunks) (live free : List Ptr)
        → IsPool block s live free
        → Ensures (λ _ t. IsPool block t live free) (init_chunks malloc block chunk s)
    unfolding init_chunks
    init_chunks-IsPool s live free h = Returns.Ensures-if s.initialized (ensures h) (
        Returns.bind (allocate_new_chunk-IsPool s live free h)
          λ _ t r. ensures (start_up t live free r.0))

    bump_some :
        (s : Chunks) (live free : List Ptr) (k : ℕ)
        → IsPool block s live free
        → HasRoom block s.next_free_block s.end_of_current_chunk s.regions k
        → 0 < k
        → HasPool block
            (record s { next_free_block = s.next_free_block + block })
            (s.next_free_block ∷ live)
    bump_some s live free zero h r pos = absurd (omega arith)
    bump_some s live free (suc k) h r pos = bump-HasPool block s live free k h r

    left_pos : (a k : ℕ) → (a == a + k * block) ≡ false → 0 < k
    left_pos a zero e = ground arith
    left_pos a (suc k) e = omega arith

    carve-HasPool :
        (s : Chunks) (live free : List Ptr)
        → IsPool block s live free
        → Ensures (λ p t. HasPool block t (p ∷ live)) (carve malloc block chunk s)
    unfolding carve bump
    carve-HasPool s live free h = elim (Bool-cases (s.next_free_block == s.end_of_current_chunk)) [
      | inl full ↦ rw full (
          Returns.bind (allocate_new_chunk-IsPool s live free h)
            λ _ t r. ensures (bump_some t live free chunk r.0 r.1 law.some_chunk))
      | inr more ↦
          let pos : 0 < h.left = left_pos s.next_free_block h.left (rw h.room.whole at more) in
          rw more (ensures (bump_some s live free h.left h h.room pos))
    ]

    pub operator_new-HasPool :
        (s : Chunks) (live free : List Ptr)
        → IsPool block s live free
        → Ensures (λ p t. HasPool block t (p ∷ live)) (operator_new malloc block chunk null s)
    unfolding operator_new take_free
    operator_new-HasPool s live free h = elim (Bool-cases (s.freelist == null)) [
      | inl empty ↦ rw empty (carve-HasPool s live free h)
      | inr some ↦ rw some (ensures (take_free-HasPool block s live free h some))
    ]

    pub operator_delete-IsPool :
        (s : Chunks) (p : Ptr) (live others free : List Ptr)
        → Without p live others
        → IsPool block s live free
        → Ensures (λ _ t. IsPool block t others (p ∷ free)) (operator_delete p s)
    unfolding operator_delete
    operator_delete-IsPool s p live others free w h =
        let live = Distinct-Without block w h.live_apart in
        let blocks = All-Without (IsBlockOf block s) w h.live_blocks in
        let parted = All-map free (λ q a. All-Without (Apart block q) w a) h.between in
        let apart = All-map free (λ q a. Apart-sym block q p a.0) parted in
        ensures (record {
          linked = (
            refl,
            (λ e. absurd (omega (arith, blocks.0.some_address))),
            rw (==_refl p) (
                Linked-set block s.field p s.freelist s.freelist free law.some_block apart
                  h.linked),
          );
          live_apart = live.0;
          free_apart = (apart, h.free_apart);
          between = (live.1, All-map free (λ q a. a.1) parted);
          live_blocks = blocks.1;
          free_blocks = (blocks.0, h.free_blocks);
          left = h.left;
          room = h.room;
        })

    pub store-IsPool :
        (s : Chunks) (p x : Ptr) (live others free : List Ptr)
        → Without p live others
        → IsPool block s live free
        → IsPool block (record s { field = set_field s.field p x }) live free
    store-IsPool s p x live others free w h =
        let apart =
          All-map free (λ q a. Apart-sym block q p (All-Without (Apart block q) w a).0) h.between in
        record {
          linked = Linked-set block s.field p x s.freelist free law.some_block apart h.linked;
          live_apart = h.live_apart;
          free_apart = h.free_apart;
          between = h.between;
          live_blocks = h.live_blocks;
          free_blocks = h.free_blocks;
          left = h.left;
          room = h.room;
        }
