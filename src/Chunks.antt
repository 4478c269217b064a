-- ===== src/Chunks.antt =====
-- The operators `new` and `delete` of a class, src/chunking_memory_management.h: blocks come from a
-- list of deleted blocks, linked through a field of theirs, and else from a chunk of many.
pub mod Apart
mod Examples
pub mod Laws
pub mod Operators
pub mod Safety
use lfsc.Common.{ℕ, ◌+◌, ◌*◌, ◌%◌, ◌^◌, Bool, true, false, List, [], ◌∷◌, ◌==◌, if◌then◌else◌}
use lfsc.Heap.{Ptr, null, abort, Cmd, pure, halt, ok, and_then, ◌>>=◌, ◌>>◌}

-- What `malloc` has returned, with the sizes.
abbrev pub Regions : Type 0
Regions = List (Ptr × ℕ)

-- The static members `freelist`, `next_free_block`, `end_of_current_chunk` and `initialized`, the
-- field THE_FIELD of each block in memory, and the memory that `malloc` has given.
pub record Chunks : Type 0 where
  pub freelist : Ptr
  pub next_free_block : Ptr
  pub end_of_current_chunk : Ptr
  pub initialized : Bool
  pub field : Ptr → Ptr
  pub regions : Regions

abbrev pub set_field : (Ptr → Ptr) → Ptr → Ptr → Ptr → Ptr
set_field field p v q = if q == p then v else field q

-- `malloc`, given what it returned before, BLOCK_SIZE and CHUNK_SIZE.
module _ (malloc : Regions → ℕ → Ptr) (block chunk : ℕ) where
  -- `unsigned tmp`
  abbrev pub chunk_bytes : ℕ
  chunk_bytes = (chunk * block) % 2 ^ 32

  unfoldable pub allocate_new_chunk : Cmd Chunks (Unit {0})
  allocate_new_chunk s =
      let start = malloc s.regions chunk_bytes in
      if start == null
      then halt abort s
      else pure tt (record s {
        next_free_block = start;
        end_of_current_chunk = start + chunk_bytes;
        regions = (start, chunk_bytes) ∷ s.regions;
      })

  unfoldable pub init_chunks : Cmd Chunks (Unit {0})
  unfolding allocate_new_chunk
  init_chunks s =
      if s.initialized
      then pure tt s
      else (allocate_new_chunk >> λ t. ok tt (record t { initialized = true })) s

  -- `new_block = freelist; freelist = new_block->THE_FIELD`
  unfoldable pub take_free : Cmd Chunks Ptr
  take_free s = ok s.freelist (record s { freelist = s.field s.freelist })

  -- `new_block = next_free_block; next_free_block += BLOCK_SIZE`
  unfoldable pub bump : Cmd Chunks Ptr
  bump s = ok s.next_free_block (record s { next_free_block = s.next_free_block + block })

  unfoldable pub carve : Cmd Chunks Ptr
  unfolding allocate_new_chunk bump
  carve s =
      if s.next_free_block == s.end_of_current_chunk then (allocate_new_chunk >> bump) s else bump s

  -- `operator new(size, h)`
  unfoldable pub operator_new : Ptr → Cmd Chunks Ptr
  unfolding take_free carve
  operator_new h s =
      if h == null then (if s.freelist == null then carve s else take_free s) else pure h s

-- `operator delete(ptr)`
unfoldable pub operator_delete : Ptr → Cmd Chunks (Unit {0})
operator_delete p s = ok tt (record s { field = set_field s.field p s.freelist; freelist = p })

-- The static members at the start.
abbrev pub no_chunks : (Ptr → Ptr) → Chunks
no_chunks field = record {
  freelist = null;
  next_free_block = null;
  end_of_current_chunk = null;
  initialized = false;
  field = field;
  regions = [];
}
