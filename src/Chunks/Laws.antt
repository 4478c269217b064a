-- ===== src/Chunks/Laws.antt =====
-- Blocks that are handed out never overlap, whatever the order of `new` and `delete`.
use lfsc.Common.{
  ℕ, suc, ◌+◌, ◌*◌, ◌≤◌, ◌<◌, ◌≡◌, refl, ◌⊎◌, inl, inr, false, List, [], ◌∷◌, ◌==◌, arith, All,
  All-map,
}
use lfsc.Heap.{Ptr, null}
use lfsc.Chunks.{Chunks, Regions}
use lfsc.Chunks.Apart.{
  All-zip, Lies, first, later, IsFresh, Lies-IsFresh, Apart, Apart-sym, Distinct, Linked,
}

module _ (block : ℕ) where
  -- A block in memory that `malloc` gave, which the current chunk, what is left of it being from
  -- `next` to `stop`, will not hand out.
  pub record IsBlock (next stop : Ptr) (rs : Regions) (p : Ptr) : Type 0 where
    pub some_address : 0 < p
    pub lies : Lies block p rs
    pub clear : (p + block ≤ next) ⊎ (stop ≤ p)

  -- What is left of the current chunk is `k` blocks.
  pub record HasRoom (next stop : Ptr) (rs : Regions) (k : ℕ) : Type 0 where
    pub whole : stop ≡ next + k * block
    pub inside : (k ≡ 0) ⊎ ((0 < next) × Lies (k * block) next rs)

  abbrev pub IsBlockOf : Chunks → Ptr → Type 0
  IsBlockOf s = IsBlock s.next_free_block s.end_of_current_chunk s.regions

  -- The blocks in use and the deleted ones are apart, and the latter are the free list.
  pub record IsPool (s : Chunks) (live free : List Ptr) : Type 0 where
    pub linked : Linked block s.field s.freelist free
    pub live_apart : Distinct block live
    pub free_apart : Distinct block free
    pub between : All (λ p. All (Apart block p) live) free
    pub live_blocks : All (IsBlockOf s) live
    pub free_blocks : All (IsBlockOf s) free
    pub left : ℕ
    pub room : HasRoom s.next_free_block s.end_of_current_chunk s.regions left

  abbrev pub HasPool : Chunks → List Ptr → Type 0
  HasPool s live = (free : List Ptr) × IsPool s live free

  All-flip :
      (ps qs : List Ptr) (p : Ptr)
      → All (Apart block p) ps
      → All (λ q. All (Apart block q) qs) ps
      → All (λ q. All (Apart block q) (p ∷ qs)) ps
  All-flip ps qs p a h = All-zip ps (λ q x y. (Apart-sym block p q x, y)) a h

  take-IsPool :
      (s : Chunks) (live : List Ptr) (q : Ptr) (free : List Ptr)
      → IsPool s live (q ∷ free)
      → IsPool (record s { freelist = s.field q }) (q ∷ live) free
  take-IsPool s live q free h = record {
    linked = h.linked.2;
    live_apart = (h.between.0, h.live_apart);
    free_apart = h.free_apart.1;
    between = All-flip free live q h.free_apart.0 h.between.1;
    live_blocks = (h.free_blocks.0, h.live_blocks);
    free_blocks = h.free_blocks.1;
    left = h.left;
    room = h.room;
  }

  pub take_free-HasPool :
      (s : Chunks) (live free : List Ptr)
      → IsPool s live free
      → (s.freelist == null) ≡ false
      → HasPool (record s { freelist = s.field s.freelist }) (s.freelist ∷ live)
  take_free-HasPool s live [] h e = absurd (ground (arith, h.linked))
  take_free-HasPool s live (q ∷ free) h e =
      let same : s.freelist ≡ q = h.linked.0 in rw same (free, take-IsPool s live q free h)

  Lies-part : (a n k p q : ℕ) {rs : Regions} → q ≡ p + a → a + n ≤ k → Lies k p rs → Lies n q rs
  Lies-part a n k p q e h (first x y) = first (omega arith) (omega arith)
  Lies-part a n k p q e h (later l) = later (Lies-part a n k p q e h l)

  pub one_more : (k : ℕ) → suc k * block ≡ block + k * block
  one_more k = grind arith

  -- The next block of the chunk.
  module _ (next stop : Ptr) (rs : Regions) (k : ℕ) (r : HasRoom next stop rs (suc k)) where
    some_left : (0 < next) × Lies (suc k * block) next rs
    some_left = elim r.inside [ inl e ↦ absurd (omega arith) | inr h ↦ h ]

    next-IsBlock : IsBlock (next + block) stop rs next
    next-IsBlock = record {
      some_address = some_left.0;
      lies =
          Lies-part 0 block (suc k * block) next next (omega arith) (omega (arith, one_more k))
            some_left.1;
      clear = inl (omega arith);
    }

    next-HasRoom : HasRoom (next + block) stop rs k
    next-HasRoom = record {
      whole = omega (arith, r.whole, one_more k);
      inside = inr (
        omega (arith, some_left.0),
        Lies-part block (k * block) (suc k * block) next (next + block) (omega arith)
            (omega (arith, one_more k)) some_left.1,
      );
    }

    IsBlock-next : (p : Ptr) → IsBlock next stop rs p → IsBlock (next + block) stop rs p
    IsBlock-next p b = record {
      some_address = b.some_address;
      lies = b.lies;
      clear = elim b.clear [ inl h ↦ inl (omega arith) | inr h ↦ inr h ];
    }

    -- It is apart from every block before it.
    next-Apart : (p : Ptr) → IsBlock next stop rs p → Apart block next p
    next-Apart p b = elim b.clear [
      | inl h ↦ inr h
      | inr h ↦ inl (omega (arith, r.whole, one_more k))
    ]

  -- With a block left, `next` is handed out.
  pub bump-HasPool :
      (s : Chunks) (live free : List Ptr) (k : ℕ)
      → IsPool s live free
      → HasRoom s.next_free_block s.end_of_current_chunk s.regions (suc k)
      → HasPool
          (record s { next_free_block = s.next_free_block + block })
          (s.next_free_block ∷ live)
  bump-HasPool s live free k h r =
      let keep = IsBlock-next s.next_free_block s.end_of_current_chunk s.regions k r in
      let apart = next-Apart s.next_free_block s.end_of_current_chunk s.regions k r in
      (
        free,
        record {
          linked = h.linked;
          live_apart = (All-map live apart h.live_blocks, h.live_apart);
          free_apart = h.free_apart;
          between =
              All-flip free live s.next_free_block (All-map free apart h.free_blocks) h.between;
          live_blocks = (
            next-IsBlock s.next_free_block s.end_of_current_chunk s.regions k r,
            All-map live keep h.live_blocks,
          );
          free_blocks = All-map free keep h.free_blocks;
          left = k;
          room = next-HasRoom s.next_free_block s.end_of_current_chunk s.regions k r;
        },
      )

  -- A chunk of memory that meets none of the memory before.
  new_chunk-IsBlock :
      (next stop a k : ℕ) (rs : Regions) (p : Ptr)
      → IsFresh a k rs
      → IsBlock next stop rs p
      → IsBlock a (a + k) ((a, k) ∷ rs) p
  new_chunk-IsBlock next stop a k rs p f b = record {
    some_address = b.some_address;
    lies = later b.lies;
    clear = Lies-IsFresh block p a k rs b.lies f;
  }

  abbrev pub with_chunk : ℕ → ℕ → Chunks → Chunks
  with_chunk a k s = record s {
    next_free_block = a;
    end_of_current_chunk = a + k;
    regions = (a, k) ∷ s.regions;
  }

  pub with_chunk-HasRoom :
      (a k : ℕ) (rs : Regions) → 0 < a → HasRoom a (a + k * block) ((a, k * block) ∷ rs) k
  with_chunk-HasRoom a k rs h = record {
    whole = refl;
    inside = inr (h, first (omega arith) (omega arith));
  }

  pub with_chunk-IsPool :
      (s : Chunks) (live free : List Ptr) (a k : ℕ)
      → IsPool s live free
      → 0 < a
      → IsFresh a (k * block) s.regions
      → IsPool (with_chunk a (k * block) s) live free
  with_chunk-IsPool s live free a k h pos f =
      let keep = λ (p : Ptr) (b : IsBlockOf s p).
        new_chunk-IsBlock s.next_free_block s.end_of_current_chunk a (k * block) s.regions p f b in
      record {
        linked = h.linked;
        live_apart = h.live_apart;
        free_apart = h.free_apart;
        between = h.between;
        live_blocks = All-map live keep h.live_blocks;
        free_blocks = All-map free keep h.free_blocks;
        left = k;
        room = with_chunk-HasRoom a k s.regions pos;
      }
