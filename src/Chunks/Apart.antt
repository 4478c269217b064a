-- ===== src/Chunks/Apart.antt =====
-- Blocks that do not overlap, lists of them, and the list that is linked through their field.
use lfsc.Common.{
  ℕ, ◌+◌, ◌≤◌, ◌<◌, ◌≡◌, ◌≢◌, ◌⊎◌, inl, inr, List, [], ◌∷◌, ◌==◌, arith, Bool-cases, All,
}
use lfsc.Heap.{Ptr, null}
use lfsc.Chunks.{Regions, set_field}

pub All-zip :
    {P Q R : Ptr → Type 0} (ps : List Ptr)
    → ((p : Ptr) → P p → Q p → R p)
    → All P ps
    → All Q ps
    → All R ps
All-zip [] f g h = tt
All-zip (p ∷ ps) f g h = (f p g.0 h.0, All-zip ps f g.1 h.1)

-- The second list is the first without the address, at one of its places.
pub data Without (p : Ptr) : List Ptr → List Ptr → Type 0 where
  here : {ps : List Ptr} → Without p (p ∷ ps) ps
  there : {q : Ptr} {ps qs : List Ptr} → Without p ps qs → Without p (q ∷ ps) (q ∷ qs)

pub All-Without :
    (P : Ptr → Type 0) {p : Ptr} {ps qs : List Ptr} → Without p ps qs → All P ps → P p × All P qs
All-Without P here h = h
All-Without P (there w) h = let r = All-Without P w h.1 in (r.0, (h.0, r.1))

-- A block lies in one of the regions.
pub data Lies (n p : ℕ) : Regions → Type 0 where
  first : {a k : ℕ} {rs : Regions} → a ≤ p → p + n ≤ a + k → Lies n p ((a, k) ∷ rs)
  later : {r : ℕ × ℕ} {rs : Regions} → Lies n p rs → Lies n p (r ∷ rs)

-- Memory from `a` on of the size `k` meets none of the regions.
abbrev pub IsFresh : ℕ → ℕ → Regions → Type 0
IsFresh a k [] = Unit
IsFresh a k ((b, n) ∷ rs) = ((a + k ≤ b) ⊎ (b + n ≤ a)) × IsFresh a k rs

pub Lies-IsFresh :
    (n p a k : ℕ) (rs : Regions) → Lies n p rs → IsFresh a k rs → (p + n ≤ a) ⊎ (a + k ≤ p)
Lies-IsFresh n p a k [] l f = elim l [ ]
Lies-IsFresh n p a k ((b, m) ∷ rs) (first h₁ h₂) (inl f, g) = inr (omega arith)
Lies-IsFresh n p a k ((b, m) ∷ rs) (first h₁ h₂) (inr f, g) = inl (omega arith)
Lies-IsFresh n p a k (r ∷ rs) (later l) (f, g) = Lies-IsFresh n p a k rs l g

module _ (block : ℕ) where
  abbrev pub Apart : Ptr → Ptr → Type 0
  Apart p q = (p + block ≤ q) ⊎ (q + block ≤ p)

  pub Apart-sym : (p q : Ptr) → Apart p q → Apart q p
  Apart-sym p q (inl h) = inr h
  Apart-sym p q (inr h) = inl h

  -- No two of the blocks overlap.
  abbrev pub Distinct : List Ptr → Type 0
  Distinct [] = Unit
  Distinct (p ∷ ps) = All (Apart p) ps × Distinct ps

  pub Distinct-Without :
      {p : Ptr} {ps qs : List Ptr} → Without p ps qs → Distinct ps → Distinct qs × All (Apart p) qs
  Distinct-Without here h = (h.1, h.0)
  Distinct-Without (there {q} w) h =
      let r = Distinct-Without w h.1 in
      let t = All-Without (Apart q) w h.0 in ((t.1, r.0), (Apart-sym q _ t.0, r.1))

  -- From `p` on, following the field leads through the blocks to NULL.
  abbrev pub Linked : (Ptr → Ptr) → Ptr → List Ptr → Type 0
  Linked field p [] = p ≡ null
  Linked field p (q ∷ qs) = (p ≡ q) × (q ≢ null) × Linked field (field q) qs

  -- Writing the field of a block that is apart from all of them.
  pub Linked-set :
      (field : Ptr → Ptr) (q v p : Ptr) (ps : List Ptr)
      → 0 < block
      → All (Apart q) ps
      → Linked field p ps
      → Linked (set_field field q v) p ps
  Linked-set field q v p [] b a l = l
  Linked-set field q v p (r ∷ rs) b a l = (
    l.0,
    l.1,
    elim (Bool-cases (r == q)) [
      | inl same ↦ absurd (ground (arith, a.0))
      | inr other ↦ rw other (Linked-set field q v (field r) rs b a.1 l.2)
    ],
  )
