-- ===== src/Kva/Release.antt =====
-- rocinante/src/memory/kernel_va_allocator.h, `Free`: the results that it may have.
use walden.Base.{Bool, Bool-cases, List, [], arith, false, if◌then◌else◌, inl, inr, leb, length}
use walden.Base.{ltb, not, refl, true, ℕ, ◌+◌, ◌<◌, ◌==◌, ◌||◌, ◌∷◌, ◌≡◌, ◌≤◌}
use walden.Base.Word.{add64, word}
use walden.Kva.{Allocator, Range, max_free_ranges, release}
use walden.Kva.Allocation.{IsWellFormed}
use walden.Kva.Coalesce.{coalesce-merge, meets_neighbour-overlaps}
use walden.Kva.Merge.{Canonical-merge, covers-merge, merge, overlaps, overlaps-none}
use walden.Kva.Merge.{overlaps-some}
use walden.Kva.Ranges.{covers, within}

-- `t` is `s` with the block [base, base + size) added to its free addresses.
pub record Returns (s : Allocator) (base size : ℕ) (t : Allocator) : Type 0 where
  pub was_used : (x : ℕ) → within base (base + size) x ≡ true → covers s.free_ranges x ≡ false
  pub free_after :
      (x : ℕ) → covers t.free_ranges x ≡ (within base (base + size) x || covers s.free_ranges x)
  pub same_bounds :
      (t.initialized ≡ s.initialized)
      × (t.managed_base ≡ s.managed_base)
      × (t.managed_limit ≡ s.managed_limit)
  pub well_formed : IsWellFormed t

-- The results that `Free` may have: the block is added; or nothing changes, because the block is not
-- inside the managed range, or an address of it is free already, or the array is full.
pub data Releases (s : Allocator) (base size : ℕ) : Bool × Allocator → Type 0 where
  released : (t : Allocator) → Returns s base size t → Releases s base size (true, t)
  unmanaged :
      ¬ ((s.managed_base ≤ base) × (base + size ≤ s.managed_limit))
      → Releases s base size (false, s)
  already_free :
      (x : ℕ)
      → within base (base + size) x ≡ true
      → covers s.free_ranges x ≡ true
      → Releases s base size (false, s)
  full :
      length s.free_ranges ≡ max_free_ranges
      → ((x : ℕ) → within base (base + size) x ≡ true → covers s.free_ranges x ≡ false)
      → Releases s base size (false, s)

-- The early returns of `Free`.
abbrev outside : Allocator → ℕ → ℕ → Bool
outside s base size =
    not s.initialized
    || (size == 0)
    || ltb (add64 base size) base
    || ltb base s.managed_base
    || ltb s.managed_limit (add64 base size)
    || not (ltb base (add64 base size))

length-merge_le :
    (base limit : ℕ) (ranges : List Range) → length (merge base limit ranges) ≤ length ranges + 1
length-merge_le base limit [] = omega arith
length-merge_le base limit (r ∷ []) = ground arith
length-merge_le base limit (r ∷ q ∷ rest) = ground (arith, length-merge_le base limit (q ∷ rest))

module _ (s : Allocator) (v : IsWellFormed s) (base size : ℕ) (pos : 0 < size)
    (low : s.managed_base ≤ base) (high : base + size ≤ s.managed_limit) where
  abbrev merged : Allocator
  merged = record s { free_ranges = merge base (base + size) s.free_ranges }

  merged-Returns :
      overlaps base (base + size) s.free_ranges ≡ false
      → length s.free_ranges < max_free_ranges
      → Returns s base size merged
  merged-Returns apart room =
      let proper : base < base + size = omega arith in
      record {
        was_used = λ x h. overlaps-none base (base + size) proper s.free_ranges x apart h;
        free_after = λ x.
            covers-merge base (base + size) proper s.managed_base s.managed_limit s.free_ranges x
              v.canonical apart;
        same_bounds = (refl, refl, refl);
        well_formed = record {
          canonical =
              Canonical-merge base (base + size) proper s.managed_base s.managed_limit s.free_ranges
                v.canonical low high apart;
          limit_word = v.limit_word;
          room = omega (arith, length-merge_le base (base + size) s.free_ranges);
        };
      }

release-outside :
    (s : Allocator) (base size : ℕ) → outside s base size ≡ true → release s base size ≡ (false, s)
unfolding release
release-outside s base size out = ground (arith, out)

-- What `Free` computes on a managed block, in terms of `overlaps` and `merge`.
release_lem :
    (s : Allocator) (base size : ℕ)
    → IsWellFormed s
    → size < word
    → base < word
    → outside s base size ≡ false
    → release s base size ≡ (
        if overlaps base (base + size) s.free_ranges
        then (false, s)
        else if leb max_free_ranges (length s.free_ranges)
        then (false, s)
        else (true, record s { free_ranges = merge base (base + size) s.free_ranges }))
unfolding release
release_lem s base size v p q inside =
    let ends : add64 base size ≡ base + size = ground (arith, inside) in
    let proper : base < base + size = ground (arith, inside) in
    ground (
      arith,
      inside,
      ends,
      meets_neighbour-overlaps base (base + size) proper s.managed_base s.managed_limit
          s.free_ranges v.canonical,
      coalesce-merge base (base + size) proper s.managed_base s.managed_limit s.free_ranges
          v.canonical,
    )

-- On a well-formed, initialised allocator every `Free` of a positive size has one of the results that `Releases`
-- lists: exactly the block becomes free again and the allocator stays well-formed; or it is refused,
-- nothing changes, and the block leaves the managed addresses or wraps, some address of it is free
-- already, or the array is full.
pub release-Releases :
    (s : Allocator) (base size : ℕ)
    → IsWellFormed s
    → s.initialized ≡ true
    → 0 < size
    → size < word
    → base < word
    → Releases s base size (release s base size)
release-Releases s base size v live pos size_word base_word =
    elim (Bool-cases (outside s base size)) [
      | inl out ↦
          rw (release-outside s base size out)
            (unmanaged (λ inside. ground (arith, out, inside, v.limit_word)))
      | inr kept ↦
          let proper : base < base + size = omega arith in
          let inside : (s.managed_base ≤ base) × (base + size ≤ s.managed_limit) =
            ground (arith, kept) in
          elim (Bool-cases (overlaps base (base + size) s.free_ranges)) [
            | inl meets ↦
                let (x, h, k) =
                  overlaps-some base (base + size) proper s.managed_base s.managed_limit
                    s.free_ranges v.canonical meets in
                rw (release_lem s base size v size_word base_word kept, meets) (already_free x h k)
            | inr apart ↦ elim (Bool-cases (leb max_free_ranges (length s.free_ranges))) [
              | inl no_room ↦
                  rw (release_lem s base size v size_word base_word kept, apart, no_room)
                    (full (ground (arith, v.room))
                      (λ x h. overlaps-none base (base + size) proper s.free_ranges x apart h))
              | inr room ↦
                  rw (release_lem s base size v size_word base_word kept, apart, room)
                    (released (record s { free_ranges = merge base (base + size) s.free_ranges })
                      (merged-Returns s v base size pos inside.0 inside.1 apart (ground arith)))
            ]
          ]
    ]
