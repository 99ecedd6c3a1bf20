-- ===== src/Pmm/Boot/Storage.antt =====
-- rocinante/src/memory/pmm.cpp: `_allocate_bitmap` and `_allocate_frame_metadata`, once a place is
-- found.
use native.Mathlib.Nat.{mod-eq_of_lt}
use walden.Base.{Bool, Bool-cases, arith, false, if◌then◌else◌, inl, inr, ltb, lt→ltb, none, refl}
use walden.Base.{some, true, ℕ, ◌*◌, ◌+◌, ◌-◌, ◌/◌, ◌<◌, ◌==◌, ◌^◌, ◌||◌, ◌≡◌, ◌≢◌, ◌⊎◌}
use walden.Base.Word.{add64, word}
use walden.Pmm.{PageFrameMetadata, Pmm, align_up}
use walden.Pmm.Boot.{allocate_bitmap, allocate_frame_metadata, empty_metadata}
use walden.Pmm.Placement.{Surroundings, place}
use walden.Pmm.Placement.Clear.{place-lt_word}
use walden.Pmm.Placement.Obstacles.{SurroundedByWords}
use walden.Pmm.Span.{align_up-lt_word, align_up_lem}

set_sizes : (p q : Bool) (size base : ℕ) → (p || q || (size == 0) || (base == 0)) ≡ false → size ≢ 0
set_sizes p q size base e = ground (arith, e)

set_sizes' :
    (p q r o : Bool) (size base : ℕ)
    → (p || q || r || o || (size == 0) || (base == 0)) ≡ false
    → size ≢ 0
set_sizes' p q r o size base e = ground (arith, e)

-- A byte of the bitmap for every page.
bitmap_bytes : (n j : ℕ) → n < 2 ^ 52 → j < n → ltb (j / 8) (align_up (add64 n 7 / 8)) ≡ true
bitmap_bytes n j h k =
    let same : add64 n 7 ≡ n + 7 = mod-eq_of_lt (omega arith) in
    rw same (lt→ltb (j / 8) _ (omega (arith, align_up_lem ((n + 7) / 8) (omega arith))))

pub allocate_bitmap_cases :
    (e : Surroundings) (s : Pmm)
    → SurroundedByWords e
    → s.page_count < 2 ^ 52
    → (allocate_bitmap e s ≡ none)
      ⊎ (base : ℕ) × (size : ℕ) × (bits : ℕ → ℕ) × (allocate_bitmap e s
          ≡ some
              (record s { bitmap_physical_base = base; bitmap_size_bytes = size; bitmap = bits }))
        × (size ≢ 0)
        × (base < word)
        × (size < word)
        × ((j : ℕ) → j < s.page_count → bits (j / 8) ≡ 255)
unfolding allocate_bitmap
allocate_bitmap_cases e s w h =
    let size = align_up (add64 s.page_count 7 / 8) in
    let base = place e e.regions size in
    elim (Bool-cases
      ((s.page_count == 0) || ((add64 s.page_count 7 / 8) == 0) || (size == 0) || (base == 0))) [
        | inl stop ↦ rw stop (inl refl)
        | inr go ↦
            let some_size =
              set_sizes (s.page_count == 0) ((add64 s.page_count 7 / 8) == 0) size base go in
            rw go (
              inr (
                base,
                size,
                _,
                refl,
                some_size,
                place-lt_word e size w (omega (arith, some_size)) (align_up-lt_word _),
                align_up-lt_word _,
                λ j k. rw (bitmap_bytes s.page_count j h k) refl,
              ))
      ]

pub allocate_frame_metadata_cases :
    (e : Surroundings) (s : Pmm)
    → SurroundedByWords e
    → s.bitmap_physical_base < word
    → s.bitmap_size_bytes < word
    → (allocate_frame_metadata e s ≡ none)
      ⊎ (base : ℕ) × (size : ℕ) × (records : ℕ → PageFrameMetadata) × (allocate_frame_metadata e s
          ≡ some (record s {
            frame_metadata_physical_base = base;
            frame_metadata_size_bytes = size;
            frame_metadata = records;
          }))
        × (size ≢ 0)
        × (base < word)
        × (size < word)
        × ((j : ℕ)
            → records j ≡ (if ltb j s.page_count then empty_metadata else s.frame_metadata j))
unfolding allocate_frame_metadata
allocate_frame_metadata_cases e s w p q =
    let around = record e {
      bitmap_physical_base = s.bitmap_physical_base;
      bitmap_size_bytes = s.bitmap_size_bytes;
    } in
    let around_words : SurroundedByWords around = record {
      regions = w.regions;
      kernel = w.kernel;
      device_tree = w.device_tree;
      bitmap = (p, q);
    } in
    let size = align_up (s.page_count * 16) in
    let base = place around e.regions size in
    elim (Bool-cases (
      (s.page_count == 0)
      || (s.bitmap_size_bytes == 0)
      || ltb ((word - 1) / 16) s.page_count
      || ((s.page_count * 16) == 0)
      || (size == 0)
      || (base == 0))) [
        | inl stop ↦ rw stop (inl refl)
        | inr go ↦
            let some_size =
              set_sizes' (s.page_count == 0) (s.bitmap_size_bytes == 0)
                (ltb ((word - 1) / 16) s.page_count) ((s.page_count * 16) == 0) size base go in
            rw go (
              inr (
                base,
                size,
                _,
                refl,
                some_size,
                place-lt_word around size around_words (omega (arith, some_size))
                    (align_up-lt_word _),
                align_up-lt_word _,
                λ j. refl,
              ))
      ]
