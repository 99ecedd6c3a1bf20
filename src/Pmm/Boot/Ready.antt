-- ===== src/Pmm/Boot/Ready.antt =====
-- rocinante/src/memory/pmm.cpp: `InitializeFromBootMemoryMap` from one end to the other.
use walden.Base.{Bool, ap, arith, false, inl, inr, refl, subst, sym, true, ℕ, ◌%◌, ◌*◌, ◌+◌, ◌/◌}
use walden.Base.{◌<◌, ◌↔◌, ◌≡◌, ◌≢◌, ◌≤◌, ◌⊎◌}
use walden.Base.Bits.{test_bit-complement, test_bit-zero}
use walden.Base.Word.{word}
use walden.Boot.{is_usable}
use walden.Pmm.{PageFrameMetadata, Pmm, is_page_used, max_count, page_size_bytes}
use walden.Pmm.Bitmap.{is_page_used-cong, is_page_used_lem}
use walden.Pmm.Boot.{empty_metadata, finish, initialize_from_boot_memory_map, mark_pages}
use walden.Pmm.Boot.{reset_state, set_up, track}
use walden.Pmm.Boot.Policy.{InRegion, Withheld, mark_pages-free}
use walden.Pmm.Boot.Storage.{allocate_bitmap_cases, allocate_frame_metadata_cases}
use walden.Pmm.Boot.Track.{track_cases, tracked_span}
use walden.Pmm.Count.{count_free, count_free-cong}
use walden.Pmm.Invariant.{IsSpanned, IsWellFormed}
use walden.Pmm.Placement.{Surroundings}
use walden.Pmm.Placement.Obstacles.{SurroundedByWords}

-- Storage whose bits are set holds used pages.
pub set-used :
    (s : Pmm) (j : ℕ) → s.bitmap_size_bytes ≢ 0 → s.bitmap (j / 8) ≡ 255 → is_page_used s j ≡ true
set-used s j there e = ground (
  arith,
  is_page_used_lem s j there,
  e,
  test_bit-complement 8 (j % 8) 0 (omega arith) (omega arith),
  test_bit-zero (j % 8),
)

-- The counts fit 32 bits, as the fields they are read from do.
abbrev pub CountsFit : Pmm → Type 0
CountsFit s =
    (i : ℕ)
    → ((s.frame_metadata i).ref_count ≤ max_count) × ((s.frame_metadata i).map_count ≤ max_count)

-- The free pages of `t`, by the span and the storage of `s`.
abbrev pub Policy : Surroundings → Pmm → Pmm → Type 0
Policy e s t =
    (j : ℕ)
    → j < s.page_count
    → (is_page_used t j ≡ false) ↔ (
        InRegion is_usable e.regions (s.tracked_physical_base + j * page_size_bytes)
        × ¬ Withheld e s (s.tracked_physical_base + j * page_size_bytes))

module _ (e : Surroundings) (w : SurroundedByWords e) (s : Pmm) (v : IsSpanned s) where
  abbrev ready : Pmm → Pmm
  ready m = record m {
    free_page_count = count_free (is_page_used m) m.page_count;
    next_search_index = 0;
    initialized = true;
  }

  ready-IsWellFormed :
      (bits : ℕ → ℕ)
      → s.frame_metadata_size_bytes ≢ 0
      → ((j : ℕ) → j < s.page_count → s.frame_metadata j ≡ empty_metadata)
      → CountsFit s
      → IsWellFormed (ready (record s { bitmap = bits }))
  ready-IsWellFormed bits there fresh fit = record {
    live = refl;
    bitmap_there = v.bitmap_there;
    metadata_there = there;
    base_aligned = v.base_aligned;
    span = v.span;
    limit_word = v.limit_word;
    some_page = v.some_page;
    counted =
        count_free-cong (is_page_used (record s { bitmap = bits }))
          (is_page_used (ready (record s { bitmap = bits }))) s.page_count
          (λ j h. sym (
            is_page_used-cong (record s { bitmap = bits }) (ready (record s { bitmap = bits })) j
              refl refl));
    cursor = v.some_page;
    unreferenced = λ j h free. ap (λ (m : PageFrameMetadata). m.ref_count) (fresh j h);
    counts = fit;
  }

  finish-IsWellFormed :
      s.bitmap_physical_base < word
      → s.bitmap_size_bytes < word
      → s.frame_metadata_physical_base < word
      → s.frame_metadata_size_bytes < word
      → s.frame_metadata_size_bytes ≢ 0
      → ((j : ℕ) → j < s.page_count → is_page_used s j ≡ true)
      → ((j : ℕ) → j < s.page_count → s.frame_metadata j ≡ empty_metadata)
      → CountsFit s
      → IsWellFormed (finish e s) × Policy e (finish e s) (finish e s)
  unfolding finish
  finish-IsWellFormed p q p' q' there used fresh fit =
      let (same, free) =
        mark_pages-free e s v
          (record {
            regions = w.regions;
            kernel = w.kernel;
            device_tree = w.device_tree;
            bitmap = (p, q);
            metadata = (p', q');
          })
          used in
      (
        subst (λ m. IsWellFormed (ready m)) (sym same)
            (ready-IsWellFormed (mark_pages e s).bitmap there fresh fit),
        subst (λ u. Policy e u (finish e s)) (sym (ap ready same))
            (λ j h.
              subst
                (λ b. (b ≡ false) ↔ (
                  InRegion is_usable e.regions (s.tracked_physical_base + j * page_size_bytes)
                  × ¬ Withheld e s (s.tracked_physical_base + j * page_size_bytes)))
                (is_page_used-cong (finish e s) (mark_pages e s) j refl refl) (free j h)),
      )

module _ (e : Surroundings) (w : SurroundedByWords e) where
  -- The result of an initialisation.
  abbrev Ready : Bool × Pmm → Type 0
  Ready r = (r.0 ≡ false) ⊎ (r.0 ≡ true) × IsWellFormed r.1 × Policy e r.1 r.1

  set_up-Ready :
      (s : Pmm)
      → s.tracked_physical_base % page_size_bytes ≡ 0
      → s.tracked_physical_limit ≡ s.tracked_physical_base + s.page_count * page_size_bytes
      → s.tracked_physical_limit < word
      → 0 < s.page_count
      → CountsFit s
      → Ready (set_up e (true, s))
  unfolding set_up
  set_up-Ready s aligned span small some_page fit =
      elim (allocate_bitmap_cases e s w (omega (arith, span, small))) [
        | inl nowhere ↦ rw (set_up, nowhere) (inl refl)
        | inr (base, size, bits, done, there, p, q, ones) ↦
            let s2 = record s {
              bitmap_physical_base = base;
              bitmap_size_bytes = size;
              bitmap = bits;
            } in
            elim (allocate_frame_metadata_cases e s2 w p q) [
              | inl nowhere ↦ rw (set_up, done, nowhere) (inl refl)
              | inr (base', size', records, done', there', p', q', fresh) ↦
                  let s3 = record s2 {
                    frame_metadata_physical_base = base';
                    frame_metadata_size_bytes = size';
                    frame_metadata = records;
                  } in
                  let v : IsSpanned s3 = record {
                    bitmap_there = there;
                    base_aligned = aligned;
                    span = span;
                    limit_word = small;
                    some_page = some_page;
                  } in
                  let (valid, policy) =
                    finish-IsWellFormed e w s3 v p q p' q' there'
                      (λ j h. set-used s3 j there (ones j h)) (λ j h. ground (arith, fresh j, h))
                      (λ i. ground (arith, fresh i, fit i)) in
                  rw (set_up, done, done') (inr (refl, valid, policy))
            ]
      ]

set_up-false : (e : Surroundings) (r : Bool × Pmm) → r.0 ≡ false → (set_up e r).0 ≡ false
unfolding set_up
set_up-false e (true, s) failed = ground (arith, failed)
set_up-false e (false, s) failed = refl

-- Where the boot environment's numbers are words, and the counts that the metadata held before fit their
-- 32 bits, `InitializeFromBootMemoryMap` returns false, or it returns true with a well-formed manager in
-- which a page is free exactly if a usable region has an address in common with it and none of these has:
-- a reserved region, the kernel image, the device tree, the bitmap, the metadata and the page of address
-- 0. A region or block, usable or reserved, counts here only if its base and size add up to less than
-- 2 ^ 64, since the code ignores one whose end wraps; the device tree counts only if its base is not 0.
pub initialize-IsWellFormed :
    (e : Surroundings) (s : Pmm)
    → SurroundedByWords e
    → CountsFit s
    → ((initialize_from_boot_memory_map e s).0 ≡ false)
      ⊎ ((initialize_from_boot_memory_map e s).0 ≡ true)
        × IsWellFormed (initialize_from_boot_memory_map e s).1
        × Policy e (initialize_from_boot_memory_map e s).1 (initialize_from_boot_memory_map e s).1
unfolding initialize_from_boot_memory_map reset_state
initialize-IsWellFormed e s w fit = elim (track_cases e (reset_state s) w.regions) [
  | inl failed ↦ inl (set_up-false e (track e (reset_state s)) failed)
  | inr (base, top, pages, done, aligned, span, small, some_page) ↦
      subst (λ r. Ready e w (set_up e r)) (sym done)
        (set_up-Ready e w (tracked_span (reset_state s) base top pages) aligned span small some_page
          fit)
]
