-- ===== src/Pmm/Allocate.antt =====
-- rocinante/src/memory/pmm.cpp, `AllocatePage`: the circular scan.
use native.Mathlib.Nat.{add-mod_right, mod-eq_of_lt, mod-lt}
use walden.Base.{==→≡, ==→≢, Bool-cases, arith, false, if◌then◌else◌, inl, inr, ltb, none, refl}
use walden.Base.{some, subst, suc, sym, true, update, zero, ℕ, ◌%◌, ◌+◌, ◌-◌, ◌<◌, ◌==◌, ◌∙◌, ◌≡◌}
use walden.Base.{◌⊎◌}
use walden.Base.Word.{sub64, word}
use walden.Pmm.{PageFrameMetadata, Pmm, allocate_page, allocate_scan, is_page_used}
use walden.Pmm.{page_index_to_physical, take_page}
use walden.Pmm.Bitmap.{bits_with, is_page_used-cong, is_page_used-set_page_used}
use walden.Pmm.Bitmap.{set_page_used_lem}
use walden.Pmm.Count.{count_free, count_free-le, count_free-pos, count_free-take}
use walden.Pmm.Invariant.{IsWellFormed}

abbrev pub fresh_metadata : PageFrameMetadata
fresh_metadata = record { ref_count = 1; map_count = 0; flags = 0; reserved = 0 }

-- `t` is `s` with the free page `i` handed out, with one reference and no mapping.
pub record Takes (s : Pmm) (i : ℕ) (t : Pmm) : Type 0 where
  pub in_range : i < s.page_count
  pub was_free : is_page_used s i ≡ false
  pub used_after : (j : ℕ) → is_page_used t j ≡ (if i == j then true else is_page_used s j)
  pub metadata_after :
      (j : ℕ) → t.frame_metadata j ≡ (if i == j then fresh_metadata else s.frame_metadata j)
  pub one_fewer : t.free_page_count + 1 ≡ s.free_page_count
  pub same_span :
      (t.tracked_physical_base ≡ s.tracked_physical_base)
      × (t.tracked_physical_limit ≡ s.tracked_physical_limit)
      × (t.page_count ≡ s.page_count)
  pub cursor_after : t.next_search_index ≡ (i + 1) % s.page_count
  pub same_storage :
      (t.bitmap_physical_base ≡ s.bitmap_physical_base)
      × (t.bitmap_size_bytes ≡ s.bitmap_size_bytes)
      × (t.frame_metadata_physical_base ≡ s.frame_metadata_physical_base)
      × (t.frame_metadata_size_bytes ≡ s.frame_metadata_size_bytes)
      × (t.initialized ≡ s.initialized)
  pub well_formed : IsWellFormed t

pub page_count-lt_word : (s : Pmm) → IsWellFormed s → s.page_count < word
page_count-lt_word s v = omega (arith, v.span, v.limit_word)

module _ (s : Pmm) (v : IsWellFormed s) where
  open v use {bitmap_there, counted, cursor, some_page}

  module _ (i : ℕ) (lt : i < s.page_count) (free : is_page_used s i ≡ false) where
    abbrev taken : Pmm
    taken = record s {
      free_page_count = sub64 s.free_page_count 1;
      next_search_index = (i + 1) % s.page_count;
      bitmap = bits_with s i;
      frame_metadata = update s.frame_metadata i fresh_metadata;
    }

    take_page_lem : take_page s i ≡ taken
    unfolding take_page
    take_page_lem = ground (arith, set_page_used_lem s i bitmap_there)

    taken-used : (j : ℕ) → is_page_used taken j ≡ (if i == j then true else is_page_used s j)
    taken-used j =
        is_page_used-cong (record s { bitmap = bits_with s i }) taken j refl refl
        ∙ subst (λ t. is_page_used t j ≡ (if i == j then true else is_page_used s j))
            (set_page_used_lem s i bitmap_there) (is_page_used-set_page_used s i j bitmap_there)

    fewer : count_free (is_page_used taken) s.page_count + 1 ≡ s.free_page_count
    fewer =
        count_free-take (is_page_used s) (is_page_used taken) i s.page_count taken-used lt free
        ∙ sym counted

    one_less : sub64 s.free_page_count 1 + 1 ≡ s.free_page_count
    one_less =
        omega (
          arith,
          fewer,
          counted,
          count_free-le (is_page_used s) s.page_count,
          page_count-lt_word s v,
        )

    taken-IsWellFormed : IsWellFormed taken
    taken-IsWellFormed = record {
      live = v.live;
      bitmap_there = v.bitmap_there;
      metadata_there = v.metadata_there;
      base_aligned = v.base_aligned;
      span = v.span;
      limit_word = v.limit_word;
      some_page = v.some_page;
      counted = omega (arith, fewer, one_less);
      cursor = mod-lt (i + 1) some_page;
      unreferenced = λ j h e. ground (arith, taken-used j, v.unreferenced j h);
      counts = λ j. ground (arith, v.counts j);
    }

    take_page-Takes : Takes s i (take_page s i)
    take_page-Takes = rw take_page_lem (record {
      in_range = lt;
      was_free = free;
      used_after = taken-used;
      metadata_after = λ j. refl;
      one_fewer = one_less;
      same_span = (refl, refl, refl);
      cursor_after = refl;
      same_storage = (refl, refl, refl, refl, refl);
      well_formed = taken-IsWellFormed;
    })

  -- `k` rounds behind the cursor.
  abbrev pub from_cursor : ℕ → ℕ
  from_cursor k = (s.next_search_index + k) % s.page_count

  extend :
      (scan : ℕ)
      → ((k : ℕ) → k < scan → is_page_used s (from_cursor k) ≡ true)
      → is_page_used s (from_cursor scan) ≡ true
      → (k : ℕ) → k < scan + 1
      → is_page_used s (from_cursor k) ≡ true
  extend scan before used k h = elim (Bool-cases (k == scan)) [
    | inl now ↦ subst (λ m. is_page_used s (from_cursor m) ≡ true) (sym (==→≡ k scan now)) used
    | inr past ↦ before k (ground (arith, ==→≢ k scan past))
  ]

  -- The scan stops at the first free page from the cursor on, or has seen used pages only.
  allocate_scan_cases :
      (left scan : ℕ)
      → ((k : ℕ) → k < scan → is_page_used s (from_cursor k) ≡ true)
      → ((k : ℕ) × (allocate_scan s left scan
            ≡ (some (page_index_to_physical s (from_cursor k)), take_page s (from_cursor k)))
          × (is_page_used s (from_cursor k) ≡ false)
          × ((m : ℕ) → m < k → is_page_used s (from_cursor m) ≡ true))
        ⊎ (allocate_scan s left scan ≡ (none, s))
          × ((k : ℕ) → k < scan + left → is_page_used s (from_cursor k) ≡ true)
  unfolding allocate_scan
  allocate_scan_cases zero scan before = inr (refl, λ k h. before k (omega arith))
  allocate_scan_cases (suc left) scan before =
      elim (Bool-cases (is_page_used s (from_cursor scan))) [
        | inl used ↦ elim (allocate_scan_cases left (scan + 1) (extend scan before used)) [
          | inl found ↦ rw used (inl found)
          | inr (e, all) ↦ rw used (inr (e, λ k h. all k (omega arith)))
        ]
        | inr free ↦ rw free (inl (scan, refl, free, before))
      ]

  -- Every page is some number of rounds behind the cursor.
  reaches : (i : ℕ) → i < s.page_count → (k : ℕ) × (k < s.page_count) × (from_cursor k ≡ i)
  reaches i h = elim (Bool-cases (ltb i s.next_search_index)) [
    | inl wraps ↦ (
      i + s.page_count - s.next_search_index,
      ground (arith, wraps),
      subst (λ m. m % s.page_count ≡ i) {x = i + s.page_count} (ground (arith, wraps))
          (add-mod_right i s.page_count ∙ mod-eq_of_lt h),
    )
    | inr ahead ↦ (
      i - s.next_search_index,
      omega arith,
      subst (λ m. m % s.page_count ≡ i) {x = i} (ground (arith, ahead)) (mod-eq_of_lt h),
    )
  ]

-- For a well-formed manager `AllocatePage` returns the address of the first free page from the cursor on.
-- That page is then used, with one reference and no mapping, there is one free page fewer, and the cursor
-- is at the page after it, or at page 0 after the last one; the other pages' bits and metadata, the span,
-- the place and size of the storage and the mark of initialisation are as they were, and the manager is
-- well-formed. Or it returns none, changes nothing, and every page of the span is used.
pub allocate_page_cases :
    (s : Pmm) (v : IsWellFormed s)
    → ((k : ℕ) × (allocate_page s
          ≡ (some (page_index_to_physical s (from_cursor s v k)), take_page s (from_cursor s v k)))
        × Takes s (from_cursor s v k) (take_page s (from_cursor s v k))
        × ((m : ℕ) → m < k → is_page_used s (from_cursor s v m) ≡ true))
      ⊎ (allocate_page s ≡ (none, s)) × ((i : ℕ) → i < s.page_count → is_page_used s i ≡ true)
unfolding allocate_page
allocate_page_cases s v =
    elim (allocate_scan_cases s v s.page_count 0 (λ k h. absurd (omega arith))) [
      | inl (k, e, free, earlier) ↦
          let lt = mod-lt (s.next_search_index + k) v.some_page in
          let some_free =
            count_free-pos (is_page_used s) (from_cursor s v k) s.page_count lt free in
          inl (
            k,
            ground (arith, e, v.live, v.metadata_there, v.counted, some_free),
            take_page-Takes s v (from_cursor s v k) lt free,
            earlier,
          )
      | inr (e, all) ↦ inr (
        ground (arith, e),
        λ i h.
            let (k, less, at) = reaches s v i h in
            subst (λ j. is_page_used s j ≡ true) at (all k (omega (arith, less))),
      )
    ]
