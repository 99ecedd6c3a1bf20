-- ===== src/Pmm/Boot/Track.antt =====
-- rocinante/src/memory/pmm.cpp, `InitializeFromBootMemoryMap`: the tracked span.
use walden.Base.{Bool-cases, List, Option, Option-cases, [], ap, arith, false, inl, inr, leb}
use walden.Base.{none, not, refl, some, subst, true, ℕ, ◌%◌, ◌&&◌, ◌*◌, ◌+◌, ◌/◌, ◌<◌, ◌==◌, ◌^◌}
use walden.Base.{◌||◌, ◌∷◌, ◌≡◌, ◌⊎◌}
use walden.Base.Word.{add64, sub64, word}
use walden.Boot.{BootMemoryRegion, is_usable}
use walden.Pmm.{Pmm, add_overflows, align_down, align_up, page_size_bytes}
use walden.Pmm.Boot.{track, track_span, usable_span}
use walden.Pmm.Boot.Policy.{RegionsAreWords}
use walden.Pmm.Placement.{Surroundings, clamp, palen_valid}
use walden.Pmm.Span.{align_down_lem, align_up-lt_word, align_up-multiple}

abbrev IsLow : Option (ℕ × ℕ) → Type 0
IsLow none = Unit
IsLow (some (low, high)) = low < word

usable_span-IsLow :
    (regions : List BootMemoryRegion)
    → RegionsAreWords regions
    → (seen : Option (ℕ × ℕ)) → IsLow seen
    → IsLow (usable_span regions seen)
unfolding usable_span RegionsAreWords
usable_span-IsLow [] w seen low = low
usable_span-IsLow (r ∷ rest) (p, q, w) none low =
    elim (Bool-cases (
      not (is_usable r.region_type)
      || (r.size_bytes == 0)
      || add_overflows r.physical_base r.size_bytes)) [
        | inl skip ↦ rw skip (usable_span-IsLow rest w none low)
        | inr use_it ↦ rw use_it (
            usable_span-IsLow rest w (some (r.physical_base, add64 r.physical_base r.size_bytes)) p)
      ]
usable_span-IsLow (r ∷ rest) (p, q, w) (some (l, h)) low =
    elim (Bool-cases (
      not (is_usable r.region_type)
      || (r.size_bytes == 0)
      || add_overflows r.physical_base r.size_bytes)) [
        | inl skip ↦ rw skip (usable_span-IsLow rest w (some (l, h)) low)
        | inr use_it ↦ rw use_it (usable_span-IsLow rest w _ (ground (arith, p, low)))
      ]

whole_pages :
    (base top : ℕ)
    → base % page_size_bytes ≡ 0
    → top % page_size_bytes ≡ 0
    → top < word
    → base < top
    → (top ≡ base + sub64 top base / page_size_bytes * page_size_bytes)
      × (0 < sub64 top base / page_size_bytes)
whole_pages base top p q small less = (omega arith, omega arith)

beyond : (a b : ℕ) → leb a b ≡ false → b < a
beyond a b e = ground (arith, e)

positive : (n : ℕ) → 0 < n → not (n == 0) ≡ true
positive n h = ground (arith, h)

abbrev pub tracked_span : Pmm → ℕ → ℕ → ℕ → Pmm
tracked_span s base top pages = record s {
  tracked_physical_base = base;
  tracked_physical_limit = top;
  page_count = pages;
}

module _ (e : Surroundings) (s : Pmm) where
  track_span_cases :
      (low high : ℕ)
      → low < word
      → ((track_span e s low high).0 ≡ false)
        ⊎ (base : ℕ) × (top : ℕ) × (pages : ℕ) × (track_span e s low high
            ≡ (true, tracked_span s base top pages))
          × (base % page_size_bytes ≡ 0)
          × (top ≡ base + pages * page_size_bytes)
          × (top < word)
          × (0 < pages)
  unfolding track_span
  track_span_cases low high h =
      let limit = clamp e.physical_address_bits high in
      let base = align_down low in
      let top = align_up limit in
      let pages = sub64 top base / page_size_bytes in
      let aligned : base % page_size_bytes ≡ 0 = omega (arith, align_down_lem low h) in
      let whole : top % page_size_bytes ≡ 0 = align_up-multiple limit in
      let small : top < word = align_up-lt_word limit in
      elim (Bool-cases (
        palen_valid e.physical_address_bits
        && (leb (2 ^ e.physical_address_bits) low || leb limit low))) [
          | inl outside ↦ rw outside (inl refl)
          | inr inside ↦ elim (Bool-cases (leb top base)) [
            | inl empty_span ↦ rw (inside, empty_span) (inl refl)
            | inr some_span ↦
                let (exact, some_page) =
                  whole_pages base top aligned whole small (beyond top base some_span) in
                rw (inside, some_span)
                  (inr (
                    base,
                    top,
                    pages,
                    ap (λ b. (b, tracked_span s base top pages)) (positive pages some_page),
                    aligned,
                    exact,
                    small,
                    some_page,
                  ))
          ]
        ]

  pub track_cases :
      RegionsAreWords e.regions
      → ((track e s).0 ≡ false)
        ⊎ (base : ℕ) × (top : ℕ) × (pages : ℕ) × (track e s ≡ (true, tracked_span s base top pages))
          × (base % page_size_bytes ≡ 0)
          × (top ≡ base + pages * page_size_bytes)
          × (top < word)
          × (0 < pages)
  unfolding track
  track_cases w = elim (Option-cases (usable_span e.regions none)) [
    | inl nothing ↦ rw (track, nothing) (inl refl)
    | inr ((low, high), seen) ↦
        let h : low < word = subst IsLow seen (usable_span-IsLow e.regions w none tt) in
        rw (track, seen) (track_span_cases low high h)
  ]
