-- ===== src/Pmm/Placement/Clear.antt =====
-- rocinante/src/memory/pmm.cpp, `_allocate_bitmap` and `_allocate_frame_metadata`: the search.
use walden.Base.{Bool, Bool-cases, List, [], arith, false, if◌then◌else◌, inl, inr, leb, ltb, not}
use walden.Base.{refl, suc, true, zero, ℕ, ◌%◌, ◌&&◌, ◌+◌, ◌<◌, ◌==◌, ◌^◌, ◌||◌, ◌∷◌, ◌≡◌, ◌≤◌}
use walden.Base.{◌⊎◌}
use walden.Base.Word.{add64, word}
use walden.Boot.{BootMemoryRegion, is_usable}
use walden.Pmm.{add_overflows, align_up, page_size_bytes}
use walden.Pmm.Boot.Policy.{RegionsAreWords}
use walden.Pmm.Placement.{Surroundings, advance, clamp, obstacle, palen_valid, place, place_in}
use walden.Pmm.Placement.Obstacles.{InUsable, IsClear, Obstacle-cases, SurroundedByWords}
use walden.Pmm.Placement.Obstacles.{obstacle_lem}
use walden.Pmm.Span.{align_up-lt_word, align_up-multiple}

module _ (e : Surroundings) (w : SurroundedByWords e) (n : ℕ) (some_bytes : 0 < n)
    (small : n < word) where
  module _ (region_begin region_end : ℕ) where
    advance_lem :
        (left a : ℕ)
        → a % page_size_bytes ≡ 0
        → a < word
        → (advance e region_begin region_end n left a ≡ 0)
          ⊎ (c : ℕ) × (advance e region_begin region_end n left a ≡ c)
            × (region_begin ≤ c)
            × (c + n ≤ region_end)
            × (c + n < word)
            × IsClear e c n
    unfolding advance
    advance_lem zero a aligned p = inl refl
    advance_lem (suc left) a aligned p =
        let stop =
          ltb a region_begin
          || add_overflows a n
          || ltb region_end (add64 a n)
          || (palen_valid e.physical_address_bits
              && ltb (2 ^ e.physical_address_bits) (add64 a n)) in
        elim (Bool-cases stop) [
          | inl refused_here ↦ rw refused_here (inl refl)
          | inr allowed ↦
              let fits : a + n < word = ground (arith, allowed, p, small) in
              elim (Obstacle-cases (obstacle e a n)) [
                | inl free ↦
                    rw (allowed, free)
                      (inr (
                        a,
                        refl,
                        ground (arith, allowed),
                        ground (arith, allowed, fits),
                        fits,
                        obstacle_lem a n some_bytes fits e w aligned free,
                      ))
                | inr (inl (end, hit)) ↦
                    let next = align_up (clamp e.physical_address_bits end) in
                    rw (allowed, hit)
                      (advance_lem left next (align_up-multiple _) (align_up-lt_word _))
                | inr (inr wraps) ↦ rw (allowed, wraps) (inl refl)
              ]
        ]

  tried_parts : (u z o p l : Bool) → (not u || z || o || p || l) ≡ false → (u ≡ true) × (o ≡ false)
  tried_parts u z o p l e = (ground (arith, e), ground (arith, e))

  clamp-le : (bits x : ℕ) → clamp bits x ≤ x
  clamp-le bits x = elim (Bool-cases (palen_valid bits && ltb (2 ^ bits) x)) [
    | inl over ↦ rw over (ground (arith, over))
    | inr under ↦ rw under (omega arith)
  ]

  ends_inside : (bits b m c : ℕ) → b + m < word → c + n ≤ clamp bits (add64 b m) → c + n ≤ b + m
  ends_inside bits b m c h le = omega (arith, clamp-le bits (add64 b m), h, le)

  place_in_lem :
      (r : BootMemoryRegion)
      → r.physical_base < word
      → r.size_bytes < word
      → (place_in e r n ≡ 0)
        ⊎ (c : ℕ) × (place_in e r n ≡ c)
          × (is_usable r.region_type ≡ true)
          × (r.physical_base + r.size_bytes < word)
          × (r.physical_base ≤ c)
          × (c + n ≤ r.physical_base + r.size_bytes)
          × IsClear e c n
  unfolding place_in
  place_in_lem r p q =
      let region_begin = r.physical_base in
      let region_end = clamp e.physical_address_bits (add64 r.physical_base r.size_bytes) in
      let first =
        align_up (if ltb region_begin page_size_bytes then page_size_bytes else region_begin) in
      let skip =
        not (is_usable r.region_type)
        || (r.size_bytes == 0)
        || add_overflows r.physical_base r.size_bytes
        || (palen_valid e.physical_address_bits
            && (leb (2 ^ e.physical_address_bits) region_begin || leb region_end region_begin))
        || ltb first region_begin in
      elim (Bool-cases skip) [
        | inl skipped ↦ rw skipped (inl refl)
        | inr tried ↦
            let (usable, fits) = tried_parts _ _ _ _ _ tried in
            let below : r.physical_base + r.size_bytes < word = ground (arith, fits, p, q) in
            elim (advance_lem region_begin region_end 8 first (align_up-multiple _)
              (align_up-lt_word _)) [
                | inl nowhere ↦ rw tried (inl nowhere)
                | inr (c, at, low, high, _, free) ↦ rw tried (
                    inr (
                      c,
                      at,
                      usable,
                      below,
                      low,
                      ends_inside e.physical_address_bits r.physical_base r.size_bytes c below high,
                      free,
                    ))
              ]
      ]

  place_lem :
      (regions : List BootMemoryRegion)
      → RegionsAreWords regions
      → (place e regions n ≡ 0)
        ⊎ InUsable regions (place e regions n) n × IsClear e (place e regions n) n
  unfolding place InUsable RegionsAreWords
  place_lem [] none_left = inl refl
  place_lem (r ∷ rest) (p, q, more) = elim (Bool-cases (place_in e r n == 0)) [
    | inl not_here ↦ rw not_here (elim (place_lem rest more) [
      | inl nowhere ↦ inl nowhere
      | inr (there, free) ↦ inr (inr there, free)
    ])
    | inr here ↦ elim (place_in_lem r p q) [
      | inl nowhere ↦ ground (arith, here, nowhere)
      | inr (c, at, usable, below, low, high, free) ↦
          rw (here, at) (inr (inl (usable, below, low, high), free))
    ]
  ]

pub place-IsClear :
    (e : Surroundings) (n : ℕ)
    → SurroundedByWords e
    → 0 < n
    → n < word
    → (place e e.regions n ≡ 0)
      ⊎ InUsable e.regions (place e e.regions n) n × IsClear e (place e e.regions n) n
place-IsClear e n w h p = place_lem e w n h p e.regions w.regions

InUsable-lt_word : (regions : List BootMemoryRegion) (a n : ℕ) → InUsable regions a n → a + n < word
unfolding InUsable
InUsable-lt_word [] a n there = elim there [ ]
InUsable-lt_word (r ∷ rest) a n (inl (_, below, _, high)) = omega (arith, below, high)
InUsable-lt_word (r ∷ rest) a n (inr there) = InUsable-lt_word rest a n there

pub place-lt_word :
    (e : Surroundings) (n : ℕ) → SurroundedByWords e → 0 < n → n < word → place e e.regions n < word
place-lt_word e n w h p = elim (place-IsClear e n w h p) [
  | inl nowhere ↦ omega (arith, nowhere)
  | inr (there, _) ↦ omega (arith, InUsable-lt_word e.regions _ n there)
]
