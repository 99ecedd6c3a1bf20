-- ===== src/Kva/Reservation.antt =====
-- rocinante/src/memory/kernel_va_allocator.h, `Reserve`: the results that it may have.
use walden.Base.{Bool, Bool-cases, Option, [], ap, arith, false, inl, inr, length, length-append}
use walden.Base.{ltb, ltb→le, not, refl, some, subst, suc, true, ℕ, ◌&&◌, ◌++◌, ◌+◌, ◌-◌, ◌<◌}
use walden.Base.{◌==◌, ◌||◌, ◌∷◌, ◌≡◌, ◌≤◌}
use walden.Base.Word.{add64, word}
use walden.Kva.{Allocator, carve, carve_fuel, finish, max_free_ranges, reserve}
use walden.Kva.Allocation.{Grants, IsWellFormed}
use walden.Kva.Carve.{carve_hit, carve_lost, carve_skip}
use walden.Kva.Ranges.{Canonical, Canonical-cut, Canonical-middle, covers, covers-cut}
use walden.Kva.Ranges.{covers-middle, covers_above, covers_below, cut, length-cut, within}
use walden.Kva.Search.{AllFree, Located, confirm_cases}

-- The results that `Reserve` of [base, base + size) may have: the block was free and is taken out; or
-- it was not all free and nothing changed; or it was free, and lay strictly inside a range of a full
-- array, and then the call fails, but the block and the rest of that range above it are gone.
pub data Reserves (s : Allocator) (base size : ℕ) : Option (Bool × Allocator) → Type 0 where
  reserved : (t : Allocator) → Grants s size 0 base t → Reserves s base size (some (true, t))
  refused : ¬ AllFree base (base + size) s.free_ranges → Reserves s base size (some (false, s))
  lost :
      (t : Allocator) (top : ℕ)
      → length s.free_ranges ≡ max_free_ranges
      → base + size < top
      → AllFree base top s.free_ranges
      → ((x : ℕ) → covers t.free_ranges x ≡ (covers s.free_ranges x && not (within base top x)))
      → IsWellFormed t
      → Reserves s base size (some (false, t))

module _ (s : Allocator) (v : IsWellFormed s) (base size : ℕ) (pos : 0 < size) where
  AllFree-managed :
      AllFree base (base + size) s.free_ranges
      → (s.managed_base ≤ base) × (base + size ≤ s.managed_limit)
  AllFree-managed free = ground (
    arith,
    free base,
    free (base + size - 1),
    covers_below s.managed_base s.managed_limit s.free_ranges base v.canonical,
    covers_above s.managed_base s.managed_limit s.free_ranges (base + size - 1) v.canonical,
  )

  module _ (at : Located base (base + size) s.free_ranges) where
    open at use {pre, range, rest, split, before, above, below}

    split-Canonical : Canonical s.managed_base s.managed_limit (pre ++ (range ∷ rest))
    split-Canonical = subst (Canonical s.managed_base s.managed_limit) split v.canonical

    middle :
        (s.managed_base ≤ range.base)
        × (range.base < range.limit)
        × (range.limit ≤ s.managed_limit)
        × Canonical (suc range.limit) s.managed_limit rest
    middle = Canonical-middle s.managed_base s.managed_limit pre range rest split-Canonical

    abbrev cut_out : Allocator
    cut_out = record s { free_ranges = pre ++ cut range base (base + size) rest }

    -- The second pass with enough fuel, where there is room.
    carve-room :
        length (pre ++ cut range base (base + size) rest) ≤ max_free_ranges
        → carve (carve_fuel s.free_ranges) base (base + size) 0 s.free_ranges
          ≡ some (true, pre ++ cut range base (base + size) rest)
    carve-room room =
        let proper : base < base + size = omega arith in
        let enough : length pre + 2 ≤ length (pre ++ (range ∷ rest)) + 2 =
          omega (arith, length-append pre (range ∷ rest)) in
        rw split (
          carve_skip base (base + size) proper _ [] pre (range ∷ rest) before true
            (pre ++ cut range base (base + size) rest)
            (λ f.
              carve_hit base (base + size) proper s.managed_limit range rest above below middle.3 f
                pre room)
            enough)

    carve-full :
        length s.free_ranges ≡ max_free_ranges
        → range.base < base
        → base + size < range.limit
        → carve (carve_fuel s.free_ranges) base (base + size) 0 s.free_ranges
          ≡ some (false, pre ++ cut range base range.limit rest)
    carve-full full low high =
        let proper : base < base + size = omega arith in
        let enough : length pre + 2 ≤ length (pre ++ (range ∷ rest)) + 2 =
          omega (arith, length-append pre (range ∷ rest)) in
        rw split (
          carve_skip base (base + size) proper _ [] pre (range ∷ rest) before false
            (pre ++ cut range base range.limit rest)
            (λ f.
              carve_lost base (base + size) proper s.managed_limit range rest above below middle.3 f
                pre (rw split at full) low high)
            enough)

    -- The array has no room for the pieces only when it is full and the block splits its range.
    no_room :
        ltb max_free_ranges (length (pre ++ cut range base (base + size) rest)) ≡ true
        → (length s.free_ranges ≡ max_free_ranges)
          × (range.base < base)
          × (base + size < range.limit)
    no_room over =
        let sizes = ap length split in
        ground (
          arith,
          sizes,
          v.room,
          length-append pre (range ∷ rest),
          length-append pre (cut range base (base + size) rest),
          length-cut range base (base + size) rest above (omega arith) below,
        )

    cut_at :
        (top : ℕ)
        → base < top
        → top ≤ range.limit
        → (x : ℕ)
        → covers (pre ++ cut range base top rest) x
          ≡ (covers s.free_ranges x && not (within base top x))
    cut_at top proper fits x = rw split (
        covers-cut range base top rest above proper fits s.managed_base s.managed_limit x pre
          split-Canonical)

    free_in_range : (top : ℕ) → top ≤ range.limit → AllFree base top s.free_ranges
    free_in_range top fits x h = rw split (covers-middle pre range rest x (ground arith))

    cut-IsWellFormed :
        (top : ℕ)
        → base < top
        → top ≤ range.limit
        → length (pre ++ cut range base top rest) ≤ max_free_ranges
        → IsWellFormed (record s { free_ranges = pre ++ cut range base top rest })
    cut-IsWellFormed top proper fits room = record {
      canonical =
          Canonical-cut range base top rest above proper fits s.managed_base s.managed_limit pre
            split-Canonical;
      limit_word = v.limit_word;
      room = room;
    }

    room_when_lost :
        length s.free_ranges ≡ max_free_ranges
        → range.base < base
        → length (pre ++ cut range base range.limit rest) ≤ max_free_ranges
    room_when_lost full low = ground (
      arith,
      ap length split,
      length-append pre (range ∷ rest),
      length-append pre (cut range base range.limit rest),
    )

    carved_Reserves :
        Reserves s base size
          (finish s (carve (carve_fuel s.free_ranges) base (base + size) 0 s.free_ranges))
    unfolding finish
    carved_Reserves =
        let proper : base < base + size = omega arith in
        elim (Bool-cases
          (ltb max_free_ranges (length (pre ++ cut range base (base + size) rest)))) [
            | inl over ↦
                let (full, low, high) = no_room over in
                rw (carve-full full low high) (
                  lost (record s { free_ranges = pre ++ cut range base range.limit rest })
                    range.limit full high (free_in_range range.limit (omega arith))
                    (cut_at range.limit (omega arith) (omega arith))
                    (cut-IsWellFormed range.limit (omega arith) (omega arith)
                      (room_when_lost full low)))
            | inr fits ↦
                let room = ltb→le max_free_ranges _ fits in
                rw (carve-room room) (
                  reserved cut_out (record {
                    aligned = inl refl;
                    was_free = free_in_range (base + size) below;
                    free_after = cut_at (base + size) proper below;
                    managed = (omega (arith, middle.0), omega (arith, middle.2));
                    same_bounds = (refl, refl, refl);
                    well_formed = cut-IsWellFormed (base + size) proper below room;
                  }))
          ]

-- The early returns of `Reserve`.
abbrev outside : Allocator → ℕ → ℕ → Bool
outside s base size =
    not s.initialized
    || (size == 0)
    || ltb (add64 base size) base
    || ltb base s.managed_base
    || ltb s.managed_limit (add64 base size)

-- On a well-formed, initialised allocator `Reserve` of a positive size always returns (the second pass does not
-- run out of fuel), with one of the results that `Reserves` lists: exactly the block is taken out of
-- the free addresses; or it is refused, nothing changes and not all of the block is free; or, the array
-- being full, it is refused although all of the block is free, and every address from the block's base
-- up to one beyond its end is free no more.
pub reserve-Reserves :
    (s : Allocator) (base size : ℕ)
    → IsWellFormed s
    → s.initialized ≡ true
    → 0 < size
    → size < word
    → base < word
    → Reserves s base size (reserve s base size)
unfolding reserve
reserve-Reserves s base size v live pos size_word base_word =
    elim (Bool-cases (outside s base size)) [
      | inl out ↦ rw out (
          refused
            (λ free. ground (arith, out, AllFree-managed s v base size pos free, v.limit_word)))
      | inr kept ↦
          let ends : add64 base size ≡ base + size = ground (arith, kept) in
          elim (confirm_cases base (base + size) (omega arith) s.managed_base s.managed_limit
            s.free_ranges v.canonical) [
              | inl (found, at) ↦ rw (kept, ends, found) (carved_Reserves s v base size pos at)
              | inr (missing, hole) ↦ rw (kept, ends, missing) (refused hole)
            ]
    ]
