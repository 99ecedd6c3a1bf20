-- ===== src/Kva/Carve.antt =====
-- rocinante/src/memory/kernel_va_allocator.h, `Reserve`, second pass: the rounds below the block,
-- the round at its range, and the stop.
use mathlib.Core.List.{append-nil, append_assoc}
use walden.Base.{Bool, Bool-cases, List, [], arith, false, get_elem?, get_elem?-append, inl, inr}
use walden.Base.{length, length-append, ltb, ltb→lt, none, refl, some, suc, true, zero, ℕ, ◌++◌}
use walden.Base.{◌+◌, ◌<◌, ◌∷◌, ◌≡◌, ◌≤◌}
use walden.Kva.{Range, carve, count_if, insert_pieces, left_of, max_free_ranges, right_of}
use walden.Kva.Ranges.{Canonical, cut, insert_pieces_lem, pieces, remove_free_range_at-append}
use walden.Kva.Ranges.{shift_in-append}
use walden.Kva.Search.{AllBelow}

-- The second pass stops at a range that begins at `limit` or above.
BeginsAbove : ℕ → List Range → Type 0
BeginsAbove limit [] = Unit {0}
BeginsAbove limit (r ∷ rest) = (limit ≤ r.base) × (r.base < r.limit)

get_elem?-end : (front : List Range) → get_elem? (front ++ []) (length front) ≡ none
get_elem?-end [] = refl
get_elem?-end (p ∷ front) = get_elem?-end front

module _ (base limit : ℕ) (proper : base < limit) where
  carve_stop :
      (fuel : ℕ) (front back : List Range)
      → BeginsAbove limit back
      → carve (suc fuel) base limit (length front) (front ++ back) ≡ some (true, front ++ back)
  unfolding carve BeginsAbove
  carve_stop fuel front [] h = rw (get_elem?-end front, carve)
  carve_stop fuel front (r ∷ rest) h = rw (get_elem?-append front r rest, carve) (ground arith)

  carve_stop_next :
      (fuel : ℕ) (front : List Range) (q : Range) (back : List Range)
      → BeginsAbove limit back
      → carve (suc fuel) base limit (length front + 1) (front ++ (q ∷ back))
        ≡ some (true, front ++ (q ∷ back))
  carve_stop_next fuel front q back h =
      let index : length front + 1 ≡ length (front ++ (q ∷ [])) =
        omega (arith, length-append front (q ∷ [])) in
      rw (index, ← append_assoc front (q ∷ []) back) (carve_stop fuel (front ++ (q ∷ [])) back h)

  module _ (hi : ℕ) (r : Range) (rest : List Range) (above : r.base ≤ base)
      (below : limit ≤ r.limit) (canon : Canonical (suc r.limit) hi rest) where
    BeginsAbove-rest : (l : List Range) → Canonical (suc r.limit) hi l → BeginsAbove limit l
    unfolding BeginsAbove
    BeginsAbove-rest [] c = tt
    BeginsAbove-rest (q ∷ l) c = (omega arith, c.1)

    pieces-eq-cut : pieces (left_of r base) (right_of r limit) rest ≡ cut r base limit rest
    pieces-eq-cut = ground arith

    -- The round after the block's range: it meets what begins at `limit` or above, and stops.
    carve_back :
        (fuel : ℕ) (front : List Range)
        → carve
            (suc fuel)
            base
            limit
            (length front + count_if (ltb r.base base))
            (front ++ cut r base limit rest)
          ≡ some (true, front ++ cut r base limit rest)
    unfolding BeginsAbove
    carve_back fuel front =
        let left : Range = record { base = r.base; limit = base } in
        let right : Range = record { base = limit; limit = r.limit } in
        let low = BeginsAbove-rest rest canon in
        elim (Bool-cases (ltb r.base base)) [
          | inl a ↦ elim (Bool-cases (ltb limit r.limit)) [
            | inl b ↦
                rw (a, b)
                  (carve_stop_next fuel front left (right ∷ rest) (omega arith, ltb→lt _ _ b))
            | inr b ↦ rw (a, b) (carve_stop_next fuel front left rest low)
          ]
          | inr a ↦
              let e : length front + 0 ≡ length front = omega arith in
              elim (Bool-cases (ltb limit r.limit)) [
                | inl b ↦
                    rw (a, b, e) (carve_stop fuel front (right ∷ rest) (omega arith, ltb→lt _ _ b))
                | inr b ↦ rw (a, b, e) (carve_stop fuel front rest low)
              ]
        ]

    -- The round at the range that holds the block, if there is room for what is left of it.
    pub carve_hit :
        (fuel : ℕ) (front : List Range)
        → length (front ++ cut r base limit rest) ≤ max_free_ranges
        → carve (suc (suc fuel)) base limit (length front) (front ++ (r ∷ rest))
          ≡ some (true, front ++ cut r base limit rest)
    unfolding carve
    carve_hit fuel front room =
        let inserted =
          insert_pieces_lem front (left_of r base) (right_of r limit) rest (
            ground
              (arith, length-append front rest, length-append front (cut r base limit rest))) in
        ground (
          arith,
          get_elem?-append front r rest,
          remove_free_range_at-append front r rest,
          inserted,
          carve_back fuel front,
          pieces-eq-cut,
        )

    -- The same round in a full array: the second piece is lost, and `Reserve` will return false.
    pub carve_lost :
        (fuel : ℕ) (front : List Range)
        → length (front ++ (r ∷ rest)) ≡ max_free_ranges
        → r.base < base
        → limit < r.limit
        → carve (suc (suc fuel)) base limit (length front) (front ++ (r ∷ rest))
          ≡ some (false, front ++ cut r base r.limit rest)
    unfolding carve insert_pieces
    carve_lost fuel front full low high = ground (
      arith,
      get_elem?-append front r rest,
      remove_free_range_at-append front r rest,
      shift_in-append front (left_of r base) rest,
      length-append front rest,
      length-append front (r ∷ rest),
      length-append front (left_of r base ∷ rest),
    )

  -- The rounds over the ranges below the block.
  pub carve_skip :
      (fuel : ℕ) (front pre back : List Range)
      → AllBelow base pre
      → (done : Bool) (out : List Range)
      → ((f : ℕ)
          → carve (suc (suc f)) base limit (length (front ++ pre)) ((front ++ pre) ++ back)
            ≡ some (done, out))
      → length pre + 2 ≤ fuel
      → carve fuel base limit (length front) (front ++ (pre ++ back)) ≡ some (done, out)
  unfolding carve
  carve_skip zero front pre back h done out at enough = absurd (omega arith)
  carve_skip (suc zero) front pre back h done out at enough = absurd (omega arith)
  carve_skip (suc (suc fuel)) front [] back h done out at enough = rw append-nil at (at fuel)
  carve_skip (suc (suc fuel)) front (p ∷ pre) back h done out at enough =
      let index : length front + 1 ≡ length (front ++ (p ∷ [])) =
        omega (arith, length-append front (p ∷ [])) in
      let same = append_assoc front (p ∷ []) pre in
      let next =
        carve_skip (suc fuel) (front ++ (p ∷ [])) pre back h.1 done out (λ f. rw same (at f))
          (omega arith) in
      ground (
        arith,
        get_elem?-append front p (pre ++ back),
        index,
        append_assoc front (p ∷ []) (pre ++ back),
        next,
        h.0,
      )
