-- ===== src/Kva/Coalesce.antt =====
-- rocinante/src/memory/kernel_va_allocator.h, `Free`: the array code, by index, beside the recursion
-- `merge`.
use walden.Base.{Bool, List, [], arith, false, if◌then◌else◌, ltb, not, refl, suc, ℕ, ◌&&◌, ◌-◌}
use walden.Base.{◌<◌, ◌==◌, ◌||◌, ◌∷◌, ◌≡◌, ◌≤◌}
use walden.Kva.{Range, at_index, coalesce, insertion_index, join_next, remove_free_range_at}
use walden.Kva.{shift_in}
use walden.Kva.Merge.{join_head, merge, overlaps}
use walden.Kva.Ranges.{Canonical}

sub-one : (n : ℕ) → suc n - 1 ≡ n
sub-one n = omega arith

join_next-cons :
    (i : ℕ) (x : Range) (xs : List Range)
    → join_next (suc i) (x ∷ xs) ≡ ((join_next i xs).0, x ∷ (join_next i xs).1)
unfolding join_next remove_free_range_at
join_next-cons i x xs = ground arith

coalesce-cons :
    (i : ℕ) (x : Range) (xs : List Range)
    → coalesce (suc (suc i)) (x ∷ xs) ≡ x ∷ coalesce (suc i) xs
unfolding coalesce
coalesce-cons i x xs =
    let (joined, ys) = join_next i xs in
    ground (
      arith,
      sub-one (suc i),
      sub-one i,
      join_next-cons i x xs,
      join_next-cons i x ys,
      join_next-cons (suc i) x ys,
    )

-- With the freed block first, or just behind one range.
coalesce-first :
    (base limit : ℕ) (rest : List Range)
    → coalesce 0 (record { base = base; limit = limit } ∷ rest) ≡ join_head base limit rest
unfolding coalesce join_next
coalesce-first base limit [] = refl
coalesce-first base limit (q ∷ rest) = ground arith

coalesce-second :
    (r : Range) (base limit : ℕ) (rest : List Range)
    → coalesce 1 (r ∷ record { base = base; limit = limit } ∷ rest)
      ≡ (if r.limit == base then join_head r.base limit rest else r ∷ join_head base limit rest)
unfolding coalesce join_next
coalesce-second r base limit [] = ground arith
coalesce-second r base limit (q ∷ rest) = ground arith

-- The two tests for an overlap, at the neighbours of the insertion point.
abbrev pub meets_neighbour : ℕ → ℕ → List Range → Bool
meets_neighbour base limit ranges =
    let index = insertion_index base ranges in
    (not (index == 0) && at_index ranges (index - 1) (λ r. ltb base r.limit))
    || at_index ranges index (λ r. ltb r.base limit)

module _ (base limit : ℕ) (proper : base < limit) where
  abbrev freed : Range
  freed = record { base = base; limit = limit }

  overlaps_above :
      (lo hi : ℕ) (q : Range) (rest : List Range)
      → Canonical lo hi (q ∷ rest)
      → base ≤ q.base
      → overlaps base limit (q ∷ rest) ≡ ltb q.base limit
  unfolding overlaps
  overlaps_above lo hi q [] c h = ground arith
  overlaps_above lo hi q (p ∷ rest) c h = ground (arith, overlaps_above (suc q.limit) hi p rest c.3)

  -- Looking at the neighbours is enough.
  pub meets_neighbour-overlaps :
      (lo hi : ℕ) (ranges : List Range)
      → Canonical lo hi ranges
      → meets_neighbour base limit ranges ≡ overlaps base limit ranges
  unfolding insertion_index at_index overlaps
  meets_neighbour-overlaps lo hi [] c = refl
  meets_neighbour-overlaps lo hi (r ∷ []) c = ground arith
  meets_neighbour-overlaps lo hi (r ∷ q ∷ rest) c = ground (
    arith,
    sub-one (suc (insertion_index base rest)),
    sub-one (insertion_index base rest),
    sub-one 0,
    meets_neighbour-overlaps (suc r.limit) hi (q ∷ rest) c.3,
    overlaps_above (suc r.limit) hi q rest c.3,
    overlaps_above lo hi r (q ∷ rest) c,
  )

  -- The array code is `merge`.
  pub coalesce-merge :
      (lo hi : ℕ) (ranges : List Range)
      → Canonical lo hi ranges
      → overlaps base limit ranges ≡ false
      → let index = insertion_index base ranges in
        coalesce index (shift_in index freed ranges) ≡ merge base limit ranges
  unfolding insertion_index shift_in overlaps
  coalesce-merge lo hi [] c o = coalesce-first base limit []
  coalesce-merge lo hi (r ∷ []) c o =
      ground (arith, coalesce-first base limit (r ∷ []), coalesce-second r base limit [])
  coalesce-merge lo hi (r ∷ q ∷ rest) c o = ground (
    arith,
    coalesce-first base limit (r ∷ q ∷ rest),
    coalesce-second r base limit (q ∷ rest),
    coalesce-cons (insertion_index base rest) r
        (q ∷ shift_in (insertion_index base rest) freed rest),
    coalesce-merge (suc r.limit) hi (q ∷ rest) c.3,
  )
