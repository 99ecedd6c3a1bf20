-- ===== src/Kva/Merge.antt =====
-- rocinante/src/memory/kernel_va_allocator.h, `Free`: putting a block back into a list of free
-- ranges, as a recursion on the list with no indices.
use walden.Base.{Bool, Bool-cases, List, [], arith, false, if◌then◌else◌, inl, inr, ltb, max}
use walden.Base.{refl, suc, true, ℕ, ◌&&◌, ◌<◌, ◌==◌, ◌||◌, ◌∷◌, ◌≡◌, ◌≤◌}
use walden.Kva.{Range}
use walden.Kva.Ranges.{Canonical, Canonical-mono, covers, within}

-- Before the ranges above it, a block joins the first of them if they touch.
abbrev pub join_head : ℕ → ℕ → List Range → List Range
join_head base limit [] = record { base = base; limit = limit } ∷ []
join_head base limit (q ∷ rest) =
    if limit == q.base
    then record { base = base; limit = q.limit } ∷ rest
    else record { base = base; limit = limit } ∷ q ∷ rest

abbrev pub merge : ℕ → ℕ → List Range → List Range
merge base limit [] = join_head base limit []
merge base limit (r ∷ rest) =
    if ltb r.limit base
    then r ∷ merge base limit rest
    else if r.limit == base
    then join_head r.base limit rest
    else join_head base limit (r ∷ rest)

-- Does a range of the list meet the block?
unfoldable pub overlaps : ℕ → ℕ → List Range → Bool
overlaps base limit [] = false
overlaps base limit (r ∷ rest) = (ltb r.base limit && ltb base r.limit) || overlaps base limit rest

module _ (base limit : ℕ) (proper : base < limit) where
  covers-join_head :
      (lo hi b : ℕ) (rest : List Range) (x : ℕ)
      → Canonical lo hi rest
      → b < limit
      → covers (join_head b limit rest) x ≡ (within b limit x || covers rest x)
  unfolding covers
  covers-join_head lo hi b [] x c h = refl
  covers-join_head lo hi b (q ∷ rest) x c h = ground arith

  -- The block is added to the free addresses.
  pub covers-merge :
      (lo hi : ℕ) (ranges : List Range) (x : ℕ)
      → Canonical lo hi ranges
      → overlaps base limit ranges ≡ false
      → covers (merge base limit ranges) x ≡ (within base limit x || covers ranges x)
  unfolding covers overlaps
  covers-merge lo hi [] x c o = refl
  covers-merge lo hi (r ∷ rest) x c o = ground (
    arith,
    covers-join_head (suc r.limit) hi r.base rest x c.3,
    covers-join_head lo hi base (r ∷ rest) x c,
    covers-merge (suc r.limit) hi rest x c.3,
  )

  Canonical-join_head :
      (lo hi b : ℕ) (rest : List Range)
      → Canonical limit hi rest
      → lo ≤ b
      → b < limit
      → limit ≤ hi
      → Canonical lo hi (join_head b limit rest)
  Canonical-join_head lo hi b [] c low h high = (low, h, high, tt)
  Canonical-join_head lo hi b (q ∷ rest) c low h high =
      ground (arith, Canonical-mono (suc q.limit) hi)

  no_overlap_above :
      (lo hi : ℕ) (rest : List Range)
      → Canonical lo hi rest
      → base < lo
      → overlaps base limit rest ≡ false
      → Canonical limit hi rest
  unfolding overlaps
  no_overlap_above lo hi [] c h o = tt
  no_overlap_above lo hi (q ∷ rest) c h o = (ground arith, c.1, c.2, c.3)

  pub Canonical-merge :
      (lo hi : ℕ) (ranges : List Range)
      → Canonical lo hi ranges
      → lo ≤ base
      → limit ≤ hi
      → overlaps base limit ranges ≡ false
      → Canonical lo hi (merge base limit ranges)
  unfolding overlaps
  Canonical-merge lo hi [] c low high o = (low, proper, high, tt)
  Canonical-merge lo hi (r ∷ rest) c low high o = elim (Bool-cases (ltb r.limit base)) [
    | inl later ↦ rw later (
      c.0,
      c.1,
      c.2,
      Canonical-merge (suc r.limit) hi rest c.3 (ground arith) high (ground arith),
    )
    | inr here ↦ elim (Bool-cases (r.limit == base)) [
      | inl touches ↦
          rw (here, touches)
            (Canonical-join_head lo hi r.base rest
              (no_overlap_above (suc r.limit) hi rest c.3 (ground arith) (ground arith)) c.0
              (ground arith) high)
      | inr above ↦
          rw (here, above)
            (Canonical-join_head lo hi base (r ∷ rest) (ground arith, c.1, c.2, c.3) low proper
              high)
    ]
  ]

  -- The block meets a range exactly where one of its addresses is free.
  pub overlaps-none :
      (ranges : List Range) (x : ℕ)
      → overlaps base limit ranges ≡ false
      → within base limit x ≡ true
      → covers ranges x ≡ false
  unfolding covers overlaps
  overlaps-none [] x o h = refl
  overlaps-none (r ∷ rest) x o h = ground (arith, overlaps-none rest x)

  pub overlaps-some :
      (lo hi : ℕ) (ranges : List Range)
      → Canonical lo hi ranges
      → overlaps base limit ranges ≡ true
      → (x : ℕ) × (within base limit x ≡ true) × (covers ranges x ≡ true)
  unfolding covers overlaps
  overlaps-some lo hi [] c o = cc
  overlaps-some lo hi (r ∷ rest) c o = elim (Bool-cases (ltb r.base limit && ltb base r.limit)) [
    | inl meets ↦ (max base r.base, ground arith, ground arith)
    | inr apart ↦
        let (x, h, k) = overlaps-some (suc r.limit) hi rest c.3 (ground (arith)) in
        (x, h, ground (arith, k))
  ]
