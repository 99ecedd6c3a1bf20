-- ===== src/Kva/Search.antt =====
-- rocinante/src/memory/kernel_va_allocator.h, `Reserve`, first pass: the range that the block lies
-- in.
use walden.Base.{Bool-cases, List, [], ap, arith, false, inl, inr, leb, leb→le, refl, suc, true}
use walden.Base.{ℕ, ◌&&◌, ◌++◌, ◌<◌, ◌∷◌, ◌≡◌, ◌≤◌, ◌⊎◌}
use walden.Kva.{Range, confirm_free, continues_at, skip_below}
use walden.Kva.Ranges.{Canonical, covers, covers_below, within}

-- Ranges that end at or below an address.
abbrev pub AllBelow : ℕ → List Range → Type 0
AllBelow base [] = Unit {0}
AllBelow base (r ∷ rs) = (r.limit ≤ base) × AllBelow base rs

abbrev pub AllFree : ℕ → ℕ → List Range → Type 0
AllFree base limit ranges = (x : ℕ) → within base limit x ≡ true → covers ranges x ≡ true

-- Where the block [base, limit) lies in a list of ranges.
pub record Located (base limit : ℕ) (ranges : List Range) : Type 0 where
  pub pre : List Range
  pub range : Range
  pub rest : List Range
  pub split : ranges ≡ pre ++ (range ∷ rest)
  pub before : AllBelow base pre
  pub above : range.base ≤ base
  pub below : limit ≤ range.limit

module _ (base limit : ℕ) (proper : base < limit) where
  no_touch :
      (r : Range) (hi : ℕ) (rest : List Range)
      → Canonical (suc r.limit) hi rest
      → continues_at r.limit rest ≡ false
  unfolding continues_at
  no_touch r hi [] c = refl
  no_touch r hi (q ∷ rest) c = ground arith

  -- The first pass at a range that ends past `base`: it must hold the whole block.
  confirm_free_lem :
      (r : Range) (hi : ℕ) (rest : List Range)
      → Canonical (suc r.limit) hi rest
      → base < r.limit
      → confirm_free base limit (r ∷ rest) ≡ (leb r.base base && leb limit r.limit)
  unfolding confirm_free
  confirm_free_lem r hi rest c past = ground (arith, no_touch r hi rest c)

  -- The first pass finds the range that holds the block, or some address of the block is not free.
  pub confirm_cases :
      (lo hi : ℕ) (ranges : List Range)
      → Canonical lo hi ranges
      → (confirm_free base limit (skip_below base ranges) ≡ true) × Located base limit ranges
        ⊎ (confirm_free base limit (skip_below base ranges) ≡ false) × ¬ AllFree base limit ranges
  unfolding skip_below confirm_free covers
  confirm_cases lo hi [] c = inr (ground arith, λ free. cc (free base (ground arith)))
  confirm_cases lo hi (r ∷ rest) c = elim (Bool-cases (leb r.limit base)) [
    | inl skip ↦ rw skip (elim (confirm_cases (suc r.limit) hi rest c.3) [
      | inl (found, at) ↦ inl (
        found,
        record {
          pre = r ∷ at.pre;
          range = at.range;
          rest = at.rest;
          split = ap (◌∷◌ r) at.split;
          before = (leb→le r.limit base skip, at.before);
          above = at.above;
          below = at.below;
        },
      )
      | inr (missing, hole) ↦ inr (missing, λ free. hole (λ x h. ground (arith, free x h)))
    ])
    | inr meets ↦
        rw (meets, confirm_free_lem r hi rest c.3 (ground arith))
          (elim (Bool-cases (leb r.base base && leb limit r.limit)) [
            | inl holds ↦ inl (
              holds,
              record {
                pre = [];
                range = r;
                rest = rest;
                split = refl;
                before = tt;
                above = ground arith;
                below = ground arith;
              },
            )
            | inr open_end ↦ inr (
              open_end,
              λ free. ground (
                arith,
                free base,
                free r.limit,
                covers_below (suc r.limit) hi rest base c.3,
                covers_below (suc r.limit) hi rest r.limit c.3,
              ),
            )
          ])
  ]
