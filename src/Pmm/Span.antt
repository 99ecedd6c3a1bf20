-- ===== src/Pmm/Span.antt =====
-- rocinante/src/memory/pmm.cpp: rounding to pages, and `_physical_range_to_page_indices`.
use native.Mathlib.Nat.{mod-eq_of_lt, mod-lt}
use walden.Base.{Bool-cases, arith, bit_and, if◌then◌else◌, inl, inr, leb, ltb, none, refl, some}
use walden.Base.{subst, ℕ, ◌%◌, ◌*◌, ◌+◌, ◌-◌, ◌/◌, ◌<◌, ◌==◌, ◌^◌, ◌||◌, ◌↔◌, ◌≡◌, ◌≤◌, ◌⊎◌}
use walden.Base.Bits.{bit_and-high_mask}
use walden.Base.Word.{add64, word}
use walden.Pmm.{Pmm, align_down, align_up, page_size_bytes, physical_range_to_page_indices}
use walden.Pmm.{physical_to_page_index}
use walden.Pmm.Invariant.{IsSpanned}

pub align_down_lem : (v : ℕ) → v < word → align_down v ≡ v / page_size_bytes * page_size_bytes
unfolding align_down
align_down_lem v h =
    let e : v / 4096 * 2 ^ 12 + v % 4096 ≡ v = omega arith in
    subst (λ x. bit_and x ((2 ^ 52 - 1) * 2 ^ 12) ≡ v / 4096 * 4096) e
      (bit_and-high_mask 12 52 (v / 4096) (v % 4096) (omega arith) (omega arith))

-- Rounding up gives a multiple of the page size, or 0 where it wraps.
pub align_up-multiple : (v : ℕ) → align_up v % page_size_bytes ≡ 0
unfolding align_up align_down
align_up-multiple v =
    let low = mod-lt (v + (page_size_bytes - 1)) {m = word} (omega arith) in
    omega (arith, align_down_lem (add64 v (page_size_bytes - 1)) low)

pub align_up-lt_word : (v : ℕ) → align_up v < word
unfolding align_up align_down
align_up-lt_word v =
    let low = mod-lt (v + (page_size_bytes - 1)) {m = word} (omega arith) in
    omega (arith, low, align_down_lem (add64 v (page_size_bytes - 1)) low)

pub align_up_lem :
    (v : ℕ)
    → v + (page_size_bytes - 1) < word
    → align_up v ≡ (v + (page_size_bytes - 1)) / page_size_bytes * page_size_bytes
unfolding align_up align_down
align_up_lem v h = rw (mod-eq_of_lt h) (align_down_lem (v + (page_size_bytes - 1)) h)

-- The page at `a` and the range [b, b + n) have an address in common.
abbrev pub Touches : ℕ → ℕ → ℕ → Type 0
Touches a b n = (0 < n) × (a < b + n) × (b < a + page_size_bytes)

-- The page numbers that a range rounded outward has, with nothing wrapped.
abbrev first_of : Pmm → ℕ → ℕ
first_of s b =
    ((if ltb b s.tracked_physical_base then s.tracked_physical_base else b)
      - s.tracked_physical_base)
    / page_size_bytes

abbrev last_of : Pmm → ℕ → ℕ
last_of s e =
    ((if ltb s.tracked_physical_limit e then s.tracked_physical_limit else e)
      + (page_size_bytes - 1)
      - s.tracked_physical_base)
    / page_size_bytes

module _ (s : Pmm) (v : IsSpanned s) (b n : ℕ) (fits : b + n < word) where
  open v use {base_aligned, span, limit_word, some_page}

  range_lem : physical_range_to_page_indices s b n ≡ (
      if (n == 0) || leb (b + n) s.tracked_physical_base || leb s.tracked_physical_limit b
      then none
      else some (first_of s b, last_of s (b + n)))
  unfolding physical_range_to_page_indices physical_to_page_index
  range_lem =
      let begin = if ltb b s.tracked_physical_base then s.tracked_physical_base else b in
      let end = if ltb s.tracked_physical_limit (b + n) then s.tracked_physical_limit else b + n in
      let down : align_down begin ≡ begin / page_size_bytes * page_size_bytes =
        align_down_lem begin (ground arith) in
      let up : align_up end ≡ (end + (page_size_bytes - 1)) / page_size_bytes * page_size_bytes =
        align_up_lem end (ground arith) in
      ground (arith, down, up)

  -- For a manager with its bitmap and a span of whole pages, and a range whose end does not wrap:
  -- `_physical_range_to_page_indices` returns none and no page of the span has an address in common
  -- with the range, or it returns the numbers of exactly the pages of the span that have one.
  pub physical_range_cases :
      ((physical_range_to_page_indices s b n ≡ none)
        × ((j : ℕ)
            → j < s.page_count
            → ¬ Touches (s.tracked_physical_base + j * page_size_bytes) b n))
      ⊎ ((first : ℕ) × (last : ℕ) × (physical_range_to_page_indices s b n ≡ some (first, last))
          × (first < last)
          × (last ≤ s.page_count)
          × ((j : ℕ)
              → (first ≤ j × j < last) ↔ (
                  (j < s.page_count)
                  × Touches (s.tracked_physical_base + j * page_size_bytes) b n)))
  physical_range_cases =
      rw range_lem
        (elim (Bool-cases
          ((n == 0) || leb (b + n) s.tracked_physical_base || leb s.tracked_physical_limit b)) [
            | inl out ↦ rw out (inl (refl, λ j h (z, lo, hi). ground (arith, out)))
            | inr inside ↦ rw inside (
                inr (
                  first_of s b,
                  last_of s (b + n),
                  refl,
                  ground (arith, inside),
                  ground (arith, inside),
                  λ j. (λ (l, h). ground (arith, inside), λ (l, h). ground (arith, inside)),
                ))
          ])
