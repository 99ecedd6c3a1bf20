-- ===== src/Layout/Window.antt =====
-- rocinante/src/memory/virtual_layout.h: the window on physical memory.
use walden.Base.{==→≡, ==→≢, Bool, Bool-cases, arith, inl, inr, leb, ltb, ltb→le, ltb→lt, refl}
use walden.Base.{subst, suc, sym, true, zero, ℕ, ◌%◌, ◌&&◌, ◌+◌, ◌-◌, ◌<◌, ◌==◌, ◌^◌, ◌||◌, ◌≡◌}
use walden.Base.{◌≤◌, ◌⊎◌}
use walden.Base.Word.{word}
use walden.Layout.{canonical_high_half_base, from_phys_map_virtual, phys_map_base}
use walden.Layout.{phys_map_max_physical_address_exclusive, phys_map_offset_bytes}
use walden.Layout.{to_phys_map_virtual}

every : (ℕ → Bool) → ℕ → Bool
every f zero = true
every f (suc n) = f n && every f n

every-at : (f : ℕ → Bool) (n i : ℕ) → every f n ≡ true → i < n → f i ≡ true
unfolding every
every-at f zero i e h = absurd (omega arith)
every-at f (suc n) i e h = elim (Bool-cases (i == n)) [
  | inl last ↦ subst (λ k. f k ≡ true) (sym (==→≡ i n last)) (ground (arith, e))
  | inr earlier ↦ every-at f n i (ground (arith, e)) (ground (arith, ==→≢ i n earlier))
]

-- What holds of each width, as a test.
good_width : ℕ → Bool
unfolding canonical_high_half_base
good_width bits =
    (bits == 0)
    || (canonical_high_half_base bits == (word - 2 ^ (bits - 1)))
      && leb (2 ^ (bits - 1)) (2 ^ 62)
      && (ltb bits 32 || leb (2 ^ 31) (2 ^ (bits - 1)))

all_widths : every good_width 64 ≡ true
unfolding every good_width
all_widths = refl

module _ (bits : ℕ) (some_bits : 0 < bits) (fits : bits < 64) where
  good : good_width bits ≡ true
  good = every-at good_width 64 bits all_widths fits

  pub canonical_high_half_base_lem : canonical_high_half_base bits ≡ word - 2 ^ (bits - 1)
  unfolding good_width
  canonical_high_half_base_lem = ground (arith, good)

  half_bound : 2 ^ (bits - 1) ≤ 2 ^ 62
  unfolding good_width
  half_bound = ground (arith, good)

  half_room : 32 ≤ bits → 2 ^ 31 ≤ 2 ^ (bits - 1)
  unfolding good_width
  half_room h = ground (arith, good)

pub to_phys_map_virtual_lem :
    (p bits : ℕ) → to_phys_map_virtual p bits ≡ (phys_map_base bits + p) % word
unfolding to_phys_map_virtual
to_phys_map_virtual_lem p bits = refl

-- For a width of 32 to 63 bits and a physical address below 2 ^ 64: below the window's bound, its address
-- in the window is the window's base plus it, with nothing wrapped, lies in the canonical higher half,
-- and is mapped back to it; from the bound on, its address in the window wraps to one below the base.
pub to_phys_map_virtual_cases :
    (bits p : ℕ)
    → 32 ≤ bits
    → bits < 64
    → p < word
    → ((p < phys_map_max_physical_address_exclusive bits)
        × (to_phys_map_virtual p bits ≡ phys_map_base bits + p)
        × (word - 2 ^ (bits - 1) ≤ to_phys_map_virtual p bits)
        × (to_phys_map_virtual p bits < word)
        × (from_phys_map_virtual (to_phys_map_virtual p bits) bits ≡ p))
      ⊎ ((phys_map_max_physical_address_exclusive bits ≤ p)
          × (to_phys_map_virtual p bits < phys_map_base bits))
unfolding phys_map_max_physical_address_exclusive to_phys_map_virtual from_phys_map_virtual
    phys_map_base
to_phys_map_virtual_cases bits p h f q =
    let base = canonical_high_half_base_lem bits (omega arith) f in
    let most = half_bound bits (omega arith) f in
    let least = half_room bits (omega arith) f h in
    rw base (elim (Bool-cases (ltb (word - 2 ^ (bits - 1) + phys_map_offset_bytes + p) word)) [
      | inl inside ↦
          let high = ltb→lt _ word inside in
          inl (
            ground (arith, high, most, least),
            omega (arith, high, most, least),
            omega (arith, high, most, least),
            omega (arith, high, most, least),
            omega (arith, high, most, least),
          )
      | inr outside ↦
          let past = ltb→le _ word outside in
          inr (ground (arith, past, most, least), omega (arith, past, most, least, q))
    ])
