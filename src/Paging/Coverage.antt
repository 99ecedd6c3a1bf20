-- ===== src/Paging/Coverage.antt =====
-- rocinante/src/memory/paging.cpp: the layouts that the widths give, and the addresses that the indices of
-- the levels tell apart.
use walden.Base.{==→≡, Bool-cases, ap, arith, bit_and, inl, inr, ltb, ltb→le, ltb→lt, some, subst}
use walden.Base.{sym, true, ℕ, ◌%◌, ◌*◌, ◌+◌, ◌-◌, ◌/◌, ◌<◌, ◌==◌, ◌^◌, ◌↔◌, ◌∙◌, ◌≡◌, ◌≤◌}
use walden.Base.Bits.{bit_and-le_right, bit_and-pow, eq_of_bits, pow-lt_word, test_bit}
use walden.Base.Bits.{test_bit-and, test_bit-complement, test_bit-low_mask, test_bit-shift}
use walden.Base.Bits.{test_bit-zero}
use walden.Base.Word.{not64, word}
use walden.Paging.{AddressSpaceBits, PagingLayout, build_layout}
use walden.Paging.{index_from_virtual_address_at_level, level_count_from_virtual_address_bits}
use walden.Paging.{mask_from_bits, physical_page_base_mask_from_bits, validate_virtual_address}

-- For widths that have a layout: it has one to six levels, whose indices and the page offset cover the
-- virtual width, and the physical width is 13 to 61 bits.
pub build_layout_bounds :
    (bits : AddressSpaceBits) (l : PagingLayout)
    → build_layout bits ≡ some l
    → (0 < l.level_count)
      × (l.level_count ≤ 6)
      × (bits.virtual_address_bits ≤ 12 + 9 * l.level_count)
      × (12 < bits.physical_address_bits)
      × (bits.physical_address_bits ≤ 61)
      × (l.virtual_address_bits ≡ bits.virtual_address_bits)
      × (l.virtual_address_low_mask ≡ mask_from_bits bits.virtual_address_bits)
unfolding build_layout level_count_from_virtual_address_bits physical_page_base_mask_from_bits
    mask_from_bits
build_layout_bounds bits l e = elim (Bool-cases (bits.physical_address_bits == 12)) [
  | inl twelve ↦
      let no_mask =
        ap physical_page_base_mask_from_bits (==→≡ bits.physical_address_bits 12 twelve) in
      absurd (ground (arith, e, no_mask))
  | inr other ↦ (
    ground (arith, e),
    ground (arith, e),
    ground (arith, e),
    ground (arith, e, other),
    ground (arith, e),
    ground (arith, e),
    ground (arith, e),
  )
]

index-bit :
    (v l r : ℕ)
    → r < 9
    → test_bit (index_from_virtual_address_at_level v l) r ≡ test_bit v (12 + l * 9 + r)
unfolding index_from_virtual_address_at_level
index-bit v l r h = ground (
  arith,
  test_bit-and r (v / 2 ^ (12 + l * 9)) (2 ^ 9 - 1),
  test_bit-low_mask 9 r,
  test_bit-shift (12 + l * 9) v r,
)

index_small : (v l : ℕ) → index_from_virtual_address_at_level v l < 2 ^ 9
unfolding index_from_virtual_address_at_level
index_small v l = let x = v / 2 ^ (12 + l * 9) in omega (arith, bit_and-le_right x x (2 ^ 9 - 1))

-- Bit 12 and the bits above it up to the levels' last one stand in the indices.
indexed_bit :
    (v w levels k : ℕ)
    → ((l : ℕ)
        → l < levels
        → index_from_virtual_address_at_level v l ≡ index_from_virtual_address_at_level w l)
    → 12 ≤ k
    → k < 12 + 9 * levels
    → test_bit v k ≡ test_bit w k
indexed_bit v w levels k same low high =
    let l = (k - 12) / 9 in
    let r = (k - 12) % 9 in
    let at : 12 + l * 9 + r ≡ k = omega (arith, low) in
    let small : r < 9 = omega arith in
    let level : l < levels = omega (arith, low, high) in
    subst (λ j. test_bit v j ≡ test_bit w j) at
      (sym (index-bit v l r small) ∙ ap (λ x. test_bit x r) (same l level) ∙ index-bit w l r small)

-- The bits of a valid address from the width on are its sign.
sign_bits :
    (v : ℕ) (l : PagingLayout) (k : ℕ)
    → 0 < l.virtual_address_bits
    → l.virtual_address_low_mask ≡ mask_from_bits l.virtual_address_bits
    → validate_virtual_address v l ≡ true
    → l.virtual_address_bits ≤ k
    → k < 64
    → test_bit v k ≡ test_bit v (l.virtual_address_bits - 1)
unfolding validate_virtual_address mask_from_bits
sign_bits v l k some_bits mask valid high small =
    let width = l.virtual_address_bits in
    let low : l.virtual_address_low_mask ≡ 2 ^ width - 1 =
      ground (arith, mask, high, small, some_bits) in
    let bound = pow-lt_word 64 width (omega (arith, high, small)) in
    let upper : test_bit (not64 l.virtual_address_low_mask) k ≡ true = ground (
      arith,
      ap (λ m. test_bit (not64 m) k) low,
      test_bit-complement 64 k (2 ^ width - 1) (omega (arith, bound)) small,
      test_bit-low_mask width k,
      high,
    ) in
    let sign = bit_and-pow (width - 1) v in
    elim (Bool-cases (test_bit v (width - 1))) [
      | inl negative ↦
          let all =
            ==→≡ (bit_and v (not64 l.virtual_address_low_mask)) (not64 l.virtual_address_low_mask)
              (ground (arith, valid, sign, negative, high, small, some_bits)) in
          ground (
            arith,
            ap (λ x. test_bit x k) all,
            test_bit-and k v (not64 l.virtual_address_low_mask),
            upper,
            negative,
          )
      | inr positive ↦
          let nothing =
            ==→≡ (bit_and v (not64 l.virtual_address_low_mask)) 0
              (ground (arith, valid, sign, positive, high, small, some_bits)) in
          ground (
            arith,
            ap (λ x. test_bit x k) nothing,
            test_bit-zero k,
            test_bit-and k v (not64 l.virtual_address_low_mask),
            upper,
            positive,
          )
    ]

-- For a layout of more than 12 virtual address bits: two valid 64-bit addresses have the same index at
-- every level exactly when they lie in the same page of 4 KiB.
pub same_indices_iff :
    (bits : AddressSpaceBits) (l : PagingLayout) (v w : ℕ)
    → build_layout bits ≡ some l
    → 12 < bits.virtual_address_bits
    → v < word
    → w < word
    → validate_virtual_address v l ≡ true
    → validate_virtual_address w l ≡ true
    → ((k : ℕ)
        → k < l.level_count
        → index_from_virtual_address_at_level v k ≡ index_from_virtual_address_at_level w k)
      ↔ (v / 2 ^ 12 ≡ w / 2 ^ 12)
same_indices_iff bits l v w e wide hv hw valid_v valid_w = (forward, backward)
  where
    forward :
        ((k : ℕ)
          → k < l.level_count
          → index_from_virtual_address_at_level v k ≡ index_from_virtual_address_at_level w k)
        → v / 2 ^ 12 ≡ w / 2 ^ 12
    forward same =
        let (_, _, cover, _, _, same_width, mask) = build_layout_bounds bits l e in
        let mask_l = mask ∙ ap mask_from_bits (sym same_width) in
        let some_bits : 0 < l.virtual_address_bits = omega (arith, same_width, wide) in
        let low : (j : ℕ) → 12 ≤ j → j < l.virtual_address_bits → test_bit v j ≡ test_bit w j =
          λ j p q. indexed_bit v w l.level_count j same p (omega (arith, cover, q, same_width)) in
        let top =
          low (l.virtual_address_bits - 1) (omega (arith, wide, same_width))
            (omega (arith, some_bits)) in
        eq_of_bits 52 (v / 2 ^ 12) (w / 2 ^ 12) (omega (arith, hv)) (omega (arith, hw)) (λ k h.
          test_bit-shift 12 v k
          ∙ elim (Bool-cases (ltb (12 + k) l.virtual_address_bits)) [
            | inl inside ↦ low (12 + k) (omega arith) (ltb→lt _ _ inside)
            | inr above ↦
                let past = ltb→le _ _ above in
                sign_bits v l (12 + k) some_bits mask_l valid_v past (omega (arith, h))
                ∙ top
                ∙ sym (sign_bits w l (12 + k) some_bits mask_l valid_w past (omega (arith, h)))
          ]
          ∙ sym (test_bit-shift 12 w k))

    backward :
        v / 2 ^ 12 ≡ w / 2 ^ 12
        → (k : ℕ) → k < l.level_count
        → index_from_virtual_address_at_level v k ≡ index_from_virtual_address_at_level w k
    backward same k h = eq_of_bits 9 _ _ (index_small v k) (index_small w k) (λ r q.
        let at : 12 + k * 9 + r ≡ 12 + (k * 9 + r) = omega arith in
        index-bit v k r q
        ∙ ap (test_bit v) at
        ∙ sym (test_bit-shift 12 v (k * 9 + r))
        ∙ ap (λ x. test_bit x (k * 9 + r)) same
        ∙ test_bit-shift 12 w (k * 9 + r)
        ∙ sym (ap (test_bit w) at)
        ∙ sym (index-bit w k r q))
