-- ===== src/Paging/Entries.antt =====
-- rocinante/src/memory/paging.cpp: the fields that the walks read of entries.
use walden.Base.{==→≡, ap, arith, bit_and, bit_or, false, inl, leb, ltb, not, subst, true, ℕ, ◌%◌}
use walden.Base.{◌&&◌, ◌*◌, ◌+◌, ◌-◌, ◌/◌, ◌<◌, ◌==◌, ◌^◌, ◌||◌, ◌∙◌, ◌≡◌, ◌≤◌}
use walden.Base.Bits.{bit_and-le, bit_and-le_right, bit_and-low_mask, bit_and-pow, bit_or-lt}
use walden.Base.Bits.{eq_of_bits, pow-lt_word, test_bit, test_bit-and, test_bit-complement}
use walden.Base.Bits.{test_bit-low_mask, test_bit-or, test_bit-pow, test_bit-zero}
use walden.Base.Word.{not64, word}
use walden.Paging.{PagePermissions, encode_leaf_entry, encode_table_pointer, entry_is_present}
use walden.Paging.{entry_physical_page_base, global_bit, is_page_aligned}
use walden.Paging.{leaf_flags_for_permissions, mask_from_bits, page_base_mask, page_offset_mask}
use walden.Paging.{physical_page_base_mask_from_bits, present_bit, valid_bit}
use walden.Paging.Flags.{Flags, Walkable-or_right, entry_is_present_lem, flag, leaf_flags-Marks}

module _ (bits : ℕ) (least : 12 ≤ bits) (most : bits ≤ 61) where
  abbrev mask : ℕ
  mask = physical_page_base_mask_from_bits bits

  mask_lem : mask ≡ bit_and (2 ^ bits - 1) page_base_mask
  unfolding physical_page_base_mask_from_bits mask_from_bits
  mask_lem = ground arith

  mask-bits : (k : ℕ) → k < 64 → test_bit mask k ≡ (leb 12 k && ltb k bits)
  mask-bits k h = ground (
    arith,
    ap (λ x. test_bit x k) mask_lem,
    test_bit-and k (2 ^ bits - 1) page_base_mask,
    test_bit-low_mask bits k,
    test_bit-complement 64 k page_offset_mask (omega arith) h,
    test_bit-low_mask 12 k,
  )

  pub mask-lt_word : mask < word
  mask-lt_word =
      omega (arith, mask_lem, bit_and-le_right (2 ^ bits - 1) (2 ^ bits - 1) page_base_mask)

  -- Flags leave a base alone.
  base-or_Flags : (x f : ℕ) → x < word → Flags f → bit_and (bit_or x f) mask ≡ bit_and x mask
  base-or_Flags x f p (q, free) =
      let both = bit_or-lt 64 x f p q in
      eq_of_bits 64 _ _ (omega (arith, bit_and-le (bit_or x f) (bit_or x f) mask, both))
        (omega (arith, bit_and-le x x mask))
        (λ k h. ground (
          arith,
          test_bit-and k (bit_or x f) mask,
          test_bit-or k x f,
          test_bit-and k x mask,
          mask-bits k h,
          free k,
        ))

  low_bit : (p : ℕ) → bit_and p mask ≡ p → test_bit p 6 ≡ false
  low_bit p fits =
      subst (λ x. test_bit x 6 ≡ false) fits
        (ground (arith, test_bit-and 6 p mask, mask-bits 6 (omega arith)))

  pub leaf_entry_of_base :
      (p : ℕ) (permissions : PagePermissions)
      → p < word
      → bit_and p mask ≡ p
      → (entry_is_present (encode_leaf_entry p mask permissions) ≡ true)
        × (entry_physical_page_base (encode_leaf_entry p mask permissions) mask ≡ p)
  unfolding encode_leaf_entry
  leaf_entry_of_base p permissions h fits =
      let (free, present) = leaf_flags-Marks permissions in
      let flags = leaf_flags_for_permissions permissions in
      rw fits (
        entry_is_present_lem (bit_or p flags) (Walkable-or_right p flags present),
        base-or_Flags p flags h free ∙ fits,
      )

  pub table_pointer_of_base :
      (p : ℕ)
      → p < word
      → bit_and p mask ≡ p
      → (entry_is_present (encode_table_pointer p mask) ≡ true)
        × (bit_and (encode_table_pointer p mask) global_bit ≡ 0)
        × (entry_physical_page_base (encode_table_pointer p mask) mask ≡ p)
  unfolding encode_table_pointer
  table_pointer_of_base p h fits =
      let valid = flag 0 (omega arith) (inl (omega arith)) in
      let there = flag 7 (omega arith) (inl (omega arith)) in
      let entry = bit_or (bit_or p valid_bit) present_bit in
      let bits_of : (k : ℕ) → test_bit entry k ≡ ((test_bit p k || (0 == k)) || (7 == k)) = λ k.
        ground (
          arith,
          test_bit-or k (bit_or p valid_bit) present_bit,
          test_bit-or k p valid_bit,
          test_bit-pow 0 k,
          test_bit-pow 7 k,
        ) in
      rw fits (
        entry_is_present_lem entry (ground (arith, bits_of 0), ground (arith, bits_of 7)),
        ==→≡ _ 0 (ground (arith, bit_and-pow 6 entry, bits_of 6, low_bit p fits)),
        base-or_Flags (bit_or p valid_bit) present_bit (bit_or-lt 64 p valid_bit h (omega arith))
              there
            ∙ base-or_Flags p valid_bit h valid
            ∙ fits,
      )

  -- An aligned address of the width is a page's base that fits an entry.
  pub physical_fits :
      (p : ℕ)
      → p < word
      → is_page_aligned p ≡ true
      → bit_and p (not64 (mask_from_bits bits)) ≡ 0
      → bit_and p mask ≡ p
  unfolding is_page_aligned mask_from_bits
  physical_fits p h aligned small =
      let low_mask : mask_from_bits bits ≡ 2 ^ bits - 1 = ground arith in
      let bound = pow-lt_word 64 bits (omega (arith, most)) in
      let high : (k : ℕ) → k < 64 → (test_bit p k && not (ltb k bits)) ≡ false = λ k q. ground (
        arith,
        test_bit-zero k,
        ap (λ x. test_bit x k) small,
        test_bit-and k p (not64 (mask_from_bits bits)),
        ap (λ x. test_bit (not64 x) k) low_mask,
        test_bit-complement 64 k (2 ^ bits - 1) (omega (arith, bound)) q,
        test_bit-low_mask bits k,
      ) in
      let low : (k : ℕ) → (test_bit p k && ltb k 12) ≡ false = λ k. ground (
        arith,
        test_bit-zero k,
        ap (λ x. test_bit x k) (==→≡ (bit_and p page_offset_mask) 0 aligned),
        test_bit-and k p page_offset_mask,
        test_bit-low_mask 12 k,
      ) in
      eq_of_bits 64 _ _ (omega (arith, bit_and-le p p mask)) h
        (λ k q. ground (arith, test_bit-and k p mask, mask-bits k q, high k q, low k))

  -- An address below 2 ^ bits that is a multiple of 4096.
  base_fits : (p : ℕ) → p < 2 ^ bits → p % 2 ^ 12 ≡ 0 → bit_and p mask ≡ p
  base_fits p small aligned =
      let h : p < word = omega (arith, small, pow-lt_word 64 bits (omega (arith, most))) in
      let high : (k : ℕ) → (test_bit p k && not (ltb k bits)) ≡ false = λ k. ground (
        arith,
        ap (λ x. test_bit x k) (bit_and-low_mask bits 0 p small),
        test_bit-and k p (2 ^ bits - 1),
        test_bit-low_mask bits k,
      ) in
      let offset : bit_and p (2 ^ 12 - 1) ≡ 0 =
        subst (λ x. bit_and x (2 ^ 12 - 1) ≡ 0) {x = (p / 2 ^ 12) * 2 ^ 12 + p % 2 ^ 12}
          (omega arith) (bit_and-low_mask 12 (p / 2 ^ 12) (p % 2 ^ 12) (omega arith) ∙ aligned) in
      let low : (k : ℕ) → (test_bit p k && ltb k 12) ≡ false = λ k. ground (
        arith,
        test_bit-zero k,
        ap (λ x. test_bit x k) offset,
        test_bit-and k p (2 ^ 12 - 1),
        test_bit-low_mask 12 k,
      ) in
      eq_of_bits 64 _ _ (omega (arith, bit_and-le p p mask)) h
        (λ k q. ground (arith, test_bit-and k p mask, mask-bits k q, high k, low k))

  -- For a width of physical addresses of 12 to 61 bits, a page's base (a multiple of 4096) below 2 to the
  -- width, and whatever permissions: the leaf entry is present, and the base read from it is the page's.
  pub encode_leaf_entry_lem :
      (p : ℕ) (permissions : PagePermissions)
      → p < 2 ^ bits
      → p % 2 ^ 12 ≡ 0
      → (entry_is_present (encode_leaf_entry p mask permissions) ≡ true)
        × (entry_physical_page_base (encode_leaf_entry p mask permissions) mask ≡ p)
  encode_leaf_entry_lem p permissions small aligned =
      leaf_entry_of_base p permissions
        (omega (arith, small, pow-lt_word 64 bits (omega (arith, most))))
        (base_fits p small aligned)

  -- For a width of physical addresses of 12 to 61 bits and a page's base (a multiple of 4096) below 2 to
  -- the width: the entry that points to a table in the page is present, has no huge-page mark, and the
  -- base read from it is the page's.
  pub encode_table_pointer_lem :
      (p : ℕ)
      → p < 2 ^ bits
      → p % 2 ^ 12 ≡ 0
      → (entry_is_present (encode_table_pointer p mask) ≡ true)
        × (bit_and (encode_table_pointer p mask) global_bit ≡ 0)
        × (entry_physical_page_base (encode_table_pointer p mask) mask ≡ p)
  encode_table_pointer_lem p small aligned =
      table_pointer_of_base p (omega (arith, small, pow-lt_word 64 bits (omega (arith, most))))
        (base_fits p small aligned)
