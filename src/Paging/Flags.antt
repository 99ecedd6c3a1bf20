-- ===== src/Paging/Flags.antt =====
-- rocinante/src/memory/paging.cpp: the bits of entries, and the addresses of tables.
use walden.Base.{==→≡, Bool, Bool-cases, ap, arith, bit_and, bit_or, false, if◌then◌else◌, inl}
use walden.Base.{inr, refl, subst, true, ℕ, ◌%◌, ◌*◌, ◌+◌, ◌-◌, ◌/◌, ◌<◌, ◌==◌, ◌^◌, ◌||◌, ◌≡◌}
use walden.Base.{◌≤◌, ◌⊎◌}
use walden.Base.Bits.{bit_and-le_right, bit_and-low_mask, bit_or-lt, eq_of_bits, pow-lt_word}
use walden.Base.Bits.{test_bit, test_bit-and, test_bit-or, test_bit-pow, test_bit-zero}
use walden.Base.Word.{word}
use walden.Layout.{phys_map_base, to_phys_map_virtual}
use walden.Layout.Window.{to_phys_map_virtual_lem}
use walden.Paging.{AccessPermissions, CacheMode, ExecutePermissions, Machine, PagePermissions}
use walden.Paging.{cache_bits_for_mode, coherent_cached, dirty_bit, entry_is_present, executable}
use walden.Paging.{global_bit, is_mapped_address_translation_mode, is_page_aligned}
use walden.Paging.{leaf_flags_for_permissions, no_execute, no_execute_bit}
use walden.Paging.{page_table_page_from_physical, present_bit, privilege_level_kernel_bits}
use walden.Paging.{read_only, read_write, strong_uncached, valid_bit, weak_uncached, window_bits}
use walden.Paging.{write_bit}

-- Bits 0 and 7, which say that an entry is present.
abbrev pub Walkable : ℕ → Type 0
Walkable entry = (test_bit entry 0 ≡ true) × (test_bit entry 7 ≡ true)

pub entry_is_present_lem : (entry : ℕ) → Walkable entry → entry_is_present entry ≡ true
unfolding entry_is_present
entry_is_present_lem entry (low, high) =
    rw
      (eq_of_bits 8 (bit_and entry 129) 129 (omega (arith, bit_and-le_right entry entry 129))
        (omega arith) same)
      refl
  where
    flags : (k : ℕ) → test_bit 129 k ≡ ((7 == k) || (0 == k))
    flags k = ground (arith, test_bit-or k (2 ^ 7) (2 ^ 0), test_bit-pow 7 k, test_bit-pow 0 k)

    same : (k : ℕ) → k < 8 → test_bit (bit_and entry 129) k ≡ test_bit 129 k
    same k h = elim (Bool-cases (7 == k)) [
      | inl seven ↦ ground (
        arith,
        test_bit-and k entry 129,
        flags k,
        seven,
        subst (λ j. test_bit entry j ≡ true) (==→≡ 7 k seven) high,
      )
      | inr other ↦ elim (Bool-cases (0 == k)) [
        | inl zeroth ↦ ground (
          arith,
          test_bit-and k entry 129,
          flags k,
          zeroth,
          subst (λ j. test_bit entry j ≡ true) (==→≡ 0 k zeroth) low,
        )
        | inr between ↦ ground (arith, test_bit-and k entry 129, flags k, other, between)
      ]
    ]

pub zero-absent : entry_is_present 0 ≡ false
unfolding entry_is_present
zero-absent = refl

pub is_page_aligned_lem : (x : ℕ) → is_page_aligned x ≡ ((x % 2 ^ 12) == 0)
unfolding is_page_aligned
is_page_aligned_lem x =
    let parts : x / 2 ^ 12 * 2 ^ 12 + x % 2 ^ 12 ≡ x = omega arith in
    let low = bit_and-low_mask 12 (x / 2 ^ 12) (x % 2 ^ 12) (omega arith) in
    let same : bit_and x (2 ^ 12 - 1) ≡ x % 2 ^ 12 =
      subst (λ y. bit_and y (2 ^ 12 - 1) ≡ x % 2 ^ 12) parts low in
    ap (λ y. y == 0) same

-- Pages are accessed at addresses of their own, in either translation mode.
pub page_table_page_from_physical-injective :
    (m : Machine) (p q : ℕ)
    → p < word
    → q < word
    → page_table_page_from_physical m p ≡ page_table_page_from_physical m q
    → p ≡ q
unfolding page_table_page_from_physical
page_table_page_from_physical-injective m p q h k e =
    elim (Bool-cases (is_mapped_address_translation_mode m)) [
      | inr direct ↦ ground (arith, direct, e)
      | inl through_window ↦
          let base = phys_map_base (window_bits m) in
          omega (
            arith,
            h,
            k,
            to_phys_map_virtual_lem p (window_bits m),
            to_phys_map_virtual_lem q (window_bits m),
            subst
                (λ b.
                  (if b then to_phys_map_virtual p (window_bits m) else p)
                  ≡ (if b then to_phys_map_virtual q (window_bits m) else q))
                through_window e,
          )
    ]

-- What the flags leave free: the bits of a physical page's base, from bit 12 up to bit 60.
abbrev pub Flags : ℕ → Type 0
Flags x = (x < word) × ((k : ℕ) → 12 ≤ k → k < 61 → test_bit x k ≡ false)

pub flag : (n : ℕ) → n < 64 → (n < 12) ⊎ (n ≡ 62) → Flags (2 ^ n)
flag n h where_at = (
  pow-lt_word 64 n h,
  λ k low high. elim where_at [
    | inl below ↦ ground (arith, test_bit-pow n k)
    | inr at ↦ ground (arith, test_bit-pow n k)
  ],
)

pub Flags-or : (x y : ℕ) → Flags x → Flags y → Flags (bit_or x y)
Flags-or x y (p, f) (q, g) = (
  bit_or-lt 64 x y p q,
  λ k low high. ground (arith, test_bit-or k x y, f k low high, g k low high),
)

pub Walkable-or_right : (x y : ℕ) → Walkable y → Walkable (bit_or x y)
Walkable-or_right x y (low, high) =
    (ground (arith, test_bit-or 0 x y), ground (arith, test_bit-or 7 x y))

pub Walkable-or : (x y : ℕ) → Walkable x → Walkable (bit_or x y)
Walkable-or x y (low, high) = (ground (arith, test_bit-or 0 x y), ground (arith, test_bit-or 7 x y))

cache_bits-Flags : (mode : CacheMode) → Flags (cache_bits_for_mode mode)
unfolding cache_bits_for_mode
cache_bits-Flags strong_uncached = (omega arith, λ k low high. test_bit-zero k)
cache_bits-Flags coherent_cached = flag 4 (omega arith) (inl (omega arith))
cache_bits-Flags weak_uncached = flag 5 (omega arith) (inl (omega arith))

-- An entry with flags in it.
abbrev pub Marks : ℕ → Type 0
Marks x = Flags x × Walkable x

pub Marks-or : (x y : ℕ) → Marks x → Flags y → Marks (bit_or x y)
Marks-or x y (f, w) g = (Flags-or x y f g, Walkable-or x y w)

present-Marks : Marks (bit_or valid_bit present_bit)
present-Marks = (
  Flags-or valid_bit present_bit (flag 0 (omega arith) (inl (omega arith)))
      (flag 7 (omega arith) (inl (omega arith))),
  (
    ground (arith, test_bit-or 0 valid_bit present_bit, test_bit-pow 0 0),
    ground (arith, test_bit-or 7 valid_bit present_bit, test_bit-pow 7 7),
  ),
)

pub leaf_flags-Marks : (p : PagePermissions) → Marks (leaf_flags_for_permissions p)
unfolding leaf_flags_for_permissions
leaf_flags-Marks p =
    let walked =
      Marks-or _ (cache_bits_for_mode p.cache)
        (Marks-or _ privilege_level_kernel_bits present-Marks
          (omega arith, λ k low high. test_bit-zero k))
        (cache_bits-Flags p.cache) in
    with_execute p.execute _ (with_access p.access _ (with_global p.is_global _ walked))
  where
    with_global : (b : Bool) (x : ℕ) → Marks x → Marks (if b then bit_or x global_bit else x)
    with_global true x h = Marks-or x global_bit h (flag 6 (omega arith) (inl (omega arith)))
    with_global false x h = h

    with_access :
        (a : AccessPermissions) (x : ℕ)
        → Marks x
        → Marks (elim a [ read_only ↦ x | read_write ↦ bit_or (bit_or x write_bit) dirty_bit ])
    with_access read_only x h = h
    with_access read_write x h =
        Marks-or (bit_or x write_bit) dirty_bit
          (Marks-or x write_bit h (flag 8 (omega arith) (inl (omega arith))))
          (flag 1 (omega arith) (inl (omega arith)))

    with_execute :
        (e : ExecutePermissions) (x : ℕ)
        → Marks x
        → Marks (elim e [ executable ↦ x | no_execute ↦ bit_or x no_execute_bit ])
    with_execute executable x h = h
    with_execute no_execute x h = Marks-or x no_execute_bit h (flag 62 (omega arith) (inr refl))
