-- ===== src/Pmm/Bitmap.antt =====
-- rocinante/src/memory/pmm.cpp: the bitmap as a set of pages, and one write to it.
use walden.Base.{arith, bit_and, bit_or, false, if◌then◌else◌, true, update, ℕ, ◌%◌, ◌-◌, ◌/◌}
use walden.Base.{◌==◌, ◌^◌, ◌≡◌, ◌≢◌}
use walden.Base.Bits.{bit_and-pow, pow-lt_word, test_bit, test_bit-and, test_bit-complement}
use walden.Base.Bits.{test_bit-or, test_bit-pow}
use walden.Pmm.{Pmm, is_page_used, set_page_free, set_page_used}

pub is_page_used_lem :
    (s : Pmm) (i : ℕ)
    → s.bitmap_size_bytes ≢ 0
    → is_page_used s i ≡ test_bit (s.bitmap (i / 8)) (i % 8)
unfolding is_page_used
is_page_used_lem s i h = ground (arith, bit_and-pow (i % 8) (s.bitmap (i / 8)))

pub size_used :
    (s : Pmm) (i : ℕ) → s.bitmap_size_bytes ≢ 0 → (set_page_used s i).bitmap_size_bytes ≢ 0
unfolding set_page_used
size_used s i h = ground arith

pub size_free :
    (s : Pmm) (i : ℕ) → s.bitmap_size_bytes ≢ 0 → (set_page_free s i).bitmap_size_bytes ≢ 0
unfolding set_page_free
size_free s i h = ground arith

module _ (s : Pmm) (i j : ℕ) (h : s.bitmap_size_bytes ≢ 0) where
  pub is_page_used-set_page_used :
      is_page_used (set_page_used s i) j ≡ (if i == j then true else is_page_used s j)
  unfolding set_page_used
  is_page_used-set_page_used = ground (
    arith,
    is_page_used_lem s j h,
    is_page_used_lem (set_page_used s i) j (size_used s i h),
    test_bit-or (j % 8) (s.bitmap (i / 8)) (2 ^ (i % 8)),
    test_bit-pow (i % 8) (j % 8),
  )

  pub is_page_used-set_page_free :
      is_page_used (set_page_free s i) j ≡ (if i == j then false else is_page_used s j)
  unfolding set_page_free
  is_page_used-set_page_free =
      let bit = pow-lt_word 8 (i % 8) (omega arith) in
      ground (
        arith,
        is_page_used_lem s j h,
        is_page_used_lem (set_page_free s i) j (size_free s i h),
        test_bit-and (j % 8) (s.bitmap (i / 8)) (2 ^ 8 - 1 - 2 ^ (i % 8)),
        test_bit-complement 8 (j % 8) (2 ^ (i % 8)) bit (omega arith),
        test_bit-pow (i % 8) (j % 8),
      )

abbrev pub bits_with : Pmm → ℕ → ℕ → ℕ
bits_with s i = update s.bitmap (i / 8) (bit_or (s.bitmap (i / 8)) (2 ^ (i % 8)))

abbrev pub bits_without : Pmm → ℕ → ℕ → ℕ
bits_without s i = update s.bitmap (i / 8) (bit_and (s.bitmap (i / 8)) (2 ^ 8 - 1 - 2 ^ (i % 8)))

pub set_page_used_lem :
    (s : Pmm) (i : ℕ)
    → s.bitmap_size_bytes ≢ 0
    → set_page_used s i ≡ record s { bitmap = bits_with s i }
unfolding set_page_used
set_page_used_lem s i h = ground arith

pub set_page_free_lem :
    (s : Pmm) (i : ℕ)
    → s.bitmap_size_bytes ≢ 0
    → set_page_free s i ≡ record s { bitmap = bits_without s i }
unfolding set_page_free
set_page_free_lem s i h = ground arith

pub is_page_used-cong :
    (s t : Pmm) (j : ℕ)
    → t.bitmap_size_bytes ≡ s.bitmap_size_bytes
    → t.bitmap ≡ s.bitmap
    → is_page_used t j ≡ is_page_used s j
unfolding is_page_used
is_page_used-cong s t j e f = ground (arith, e, f)
