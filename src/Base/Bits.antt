-- ===== src/Base/Bits.antt =====
-- Single bits of machine words, for every width: what `&`, `|`, `1 << k` and `~` do to each bit.
use Prim.Native.Nat.{bit_and, bit_and-bitwise, bit_or, bit_or-bitwise, digits, max, min, suc}
use Prim.Native.Nat.{zero, ℕ, ◌%◌, ◌*◌, ◌+◌, ◌-◌, ◌/◌, ◌<◌, ◌^◌, ◌≤◌}
use mathlib.Core.Bool.{Bool, false, not, ◌&&◌, ◌||◌}
use mathlib.Core.Path.{ap, refl, sym, ◌∙◌, ◌≡◌}
use native.Mathlib.Nat.{div-div-eq-div-mul, one-le-pow, pow-suc}
use native.Mathlib.Omega.{arith}
use walden.Base.{ltb, ◌==◌}

pub test_bit : ℕ → ℕ → Bool
test_bit x zero = x % 2 == 1
test_bit x (suc k) = test_bit (x / 2) k

-- The native operations recur on the digits of their first argument, with that number for fuel.
module _ (z : ℕ → ℕ) (f : ℕ → ℕ → ℕ) where
  digits-fuel : (m n a b : ℕ) → a ≤ m → a ≤ n → digits z f m a b ≡ digits z f n a b
  digits-fuel zero zero a b p q = refl
  digits-fuel zero (suc n) zero b p q = refl
  digits-fuel (suc m) zero zero b p q = refl
  digits-fuel (suc m) (suc n) zero b p q = refl
  digits-fuel zero (suc n) (suc a) b p q = absurd (omega arith)
  digits-fuel (suc m) zero (suc a) b p q = absurd (omega arith)
  digits-fuel (suc m) (suc n) (suc a) b p q =
      rw (digits-fuel m n (suc a / 2) (b / 2) (omega arith) (omega arith))

pub bit_and_low : (a b : ℕ) → bit_and a b ≡ 2 * bit_and (a / 2) (b / 2) + min (a % 2) (b % 2)
bit_and_low zero b = omega (arith, bit_and-bitwise 0 b, bit_and-bitwise 0 (b / 2))
bit_and_low (suc a) b = omega (
  arith,
  bit_and-bitwise (suc a) b,
  bit_and-bitwise (suc a / 2) (b / 2),
  digits-fuel (λ _. 0) min a (suc a / 2) (suc a / 2) (b / 2) (omega arith) (omega arith),
)

pub bit_or_low : (a b : ℕ) → bit_or a b ≡ 2 * bit_or (a / 2) (b / 2) + max (a % 2) (b % 2)
bit_or_low zero b = omega (arith, bit_or-bitwise 0 b, bit_or-bitwise 0 (b / 2))
bit_or_low (suc a) b = omega (
  arith,
  bit_or-bitwise (suc a) b,
  bit_or-bitwise (suc a / 2) (b / 2),
  digits-fuel (λ y. y) max a (suc a / 2) (suc a / 2) (b / 2) (omega arith) (omega arith),
)

bit_and-half : (a b : ℕ) → bit_and a b / 2 ≡ bit_and (a / 2) (b / 2)
bit_and-half a b = omega (arith, bit_and_low a b)

bit_or-half : (a b : ℕ) → bit_or a b / 2 ≡ bit_or (a / 2) (b / 2)
bit_or-half a b = omega (arith, bit_or_low a b)

pub test_bit-and : (k a b : ℕ) → test_bit (bit_and a b) k ≡ (test_bit a k && test_bit b k)
unfolding test_bit
test_bit-and zero a b = ground (arith, bit_and_low a b)
test_bit-and (suc k) a b = rw (bit_and-half a b) (test_bit-and k (a / 2) (b / 2))

pub test_bit-or : (k a b : ℕ) → test_bit (bit_or a b) k ≡ (test_bit a k || test_bit b k)
unfolding test_bit
test_bit-or zero a b = ground (arith, bit_or_low a b)
test_bit-or (suc k) a b = rw (bit_or-half a b) (test_bit-or k (a / 2) (b / 2))

pow-half : (i : ℕ) → 2 ^ suc i / 2 ≡ 2 ^ i
pow-half i = omega (arith, pow-suc 2 i)

pub test_bit-zero : (k : ℕ) → test_bit 0 k ≡ false
unfolding test_bit
test_bit-zero zero = refl
test_bit-zero (suc k) = test_bit-zero k

pub test_bit-pow : (i k : ℕ) → test_bit (2 ^ i) k ≡ (i == k)
unfolding test_bit
test_bit-pow zero zero = refl
test_bit-pow zero (suc k) = test_bit-zero k ∙ ground arith
test_bit-pow (suc i) zero = ground (arith, pow-suc 2 i)
test_bit-pow (suc i) (suc k) = rw (pow-half i) (test_bit-pow i k ∙ ground arith)

-- The complement within `w` digits.
pub test_bit-complement :
    (w k x : ℕ) → x < 2 ^ w → k < w → test_bit (2 ^ w - 1 - x) k ≡ not (test_bit x k)
unfolding test_bit
test_bit-complement zero k x p q = absurd (omega arith)
test_bit-complement (suc w) zero x p q = ground (arith, pow-suc 2 w)
test_bit-complement (suc w) (suc k) x p q =
    let half : (2 ^ suc w - 1 - x) / 2 ≡ 2 ^ w - 1 - x / 2 = omega (arith, pow-suc 2 w) in
    rw half (test_bit-complement w k (x / 2) (omega (arith, pow-suc 2 w)) (omega arith))

bit_and-zero_below : (n x : ℕ) → x ≤ n → bit_and x 0 ≡ 0
bit_and-zero_below n zero h = refl
bit_and-zero_below zero (suc x) h = absurd (omega arith)
bit_and-zero_below (suc n) (suc x) h =
    omega (arith, bit_and_low (suc x) 0, bit_and-zero_below n (suc x / 2) (omega arith))

pub bit_and-zero : (x : ℕ) → bit_and x 0 ≡ 0
bit_and-zero x = bit_and-zero_below x x (omega arith)

-- `x & (1 << k)` is zero exactly when bit `k` of `x` is.
pub bit_and-pow : (k x : ℕ) → (bit_and x (2 ^ k) == 0) ≡ not (test_bit x k)
unfolding test_bit
bit_and-pow zero x = ground (arith, bit_and_low x 1, bit_and-zero (x / 2))
bit_and-pow (suc k) x =
    ground (arith, bit_and_low x (2 ^ suc k), pow-suc 2 k, bit_and-pow k (x / 2))

double : (q k : ℕ) → q * 2 ^ suc k ≡ 2 * (q * 2 ^ k)
double q k = omega (arith, ap (λ (t : ℕ). q * t) (pow-suc 2 k))

-- `x & ((1 << k) - 1)` keeps the low `k` bits.
pub bit_and-low_mask : (k q r : ℕ) → r < 2 ^ k → bit_and (q * 2 ^ k + r) (2 ^ k - 1) ≡ r
bit_and-low_mask zero q r h = ground (arith, bit_and-zero (q * 1 + r))
bit_and-low_mask (suc k) q r h =
    let half : (q * 2 ^ suc k + r) / 2 ≡ q * 2 ^ k + r / 2 = omega (arith, double q k) in
    let rest : bit_and ((q * 2 ^ suc k + r) / 2) ((2 ^ suc k - 1) / 2) ≡ r / 2 =
      rw (half, mask_half) (bit_and-low_mask k q (r / 2) (omega (arith, pow-suc 2 k))) in
    omega (
      arith,
      bit_and_low (q * 2 ^ suc k + r) (2 ^ suc k - 1),
      double q k,
      pow-suc 2 k,
      one-le-pow k 2 (omega arith),
      rest,
    )
  where
    mask_half : (2 ^ suc k - 1) / 2 ≡ 2 ^ k - 1
    mask_half = omega (arith, pow-suc 2 k)

-- `x & ~((1 << k) - 1)` clears the low `k` bits and keeps the `w` bits above.
pub bit_and-high_mask :
    (k w q r : ℕ)
    → r < 2 ^ k
    → q < 2 ^ w
    → bit_and (q * 2 ^ k + r) ((2 ^ w - 1) * 2 ^ k) ≡ q * 2 ^ k
bit_and-high_mask zero w q r h p =
    let same : q * 1 + r ≡ 0 * 2 ^ w + q = omega arith in
    let mask : (2 ^ w - 1) * 1 ≡ 2 ^ w - 1 = omega arith in
    rw (same, mask) (bit_and-low_mask w 0 q p ∙ omega arith)
bit_and-high_mask (suc k) w q r h p =
    let half : (q * 2 ^ suc k + r) / 2 ≡ q * 2 ^ k + r / 2 = omega (arith, double q k) in
    let mask : ((2 ^ w - 1) * 2 ^ suc k) / 2 ≡ (2 ^ w - 1) * 2 ^ k =
      omega (arith, double (2 ^ w - 1) k) in
    let rest : bit_and ((q * 2 ^ suc k + r) / 2) (((2 ^ w - 1) * 2 ^ suc k) / 2) ≡ q * 2 ^ k =
      rw (half, mask) (bit_and-high_mask k w q (r / 2) (omega (arith, pow-suc 2 k)) p) in
    omega (
      arith,
      bit_and_low (q * 2 ^ suc k + r) ((2 ^ w - 1) * 2 ^ suc k),
      double q k,
      double (2 ^ w - 1) k,
      rest,
    )

pub bit_and-le : (n x y : ℕ) → x ≤ n → bit_and x y ≤ x
bit_and-le n zero y h = omega (arith, bit_and-bitwise 0 y)
bit_and-le zero (suc x) y h = absurd (omega arith)
bit_and-le (suc n) (suc x) y h =
    omega (arith, bit_and_low (suc x) y, bit_and-le n (suc x / 2) (y / 2) (omega arith))

pub bit_and-le_right : (n x y : ℕ) → x ≤ n → bit_and x y ≤ y
bit_and-le_right n zero y h = omega (arith, bit_and-bitwise 0 y)
bit_and-le_right zero (suc x) y h = absurd (omega arith)
bit_and-le_right (suc n) (suc x) y h =
    omega (arith, bit_and_low (suc x) y, bit_and-le_right n (suc x / 2) (y / 2) (omega arith))

pub bit_or-lt : (w x y : ℕ) → x < 2 ^ w → y < 2 ^ w → bit_or x y < 2 ^ w
bit_or-lt zero zero zero p q = omega arith
bit_or-lt zero (suc x) y p q = absurd (omega arith)
bit_or-lt zero zero (suc y) p q = absurd (omega arith)
bit_or-lt (suc w) x y p q = omega (
  arith,
  pow-suc 2 w,
  bit_or_low x y,
  bit_or-lt w (x / 2) (y / 2) (omega (arith, pow-suc 2 w)) (omega (arith, pow-suc 2 w)),
)

pub pow-lt_word : (w k : ℕ) → k < w → 2 ^ k < 2 ^ w
pow-lt_word zero k h = absurd (omega arith)
pow-lt_word (suc w) zero h = omega (arith, pow-suc 2 w, one-le-pow w 2)
pow-lt_word (suc w) (suc k) h = omega (arith, pow-suc 2 w, pow-suc 2 k, pow-lt_word w k)

-- A word with no bit set is zero.
pub eq-zero_of_no_bit : (w x : ℕ) → x < 2 ^ w → ((k : ℕ) → k < w → test_bit x k ≡ false) → x ≡ 0
unfolding test_bit
eq-zero_of_no_bit zero x h none_set = omega arith
eq-zero_of_no_bit (suc w) x h none_set =
    let half =
      eq-zero_of_no_bit w (x / 2) (omega (arith, pow-suc 2 w))
        (λ k p. none_set (suc k) (omega arith)) in
    ground (arith, none_set 0 (omega arith))

-- Two words with the same bits are equal.
pub eq_of_bits :
    (w x y : ℕ) → x < 2 ^ w → y < 2 ^ w → ((k : ℕ) → k < w → test_bit x k ≡ test_bit y k) → x ≡ y
unfolding test_bit
eq_of_bits zero x y p q same = omega arith
eq_of_bits (suc w) x y p q same =
    let half =
      eq_of_bits w (x / 2) (y / 2) (omega (arith, pow-suc 2 w)) (omega (arith, pow-suc 2 w))
        (λ k h. same (suc k) (omega arith)) in
    ground (arith, same 0 (omega arith), half)

-- The bits of `(1 << n) - 1`.
pub test_bit-low_mask : (n k : ℕ) → test_bit (2 ^ n - 1) k ≡ ltb k n
unfolding test_bit
test_bit-low_mask zero k = test_bit-zero k ∙ ground arith
test_bit-low_mask (suc n) zero = ground (arith, pow-suc 2 n, one-le-pow n 2 (omega arith))
test_bit-low_mask (suc n) (suc k) =
    let half : (2 ^ suc n - 1) / 2 ≡ 2 ^ n - 1 = omega (arith, pow-suc 2 n) in
    rw half (test_bit-low_mask n k ∙ ground arith)

-- The bits of `x >> n`.
pub test_bit-shift : (n x k : ℕ) → test_bit (x / 2 ^ n) k ≡ test_bit x (n + k)
unfolding test_bit
test_bit-shift zero x k =
    let same : x / 2 ^ 0 ≡ x = omega arith in
    let index : k ≡ 0 + k = omega arith in ap (λ y. test_bit y k) same ∙ ap (test_bit x) index
test_bit-shift (suc n) x k =
    let doubled : 2 ^ suc n ≡ 2 * 2 ^ n = omega (arith, pow-suc 2 n) in
    let halves : x / 2 ^ suc n ≡ x / 2 / 2 ^ n =
      ap (λ y. x / y) doubled ∙ sym (div-div-eq-div-mul x 2 (2 ^ n)) in
    let index : suc (n + k) ≡ suc n + k = omega arith in
    ap (λ y. test_bit y k) halves ∙ test_bit-shift n (x / 2) k ∙ ap (test_bit x) index
