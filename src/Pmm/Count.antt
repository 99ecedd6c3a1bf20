-- ===== src/Pmm/Count.antt =====
-- rocinante/src/memory/pmm.cpp: how many of the first `n` pages are free, and one changed bit.
use walden.Base.{==→≡, ==→≢, Bool, Bool-cases, arith, false, if◌then◌else◌, inl, inr, refl, suc}
use walden.Base.{sym, true, zero, ℕ, ◌+◌, ◌<◌, ◌==◌, ◌≡◌, ◌≤◌}

unfoldable pub count_free : (ℕ → Bool) → ℕ → ℕ
count_free used zero = 0
count_free used (suc n) = (if used n then 0 else 1) + count_free used n

pub count_free-cong :
    (f g : ℕ → Bool) (n : ℕ) → ((j : ℕ) → j < n → f j ≡ g j) → count_free f n ≡ count_free g n
unfolding count_free
count_free-cong f g zero h = refl
count_free-cong f g (suc n) h =
    ground (arith, h n (omega arith), count_free-cong f g n (λ j p. h j (omega arith)))

-- One free page fewer where `i` becomes used.
pub count_free-take :
    (f g : ℕ → Bool) (i n : ℕ)
    → ((j : ℕ) → g j ≡ (if i == j then true else f j))
    → i < n
    → f i ≡ false
    → count_free g n + 1 ≡ count_free f n
unfolding count_free
count_free-take f g i zero h lt e = absurd (omega arith)
count_free-take f g i (suc n) h lt e = elim (Bool-cases (i == n)) [
  | inl last ↦
      ground (
        arith,
        h n,
        ==→≡ i n last,
        count_free-cong g f n (λ j p. ground (arith, h j, ==→≡ i n last)),
      )
  | inr earlier ↦
      ground (
        arith,
        h n,
        ==→≢ i n earlier,
        count_free-take f g i n h (ground (arith, ==→≢ i n earlier)) e,
      )
]

-- One more where it becomes free.
pub count_free-give :
    (f g : ℕ → Bool) (i n : ℕ)
    → ((j : ℕ) → g j ≡ (if i == j then false else f j))
    → i < n
    → f i ≡ true
    → count_free g n ≡ count_free f n + 1
count_free-give f g i n h lt e =
    sym (count_free-take g f i n (λ j. ground (arith, h j, ==→≡ i j)) lt (ground (arith, h i)))

pub count_free-le : (f : ℕ → Bool) (n : ℕ) → count_free f n ≤ n
unfolding count_free
count_free-le f zero = omega arith
count_free-le f (suc n) = ground (arith, count_free-le f n)

-- A positive count has a free page behind it.
pub count_free-some :
    (f : ℕ → Bool) (n : ℕ) → 0 < count_free f n → (i : ℕ) × (i < n) × (f i ≡ false)
unfolding count_free
count_free-some f zero h = absurd (omega arith)
count_free-some f (suc n) h = elim (Bool-cases (f n)) [
  | inl used ↦ let (i, p, e) = count_free-some f n (ground arith) in (i, omega arith, e)
  | inr free ↦ (n, omega arith, free)
]

pub count_free-pos : (f : ℕ → Bool) (i n : ℕ) → i < n → f i ≡ false → 0 < count_free f n
unfolding count_free
count_free-pos f i zero h e = absurd (omega arith)
count_free-pos f i (suc n) h e = elim (Bool-cases (i == n)) [
  | inl last ↦ ground (arith, ==→≡ i n last)
  | inr earlier ↦
      ground (arith, ==→≢ i n earlier, count_free-pos f i n (ground (arith, ==→≢ i n earlier)) e)
]
