-- ===== src/Pmm/Placement/Obstacles.antt =====
-- rocinante/src/memory/pmm.cpp, `_allocate_bitmap` and `_allocate_frame_metadata`: the tests of one
-- candidate.
use walden.Base.{Bool-cases, List, [], arith, false, inl, inr, leb, not, refl, true, ℕ, ◌%◌, ◌+◌}
use walden.Base.{◌-◌, ◌<◌, ◌==◌, ◌||◌, ◌∷◌, ◌≡◌, ◌≢◌, ◌≤◌, ◌⊎◌}
use walden.Base.Word.{word}
use walden.Boot.{BootMemoryRegion, is_reserved, is_usable}
use walden.Pmm.{add_overflows, page_size_bytes}
use walden.Pmm.Boot.Policy.{RegionsAreWords}
use walden.Pmm.Placement.{Obstacle, Surroundings, behind, block_obstacle, clear, kernel_obstacle}
use walden.Pmm.Placement.{obstacle, or_else, ranges_overlap, reserved_obstacle, stuck}

-- [a, a + n) and [b, b + m) have no address in common.
abbrev pub Disjoint : ℕ → ℕ → ℕ → ℕ → Type 0
Disjoint a n b m = (a + n ≤ b) ⊎ (b + m ≤ a)

-- Disjoint from every reserved region that is not empty and does not wrap.
pub OffReserved : List BootMemoryRegion → ℕ → ℕ → Type 0
OffReserved [] a n = Unit
OffReserved (r ∷ rest) a n =
    (is_reserved r.region_type ≡ true
      → 0 < r.size_bytes
      → r.physical_base + r.size_bytes < word
      → Disjoint a n r.physical_base r.size_bytes)
    × OffReserved rest a n

-- Some usable region holds all of [a, a + n).
unfoldable pub InUsable : List BootMemoryRegion → ℕ → ℕ → Type 0
InUsable [] a n = ⊥
InUsable (r ∷ rest) a n =
    ((is_usable r.region_type ≡ true)
      × (r.physical_base + r.size_bytes < word)
      × (r.physical_base ≤ a)
      × (a + n ≤ r.physical_base + r.size_bytes))
    ⊎ InUsable rest a n

pub record IsClear (e : Surroundings) (a n : ℕ) : Type 0 where
  pub aligned : a % page_size_bytes ≡ 0
  pub kernel :
      e.kernel_physical_base < e.kernel_physical_end
      → Disjoint a n e.kernel_physical_base (e.kernel_physical_end - e.kernel_physical_base)
  pub device_tree :
      e.device_tree_physical_base ≢ 0
      → 0 < e.device_tree_size_bytes
      → Disjoint a n e.device_tree_physical_base e.device_tree_size_bytes
  pub bitmap :
      e.bitmap_physical_base ≢ 0
      → 0 < e.bitmap_size_bytes
      → Disjoint a n e.bitmap_physical_base e.bitmap_size_bytes
  pub reserved_regions : OffReserved e.regions a n

pub Obstacle-cases : (o : Obstacle) → (o ≡ clear) ⊎ ((x : ℕ) × (o ≡ behind x)) ⊎ (o ≡ stuck)
Obstacle-cases clear = inl refl
Obstacle-cases (behind x) = inr (inl (x, refl))
Obstacle-cases stuck = inr (inr refl)

pub record SurroundedByWords (e : Surroundings) : Type 0 where
  pub regions : RegionsAreWords e.regions
  pub kernel : (e.kernel_physical_base < word) × (e.kernel_physical_end < word)
  pub device_tree : (e.device_tree_physical_base < word) × (e.device_tree_size_bytes < word)
  pub bitmap : (e.bitmap_physical_base < word) × (e.bitmap_size_bytes < word)

module _ (a n : ℕ) (some_bytes : 0 < n) (fits : a + n < word) where
  ranges_overlap_lem :
      (b m : ℕ) → b < word → m < word → 0 < m → ranges_overlap a n b m ≡ false → Disjoint a n b m
  unfolding ranges_overlap
  ranges_overlap_lem b m p q h e = elim (Bool-cases (leb (a + n) b)) [
    | inl below ↦ inl (ground (arith, below))
    | inr above ↦ inr (ground (arith, above, e))
  ]

  reserved_lem :
      (regions : List BootMemoryRegion)
      → RegionsAreWords regions
      → reserved_obstacle regions a n ≡ clear
      → OffReserved regions a n
  unfolding reserved_obstacle OffReserved RegionsAreWords
  reserved_lem [] w e = tt
  reserved_lem (r ∷ rest) (p, q, w) e =
      elim (Bool-cases (
        not (is_reserved r.region_type)
        || (r.size_bytes == 0)
        || add_overflows r.physical_base r.size_bytes)) [
          | inl skipped ↦ (
            λ kind some_size below. ground (arith, kind, some_size, below, skipped, p, q),
            reserved_lem rest w (ground (arith, e, skipped)),
          )
          | inr tested ↦ elim (Bool-cases (ranges_overlap a n r.physical_base r.size_bytes)) [
            | inl overlap ↦ ground (arith, e, tested, overlap)
            | inr apart ↦ (
              λ kind some_size below.
                  ranges_overlap_lem r.physical_base r.size_bytes p q some_size apart,
              reserved_lem rest w (ground (arith, e, tested, apart)),
            )
          ]
        ]

  block_lem :
      (b m : ℕ)
      → b < word
      → m < word
      → block_obstacle b m a n ≡ clear
      → b ≢ 0
      → 0 < m
      → Disjoint a n b m
  unfolding block_obstacle
  block_lem b m p q e there h = elim (Bool-cases (ranges_overlap a n b m)) [
    | inl overlap ↦ elim (Bool-cases (add_overflows b m)) [
      | inl over ↦ ground (arith, e, there, h, overlap, over)
      | inr under ↦ ground (arith, e, there, h, overlap, under)
    ]
    | inr apart ↦ ranges_overlap_lem b m p q h apart
  ]

  kernel_lem :
      (e : Surroundings)
      → e.kernel_physical_base < word
      → e.kernel_physical_end < word
      → kernel_obstacle e a n ≡ clear
      → e.kernel_physical_base < e.kernel_physical_end
      → Disjoint a n e.kernel_physical_base (e.kernel_physical_end - e.kernel_physical_base)
  unfolding kernel_obstacle
  kernel_lem e p q free less =
      ranges_overlap_lem e.kernel_physical_base (e.kernel_physical_end - e.kernel_physical_base) p
        (omega (arith, q)) (omega (arith, less)) (ground (arith, free, less))

  or_else-clear : (o p : Obstacle) → or_else o p ≡ clear → (o ≡ clear) × (p ≡ clear)
  or_else-clear clear p e = (refl, e)
  or_else-clear (behind end) p e = ground (arith, e)
  or_else-clear stuck p e = ground (arith, e)

  pub obstacle_lem :
      (e : Surroundings)
      → SurroundedByWords e
      → a % page_size_bytes ≡ 0
      → obstacle e a n ≡ clear
      → IsClear e a n
  unfolding obstacle
  obstacle_lem e w aligned free =
      let (k, rest) = or_else-clear _ _ free in
      let (d, rest') = or_else-clear _ _ rest in
      let (b, r) = or_else-clear _ _ rest' in
      record {
        aligned = aligned;
        kernel = kernel_lem e w.kernel.0 w.kernel.1 k;
        device_tree = block_lem _ _ w.device_tree.0 w.device_tree.1 d;
        bitmap = block_lem _ _ w.bitmap.0 w.bitmap.1 b;
        reserved_regions = reserved_lem e.regions w.regions r;
      }
