-- ===== src/Pmm/Boot/Policy.antt =====
-- rocinante/src/memory/pmm.cpp, `InitializeFromBootMemoryMap`, steps 1 to 5: which pages are free.
use walden.Base.{Bool, List, [], ap, arith, false, if◌then◌else◌, inl, inr, ltb, not, refl, true}
use walden.Base.{ℕ, ◌&&◌, ◌*◌, ◌+◌, ◌-◌, ◌<◌, ◌==◌, ◌↔◌, ◌∷◌, ◌≡◌, ◌≢◌, ◌⊎◌}
use walden.Base.Word.{word}
use walden.Boot.{BootMemoryRegion, RegionType, is_reserved, is_usable}
use walden.Pmm.{Pmm, is_page_used, mark_range_free, mark_range_used, page_size_bytes}
use walden.Pmm.Boot.{mark_pages, mark_regions}
use walden.Pmm.Boot.Marks.{Covers, Same, free_step, page, used_step}
use walden.Pmm.Invariant.{IsSpanned}
use walden.Pmm.Placement.{Surroundings}

-- Some region of the type whose end does not wrap has an address in common with the page at `a`.
pub InRegion : (RegionType → Bool) → List BootMemoryRegion → ℕ → Type 0
InRegion type [] a = ⊥
InRegion type (r ∷ rest) a =
    ((type r.region_type ≡ true) × Covers r.physical_base r.size_bytes a) ⊎ InRegion type rest a

-- Every region's base and size is a word.
unfoldable pub RegionsAreWords : List BootMemoryRegion → Type 0
RegionsAreWords [] = Unit
RegionsAreWords (r ∷ rest) = (r.physical_base < word) × (r.size_bytes < word) × RegionsAreWords rest

-- What a step does to the free pages of `s0`.
abbrev Frees : Pmm → (ℕ → Type 0) → Pmm → Pmm → Type 0
Frees s0 P s t =
    Same s0 t
    × ((j : ℕ)
        → j < s0.page_count
        → (is_page_used t j ≡ false) ↔ ((is_page_used s j ≡ false) ⊎ P j))

abbrev TakesAway : Pmm → (ℕ → Type 0) → Pmm → Pmm → Type 0
TakesAway s0 P s t =
    Same s0 t
    × ((j : ℕ)
        → j < s0.page_count
        → (is_page_used t j ≡ false) ↔ ((is_page_used s j ≡ false) × ¬ P j))

or_trans : {A B C P Q : Type 0} → C ↔ (B ⊎ Q) → B ↔ (A ⊎ P) → C ↔ (A ⊎ (P ⊎ Q))
or_trans (f, g) (f', g') = (
  λ c. elim (f c) [
    | inl b ↦ elim (f' b) [ inl a ↦ inl a | inr p ↦ inr (inl p) ]
    | inr q ↦ inr (inr q)
  ],
  elim [
    | inl a ↦ g (inl (g' (inl a)))
    | inr (inl p) ↦ g (inl (g' (inr p)))
    | inr (inr q) ↦ g (inr q)
  ],
)

and_trans : {A B C P Q : Type 0} → C ↔ (B × ¬ Q) → B ↔ (A × ¬ P) → C ↔ (A × ¬ (P ⊎ Q))
and_trans (f, g) (f', g') = (
  λ c. let (b, nq) = f c in let (a, np) = f' b in (a, elim [ inl p ↦ np p | inr q ↦ nq q ]),
  λ (a, n). g (g' (a, λ p. n (inl p)), λ q. n (inr q)),
)

module _ (s0 : Pmm) (v : IsSpanned s0) where
  module _ (s : Pmm) (same : Same s0 s) (b n : ℕ) (p : b < word) (q : n < word) where
    free_block :
        (test : Bool)
        → Frees s0
            (λ j. (test ≡ true) × Covers b n (page s0 v j))
            s
            (if test then mark_range_free s b n else s)
    free_block true =
        let (kept, one) = free_step s0 v s same b n p q in
        (
          kept,
          λ j h. (
            λ e. elim ((one j h).0 e) [ inl f ↦ inl f | inr c ↦ inr (refl, c) ],
            elim [ inl f ↦ (one j h).1 (inl f) | inr (_, c) ↦ (one j h).1 (inr c) ],
          ),
        )
    free_block false =
        (same, λ j h. (λ e. inl e, elim [ inl e ↦ e | inr (e, _) ↦ ground (arith, e) ]))

    -- A block that is marked if the test holds.
    block :
        (test : Bool) (P : ℕ → Type 0)
        → ((j : ℕ) → P j ↔ ((test ≡ true) × Covers b n (page s0 v j)))
        → TakesAway s0 P s (if test then mark_range_used s b n else s)
    block true P iff =
        let (kept, one) = used_step s0 v s same b n p q in
        (
          kept,
          λ j h. (
            λ e. let (f, other) = (one j h).0 e in (f, λ x. other ((iff j).0 x).1),
            λ (f, other). (one j h).1 (f, λ c. other ((iff j).1 (refl, c))),
          ),
        )
    block false P iff = (same, λ j h. (λ e. (e, λ x. ground (arith, (iff j).0 x)), λ (e, _). e))

  usable_regions :
      (regions : List BootMemoryRegion)
      → RegionsAreWords regions
      → (s : Pmm) → Same s0 s
      → Frees s0
          (λ j. InRegion is_usable regions (page s0 v j))
          s
          (mark_regions is_usable mark_range_free regions s)
  unfolding mark_regions InRegion RegionsAreWords
  usable_regions [] w s same = (same, λ j h. (λ e. inl e, elim [ inl e ↦ e | inr n ↦ absurd n ]))
  usable_regions (r ∷ rest) (p, q, w) s same =
      let (kept, one) =
        free_block s same r.physical_base r.size_bytes p q (is_usable r.region_type) in
      let (kept', more) = usable_regions rest w _ kept in
      (kept', λ j h. or_trans (more j h) (one j h))

  reserved_regions :
      (regions : List BootMemoryRegion)
      → RegionsAreWords regions
      → (s : Pmm) → Same s0 s
      → TakesAway s0
          (λ j. InRegion is_reserved regions (page s0 v j))
          s
          (mark_regions is_reserved mark_range_used regions s)
  unfolding mark_regions InRegion RegionsAreWords
  reserved_regions [] w s same = (same, λ j h. (λ e. (e, λ n. n), λ (e, _). e))
  reserved_regions (r ∷ rest) (p, q, w) s same =
      let P = λ (j : ℕ).
        (is_reserved r.region_type ≡ true) × Covers r.physical_base r.size_bytes (page s0 v j) in
      let (kept, one) =
        block s same r.physical_base r.size_bytes p q (is_reserved r.region_type) P
          (λ j. (λ x. x, λ x. x)) in
      let (kept', more) = reserved_regions rest w _ kept in
      (kept', λ j h. and_trans (more j h) (one j h))

-- What keeps the page at `a` from being free: ranges whose ends do not wrap, and a device tree that is not
-- at address 0.
abbrev pub Withheld : Surroundings → Pmm → ℕ → Type 0
Withheld e s a =
    ((((InRegion is_reserved e.regions a
            ⊎ Covers e.kernel_physical_base (e.kernel_physical_end - e.kernel_physical_base) a)
          ⊎ ((e.device_tree_physical_base ≢ 0)
              × Covers e.device_tree_physical_base e.device_tree_size_bytes a))
        ⊎ Covers s.bitmap_physical_base s.bitmap_size_bytes a)
      ⊎ Covers s.frame_metadata_physical_base s.frame_metadata_size_bytes a)
    ⊎ Covers 0 page_size_bytes a

pub record AreWords (e : Surroundings) (s : Pmm) : Type 0 where
  pub regions : RegionsAreWords e.regions
  pub kernel : (e.kernel_physical_base < word) × (e.kernel_physical_end < word)
  pub device_tree : (e.device_tree_physical_base < word) × (e.device_tree_size_bytes < word)
  pub bitmap : (s.bitmap_physical_base < word) × (s.bitmap_size_bytes < word)
  pub metadata : (s.frame_metadata_physical_base < word) × (s.frame_metadata_size_bytes < word)

from_usable :
    {A U W : Type 0} {x y : Bool}
    → x ≡ true
    → A ↔ ((y ≡ false) × ¬ W)
    → (y ≡ false) ↔ ((x ≡ false) ⊎ U)
    → A ↔ (U × ¬ W)
from_usable used (f, g) (f', g') = (
  λ a. let (e, n) = f a in (elim (f' e) [ inl free ↦ ground (arith, free, used) | inr u ↦ u ], n),
  λ (u, n). g (g' (inr u), n),
)

module _ (e : Surroundings) (s0 : Pmm) (v : IsSpanned s0) (w : AreWords e s0) (s : Pmm)
    (same : Same s0 s) where
  kernel_block :
      TakesAway s0
        (λ j.
          Covers e.kernel_physical_base
            (e.kernel_physical_end - e.kernel_physical_base)
            (page s0 v j))
        s
        (if ltb e.kernel_physical_base e.kernel_physical_end
          then mark_range_used s e.kernel_physical_base
              (e.kernel_physical_end - e.kernel_physical_base)
          else s)
  kernel_block =
      block s0 v s same e.kernel_physical_base (e.kernel_physical_end - e.kernel_physical_base)
        w.kernel.0 (omega (arith, w.kernel)) (ltb e.kernel_physical_base e.kernel_physical_end)
        (λ j.
          Covers e.kernel_physical_base (e.kernel_physical_end - e.kernel_physical_base)
            (page s0 v j))
        (λ j. (λ c. (ground (arith, c), c), λ (_, c). c))

  device_tree_block :
      TakesAway s0
        (λ j.
          (e.device_tree_physical_base ≢ 0)
          × Covers e.device_tree_physical_base e.device_tree_size_bytes (page s0 v j))
        s
        (if not (e.device_tree_physical_base == 0) && not (e.device_tree_size_bytes == 0)
          then mark_range_used s e.device_tree_physical_base e.device_tree_size_bytes
          else s)
  device_tree_block =
      block s0 v s same e.device_tree_physical_base e.device_tree_size_bytes w.device_tree.0
        w.device_tree.1
        (not (e.device_tree_physical_base == 0) && not (e.device_tree_size_bytes == 0))
        (λ j.
          (e.device_tree_physical_base ≢ 0)
          × Covers e.device_tree_physical_base e.device_tree_size_bytes (page s0 v j))
        (λ j.
          (λ (there, c). (ground (arith, there, c), c), λ (there, c). (ground (arith, there), c)))

module _ (s0 : Pmm) (v : IsSpanned s0) where
  -- A block of `s0`'s own, read from `s`.
  own_block :
      (base size : Pmm → ℕ) (s : Pmm)
      → Same s0 s
      → base s ≡ base s0
      → size s ≡ size s0
      → base s0 < word
      → size s0 < word
      → TakesAway s0
          (λ j. Covers (base s0) (size s0) (page s0 v j))
          s
          (if not (size s == 0) then mark_range_used s (base s) (size s) else s)
  own_block base size s same e f p q =
      rw (e, f)
        (block s0 v s same (base s0) (size s0) p q (not (size s0 == 0))
          (λ j. Covers (base s0) (size s0) (page s0 v j))
          (λ j. (λ c. (ground (arith, c), c), λ (_, c). c)))

  bitmap_block :
      s0.bitmap_physical_base < word
      → s0.bitmap_size_bytes < word
      → (s : Pmm) → Same s0 s
      → TakesAway s0
          (λ j. Covers s0.bitmap_physical_base s0.bitmap_size_bytes (page s0 v j))
          s
          (if not (s.bitmap_size_bytes == 0)
            then mark_range_used s s.bitmap_physical_base s.bitmap_size_bytes
            else s)
  bitmap_block p q s same =
      own_block (λ u. u.bitmap_physical_base) (λ u. u.bitmap_size_bytes) s same
        (ap (λ (u : Pmm). u.bitmap_physical_base) same) (ap (λ (u : Pmm). u.bitmap_size_bytes) same)
        p q

  metadata_block :
      s0.frame_metadata_physical_base < word
      → s0.frame_metadata_size_bytes < word
      → (s : Pmm) → Same s0 s
      → TakesAway s0
          (λ j. Covers s0.frame_metadata_physical_base s0.frame_metadata_size_bytes (page s0 v j))
          s
          (if not (s.frame_metadata_size_bytes == 0)
            then mark_range_used s s.frame_metadata_physical_base s.frame_metadata_size_bytes
            else s)
  metadata_block p q s same =
      own_block (λ u. u.frame_metadata_physical_base) (λ u. u.frame_metadata_size_bytes) s same
        (ap (λ (u : Pmm). u.frame_metadata_physical_base) same)
        (ap (λ (u : Pmm). u.frame_metadata_size_bytes) same) p q

-- Steps 1 to 5 of the initialisation, on a manager with its bitmap and a span of whole pages that are all
-- used, where the boot environment's numbers are words: afterwards a page is free exactly if a usable
-- region has an address in common with it and nothing withholds it: no reserved region, nor the kernel
-- image, the device tree, the bitmap, the metadata or the page of address 0. Only the bitmap changes. A
-- region or block, usable or reserved, counts here only if its base and size add up to less than 2 ^ 64,
-- since the code ignores one whose end wraps; the device tree counts only if its base is not 0.
pub mark_pages-free :
    (e : Surroundings) (s : Pmm)
    → (v : IsSpanned s) → AreWords e s
    → ((j : ℕ) → j < s.page_count → is_page_used s j ≡ true)
    → Same s (mark_pages e s)
      × ((j : ℕ)
          → j < s.page_count
          → (is_page_used (mark_pages e s) j ≡ false) ↔ (
              InRegion is_usable e.regions (s.tracked_physical_base + j * page_size_bytes)
              × ¬ Withheld e s (s.tracked_physical_base + j * page_size_bytes)))
unfolding mark_pages
mark_pages-free e s v w used =
    let (k1, usable) = usable_regions s v e.regions w.regions s refl in
    let (k2, no_reserved) = reserved_regions s v e.regions w.regions _ k1 in
    let (k3, no_kernel) = kernel_block e s v w _ k2 in
    let (k4, no_tree) = device_tree_block e s v w _ k3 in
    let (k5, no_bitmap) = bitmap_block s v w.bitmap.0 w.bitmap.1 _ k4 in
    let (k6, no_metadata) = metadata_block s v w.metadata.0 w.metadata.1 _ k5 in
    let (k7, no_zero) = used_step s v _ k6 0 page_size_bytes (omega arith) (omega arith) in
    (
      k7,
      λ j h.
          let withheld = and_trans (no_zero j h) (
            and_trans (no_metadata j h) (
              and_trans (no_bitmap j h)
                (and_trans (no_tree j h) (and_trans (no_kernel j h) (no_reserved j h))))) in
          from_usable (used j h) withheld (usable j h),
    )
