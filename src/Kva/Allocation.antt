-- ===== src/Kva/Allocation.antt =====
-- rocinante/src/memory/kernel_va_allocator.h, `Allocate`: the results that it may have.
use mathlib.Core.List.{append_assoc}
use native.Mathlib.Nat.{div-add-mod, mod-eq_of_lt, mod-lt, mul-le-mul_left, mul-mod_right}
use walden.Base.{==→≡, ==→≢, Bool, Bool-cases, List, Option, [], arith, false, if◌then◌else◌, inl}
use walden.Base.{inr, length, length-append, ltb, ltb→le, ltb→lt, none, not, refl, some, subst}
use walden.Base.{suc, sym, true, ℕ, ◌%◌, ◌&&◌, ◌*◌, ◌++◌, ◌+◌, ◌-◌, ◌/◌, ◌<◌, ◌==◌, ◌||◌, ◌∙◌}
use walden.Base.{◌∷◌, ◌≡◌, ◌≢◌, ◌≤◌, ◌⊎◌}
use walden.Base.Word.{add64, word}
use walden.Kva.{Allocator, Range, align_up, allocate, allocate_at, allocate_from}
use walden.Kva.{is_valid_non_empty, max_free_ranges}
use walden.Kva.Ranges.{Canonical, Canonical-cut, Canonical-middle, block_cases, covers}
use walden.Kva.Ranges.{covers-cut, covers-middle, cut, insert_pieces_lem}
use walden.Kva.Ranges.{remove_free_range_at-append, within}

-- An alignment of 0 asks for nothing.
abbrev pub Aligned : ℕ → ℕ → Type 0
Aligned a alignment = (alignment ≡ 0) ⊎ (a % alignment ≡ 0)

next_multiple : (a v : ℕ) → 0 < a → (v + (a - v % a)) % a ≡ 0
next_multiple a v h =
    let e : v + (a - v % a) ≡ a * (v / a + 1) =
      omega (arith, div-add-mod v a, mod-lt v {m = a} h) in
    rw e (mul-mod_right _ _)

next_multiple-le : (a v c : ℕ) → 0 < a → v % a ≢ 0 → c % a ≡ 0 → v ≤ c → v + (a - v % a) ≤ c
next_multiple-le a v c h r e le =
    let more : v / a < c / a = grind (arith, div-add-mod v a, div-add-mod c a) in
    omega (arith, div-add-mod v a, div-add-mod c a, mul-le-mul_left a more, mod-lt v {m = a} h)

-- What `AlignUp` may return: the least aligned address from `value` on, or, where that is no word,
-- a smaller number.
abbrev pub AlignsUp : ℕ → ℕ → ℕ → Type 0
AlignsUp value alignment result =
    (value ≤ result)
      × Aligned result alignment
      × ((c : ℕ) → Aligned c alignment → value ≤ c → result ≤ c)
    ⊎ (result < value) × ((c : ℕ) → Aligned c alignment → value ≤ c → word ≤ c)

align_up_next :
    (value alignment : ℕ)
    → value < word
    → alignment < word
    → alignment ≢ 0
    → value % alignment ≢ 0
    → AlignsUp value alignment (add64 value (alignment - value % alignment))
align_up_next value a p q nz rem =
    let pos : 0 < a = omega arith in
    let small = mod-lt value {m = a} pos in
    let multiple = next_multiple a value pos in
    let least : (c : ℕ) → Aligned c a → value ≤ c → value + (a - value % a) ≤ c = λ c. elim [
      | inl never ↦ λ le. absurd (omega arith)
      | inr k ↦ next_multiple-le a value c pos rem k
    ] in
    elim (Bool-cases (ltb (value + (a - value % a)) word)) [
      | inl fits ↦ rw (mod-eq_of_lt (ltb→lt _ word fits)) (inl (omega arith, inr multiple, least))
      | inr wraps ↦
          let past = ltb→le _ word wraps in inr (omega arith, λ c k le. omega (arith, least c k le))
    ]

pub align_up_cases :
    (value alignment : ℕ)
    → value < word
    → alignment < word
    → AlignsUp value alignment (align_up value alignment)
unfolding align_up
align_up_cases value alignment p q = elim (Bool-cases (alignment == 0)) [
  | inl z ↦ rw z (inl (omega arith, inl (==→≡ _ 0 z), λ c e le. le))
  | inr nz ↦ elim (Bool-cases ((value % alignment) == 0)) [
    | inl e ↦ rw (nz, e) (inl (omega arith, inr (==→≡ _ 0 e), λ c k le. le))
    | inr e ↦ rw (nz, e) (align_up_next value alignment p q (==→≢ _ 0 nz) (==→≢ _ 0 e))
  ]
]

-- A well-formed allocator: its free ranges are in order inside the managed range, with gaps between
-- them, and within the array.
pub record IsWellFormed (s : Allocator) : Type 0 where
  pub canonical : Canonical s.managed_base s.managed_limit s.free_ranges
  pub limit_word : s.managed_limit < word
  pub room : length s.free_ranges ≤ max_free_ranges

-- `t` is `s` with the aligned block [b, b + size), free before, taken out.
pub record Grants (s : Allocator) (size alignment b : ℕ) (t : Allocator) : Type 0 where
  pub aligned : Aligned b alignment
  pub was_free : (x : ℕ) → within b (b + size) x ≡ true → covers s.free_ranges x ≡ true
  pub free_after :
      (x : ℕ) → covers t.free_ranges x ≡ (covers s.free_ranges x && not (within b (b + size) x))
  pub managed : (s.managed_base ≤ b) × (b + size ≤ s.managed_limit)
  pub same_bounds :
      (t.initialized ≡ s.initialized)
      × (t.managed_base ≡ s.managed_base)
      × (t.managed_limit ≡ s.managed_limit)
  pub well_formed : IsWellFormed t

-- No aligned block of free addresses is as long as `size`.
abbrev pub NoBlock : ℕ → ℕ → List Range → Type 0
NoBlock size alignment ranges =
    (c : ℕ)
    → Aligned c alignment
    → ¬ ((x : ℕ) → within c (c + size) x ≡ true → covers ranges x ≡ true)

abbrev pub Outcome : Allocator → ℕ → ℕ → List Range → Option ℕ × Allocator → Type 0
Outcome s size alignment ranges out =
    ((b : ℕ) × (t : Allocator) × (out ≡ (some b, t)) × Grants s size alignment b t)
    ⊎ (out ≡ (none, s)) × ((length s.free_ranges ≡ max_free_ranges) ⊎ NoBlock size alignment ranges)

module _ (s : Allocator) (v : IsWellFormed s) (pre : List Range) (r : Range) (rest : List Range)
    (split : s.free_ranges ≡ pre ++ (r ∷ rest)) where
  split-Canonical : Canonical s.managed_base s.managed_limit (pre ++ (r ∷ rest))
  split-Canonical = subst (Canonical s.managed_base s.managed_limit) split v.canonical

  middle :
      (s.managed_base ≤ r.base)
      × (r.base < r.limit)
      × (r.limit ≤ s.managed_limit)
      × Canonical (suc r.limit) s.managed_limit rest
  middle = Canonical-middle s.managed_base s.managed_limit pre r rest split-Canonical

  allocate_at_lem :
      (base end : ℕ)
      → allocate_at s (length pre) r base end ≡ (
          if ltb max_free_ranges (length (pre ++ cut r base end rest))
          then (none, s)
          else (some base, record s { free_ranges = pre ++ cut r base end rest }))
  unfolding allocate_at
  allocate_at_lem base end = ground (
    arith,
    split,
    v.room,
    remove_free_range_at-append pre r rest,
    insert_pieces_lem pre (record { base = r.base; limit = base })
        (record { base = end; limit = r.limit }) rest,
    length-append pre rest,
    length-append pre (r ∷ rest),
    length-append pre (cut r base end rest),
  )

  allocate_at_cases :
      (size alignment base : ℕ)
      → 0 < size
      → r.base ≤ base
      → base + size ≤ r.limit
      → Aligned base alignment
      → Outcome s size alignment (r ∷ rest) (allocate_at s (length pre) r base (base + size))
  allocate_at_cases size alignment base pos above below e =
      let end = base + size in
      elim (Bool-cases (ltb max_free_ranges (length (pre ++ cut r base end rest)))) [
        | inl full ↦
            rw (allocate_at_lem base end, full) (inr (refl, inl (at_capacity base end full)))
        | inr fits ↦
            rw (allocate_at_lem base end, fits)
              (inl
                (base, record s { free_ranges = pre ++ cut r base end rest }, refl, granted fits))
      ]
    where
      at_capacity :
          (b e : ℕ)
          → ltb max_free_ranges (length (pre ++ cut r b e rest)) ≡ true
          → length s.free_ranges ≡ max_free_ranges
      at_capacity b e full =
          ground
            (arith, split, v.room, length-append pre (r ∷ rest), length-append pre (cut r b e rest))

      granted :
          ltb max_free_ranges (length (pre ++ cut r base (base + size) rest)) ≡ false
          → Grants s size alignment base
              (record s { free_ranges = pre ++ cut r base (base + size) rest })
      granted fits = record {
        aligned = e;
        was_free = λ x h. rw split (covers-middle pre r rest x (ground arith));
        free_after = λ x. rw split (
            covers-cut r base (base + size) rest above (omega arith) below s.managed_base
              s.managed_limit x pre split-Canonical);
        managed = (omega (arith, middle.0), omega (arith, middle.2));
        same_bounds = (refl, refl, refl);
        well_formed = record {
          canonical =
              Canonical-cut r base (base + size) rest above (omega arith) below s.managed_base
                s.managed_limit pre split-Canonical;
          limit_word = v.limit_word;
          room = ltb→le max_free_ranges _ fits;
        };
      }

  -- A range that the block found by `AlignUp` does not fit holds no aligned block.
  fits_of_block :
      (size alignment c : ℕ)
      → AlignsUp r.base alignment (align_up r.base alignment)
      → Aligned c alignment
      → r.base ≤ c
      → c + size ≤ r.limit
      → align_up r.base alignment + size ≤ r.limit × (r.base ≤ align_up r.base alignment)
  fits_of_block size alignment c (inl found) e above below = omega (arith, found.2 c e above)
  fits_of_block size alignment c (inr over) e above below =
      absurd (omega (arith, over.1 c e above, middle.2, v.limit_word))

pub align_up-lt : (value alignment : ℕ) → value < word → align_up value alignment < word
unfolding align_up
align_up-lt value alignment h = ground arith

-- The tests of the loop's body, at a range of the allocator.
abbrev skips : Range → ℕ → ℕ → Bool
skips r size alignment =
    let base = align_up r.base alignment in
    let end = add64 base size in
    not (is_valid_non_empty r) || ltb end base || ltb base r.base || ltb r.limit end

module _ (s : Allocator) (v : IsWellFormed s) (size alignment : ℕ) (pos : 0 < size)
    (size_word : size < word) (alignment_word : alignment < word) where
  skips-NoBlock :
      (pre : List Range) (r : Range) (rest : List Range)
      → s.free_ranges ≡ pre ++ (r ∷ rest)
      → skips r size alignment ≡ true
      → NoBlock size alignment rest
      → NoBlock size alignment (r ∷ rest)
  skips-NoBlock pre r rest split skip later c e free =
      let m = middle s v pre r rest split in
      let found = align_up_cases r.base alignment (omega (arith, m, v.limit_word)) alignment_word in
      elim (block_cases s.managed_base s.managed_limit r rest c size m pos free) [
        | inl (above, below) ↦
            let fit = fits_of_block s v pre r rest split size alignment c found e above below in
            absurd (ground (arith, fit, m, v.limit_word))
        | inr beyond ↦ later c e beyond
      ]

  fits_of_test :
      (pre : List Range) (r : Range) (rest : List Range)
      → s.free_ranges ≡ pre ++ (r ∷ rest)
      → skips r size alignment ≡ false
      → let base = align_up r.base alignment in
        (add64 base size ≡ base + size)
        × (r.base ≤ base)
        × (base + size ≤ r.limit)
        × Aligned base alignment
  fits_of_test pre r rest split kept =
      let m = middle s v pre r rest split in
      let base_word = align_up-lt r.base alignment (omega (arith, m, v.limit_word)) in
      elim (align_up_cases r.base alignment (omega (arith, m, v.limit_word)) alignment_word) [
        | inl (above, aligned, least) ↦
            let ends : add64 (align_up r.base alignment) size ≡ align_up r.base alignment + size =
              ground (arith, kept) in
            (ends, above, ground (arith, kept, ends), aligned)
        | inr (wraps, over) ↦ absurd (ground (arith, kept))
      ]

  allocate_from_cases :
      (pre rest : List Range)
      → s.free_ranges ≡ pre ++ rest
      → Outcome s size alignment rest (allocate_from s size alignment (length pre) rest)
  unfolding allocate_from covers
  allocate_from_cases pre [] split = inr (refl, inr (λ c e free. cc (free c (ground arith))))
  allocate_from_cases pre (r ∷ rest) split =
      let next_index : length pre + 1 ≡ length (pre ++ (r ∷ [])) =
        omega (arith, length-append pre (r ∷ [])) in
      let later =
        allocate_from_cases (pre ++ (r ∷ [])) rest (split ∙ sym (append_assoc pre (r ∷ []) rest)) in
      elim (Bool-cases (skips r size alignment)) [
        | inl skip ↦
            rw (skip, next_index)
              (elim later [
                | inl granted ↦ inl granted
                | inr (same, inl full) ↦ inr (same, inl full)
                | inr (same, inr missing) ↦
                    inr (same, inr (skips-NoBlock pre r rest split skip missing))
              ])
        | inr kept ↦
            let fit = fits_of_test pre r rest split kept in
            rw (kept, fit.0)
              (allocate_at_cases s v pre r rest split size alignment (align_up r.base alignment) pos
                fit.1 fit.2 fit.3)
      ]

-- The early return on an empty array is what the loop would do.
allocate-eq-loop :
    (s : Allocator) (size alignment : ℕ) (ranges : List Range)
    → (if length ranges == 0 then (none, s) else allocate_from s size alignment 0 ranges)
      ≡ allocate_from s size alignment 0 ranges
unfolding allocate_from
allocate-eq-loop s size alignment [] = refl
allocate-eq-loop s size alignment (r ∷ rest) = ground arith

-- On a well-formed, initialised allocator `Allocate` of a positive size returns an aligned block, free before,
-- takes exactly it out of the free addresses and keeps the allocator well formed; or it changes
-- nothing, and then the array is full or no aligned block of that size is free.
pub allocate_cases :
    (s : Allocator) (size alignment : ℕ)
    → IsWellFormed s
    → s.initialized ≡ true
    → 0 < size
    → size < word
    → alignment < word
    → Outcome s size alignment s.free_ranges (allocate s size alignment)
unfolding allocate
allocate_cases s size alignment v live pos p q =
    let loop : allocate s size alignment ≡ allocate_from s size alignment 0 s.free_ranges =
      ground (arith, allocate-eq-loop s size alignment s.free_ranges) in
    rw loop (allocate_from_cases s v size alignment pos p q [] s.free_ranges refl)
