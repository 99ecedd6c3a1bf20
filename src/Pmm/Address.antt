-- ===== src/Pmm/Address.antt =====
-- rocinante/src/memory/pmm.cpp: addresses and page frame numbers.
use walden.Base.{Bool, Bool-cases, ap, arith, inl, inr, leb, ltb, ltb→lt, none, not, refl, some}
use walden.Base.{some-injective, subst, sym, ℕ, ◌%◌, ◌*◌, ◌+◌, ◌<◌, ◌==◌, ◌||◌, ◌↔◌, ◌∙◌, ◌≡◌}
use walden.Base.{◌≢◌, ◌≤◌, ◌⊎◌}
use walden.Paging.Tables.Walks.{frame}
use walden.Pmm.{Pmm, frame_index, page_frame_number_from_physical, page_index_to_physical}
use walden.Pmm.{page_size_bytes, physical_from_page_frame_number, physical_to_page_index}
use walden.Pmm.Invariant.{IsWellFormed}

-- The tests that an address must pass to have a frame.
abbrev rejected : Pmm → ℕ → Bool
rejected s p =
    not s.initialized
    || not ((p % page_size_bytes) == 0)
    || ltb p s.tracked_physical_base
    || leb s.tracked_physical_limit p
    || leb s.page_count (physical_to_page_index s p)

module _ (s : Pmm) (v : IsWellFormed s) where
  open v use {live, base_aligned, span, limit_word, metadata_there}

  pub page_index_to_physical_lem :
      (i : ℕ)
      → i < s.page_count
      → page_index_to_physical s i ≡ s.tracked_physical_base + i * page_size_bytes
  unfolding page_index_to_physical
  page_index_to_physical_lem i h = omega arith

  pub frame_index_lem : (p : ℕ) → frame_index s p ≡ page_frame_number_from_physical s p
  unfolding frame_index
  frame_index_lem p = ground arith

  -- A page's address has its number.
  pub number-physical :
      (i : ℕ)
      → i < s.page_count
      → page_frame_number_from_physical s (page_index_to_physical s i) ≡ some i
  unfolding page_frame_number_from_physical physical_to_page_index
  number-physical i h = rw (page_index_to_physical_lem i h) (ground arith)

  -- An address has a number exactly when it is a page's.
  pub number_cases :
      (p : ℕ)
      → ((i : ℕ) × (page_frame_number_from_physical s p ≡ some i)
          × (i < s.page_count)
          × (p ≡ s.tracked_physical_base + i * page_size_bytes))
        ⊎ (page_frame_number_from_physical s p ≡ none)
          × ((i : ℕ) → i < s.page_count → p ≢ s.tracked_physical_base + i * page_size_bytes)
  unfolding page_frame_number_from_physical physical_to_page_index
  number_cases p = elim (Bool-cases (rejected s p)) [
    | inl no_frame ↦
        rw no_frame
          (inr (refl, λ i h e. ground (arith, no_frame, live, base_aligned, span, limit_word)))
    | inr frame ↦ rw frame (
        inl (
          physical_to_page_index s p,
          refl,
          ground (arith, frame),
          ground (arith, frame, base_aligned, span, limit_word),
        ))
  ]

physical_of :
    (s : Pmm)
    → IsWellFormed s
    → (i : ℕ) → i < s.page_count
    → physical_from_page_frame_number s i ≡ some (s.tracked_physical_base + i * page_size_bytes)
unfolding physical_from_page_frame_number
physical_of s v i h = ground (arith, h, v.live, page_index_to_physical_lem s v i h)

physical_cases :
    (s : Pmm)
    → IsWellFormed s
    → (i : ℕ)
    → ((i < s.page_count)
        × (physical_from_page_frame_number s i
            ≡ some (s.tracked_physical_base + i * page_size_bytes)))
      ⊎ (s.page_count ≤ i) × (physical_from_page_frame_number s i ≡ none)
unfolding physical_from_page_frame_number
physical_cases s v i = elim (Bool-cases (ltb i s.page_count)) [
  | inl below ↦ inl (ltb→lt i s.page_count below, physical_of s v i (ltb→lt i s.page_count below))
  | inr above ↦ inr (ground (arith, above), ground (arith, above))
]

-- For a well-formed manager, PhysicalFromPageFrameNumber gives an address for a number exactly if the
-- number is below the number of pages, and that address is the base of the span plus the number times
-- 4096; and PageFrameNumberFromPhysical gives a number for an address exactly if the first gives the
-- address for that number.
pub number_round_trip :
    (s : Pmm)
    → IsWellFormed s
    → (i p : ℕ)
    → ((physical_from_page_frame_number s i ≡ some p)
        ↔ ((i < s.page_count) × (p ≡ s.tracked_physical_base + i * page_size_bytes)))
      × ((page_frame_number_from_physical s p ≡ some i)
          ↔ (physical_from_page_frame_number s i ≡ some p))
number_round_trip s v i p = (
  (
    λ e. elim (physical_cases s v i) [
      | inl (h, at) ↦ (h, some-injective _ _ (sym e ∙ at))
      | inr (h, nowhere) ↦ cc (e, nowhere)
    ],
    λ (h, at). physical_of s v i h ∙ ap some (sym at),
  ),
  (
    λ e. elim (number_cases s v p) [
      | inl (j, found, h, at) ↦
          let same : j ≡ i = some-injective _ _ (sym found ∙ e) in
          subst (λ k. physical_from_page_frame_number s k ≡ some p) same
            (physical_of s v j h ∙ ap some (sym at))
      | inr (missing, _) ↦ cc (e, missing)
    ],
    λ e. elim (physical_cases s v i) [
      | inl (h, at) ↦
          subst (λ q. page_frame_number_from_physical s q ≡ some i)
            (page_index_to_physical_lem s v i h ∙ some-injective _ _ (sym at ∙ e))
            (number-physical s v i h)
      | inr (h, nowhere) ↦ cc (e, nowhere)
    ],
  ),
)
