-- ===== src/Pmm/RoundTrip.antt =====
-- rocinante/src/memory/pmm.cpp: `AllocatePage` and `FreePage` together.
use walden.Base.{==→≡, Bool-cases, Option, ap, arith, inl, inr, some, subst, sym, true, ℕ, ◌%◌}
use walden.Base.{◌*◌, ◌+◌, ◌<◌, ◌==◌, ◌∙◌, ◌≡◌, ◌≢◌, ◌≤◌, ◌⊎◌}
use walden.Pmm.{Pmm, allocate_page, free_page, is_page_used, page_frame_number_from_physical}
use walden.Pmm.{page_index_to_physical, page_size_bytes}
use walden.Pmm.Address.{number-physical, page_index_to_physical_lem}
use walden.Pmm.Allocate.{Takes, allocate_page_cases, fresh_metadata, from_cursor}
use walden.Pmm.Invariant.{IsWellFormed}
use walden.Pmm.References.{given_back, given_back-Gives, release_last}

-- What a successful `AllocatePage` says of the state.
allocated :
    (s t : Pmm) (p : ℕ)
    → IsWellFormed s
    → allocate_page s ≡ (some p, t)
    → (i : ℕ) × (p ≡ page_index_to_physical s i) × Takes s i t
allocated s t p v e = elim (allocate_page_cases s v) [
  | inl (k, done, takes, _) ↦
      let i = from_cursor s v k in
      (
        i,
        ground (arith, e, done),
        subst (Takes s i) (sym (ap (λ (r : Option ℕ × Pmm). r.1) (sym e ∙ done))) takes,
      )
  | inr (stopped, _) ↦ ground (arith, e, stopped)
]

number_of :
    (s : Pmm)
    → IsWellFormed s
    → (i p : ℕ) → i < s.page_count
    → p ≡ s.tracked_physical_base + i * page_size_bytes
    → page_frame_number_from_physical s p ≡ some i
number_of s v i p h at =
    subst (λ q. page_frame_number_from_physical s q ≡ some i)
      (page_index_to_physical_lem s v i h ∙ sym at) (number-physical s v i h)

-- On a well-formed manager, where `AllocatePage` returns an address, `FreePage` of that address then
-- succeeds: every page's bit and the number of free pages are what they were, every other page's
-- metadata too, and the manager stays well-formed.
pub free-allocate :
    (s t : Pmm) (p : ℕ)
    → IsWellFormed s
    → allocate_page s ≡ (some p, t)
    → (u : Pmm) × (free_page t p ≡ (true, u))
      × ((j : ℕ) → is_page_used u j ≡ is_page_used s j)
      × (u.free_page_count ≡ s.free_page_count)
      × ((j : ℕ) → page_index_to_physical s j ≢ p → u.frame_metadata j ≡ s.frame_metadata j)
      × IsWellFormed u
unfolding free_page
free-allocate s t p v e =
    let (i, at, takes) = allocated s t p v e in
    let w = takes.well_formed in
    let lt : i < t.page_count = omega (arith, takes.in_range, takes.same_span) in
    let found =
      number_of t w i p lt
        (omega (arith, page_index_to_physical_lem s v i takes.in_range, at, takes.same_span)) in
    let used : is_page_used t i ≡ true = ground (arith, takes.used_after i) in
    let fresh : t.frame_metadata i ≡ fresh_metadata = ground (arith, takes.metadata_after i) in
    let gives = given_back-Gives t w i lt used in
    (
      given_back t w i lt used,
      release_last t w p i lt used found (ap (λ m. m.ref_count) fresh)
          (ap (λ m. m.map_count) fresh),
      λ j. ground (arith, gives.used_after j, takes.used_after j, takes.was_free, ==→≡ i j),
      omega (arith, gives.one_more, takes.one_fewer),
      λ j other. elim (Bool-cases (i == j)) [
        | inl same ↦ absurd (other (sym (ap (page_index_to_physical s) (==→≡ i j same)) ∙ sym at))
        | inr apart ↦ ground (arith, gives.metadata_after j, takes.metadata_after j, apart)
      ],
      gives.well_formed,
    )

≢→<⊎< : (i j : ℕ) → i ≢ j → i < j ⊎ j < i
≢→<⊎< i j apart = ground (arith, apart)

-- A page of the span is aligned and lies inside it.
page_of :
    (s : Pmm)
    → IsWellFormed s
    → (p i : ℕ) → i < s.page_count
    → p ≡ s.tracked_physical_base + i * page_size_bytes
    → (p % page_size_bytes ≡ 0)
      × (s.tracked_physical_base ≤ p)
      × (p + page_size_bytes ≤ s.tracked_physical_limit)
page_of s v p i h at =
    (omega (arith, at, v.base_aligned), omega (arith, at), omega (arith, at, h, v.span))

-- Two pages that `AllocatePage` of a well-formed manager returns one after the other, with no release
-- between, have no address in common, and both are whole, aligned pages of the manager's span.
pub allocate-allocate :
    (s t u : Pmm) (p q : ℕ)
    → IsWellFormed s
    → allocate_page s ≡ (some p, t)
    → allocate_page t ≡ (some q, u)
    → (p + page_size_bytes ≤ q ⊎ q + page_size_bytes ≤ p)
      × (p % page_size_bytes ≡ 0)
      × (s.tracked_physical_base ≤ p)
      × (p + page_size_bytes ≤ s.tracked_physical_limit)
      × (q % page_size_bytes ≡ 0)
      × (s.tracked_physical_base ≤ q)
      × (q + page_size_bytes ≤ s.tracked_physical_limit)
allocate-allocate s t u p q v e f =
    let (i, at, takes) = allocated s t p v e in
    let (j, at', takes') = allocated t u q takes.well_formed f in
    let p_at : p ≡ s.tracked_physical_base + i * page_size_bytes =
      at ∙ page_index_to_physical_lem s v i takes.in_range in
    let q_at : q ≡ s.tracked_physical_base + j * page_size_bytes =
      at'
      ∙ page_index_to_physical_lem t takes.well_formed j takes'.in_range
      ∙ ap (λ b. b + j * page_size_bytes) takes.same_span.0 in
    let j_lt : j < s.page_count = omega (arith, takes'.in_range, takes.same_span) in
    let apart : i ≢ j = ground (arith, takes.used_after j, takes'.was_free) in
    let (p_aligned, p_base, p_limit) = page_of s v p i takes.in_range p_at in
    let (q_aligned, q_base, q_limit) = page_of s v q j j_lt q_at in
    (
      elim (≢→<⊎< i j apart) [
        | inl less ↦ inl (omega (arith, p_at, q_at, less))
        | inr more ↦ inr (omega (arith, p_at, q_at, more))
      ],
      p_aligned,
      p_base,
      p_limit,
      q_aligned,
      q_base,
      q_limit,
    )
