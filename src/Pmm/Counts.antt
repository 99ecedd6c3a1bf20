-- ===== src/Pmm/Counts.antt =====
-- rocinante/src/memory/pmm.cpp: `RetainPhysicalPage`, `IncrementMapCountForPhysical` and
-- `DecrementMapCountForPhysical`.
use walden.Base.{==→≡, Bool, Bool-cases, ap, arith, false, fun_ext, inl, inr, none, refl, some}
use walden.Base.{subst, suc, sym, true, update, ℕ, ◌%◌, ◌-◌, ◌<◌, ◌==◌, ◌||◌, ◌∙◌, ◌≡◌, ◌≢◌, ◌⊎◌}
use walden.Pmm.{PageFrameMetadata, Pmm, decrement_at, decrement_map_count_for_physical}
use walden.Pmm.{frame_index, increment_at, increment_map_count_for_physical, max_count}
use walden.Pmm.{page_frame_number_from_physical, page_size_bytes, physical_to_page_index}
use walden.Pmm.{release_at, release_physical_page, retain_at, retain_physical_page, set_metadata}
use walden.Pmm.{untracked, with_frame}
use walden.Pmm.Address.{frame_index_lem, number_cases}
use walden.Pmm.Invariant.{IsWellFormed}
use walden.Pmm.References.{set_metadata-IsWellFormed, with_mappings, with_references}

-- For a well-formed manager `RetainPhysicalPage` adds one reference to a page that has one already,
-- short of the greatest count, and the manager stays well-formed; else it is refused and changes
-- nothing, and the address is no page's, or its page has no reference or the greatest count of them.
pub retain_cases :
    (s : Pmm)
    → IsWellFormed s
    → (p : ℕ)
    → ((i n : ℕ) × (page_frame_number_from_physical s p ≡ some i)
        × ((s.frame_metadata i).ref_count ≡ suc n)
        × (retain_physical_page s p
            ≡ (true, record s { frame_metadata = with_references s i (suc (suc n)) }))
        × IsWellFormed (record s { frame_metadata = with_references s i (suc (suc n)) }))
      ⊎ (retain_physical_page s p ≡ (false, s))
        × ((i : ℕ)
            → page_frame_number_from_physical s p ≡ some i
            → (s.frame_metadata i).ref_count ≢ 0
            → (s.frame_metadata i).ref_count ≡ max_count)
unfolding retain_physical_page with_frame retain_at set_metadata
retain_cases s v p = elim (number_cases s v p) [
  | inl (i, found, lt, _) ↦
      elim (Bool-cases
        (((s.frame_metadata i).ref_count == 0) || ((s.frame_metadata i).ref_count == max_count))) [
          | inl stop ↦ inr (
            ground (arith, found, frame_index_lem s v p, stop),
            λ j e held. ground (arith, e, found, stop),
          )
          | inr more ↦
              let n = (s.frame_metadata i).ref_count - 1 in
              let m : PageFrameMetadata = record (s.frame_metadata i) { ref_count = suc (suc n) } in
              let same : suc n ≡ (s.frame_metadata i).ref_count = ground (arith, more) in
              inl (
                i,
                n,
                found,
                sym same,
                ground (arith, found, frame_index_lem s v p, more, same),
                set_metadata-IsWellFormed s v i m
                    (λ free. absurd (ground (arith, v.unreferenced i lt free, same)))
                    (ground (arith, more, v.counts i)) (v.counts i).1,
              )
        ]
  | inr (missing, _) ↦
      inr (ground (arith, missing, frame_index_lem s v p), λ i e. ground (arith, missing, e))
]

frame_index-metadata :
    (s : Pmm)
    → IsWellFormed s
    → (p : ℕ) (f : ℕ → PageFrameMetadata)
    → frame_index (record s { frame_metadata = f }) p ≡ page_frame_number_from_physical s p
unfolding frame_index page_frame_number_from_physical physical_to_page_index
frame_index-metadata s v p f = ground (arith, v.metadata_there)

release_lem :
    (s : Pmm) (p i n : ℕ)
    → frame_index s p ≡ some i
    → (s.frame_metadata i).ref_count ≡ suc (suc n)
    → release_physical_page s p
      ≡ (true, set_metadata s i (record (s.frame_metadata i) { ref_count = suc n }))
unfolding release_physical_page with_frame release_at
release_lem s p i n there more = rw there (ground (arith, more))

with_metadata :
    (s : Pmm) (f : ℕ → PageFrameMetadata)
    → ((j : ℕ) → f j ≡ s.frame_metadata j)
    → record s { frame_metadata = f } ≡ s
with_metadata s f h = ap (λ g. record s { frame_metadata = g }) (fun_ext h)

-- Two runs of one call have one state.
results : {r : Bool × Pmm} {t u : Pmm} → r ≡ (true, t) → r ≡ (true, u) → t ≡ u
results e f = ap (λ (r : Bool × Pmm). r.1) (sym e ∙ f)

-- Where `RetainPhysicalPage` succeeds on a well-formed manager, `ReleasePhysicalPage` of the same address
-- then succeeds and gives the first state back, also where the page is mapped.
pub retain-release :
    (s t : Pmm)
    → IsWellFormed s
    → (p : ℕ) → retain_physical_page s p ≡ (true, t)
    → release_physical_page t p ≡ (true, s)
unfolding set_metadata
retain-release s t v p e = elim (retain_cases s v p) [
  | inl (i, n, found, held, done, _) ↦
      let more = with_references s i (suc (suc n)) in
      let retained : Pmm = record s { frame_metadata = more } in
      let at : t ≡ retained = results e done in
      let there = frame_index-metadata s v p more ∙ found in
      let back = update more i (record (more i) { ref_count = suc n }) in
      subst (λ t. release_physical_page t p ≡ (true, s)) (sym at)
        (release_lem retained p i n there (ground arith)
          ∙ ap (λ u. (true, u)) (with_metadata s back (λ j. ground (arith, held, ==→≡ i j))))
  | inr (stopped, _) ↦ ground (arith, e, stopped)
]

module _ (s : Pmm) (v : IsWellFormed s) (p : ℕ) where
  none-untracked : untracked s p ≡ true → page_frame_number_from_physical s p ≡ none
  unfolding untracked page_frame_number_from_physical
  none-untracked out = ground (arith, out)

  untracked-none :
      page_frame_number_from_physical s p ≡ none → p % page_size_bytes ≡ 0 → untracked s p ≡ true
  unfolding untracked page_frame_number_from_physical physical_to_page_index
  untracked-none missing aligned =
      ground (arith, missing, aligned, v.live, v.base_aligned, v.span, v.limit_word)

-- For a well-formed manager `IncrementMapCountForPhysical` of a page's address adds one to the page's
-- mapping count, short of the greatest count; it does nothing, and succeeds, for an aligned address
-- outside the span; else it is refused and changes nothing, and the address is not aligned or its page
-- has the greatest count.
pub increment_cases :
    (s : Pmm)
    → IsWellFormed s
    → (p : ℕ)
    → ((i : ℕ) × (page_frame_number_from_physical s p ≡ some i)
        × ((s.frame_metadata i).map_count < max_count)
        × (increment_map_count_for_physical s p ≡ (
          true,
          record s { frame_metadata = with_mappings s i (suc (s.frame_metadata i).map_count) },
        ))
        × IsWellFormed
            (record s { frame_metadata = with_mappings s i (suc (s.frame_metadata i).map_count) }))
      ⊎ ((page_frame_number_from_physical s p ≡ none)
          × (p % page_size_bytes ≡ 0)
          × (increment_map_count_for_physical s p ≡ (true, s)))
      ⊎ ((increment_map_count_for_physical s p ≡ (false, s))
          × ((i : ℕ)
              → page_frame_number_from_physical s p ≡ some i
              → (s.frame_metadata i).map_count ≡ max_count)
          × (page_frame_number_from_physical s p ≡ none → p % page_size_bytes ≢ 0))
unfolding increment_map_count_for_physical with_frame increment_at set_metadata untracked
increment_cases s v p = elim (Bool-cases (untracked s p)) [
  | inl out ↦ inr (inl (none-untracked s v p out, ground (arith, out), ground (arith, out)))
  | inr inside ↦ elim (number_cases s v p) [
    | inl (i, found, lt, _) ↦ elim (Bool-cases ((s.frame_metadata i).map_count == max_count)) [
      | inl stop ↦ inr (
          inr (
            ground (arith, inside, found, frame_index_lem s v p, stop),
            λ j e. ground (arith, e, found, stop),
            λ e. ground (arith, e, found),
          ))
      | inr more ↦
          let m : PageFrameMetadata = record (s.frame_metadata i) {
            map_count = suc (s.frame_metadata i).map_count;
          } in
          inl (
            i,
            found,
            ground (arith, more, v.counts i),
            ground (arith, inside, found, frame_index_lem s v p, more),
            set_metadata-IsWellFormed s v i m (v.unreferenced i lt) (v.counts i).0
                (ground (arith, more, v.counts i)),
          )
    ]
    | inr (missing, _) ↦ inr (
        inr (
          ground (arith, inside, missing, frame_index_lem s v p),
          λ j e. ground (arith, e, missing),
          λ e aligned. ground (arith, untracked-none s v p missing aligned, inside),
        ))
  ]
]

decrement_lem :
    (s : Pmm) (p i n : ℕ)
    → untracked s p ≡ false
    → frame_index s p ≡ some i
    → (s.frame_metadata i).map_count ≡ suc n
    → decrement_map_count_for_physical s p
      ≡ (true, set_metadata s i (record (s.frame_metadata i) { map_count = n }))
unfolding decrement_map_count_for_physical with_frame decrement_at
decrement_lem s p i n inside there more = rw inside (rw there (ground (arith, more)))

untracked-metadata :
    (s : Pmm) (p i : ℕ) (f : ℕ → PageFrameMetadata)
    → page_frame_number_from_physical s p ≡ some i
    → untracked (record s { frame_metadata = f }) p ≡ false
unfolding untracked page_frame_number_from_physical
untracked-metadata s p i f found = ground (arith, found)

-- Where `IncrementMapCountForPhysical` succeeds on a well-formed manager, `DecrementMapCountForPhysical`
-- of the same address then succeeds and gives the first state back.
pub increment-decrement :
    (s t : Pmm)
    → IsWellFormed s
    → (p : ℕ) → increment_map_count_for_physical s p ≡ (true, t)
    → decrement_map_count_for_physical t p ≡ (true, s)
unfolding set_metadata decrement_map_count_for_physical
increment-decrement s t v p e = elim (increment_cases s v p) [
  | inl (i, found, _, done, _) ↦
      let more = with_mappings s i (suc (s.frame_metadata i).map_count) in
      let mapped : Pmm = record s { frame_metadata = more } in
      let at : t ≡ mapped = results e done in
      let there = frame_index-metadata s v p more ∙ found in
      let back = update more i (record (more i) { map_count = (s.frame_metadata i).map_count }) in
      subst (λ t. decrement_map_count_for_physical t p ≡ (true, s)) (sym at)
        (decrement_lem mapped p i (s.frame_metadata i).map_count
            (untracked-metadata s p i more found) there (ground arith)
          ∙ ap (λ u. (true, u)) (with_metadata s back (λ j. ground (arith, ==→≡ i j))))
  | inr (inl (missing, aligned, done)) ↦
      subst (λ t. decrement_map_count_for_physical t p ≡ (true, s)) (sym (results e done))
        (rw (untracked-none s v p missing aligned) refl)
  | inr (inr (stopped, _, _)) ↦ ground (arith, e, stopped)
]
