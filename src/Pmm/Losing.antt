-- ===== src/Pmm/Losing.antt =====
-- rocinante/src/memory/pmm.cpp: what `FreePage`, `IncrementMapCountForPhysical` and
-- `DecrementMapCountForPhysical` leave of the pages.
use walden.Base.{Bool, Bool-cases, Option-cases, arith, false, inl, inr, refl, some}
use walden.Base.{some-injective, subst, suc, sym, ℕ, ◌*◌, ◌+◌, ◌-◌, ◌<◌, ◌==◌, ◌∙◌, ◌≡◌}
use walden.Pmm.{PageFrameMetadata, Pmm, decrement_at, decrement_map_count_for_physical}
use walden.Pmm.{frame_index, free_page, is_page_used, page_frame_number_from_physical}
use walden.Pmm.{page_size_bytes, set_metadata, untracked, with_frame}
use walden.Pmm.Address.{frame_index_lem, number-physical, number_cases}
use walden.Pmm.Address.{page_index_to_physical_lem}
use walden.Pmm.Bitmap.{is_page_used-cong}
use walden.Pmm.Invariant.{IsWellFormed}
use walden.Pmm.References.{Releases, freed, mapped, no_frame, release_physical_page-Releases}
use walden.Pmm.References.{set_metadata-IsWellFormed, shared, unreferenced, with_references}

-- The manager has the same pages, and the same of them are used, but for page `n` perhaps.
pub record LosesOnly (s : Pmm) (n : ℕ) (t : Pmm) : Type 0 where
  pub manager : IsWellFormed t
  pub base : t.tracked_physical_base ≡ s.tracked_physical_base
  pub count : t.page_count ≡ s.page_count
  pub used : (k : ℕ) → (n == k) ≡ false → is_page_used t k ≡ is_page_used s k

module _ (s : Pmm) (v : IsWellFormed s) where
  LosesOnly-refl : (n : ℕ) → LosesOnly s n s
  LosesOnly-refl n = record { manager = v; base = refl; count = refl; used = λ k apart. refl }

  shared-LosesOnly :
      (i n : ℕ)
      → i < s.page_count
      → (s.frame_metadata i).ref_count ≡ suc (suc n)
      → LosesOnly s i (record s { frame_metadata = with_references s i (suc n) })
  unfolding set_metadata
  shared-LosesOnly i n h several =
      let m : PageFrameMetadata = record (s.frame_metadata i) { ref_count = suc n } in
      record {
        manager =
            set_metadata-IsWellFormed s v i m
              (λ free. absurd (omega (arith, v.unreferenced i h free, several)))
              (omega (arith, (v.counts i).0, several)) (v.counts i).1;
        base = refl;
        count = refl;
        used = λ k apart. is_page_used-cong s _ k refl refl;
      }

  ways :
      (p n : ℕ) (r : Bool × Pmm)
      → n < s.page_count
      → page_frame_number_from_physical s p ≡ some n
      → Releases s p r
      → LosesOnly s n r.1
  ways p n r h at (freed i t found one unmapped gives) =
      rw (some-injective n i (sym at ∙ found)) (record {
        manager = gives.well_formed;
        base = gives.same_span.0;
        count = gives.same_span.2;
        used = λ k apart. ground (arith, gives.used_after k, apart);
      })
  ways p n r h at (shared i m found more) =
      let same = some-injective n i (sym at ∙ found) in
      rw same (shared-LosesOnly i m (subst (λ k. k < s.page_count) same h) more)
  ways p n r h at (mapped i found one several) = LosesOnly-refl n
  ways p n r h at (unreferenced i found nothing) = LosesOnly-refl n
  ways p n r h at (no_frame missing) = LosesOnly-refl n

  pub free_page-LosesOnly :
      (n : ℕ)
      → n < s.page_count
      → LosesOnly s n (free_page s (s.tracked_physical_base + n * page_size_bytes)).1
  unfolding free_page
  free_page-LosesOnly n h =
      ways _ n _ h
        (subst (λ p. page_frame_number_from_physical s p ≡ some n)
          (page_index_to_physical_lem s v n h) (number-physical s v n h))
        (release_physical_page-Releases s v _)

  refused_way : (p : ℕ) (r : Bool × Pmm) → Releases s p r → r.0 ≡ false → r.1 ≡ s
  refused_way p r (freed i t found one unmapped gives) e = absurd (ground (arith, e))
  refused_way p r (shared i m found more) e = absurd (ground (arith, e))
  refused_way p r (mapped i found one some_left) e = refl
  refused_way p r (unreferenced i found nothing) e = refl
  refused_way p r (no_frame missing) e = refl

  pub free_page-refused : (p : ℕ) → (free_page s p).0 ≡ false → (free_page s p).1 ≡ s
  unfolding free_page
  free_page-refused p e = refused_way p _ (release_physical_page-Releases s v p) e

  decremented : (i : ℕ) → i < s.page_count → (k : ℕ) → LosesOnly s k (decrement_at s i).1
  unfolding decrement_at set_metadata
  decremented i h k = elim (Bool-cases ((s.frame_metadata i).map_count == 0)) [
    | inl nothing ↦ rw nothing (LosesOnly-refl k)
    | inr some_left ↦
        let before = (s.frame_metadata i).map_count in
        let m : PageFrameMetadata = record (s.frame_metadata i) { map_count = before - 1 } in
        rw some_left (record {
          manager =
              set_metadata-IsWellFormed s v i m (v.unreferenced i h) (v.counts i).0
                (omega (arith, (v.counts i).1));
          base = refl;
          count = refl;
          used = λ j apart. is_page_used-cong s _ j refl refl;
        })
  ]

  pub decrement-LosesOnly : (p k : ℕ) → LosesOnly s k (decrement_map_count_for_physical s p).1
  unfolding decrement_map_count_for_physical with_frame
  decrement-LosesOnly p k = elim (Bool-cases (untracked s p)) [
    | inl out ↦ rw out (LosesOnly-refl k)
    | inr inside ↦ elim (number_cases s v p) [
      | inl (i, found, h, _) ↦ rw (inside, frame_index_lem s v p ∙ found) (decremented i h k)
      | inr (missing, _) ↦ rw (inside, frame_index_lem s v p ∙ missing) (LosesOnly-refl k)
    ]
  ]

  decrement_at-refused : (i : ℕ) → (decrement_at s i).0 ≡ false → (decrement_at s i).1 ≡ s
  unfolding decrement_at
  decrement_at-refused i e = elim (Bool-cases ((s.frame_metadata i).map_count == 0)) [
    | inl nothing ↦ rw nothing refl
    | inr some_left ↦ absurd (ground (arith, e, some_left))
  ]

  pub decrement-refused :
      (p : ℕ)
      → (decrement_map_count_for_physical s p).0 ≡ false
      → (decrement_map_count_for_physical s p).1 ≡ s
  unfolding decrement_map_count_for_physical with_frame
  decrement-refused p e = elim (Bool-cases (untracked s p)) [
    | inl out ↦ rw out refl
    | inr inside ↦ elim (Option-cases (frame_index s p)) [
      | inl missing ↦ rw (inside, missing) refl
      | inr (i, found) ↦
          rw (inside, found) (decrement_at-refused i (ground (arith, e, inside, found)))
    ]
  ]
