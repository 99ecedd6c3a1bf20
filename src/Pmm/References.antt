-- ===== src/Pmm/References.antt =====
-- rocinante/src/memory/pmm.cpp: `ReleasePhysicalPage`, and changes of one metadata record.
use walden.Base.{==→≡, ==→≢, Bool, Bool-cases, arith, count_cases, false, if◌then◌else◌, inl, inr}
use walden.Base.{ltb, none, refl, some, subst, suc, sym, true, update, ℕ, ◌+◌, ◌<◌, ◌==◌, ◌∙◌}
use walden.Base.{◌≡◌, ◌≢◌, ◌≤◌}
use walden.Pmm.{PageFrameMetadata, Pmm, is_page_used, max_count, page_frame_number_from_physical}
use walden.Pmm.{release_at, release_physical_page, set_metadata, with_frame}
use walden.Pmm.Address.{frame_index_lem, number_cases}
use walden.Pmm.Allocate.{page_count-lt_word}
use walden.Pmm.Bitmap.{bits_without, is_page_used-cong, is_page_used-set_page_free}
use walden.Pmm.Bitmap.{set_page_free_lem}
use walden.Pmm.Count.{count_free-cong, count_free-give, count_free-le}
use walden.Pmm.Invariant.{IsWellFormed}

abbrev pub with_references : Pmm → ℕ → ℕ → ℕ → PageFrameMetadata
with_references s i n j =
    if i == j then record (s.frame_metadata i) { ref_count = n } else s.frame_metadata j

abbrev pub with_mappings : Pmm → ℕ → ℕ → ℕ → PageFrameMetadata
with_mappings s i n j =
    if i == j then record (s.frame_metadata i) { map_count = n } else s.frame_metadata j

abbrev pub forgotten : PageFrameMetadata → PageFrameMetadata
forgotten m = record m { ref_count = 0; flags = 0; reserved = 0 }

-- `t` is `s` with the used page `i` free again.
pub record Gives (s : Pmm) (i : ℕ) (t : Pmm) : Type 0 where
  pub in_range : i < s.page_count
  pub was_used : is_page_used s i ≡ true
  pub used_after : (j : ℕ) → is_page_used t j ≡ (if i == j then false else is_page_used s j)
  pub metadata_after :
      (j : ℕ)
      → t.frame_metadata j ≡ (if i == j then forgotten (s.frame_metadata i) else s.frame_metadata j)
  pub one_more : t.free_page_count ≡ s.free_page_count + 1
  pub same_span :
      (t.tracked_physical_base ≡ s.tracked_physical_base)
      × (t.tracked_physical_limit ≡ s.tracked_physical_limit)
      × (t.page_count ≡ s.page_count)
  pub well_formed : IsWellFormed t

-- The ways that releasing address `p` ends.
pub data Releases (s : Pmm) (p : ℕ) : Bool × Pmm → Type 0 where
  freed :
      (i : ℕ) (t : Pmm)
      → page_frame_number_from_physical s p ≡ some i
      → (s.frame_metadata i).ref_count ≡ 1
      → (s.frame_metadata i).map_count ≡ 0
      → Gives s i t
      → Releases s p (true, t)
  shared :
      (i n : ℕ)
      → page_frame_number_from_physical s p ≡ some i
      → (s.frame_metadata i).ref_count ≡ suc (suc n)
      → Releases s p (true, record s { frame_metadata = with_references s i (suc n) })
  mapped :
      (i : ℕ)
      → page_frame_number_from_physical s p ≡ some i
      → (s.frame_metadata i).ref_count ≡ 1
      → (s.frame_metadata i).map_count ≢ 0
      → Releases s p (false, s)
  unreferenced :
      (i : ℕ)
      → page_frame_number_from_physical s p ≡ some i
      → (s.frame_metadata i).ref_count ≡ 0
      → Releases s p (false, s)
  no_frame : page_frame_number_from_physical s p ≡ none → Releases s p (false, s)

module _ (s : Pmm) (v : IsWellFormed s) where
  open v use {bitmap_there, counted, cursor, some_page}

  module _ (i : ℕ) (m : PageFrameMetadata) where
    pub set_metadata-IsWellFormed :
        (is_page_used s i ≡ false → m.ref_count ≡ 0)
        → m.ref_count ≤ max_count
        → m.map_count ≤ max_count
        → IsWellFormed (set_metadata s i m)
    unfolding set_metadata
    set_metadata-IsWellFormed free refs maps = record {
      live = v.live;
      bitmap_there = v.bitmap_there;
      metadata_there = v.metadata_there;
      base_aligned = v.base_aligned;
      span = v.span;
      limit_word = v.limit_word;
      some_page = v.some_page;
      counted =
          counted
          ∙ count_free-cong (is_page_used s) (is_page_used (set_metadata s i m)) s.page_count
              (λ j h. sym (is_page_used-cong s (set_metadata s i m) j refl refl));
      cursor = v.cursor;
      unreferenced = λ j h e. ground (
        arith,
        is_page_used-cong s (set_metadata s i m) j refl refl,
        v.unreferenced j h,
        ==→≡ i j,
      );
      counts = λ j. ground (arith, v.counts j);
    }

  module _ (i : ℕ) (lt : i < s.page_count) (used : is_page_used s i ≡ true) where
    -- `ReleasePhysicalPage` of the last reference.
    abbrev pub given_back : Pmm
    given_back = record s {
      bitmap = bits_without s i;
      frame_metadata = update s.frame_metadata i (forgotten (s.frame_metadata i));
      free_page_count = s.free_page_count + 1;
      next_search_index = if ltb i s.next_search_index then i else s.next_search_index;
    }

    given_back-used :
        (j : ℕ) → is_page_used given_back j ≡ (if i == j then false else is_page_used s j)
    given_back-used j =
        is_page_used-cong (record s { bitmap = bits_without s i }) given_back j refl refl
        ∙ subst (λ t. is_page_used t j ≡ (if i == j then false else is_page_used s j))
            (set_page_free_lem s i bitmap_there) (is_page_used-set_page_free s i j bitmap_there)

    given_back-IsWellFormed : IsWellFormed given_back
    given_back-IsWellFormed = record {
      live = v.live;
      bitmap_there = v.bitmap_there;
      metadata_there = v.metadata_there;
      base_aligned = v.base_aligned;
      span = v.span;
      limit_word = v.limit_word;
      some_page = v.some_page;
      counted = omega (
        arith,
        counted,
        count_free-give (is_page_used s) (is_page_used given_back) i s.page_count given_back-used lt
            used,
      );
      cursor = ground (arith, cursor);
      unreferenced = λ j h e. ground (arith, given_back-used j, v.unreferenced j h);
      counts = λ j. ground (arith, v.counts j);
    }

    release_at-free :
        (s.frame_metadata i).ref_count ≡ 1
        → (s.frame_metadata i).map_count ≡ 0
        → release_at s i ≡ (true, given_back)
    unfolding release_at
    release_at-free one unmapped = ground (
      arith,
      used,
      set_page_free_lem (set_metadata s i (forgotten (s.frame_metadata i))) i bitmap_there,
      counted,
      count_free-le (is_page_used s) s.page_count,
      page_count-lt_word s v,
    )

    pub given_back-Gives : Gives s i given_back
    given_back-Gives = record {
      in_range = lt;
      was_used = used;
      used_after = given_back-used;
      metadata_after = λ j. refl;
      one_more = refl;
      same_span = (refl, refl, refl);
      well_formed = given_back-IsWellFormed;
    }

  module _ (i p : ℕ) (found : page_frame_number_from_physical s p ≡ some i)
      (lt : i < s.page_count) where
    still_used : (s.frame_metadata i).ref_count ≢ 0 → is_page_used s i ≡ true
    still_used held = elim (Bool-cases (is_page_used s i)) [
      | inl used ↦ used
      | inr free ↦ absurd (held (v.unreferenced i lt free))
    ]

    is : {r : Bool × Pmm} → Releases s p r → release_at s i ≡ r → Releases s p (release_at s i)
    is way e = subst (Releases s p) (sym e) way

    release_at-Releases : Releases s p (release_at s i)
    unfolding release_at set_metadata
    release_at-Releases = elim (count_cases (s.frame_metadata i).ref_count) [
      | inl none_held ↦ is (unreferenced i found none_held) (ground arith)
      | inr (inl one) ↦
          let used = still_used (omega (arith, one)) in
          elim (Bool-cases ((s.frame_metadata i).map_count == 0)) [
            | inl e ↦
                let unmapped = ==→≡ (s.frame_metadata i).map_count 0 e in
                is (freed i (given_back i lt used) found one unmapped (given_back-Gives i lt used))
                  (release_at-free i lt used one unmapped)
            | inr e ↦
                is (mapped i found one (==→≢ (s.frame_metadata i).map_count 0 e))
                  (ground (arith, e, one))
          ]
      | inr (inr (n, more)) ↦ is (shared i n found more) (ground (arith, more))
    ]

-- Every call of `ReleasePhysicalPage` on a well-formed manager ends in one of the ways of `Releases`:
-- the page of a sole reference with no mapping becomes free; one of several references goes, also where
-- the page is mapped, and the call returns true; a sole
-- reference to a mapped page, a page without reference and an address that is no page's are refused,
-- with nothing changed.
pub release_physical_page-Releases :
    (s : Pmm) → IsWellFormed s → (p : ℕ) → Releases s p (release_physical_page s p)
unfolding release_physical_page with_frame
release_physical_page-Releases s v p = elim (number_cases s v p) [
  | inl (i, found, lt, _) ↦
      subst (Releases s p) (sym (ground (arith, found, frame_index_lem s v p)))
        (release_at-Releases s v i p found lt)
  | inr (missing, _) ↦
      subst (Releases s p) (sym (ground (arith, missing, frame_index_lem s v p))) (no_frame missing)
]

-- The last reference to an unmapped page.
pub release_last :
    (s : Pmm) (v : IsWellFormed s) (p i : ℕ) (lt : i < s.page_count)
    (used : is_page_used s i ≡ true)
    → page_frame_number_from_physical s p ≡ some i
    → (s.frame_metadata i).ref_count ≡ 1
    → (s.frame_metadata i).map_count ≡ 0
    → release_physical_page s p ≡ (true, given_back s v i lt used)
unfolding release_physical_page with_frame
release_last s v p i lt used found one unmapped =
    ground (arith, found, frame_index_lem s v p, release_at-free s v i lt used one unmapped)
