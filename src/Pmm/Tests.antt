-- ===== src/Pmm/Tests.antt =====
-- rocinante/src/memory/pmm.cpp on four pages from 4 KiB: the first two used, the last two free.
use walden.Base.{==→≡, Bool-cases, ap, arith, false, if◌then◌else◌, inl, inr, none, refl, some}
use walden.Base.{suc, true, ℕ, ◌%◌, ◌*◌, ◌+◌, ◌<◌, ◌==◌, ◌↔◌, ◌≡◌, ◌≢◌, ◌≤◌, ◌⊎◌}
use walden.Pmm.{Pmm, allocate_page, decrement_map_count_for_physical, frame_index, free_page}
use walden.Pmm.{increment_map_count_for_physical, is_page_used, max_count}
use walden.Pmm.{page_frame_number_from_physical, page_index_to_physical, page_size_bytes}
use walden.Pmm.{physical_from_page_frame_number, physical_range_to_page_indices}
use walden.Pmm.{physical_to_page_index, release_physical_page}
use walden.Pmm.{retain_physical_page, take_page}
use walden.Pmm.Address.{number_round_trip}
use walden.Pmm.Allocate.{Takes, allocate_page_cases, from_cursor}
use walden.Pmm.Count.{count_free}
use walden.Pmm.Counts.{increment-decrement, increment_cases, retain-release, retain_cases}
use walden.Pmm.Invariant.{IsWellFormed, spanned}
use walden.Pmm.References.{Releases, release_physical_page-Releases, with_mappings}
use walden.Pmm.References.{with_references}
use walden.Pmm.RoundTrip.{allocate-allocate, free-allocate}
use walden.Pmm.Span.{Touches, physical_range_cases}

abbrev pub four_pages : Pmm
four_pages = record {
  bitmap_physical_base = 4096;
  bitmap_size_bytes = 4096;
  frame_metadata_physical_base = 4096;
  frame_metadata_size_bytes = 4096;
  tracked_physical_base = 4096;
  tracked_physical_limit = 20480;
  page_count = 4;
  free_page_count = 2;
  next_search_index = 1;
  initialized = true;
  bitmap = λ i. if i == 0 then 3 else 255;
  frame_metadata = λ i.
      if i == 0
      then record { ref_count = 2; map_count = 1; flags = 0; reserved = 0 }
      else if i == 1
      then record { ref_count = 1; map_count = 0; flags = 0; reserved = 0 }
      else record { ref_count = 0; map_count = 0; flags = 0; reserved = 0 };
}

pub page_0-used : is_page_used four_pages 0 ≡ true
unfolding is_page_used
page_0-used = refl

pub page_1-used : is_page_used four_pages 1 ≡ true
unfolding is_page_used
page_1-used = refl

four_pages-unreferenced :
    (i : ℕ)
    → i < four_pages.page_count
    → is_page_used four_pages i ≡ false
    → (four_pages.frame_metadata i).ref_count ≡ 0
four_pages-unreferenced i h free = elim (Bool-cases (i == 0)) [
  | inl first ↦ ground (arith, free, page_0-used, ap (is_page_used four_pages) (==→≡ i 0 first))
  | inr other ↦ elim (Bool-cases (i == 1)) [
    | inl second ↦ ground (arith, free, page_1-used, ap (is_page_used four_pages) (==→≡ i 1 second))
    | inr later ↦ ground (arith, other, later)
  ]
]

four_pages-counted : 2 ≡ count_free (is_page_used four_pages) 4
unfolding count_free is_page_used
four_pages-counted = refl

pub four_pages-IsWellFormed : IsWellFormed four_pages
four_pages-IsWellFormed = record {
  live = refl;
  bitmap_there = omega arith;
  metadata_there = omega arith;
  base_aligned = refl;
  span = refl;
  limit_word = omega arith;
  some_page = omega arith;
  counted = four_pages-counted;
  cursor = omega arith;
  unreferenced = four_pages-unreferenced;
  counts = λ i. ground arith;
}

-- The scan from page 1 on finds page 2.
allocate_third : allocate_page four_pages ≡ (some 12288, take_page four_pages 2)
unfolding allocate_page page_index_to_physical take_page
allocate_third = refl

allocate_page_cases_example :
    ((k : ℕ) × (allocate_page four_pages ≡ (
      some (page_index_to_physical four_pages (from_cursor four_pages four_pages-IsWellFormed k)),
      take_page four_pages (from_cursor four_pages four_pages-IsWellFormed k),
    ))
      × Takes four_pages
          (from_cursor four_pages four_pages-IsWellFormed k)
          (take_page four_pages (from_cursor four_pages four_pages-IsWellFormed k))
      × ((m : ℕ)
          → m < k
          → is_page_used four_pages (from_cursor four_pages four_pages-IsWellFormed m) ≡ true))
    ⊎ (allocate_page four_pages ≡ (none, four_pages))
      × ((i : ℕ) → i < four_pages.page_count → is_page_used four_pages i ≡ true)
allocate_page_cases_example = allocate_page_cases four_pages four_pages-IsWellFormed

release_physical_page-Releases_example :
    Releases four_pages 8192 (release_physical_page four_pages 8192)
release_physical_page-Releases_example =
    release_physical_page-Releases four_pages four_pages-IsWellFormed 8192

free-allocate_example :
    (u : Pmm) × (free_page (take_page four_pages 2) 12288 ≡ (true, u))
    × ((j : ℕ) → is_page_used u j ≡ is_page_used four_pages j)
    × (u.free_page_count ≡ four_pages.free_page_count)
    × ((j : ℕ)
        → page_index_to_physical four_pages j ≢ 12288
        → u.frame_metadata j ≡ four_pages.frame_metadata j)
    × IsWellFormed u
free-allocate_example =
    free-allocate four_pages (take_page four_pages 2) 12288 four_pages-IsWellFormed allocate_third

allocate_fourth :
    allocate_page (take_page four_pages 2) ≡ (some 16384, take_page (take_page four_pages 2) 3)
unfolding allocate_page page_index_to_physical take_page
allocate_fourth = refl

allocate-allocate_example :
    (12288 + page_size_bytes ≤ 16384 ⊎ 16384 + page_size_bytes ≤ 12288)
    × (12288 % page_size_bytes ≡ 0)
    × (four_pages.tracked_physical_base ≤ 12288)
    × (12288 + page_size_bytes ≤ four_pages.tracked_physical_limit)
    × (16384 % page_size_bytes ≡ 0)
    × (four_pages.tracked_physical_base ≤ 16384)
    × (16384 + page_size_bytes ≤ four_pages.tracked_physical_limit)
allocate-allocate_example =
    allocate-allocate four_pages (take_page four_pages 2) (take_page (take_page four_pages 2) 3)
      12288 16384 four_pages-IsWellFormed allocate_third allocate_fourth

abbrev retained : Pmm
retained = record four_pages { frame_metadata = with_references four_pages 0 3 }

retain_first : retain_physical_page four_pages 4096 ≡ (true, retained)
unfolding retain_physical_page physical_to_page_index frame_index
retain_first = refl

retain_cases_example :
    ((i : ℕ) × (n : ℕ) × (page_frame_number_from_physical four_pages 4096 ≡ some i)
      × ((four_pages.frame_metadata i).ref_count ≡ suc n)
      × (retain_physical_page four_pages 4096 ≡ (
        true,
        record four_pages { frame_metadata = with_references four_pages i (suc (suc n)) },
      ))
      × IsWellFormed
          (record four_pages { frame_metadata = with_references four_pages i (suc (suc n)) }))
    ⊎ (retain_physical_page four_pages 4096 ≡ (false, four_pages))
      × ((i : ℕ)
          → page_frame_number_from_physical four_pages 4096 ≡ some i
          → (four_pages.frame_metadata i).ref_count ≢ 0
          → (four_pages.frame_metadata i).ref_count ≡ max_count)
retain_cases_example = retain_cases four_pages four_pages-IsWellFormed 4096

retain-release_example : release_physical_page retained 4096 ≡ (true, four_pages)
retain-release_example =
    retain-release four_pages retained four_pages-IsWellFormed 4096 retain_first

abbrev mapped_once : Pmm
mapped_once = record four_pages { frame_metadata = with_mappings four_pages 1 1 }

map_second : increment_map_count_for_physical four_pages 8192 ≡ (true, mapped_once)
unfolding increment_map_count_for_physical physical_to_page_index frame_index
map_second = refl

increment_cases_example :
    ((i : ℕ) × (page_frame_number_from_physical four_pages 8192 ≡ some i)
      × ((four_pages.frame_metadata i).map_count < max_count)
      × (increment_map_count_for_physical four_pages 8192 ≡ (
        true,
        record four_pages {
          frame_metadata = with_mappings four_pages i (suc (four_pages.frame_metadata i).map_count);
        },
      ))
      × IsWellFormed (record four_pages {
        frame_metadata = with_mappings four_pages i (suc (four_pages.frame_metadata i).map_count);
      }))
    ⊎ ((page_frame_number_from_physical four_pages 8192 ≡ none)
        × (8192 % page_size_bytes ≡ 0)
        × (increment_map_count_for_physical four_pages 8192 ≡ (true, four_pages)))
    ⊎ ((increment_map_count_for_physical four_pages 8192 ≡ (false, four_pages))
        × ((i : ℕ)
            → page_frame_number_from_physical four_pages 8192 ≡ some i
            → (four_pages.frame_metadata i).map_count ≡ max_count)
        × (page_frame_number_from_physical four_pages 8192 ≡ none → 8192 % page_size_bytes ≢ 0))
increment_cases_example = increment_cases four_pages four_pages-IsWellFormed 8192

increment-decrement_example : decrement_map_count_for_physical mapped_once 8192 ≡ (true, four_pages)
increment-decrement_example =
    increment-decrement four_pages mapped_once four_pages-IsWellFormed 8192 map_second

number_round_trip_example :
    ((physical_from_page_frame_number four_pages 3 ≡ some 16384) ↔ (
      (3 < four_pages.page_count)
      × (16384 ≡ four_pages.tracked_physical_base + 3 * page_size_bytes)))
    × ((page_frame_number_from_physical four_pages 16384 ≡ some 3)
        ↔ (physical_from_page_frame_number four_pages 3 ≡ some 16384))
number_round_trip_example = number_round_trip four_pages four_pages-IsWellFormed 3 16384

physical_range_cases_example :
    ((physical_range_to_page_indices four_pages 12000 1000 ≡ none)
      × ((j : ℕ)
          → j < four_pages.page_count
          → ¬ Touches (four_pages.tracked_physical_base + j * page_size_bytes) 12000 1000))
    ⊎ ((first : ℕ) × (last : ℕ) × (physical_range_to_page_indices four_pages 12000 1000
          ≡ some (first, last))
        × (first < last)
        × (last ≤ four_pages.page_count)
        × ((j : ℕ)
            → (first ≤ j × j < last) ↔ (
                (j < four_pages.page_count)
                × Touches (four_pages.tracked_physical_base + j * page_size_bytes) 12000 1000)))
physical_range_cases_example =
    physical_range_cases four_pages (spanned four_pages four_pages-IsWellFormed) 12000 1000
      (omega arith)
