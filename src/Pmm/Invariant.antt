-- ===== src/Pmm/Invariant.antt =====
-- rocinante/src/memory/pmm.cpp: the invariant of an initialised manager.
use walden.Base.{false, true, ℕ, ◌%◌, ◌*◌, ◌+◌, ◌<◌, ◌≡◌, ◌≢◌, ◌≤◌}
use walden.Base.Word.{word}
use walden.Pmm.{Pmm, is_page_used, max_count, page_size_bytes}
use walden.Pmm.Count.{count_free}

-- The tracked span is a whole number of pages, in a manager that has its bitmap.
pub record IsSpanned (s : Pmm) : Type 0 where
  pub bitmap_there : s.bitmap_size_bytes ≢ 0
  pub base_aligned : s.tracked_physical_base % page_size_bytes ≡ 0
  pub span : s.tracked_physical_limit ≡ s.tracked_physical_base + s.page_count * page_size_bytes
  pub limit_word : s.tracked_physical_limit < word
  pub some_page : 0 < s.page_count

pub record IsWellFormed (s : Pmm) : Type 0 where
  pub live : s.initialized ≡ true
  pub bitmap_there : s.bitmap_size_bytes ≢ 0
  pub metadata_there : s.frame_metadata_size_bytes ≢ 0
  -- The tracked span is a whole number of pages, one at least.
  pub base_aligned : s.tracked_physical_base % page_size_bytes ≡ 0
  pub span : s.tracked_physical_limit ≡ s.tracked_physical_base + s.page_count * page_size_bytes
  pub limit_word : s.tracked_physical_limit < word
  pub some_page : 0 < s.page_count
  -- The count of free pages is right, and the scan starts at a page.
  pub counted : s.free_page_count ≡ count_free (is_page_used s) s.page_count
  pub cursor : s.next_search_index < s.page_count
  -- Nobody holds a reference to a free page; counts fit 32 bits.
  pub unreferenced :
      (i : ℕ) → i < s.page_count → is_page_used s i ≡ false → (s.frame_metadata i).ref_count ≡ 0
  pub counts :
      (i : ℕ)
      → ((s.frame_metadata i).ref_count ≤ max_count) × ((s.frame_metadata i).map_count ≤ max_count)

pub spanned : (s : Pmm) → IsWellFormed s → IsSpanned s
spanned s v = record {
  bitmap_there = v.bitmap_there;
  base_aligned = v.base_aligned;
  span = v.span;
  limit_word = v.limit_word;
  some_page = v.some_page;
}
