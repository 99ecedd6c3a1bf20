-- ===== src/Pmm/Marking.antt =====
-- rocinante/src/memory/pmm.cpp: `ReserveRange`, and its loop over the pages.
use walden.Base.{false, if◌then◌else◌, leb, ltb}
use walden.Base.{true, ℕ, ◌&&◌, ◌+◌, ◌<◌}
use walden.Base.{◌≡◌}
use walden.Base.Word.{sub64}
use walden.Pmm.{Pmm, is_page_used}
use walden.Pmm.Bitmap.{bits_with}
use walden.Pmm.Invariant.{IsWellFormed}

-- `t` is `s` with the pages from `i` up to `i + count` used as well.
pub record Reserved (s : Pmm) (i count : ℕ) (t : Pmm) : Type 0 where
  pub used_after :
      (j : ℕ) → is_page_used t j ≡ (if leb i j && ltb j (i + count) then true else is_page_used s j)
  pub same_metadata : t.frame_metadata ≡ s.frame_metadata
  pub same_span :
      (t.tracked_physical_base ≡ s.tracked_physical_base)
      × (t.tracked_physical_limit ≡ s.tracked_physical_limit)
      × (t.page_count ≡ s.page_count)
  pub well_formed : IsWellFormed t

module _ (s : Pmm) (v : IsWellFormed s) (i : ℕ) (lt : i < s.page_count) where
  open v use {bitmap_there, counted}

  module _ (free : is_page_used s i ≡ false) where
    abbrev held : Pmm
    held = record s { bitmap = bits_with s i; free_page_count = sub64 s.free_page_count 1 }
