-- ===== src/Pmm/Boot.antt =====
-- rocinante/src/memory/pmm.cpp, `InitializeFromBootMemoryMap`: the span of usable RAM, the manager's
-- own storage, and the first marks in the bitmap.
pub mod Marks
pub mod Policy
mod Track
mod Storage
pub mod Ready
mod Tests
use package.walden.Base.{ℕ, ◌+◌, ◌-◌, ◌*◌, ◌/◌, ◌^◌}
use package.walden.Base.{Bool, true, false, not, ◌&&◌, ◌||◌, ltb, leb, ◌==◌, if◌then◌else◌}
use package.walden.Base.{Option, none, some, List, [], ◌∷◌}
use package.walden.Base.Word.{add64, sub64, word}
use package.walden.Boot.{BootMemoryRegion, RegionType, is_usable, is_reserved}
use package.walden.Pmm.{PageFrameMetadata, Pmm, add_overflows, align_down, align_up, is_page_used}
use package.walden.Pmm.{mark_range_free, mark_range_used, page_size_bytes}
use package.walden.Pmm.Count.{count_free}
use package.walden.Pmm.Placement.{Surroundings, clamp, palen_valid, place}

-- The least and the greatest address of usable RAM so far, once a region has been seen.
pub usable_span : List BootMemoryRegion → Option (ℕ × ℕ) → Option (ℕ × ℕ)
usable_span [] seen = seen
usable_span (r ∷ rest) seen =
    let begin = r.physical_base in
    let end = add64 r.physical_base r.size_bytes in
    let wider : Option (ℕ × ℕ) = elim seen [
      | none ↦ some (begin, end)
      | some (low, high) ↦
          some (if ltb begin low then begin else low, if ltb high end then end else high)
    ] in
    let skipped =
      not (is_usable r.region_type)
      || (r.size_bytes == 0)
      || add_overflows r.physical_base r.size_bytes in
    usable_span rest (if skipped then seen else wider)

-- The state that both failures and the start of the operation leave; what the storage holds stays.
pub reset_state : Pmm → Pmm
reset_state s = record s {
  bitmap_physical_base = 0;
  bitmap_size_bytes = 0;
  frame_metadata_physical_base = 0;
  frame_metadata_size_bytes = 0;
  tracked_physical_base = 0;
  tracked_physical_limit = 0;
  page_count = 0;
  free_page_count = 0;
  next_search_index = 0;
  initialized = false;
}

-- `_allocate_bitmap`, and its storage filled with 0xFF.
pub allocate_bitmap : Surroundings → Pmm → Option Pmm
unfolding align_up place
allocate_bitmap e s =
    let byte_count = add64 s.page_count 7 / 8 in
    let size = align_up byte_count in
    let chosen = place e e.regions size in
    if (s.page_count == 0) || (byte_count == 0) || (size == 0) || (chosen == 0)
    then none
    else some (record s {
      bitmap_physical_base = chosen;
      bitmap_size_bytes = size;
      bitmap = λ i. if ltb i size then 255 else s.bitmap i;
    })

abbrev pub empty_metadata : PageFrameMetadata
empty_metadata = record { ref_count = 0; map_count = 0; flags = 0; reserved = 0 }

-- `_allocate_frame_metadata`, and a fresh record for each page.
pub allocate_frame_metadata : Surroundings → Pmm → Option Pmm
unfolding align_up place
allocate_frame_metadata e s =
    let raw = s.page_count * 16 in
    let size = align_up raw in
    let around = record e {
      bitmap_physical_base = s.bitmap_physical_base;
      bitmap_size_bytes = s.bitmap_size_bytes;
    } in
    let chosen = place around e.regions size in
    if (s.page_count == 0)
      || (s.bitmap_size_bytes == 0)
      || ltb ((word - 1) / 16) s.page_count
      || (raw == 0)
      || (size == 0)
      || (chosen == 0)
    then none
    else some (record s {
      frame_metadata_physical_base = chosen;
      frame_metadata_size_bytes = size;
      frame_metadata = λ i. if ltb i s.page_count then empty_metadata else s.frame_metadata i;
    })

-- The loops over the regions of one type.
pub mark_regions : (RegionType → Bool) → (Pmm → ℕ → ℕ → Pmm) → List BootMemoryRegion → Pmm → Pmm
mark_regions type mark [] s = s
mark_regions type mark (r ∷ rest) s =
    mark_regions type mark rest
      (if type r.region_type then mark s r.physical_base r.size_bytes else s)

-- Steps 1 to 5.
pub mark_pages : Surroundings → Pmm → Pmm
unfolding mark_regions mark_range_free mark_range_used
mark_pages e s0 =
    let s1 = mark_regions is_usable mark_range_free e.regions s0 in
    let s2 = mark_regions is_reserved mark_range_used e.regions s1 in
    let s3 =
      if ltb e.kernel_physical_base e.kernel_physical_end
      then mark_range_used s2 e.kernel_physical_base
          (e.kernel_physical_end - e.kernel_physical_base)
      else s2 in
    let s4 =
      if not (e.device_tree_physical_base == 0) && not (e.device_tree_size_bytes == 0)
      then mark_range_used s3 e.device_tree_physical_base e.device_tree_size_bytes
      else s3 in
    let s5 =
      if not (s4.bitmap_size_bytes == 0)
      then mark_range_used s4 s4.bitmap_physical_base s4.bitmap_size_bytes
      else s4 in
    let s6 =
      if not (s5.frame_metadata_size_bytes == 0)
      then mark_range_used s5 s5.frame_metadata_physical_base s5.frame_metadata_size_bytes
      else s5 in
    mark_range_used s6 0 page_size_bytes

-- The end: the free pages are counted, and the manager is ready.
pub finish : Surroundings → Pmm → Pmm
unfolding mark_pages is_page_used count_free
finish e s =
    let marked = mark_pages e s in
    record marked {
      free_page_count = count_free (is_page_used marked) marked.page_count;
      next_search_index = 0;
      initialized = true;
    }

-- The tracked span, from the span of usable RAM.
pub track_span : Surroundings → Pmm → ℕ → ℕ → Bool × Pmm
unfolding align_down align_up
track_span e s low high =
    let limit = clamp e.physical_address_bits high in
    let base = align_down low in
    let top = align_up limit in
    let pages = sub64 top base / page_size_bytes in
    let spanned = record s { tracked_physical_base = base; tracked_physical_limit = top } in
    if palen_valid e.physical_address_bits
      && (leb (2 ^ e.physical_address_bits) low || leb limit low)
    then (false, s)
    else if leb top base
    then (false, spanned)
    else (not (pages == 0), record spanned { page_count = pages })

pub track : Surroundings → Pmm → Bool × Pmm
unfolding usable_span track_span
track e s = elim (usable_span e.regions none) [
  | none ↦ (false, s)
  | some (low, high) ↦ track_span e s low high
]

pub set_up : Surroundings → Bool × Pmm → Bool × Pmm
unfolding allocate_bitmap allocate_frame_metadata finish reset_state
set_up e (false, s) = (false, s)
set_up e (true, s1) = elim (allocate_bitmap e s1) [
  | none ↦ (false, reset_state s1)
  | some s2 ↦ elim (allocate_frame_metadata e s2) [
    | none ↦ (false, reset_state s2)
    | some s3 ↦ (true, finish e s3)
  ]
]

-- `e` has no bitmap yet.
pub initialize_from_boot_memory_map : Surroundings → Pmm → Bool × Pmm
unfolding track set_up reset_state
initialize_from_boot_memory_map e s = set_up e (track e (reset_state s))
