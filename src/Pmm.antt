-- ===== src/Pmm.antt =====
-- rocinante/src/memory/pmm.h and pmm.cpp, `PhysicalMemoryManager`: one bit and one metadata record
-- for each physical page of the tracked span; allocation by a circular scan; reference counts and
-- mapping counts. This file has the class's state and its operations once it is initialised;
-- `Placement` and `Boot` below have `InitializeFromBootMemoryMap`.
--
-- The bitmap's bytes and the frame metadata are functions of the index; in the source they are storage
-- carved out of usable RAM. The pointer to either is null exactly when its size is 0. The class's
-- counters and addresses are words below 2 ^ 64, reference and mapping counts below 2 ^ 32.
pub mod Bitmap
pub mod Count
pub mod Invariant
pub mod Address
pub mod Allocate
pub mod References
pub mod Counts
pub mod Placement
pub mod Boot
pub mod Span
pub mod Marking
pub mod RoundTrip
pub mod Losing
pub mod Tests
use package.walden.Base.{ℕ, zero, suc, ◌+◌, ◌-◌, ◌*◌, ◌/◌, ◌%◌, ◌^◌, bit_and, bit_or, update}
use package.walden.Base.{Bool, true, false, not, ◌&&◌, ◌||◌, ltb, leb, ◌==◌, if◌then◌else◌}
use package.walden.Base.{Option, none, some, List, [], ◌∷◌}
use package.walden.Base.Word.{add64, sub64, mul64, not64}

abbrev pub page_size_bytes : ℕ
page_size_bytes = 4096

abbrev pub max_count : ℕ
max_count = 2 ^ 32 - 1

pub record PageFrameMetadata : Type 0 where
  pub ref_count : ℕ
  pub map_count : ℕ
  pub flags : ℕ
  pub reserved : ℕ

pub record Pmm : Type 0 where
  pub bitmap_physical_base : ℕ
  pub bitmap_size_bytes : ℕ
  pub frame_metadata_physical_base : ℕ
  pub frame_metadata_size_bytes : ℕ
  pub tracked_physical_base : ℕ
  pub tracked_physical_limit : ℕ
  pub page_count : ℕ
  pub free_page_count : ℕ
  pub next_search_index : ℕ
  pub initialized : Bool
  pub bitmap : ℕ → ℕ
  pub frame_metadata : ℕ → PageFrameMetadata

pub align_down : ℕ → ℕ
align_down value = bit_and value (not64 (page_size_bytes - 1))

pub align_up : ℕ → ℕ
align_up value = bit_and (add64 value (page_size_bytes - 1)) (not64 (page_size_bytes - 1))

abbrev pub add_overflows : ℕ → ℕ → Bool
add_overflows a b = ltb (add64 a b) a

pub is_page_used : Pmm → ℕ → Bool
is_page_used s i =
    if s.bitmap_size_bytes == 0 then true else not (bit_and (s.bitmap (i / 8)) (2 ^ (i % 8)) == 0)

pub set_page_used : Pmm → ℕ → Pmm
set_page_used s i =
    if s.bitmap_size_bytes == 0
    then s
    else record s { bitmap = update s.bitmap (i / 8) (bit_or (s.bitmap (i / 8)) (2 ^ (i % 8))) }

pub set_page_free : Pmm → ℕ → Pmm
set_page_free s i = if s.bitmap_size_bytes == 0 then s else record s {
  bitmap = update s.bitmap (i / 8) (bit_and (s.bitmap (i / 8)) (2 ^ 8 - 1 - 2 ^ (i % 8)));
}

pub page_index_to_physical : Pmm → ℕ → ℕ
page_index_to_physical s i = add64 s.tracked_physical_base (mul64 i page_size_bytes)

pub physical_to_page_index : Pmm → ℕ → ℕ
physical_to_page_index s p = sub64 p s.tracked_physical_base / page_size_bytes

pub physical_range_to_page_indices : Pmm → ℕ → ℕ → Option (ℕ × ℕ)
unfolding align_down align_up physical_to_page_index
physical_range_to_page_indices s physical_base size_bytes =
    let physical_end = add64 physical_base size_bytes in
    let clamped_begin =
      if ltb physical_base s.tracked_physical_base
      then s.tracked_physical_base
      else physical_base in
    let clamped_end =
      if ltb s.tracked_physical_limit physical_end
      then s.tracked_physical_limit
      else physical_end in
    let aligned_begin = align_down clamped_begin in
    let aligned_end = align_up clamped_end in
    let index_begin = physical_to_page_index s aligned_begin in
    let index_end = physical_to_page_index s aligned_end in
    if (size_bytes == 0)
      || add_overflows physical_base size_bytes
      || leb physical_end s.tracked_physical_base
      || leb s.tracked_physical_limit physical_base
      || leb clamped_end clamped_begin
      || leb aligned_end aligned_begin
      || leb index_end index_begin
      || ltb s.page_count index_end
    then none
    else some (index_begin, index_end)

-- for (i = begin; i < begin + count; i++)
pub mark_each : (Pmm → ℕ → Pmm) → ℕ → ℕ → Pmm → Pmm
mark_each f zero i s = s
mark_each f (suc count) i s = mark_each f count (i + 1) (f s i)

pub mark_indices : (Pmm → ℕ → Pmm) → Pmm → Option (ℕ × ℕ) → Pmm
unfolding mark_each
mark_indices f s none = s
mark_indices f s (some (begin, end)) = mark_each f (end - begin) begin s

-- Both always return true.
pub mark_range_free : Pmm → ℕ → ℕ → Pmm
unfolding mark_indices
mark_range_free s physical_base size_bytes =
    mark_indices set_page_free s (physical_range_to_page_indices s physical_base size_bytes)

pub mark_range_used : Pmm → ℕ → ℕ → Pmm
unfolding mark_indices
mark_range_used s physical_base size_bytes =
    mark_indices set_page_used s (physical_range_to_page_indices s physical_base size_bytes)

pub page_frame_number_from_physical : Pmm → ℕ → Option ℕ
page_frame_number_from_physical s p =
    let page_frame_number = physical_to_page_index s p in
    if not s.initialized
      || not ((p % page_size_bytes) == 0)
      || ltb p s.tracked_physical_base
      || leb s.tracked_physical_limit p
      || leb s.page_count page_frame_number
    then none
    else some page_frame_number

pub physical_from_page_frame_number : Pmm → ℕ → Option ℕ
physical_from_page_frame_number s i =
    if not s.initialized || leb s.page_count i then none else some (page_index_to_physical s i)

-- The frame's index, where the metadata can be reached: the checks that open the operations below.
pub frame_index : Pmm → ℕ → Option ℕ
unfolding page_frame_number_from_physical
frame_index s p =
    if s.frame_metadata_size_bytes == 0 then none else page_frame_number_from_physical s p

pub set_metadata : Pmm → ℕ → PageFrameMetadata → Pmm
set_metadata s i m = record s { frame_metadata = update s.frame_metadata i m }

pub retain_at : Pmm → ℕ → Bool × Pmm
unfolding set_metadata
retain_at s i =
    let before = (s.frame_metadata i).ref_count in
    if (before == 0) || (before == max_count)
    then (false, s)
    else (true, set_metadata s i (record (s.frame_metadata i) { ref_count = before + 1 }))

-- A frame operation on an address: false, and no change, where the address has no frame.
pub with_frame : Pmm → Option ℕ → (Pmm → ℕ → Bool × Pmm) → Bool × Pmm
with_frame s none f = (false, s)
with_frame s (some i) f = f s i

pub retain_physical_page : Pmm → ℕ → Bool × Pmm
unfolding retain_at with_frame
retain_physical_page s p = with_frame s (frame_index s p) retain_at

pub release_at : Pmm → ℕ → Bool × Pmm
unfolding set_metadata
release_at s i =
    let m = s.frame_metadata i in
    let cleared = set_metadata s i (record m { ref_count = 0; flags = 0; reserved = 0 }) in
    let freed = set_page_free cleared i in
    if m.ref_count == 0
    then (false, s)
    else if m.ref_count == 1
    then (if not (m.map_count == 0) || not (is_page_used s i) then (false, s) else (
      true,
      record freed {
        free_page_count = add64 s.free_page_count 1;
        next_search_index = if ltb i s.next_search_index then i else s.next_search_index;
      },
    ))
    else (true, set_metadata s i (record m { ref_count = m.ref_count - 1 }))

pub release_physical_page : Pmm → ℕ → Bool × Pmm
unfolding release_at with_frame
release_physical_page s p = with_frame s (frame_index s p) release_at

pub free_page : Pmm → ℕ → Bool × Pmm
unfolding release_physical_page
free_page s p = release_physical_page s p

pub reference_count_for_physical : Pmm → ℕ → Option ℕ
reference_count_for_physical s p = elim (frame_index s p) [
  | none ↦ none
  | some i ↦ some (s.frame_metadata i).ref_count
]

pub map_count_for_physical : Pmm → ℕ → Option ℕ
map_count_for_physical s p = elim (frame_index s p) [
  | none ↦ none
  | some i ↦ some (s.frame_metadata i).map_count
]

pub increment_at : Pmm → ℕ → Bool × Pmm
unfolding set_metadata
increment_at s i =
    let before = (s.frame_metadata i).map_count in
    if before == max_count
    then (false, s)
    else (true, set_metadata s i (record (s.frame_metadata i) { map_count = before + 1 }))

pub decrement_at : Pmm → ℕ → Bool × Pmm
unfolding set_metadata
decrement_at s i =
    let before = (s.frame_metadata i).map_count in
    if before == 0
    then (false, s)
    else (true, set_metadata s i (record (s.frame_metadata i) { map_count = before - 1 }))

-- An aligned address outside the tracked span (a device's) has no count, and is accepted.
pub untracked : Pmm → ℕ → Bool
untracked s p =
    s.initialized
    && ((p % page_size_bytes) == 0)
    && (ltb p s.tracked_physical_base || leb s.tracked_physical_limit p)

pub increment_map_count_for_physical : Pmm → ℕ → Bool × Pmm
unfolding untracked increment_at with_frame
increment_map_count_for_physical s p =
    if untracked s p then (true, s) else with_frame s (frame_index s p) increment_at

pub decrement_map_count_for_physical : Pmm → ℕ → Bool × Pmm
unfolding untracked decrement_at with_frame
decrement_map_count_for_physical s p =
    if untracked s p then (true, s) else with_frame s (frame_index s p) decrement_at

-- Takes the free page at `index`.
pub take_page : Pmm → ℕ → Pmm
unfolding set_page_used set_metadata
take_page s index =
    let used = set_page_used s index in
    set_metadata
      (record used {
        free_page_count = sub64 s.free_page_count 1;
        next_search_index = (index + 1) % s.page_count;
      })
      index (record { ref_count = 1; map_count = 0; flags = 0; reserved = 0 })

-- The circular scan, with `left` of its rounds to go.
pub allocate_scan : Pmm → ℕ → ℕ → Option ℕ × Pmm
unfolding take_page is_page_used
allocate_scan s zero scan = (none, s)
allocate_scan s (suc left) scan =
    let index = (s.next_search_index + scan) % s.page_count in
    let next = allocate_scan s left (scan + 1) in
    if is_page_used s index
    then next
    else (some (page_index_to_physical s index), take_page s index)

pub allocate_page : Pmm → Option ℕ × Pmm
unfolding allocate_scan
allocate_page s =
    if not s.initialized || (s.free_page_count == 0) || (s.frame_metadata_size_bytes == 0)
    then (none, s)
    else allocate_scan s s.page_count 0

-- `ReserveRange`'s loop body.
pub reserve_page : Pmm → ℕ → Pmm
unfolding is_page_used set_page_used
reserve_page s i =
    if is_page_used s i
    then s
    else record (set_page_used s i) { free_page_count = sub64 s.free_page_count 1 }

pub reserve_range : Pmm → ℕ → ℕ → Bool × Pmm
unfolding mark_indices
reserve_range s physical_base size_bytes = if not s.initialized then (false, s) else (
  true,
  mark_indices reserve_page s (physical_range_to_page_indices s physical_base size_bytes),
)
