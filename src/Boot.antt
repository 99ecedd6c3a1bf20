-- ===== src/Boot.antt =====
-- rocinante/src/memory/boot_memory_map.h and boot_memory_map.cpp: the list of memory regions that the
-- boot environment reports, and `AddRegion`. The array's first `region_count` entries are the list.
-- Addresses and sizes are words below 2 ^ 64.
pub mod Regions
mod Tests
use package.walden.Base.{ℕ, Bool, true, false, ◌||◌, not, ltb, leb, ◌==◌, if◌then◌else◌}
use package.walden.Base.{List, [], ◌∷◌, ◌++◌, length, Option, none, some}
use package.walden.Base.Word.{add64, sub64}

pub data RegionType : Type 0 where
  usable_ram : RegionType
  reserved : RegionType

pub record BootMemoryRegion : Type 0 where
  pub physical_base : ℕ
  pub size_bytes : ℕ
  pub region_type : RegionType

abbrev pub max_regions : ℕ
max_regions = 64

abbrev pub is_usable : RegionType → Bool
is_usable usable_ram = true
is_usable reserved = false

abbrev pub is_reserved : RegionType → Bool
is_reserved usable_ram = false
is_reserved reserved = true

abbrev pub same_type : RegionType → RegionType → Bool
same_type usable_ram t = is_usable t
same_type reserved t = is_reserved t

-- The loop that merges a new region with an exactly adjacent one of its type; `none` if no entry is.
pub merge_adjacent : BootMemoryRegion → List BootMemoryRegion → Option (List BootMemoryRegion)
merge_adjacent region [] = none
merge_adjacent region (existing ∷ rest) =
    let later : Option (List BootMemoryRegion) = elim (merge_adjacent region rest) [
      | none ↦ none
      | some ys ↦ some (existing ∷ ys)
    ] in
    let existing_end = add64 existing.physical_base existing.size_bytes in
    let new_end = add64 region.physical_base region.size_bytes in
    if not (same_type existing.region_type region.region_type)
    then later
    else if ltb existing_end existing.physical_base
    then later
    else if existing_end == region.physical_base
    then some (record existing { size_bytes = sub64 new_end existing.physical_base } ∷ rest)
    else if new_end == existing.physical_base
    then some (
        record existing {
          physical_base = region.physical_base;
          size_bytes = sub64 existing_end region.physical_base;
        }
        ∷ rest)
    else later

pub add_region : List BootMemoryRegion → BootMemoryRegion → Bool × List BootMemoryRegion
unfolding merge_adjacent
add_region regions region =
    if (region.size_bytes == 0)
      || ltb (add64 region.physical_base region.size_bytes) region.physical_base
    then (false, regions)
    else elim (merge_adjacent region regions) [
      | some merged ↦ (true, merged)
      | none ↦
          if leb max_regions (length regions)
          then (false, regions)
          else (true, regions ++ (region ∷ []))
    ]
