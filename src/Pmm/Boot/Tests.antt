-- ===== src/Pmm/Boot/Tests.antt =====
-- rocinante/src/memory/pmm.cpp: the initialisation on a small machine of 15 pages from 4 KiB, the
-- first reserved, with a kernel of two pages and a device tree in the page behind it.
use walden.Base.{[], arith, false, refl, true, ℕ, ◌*◌, ◌+◌, ◌<◌, ◌↔◌, ◌∷◌, ◌≡◌, ◌⊎◌}
use walden.Boot.{RegionType, is_usable, usable_ram}
use walden.Pmm.{Pmm, align_down, align_up, is_page_used, page_size_bytes}
use walden.Pmm.Boot.{allocate_bitmap, allocate_frame_metadata, empty_metadata}
use walden.Pmm.Boot.{initialize_from_boot_memory_map, mark_pages, set_up, track}
use walden.Pmm.Boot.Marks.{Same}
use walden.Pmm.Boot.Policy.{AreWords, InRegion, RegionsAreWords, Withheld, mark_pages-free}
use walden.Pmm.Boot.Ready.{Policy, initialize-IsWellFormed, set-used}
use walden.Pmm.Invariant.{IsSpanned, IsWellFormed}
use walden.Pmm.Placement.{Surroundings, place}
use walden.Pmm.Placement.Obstacles.{SurroundedByWords}

abbrev machine : Surroundings
machine = record {
  physical_address_bits = 48;
  regions =
      record { physical_base = 4096; size_bytes = 61440; region_type = usable_ram }
      ∷ record { physical_base = 4096; size_bytes = 4096; region_type = RegionType.reserved }
      ∷ [];
  kernel_physical_base = 8192;
  kernel_physical_end = 16384;
  device_tree_physical_base = 17000;
  device_tree_size_bytes = 1000;
  bitmap_physical_base = 0;
  bitmap_size_bytes = 0;
}

abbrev blank : Pmm
blank = record {
  bitmap_physical_base = 0;
  bitmap_size_bytes = 0;
  frame_metadata_physical_base = 0;
  frame_metadata_size_bytes = 0;
  tracked_physical_base = 0;
  tracked_physical_limit = 0;
  page_count = 0;
  free_page_count = 0;
  next_search_index = 0;
  initialized = false;
  bitmap = λ i. 0;
  frame_metadata = λ i. empty_metadata;
}

-- The bitmap goes behind the device tree, and the metadata behind the bitmap.
place_bitmap : place machine machine.regions 4096 ≡ 20480
unfolding place align_up
place_bitmap = refl

machine-words : RegionsAreWords machine.regions
unfolding RegionsAreWords
machine-words = (omega arith, omega arith, (omega arith, omega arith, tt))

machine-SurroundedByWords : SurroundedByWords machine
machine-SurroundedByWords = record {
  regions = machine-words;
  kernel = (omega arith, omega arith);
  device_tree = (omega arith, omega arith);
  bitmap = (omega arith, omega arith);
}

-- The machine above has a place for everything.
initialize_machine : (initialize_from_boot_memory_map machine blank).0 ≡ true
unfolding initialize_from_boot_memory_map track set_up allocate_bitmap allocate_frame_metadata place
    align_up align_down
initialize_machine = refl

initialize-IsWellFormed_example :
    ((initialize_from_boot_memory_map machine blank).0 ≡ false)
    ⊎ ((initialize_from_boot_memory_map machine blank).0 ≡ true)
      × IsWellFormed (initialize_from_boot_memory_map machine blank).1
      × Policy machine
          (initialize_from_boot_memory_map machine blank).1
          (initialize_from_boot_memory_map machine blank).1
initialize-IsWellFormed_example =
    initialize-IsWellFormed machine blank machine-SurroundedByWords
      (λ i. (omega arith, omega arith))

-- The same span with its storage in place and every page used.
abbrev all_used : Pmm
all_used = record blank {
  bitmap_physical_base = 20480;
  bitmap_size_bytes = 4096;
  frame_metadata_physical_base = 24576;
  frame_metadata_size_bytes = 4096;
  tracked_physical_base = 4096;
  tracked_physical_limit = 65536;
  page_count = 15;
  bitmap = λ i. 255;
}

all_used-IsSpanned : IsSpanned all_used
all_used-IsSpanned = record {
  bitmap_there = omega arith;
  base_aligned = refl;
  span = refl;
  limit_word = omega arith;
  some_page = omega arith;
}

all_used-AreWords : AreWords machine all_used
all_used-AreWords = record {
  regions = machine-words;
  kernel = (omega arith, omega arith);
  device_tree = (omega arith, omega arith);
  bitmap = (omega arith, omega arith);
  metadata = (omega arith, omega arith);
}

mark_pages-free_example :
    Same all_used (mark_pages machine all_used)
    × ((j : ℕ)
        → j < all_used.page_count
        → (is_page_used (mark_pages machine all_used) j ≡ false) ↔ (
            InRegion is_usable machine.regions
              (all_used.tracked_physical_base + j * page_size_bytes)
            × ¬ Withheld machine all_used (all_used.tracked_physical_base + j * page_size_bytes)))
mark_pages-free_example =
    mark_pages-free machine all_used all_used-IsSpanned all_used-AreWords
      (λ j h. set-used all_used j (omega arith) refl)
