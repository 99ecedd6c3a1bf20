-- ===== src/Boot/Tests.antt =====
-- rocinante/src/memory/boot_memory_map.cpp, `AddRegion` on a list of two regions.
use walden.Base.{List, [], arith, false, length, refl, true, ℕ, ◌+◌, ◌||◌, ◌∷◌, ◌≡◌, ◌≤◌, ◌⊎◌}
use walden.Base.Word.{word}
use walden.Boot.{BootMemoryRegion, RegionType, add_region, max_regions, usable_ram}
use walden.Boot.Regions.{IsProper, add_region_cases, described}

abbrev two_regions : List BootMemoryRegion
two_regions =
    record { physical_base = 4096; size_bytes = 4096; region_type = usable_ram }
    ∷ record { physical_base = 65536; size_bytes = 4096; region_type = RegionType.reserved }
    ∷ []

abbrev touching : BootMemoryRegion
touching = record { physical_base = 8192; size_bytes = 8192; region_type = usable_ram }

two_regions-IsProper : IsProper two_regions
unfolding IsProper
two_regions-IsProper = (omega arith, omega arith, (omega arith, omega arith, tt))

-- The region that touches the first one becomes part of it.
add_touching : add_region two_regions touching ≡ (
  true,
  record { physical_base = 4096; size_bytes = 12288; region_type = usable_ram }
      ∷ record { physical_base = 65536; size_bytes = 4096; region_type = RegionType.reserved }
      ∷ [],
)
unfolding add_region
add_touching = refl

add_region_cases_example :
    ((ys : List BootMemoryRegion) × (add_region two_regions touching ≡ (true, ys))
      × ((t : RegionType) (a : ℕ)
          → described t ys a ≡ (described t (touching ∷ []) a || described t two_regions a))
      × IsProper ys
      × (length ys ≤ max_regions))
    ⊎ (add_region two_regions touching ≡ (false, two_regions))
      × ((touching.size_bytes ≡ 0)
          ⊎ (word ≤ touching.physical_base + touching.size_bytes)
          ⊎ (length two_regions ≡ max_regions))
add_region_cases_example =
    add_region_cases two_regions touching two_regions-IsProper (omega arith) (omega arith)
      (omega arith)
