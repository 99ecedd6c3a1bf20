-- ===== src/Layout/Tests.antt =====
-- rocinante/src/memory/virtual_layout.h for addresses of 48 bits.
use walden.Base.{arith, refl, ◌+◌, ◌-◌, ◌<◌, ◌^◌, ◌≡◌, ◌≤◌, ◌⊎◌}
use walden.Base.Word.{word}
use walden.Layout.{from_phys_map_virtual, phys_map_base, phys_map_max_physical_address_exclusive}
use walden.Layout.{to_phys_map_virtual}
use walden.Layout.Window.{to_phys_map_virtual_cases}

window_base : phys_map_base 48 ≡ 2 ^ 64 - 2 ^ 47 + 2 ^ 30
unfolding phys_map_base
window_base = refl

to_phys_map_virtual_cases_example :
    ((4096 < phys_map_max_physical_address_exclusive 48)
      × (to_phys_map_virtual 4096 48 ≡ phys_map_base 48 + 4096)
      × (word - 2 ^ (48 - 1) ≤ to_phys_map_virtual 4096 48)
      × (to_phys_map_virtual 4096 48 < word)
      × (from_phys_map_virtual (to_phys_map_virtual 4096 48) 48 ≡ 4096))
    ⊎ ((phys_map_max_physical_address_exclusive 48 ≤ 4096)
        × (to_phys_map_virtual 4096 48 < phys_map_base 48))
to_phys_map_virtual_cases_example =
    to_phys_map_virtual_cases 48 4096 (omega arith) (omega arith) (omega arith)
