-- ===== src/Layout.antt =====
-- rocinante/src/memory/virtual_layout.h: the base of the higher half, and the window there that maps
-- physical memory. `bits` is the width of virtual addresses that CPUCFG reports, at most 255.
pub mod Window
mod Tests
use package.walden.Base.{ℕ, ◌+◌, ◌-◌, ◌*◌, ◌%◌, ◌^◌, bit_or, ◌||◌, leb, ◌==◌, if◌then◌else◌}
use package.walden.Base.Word.{add64, sub64, mul64, word}

-- A shift to the left is a product, modulo 2 ^ 64.
pub canonical_high_half_base : ℕ → ℕ
canonical_high_half_base bits =
    if (bits == 0) || leb 64 bits then 0 else bit_or (mul64 (word - 1) (2 ^ bits)) (2 ^ (bits - 1))

abbrev pub kernel_higher_half_offset_bytes : ℕ
kernel_higher_half_offset_bytes = 0

abbrev pub phys_map_offset_bytes : ℕ
phys_map_offset_bytes = 1073741824

pub kernel_higher_half_base : ℕ → ℕ
unfolding canonical_high_half_base
kernel_higher_half_base bits = add64 (canonical_high_half_base bits) kernel_higher_half_offset_bytes

pub phys_map_base : ℕ → ℕ
unfolding canonical_high_half_base
phys_map_base bits = add64 (canonical_high_half_base bits) phys_map_offset_bytes

-- No word is above the greatest one, so the source's second test never holds.
pub phys_map_max_physical_address_exclusive : ℕ → ℕ
unfolding phys_map_base
phys_map_max_physical_address_exclusive bits =
    if phys_map_base bits == 0 then 0 else add64 (word - 1 - phys_map_base bits) 1

pub to_phys_map_virtual : ℕ → ℕ → ℕ
unfolding phys_map_base
to_phys_map_virtual physical_address bits = add64 (phys_map_base bits) physical_address

pub from_phys_map_virtual : ℕ → ℕ → ℕ
unfolding phys_map_base
from_phys_map_virtual virtual_address bits = sub64 virtual_address (phys_map_base bits)
