-- ===== src/Paging/Tables/Ranges.antt =====
-- rocinante/src/memory/paging.cpp: `MapRange4KiB`.
pub mod Extent
use walden.Base.{Bool, Option, false, if◌then◌else◌, none, not, some, suc, true, zero, ℕ, ◌%◌}
use walden.Base.{◌/◌, ◌==◌}
use walden.Base.Word.{add64}
use walden.Paging.{AddressSpaceBits, Machine, PagePermissions, PagingLayout}
use walden.Paging.{address_space_bits_from_cpucfg, build_layout, is_page_aligned}
use walden.Paging.{validate_physical_address, validate_virtual_address}
use walden.Paging.Tables.{Memory, map_page}
use walden.Pmm.{page_size_bytes}

-- The loop, over `pages` pages.
pub map_pages :
    Machine → ℕ → PagePermissions → AddressSpaceBits → ℕ → ℕ → ℕ → Memory → Bool × Memory
unfolding map_page
map_pages m root permissions bits zero v p s = (true, s)
map_pages m root permissions bits (suc pages) v p s =
    let (done, t) = map_page m s root v p permissions bits in
    let rest =
      map_pages m root permissions bits pages (add64 v page_size_bytes) (add64 p page_size_bytes)
        t in
    if done then rest else (false, t)

pub map_range_in :
    Machine
    → Memory
    → ℕ
    → ℕ
    → ℕ
    → ℕ
    → PagePermissions
    → AddressSpaceBits
    → Option PagingLayout
    → Bool × Memory
unfolding is_page_aligned validate_virtual_address validate_physical_address map_pages
map_range_in m s root v p size permissions bits none = (false, s)
map_range_in m s root v p size permissions bits (some l) =
    let done = map_pages m root permissions bits (size / page_size_bytes) v p s in
    if not (is_page_aligned v)
    then (false, s)
    else if not (is_page_aligned p)
    then (false, s)
    else if not ((size % page_size_bytes) == 0)
    then (false, s)
    else if not (validate_virtual_address v l)
    then (false, s)
    else if not (validate_physical_address p l)
    then (false, s)
    else done

pub map_range :
    Machine → Memory → ℕ → ℕ → ℕ → ℕ → PagePermissions → AddressSpaceBits → Bool × Memory
unfolding build_layout map_range_in
map_range m s root v p size permissions bits =
    map_range_in m s root v p size permissions bits (build_layout bits)

pub map_range_with_cpucfg : Machine → Memory → ℕ → ℕ → ℕ → ℕ → PagePermissions → Bool × Memory
unfolding map_range
map_range_with_cpucfg m s root v p size permissions =
    map_range m s root v p size permissions (address_space_bits_from_cpucfg m)
