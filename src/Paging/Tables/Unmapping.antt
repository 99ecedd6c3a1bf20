-- ===== src/Paging/Tables/Unmapping.antt =====
-- rocinante/src/memory/paging.cpp: `UnmapPage4KiB`.
pub mod Shrink
pub mod Reclaim
pub mod Removal
pub mod Pages
use walden.Base.{Bool, List, Option, [], bit_and, false, if◌then◌else◌, ltb, none, not, some, suc}
use walden.Base.{true, zero, ℕ, ◌-◌, ◌==◌, ◌∷◌}
use walden.Paging.{AddressSpaceBits, Machine, PagingLayout, address_space_bits_from_cpucfg}
use walden.Paging.{build_layout, entry_is_present, entry_physical_page_base, global_bit}
use walden.Paging.{index_from_virtual_address_at_level, is_page_aligned, is_phys_map_leaf_mapping}
use walden.Paging.{max_supported_level_count, page_table_page_from_physical}
use walden.Paging.{validate_virtual_address}
use walden.Paging.Tables.{Memory, table_is_empty, write_entry}
use walden.Pmm.{Pmm, decrement_map_count_for_physical, free_page}

-- A table on the way to the leaf, and the index of the table below in it: the entries of the three arrays
-- for a level.
pub record Frame : Type 0 where
  pub table : ℕ
  pub physical : ℕ
  pub child_index : ℕ

-- The descent, with the tables from the leaf up; none where the function returns false.
pub walk_tables : Machine → Memory → ℕ → ℕ → ℕ → ℕ → List Frame → Option (List Frame)
unfolding index_from_virtual_address_at_level entry_is_present page_table_page_from_physical
walk_tables m s mask v zero physical above =
    let table = page_table_page_from_physical m physical in
    if table == 0
    then none
    else some (record { table = table; physical = physical; child_index = 0 } ∷ above)
walk_tables m s mask v (suc level) physical above =
    let table = page_table_page_from_physical m physical in
    let index = index_from_virtual_address_at_level v (suc level) in
    let entry = s.tables table index in
    let this : Frame = record { table = table; physical = physical; child_index = index } in
    let next = walk_tables m s mask v level (entry_physical_page_base entry mask) (this ∷ above) in
    if table == 0
    then none
    else if not (bit_and entry global_bit == 0)
    then none
    else if entry_is_present entry
    then next
    else none

-- The page of an empty table is freed, and the entry above is cleared.
pub unlink_freed : ℕ → ℕ → Memory → Bool × Pmm → Bool × Memory
unfolding write_entry
unlink_freed parent index s (true, pmm) =
    (true, write_entry (record s { pmm = pmm }) parent index 0)
unlink_freed parent index s (false, pmm) = (false, record s { pmm = pmm })

-- The loop up to the table below the root. The tables are there: the descent has tested them.
pub reclaim : List Frame → Memory → Bool × Memory
unfolding table_is_empty unlink_freed
reclaim [] s = (true, s)
reclaim (current ∷ []) s = (true, s)
reclaim (current ∷ parent ∷ above) s =
    let (done, t) =
      unlink_freed parent.table parent.child_index s (free_page s.pmm current.physical) in
    let rest = reclaim (parent ∷ above) t in
    if not (table_is_empty s current.table)
    then (true, s)
    else if current.physical == 0
    then (false, s)
    else if done
    then rest
    else (false, t)

pub uncount_mapping : List Frame → ℕ → ℕ → Memory → Bool × Pmm → Bool × Memory
unfolding write_entry reclaim
uncount_mapping frames table index s (true, pmm) =
    reclaim frames (write_entry (record s { pmm = pmm }) table index 0)
uncount_mapping frames table index s (false, pmm) = (false, record s { pmm = pmm })

pub unmap_leaf : ℕ → AddressSpaceBits → ℕ → Memory → Option (List Frame) → Bool × Memory
unfolding index_from_virtual_address_at_level entry_is_present is_phys_map_leaf_mapping
    uncount_mapping
unmap_leaf mask bits v s none = (false, s)
unmap_leaf mask bits v s (some []) = (false, s)
unmap_leaf mask bits v s (some (leaf ∷ above)) =
    let index = index_from_virtual_address_at_level v 0 in
    let entry = s.tables leaf.table index in
    let mapped_physical = entry_physical_page_base entry mask in
    if not (entry_is_present entry)
    then (false, s)
    else if is_phys_map_leaf_mapping v mapped_physical bits
    then uncount_mapping (leaf ∷ above) leaf.table index s (true, s.pmm)
    else uncount_mapping (leaf ∷ above) leaf.table index s
        (decrement_map_count_for_physical s.pmm mapped_physical)

pub unmap_page_in :
    Machine → Memory → ℕ → ℕ → AddressSpaceBits → Option PagingLayout → Bool × Memory
unfolding validate_virtual_address is_page_aligned walk_tables unmap_leaf
unmap_page_in m s root v bits none = (false, s)
unmap_page_in m s root v bits (some l) =
    let mask = l.physical_page_base_mask in
    let unmapped = unmap_leaf mask bits v s (walk_tables m s mask v (l.level_count - 1) root []) in
    if root == 0
    then (false, s)
    else if not (validate_virtual_address v l)
    then (false, s)
    else if not (is_page_aligned v)
    then (false, s)
    else if ltb max_supported_level_count l.level_count
    then (false, s)
    else unmapped

pub unmap_page : Machine → Memory → ℕ → ℕ → AddressSpaceBits → Bool × Memory
unfolding build_layout unmap_page_in
unmap_page m s root v bits = unmap_page_in m s root v bits (build_layout bits)

pub unmap_page_with_cpucfg : Machine → Memory → ℕ → ℕ → Bool × Memory
unfolding unmap_page
unmap_page_with_cpucfg m s root v = unmap_page m s root v (address_space_bits_from_cpucfg m)
