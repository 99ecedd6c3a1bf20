-- ===== src/Paging/Tables.antt =====
-- rocinante/src/memory/paging.cpp: the operations on page tables.
--
-- `tables` gives the entries by the address at which the kernel accesses a table, and an index below 512:
-- two tables share no memory, and the manager's own memory is in its model. The manager is there, and
-- out-pointers are not null.
pub mod Walks
pub mod Growth
pub mod Progress
pub mod Descent
pub mod Leaves
pub mod Mapping
pub mod Pages
pub mod Roots
pub mod Ranges
pub mod Unmapping
pub mod Teardown
mod Tests
use walden.Base.{Bool, Option, bit_and, false, if◌then◌else◌, none, not, some, suc, true, update}
use walden.Base.{zero, ℕ, ◌+◌, ◌-◌, ◌==◌}
use walden.Base.Word.{add64}
use walden.Paging.{AddressSpaceBits, Machine, PagePermissions, PagingLayout}
use walden.Paging.{address_space_bits_from_cpucfg, build_layout, encode_leaf_entry}
use walden.Paging.{encode_table_pointer, entries_per_table, entry_is_present}
use walden.Paging.{entry_physical_page_base, global_bit, index_from_virtual_address_at_level}
use walden.Paging.{is_page_aligned, is_phys_map_leaf_mapping, page_offset_mask}
use walden.Paging.{page_table_page_from_physical, validate_physical_address}
use walden.Paging.{validate_virtual_address}
use walden.Pmm.{Pmm, allocate_page, increment_map_count_for_physical}

pub record Memory : Type 0 where
  pub pmm : Pmm
  pub tables : ℕ → ℕ → ℕ

pub write_entry : Memory → ℕ → ℕ → ℕ → Memory
write_entry s table index entry = record s {
  tables = update s.tables table (update (s.tables table) index entry);
}

-- `memset(table, 0, sizeof(PageTablePage))`
pub clear_table : Memory → ℕ → Memory
clear_table s table = record s { tables = update s.tables table (λ i. 0) }

-- The loop over the entries with `left` of them to go.
pub empty_from : (ℕ → ℕ) → ℕ → ℕ → Bool
unfolding entry_is_present
empty_from entries zero i = true
empty_from entries (suc left) i =
    let rest = empty_from entries left (i + 1) in
    if entry_is_present (entries i) then false else rest

pub table_is_empty : Memory → ℕ → Bool
unfolding empty_from
table_is_empty s table =
    if table == 0 then false else empty_from (s.tables table) entries_per_table 0

-- The page that the manager returns, zeroed and entered in the table.
pub install_table : Machine → ℕ → ℕ → ℕ → Memory → Option ℕ × Pmm → Option ℕ × Memory
unfolding is_page_aligned page_table_page_from_physical clear_table write_entry encode_table_pointer
install_table m mask table index s (none, pmm) = (none, record s { pmm = pmm })
install_table m mask table index s (some p, pmm) =
    let t = record s { pmm = pmm } in
    let new_table = page_table_page_from_physical m p in
    if is_page_aligned p
    then (
      some new_table,
      write_entry (clear_table t new_table) table index (encode_table_pointer p mask),
    )
    else (none, t)

pub ensure_next_level_table : Machine → ℕ → Memory → ℕ → ℕ → Option ℕ × Memory
unfolding entry_is_present page_table_page_from_physical install_table
ensure_next_level_table m mask s table index =
    let entry = s.tables table index in
    if table == 0
    then (none, s)
    else if entry_is_present entry
    then (if bit_and entry global_bit == 0
        then (some (page_table_page_from_physical m (entry_physical_page_base entry mask)), s)
        else (none, s))
    else install_table m mask table index s (allocate_page s.pmm)

-- `MapPage4KiB`'s descent, to the address of the leaf table; none where the function returns false.
pub ensure_leaf_table : Machine → ℕ → ℕ → ℕ → Option ℕ × Memory → Option ℕ × Memory
unfolding index_from_virtual_address_at_level ensure_next_level_table
ensure_leaf_table m mask v level (none, s) = (none, s)
ensure_leaf_table m mask v zero (some table, s) = if table == 0 then (none, s) else (some table, s)
ensure_leaf_table m mask v (suc level) (some table, s) =
    let index = index_from_virtual_address_at_level v (suc level) in
    let next = ensure_leaf_table m mask v level (ensure_next_level_table m mask s table index) in
    if table == 0 then (none, s) else next

pub count_mapping : Memory → ℕ → ℕ → Bool × Pmm → Bool × Memory
unfolding write_entry
count_mapping s table index (true, pmm) = (true, record s { pmm = pmm })
count_mapping s table index (false, pmm) =
    (false, write_entry (record s { pmm = pmm }) table index 0)

pub map_leaf : ℕ → AddressSpaceBits → ℕ → ℕ → PagePermissions → Option ℕ × Memory → Bool × Memory
unfolding index_from_virtual_address_at_level entry_is_present encode_leaf_entry write_entry
    is_phys_map_leaf_mapping count_mapping
map_leaf mask bits v p permissions (none, s) = (false, s)
map_leaf mask bits v p permissions (some table, s) =
    let index = index_from_virtual_address_at_level v 0 in
    let t = write_entry s table index (encode_leaf_entry p mask permissions) in
    if entry_is_present (s.tables table index)
    then (false, s)
    else if is_phys_map_leaf_mapping v p bits
    then (true, t)
    else count_mapping t table index (increment_map_count_for_physical t.pmm p)

-- A root is the physical address of its table.
pub map_page_in :
    Machine
    → Memory
    → ℕ
    → ℕ
    → ℕ
    → PagePermissions
    → AddressSpaceBits
    → Option PagingLayout
    → Bool × Memory
unfolding validate_virtual_address validate_physical_address is_page_aligned
    page_table_page_from_physical ensure_leaf_table map_leaf
map_page_in m s root v p permissions bits none = (false, s)
map_page_in m s root v p permissions bits (some l) =
    let table = page_table_page_from_physical m root in
    let mask = l.physical_page_base_mask in
    let mapped =
      map_leaf mask bits v p permissions
        (ensure_leaf_table m mask v (l.level_count - 1) (some table, s)) in
    if root == 0
    then (false, s)
    else if not (validate_virtual_address v l)
    then (false, s)
    else if not (validate_physical_address p l)
    then (false, s)
    else if not (is_page_aligned v)
    then (false, s)
    else if not (is_page_aligned p)
    then (false, s)
    else if table == 0
    then (false, s)
    else mapped

pub map_page : Machine → Memory → ℕ → ℕ → ℕ → PagePermissions → AddressSpaceBits → Bool × Memory
unfolding build_layout map_page_in
map_page m s root v p permissions bits =
    map_page_in m s root v p permissions bits (build_layout bits)

pub map_page_with_cpucfg : Machine → Memory → ℕ → ℕ → ℕ → PagePermissions → Bool × Memory
unfolding map_page
map_page_with_cpucfg m s root v p permissions =
    map_page m s root v p permissions (address_space_bits_from_cpucfg m)

-- `Translate`'s descent, to the address of the leaf table.
pub leaf_table : Machine → Memory → ℕ → ℕ → ℕ → ℕ → Option ℕ
unfolding index_from_virtual_address_at_level entry_is_present page_table_page_from_physical
leaf_table m s mask v zero table = if table == 0 then none else some table
leaf_table m s mask v (suc level) table =
    let entry = s.tables table (index_from_virtual_address_at_level v (suc level)) in
    let next =
      leaf_table m s mask v level
        (page_table_page_from_physical m (entry_physical_page_base entry mask)) in
    if table == 0
    then none
    else if not (bit_and entry global_bit == 0)
    then none
    else if entry_is_present entry
    then next
    else none

pub translated : Memory → ℕ → ℕ → Option ℕ → Option ℕ
unfolding index_from_virtual_address_at_level entry_is_present
translated s mask v none = none
translated s mask v (some table) =
    let entry = s.tables table (index_from_virtual_address_at_level v 0) in
    if entry_is_present entry
    then some (add64 (entry_physical_page_base entry mask) (bit_and v page_offset_mask))
    else none

pub translate_in : Machine → Memory → ℕ → ℕ → Option PagingLayout → Option ℕ
unfolding validate_virtual_address page_table_page_from_physical leaf_table translated
translate_in m s root v none = none
translate_in m s root v (some l) =
    let mask = l.physical_page_base_mask in
    let found = leaf_table m s mask v (l.level_count - 1) (page_table_page_from_physical m root) in
    if root == 0
    then none
    else if validate_virtual_address v l
    then translated s mask v found
    else none

pub translate : Machine → Memory → ℕ → ℕ → AddressSpaceBits → Option ℕ
unfolding build_layout translate_in
translate m s root v bits = translate_in m s root v (build_layout bits)

pub translate_with_cpucfg : Machine → Memory → ℕ → ℕ → Option ℕ
unfolding translate
translate_with_cpucfg m s root v = translate m s root v (address_space_bits_from_cpucfg m)

pub root_table : Machine → Memory → Option ℕ × Pmm → Option ℕ × Memory
unfolding is_page_aligned page_table_page_from_physical clear_table
root_table m s (none, pmm) = (none, record s { pmm = pmm })
root_table m s (some p, pmm) =
    let t = record s { pmm = pmm } in
    if is_page_aligned p
    then (some p, clear_table t (page_table_page_from_physical m p))
    else (none, t)

pub allocate_root_page_table : Machine → Memory → Option ℕ × Memory
unfolding root_table
allocate_root_page_table m s = root_table m s (allocate_page s.pmm)
