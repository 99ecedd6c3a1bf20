-- ===== src/Paging/Tables/Teardown.antt =====
-- rocinante/src/memory/paging.cpp: `FreeAllPageTables4KiB`.
use walden.Base.{Bool, Option, bit_and, false, if◌then◌else◌, ltb, none, not, some, suc, true}
use walden.Base.{zero, ℕ, ◌+◌, ◌-◌, ◌==◌, ◌||◌}
use walden.Paging.{AddressSpaceBits, Machine, PagingLayout, build_layout, entries_per_table}
use walden.Paging.{entry_is_present, entry_physical_page_base, global_bit, is_page_aligned}
use walden.Paging.{max_supported_level_count, page_table_page_from_physical}
use walden.Paging.Tables.{Memory, write_entry}
use walden.Pmm.{decrement_map_count_for_physical, free_page}

-- The memory, and whether a leaf with the global bit has been seen; without the out-pointer that is
-- dropped.
pub record Sweep : Type 0 where
  pub memory : Memory
  pub had_global : Bool

-- The two loops over a table's entries, with `left` of them to go: `visit` is the body's action on a
-- present entry, which is cleared when it succeeds.
pub sweep_entries : (Sweep → ℕ → Bool × Sweep) → ℕ → ℕ → ℕ → Sweep → Bool × Sweep
unfolding entry_is_present write_entry
sweep_entries visit table zero i s = (true, s)
sweep_entries visit table (suc left) i s =
    let entry = s.memory.tables table i in
    let (done, t) = visit s entry in
    let passed = sweep_entries visit table left (i + 1) s in
    let next =
      sweep_entries visit table left (i + 1)
        (record t { memory = write_entry t.memory table i 0 }) in
    if not (entry_is_present entry) then passed else if done then next else (false, t)

-- A leaf's frame is not freed; it has one mapping fewer.
pub sweep_leaf : ℕ → Sweep → ℕ → Bool × Sweep
sweep_leaf mask s entry =
    let (done, pmm) =
      decrement_map_count_for_physical s.memory.pmm (entry_physical_page_base entry mask) in
    (
      done,
      record {
        memory = record (s.memory) { pmm = pmm };
        had_global = s.had_global || not (bit_and entry global_bit == 0);
      },
    )

pub release_table : ℕ → Bool × Sweep → Bool × Sweep
release_table physical (false, s) = (false, s)
release_table physical (true, s) =
    let (done, pmm) = free_page s.memory.pmm physical in
    (done, record s { memory = record (s.memory) { pmm = pmm } })

pub free_all_page_tables_recursive : Machine → ℕ → ℕ → ℕ → Sweep → Bool × Sweep
unfolding is_page_aligned page_table_page_from_physical sweep_entries sweep_leaf release_table
free_all_page_tables_recursive m mask zero physical s =
    let table = page_table_page_from_physical m physical in
    let freed =
      release_table physical (sweep_entries (sweep_leaf mask) table entries_per_table 0 s) in
    if not (is_page_aligned physical) then (false, s) else if table == 0 then (false, s) else freed
free_all_page_tables_recursive m mask (suc level) physical s =
    let table = page_table_page_from_physical m physical in
    let visit : Sweep → ℕ → Bool × Sweep = λ t entry.
      let child =
        free_all_page_tables_recursive m mask level (entry_physical_page_base entry mask) t in
      if not (bit_and entry global_bit == 0) then (false, t) else child in
    let freed = release_table physical (sweep_entries visit table entries_per_table 0 s) in
    if not (is_page_aligned physical) then (false, s) else if table == 0 then (false, s) else freed

pub free_all_page_tables_in : Machine → Memory → ℕ → Option PagingLayout → Bool × Sweep
unfolding is_page_aligned free_all_page_tables_recursive
free_all_page_tables_in m s root none = (false, record { memory = s; had_global = false })
free_all_page_tables_in m s root (some l) =
    let start : Sweep = record { memory = s; had_global = false } in
    let freed =
      free_all_page_tables_recursive m l.physical_page_base_mask (l.level_count - 1) root start in
    if (l.level_count == 0) || ltb max_supported_level_count l.level_count
    then (false, start)
    else if root == 0
    then (false, start)
    else if not (is_page_aligned root)
    then (false, start)
    else freed

pub free_all_page_tables : Machine → Memory → ℕ → AddressSpaceBits → Bool × Sweep
unfolding build_layout free_all_page_tables_in
free_all_page_tables m s root bits = free_all_page_tables_in m s root (build_layout bits)
