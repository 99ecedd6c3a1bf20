-- ===== src/Paging/Tables/Tests.antt =====
-- rocinante/src/memory/paging.cpp with two levels, on four pages from 4 KiB, the first of which is the
-- root's table.
use walden.Base.{==→≡, Bool-cases, List, Option, [], ap, arith, bit_and, false, if◌then◌else◌}
use walden.Base.{inl, inr, length, none, refl, some, some-injective, subst, suc, sym, true, zero}
use walden.Base.{ℕ, ◌&&◌, ◌*◌, ◌+◌, ◌-◌, ◌/◌, ◌<◌, ◌==◌, ◌^◌, ◌↔◌, ◌∙◌, ◌∷◌, ◌≡◌, ◌≤◌, ◌⊎◌}
use walden.Paging.{AddressSpaceBits, Machine, PagePermissions, PagingLayout, build_layout}
use walden.Paging.{coherent_cached, encode_leaf_entry, encode_table_pointer, entries_per_table}
use walden.Paging.{entry_is_present, entry_physical_page_base, global_bit}
use walden.Paging.{index_from_virtual_address_at_level, is_mapped_address_translation_mode}
use walden.Paging.{level_count_from_virtual_address_bits, mask_from_bits, no_execute}
use walden.Paging.{page_table_page_from_physical, physical_page_base_mask_from_bits, read_write}
use walden.Paging.{validate_virtual_address}
use walden.Paging.Coverage.{build_layout_bounds, same_indices_iff}
use walden.Paging.Entries.{encode_leaf_entry_lem, encode_table_pointer_lem}
use walden.Paging.Flags.{zero-absent}
use walden.Paging.Tables.{Memory, allocate_root_page_table, map_page}
use walden.Paging.Tables.Mapping.{Maps}
use walden.Paging.Tables.Pages.{Rooted, Translations, accepts, map_page-Maps, translate-map_page}
use walden.Paging.Tables.Ranges.{map_range}
use walden.Paging.Tables.Ranges.Extent.{Extends, map_range-Extends}
use walden.Paging.Tables.Roots.{allocate_root-Tree, at_root, emptied, root_only}
use walden.Paging.Tables.Unmapping.{unmap_page}
use walden.Paging.Tables.Unmapping.Pages.{Removes, translate-unmap_page}
use walden.Paging.Tables.Walks.{Setting, Tree, child_of, frame, list-head, list-tail, resolve}
use walden.Paging.Tables.Walks.{table_of}
use walden.Pmm.{Pmm, is_page_used}
use walden.Pmm.Tests.{four_pages, four_pages-IsWellFormed, page_0-used, page_1-used}

-- Direct addressing.
abbrev cpu : Machine
cpu = record {
  current_mode_information = 8;
  paging_state_bits = none;
  cpucfg_virtual_address_bits = 30;
  cpucfg_physical_address_bits = 16;
}

abbrev widths : AddressSpaceBits
widths = record { virtual_address_bits = 30; physical_address_bits = 16 }

abbrev memory : Memory
memory = record { pmm = four_pages; tables = λ t i. 0 }

direct : (p : ℕ) → page_table_page_from_physical cpu p ≡ p
unfolding page_table_page_from_physical is_mapped_address_translation_mode
direct p = refl

frames_fit :
    (n : ℕ) → n < 4 → bit_and (frame 4096 n) (physical_page_base_mask_from_bits 16) ≡ frame 4096 n
unfolding physical_page_base_mask_from_bits mask_from_bits
frames_fit zero h = refl
frames_fit (suc zero) h = refl
frames_fit (suc (suc zero)) h = refl
frames_fit (suc (suc (suc zero))) h = refl
frames_fit (suc (suc (suc (suc n)))) h = absurd (omega arith)

abbrev setting : Setting
setting = record {
  machine = cpu;
  physical_bits = 16;
  top_level = 1;
  top = 4096;
  base = 4096;
  count = 4;
  least = omega arith;
  most = omega arith;
  limit = omega arith;
  apart = λ n k h q e. omega (arith, direct (frame 4096 n), direct (frame 4096 k), e);
  fits = frames_fit;
}

abbrev only_root : ℕ → Option (List ℕ)
only_root t = if t == 4096 then some [] else none

memory-Tree : Tree setting only_root memory
memory-Tree = record {
  manager = four_pages-IsWellFormed;
  same_base = refl;
  same_count = refl;
  rooted = refl;
  owned = λ t π known. (0, omega arith, ground (arith, known, direct (frame 4096 0)), page_0-used);
  nonnull = λ t π known e. ground (arith, known, e);
  free_nonnull = λ n h free e. absurd (omega (arith, direct (frame 4096 n), e));
  children = λ t π i known above index there. absurd (ground (arith, zero-absent, there));
  linked = λ u i π known. absurd (ground (arith, known));
  only_top = λ u known. ground (arith, known);
}

abbrev two_levels : PagingLayout
two_levels = record {
  virtual_address_bits = 30;
  physical_address_bits = 16;
  level_count = 2;
  virtual_address_low_mask = 2 ^ 30 - 1;
  physical_address_mask = 2 ^ 16 - 1;
  physical_page_base_mask = 61440;
}

widths-layout : build_layout widths ≡ some two_levels
unfolding build_layout level_count_from_virtual_address_bits mask_from_bits
    physical_page_base_mask_from_bits
widths-layout = refl

widths-Rooted : Rooted setting 4096 widths two_levels
widths-Rooted = record {
  layout = widths-layout;
  physical = refl;
  levels = refl;
  at = direct 4096;
  nonzero = omega arith;
}

abbrev kernel_data : PagePermissions
kernel_data = record {
  access = read_write;
  execute = no_execute;
  cache = coherent_cached;
  is_global = true;
}

map_page-Maps_example :
    ((accepts two_levels (2 ^ 21) 8192 ≡ true)
      × Maps setting widths
          (2 ^ 21)
          8192
          only_root
          memory
          (map_page cpu memory 4096 (2 ^ 21) 8192 kernel_data widths))
    ⊎ (accepts two_levels (2 ^ 21) 8192 ≡ false)
      × (map_page cpu memory 4096 (2 ^ 21) 8192 kernel_data widths ≡ (false, memory))
map_page-Maps_example =
    map_page-Maps setting 4096 widths two_levels widths-Rooted only_root memory memory-Tree (2 ^ 21)
      8192 kernel_data (omega arith)

translate-map_page_example :
    Translations setting 4096 widths two_levels widths-Rooted only_root memory memory-Tree
      (2 ^ 21)
      8192
      kernel_data
      (map_page cpu memory 4096 (2 ^ 21) 8192 kernel_data widths)
translate-map_page_example =
    translate-map_page setting 4096 widths two_levels widths-Rooted only_root memory memory-Tree
      (2 ^ 21) 8192 kernel_data (omega arith)

encode_leaf_entry_lem_example :
    (entry_is_present (encode_leaf_entry 8192 (physical_page_base_mask_from_bits 16) kernel_data)
      ≡ true)
    × (entry_physical_page_base
          (encode_leaf_entry 8192 (physical_page_base_mask_from_bits 16) kernel_data)
          (physical_page_base_mask_from_bits 16)
        ≡ 8192)
encode_leaf_entry_lem_example =
    encode_leaf_entry_lem 16 (omega arith) (omega arith) 8192 kernel_data (omega arith) refl

map_range-Extends_example :
    Extends setting 4096 widths two_levels widths-Rooted kernel_data 2
      (2 ^ 21)
      8192
      memory
      (map_range cpu memory 4096 (2 ^ 21) 8192 8192 kernel_data widths)
map_range-Extends_example =
    map_range-Extends setting 4096 widths two_levels widths-Rooted kernel_data only_root memory
      (2 ^ 21) 8192 8192 memory-Tree (omega arith) (omega arith)

encode_table_pointer_lem_example :
    (entry_is_present (encode_table_pointer 8192 (physical_page_base_mask_from_bits 16)) ≡ true)
    × (bit_and (encode_table_pointer 8192 (physical_page_base_mask_from_bits 16)) global_bit ≡ 0)
    × (entry_physical_page_base
          (encode_table_pointer 8192 (physical_page_base_mask_from_bits 16))
          (physical_page_base_mask_from_bits 16)
        ≡ 8192)
encode_table_pointer_lem_example =
    encode_table_pointer_lem 16 (omega arith) (omega arith) 8192 (omega arith) refl

-- With a second table, in the second page, through which the first page is mapped at 2 ^ 21.
abbrev mapped_memory : Memory
mapped_memory = record {
  pmm = four_pages;
  tables =
      λ t i. if (t == 4096) && (i == 1) then 8321 else if (t == 8192) && (i == 0) then 4225 else 0;
}

abbrev two_tables : ℕ → Option (List ℕ)
two_tables t = if t == 4096 then some [] else if t == 8192 then some (1 ∷ []) else none

pointer-present : entry_is_present 8321 ≡ true
unfolding entry_is_present
pointer-present = refl

pointer_leads : child_of setting 8321 ≡ 8192
unfolding page_table_page_from_physical is_mapped_address_translation_mode
    physical_page_base_mask_from_bits mask_from_bits
pointer_leads = refl

mapped_memory-children :
    (t : ℕ) (π : List ℕ) (i : ℕ)
    → two_tables t ≡ some π
    → length π < 1
    → entry_is_present (mapped_memory.tables t i) ≡ true
    → (bit_and (mapped_memory.tables t i) global_bit ≡ 0)
      × (two_tables (child_of setting (mapped_memory.tables t i)) ≡ some (i ∷ π))
mapped_memory-children t π i known above there = elim (Bool-cases (t == 4096)) [
  | inr other ↦ elim (Bool-cases (t == 8192)) [
    | inr neither ↦ absurd (ground (arith, known, other, neither))
    | inl second ↦
        let lengths =
          ap length (some-injective (1 ∷ []) π (ground (arith, known, other, second))) in
        absurd (omega (arith, lengths, above))
  ]
  | inl first ↦
      let place = some-injective [] π (ground (arith, known, first)) in
      elim (Bool-cases (i == 1)) [
        | inr other ↦
            let zero_entry : mapped_memory.tables t i ≡ 0 = ground (arith, other, first) in
            absurd (ground (arith, zero-absent, ap entry_is_present zero_entry, there))
        | inl second ↦
            let pointer : mapped_memory.tables t i ≡ 8321 = ground (arith, first, second) in
            let places : 1 ∷ [] ≡ i ∷ π =
              ap (λ j. j ∷ []) (sym (==→≡ i 1 second)) ∙ ap (λ ρ. i ∷ ρ) place in
            subst
              (λ e. (bit_and e global_bit ≡ 0) × (two_tables (child_of setting e) ≡ some (i ∷ π)))
              (sym pointer) (refl, ap two_tables pointer_leads ∙ ap some places)
      ]
]

mapped_memory-linked :
    (u i : ℕ) (π : List ℕ)
    → two_tables u ≡ some (i ∷ π)
    → (t : ℕ) × (two_tables t ≡ some π)
      × (length π < 1)
      × (i < entries_per_table)
      × (entry_is_present (mapped_memory.tables t i) ≡ true)
      × (child_of setting (mapped_memory.tables t i) ≡ u)
mapped_memory-linked u i π known = elim (Bool-cases (u == 4096)) [
  | inl first ↦ absurd (ground (arith, known, first))
  | inr other ↦ elim (Bool-cases (u == 8192)) [
    | inr neither ↦ absurd (ground (arith, known, other, neither))
    | inl second ↦
        let places = some-injective (1 ∷ []) (i ∷ π) (ground (arith, known, other, second)) in
        subst
          (λ ρ.
            (t : ℕ) × (two_tables t ≡ some ρ)
            × (length ρ < 1)
            × (i < entries_per_table)
            × (entry_is_present (mapped_memory.tables t i) ≡ true)
            × (child_of setting (mapped_memory.tables t i) ≡ u))
          (list-tail places)
          (subst
            (λ k.
              (t : ℕ) × (two_tables t ≡ some [])
              × (0 < 1)
              × (k < entries_per_table)
              × (entry_is_present (mapped_memory.tables t k) ≡ true)
              × (child_of setting (mapped_memory.tables t k) ≡ u))
            (list-head places)
            (
              4096,
              refl,
              omega arith,
              omega arith,
              pointer-present,
              pointer_leads ∙ sym (==→≡ u 8192 second),
            ))
  ]
]

mapped_memory-Tree : Tree setting two_tables mapped_memory
mapped_memory-Tree = record {
  manager = four_pages-IsWellFormed;
  same_base = refl;
  same_count = refl;
  rooted = refl;
  owned = λ t π known. elim (Bool-cases (t == 4096)) [
    | inl first ↦ (0, omega arith, ground (arith, first, direct (frame 4096 0)), page_0-used)
    | inr other ↦ elim (Bool-cases (t == 8192)) [
      | inl second ↦ (1, omega arith, ground (arith, second, direct (frame 4096 1)), page_1-used)
      | inr neither ↦ absurd (ground (arith, known, other, neither))
    ]
  ];
  nonnull = λ t π known e. ground (arith, known, e);
  free_nonnull = λ n h free e. absurd (omega (arith, direct (frame 4096 n), e));
  children = λ t π i known above index there. mapped_memory-children t π i known above there;
  linked = mapped_memory-linked;
  only_top = λ u known. elim (Bool-cases (u == 4096)) [
    | inl first ↦ ==→≡ u 4096 first
    | inr other ↦ elim (Bool-cases (u == 8192)) [
      | inl second ↦ absurd (ground (arith, known, other, second))
      | inr neither ↦ absurd (ground (arith, known, other, neither))
    ]
  ];
}

translate-unmap_page_example :
    Removes setting 4096 widths two_levels widths-Rooted two_tables mapped_memory mapped_memory-Tree
      (2 ^ 21)
      (unmap_page cpu mapped_memory 4096 (2 ^ 21) widths)
translate-unmap_page_example =
    translate-unmap_page setting 4096 widths two_levels widths-Rooted two_tables mapped_memory
      mapped_memory-Tree (2 ^ 21) (omega arith)

allocate_root-Tree_example :
    ((n : ℕ) × (pmm : Pmm) × (n < 4)
      × (is_page_used four_pages n ≡ false)
      × (allocate_root_page_table cpu memory ≡ (
        some (frame 4096 n),
        emptied setting memory four_pages-IsWellFormed refl refl memory-Tree.free_nonnull n pmm,
      ))
      × Tree
          (at_root setting memory four_pages-IsWellFormed refl refl memory-Tree.free_nonnull n)
          (root_only setting memory four_pages-IsWellFormed refl refl memory-Tree.free_nonnull n)
          (emptied setting memory four_pages-IsWellFormed refl refl memory-Tree.free_nonnull n pmm)
      × ((w : ℕ)
          → resolve setting
              (emptied setting memory four_pages-IsWellFormed refl refl memory-Tree.free_nonnull n
                pmm)
              w
              1
              (table_of setting n)
            ≡ none))
    ⊎ (allocate_root_page_table cpu memory ≡ (none, memory))
      × ((n : ℕ) → n < 4 → is_page_used four_pages n ≡ true)
allocate_root-Tree_example =
    allocate_root-Tree setting memory four_pages-IsWellFormed refl refl memory-Tree.free_nonnull

build_layout_bounds_example :
    (0 < 2)
    × (2 ≤ 6)
    × (30 ≤ 12 + 9 * 2)
    × (12 < 16)
    × (16 ≤ 61)
    × (two_levels.virtual_address_bits ≡ 30)
    × (two_levels.virtual_address_low_mask ≡ mask_from_bits 30)
build_layout_bounds_example = build_layout_bounds widths two_levels widths-layout

in_the_window : validate_virtual_address (2 ^ 21 + 8) two_levels ≡ true
unfolding validate_virtual_address
in_the_window = refl

page_base-valid : validate_virtual_address (2 ^ 21) two_levels ≡ true
unfolding validate_virtual_address
page_base-valid = refl

same_indices_iff_example :
    ((k : ℕ)
      → k < 2
      → index_from_virtual_address_at_level (2 ^ 21) k
        ≡ index_from_virtual_address_at_level (2 ^ 21 + 8) k)
    ↔ (2 ^ 21 / 2 ^ 12 ≡ (2 ^ 21 + 8) / 2 ^ 12)
same_indices_iff_example =
    same_indices_iff widths two_levels (2 ^ 21) (2 ^ 21 + 8) widths-layout (omega arith)
      (omega arith) (omega arith) page_base-valid in_the_window
