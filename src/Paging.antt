-- ===== src/Paging.antt =====
-- rocinante/src/memory/paging.cpp and paging.h: entries of page tables, the layout that the address widths
-- give, and the checks of addresses.
--
-- Words are numbers below 2 ^ 64, address widths bytes. Entries are read and written in `Paging.Tables`.
pub mod Flags
pub mod Entries
pub mod Coverage
pub mod Tables
use package.walden.Base.{ℕ, zero, suc, ◌+◌, ◌-◌, ◌*◌, ◌/◌, ◌%◌, ◌^◌, bit_and, bit_or}
use package.walden.Base.{Bool, true, false, not, ◌&&◌, ◌||◌, ltb, leb, ◌==◌, if◌then◌else◌}
use package.walden.Base.{Option, none, some}
use package.walden.Base.Word.{word, add64, mul64, not64}
use package.walden.Layout.{phys_map_base, to_phys_map_virtual}

abbrev pub page_shift_bits : ℕ
page_shift_bits = 12

abbrev pub entries_per_table : ℕ
entries_per_table = 512

abbrev pub index_bits_per_level : ℕ
index_bits_per_level = 9

abbrev pub page_offset_mask : ℕ
page_offset_mask = 2 ^ page_shift_bits - 1

abbrev pub page_base_mask : ℕ
page_base_mask = not64 page_offset_mask

-- `PteBits`: bits and fields of an entry. Bit 6 of an entry that is not a leaf marks a huge page.
abbrev pub valid_bit : ℕ
valid_bit = 2 ^ 0

abbrev pub dirty_bit : ℕ
dirty_bit = 2 ^ 1

abbrev pub privilege_level_shift : ℕ
privilege_level_shift = 2

abbrev pub privilege_level_mask : ℕ
privilege_level_mask = 3 * 2 ^ privilege_level_shift

abbrev pub cache_shift : ℕ
cache_shift = 4

abbrev pub cache_mask : ℕ
cache_mask = 3 * 2 ^ cache_shift

abbrev pub global_bit : ℕ
global_bit = 2 ^ 6

abbrev pub present_bit : ℕ
present_bit = 2 ^ 7

abbrev pub write_bit : ℕ
write_bit = 2 ^ 8

abbrev pub no_read_bit : ℕ
no_read_bit = 2 ^ 61

abbrev pub no_execute_bit : ℕ
no_execute_bit = 2 ^ 62

pub data CacheMode : Type 0 where
  strong_uncached coherent_cached weak_uncached : CacheMode

pub data AccessPermissions : Type 0 where
  read_only read_write : AccessPermissions

pub data ExecutePermissions : Type 0 where
  executable no_execute : ExecutePermissions

pub record PagePermissions : Type 0 where
  pub access : AccessPermissions
  pub execute : ExecutePermissions
  pub cache : CacheMode
  pub is_global : Bool

pub record AddressSpaceBits : Type 0 where
  pub virtual_address_bits : ℕ
  pub physical_address_bits : ℕ

-- What the code reads of the processor and of the paging state: CSR.CRMD, the width in the paging state
-- where there is one, and the widths that CPUCFG reports.
pub record Machine : Type 0 where
  pub current_mode_information : ℕ
  pub paging_state_bits : Option ℕ
  pub cpucfg_virtual_address_bits : ℕ
  pub cpucfg_physical_address_bits : ℕ

abbrev pub direct_addressing_enable : ℕ
direct_addressing_enable = 2 ^ 3

abbrev pub paging_enable : ℕ
paging_enable = 2 ^ 4

pub is_mapped_address_translation_mode : Machine → Bool
is_mapped_address_translation_mode m =
    let crmd = m.current_mode_information in
    (bit_and crmd direct_addressing_enable == 0) && not (bit_and crmd paging_enable == 0)

abbrev pub window_bits : Machine → ℕ
window_bits m = elim m.paging_state_bits [ none ↦ m.cpucfg_virtual_address_bits | some bits ↦ bits ]

-- The address at which the kernel reads and writes the table in a page; 0 is the null pointer.
pub page_table_page_from_physical : Machine → ℕ → ℕ
unfolding is_mapped_address_translation_mode
page_table_page_from_physical m p =
    if is_mapped_address_translation_mode m then to_phys_map_virtual p (window_bits m) else p

-- The widths are converted to bytes.
abbrev pub address_space_bits_from_cpucfg : Machine → AddressSpaceBits
address_space_bits_from_cpucfg m = record {
  virtual_address_bits = m.cpucfg_virtual_address_bits % 2 ^ 8;
  physical_address_bits = m.cpucfg_physical_address_bits % 2 ^ 8;
}

pub is_phys_map_leaf_mapping : ℕ → ℕ → AddressSpaceBits → Bool
is_phys_map_leaf_mapping virtual_page_base physical_page_base bits =
    let base = phys_map_base bits.virtual_address_bits in
    if ltb virtual_page_base base then false else (virtual_page_base - base) == physical_page_base

abbrev pub max_supported_level_count : ℕ
max_supported_level_count = 6

-- The search goes on from `index`; it stops at the bit, which is one of the 64.
pub bit_index_from : ℕ → ℕ → ℕ → ℕ
bit_index_from zero mask index = index
bit_index_from (suc left) mask index =
    let later = bit_index_from left mask (index + 1) in
    if ((mask / 2 ^ index) % 2) == 0 then later else index

abbrev pub bit_index_from_single_bit_mask : ℕ → ℕ
unfolding bit_index_from
bit_index_from_single_bit_mask mask = bit_index_from 64 mask 0

abbrev pub lowest_high_flag_bit : ℕ
unfolding bit_index_from_single_bit_mask
lowest_high_flag_bit =
    let no_read = bit_index_from_single_bit_mask no_read_bit in
    let no_execute = bit_index_from_single_bit_mask no_execute_bit in
    if ltb no_read no_execute then no_read else no_execute

abbrev pub max_encodable_physical_address_bits : ℕ
unfolding lowest_high_flag_bit
max_encodable_physical_address_bits = lowest_high_flag_bit

pub mask_from_bits : ℕ → ℕ
mask_from_bits bits = if leb 64 bits then word - 1 else if bits == 0 then 0 else 2 ^ bits - 1

pub level_count_from_virtual_address_bits : ℕ → ℕ
level_count_from_virtual_address_bits bits =
    let indexable = if ltb page_shift_bits bits then bits - page_shift_bits else 0 in
    let rounded = (indexable + index_bits_per_level - 1) / index_bits_per_level in
    let level_count = if rounded == 0 then 1 else rounded in
    if ltb max_supported_level_count level_count then 0 else level_count

pub physical_page_base_mask_from_bits : ℕ → ℕ
unfolding mask_from_bits max_encodable_physical_address_bits
physical_page_base_mask_from_bits bits =
    if ltb max_encodable_physical_address_bits bits
    then 0
    else if ltb bits page_shift_bits
    then 0
    else bit_and (mask_from_bits bits) page_base_mask

abbrev pub index_mask_for_level : ℕ
index_mask_for_level = 2 ^ index_bits_per_level - 1

pub index_from_virtual_address_at_level : ℕ → ℕ → ℕ
index_from_virtual_address_at_level v level =
    bit_and (v / 2 ^ (page_shift_bits + level * index_bits_per_level)) index_mask_for_level

pub is_page_aligned : ℕ → Bool
is_page_aligned address = bit_and address page_offset_mask == 0

-- The enumerators' values.
abbrev pub raw_cache_mode : CacheMode → ℕ
raw_cache_mode strong_uncached = 0
raw_cache_mode coherent_cached = 1
raw_cache_mode weak_uncached = 2

pub cache_bits_for_mode : CacheMode → ℕ
cache_bits_for_mode mode = bit_and (mul64 (raw_cache_mode mode) (2 ^ cache_shift)) cache_mask

abbrev pub privilege_level_kernel_bits : ℕ
privilege_level_kernel_bits = bit_and (0 * 2 ^ privilege_level_shift) privilege_level_mask

pub leaf_flags_for_permissions : PagePermissions → ℕ
unfolding cache_bits_for_mode
leaf_flags_for_permissions p =
    let walked =
      bit_or (bit_or (bit_or valid_bit present_bit) privilege_level_kernel_bits)
        (cache_bits_for_mode p.cache) in
    let scoped = if p.is_global then bit_or walked global_bit else walked in
    let accessed : ℕ = elim p.access [
      | read_only ↦ scoped
      | read_write ↦ bit_or (bit_or scoped write_bit) dirty_bit
    ] in
    elim p.execute [ executable ↦ accessed | no_execute ↦ bit_or accessed no_execute_bit ]

pub encode_leaf_entry : ℕ → ℕ → PagePermissions → ℕ
unfolding leaf_flags_for_permissions
encode_leaf_entry p mask permissions =
    bit_or (bit_and p mask) (leaf_flags_for_permissions permissions)

pub encode_table_pointer : ℕ → ℕ → ℕ
encode_table_pointer p mask = bit_or (bit_or (bit_and p mask) valid_bit) present_bit

pub entry_is_present : ℕ → Bool
entry_is_present entry =
    bit_and entry (bit_or present_bit valid_bit) == bit_or present_bit valid_bit

abbrev pub entry_physical_page_base : ℕ → ℕ → ℕ
entry_physical_page_base entry mask = bit_and entry mask

pub record PagingLayout : Type 0 where
  pub virtual_address_bits : ℕ
  pub physical_address_bits : ℕ
  pub level_count : ℕ
  pub virtual_address_low_mask : ℕ
  pub physical_address_mask : ℕ
  pub physical_page_base_mask : ℕ

pub build_layout : AddressSpaceBits → Option PagingLayout
unfolding level_count_from_virtual_address_bits mask_from_bits physical_page_base_mask_from_bits
build_layout bits =
    let v = bits.virtual_address_bits in
    let p = bits.physical_address_bits in
    let level_count = level_count_from_virtual_address_bits v in
    let mask = physical_page_base_mask_from_bits p in
    if (v == 0) || (p == 0) || ltb 64 v || ltb 64 p || (level_count == 0) || (mask == 0)
    then none
    else some (record {
      virtual_address_bits = v;
      physical_address_bits = p;
      level_count = level_count;
      virtual_address_low_mask = mask_from_bits v;
      physical_address_mask = mask_from_bits p;
      physical_page_base_mask = mask;
    })

pub validate_virtual_address : ℕ → PagingLayout → Bool
validate_virtual_address v l =
    let upper_mask = not64 l.virtual_address_low_mask in
    let sign = not (bit_and v (2 ^ (l.virtual_address_bits - 1)) == 0) in
    let upper = bit_and v upper_mask in
    if l.virtual_address_bits == 0
    then false
    else if leb 64 l.virtual_address_bits
    then true
    else if sign
    then upper == upper_mask
    else upper == 0

pub validate_physical_address : ℕ → PagingLayout → Bool
validate_physical_address p l = bit_and p (not64 l.physical_address_mask) == 0
