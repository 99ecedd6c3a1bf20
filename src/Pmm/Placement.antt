-- ===== src/Pmm/Placement.antt =====
-- `_allocate_bitmap` and `_allocate_frame_metadata`: where the manager's own storage goes.
--
-- The two searches are one but for the test against the bitmap's storage, which the first search lacks;
-- it is here for both, with a size of 0 in the first, where it never holds. A base of 0 says that no
-- place was found, as `chosen_base` does. `physical_address_bits` is what CPUCFG reports.
pub mod Obstacles
pub mod Clear
use package.walden.Base.{ℕ, zero, suc, ◌-◌, ◌^◌}
use package.walden.Base.{Bool, true, false, not, ◌&&◌, ◌||◌, ltb, leb, ◌==◌, if◌then◌else◌}
use package.walden.Base.{List, [], ◌∷◌}
use package.walden.Base.Word.{add64}
use package.walden.Boot.{BootMemoryRegion, is_usable, is_reserved}
use package.walden.Pmm.{add_overflows, align_up, page_size_bytes}

-- The arguments of the searches.
pub record Surroundings : Type 0 where
  pub physical_address_bits : ℕ
  pub regions : List BootMemoryRegion
  pub kernel_physical_base : ℕ
  pub kernel_physical_end : ℕ
  pub device_tree_physical_base : ℕ
  pub device_tree_size_bytes : ℕ
  pub bitmap_physical_base : ℕ
  pub bitmap_size_bytes : ℕ

abbrev pub palen_valid : ℕ → Bool
palen_valid bits = not (bits == 0) && ltb bits 64

abbrev pub clamp : ℕ → ℕ → ℕ
clamp bits end = if palen_valid bits && ltb (2 ^ bits) end then 2 ^ bits else end

pub ranges_overlap : ℕ → ℕ → ℕ → ℕ → Bool
ranges_overlap a_base a_size b_base b_size =
    if (a_size == 0) || (b_size == 0)
    then false
    else if add_overflows a_base a_size || add_overflows b_base b_size
    then true
    else ltb a_base (add64 b_base b_size) && ltb b_base (add64 a_base a_size)

-- What a candidate runs into: nothing, a block to try again behind, or one whose end wraps.
pub data Obstacle : Type 0 where
  clear : Obstacle
  behind : ℕ → Obstacle
  stuck : Obstacle

pub kernel_obstacle : Surroundings → ℕ → ℕ → Obstacle
unfolding ranges_overlap
kernel_obstacle e candidate size =
    if ltb e.kernel_physical_base e.kernel_physical_end
      && ranges_overlap candidate size e.kernel_physical_base
          (e.kernel_physical_end - e.kernel_physical_base)
    then behind e.kernel_physical_end
    else clear

-- The test against the device tree, and that against the bitmap.
pub block_obstacle : ℕ → ℕ → ℕ → ℕ → Obstacle
unfolding ranges_overlap
block_obstacle base block_size candidate size =
    if not (base == 0) && not (block_size == 0) && ranges_overlap candidate size base block_size
    then (if add_overflows base block_size then stuck else behind (add64 base block_size))
    else clear

pub reserved_obstacle : List BootMemoryRegion → ℕ → ℕ → Obstacle
unfolding ranges_overlap
reserved_obstacle [] candidate size = clear
reserved_obstacle (r ∷ rest) candidate size =
    let later = reserved_obstacle rest candidate size in
    if not (is_reserved r.region_type)
      || (r.size_bytes == 0)
      || add_overflows r.physical_base r.size_bytes
    then later
    else if ranges_overlap candidate size r.physical_base r.size_bytes
    then behind (add64 r.physical_base r.size_bytes)
    else later

abbrev pub or_else : Obstacle → Obstacle → Obstacle
or_else clear next = next
or_else (behind end) next = behind end
or_else stuck next = stuck

pub obstacle : Surroundings → ℕ → ℕ → Obstacle
unfolding kernel_obstacle block_obstacle reserved_obstacle
obstacle e candidate size = or_else (kernel_obstacle e candidate size) (
    or_else (block_obstacle e.device_tree_physical_base e.device_tree_size_bytes candidate size) (
      or_else (block_obstacle e.bitmap_physical_base e.bitmap_size_bytes candidate size)
        (reserved_obstacle e.regions candidate size)))

-- The loop over `bump`, with `left` of its rounds to go.
pub advance : Surroundings → ℕ → ℕ → ℕ → ℕ → ℕ → ℕ
unfolding obstacle align_up
advance e region_begin region_end size zero candidate = 0
advance e region_begin region_end size (suc left) candidate =
    if ltb candidate region_begin
      || add_overflows candidate size
      || ltb region_end (add64 candidate size)
      || (palen_valid e.physical_address_bits
          && ltb (2 ^ e.physical_address_bits) (add64 candidate size))
    then 0
    else elim (obstacle e candidate size) [
      | clear ↦ candidate
      | behind end ↦
          advance e region_begin region_end size left (align_up (clamp e.physical_address_bits end))
      | stuck ↦ 0
    ]

-- One round of the loop over the regions.
pub place_in : Surroundings → BootMemoryRegion → ℕ → ℕ
unfolding advance align_up
place_in e r size =
    let region_begin = r.physical_base in
    let region_end = clamp e.physical_address_bits (add64 r.physical_base r.size_bytes) in
    let candidate =
      align_up (if ltb region_begin page_size_bytes then page_size_bytes else region_begin) in
    if not (is_usable r.region_type)
      || (r.size_bytes == 0)
      || add_overflows r.physical_base r.size_bytes
      || (palen_valid e.physical_address_bits
          && (leb (2 ^ e.physical_address_bits) region_begin || leb region_end region_begin))
      || ltb candidate region_begin
    then 0
    else advance e region_begin region_end size 8 candidate

unfoldable pub place : Surroundings → List BootMemoryRegion → ℕ → ℕ
unfolding place_in
place e [] size = 0
place e (r ∷ rest) size =
    let later = place e rest size in
    let chosen = place_in e r size in if chosen == 0 then later else chosen
