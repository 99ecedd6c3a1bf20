-- ===== src/Kva.antt =====
-- rocinante/src/memory/kernel_va_allocator.h, `KernelVirtualAddressAllocator`: free ranges of kernel
-- virtual addresses in an array of fixed capacity, first fit, with coalescing on `Free`.
--
-- The array's first `m_free_range_count` entries are the list `free_ranges`; entries past the count
-- are never read. A method returns its result beside the new state, which it may have changed also
-- where it fails, as in the source. Every address and size is a word below 2 ^ 64.
pub mod Ranges
pub mod Allocation
mod Search
mod Carve
pub mod Reservation
mod Merge
mod Coalesce
pub mod Release
pub mod RoundTrip
mod Tests
use package.walden.Base.{ℕ, zero, suc, ◌+◌, ◌-◌, ◌%◌, Bool, true, false, not, ◌&&◌, ◌||◌}
use package.walden.Base.{ltb, leb, ◌==◌, if◌then◌else◌, Option, none, some, List, [], ◌∷◌}
use package.walden.Base.{length, get_elem?, set}
use package.walden.Base.Word.{add64}

-- [base, limit)
pub record Range : Type 0 where
  pub base : ℕ
  pub limit : ℕ

abbrev pub is_valid_non_empty : Range → Bool
is_valid_non_empty r = ltb r.base r.limit

abbrev pub max_free_ranges : ℕ
max_free_ranges = 32

pub record Allocator : Type 0 where
  pub initialized : Bool
  pub managed_base : ℕ
  pub managed_limit : ℕ
  pub free_ranges : List Range

pub align_up : ℕ → ℕ → ℕ
align_up value alignment =
    if alignment == 0
    then value
    else if (value % alignment) == 0
    then value
    else add64 value (alignment - value % alignment)

pub remove_free_range_at : ℕ → List Range → List Range
remove_free_range_at i [] = []
remove_free_range_at zero (x ∷ xs) = xs
remove_free_range_at (suc i) (x ∷ xs) = x ∷ remove_free_range_at i xs

-- The entries from `i` on move up by one.
pub shift_in : ℕ → Range → List Range → List Range
shift_in zero r xs = r ∷ xs
shift_in (suc i) r [] = r ∷ []
shift_in (suc i) r (x ∷ xs) = x ∷ shift_in i r xs

pub insert_free_range_at : ℕ → Range → List Range → Bool × List Range
unfolding shift_in
insert_free_range_at i r xs =
    if leb max_free_ranges (length xs) then (false, xs) else (true, shift_in i r xs)

pub init : ℕ → ℕ → Allocator
init base limit = record {
  initialized = true;
  managed_base = base;
  managed_limit = limit;
  free_ranges = if ltb base limit then record { base = base; limit = limit } ∷ [] else [];
}

-- The second piece that `Allocate` and `Reserve` put back, at `insert_index`; the result is
-- success, `insert_index` and the ranges.
insert_second : ℕ → Range → List Range → Bool × ℕ × List Range
unfolding insert_free_range_at
insert_second i piece xs =
    let (done, ys) = insert_free_range_at i piece xs in
    if is_valid_non_empty piece then (done, i, ys) else (true, i, xs)

-- The two pieces of a range that is cut, in order, at the index of the range removed before.
pub insert_pieces : ℕ → Range → Range → List Range → Bool × ℕ × List Range
unfolding insert_second
insert_pieces i first second xs =
    let (done, ys) = insert_free_range_at i first xs in
    if is_valid_non_empty first
    then (if done then insert_second (i + 1) second ys else (false, i, ys))
    else insert_second i second xs

abbrev pub count_if : Bool → ℕ
count_if b = if b then 1 else 0

-- The body of `Allocate`'s loop once the aligned block [base, end) fits the range at `i`.
pub allocate_at : Allocator → ℕ → Range → ℕ → ℕ → Option ℕ × Allocator
unfolding remove_free_range_at insert_pieces
allocate_at s i range base end =
    let prefix : Range = record { base = range.base; limit = base } in
    let suffix : Range = record { base = end; limit = range.limit } in
    let new_count =
      (length s.free_ranges - 1)
      + count_if (is_valid_non_empty prefix)
      + count_if (is_valid_non_empty suffix) in
    let (done, _, ranges) = insert_pieces i prefix suffix (remove_free_range_at i s.free_ranges) in
    if ltb max_free_ranges new_count
    then (none, s)
    else (if done then some base else none, record s { free_ranges = ranges })

-- The loop from index `i` on; the list is what the array holds from there.
pub allocate_from : Allocator → ℕ → ℕ → ℕ → List Range → Option ℕ × Allocator
unfolding align_up allocate_at
allocate_from s size alignment i [] = (none, s)
allocate_from s size alignment i (range ∷ rest) =
    let next = allocate_from s size alignment (i + 1) rest in
    let base = align_up range.base alignment in
    let end = add64 base size in
    if not (is_valid_non_empty range) || ltb end base || ltb base range.base || ltb range.limit end
    then next
    else allocate_at s i range base end

pub allocate : Allocator → ℕ → ℕ → Option ℕ × Allocator
unfolding allocate_from
allocate s size alignment =
    if not s.initialized || (size == 0) || (length s.free_ranges == 0)
    then (none, s)
    else allocate_from s size alignment 0 s.free_ranges

-- `Reserve`, first pass: the ranges from the first that ends after the cursor on.
pub skip_below : ℕ → List Range → List Range
skip_below cursor [] = []
skip_below cursor (range ∷ rest) =
    if leb range.limit cursor then skip_below cursor rest else range ∷ rest

-- The range after `range`, which must begin where it ends.
pub continues_at : ℕ → List Range → Bool
continues_at cursor [] = false
continues_at cursor (range ∷ rest) = range.base == cursor

-- The second loop of the first pass: is [cursor, limit) free from these ranges on?
pub confirm_free : ℕ → ℕ → List Range → Bool
unfolding continues_at
confirm_free cursor limit [] = not (ltb cursor limit)
confirm_free cursor limit (range ∷ rest) =
    let advanced = if ltb range.limit limit then range.limit else limit in
    let skipped = confirm_free cursor limit rest in
    let continued = confirm_free advanced limit rest in
    if not (ltb cursor limit)
    then true
    else if ltb cursor range.base
    then false
    else if leb range.limit cursor
    then skipped
    else if ltb advanced limit
    then (continues_at advanced rest && continued)
    else true

-- What a reservation of [base, limit) leaves of a range below and above; empty where nothing.
abbrev pub left_of : Range → ℕ → Range
left_of range base =
    if ltb range.base base
    then record { base = range.base; limit = base }
    else record { base = 0; limit = 0 }

abbrev pub right_of : Range → ℕ → Range
right_of range limit =
    if ltb limit range.limit
    then record { base = limit; limit = range.limit }
    else record { base = 0; limit = 0 }

-- `Reserve`, second pass, at index `i`; `none` means that the fuel ran out.
pub carve : ℕ → ℕ → ℕ → ℕ → List Range → Option (Bool × List Range)
unfolding remove_free_range_at insert_pieces
carve zero base limit i ranges = none
carve (suc fuel) base limit i ranges = elim (get_elem? ranges i) [
  | none ↦ some (true, ranges)
  | some range ↦
      let skip = carve fuel base limit (i + 1) ranges in
      let left = left_of range base in
      let right = right_of range limit in
      let (done, insert_index, ys) = insert_pieces i left right (remove_free_range_at i ranges) in
      let continued = carve fuel base limit insert_index ys in
      if leb range.limit base
      then skip
      else if leb limit range.base
      then some (true, ranges)
      else if done
      then continued
      else some (false, ys)
]

-- Each round of the second pass moves the index on, or is the one at the range that holds the block,
-- or stops after that one.
abbrev pub carve_fuel : List Range → ℕ
carve_fuel ranges = length ranges + 2

pub finish : Allocator → Option (Bool × List Range) → Option (Bool × Allocator)
finish s none = none
finish s (some (done, ranges)) = some (done, record s { free_ranges = ranges })

pub reserve : Allocator → ℕ → ℕ → Option (Bool × Allocator)
unfolding skip_below confirm_free carve finish
reserve s base size =
    let limit = add64 base size in
    let carved = finish s (carve (carve_fuel s.free_ranges) base limit 0 s.free_ranges) in
    if not s.initialized
      || (size == 0)
      || ltb limit base
      || ltb base s.managed_base
      || ltb s.managed_limit limit
    then some (false, s)
    else if confirm_free base limit (skip_below base s.free_ranges)
    then carved
    else some (false, s)

-- `Free`: where the freed range goes, to keep the list sorted by base.
pub insertion_index : ℕ → List Range → ℕ
insertion_index base [] = 0
insertion_index base (range ∷ rest) =
    if ltb range.base base then suc (insertion_index base rest) else 0

-- Does the range at an index satisfy the test? False where there is none.
pub at_index : List Range → ℕ → (Range → Bool) → Bool
at_index ranges i test = elim (get_elem? ranges i) [ none ↦ false | some r ↦ test r ]

-- Joins the range at `i + 1` to the one at `i`, if they touch.
pub join_next : ℕ → List Range → Bool × List Range
unfolding remove_free_range_at
join_next i ranges = elim (get_elem? ranges i) [
  | none ↦ (false, ranges)
  | some cur ↦ elim (get_elem? ranges (suc i)) [
    | none ↦ (false, ranges)
    | some next ↦
        if cur.limit == next.base
        then (true, remove_free_range_at (suc i) (set ranges i (record cur { limit = next.limit })))
        else (false, ranges)
  ]
]

-- `Free` after the insertion at `index`: first with the previous range, then with the next.
pub coalesce : ℕ → List Range → List Range
coalesce index ranges =
    let (joined, ys) = join_next (index - 1) ranges in
    if index == 0
    then (join_next index ranges).1
    else (join_next (if joined then index - 1 else index) ys).1

-- The method `Free`.
pub release : Allocator → ℕ → ℕ → Bool × Allocator
unfolding insert_free_range_at
release s base size =
    let limit = add64 base size in
    let freed : Range = record { base = base; limit = limit } in
    let index = insertion_index base s.free_ranges in
    let (done, ranges) = insert_free_range_at index freed s.free_ranges in
    if not s.initialized
      || (size == 0)
      || ltb limit base
      || ltb base s.managed_base
      || ltb s.managed_limit limit
      || not (is_valid_non_empty freed)
    then (false, s)
    else if not (index == 0) && at_index s.free_ranges (index - 1) (λ r. ltb base r.limit)
    then (false, s)
    else if at_index s.free_ranges index (λ r. ltb r.base limit)
    then (false, s)
    else if done
    then (true, record s { free_ranges = coalesce index ranges })
    else (false, s)
