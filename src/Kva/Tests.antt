-- ===== src/Kva/Tests.antt =====
-- rocinante/src/memory/kernel_va_allocator.h on concrete free lists.
use walden.Base.{[], arith, false, refl, some, true, ◌∷◌, ◌≡◌}
use walden.Kva.{Allocator, allocate, at_index, coalesce, insertion_index, join_next, release}
use walden.Kva.{reserve}
use walden.Kva.Allocation.{IsWellFormed, Outcome, allocate_cases}
use walden.Kva.Release.{Releases, release-Releases}
use walden.Kva.Reservation.{Reserves, reserve-Reserves}
use walden.Kva.RoundTrip.{release-allocate}

abbrev two_ranges : Allocator
two_ranges = record {
  initialized = true;
  managed_base = 4096;
  managed_limit = 65536;
  free_ranges = record { base = 4096; limit = 16384 } ∷ record { base = 20480; limit = 65536 } ∷ [];
}

abbrev after_first : Allocator
after_first = record {
  initialized = true;
  managed_base = 4096;
  managed_limit = 65536;
  free_ranges =
      record { base = 4096; limit = 8192 }
      ∷ record { base = 12288; limit = 16384 }
      ∷ record { base = 20480; limit = 65536 }
      ∷ [];
}

two_ranges-IsWellFormed : IsWellFormed two_ranges
two_ranges-IsWellFormed = record {
  canonical = (omega arith, omega arith, omega arith, (omega arith, omega arith, omega arith, tt));
  limit_word = omega arith;
  room = omega arith;
}

-- An allocation at 8 KiB leaves a piece below and a piece above.
allocate_middle : allocate two_ranges 4096 8192 ≡ (some 8192, after_first)
unfolding allocate
allocate_middle = refl

-- The hole between the two ranges comes back as one range of all three.
release_hole :
    release two_ranges 16384 4096
    ≡ (true, record two_ranges { free_ranges = record { base = 4096; limit = 65536 } ∷ [] })
unfolding release insertion_index at_index coalesce join_next
release_hole = refl

-- A block that crosses the hole is not free.
reserve_across : reserve two_ranges 12288 12288 ≡ some (false, two_ranges)
unfolding reserve
reserve_across = refl

allocate_cases_example :
    Outcome two_ranges 4096 8192 two_ranges.free_ranges (allocate two_ranges 4096 8192)
allocate_cases_example =
    allocate_cases two_ranges 4096 8192 two_ranges-IsWellFormed refl (omega arith) (omega arith)
      (omega arith)

reserve-Reserves_example : Reserves two_ranges 24576 4096 (reserve two_ranges 24576 4096)
reserve-Reserves_example =
    reserve-Reserves two_ranges 24576 4096 two_ranges-IsWellFormed refl (omega arith) (omega arith)
      (omega arith)

release-Releases_example : Releases two_ranges 16384 4096 (release two_ranges 16384 4096)
release-Releases_example =
    release-Releases two_ranges 16384 4096 two_ranges-IsWellFormed refl (omega arith) (omega arith)
      (omega arith)

release-allocate_example : release after_first 8192 4096 ≡ (true, two_ranges)
release-allocate_example =
    release-allocate two_ranges after_first 4096 8192 8192 two_ranges-IsWellFormed refl
      (omega arith) (omega arith) (omega arith) allocate_middle (omega arith)
