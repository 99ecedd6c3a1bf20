-- ===== src/Base/Word.antt =====
-- 64-bit machine words (`std::uintptr_t`, `std::size_t`, `std::uint64_t`): numbers below 2 ^ 64,
-- with the wrap-around written out.
use Prim.Native.Nat.{ℕ, ◌+◌, ◌-◌, ◌*◌, ◌%◌, ◌^◌}

abbrev pub word : ℕ
word = 2 ^ 64

abbrev pub add64 : ℕ → ℕ → ℕ
add64 a b = (a + b) % word

abbrev pub sub64 : ℕ → ℕ → ℕ
sub64 a b = (a + word - b) % word

abbrev pub mul64 : ℕ → ℕ → ℕ
mul64 a b = (a * b) % word

-- Bitwise complement.
abbrev pub not64 : ℕ → ℕ
not64 a = word - 1 - a
