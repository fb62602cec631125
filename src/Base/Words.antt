-- ===== src/Base/Words.antt =====
-- Arithmetic on 64-bit unsigned integers.
use Prim.Native.Nat.{ℕ, ◌+◌, ◌-◌, ◌*◌, ◌%◌, ◌^◌}
use lepd.Base.Tests.{leb, if◌then◌else◌}

abbrev pub plus_64 : ℕ → ℕ → ℕ
plus_64 a b = (a + b) % 2 ^ 64

abbrev pub minus_64 : ℕ → ℕ → ℕ
minus_64 a b = (a + 2 ^ 64 - b) % 2 ^ 64

abbrev pub times_64 : ℕ → ℕ → ℕ
times_64 a b = a * b % 2 ^ 64

-- The difference of two `size_t`, which are below 2 ^ 64.
abbrev pub size_minus : ℕ → ℕ → ℕ
size_minus a b = if leb b a then a - b else a + 2 ^ 64 - b
