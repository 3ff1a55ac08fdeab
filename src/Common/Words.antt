-- ===== src/Common/Words.antt =====
-- 64-bit unsigned arithmetic: what `std::uint64_t` and `std::size_t` compute.
use Prim.Native.Nat.{ℕ, ◌+◌, ◌-◌, ◌%◌, ◌^◌, ◌≤◌, ◌<◌}
use mathlib.Core.Path.{◌≡◌}
use native.Mathlib.Omega.{arith}

abbrev pub u64_mod : ℕ
u64_mod = 2 ^ 64

abbrev pub int64_max : ℕ
int64_max = 2 ^ 63 - 1

abbrev pub add_u64 : ℕ → ℕ → ℕ
add_u64 a b = (a + b) % u64_mod

-- `-` on ℕ stops at 0, so the modulus is added first.
abbrev pub sub_u64 : ℕ → ℕ → ℕ
sub_u64 a b = (a + u64_mod - b) % u64_mod

pub add_u64_small : (a b : ℕ) → a + b < u64_mod → add_u64 a b ≡ a + b
add_u64_small a b h = omega arith

pub sub_u64_small : (a b : ℕ) → b ≤ a → a < u64_mod → sub_u64 a b ≡ a - b
sub_u64_small a b h k = omega arith
