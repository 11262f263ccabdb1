-- ===== src/Base/Words.antt =====
-- Machine words. A `size_t` is a number below 2^64 and an `int` is kept as its 32-bit pattern.
use Prim.Native.Nat.{ℕ, ◌+◌, ◌-◌, ◌%◌, ◌^◌, ◌<◌, ◌≤◌}
use mathlib.Core.Path.{◌≡◌}
use native.Mathlib.Omega.{arith}
use package.netlib.Base.Tests.{ltb, if◌then◌else◌}

-- The least value that an `int` index cannot hold.
abbrev pub int_limit : ℕ
int_limit = 2 ^ 31

-- `static_cast<int>(n)`: the low 32 bits.
unfoldable pub to_int : ℕ → ℕ
to_int n = n % 2 ^ 32

-- An `int` where a `size_t` is wanted: the sign is extended.
unfoldable pub to_size : ℕ → ℕ
to_size i = if ltb i (2 ^ 31) then i else i + (2 ^ 64 - 2 ^ 32)

unfoldable pub add_size : ℕ → ℕ → ℕ
add_size a b = (a + b) % 2 ^ 64

unfoldable pub sub_size : ℕ → ℕ → ℕ
sub_size a b = (a + 2 ^ 64 - b) % 2 ^ 64

unfoldable pub sub_int : ℕ → ℕ → ℕ
sub_int a b = (a + 2 ^ 32 - b) % 2 ^ 32

pub to_int_exact : (n : ℕ) → n < int_limit → to_int n ≡ n
unfolding to_int
to_int_exact n h = omega arith

pub to_size_exact : (n : ℕ) → n < int_limit → to_size n ≡ n
unfolding to_size
to_size_exact n h = ground arith

pub add_size_exact : (a b : ℕ) → a + b < 2 ^ 64 → add_size a b ≡ a + b
unfolding add_size
add_size_exact a b h = omega arith

pub sub_size_exact : (a b : ℕ) → a < 2 ^ 64 → b ≤ a → sub_size a b ≡ a - b
unfolding sub_size
sub_size_exact a b h k = omega arith

pub sub_int_exact : (a b : ℕ) → a < int_limit → b ≤ a → sub_int a b ≡ a - b
unfolding sub_int
sub_int_exact a b h k = omega arith
