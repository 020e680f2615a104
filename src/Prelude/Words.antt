-- ===== src/Prelude/Words.antt =====
-- The limits of the C types and the wrap-around of their arithmetic.
use Prim.Native.Nat.{ℕ, ◌+◌, ◌-◌, ◌*◌, ◌%◌, ◌^◌}

abbrev pub size_max : ℕ
size_max = 2 ^ 64 - 1

abbrev pub uint32_max : ℕ
uint32_max = 2 ^ 32 - 1

-- `size_t` addition
abbrev pub add64 : ℕ → ℕ → ℕ
add64 a b = (a + b) % 2 ^ 64

-- `size_t` multiplication
abbrev pub mul64 : ℕ → ℕ → ℕ
mul64 a b = (a * b) % 2 ^ 64

-- `uint32_t` addition
abbrev pub add32 : ℕ → ℕ → ℕ
add32 a b = (a + b) % 2 ^ 32
