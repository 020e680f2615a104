-- ===== src/Prelude/Bits.antt =====
-- The binary digits of a number, and what the bitwise operators of C do to each of them.
use Prim.Native.Nat.{
  ℕ, zero, suc, ◌+◌, ◌-◌, ◌*◌, ◌/◌, ◌%◌, ◌^◌, ◌≤◌, ◌<◌, min, max, bit_and, bit_or, digits,
  bit_and-bitwise, bit_or-bitwise,
}
use mathlib.Core.Path.{◌≡◌, refl, ◌∙◌, ap}
use mathlib.Core.Bool.{Bool, false, not, ◌&&◌, ◌||◌}
use native.Mathlib.Omega.{arith}
use native.Mathlib.Nat.{pow-suc, mod-add-div, mod-lt, mod-eq_of_lt, add-mul-mod_self_left}
use nvidia_vaapi_driver.Prelude.Tests.{◌==◌, ltb, if◌then◌else◌}

-- Digit `i` of `x`, the lowest first.
pub bit : ℕ → ℕ → Bool
bit zero x = x % 2 == 1
bit (suc i) x = bit i (x / 2)

pub bit-zero : (i : ℕ) → bit i 0 ≡ false
unfolding bit
bit-zero zero = refl
bit-zero (suc i) = bit-zero i

bit-min-digits : (n i a b : ℕ) → a ≤ n → bit i (digits (λ _. 0) min n a b) ≡ (bit i a && bit i b)
unfolding bit
bit-min-digits zero i zero b h = ground (arith, bit-zero i)
bit-min-digits zero i (suc a) b h = absurd (omega arith)
bit-min-digits (suc n) i zero b h = ground (arith, bit-zero i)
bit-min-digits (suc n) zero (suc a) b h = ground arith
bit-min-digits (suc n) (suc i) (suc a) b h =
    let rest = digits (λ _. 0) min n (suc a / 2) (b / 2) in
    let half : (rest * 2 + min (suc a % 2) (b % 2)) / 2 ≡ rest = omega arith in
    rw half (bit-min-digits n i (suc a / 2) (b / 2) (omega arith))

bit-max-digits : (n i a b : ℕ) → a ≤ n → bit i (digits (λ y. y) max n a b) ≡ (bit i a || bit i b)
unfolding bit
bit-max-digits zero i zero b h = ground (arith, bit-zero i)
bit-max-digits zero i (suc a) b h = absurd (omega arith)
bit-max-digits (suc n) i zero b h = ground (arith, bit-zero i)
bit-max-digits (suc n) zero (suc a) b h = ground arith
bit-max-digits (suc n) (suc i) (suc a) b h =
    let rest = digits (λ y. y) max n (suc a / 2) (b / 2) in
    let half : (rest * 2 + max (suc a % 2) (b % 2)) / 2 ≡ rest = omega arith in
    rw half (bit-max-digits n i (suc a / 2) (b / 2) (omega arith))

pub bit-bit_and : (i a b : ℕ) → bit i (bit_and a b) ≡ (bit i a && bit i b)
bit-bit_and i a b = rw bit_and-bitwise (bit-min-digits a i a b (omega arith))

pub bit-bit_or : (i a b : ℕ) → bit i (bit_or a b) ≡ (bit i a || bit i b)
bit-bit_or i a b = rw bit_or-bitwise (bit-max-digits a i a b (omega arith))

-- `~x` of a `w`-bit word.
abbrev pub complement : ℕ → ℕ → ℕ
complement w x = 2 ^ w - 1 - x

pub bit-complement : (i w x : ℕ) → i < w → x < 2 ^ w → bit i (complement w x) ≡ not (bit i x)
unfolding bit
bit-complement i zero x h b = absurd (omega arith)
bit-complement zero (suc w) x h b = ground (arith, pow-suc 2 w)
bit-complement (suc i) (suc w) x h b =
    let half : complement (suc w) x / 2 ≡ complement w (x / 2) = omega (arith, pow-suc 2 w) in
    rw half (bit-complement i w (x / 2) (omega arith) (omega (arith, pow-suc 2 w)))

pub pow_pos : (k : ℕ) → 0 < 2 ^ k
pow_pos zero = omega arith
pow_pos (suc k) = omega (arith, pow-suc 2 k, pow_pos k)

digits_none : (n a : ℕ) → digits (λ _. 0) min n a 0 ≡ 0
digits_none zero a = refl
digits_none (suc n) zero = refl
digits_none (suc n) (suc a) = omega (arith, digits_none n (suc a / 2))

-- The mask `(1 << k) - 1`.
pub bit-low_mask : (i k : ℕ) → bit i (2 ^ k - 1) ≡ ltb i k
unfolding bit
bit-low_mask i zero = ground (arith, bit-zero i)
bit-low_mask zero (suc k) = ground (arith, pow-suc 2 k, pow_pos k)
bit-low_mask (suc i) (suc k) =
    let half : (2 ^ suc k - 1) / 2 ≡ 2 ^ k - 1 = omega (arith, pow-suc 2 k) in
    rw half (ground (arith, bit-low_mask i k))

single_digit :
    (n k a : ℕ) → a ≤ n → digits (λ _. 0) min n a (2 ^ k) ≡ (if bit k a then 2 ^ k else 0)
unfolding bit
single_digit zero k zero h = ground (arith, bit-zero k)
single_digit zero k (suc a) h = absurd (omega arith)
single_digit (suc n) k zero h = ground (arith, bit-zero k)
single_digit (suc n) zero (suc a) h = ground (arith, digits_none n (suc a / 2))
single_digit (suc n) (suc k) (suc a) h =
    let e : 2 ^ suc k / 2 ≡ 2 ^ k = omega (arith, pow-suc 2 k) in
    rw e (ground (arith, pow-suc 2 k, single_digit n k (suc a / 2)))

-- `a & (1 << k)` is the digit at its place.
pub bit_and_single : (a k : ℕ) → bit_and a (2 ^ k) ≡ (if bit k a then 2 ^ k else 0)
bit_and_single a k = rw bit_and-bitwise (single_digit a k a (omega arith))

disjoint_digits :
    (n k a y : ℕ) → a ≤ n → a < 2 ^ k → digits (λ z. z) max n a (y * 2 ^ k) ≡ a + y * 2 ^ k
disjoint_digits zero k zero y h b = omega arith
disjoint_digits zero k (suc a) y h b = absurd (omega arith)
disjoint_digits (suc n) k zero y h b = omega arith
disjoint_digits (suc n) zero (suc a) y h b = absurd (omega arith)
disjoint_digits (suc n) (suc k) (suc a) y h b =
    let e : y * 2 ^ suc k ≡ y * 2 ^ k * 2 = rw (pow-suc 2 k) (omega arith) in
    let half : y * 2 ^ suc k / 2 ≡ y * 2 ^ k = omega (arith, e) in
    let even : y * 2 ^ suc k % 2 ≡ 0 = omega (arith, e) in
    rw (half, even)
      (omega
        (arith, e, disjoint_digits n k (suc a / 2) y (omega arith) (omega (arith, pow-suc 2 k))))

-- A number below 2 ^ k joined with one above it.
pub bit_or_disjoint : (k a y : ℕ) → a < 2 ^ k → bit_or a (y * 2 ^ k) ≡ a + y * 2 ^ k
bit_or_disjoint k a y h = rw bit_or-bitwise (disjoint_digits a k a y (omega arith) h)

max-digits-lt : (n k a b : ℕ) → a ≤ n → a < 2 ^ k → b < 2 ^ k → digits (λ z. z) max n a b < 2 ^ k
max-digits-lt zero k a b h p q = q
max-digits-lt (suc n) k zero b h p q = q
max-digits-lt (suc n) zero (suc a) b h p q = absurd (omega arith)
max-digits-lt (suc n) (suc k) (suc a) b h p q = omega (
  arith,
  pow-suc 2 k,
  max-digits-lt n k (suc a / 2) (b / 2) (omega arith) (omega (arith, pow-suc 2 k))
      (omega (arith, pow-suc 2 k)),
)

-- The operators stay inside a `k`-bit word.
pub bit_or-lt : (k a b : ℕ) → a < 2 ^ k → b < 2 ^ k → bit_or a b < 2 ^ k
bit_or-lt k a b p q = rw bit_or-bitwise (max-digits-lt a k a b (omega arith) p q)

-- The remainder by an even number, from that of the half.
mod_double : (q m : ℕ) → 0 < m → q / 2 % m * 2 + min (q % 2) 1 ≡ q % (m * 2)
mod_double q m pos =
    let d = q / 2 / m in
    let r = q / 2 % m in
    let e : r + m * d ≡ q / 2 = mod-add-div (q / 2) m in
    let low : r < m = mod-lt (q / 2) pos in
    let split : q ≡ (r * 2 + q % 2) + m * 2 * d = omega (arith, e) in
    let small : r * 2 + q % 2 < m * 2 = omega (arith, low) in
    let reduced : q % (m * 2) ≡ r * 2 + q % 2 =
      ap (λ (x : ℕ). x % (m * 2)) split
      ∙ add-mul-mod_self_left (r * 2 + q % 2) (m * 2) d
      ∙ mod-eq_of_lt small in
    omega (arith, reduced)

masked_digits : (n k a : ℕ) → a ≤ n → digits (λ _. 0) min n a (2 ^ k - 1) ≡ a % 2 ^ k
masked_digits zero k zero h = omega (arith, pow_pos k)
masked_digits zero k (suc a) h = absurd (omega arith)
masked_digits (suc n) k zero h = omega (arith, pow_pos k)
masked_digits (suc n) zero (suc a) h = omega (arith, digits_none n (suc a / 2))
masked_digits (suc n) (suc k) (suc a) h =
    let half : (2 ^ suc k - 1) / 2 ≡ 2 ^ k - 1 = omega (arith, pow-suc 2 k) in
    let odd : (2 ^ suc k - 1) % 2 ≡ 1 = omega (arith, pow-suc 2 k, pow_pos k) in
    rw (half, odd, masked_digits n k (suc a / 2) (omega arith))
      (mod_double (suc a) (2 ^ k) (pow_pos k)
        ∙ ap (λ (m : ℕ). suc a % m) (omega (arith, pow-suc 2 k)))

-- `a & ((1 << k) - 1)` is the remainder.
pub bit_and_low_mask : (a k : ℕ) → bit_and a (2 ^ k - 1) ≡ a % 2 ^ k
bit_and_low_mask a k = rw bit_and-bitwise (masked_digits a k a (omega arith))

max-digits-zero : (n x : ℕ) → x ≤ n → digits (λ z. z) max n x 0 ≡ x
max-digits-zero zero zero h = refl
max-digits-zero zero (suc x) h = absurd (omega arith)
max-digits-zero (suc n) zero h = refl
max-digits-zero (suc n) (suc x) h = omega (arith, max-digits-zero n (suc x / 2) (omega arith))

high_digits :
    (n k x a y : ℕ) → x ≤ n → x ≡ y * 2 ^ k → a < 2 ^ k → digits (λ z. z) max n x a ≡ x + a
high_digits n zero x zero y h e b = omega (arith, max-digits-zero n x h)
high_digits n zero x (suc a) y h e b = absurd (omega arith)
high_digits zero (suc k) zero a y h e b = omega arith
high_digits zero (suc k) (suc x) a y h e b = absurd (omega arith)
high_digits (suc n) (suc k) zero a y h e b = omega arith
high_digits (suc n) (suc k) (suc x) a y h e b =
    let e' : suc x ≡ y * 2 ^ k * 2 = e ∙ rw (pow-suc 2 k) (omega arith) in
    let half : suc x / 2 ≡ y * 2 ^ k = omega (arith, e') in
    omega (
      arith,
      e',
      high_digits n k (suc x / 2) (a / 2) y (omega arith) half (omega (arith, pow-suc 2 k)),
    )

-- The same with the high part first.
pub bit_or_high : (k y a : ℕ) → a < 2 ^ k → bit_or (y * 2 ^ k) a ≡ y * 2 ^ k + a
bit_or_high k y a h =
    rw bit_or-bitwise (high_digits (y * 2 ^ k) k (y * 2 ^ k) a y (omega arith) refl h)

-- A power of two has one digit.
pub bit-power : (j i : ℕ) → bit j (2 ^ i) ≡ (i == j)
unfolding bit
bit-power zero zero = ground arith
bit-power zero (suc i) = ground (arith, pow-suc 2 i)
bit-power (suc j) zero = ground (arith, bit-zero j)
bit-power (suc j) (suc i) =
    let half : 2 ^ suc i / 2 ≡ 2 ^ i = omega (arith, pow-suc 2 i) in
    rw half (ground (arith, bit-power j i))

pub power-lt : (i k : ℕ) → i < k → 2 ^ i < 2 ^ k
power-lt i zero h = absurd (omega arith)
power-lt zero (suc k) h = omega (arith, pow-suc 2 k, pow_pos k)
power-lt (suc i) (suc k) h = omega (arith, pow-suc 2 i, pow-suc 2 k, power-lt i k (omega arith))
