-- ===== src/Base/Bits.antt =====
-- `&` and `|` at variables: the law for the lowest digit, and what follows from it for masks,
-- shifts and disjoint fields.
use Prim.Native.Nat.{
  ℕ, zero, suc, ◌+◌, ◌-◌, ◌*◌, ◌/◌, ◌%◌, ◌^◌, ◌≤◌, ◌<◌, min, max, bit_and, bit_or,
}
use Prim.Native.Nat.{digits, bitwise, bit_and-bitwise, bit_or-bitwise}
use mathlib.Core.Path.{◌≡◌, ap}
use native.Mathlib.Nat.{
  add-zero, le_refl, pow-suc, one-le-pow, div-add-mod, div-div-eq-div-mul, div-one, mul-one,
}
use native.Mathlib.Omega.{arith}

-- Fuel beyond the first argument makes no difference to the digit recursion.
more_fuel :
    (z : ℕ → ℕ) (f : ℕ → ℕ → ℕ) (extra n a b : ℕ)
    → a ≤ n
    → digits z f (n + extra) a b ≡ digits z f n a b
more_fuel z f zero n a b le = rw (add-zero n)
more_fuel z f (suc extra) zero zero b le =
    let e : zero + suc extra ≡ suc extra = omega arith in rw e
more_fuel z f (suc extra) zero (suc a) b le = absurd (omega arith)
more_fuel z f (suc extra) (suc n) zero b le =
    let e : suc n + suc extra ≡ suc (n + suc extra) = omega arith in rw e
more_fuel z f (suc extra) (suc n) (suc a) b le =
    let e : suc n + suc extra ≡ suc (n + suc extra) = omega arith in
    rw (e, more_fuel z f (suc extra) n (suc a / 2) (b / 2) (omega arith))

-- One digit of a bitwise operation, whatever the operation on digits.
one_digit :
    (z : ℕ → ℕ) (f : ℕ → ℕ → ℕ) (a b : ℕ)
    → bitwise z f (suc a) b ≡ bitwise z f (suc a / 2) (b / 2) * 2 + f (suc a % 2) (b % 2)
one_digit z f a b =
    let split : suc a / 2 + (a - suc a / 2) ≡ a = omega arith in
    let same : digits z f a (suc a / 2) (b / 2) ≡ digits z f (suc a / 2) (suc a / 2) (b / 2) =
      rw split at (more_fuel z f (a - suc a / 2) (suc a / 2) (suc a / 2) (b / 2) (le_refl _)) in
    omega (arith, same)

and_zero_left : (b : ℕ) → bit_and 0 b ≡ 0
and_zero_left b = bit_and-bitwise 0 b

or_zero_left : (b : ℕ) → bit_or 0 b ≡ b
or_zero_left b = bit_or-bitwise 0 b

-- Both operations, digit by digit.
pub bit_and_step : (a b : ℕ) → bit_and a b ≡ min (a % 2) (b % 2) + bit_and (a / 2) (b / 2) * 2
bit_and_step zero b = omega (arith, and_zero_left b, and_zero_left (b / 2))
bit_and_step (suc a) b =
    rw (bit_and-bitwise (suc a) b, bit_and-bitwise (suc a / 2) (b / 2))
      (omega (arith, one_digit (λ y. 0) min a b))

pub bit_or_step : (a b : ℕ) → bit_or a b ≡ max (a % 2) (b % 2) + bit_or (a / 2) (b / 2) * 2
bit_or_step zero b = omega (arith, or_zero_left b, or_zero_left (b / 2))
bit_or_step (suc a) b =
    rw (bit_or-bitwise (suc a) b, bit_or-bitwise (suc a / 2) (b / 2))
      (omega (arith, one_digit (λ y. y) max a b))

pub mod_two-bit_or : (a b : ℕ) → bit_or a b % 2 ≡ max (a % 2) (b % 2)
mod_two-bit_or a b = omega (arith, bit_or_step a b)

half-bit_or : (a b : ℕ) → bit_or a b / 2 ≡ bit_or (a / 2) (b / 2)
half-bit_or a b = omega (arith, bit_or_step a b)

half-bit_and : (a b : ℕ) → bit_and a b / 2 ≡ bit_and (a / 2) (b / 2)
half-bit_and a b = omega (arith, bit_and_step a b)

pub div-two-pow-suc : (a k : ℕ) → a / 2 ^ suc k ≡ a / 2 / 2 ^ k
div-two-pow-suc a k =
    rw (div-div-eq-div-mul a 2 (2 ^ k)) (ap (λ (t : ℕ). a / t) (omega (arith, pow-suc 2 k)))

-- A shift to the right goes through both operations.
pub div-bit_or : (k a b : ℕ) → bit_or a b / 2 ^ k ≡ bit_or (a / 2 ^ k) (b / 2 ^ k)
div-bit_or zero a b = simp div-one
div-bit_or (suc k) a b = simp div-two-pow-suc (rw (half-bit_or a b) (div-bit_or k (a / 2) (b / 2)))

pub div-bit_and : (k a b : ℕ) → bit_and a b / 2 ^ k ≡ bit_and (a / 2 ^ k) (b / 2 ^ k)
div-bit_and zero a b = simp div-one
div-bit_and (suc k) a b =
    simp div-two-pow-suc (rw (half-bit_and a b) (div-bit_and k (a / 2) (b / 2)))

-- Both operations commute, by induction on a bound of both arguments.
or_comm_below : (n a b : ℕ) → a ≤ n → b ≤ n → bit_or a b ≡ bit_or b a
or_comm_below zero a b p q = let e : a ≡ b = omega arith in rw e
or_comm_below (suc n) a b p q = omega (
  arith,
  bit_or_step a b,
  bit_or_step b a,
  or_comm_below n (a / 2) (b / 2) (omega arith) (omega arith),
)

and_comm_below : (n a b : ℕ) → a ≤ n → b ≤ n → bit_and a b ≡ bit_and b a
and_comm_below zero a b p q = let e : a ≡ b = omega arith in rw e
and_comm_below (suc n) a b p q = omega (
  arith,
  bit_and_step a b,
  bit_and_step b a,
  and_comm_below n (a / 2) (b / 2) (omega arith) (omega arith),
)

pub bit_or_comm : (a b : ℕ) → bit_or a b ≡ bit_or b a
bit_or_comm a b = or_comm_below (a + b) a b (omega arith) (omega arith)

pub bit_and_comm : (a b : ℕ) → bit_and a b ≡ bit_and b a
bit_and_comm a b = and_comm_below (a + b) a b (omega arith) (omega arith)

pub bit_or-zero : (a : ℕ) → bit_or a 0 ≡ a
bit_or-zero a = omega (arith, bit_or_comm a 0, or_zero_left a)

pub bit_and-zero : (a : ℕ) → bit_and a 0 ≡ 0
bit_and-zero a = omega (arith, bit_and_comm a 0, and_zero_left a)

mul-two-pow-suc : (n q : ℕ) → q * 2 ^ suc n ≡ 2 * (q * 2 ^ n)
mul-two-pow-suc k q = omega (arith, ap (λ (t : ℕ). q * t) (pow-suc 2 k))

-- A high field and a low field of `k` bits do not meet, so `|` adds them.
pub or_disjoint : (high low k : ℕ) → low < 2 ^ k → bit_or (high * 2 ^ k) low ≡ high * 2 ^ k + low
or_disjoint high low zero lt =
    let none_low : low ≡ 0 = omega arith in rw none_low (omega (arith, bit_or-zero (high * 1)))
or_disjoint high low (suc k) lt =
    let half : low / 2 < 2 ^ k = omega (arith, pow-suc 2 k) in
    let even : high * 2 ^ suc k ≡ 2 * (high * 2 ^ k) = mul-two-pow-suc k high in
    let shifted : 2 * (high * 2 ^ k) / 2 ≡ high * 2 ^ k = omega arith in
    rw (even, bit_or_step, shifted, or_disjoint high (low / 2) k half) (omega arith)

mod-two-pow-suc : (a k : ℕ) → a % 2 ^ suc k ≡ a / 2 % 2 ^ k * 2 + a % 2
mod-two-pow-suc a k = omega (
  arith,
  div-add-mod a (2 ^ suc k),
  div-add-mod (a / 2) (2 ^ k),
  ap (λ (t : ℕ). 2 ^ suc k * t) (div-two-pow-suc a k),
  ap (λ (t : ℕ). t * (a / 2 / 2 ^ k)) (pow-suc 2 k),
)

-- A mask of `k` low bits is the remainder by `2 ^ k`.
pub bit_and_mask : (k a : ℕ) → bit_and a (2 ^ k - 1) ≡ a % 2 ^ k
bit_and_mask zero a = omega (arith, bit_and-zero a)
bit_and_mask (suc k) a =
    let odd : (2 ^ suc k - 1) % 2 ≡ 1 = omega (arith, pow-suc 2 k, one-le-pow k 2) in
    let half : (2 ^ suc k - 1) / 2 ≡ 2 ^ k - 1 = omega (arith, pow-suc 2 k, one-le-pow k 2) in
    rw (bit_and_step, half, odd, bit_and_mask k (a / 2), mod-two-pow-suc a k) (omega arith)

-- A mask whose `k` low digits are 0.
pub bit_and_high : (k a m : ℕ) → bit_and a (m * 2 ^ k) ≡ bit_and (a / 2 ^ k) m * 2 ^ k
bit_and_high zero a m = simp (div-one, mul-one)
bit_and_high (suc k) a m = ground (
  arith,
  bit_and_step a (m * 2 ^ suc k),
  mul-two-pow-suc k m,
  bit_and_high k (a / 2) m,
  div-two-pow-suc a k,
  mul-two-pow-suc k (bit_and (a / 2 / 2 ^ k) m),
)

pub bit_and-one : (a : ℕ) → bit_and a 1 ≡ a % 2
bit_and-one a = omega (arith, bit_and_step a 1, bit_and-zero (a / 2))

-- A mask of one bit.
pub bit_and_bit : (k a : ℕ) → bit_and a (2 ^ k) ≡ a / 2 ^ k % 2 * 2 ^ k
bit_and_bit k a = ground (arith, bit_and_high k a 1, bit_and-one (a / 2 ^ k))
