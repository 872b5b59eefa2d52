-- ===== src/Base/Bytes.antt =====
-- Facts about the bits of one byte, by evaluation over all bytes.
use Prim.Native.Nat.{ℕ, zero, suc, ◌-◌, ◌^◌, ◌<◌, bit_and, bit_or}
use mathlib.Core.Path.{◌≡◌, refl}
use mathlib.Core.Bool.{Bool, true, false, not, ◌&&◌}
use native.Mathlib.Omega.{arith}
use frod.Base.Tests.{◌==◌, ltb, if◌then◌else◌, ltb→lt}

unfoldable pub each_below : (ℕ → Bool) → ℕ → Bool
each_below test zero = true
each_below test (suc top) = each_below test top && test top

pub test_of_each_below :
    (test : ℕ → Bool) (top v : ℕ) → v < top → each_below test top ≡ true → test v ≡ true
unfolding each_below
test_of_each_below test zero v lt all = absurd (omega arith)
test_of_each_below test (suc top) v lt all = ground (arith, test_of_each_below test top v)

-- Bit `k` of `x`.
abbrev pub bit : ℕ → ℕ → Bool
bit x k = not (bit_and x (2 ^ k) == 0)

bool_eq : Bool → Bool → Bool
bool_eq true b = b
bool_eq false b = not b

bool_eq_sound : (a b : Bool) → bool_eq a b ≡ true → a ≡ b
unfolding bool_eq
bool_eq_sound a b h = ground arith

and_left : (a b : Bool) → (a && b) ≡ true → a ≡ true
and_left a b h = ground arith

and_right : (a b : Bool) → (a && b) ≡ true → b ≡ true
and_right a b h = ground arith

abbrev pub put_bit : ℕ → ℕ → ℕ
put_bit x k = bit_or x (2 ^ k)

-- `x & ~(1 << k)` on a byte.
abbrev pub drop_bit : ℕ → ℕ → ℕ
drop_bit x k = bit_and x (2 ^ 8 - 1 - 2 ^ k)

abbrev put_ok : ℕ → ℕ → ℕ → Bool
put_ok x k j =
    bool_eq (bit (put_bit x k) j) (if j == k then true else bit x j) && ltb (put_bit x k) 256

abbrev drop_ok : ℕ → ℕ → ℕ → Bool
drop_ok x k j =
    bool_eq (bit (drop_bit x k) j) (if j == k then false else bit x j) && ltb (drop_bit x k) 256

put_table : each_below (λ k. each_below (λ j. each_below (λ x. put_ok x k j) 256) 8) 8 ≡ true
unfolding each_below bool_eq
put_table = refl

drop_table : each_below (λ k. each_below (λ j. each_below (λ x. drop_ok x k j) 256) 8) 8 ≡ true
unfolding each_below bool_eq
drop_table = refl

put_row : (x k j : ℕ) → x < 256 → k < 8 → j < 8 → put_ok x k j ≡ true
put_row x k j hx hk hj =
    let rows =
      test_of_each_below (λ i. each_below (λ l. each_below (λ y. put_ok y i l) 256) 8) 8 k hk
        put_table in
    let row = test_of_each_below (λ l. each_below (λ y. put_ok y k l) 256) 8 j hj rows in
    test_of_each_below (λ y. put_ok y k j) 256 x hx row

drop_row : (x k j : ℕ) → x < 256 → k < 8 → j < 8 → drop_ok x k j ≡ true
drop_row x k j hx hk hj =
    let rows =
      test_of_each_below (λ i. each_below (λ l. each_below (λ y. drop_ok y i l) 256) 8) 8 k hk
        drop_table in
    let row = test_of_each_below (λ l. each_below (λ y. drop_ok y k l) 256) 8 j hj rows in
    test_of_each_below (λ y. drop_ok y k j) 256 x hx row

pub bit-put_bit :
    (x k j : ℕ) → x < 256 → k < 8 → j < 8 → bit (put_bit x k) j ≡ (if j == k then true else bit x j)
bit-put_bit x k j hx hk hj = bool_eq_sound _ _ (and_left _ _ (put_row x k j hx hk hj))

pub bit-drop_bit :
    (x k j : ℕ)
    → x < 256
    → k < 8
    → j < 8
    → bit (drop_bit x k) j ≡ (if j == k then false else bit x j)
bit-drop_bit x k j hx hk hj = bool_eq_sound _ _ (and_left _ _ (drop_row x k j hx hk hj))

pub put_bit-lt : (x k : ℕ) → x < 256 → k < 8 → put_bit x k < 256
put_bit-lt x k hx hk = ltb→lt _ _ (and_right _ _ (put_row x k 0 hx hk (omega arith)))

pub drop_bit-lt : (x k : ℕ) → x < 256 → k < 8 → drop_bit x k < 256
drop_bit-lt x k hx hk = ltb→lt _ _ (and_right _ _ (drop_row x k 0 hx hk (omega arith)))
