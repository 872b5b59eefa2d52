-- ===== src/Strings/Search.antt =====
-- What `strlen`, `strchr`, `strcpy` and `strcat`, src/lib/string.c, do with a string.
use frod.Base.{ℕ, zero, suc, ◌+◌, ◌≤◌, ◌<◌, ◌≡◌, ◌≢◌, ◌⊎◌, inl, inr}
use frod.Base.{Memory, arith}
use frod.Base.{some}
use native.Mathlib.Decide.{dec_lt, ℕ_discrete}
use frod.Strings.{end_from, strlen, strchr_from, strchr}

-- There is a string of `n` bytes at `p`: the first null byte is at `p + n`.
pub record IsString (m : Memory) (p n : ℕ) : Type 0 where
  pub ends : m (p + n) ≡ 0
  pub before : (i : ℕ) → i < n → m (p + i) ≢ 0

pub end_from_lem :
    (fuel i p n : ℕ) (m : Memory)
    → IsString m p n
    → i ≤ n
    → n < i + fuel
    → end_from fuel i p m ≡ some n
unfolding end_from
end_from_lem zero i p n m str le enough = absurd (omega arith)
end_from_lem (suc fuel) i p n m str le enough =
    ground (arith, end_from_lem fuel (i + 1) p n m str, str.ends, str.before i)

-- `strlen` ends on every string and returns its length.
pub strlen_lem :
    (fuel p n : ℕ) (m : Memory) → IsString m p n → p ≢ 0 → n < fuel → strlen fuel p m ≡ some n
unfolding strlen
strlen_lem fuel p n m str ne enough = ground (arith, end_from_lem fuel 0 p n m str)

-- `ch` stands among the bytes `i..n)` of the string.
abbrev pub Contains : Memory → ℕ → ℕ → ℕ → ℕ → Type 0
Contains m p i n ch = (k : ℕ) × (i ≤ k) × (k < n) × (m (p + k) ≡ ch)

strchr_from_end :
    (fuel i p n ch : ℕ) (m : Memory)
    → IsString m p n
    → i ≡ n
    → strchr_from (suc fuel) i p ch m ≡ some 0
unfolding strchr_from
strchr_from_end fuel i p n ch m str e = ground (arith, str.ends)

none_before :
    (i n p ch : ℕ) (m : Memory)
    → m (p + i) ≢ ch
    → ((k : ℕ) → i + 1 ≤ k → k < n → m (p + k) ≢ ch)
    → (k : ℕ) → i ≤ k
    → k < n
    → m (p + k) ≢ ch
none_before i n p ch m miss later k a b = elim (ℕ_discrete i k) [
  | yes e ↦ rw (← e) miss
  | no ne ↦ later k (omega arith) b
]

strchr_from_lem :
    (fuel i p n ch : ℕ) (m : Memory)
    → IsString m p n
    → i ≤ n
    → n < i + fuel
    → (Contains m p i n ch × (strchr_from fuel i p ch m ≡ some p))
      ⊎ (((k : ℕ) → i ≤ k → k < n → m (p + k) ≢ ch) × (strchr_from fuel i p ch m ≡ some 0))
unfolding strchr_from
strchr_from_lem zero i p n ch m str le enough = absurd (omega arith)
strchr_from_lem (suc fuel) i p n ch m str le enough = elim (dec_lt i n) [
  | no end ↦
      inr ((λ k a b. absurd (omega arith)), strchr_from_end fuel i p n ch m str (omega arith))
  | yes more ↦ elim (ℕ_discrete (m (p + i)) ch) [
    | yes hit ↦ inl ((i, omega arith, more, hit), ground (arith, str.before i))
    | no miss ↦ elim (strchr_from_lem fuel (i + 1) p n ch m str (omega arith) (omega arith)) [
      | inl ((k, a, b, c), e) ↦ inl ((k, omega arith, b, c), ground (arith, str.before i))
      | inr (none_left, e) ↦
          inr ((λ k a b. none_before i n p ch m miss none_left k a b), ground (arith, str.before i))
    ]
  ]
]

-- On a string, `strchr` ends: it returns the start of the string, not the place of the character,
-- if the character stands before the end, and the null pointer if it does not.
pub strchr_lem :
    (fuel p n ch : ℕ) (m : Memory)
    → IsString m p n
    → n < fuel
    → (Contains m p 0 n ch × (strchr fuel p ch m ≡ some p))
      ⊎ (((k : ℕ) → 0 ≤ k → k < n → m (p + k) ≢ ch) × (strchr fuel p ch m ≡ some 0))
unfolding strchr
strchr_lem fuel p n ch m str enough =
    strchr_from_lem fuel 0 p n ch m str (omega arith) (omega arith)
