-- ===== src/Printf/Digits.antt =====
-- The digits that `do_printf`, lib/stdio.c, writes for a number.
use frod.Base.{
  ℕ, zero, suc, ◌+◌, ◌-◌, ◌*◌, ◌/◌, ◌%◌, ◌^◌, ◌≤◌, ◌<◌, ◌≡◌, arith, Bool, true, false, Bool-cases,
  inl, inr, ◌⊎◌,
}
use frod.Base.{◌==◌, ltb, if◌then◌else◌, List, [], ◌∷◌, length, ◌∙◌, ap, sym}
use frod.Printf.{digits, digit}

-- The value of the byte of a digit.
abbrev pub digit_value : ℕ → ℕ
digit_value c = if ltb c 58 then c - 48 else (if ltb c 97 then c - 55 else c - 87)

-- What a reader makes of digits behind a number `acc`.
unfoldable pub number_from : ℕ → ℕ → List ℕ → ℕ
number_from radix acc [] = acc
number_from radix acc (c ∷ cs) = number_from radix (radix * acc + digit_value c) cs

digit_value-digit : (ca : Bool) (n : ℕ) → n < 16 → digit_value (digit ca n) ≡ n
unfolding digit
digit_value-digit true n lt = ground arith
digit_value-digit false n lt = ground arith

-- `n` has at most `left` digits.
abbrev pub DigitsFit : ℕ → ℕ → ℕ → Type 0
DigitsFit radix zero n = n ≡ 0
DigitsFit radix (suc left) n = DigitsFit radix left (n / radix)

module _ (radix : ℕ) (ca : Bool) (whole : (n : ℕ) → radix * (n / radix) + n % radix ≡ n)
    (small : (n : ℕ) → n % radix < 16) where
  one_digit : (a n : ℕ) → a + digit_value (digit ca (n % radix)) ≡ a + n % radix
  one_digit a n = omega (arith, digit_value-digit ca (n % radix) (small n))

  last_digit : (n : ℕ) → n / radix ≡ 0 → radix * 0 + digit_value (digit ca (n % radix)) ≡ n
  last_digit n z = one_digit (radix * 0) n ∙ (ap (λ q. radix * q + n % radix) (sym z) ∙ whole n)

  number-digits_from :
      (left n : ℕ) (acc : List ℕ)
      → DigitsFit radix (suc left) n
      → number_from radix 0 (digits (suc left) radix ca n acc) ≡ number_from radix n acc
  unfolding digits number_from
  number-digits_from zero n acc fit =
      let only : (n / radix == 0) ≡ true = ground (arith, fit) in
      rw only (ap (λ m. number_from radix m acc) (last_digit n fit))
  number-digits_from (suc left) n acc fit = elim (Bool-cases (n / radix == 0)) [
    | inl last ↦ rw last (ap (λ m. number_from radix m acc) (last_digit n (ground arith)))
    | inr more ↦ rw more (
        number-digits_from left (n / radix) (digit ca (n % radix) ∷ acc) fit
        ∙ ap (λ m. number_from radix m acc) (one_digit (radix * (n / radix)) n ∙ whole n))
  ]

-- No more digits are written than the number has, whatever the space that is left.
length-digits :
    (left k radix n : ℕ) (ca : Bool) (acc : List ℕ)
    → DigitsFit radix (suc k) n
    → length (digits left radix ca n acc) ≤ suc k + length acc
unfolding digits
length-digits zero k radix n ca acc fit = omega arith
length-digits (suc left) zero radix n ca acc fit = ground (arith, fit)
length-digits (suc left) (suc k) radix n ca acc fit =
    ground (arith, length-digits left k radix (n / radix) ca (digit ca (n % radix) ∷ acc) fit)

abbrev pub IsRadix : ℕ → Type 0
IsRadix radix = (radix ≡ 8) ⊎ (radix ≡ 10) ⊎ (radix ≡ 16)

-- For a 32-bit number in base 8, 10 or 16, the digits read back as the number, and they and their
-- null byte fit into the buffer of 16 bytes, with 4 bytes to spare.
pub digits-number_from :
    (radix n : ℕ) (ca : Bool)
    → IsRadix radix
    → n < 2 ^ 32
    → (number_from radix 0 (digits 15 radix ca n []) ≡ n)
      × (length (digits 15 radix ca n []) + 1 ≤ 12)
unfolding number_from
digits-number_from radix n ca (inl e) lt = rw e (
  number-digits_from 8 ca (λ m. omega arith) (λ m. omega arith) 14 n [] (omega arith),
  omega (arith, length-digits 15 10 8 n ca [] (omega arith)),
)
digits-number_from radix n ca (inr (inl e)) lt = rw e (
  number-digits_from 10 ca (λ m. omega arith) (λ m. omega arith) 14 n [] (omega arith),
  omega (arith, length-digits 15 10 10 n ca [] (omega arith)),
)
digits-number_from radix n ca (inr (inr e)) lt = rw e (
  number-digits_from 16 ca (λ m. omega arith) (λ m. omega arith) 14 n [] (omega arith),
  omega (arith, length-digits 15 10 16 n ca [] (omega arith)),
)
