-- ===== src/Kernel/Signature.antt =====
-- The search for a signature, `find_signature` of src/sys/kernel.c.
use frod.Base.{
  ℕ, zero, suc, ◌+◌, ◌*◌, ◌≤◌, ◌<◌, ◌≡◌, refl, arith, true, false, Bool-cases, inl, inr, ◌⊎◌, ltb,
  ◌==◌, Memory, some, u32,
}
use native.Mathlib.Nat.{add-mul, mul-le-mul_right}
use frod.Kernel.{is_signature, signature_from, find_signature}

module _ (p len bytes sig align : ℕ) (m : Memory) where
  -- No offset between the `k` th multiple of the alignment and the end has the signature.
  abbrev pub NoneFrom : ℕ → Type 0
  NoneFrom k = (j : ℕ) → k ≤ j → j * align < len → is_signature m (p + j * align) bytes sig ≡ false

  -- The first multiple of the alignment that has the signature.
  pub record IsFirst (k : ℕ) (first : ℕ) : Type 0 where
    pub inside : first * align < len
    pub matches : is_signature m (p + first * align) bytes sig ≡ true
    pub earliest : (j : ℕ) → k ≤ j → j < first → is_signature m (p + j * align) bytes sig ≡ false

  pub IsFound : ℕ → ℕ → Type 0
  IsFound k r = (first : ℕ) × IsFirst k first × (r ≡ u32 (p + first * align))

  NoneFrom-later :
      (k : ℕ) → is_signature m (p + k * align) bytes sig ≡ false → NoneFrom (k + 1) → NoneFrom k
  NoneFrom-later k here later j le lt = elim (Bool-cases (j == k)) [
    | inl same ↦ let e : j ≡ k = ground arith in rw e here
    | inr other ↦ later j (ground arith) lt
  ]

  IsFound-later :
      (k r : ℕ) → is_signature m (p + k * align) bytes sig ≡ false → IsFound (k + 1) r → IsFound k r
  unfolding IsFound
  IsFound-later k r here (first, f, e) = (
    first,
    record {
      inside = f.inside;
      matches = f.matches;
      earliest = λ j le lt. elim (Bool-cases (j == k)) [
        | inl same ↦ let e2 : j ≡ k = ground arith in rw e2 here
        | inr other ↦ f.earliest j (ground arith) lt
      ];
    },
    e,
  )

  multiple : (k : ℕ) → k * align + align ≡ (k + 1) * align
  multiple k = omega (arith, add-mul k 1 align)

  past : (k j : ℕ) → k ≤ j → j * align < len → ltb (k * align) len ≡ false → ⊥
  past k j le lt over =
      let more : k * align ≤ j * align = mul-le-mul_right align le in
      let out : len ≤ k * align = ground arith in omega arith

  signature_from-lem :
      (fuel k : ℕ)
      → 1 ≤ align
      → len ≤ fuel + k * align
      → (r : ℕ) × (signature_from (suc fuel) (k * align) p len bytes sig align m ≡ some r)
        × (((r ≡ 0) × NoneFrom k) ⊎ IsFound k r)
  unfolding signature_from IsFound
  signature_from-lem zero k one enough =
      let over : ltb (k * align) len ≡ false = ground arith in
      rw over (0, refl, inl (refl, λ j le lt. absurd (past k j le lt over)))
  signature_from-lem (suc fuel) k one enough = elim (Bool-cases (ltb (k * align) len)) [
    | inr over ↦ rw over (0, refl, inl (refl, λ j le lt. absurd (past k j le lt over)))
    | inl inside ↦ elim (Bool-cases (is_signature m (p + k * align) bytes sig)) [
      | inl here ↦
          rw (inside, here)
            (
              u32 (p + k * align),
              refl,
              inr (
                k,
                record {
                  inside = ground arith;
                  matches = here;
                  earliest = λ j le lt. absurd (omega arith);
                },
                refl,
              ),
            )
      | inr not_here ↦
          let next : k * align + align ≡ (k + 1) * align = multiple k in
          let (r, e, answer) = signature_from-lem fuel (k + 1) one (omega (arith, next, enough)) in
          rw (inside, not_here, next)
            (
              r,
              e,
              elim answer [
                | inl (zero_r, nothing) ↦ inl (zero_r, NoneFrom-later k not_here nothing)
                | inr found ↦ inr (IsFound-later k r not_here found)
              ],
            )
    ]
  ]

  -- For an alignment of 1 or more, `len + 1` rounds are enough for `find_signature`, and it returns
  -- the address of the first multiple of the alignment below `len` where the signature stands, in
  -- the width that is asked for, or 0 if there is none, as for a width other than 1, 2, 4 and 8.
  pub find_signature_lem :
      1 ≤ align
      → (r : ℕ) × (find_signature (suc len) p len bytes sig align m ≡ some r)
        × (((r ≡ 0) × NoneFrom 0) ⊎ IsFound 0 r)
  unfolding find_signature
  find_signature_lem one =
      let start : 0 * align ≡ 0 = omega arith in
      let (r, e, answer) = signature_from-lem len 0 one (omega arith) in
      (r, (rw start at e), answer)
