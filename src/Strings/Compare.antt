-- ===== src/Strings/Compare.antt =====
-- What `memcmp`, `strcmp` and `strncmp`, src/lib/string.c, return.
use frod.Base.{ℕ, zero, suc, ◌+◌, ◌≤◌, ◌<◌, ◌≡◌, refl, ◌≢◌, ◌⊎◌, inl, inr, ◌↔◌}
use frod.Base.{◌==◌, Memory, IsBytes, arith, Option, some, Bool-cases}
use frod.Base.Int.{ℤ, pos, sub_ℕ, ◌-ℤ◌}
use frod.Strings.{string_null_error, memcmp_from, memcmp, strcmp_from, strcmp, char_diff}
use frod.Strings.Search.{IsString}

-- `p` and `q` differ first at byte `i + d`.
pub record FirstDiff (m : Memory) (p q lo hi : ℕ) (k : ℕ) : Type 0 where
  pub above : lo ≤ k
  pub below : k < hi
  pub same : (j : ℕ) → lo ≤ j → j < k → m (p + j) ≡ m (q + j)
  pub differ : m (p + k) ≢ m (q + k)

memcmp_from_lem :
    (left i p q : ℕ) (m : Memory)
    → (((j : ℕ) → i ≤ j → j < i + left → m (p + j) ≡ m (q + j))
        × (memcmp_from left i p q m ≡ pos 0))
      ⊎ ((k : ℕ) × FirstDiff m p q i (i + left) k
          × (memcmp_from left i p q m ≡ sub_ℕ (m (p + k)) (m (q + k))))
unfolding memcmp_from
memcmp_from_lem zero i p q m = inl ((λ j a b. absurd (omega arith)), refl)
memcmp_from_lem (suc left) i p q m = elim (Bool-cases (m (p + i) == m (q + i))) [
  | inr ne ↦ inr (
    i,
    record {
      above = omega arith;
      below = omega arith;
      same = λ j a b. absurd (omega arith);
      differ = ground arith;
    },
    rw ne,
  )
  | inl eq ↦ rw eq (elim (memcmp_from_lem left (i + 1) p q m) [
    | inl (all, e) ↦ inl ((λ j a b. ground (arith, all j)), e)
    | inr (k, d, e) ↦ inr (
      k,
      record {
        above = omega (arith, d.above);
        below = omega (arith, d.below);
        same = λ j a b. ground (arith, d.same j);
        differ = d.differ;
      },
      e,
    )
  ])
]

-- Between pointers that are not null, `memcmp` returns 0 exactly when the `num` bytes agree, and
-- otherwise the difference of the first bytes that differ.
pub memcmp-FirstDiff :
    (p q num : ℕ) (m : Memory)
    → p ≢ 0
    → q ≢ 0
    → (((j : ℕ) → 0 ≤ j → j < num → m (p + j) ≡ m (q + j)) × (memcmp p q num m ≡ pos 0))
      ⊎ ((k : ℕ) × FirstDiff m p q 0 num k × (memcmp p q num m ≡ sub_ℕ (m (p + k)) (m (q + k))))
unfolding memcmp
memcmp-FirstDiff p q num m hp hq = elim (memcmp_from_lem num 0 p q m) [
  | inl (all, e) ↦ inl ((λ j a b. ground (arith, all j)), ground arith)
  | inr (k, d, e) ↦ inr (
    k,
    record { above = d.above; below = omega (arith, d.below); same = d.same; differ = d.differ },
    ground arith,
  )
]

memcmp_from_range :
    (left i p q : ℕ) (m : Memory) → IsBytes m → memcmp_from left i p q m ≢ string_null_error
unfolding memcmp_from
memcmp_from_range zero i p q m bytes = ground arith
memcmp_from_range (suc left) i p q m bytes =
    ground (arith, memcmp_from_range left (i + 1) p q m bytes, bytes (p + i), bytes (q + i))

-- On bytes, `memcmp` returns the error value 0xF00 exactly when one of its pointers is null.
pub memcmp_error_iff :
    (p q num : ℕ) (m : Memory)
    → IsBytes m
    → (memcmp p q num m ≡ string_null_error) ↔ ((p ≡ 0) ⊎ (q ≡ 0))
unfolding memcmp
memcmp_error_iff p q num m bytes =
    ((λ e. ground (arith, memcmp_from_range num 0 p q m bytes)), λ h. ground arith)

char_diff_zero : (a b : ℕ) → a < 256 → b < 256 → (char_diff a b ≡ pos 0) ↔ (a ≡ b)
unfolding char_diff ◌-ℤ◌
char_diff_zero a b ha hb = ground arith

-- The answer `d` of a comparison from byte `i` on of a string of `n` bytes.
abbrev Compared : ℕ → ℕ → ℕ → ℕ → Memory → Option ℤ → Type 0
Compared i p q n m r =
    (d : ℤ) × (r ≡ some d) × ((d ≡ pos 0) ↔ ((j : ℕ) → i ≤ j → j ≤ n → m (p + j) ≡ m (q + j)))

strcmp_differ :
    (i p q n : ℕ) (m : Memory)
    → IsBytes m
    → i ≤ n
    → m (p + i) ≢ m (q + i)
    → Compared i p q n m (some (char_diff (m (p + i)) (m (q + i))))
strcmp_differ i p q n m bytes le ne = (
  char_diff (m (p + i)) (m (q + i)),
  refl,
  (
    (λ e. absurd (ne ((char_diff_zero _ _ (bytes (p + i)) (bytes (q + i))).0 e))),
    λ all. absurd (ne (all i (omega arith) le)),
  ),
)

strcmp_end :
    (i p q n : ℕ) (m : Memory)
    → IsBytes m
    → i ≡ n
    → m (p + i) ≡ m (q + i)
    → Compared i p q n m (some (char_diff (m (p + i)) (m (q + i))))
strcmp_end i p q n m bytes last eq = (
  char_diff (m (p + i)) (m (q + i)),
  refl,
  ((λ e j a b. ground arith), λ all. (char_diff_zero _ _ (bytes (p + i)) (bytes (q + i))).1 eq),
)

strcmp_from_lem :
    (fuel i p q n : ℕ) (m : Memory)
    → IsBytes m
    → IsString m p n
    → i ≤ n
    → n < i + fuel
    → Compared i p q n m (strcmp_from fuel i p q m)
unfolding strcmp_from
strcmp_from_lem zero i p q n m bytes s le enough = absurd (omega arith)
strcmp_from_lem (suc fuel) i p q n m bytes s le enough =
    elim (Bool-cases (m (p + i) == m (q + i))) [
      | inr ne ↦ rw ne (strcmp_differ i p q n m bytes le (ground arith))
      | inl same ↦ elim (Bool-cases (m (p + i) == 0)) [
        | inl end ↦
            rw (same, end) (strcmp_end i p q n m bytes (ground (arith, s.before i)) (ground arith))
        | inr more ↦
            let lt : i + 1 ≤ n = ground (arith, s.ends) in
            let (d, e, f) = strcmp_from_lem fuel (i + 1) p q n m bytes s lt (omega arith) in
            rw (same, more)
              (
                d,
                e,
                ((λ z j a b. ground (arith, f.0 z j)), λ all. f.1 (λ j a b. all j (omega arith) b)),
              )
      ]
    ]

-- On bytes and pointers that are not null, `strcmp` of a string of `n` bytes with any bytes
-- ends, and returns 0 exactly when the two agree up to and including the string's null byte.
pub strcmp-zero_iff :
    (fuel p q n : ℕ) (m : Memory)
    → p ≢ 0
    → q ≢ 0
    → IsBytes m
    → IsString m p n
    → n < fuel
    → (d : ℤ) × (strcmp fuel p q m ≡ some d)
      × ((d ≡ pos 0) ↔ ((j : ℕ) → 0 ≤ j → j ≤ n → m (p + j) ≡ m (q + j)))
unfolding strcmp
strcmp-zero_iff fuel p q n m hp hq bytes s enough =
    let (d, e, f) = strcmp_from_lem fuel 0 p q n m bytes s (omega arith) (omega arith) in
    (d, ground arith, f)
