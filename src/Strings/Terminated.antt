-- ===== src/Strings/Terminated.antt =====
-- What `strcpy`, `strcat` and `strncpy`, src/lib/string.c, leave in memory.
use frod.Base.{ℕ, zero, suc, ◌+◌, ◌-◌, ◌^◌, ◌≤◌, ◌<◌, ◌≡◌, ◌≢◌, ◌⊎◌, inl, inr, ◌&&◌}
use frod.Base.{◌==◌, ltb, leb, if◌then◌else◌, Memory, write, arith}
use frod.Base.{some, Bool-cases}
use frod.Strings.{strcpy_from, strcpy, returning, to_start, copy_to_end, strcat}
use frod.Strings.{strncpy_from, strncpy}
use frod.Strings.Copy.{moved, IsForward, fill_from_lem}
use frod.Strings.Search.{IsString, end_from_lem}

-- `r` is a memory with the string of `n` bytes at `src` moved to `dst`, null byte included.
abbrev pub IsCopied : ℕ → ℕ → ℕ → Memory → Memory → Type 0
IsCopied dst src n m m' = (a : ℕ) → m' a ≡ moved dst src (n + 1) m a

strcpy_from-IsString :
    (fuel i dst src n : ℕ) (m : Memory)
    → m (src + n) ≡ 0
    → ((k : ℕ) → i ≤ k → k < n → m (src + k) ≢ 0)
    → IsForward dst src (n + 1)
    → i ≤ n
    → n < i + fuel
    → (m' : Memory) × (strcpy_from fuel i dst src m ≡ some m')
      × ((a : ℕ)
          → m' a ≡ (if leb (dst + i) a && ltb a (dst + n + 1) then m (src + (a - dst)) else m a))
unfolding strcpy_from write
strcpy_from-IsString zero i dst src n m ends before fwd le enough = absurd (omega arith)
strcpy_from-IsString (suc fuel) i dst src n m ends before fwd le enough =
    elim (Bool-cases (m (src + i) == 0)) [
      | inl end ↦ (write m (dst + i) (m (src + i)), rw end, λ a. ground (arith, before i))
      | inr more ↦
          let m1 : Memory = write m (dst + i) (m (src + i)) in
          let lt : i < n = ground arith in
          let (m', e, f) =
            strcpy_from-IsString fuel (i + 1) dst src n m1 (ground arith)
              (λ k p q. ground (arith, before k)) fwd (omega arith) (omega arith) in
          (m', rw more e, λ a. ground (arith, f a))
    ]

-- `strcpy` ends on a string and moves it, null byte included, where the target does not overlap
-- the source or lies below it; every other byte stays.
pub strcpy-IsCopied :
    (fuel dst src n : ℕ) (m : Memory)
    → dst ≢ 0
    → src ≢ 0
    → IsString m src n
    → IsForward dst src (n + 1)
    → n < fuel
    → (m' : Memory) × (strcpy fuel dst src m ≡ some (m', dst)) × IsCopied dst src n m m'
unfolding strcpy returning moved
strcpy-IsCopied fuel dst src n m d s str fwd enough =
    let (m', e, f) =
      strcpy_from-IsString fuel 0 dst src n m str.ends (λ k p q. str.before k q) fwd (omega arith)
        (omega arith) in
    (m', ground arith, λ a. ground (arith, f a))

-- `strcat` ends on two strings, and the target then holds the string of the first one's bytes
-- followed by the second one's, where the second one and its null byte lie outside of the
-- bytes that the result takes.
pub strcat-IsString :
    (fuel dst src n k : ℕ) (m : Memory)
    → dst ≢ 0
    → src ≢ 0
    → IsString m dst n
    → IsString m src k
    → (src + k < dst) ⊎ (dst + n + k < src)
    → n < fuel
    → k < fuel
    → (m' : Memory) × (strcat fuel dst src m ≡ some (m', dst))
      × IsString m' dst (n + k)
      × ((i : ℕ) → i < n → m' (dst + i) ≡ m (dst + i))
      × ((i : ℕ) → i < k → m' (dst + n + i) ≡ m (src + i))
unfolding strcat to_start copy_to_end moved
strcat-IsString fuel dst src n k m d s first second apart en ek =
    let (m', e, f) =
      strcpy-IsCopied fuel (dst + n) src k m (omega arith) s second (omega arith) ek in
    (
      m',
      ground (arith, end_from_lem fuel 0 dst n m first),
      record {
        ends = ground (arith, f (dst + (n + k)), second.ends);
        before = λ i lt. ground (arith, f (dst + i), first.before i, second.before (i - n));
      },
      (λ i lt. ground (arith, f (dst + i))),
      λ i lt. ground (arith, f (dst + n + i)),
    )

-- What `strncpy` leaves at `a`: the string's bytes as far as they fit, and null bytes behind.
unfoldable pub padded : ℕ → ℕ → ℕ → ℕ → Memory → Memory
padded dst src num n m a =
    if leb dst a && ltb a (dst + num)
    then (if ltb (a - dst) n && ltb (a - dst + 1) num then m (src + (a - dst)) else 0)
    else m a

-- The string is only read below `top`, so its null byte may stand further up.
strncpy_from_lem :
    (left i dst src n top : ℕ) (m : Memory) (a : ℕ)
    → i + left ≡ top
    → (n < top → m (src + n) ≡ 0)
    → ((k : ℕ) → i ≤ k → k < n → k < top → m (src + k) ≢ 0)
    → IsForward dst src top
    → i ≤ n
    → strncpy_from left i dst src m a ≡ (
        if leb (dst + i) a && ltb a (dst + top)
        then (if ltb (a - dst) n then m (src + (a - dst)) else 0)
        else m a)
unfolding strncpy_from write
strncpy_from_lem zero i dst src n top m a e ends before fwd le = ground arith
strncpy_from_lem (suc left) i dst src n top m a e ends before fwd le =
    elim (Bool-cases (m (src + i) == 0)) [
      | inl end ↦ rw end (ground (arith, before i, fill_from_lem (suc left) i dst 0 m a))
      | inr more ↦
          let m1 : Memory = write m (dst + i) (m (src + i)) in
          let lt : i < n = ground arith in
          rw more (
            ground (
              arith,
              strncpy_from_lem left (i + 1) dst src n top m1 a (omega arith) (λ q. ground arith)
                  (λ k p q r. ground (arith, before k)) fwd (omega arith),
            ))
    ]

-- Between pointers that are not null, with room for one byte or more, a target below 2 ^ 32 that
-- does not overlap the source or lies below it, `strncpy` of a string leaves the string cut to
-- `num - 1` bytes and filled up to `num` bytes with null bytes, and changes no other byte.
pub strncpy-padded :
    (dst src num n : ℕ) (m : Memory) (a : ℕ)
    → dst ≢ 0
    → src ≢ 0
    → 1 ≤ num
    → dst + num ≤ 2 ^ 32
    → IsString m src n
    → IsForward dst src num
    → (strncpy dst src num m).0 a ≡ padded dst src num n m a
unfolding strncpy write padded
strncpy-padded dst src num n m a d s pos room str fwd = ground (
  arith,
  strncpy_from_lem num 0 dst src n num m a (omega arith) (λ q. str.ends) (λ k p q r. str.before k q)
      fwd (omega arith),
)
