-- ===== src/Kernel/Sums.antt =====
-- The checksums of src/sys/kernel.c as sums.
use frod.Base.{ℕ, zero, suc, ◌+◌, ◌*◌, ◌%◌, ◌^◌, ◌≡◌, ap, ◌∙◌, arith, List, [], ◌∷◌, Memory}
use native.Mathlib.Nat.{mod-add-mod}
use frod.Kernel.{read_le, checksum_from, checksum_8, checksum_16, checksum_32, checksum_64}

-- The `len` words of `width` bytes from index `i` on.
abbrev pub words_from : ℕ → ℕ → ℕ → ℕ → Memory → List ℕ
words_from width zero i p m = []
words_from width (suc left) i p m =
    read_le m (p + width * i) width ∷ words_from width left (i + 1) p m

abbrev pub sum : List ℕ → ℕ
sum [] = 0
sum (n ∷ ns) = n + sum ns

checksum_from-sum :
    (width left i p : ℕ) (m : Memory) (ret : ℕ)
    → checksum_from width left i p m (ret % 2 ^ (8 * width))
      ≡ (ret + sum (words_from width left i p m)) % 2 ^ (8 * width)
unfolding checksum_from
checksum_from-sum width zero i p m ret = ap (λ t. t % 2 ^ (8 * width)) (omega arith)
checksum_from-sum width (suc left) i p m ret =
    let word : ℕ = read_le m (p + width * i) width in
    let rest : ℕ = sum (words_from width left (i + 1) p m) in
    let assoc : ret + word + rest ≡ ret + (word + rest) = omega arith in
    rw (mod-add-mod ret (2 ^ (8 * width)) word)
      (checksum_from-sum width left (i + 1) p m (ret + word) ∙ ap (λ t. t % 2 ^ (8 * width)) assoc)

from_zero :
    (width len p : ℕ) (m : Memory)
    → checksum_from width len 0 p m (0 % 2 ^ (8 * width))
      ≡ sum (words_from width len 0 p m) % 2 ^ (8 * width)
from_zero width len p m =
    checksum_from-sum width len 0 p m 0 ∙ ap (λ t. t % 2 ^ (8 * width)) (omega arith)

-- Each checksum is the sum of the words of its width, from the first to the last, in as many bits;
-- in particular it does not depend on their order, and the empty one is 0.
pub checksum-sum :
    (p len : ℕ) (m : Memory)
    → (checksum_8 p len m ≡ sum (words_from 1 len 0 p m) % 2 ^ 8)
      × (checksum_16 p len m ≡ sum (words_from 2 len 0 p m) % 2 ^ 16)
      × (checksum_32 p len m ≡ sum (words_from 4 len 0 p m) % 2 ^ 32)
      × (checksum_64 p len m ≡ sum (words_from 8 len 0 p m) % 2 ^ 64)
unfolding checksum_8 checksum_16 checksum_32 checksum_64
checksum-sum p len m =
    (from_zero 1 len p m, from_zero 2 len p m, from_zero 4 len p m, from_zero 8 len p m)
