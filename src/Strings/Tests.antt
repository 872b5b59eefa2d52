-- ===== src/Strings/Tests.antt =====
-- Runs of src/lib/string.c on the strings "ab" at 10 and "c" at 20.
use frod.Base.{ℕ, ◌+◌, ◌≤◌, ◌≡◌, refl, ◌↔◌, inr, ◌==◌, if◌then◌else◌, arith, IsBytes, Memory, write}
use frod.Base.{some}
use frod.Base.Int.{ℤ, pos, negsuc, ◌-ℤ◌}
use frod.Strings.{memcpy, memmove, strlen, strchr, strcmp, strncmp}
use frod.Strings.{strncmp_from, char_diff, copy_from, strchr_from}
use frod.Strings.Copy.{moved, memcpy-moved}
use frod.Strings.Search.{IsString, strlen_lem}
use frod.Strings.Compare.{strcmp-zero_iff}

abbrev text : Memory
text a = if a == 10 then 97 else if a == 11 then 98 else if a == 20 then 99 else 0

text-IsBytes : IsBytes text
text-IsBytes a = ground arith

ab-IsString : IsString text 10 2
ab-IsString = record { ends = refl; before = λ i lt. ground arith }

c-IsString : IsString text 20 1
c-IsString = record { ends = refl; before = λ i lt. ground arith }

strncmp_run : strncmp 10 20 1 text ≡ negsuc 1
unfolding strncmp strncmp_from char_diff ◌-ℤ◌
strncmp_run = refl

smear_run : (memmove 11 10 2 text).0 12 ≡ 97
unfolding memmove memcpy copy_from write
smear_run = refl

-- `strchr` of 'b' in "ab" gives back the start of the string.
strchr_run : strchr 3 10 98 text ≡ some 10
unfolding strchr strchr_from
strchr_run = refl

memcpy-moved_example :
    ((memcpy 30 10 2 text).0 31 ≡ moved 30 10 2 text 31) × ((memcpy 30 10 2 text).1 ≡ 30)
memcpy-moved_example = memcpy-moved 30 10 2 text 31 (omega arith) (omega arith) (inr (omega arith))

strlen_lem_run : strlen 3 10 text ≡ some 2
strlen_lem_run = strlen_lem 3 10 2 text ab-IsString (omega arith) (omega arith)

strcmp-zero_iff_example :
    (d : ℤ) × (strcmp 3 10 20 text ≡ some d)
    × ((d ≡ pos 0) ↔ ((j : ℕ) → 0 ≤ j → j ≤ 2 → text (10 + j) ≡ text (20 + j)))
strcmp-zero_iff_example =
    strcmp-zero_iff 3 10 20 2 text (omega arith) (omega arith) text-IsBytes ab-IsString
      (omega arith)
