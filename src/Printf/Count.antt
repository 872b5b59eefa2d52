-- ===== src/Printf/Count.antt =====
-- The result of `do_printf`, lib/stdio.c, counts the bytes that it put out.
use frod.Base.{ℕ, zero, suc, ◌≡◌, refl, arith, Bool, true, false, inl, inr, ◌⊎◌, Option, some, none}
use frod.Base.{if◌then◌else◌, List, [], ◌∷◌, length, length-append, u32, ap}
use frod.Printf.{
  Printer, Arg, emit, emit_all, pad, emit_field, emit_text, do_num, convert_num, convert_char,
  convert_text, convert, conversion, modifier, width, flag, step, run, start, reset, upper_case,
  signed, do_printf, word_arg, text_arg, ◌>>=◌,
}

abbrev Counted : Printer → Type 0
Counted p = p.count ≡ u32 (length p.out)

abbrev count_of : Option Printer → ℕ
count_of none = 0
count_of (some p) = p.count

abbrev out_of : Option Printer → List ℕ
out_of none = []
out_of (some p) = p.out

abbrev AllCounted : Option Printer → Type 0
AllCounted o = count_of o ≡ u32 (length (out_of o))

emit-Counted : (c : ℕ) (p : Printer) → Counted p → Counted (emit c p)
unfolding emit
emit-Counted c p h = omega (arith, h, length-append p.out (c ∷ []))

pub emit_all-Counted : (cs : List ℕ) (p : Printer) → Counted p → Counted (emit_all cs p)
unfolding emit_all
emit_all-Counted [] p h = h
emit_all-Counted (c ∷ cs) p h = emit_all-Counted cs (emit c p) (emit-Counted c p h)

pad-Counted : (n c : ℕ) (p : Printer) → Counted p → Counted (pad n c p)
unfolding pad
pad-Counted zero c p h = h
pad-Counted (suc n) c p h = pad-Counted n c (emit c p) (emit-Counted c p h)

emit_if-Counted : (b : Bool) (c : ℕ) (p : Printer) → Counted p → Counted (if b then emit c p else p)
emit_if-Counted true c p h = emit-Counted c p h
emit_if-Counted false c p h = h

pad_if-Counted :
    (b : Bool) (n c : ℕ) (p : Printer) → Counted p → Counted (if b then p else pad n c p)
pad_if-Counted true n c p h = h
pad_if-Counted false n c p h = pad-Counted n c p h

emit_field-Counted : (w : List ℕ) (n : ℕ) (p : Printer) → Counted p → Counted (emit_field w n p)
unfolding emit_field
emit_field-Counted w n p h =
    pad-Counted _ 32 _
      (emit_all-Counted w _ (emit_if-Counted _ 45 _ (pad_if-Counted p.flags.lj _ _ p h)))

emit_text-Counted : (w : List ℕ) (p : Printer) → Counted p → Counted (emit_text w p)
unfolding emit_text
emit_text-Counted w p h = emit_field-Counted w _ _ (emit_if-Counted _ 45 p h)

bind-AllCounted :
    {A : Type 0} (o : Option A) (k : A → Option Printer)
    → ((a : A) → AllCounted (k a))
    → AllCounted (o >>= k)
bind-AllCounted none k h = refl
bind-AllCounted (some a) k h = h a

bind-Counted :
    (o : Option Printer) (k : Printer → Option Printer)
    → AllCounted o
    → ((p : Printer) → Counted p → AllCounted (k p))
    → AllCounted (o >>= k)
bind-Counted none k c h = refl
bind-Counted (some p) k c h = h p c

convert_num-AllCounted : (radix : ℕ) (p : Printer) → Counted p → AllCounted (convert_num radix p)
unfolding convert_num do_num
convert_num-AllCounted radix p h =
    bind-AllCounted (word_arg p.args) _ (λ a. emit_text-Counted _ _ h)

convert_char-AllCounted : (p : Printer) → Counted p → AllCounted (convert_char p)
unfolding convert_char
convert_char-AllCounted p h = bind-AllCounted (word_arg p.args) _ (λ a. emit_field-Counted _ 1 _ h)

convert_text-AllCounted : (p : Printer) → Counted p → AllCounted (convert_text p)
unfolding convert_text
convert_text-AllCounted p h = bind-AllCounted (text_arg p.args) _ (λ a. emit_text-Counted _ _ h)

convert-AllCounted : (c : ℕ) (p : Printer) → Counted p → AllCounted (convert c p)
unfolding convert upper_case signed
convert-AllCounted c p h = ground (
  arith,
  convert_num-AllCounted 16 (upper_case p) h,
  convert_num-AllCounted 16 p h,
  convert_num-AllCounted 10 (signed p) h,
  convert_num-AllCounted 10 p h,
  convert_num-AllCounted 8 p h,
  convert_char-AllCounted p h,
  convert_text-AllCounted p h,
)

conversion-AllCounted : (c : ℕ) (p : Printer) → Counted p → AllCounted (conversion c p)
unfolding conversion reset
conversion-AllCounted c p h = bind-Counted (convert c p) _ (convert-AllCounted c p h) (λ q k. k)

modifier-AllCounted : (c : ℕ) (p : Printer) → Counted p → AllCounted (modifier c p)
unfolding modifier
modifier-AllCounted c p h = ground (arith, conversion-AllCounted c (record p { state = 4 }) h)

width-AllCounted : (c : ℕ) (p : Printer) → Counted p → AllCounted (width c p)
unfolding width
width-AllCounted c p h = ground (arith, modifier-AllCounted c (record p { state = 3 }) h)

flag-AllCounted : (c : ℕ) (p : Printer) → Counted p → AllCounted (flag c p)
unfolding flag reset
flag-AllCounted c p h =
    ground (arith, emit-Counted c p h, width-AllCounted c (record p { state = 2 }) h)

step-AllCounted : (c : ℕ) (p : Printer) → Counted p → AllCounted (step c p)
unfolding step reset
step-AllCounted c p h =
    let q : Printer = record p { unchecked = false } in
    ground (
      arith,
      emit-Counted c q h,
      flag-AllCounted c q h,
      width-AllCounted c q h,
      modifier-AllCounted c q h,
      conversion-AllCounted c q h,
    )

run-AllCounted : (fmt : List ℕ) (p : Printer) → Counted p → AllCounted (run fmt p)
unfolding run
run-AllCounted [] p h = ground (arith, h)
run-AllCounted (c ∷ fmt) p h =
    bind-Counted (step c p) _ (step-AllCounted c p h) (λ q k. run-AllCounted fmt q k)

abbrev finished : Printer → Option (List ℕ × ℕ)
finished p = some (p.out, p.count)

result_counts :
    (o : Option Printer)
    → AllCounted o
    → ((o >>= finished) ≡ none)
      ⊎ ((out : List ℕ) × ((o >>= finished) ≡ some (out, u32 (length out))))
result_counts none h = inl refl
result_counts (some p) h = inr (p.out, ap (λ n. some (p.out, n)) h)

-- Where `do_printf` does not read behind the end of its format or of its arguments, it returns
-- the number of bytes that it put out, modulo 2 ^ 32.
pub count-do_printf :
    (fmt : List ℕ) (args : List Arg)
    → (do_printf fmt args ≡ none)
      ⊎ ((out : List ℕ) × (do_printf fmt args ≡ some (out, u32 (length out))))
unfolding do_printf start
count-do_printf fmt args =
    result_counts (run fmt (start args)) (run-AllCounted fmt (start args) refl)
