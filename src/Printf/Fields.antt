-- ===== src/Printf/Fields.antt =====
-- The fields that `do_printf`, lib/stdio.c, puts out for its conversions.
use frod.Base.{
  ℕ, zero, suc, ◌+◌, ◌-◌, ◌^◌, ◌<◌, max, ◌≡◌, refl, arith, Bool, true, false, Bool-cases, inl, inr,
}
use frod.Base.{
  ltb, leb, ◌&&◌, not, if◌then◌else◌, List, [], ◌∷◌, ◌++◌, length, length-append, u32, sym, ap, ◌∙◌,
}
use mathlib.Core.List.{append_assoc, append-nil}
use frod.Printf.{
  Printer, Flags, emit, emit_all, pad, emit_field, emit_text, do_num, take_sign, digits,
}
use frod.Printf.Digits.{number_from, digits-number_from, IsRadix}

-- `n` bytes `c`.
abbrev pub copies : ℕ → ℕ → List ℕ
copies zero c = []
copies (suc n) c = c ∷ copies n c

pub out-emit_all : (cs : List ℕ) (p : Printer) → (emit_all cs p).out ≡ p.out ++ cs
unfolding emit_all emit
out-emit_all [] p = sym (append-nil p.out)
out-emit_all (c ∷ cs) p = out-emit_all cs (emit c p) ∙ append_assoc p.out (c ∷ []) cs

out-pad : (n c : ℕ) (p : Printer) → (pad n c p).out ≡ p.out ++ copies n c
unfolding pad emit
out-pad zero c p = sym (append-nil p.out)
out-pad (suc n) c p = out-pad n c (emit c p) ∙ append_assoc p.out (c ∷ []) (copies n c)

length-copies : (n c : ℕ) → length (copies n c) ≡ n
length-copies zero c = refl
length-copies (suc n) c = ap suc (length-copies n c)

-- The text of a field for the bytes `w`, with its sign and filled up to the width.
abbrev pub sign : Flags → List ℕ
sign f = if f.ws then 45 ∷ [] else []

abbrev pub field : Flags → ℕ → List ℕ → List ℕ
field f wd w =
    let fill = wd - length (sign f ++ w) in
    if f.lj
    then sign f ++ (w ++ copies fill 32)
    else if f.lz
    then sign f ++ (copies fill 48 ++ w)
    else copies fill 32 ++ (sign f ++ w)

-- A field is as long as its width, or as its text and sign where these are longer.
pub length-field :
    (f : Flags) (wd : ℕ) (w : List ℕ) → length (field f wd w) ≡ max wd (length (sign f ++ w))
length-field f wd w =
    let n : ℕ = wd - length (sign f ++ w) in
    ground (
      arith,
      length-append (sign f) w,
      length-append w (copies n 32),
      length-append (sign f) (w ++ copies n 32),
      length-append (copies n 48) w,
      length-append (sign f) (copies n 48 ++ w),
      length-append (copies n 32) (sign f ++ w),
      length-copies n 32,
      length-copies n 48,
    )

out-emit_if :
    (b : Bool) (c : ℕ) (p : Printer)
    → (if b then emit c p else p).out ≡ p.out ++ (if b then c ∷ [] else [])
unfolding emit
out-emit_if true c p = refl
out-emit_if false c p = sym (append-nil p.out)

flags-emit_if : (b : Bool) (c : ℕ) (p : Printer) → (if b then emit c p else p).flags ≡ p.flags
unfolding emit
flags-emit_if true c p = refl
flags-emit_if false c p = refl

given_wd-emit_if :
    (b : Bool) (c : ℕ) (p : Printer) → (if b then emit c p else p).given_wd ≡ p.given_wd
unfolding emit
given_wd-emit_if true c p = refl
given_wd-emit_if false c p = refl

-- The parts of a field from `EMIT2` on.
out-emit_field :
    (w : List ℕ) (a : ℕ) (p : Printer)
    → let fill = p.given_wd - a in
      (emit_field w a p).out ≡ (
        if p.flags.lj
        then ((p.out ++ (if p.flags.ws && not p.flags.lz then 45 ∷ [] else [])) ++ w)
          ++ copies fill 32
        else ((p.out ++ copies fill (if p.flags.lz then 48 else 32))
            ++ (if p.flags.ws && not p.flags.lz then 45 ∷ [] else []))
          ++ w)
unfolding emit_field
out-emit_field w a p = elim (Bool-cases p.flags.lj) [
  | inl left ↦
      let n : (if ltb p.given_wd a then 0 else p.given_wd - a) ≡ p.given_wd - a = ground arith in
      rw (left, n, out-pad, out-emit_all, out-emit_if) refl
  | inr right ↦
      let wd : ℕ = if ltb a p.given_wd then a else p.given_wd in
      let n : (if ltb wd a then 0 else wd - a) ≡ 0 = ground arith in
      rw (right, n, out-pad, out-emit_all, out-emit_if, out-pad) (append-nil _)
]

-- The parts as they are put out, and the field that they make.
parts-field :
    (lj lz ws : Bool) (o w : List ℕ) (n : ℕ)
    → let minus : List ℕ = if ws then 45 ∷ [] else [] in
      (if lj
        then (((o ++ (if ws && lz then 45 ∷ [] else [])) ++ (if ws && not lz then 45 ∷ [] else []))
            ++ w)
          ++ copies n 32
        else (((o ++ (if ws && lz then 45 ∷ [] else [])) ++ copies n (if lz then 48 else 32))
            ++ (if ws && not lz then 45 ∷ [] else []))
          ++ w)
      ≡ o
        ++ (if lj
            then minus ++ (w ++ copies n 32)
            else (if lz then minus ++ (copies n 48 ++ w) else copies n 32 ++ (minus ++ w)))
parts-field true true true o w n = simp (append_assoc, append-nil)
parts-field true true false o w n = simp (append_assoc, append-nil)
parts-field true false true o w n = simp (append_assoc, append-nil)
parts-field true false false o w n = simp (append_assoc, append-nil)
parts-field false true true o w n = simp (append_assoc, append-nil)
parts-field false true false o w n = simp (append_assoc, append-nil)
parts-field false false true o w n = simp (append_assoc, append-nil)
parts-field false false false o w n = simp (append_assoc, append-nil)

-- Where the bytes are fewer than 2 ^ 32 - 1, a conversion puts out its field: the sign and the
-- bytes, filled up to the width on the right, with zeroes behind the sign, or on the left.
pub out-emit_text :
    (w : List ℕ) (p : Printer)
    → length w + 1 < 2 ^ 32
    → (emit_text w p).out ≡ p.out ++ field p.flags p.given_wd w
unfolding emit_text
out-emit_text w p short =
    let a : ℕ = if p.flags.ws then u32 (length w + 1) else u32 (length w) in
    let e : a ≡ length (sign p.flags ++ w) = ground arith in
    let q : Printer = if p.flags.ws && p.flags.lz then emit 45 p else p in
    let fs : q.flags ≡ p.flags = flags-emit_if (p.flags.ws && p.flags.lz) 45 p in
    let ws : q.given_wd ≡ p.given_wd = given_wd-emit_if (p.flags.ws && p.flags.lz) 45 p in
    rw (out-emit_field w a q) (
      rw (fs, ws, e, out-emit_if)
        (parts-field p.flags.lj p.flags.lz p.flags.ws p.out w
          (p.given_wd - length (sign p.flags ++ w))))

-- The absolute value of the 32-bit word `n`, which is signed if the conversion is.
abbrev pub magnitude : Bool → ℕ → ℕ
magnitude sg n = if sg && leb (2 ^ 31) n then 2 ^ 32 - n else n

-- Under a flag `ws` that is still clear, a conversion of the 32-bit word `n` in base 8, 10 or 16
-- puts out one field: digits that read back as the absolute value of `n`, with a minus sign
-- exactly if the conversion is signed and `n` stands for a negative number.
pub out-do_num :
    (radix n : ℕ) (p : Printer)
    → IsRadix radix
    → n < 2 ^ 32
    → p.flags.ws ≡ false
    → (f : Flags) × (digs : List ℕ) × ((do_num radix n p).out ≡ p.out ++ field f p.given_wd digs)
      × (number_from radix 0 digs ≡ magnitude p.flags.sg n)
      × (f.ws ≡ (p.flags.sg && leb (2 ^ 31) n))
      × ((f.lj ≡ p.flags.lj) × (f.lz ≡ p.flags.lz))
unfolding do_num take_sign
out-do_num radix n p ok lt clear = elim (Bool-cases (p.flags.sg && leb (2 ^ 31) n)) [
  | inl neg ↦
      let m : u32 (2 ^ 32 - n) ≡ 2 ^ 32 - n = ground arith in
      let f : Flags = record p.flags { ws = true } in
      let (value, short) = digits-number_from radix (2 ^ 32 - n) f.ca ok (ground arith) in
      rw (neg, m)
        (
          f,
          digits 15 radix f.ca (2 ^ 32 - n) [],
          out-emit_text _ (record p { flags = f }) (omega (arith, short)),
          value,
          refl,
          (refl, refl),
        )
  | inr not_neg ↦
      let (value, short) = digits-number_from radix n p.flags.ca ok lt in
      rw not_neg (
        p.flags,
        digits 15 radix p.flags.ca n [],
        out-emit_text _ p (omega (arith, short)),
        value,
        clear,
        (refl, refl),
      )
]
