-- ===== src/Printf.antt =====
-- `do_printf`, lib/stdio.c. A format is the list of its bytes before the null byte, the arguments
-- are a list of words and texts, and the calls of `fn` are the list of the bytes it was given.
pub mod Digits
pub mod Count
pub mod Fields
pub mod Plain
pub mod Output
mod Tests
use frod.Base.{
  ℕ, zero, suc, ◌+◌, ◌-◌, ◌*◌, ◌/◌, ◌%◌, ◌^◌, Option, none, some, Bool, true, false, ◌==◌, ◌&&◌,
  ◌||◌, not,
}
use frod.Base.{ltb, leb, if◌then◌else◌, u32, List, [], ◌∷◌, ◌++◌, length}

-- The `PR_` flags, one field for each bit that is in use.
pub record Flags : Type 0 where
  pub lj : Bool
  pub ca : Bool
  pub sg : Bool
  pub l32 : Bool
  pub l16 : Bool
  pub ws : Bool
  pub lz : Bool
  pub fp : Bool

abbrev pub no_flags : Flags
no_flags = record {
  lj = false;
  ca = false;
  sg = false;
  l32 = false;
  l16 = false;
  ws = false;
  lz = false;
  fp = false;
}

pub data Arg : Type 0 where
  word : ℕ → Arg
  text : List ℕ → Arg

-- The local variables of `do_printf`, and the output. `unchecked` marks that `fmt` was advanced
-- within the loop's body, so that the byte it points to has not been tested for the null byte.
pub record Printer : Type 0 where
  pub state : ℕ
  pub flags : Flags
  pub given_wd : ℕ
  pub count : ℕ
  pub args : List Arg
  pub out : List ℕ
  pub unchecked : Bool

unfoldable pub start : List Arg → Printer
start args = record {
  state = 0;
  flags = no_flags;
  given_wd = 0;
  count = 0;
  args = args;
  out = [];
  unchecked = false;
}

unfoldable pub reset : Printer → Printer
reset p = record p { state = 0; flags = no_flags; given_wd = 0; unchecked = false }

unfoldable pub emit : ℕ → Printer → Printer
emit c p = record p { out = p.out ++ (c ∷ []); count = u32 (p.count + 1) }

unfoldable pub emit_all : List ℕ → Printer → Printer
emit_all [] p = p
emit_all (c ∷ cs) p = emit_all cs (emit c p)

unfoldable pub pad : ℕ → ℕ → Printer → Printer
pad zero c p = p
pad (suc n) c p = pad n c (emit c p)

-- The byte of a digit.
unfoldable pub digit : Bool → ℕ → ℕ
digit ca temp = if ltb temp 10 then temp + 48 else (if ca then temp - 10 + 65 else temp - 10 + 97)

-- The loop that writes the digits from the end of the buffer, with `left` bytes of it to go.
unfoldable pub digits : ℕ → ℕ → Bool → ℕ → List ℕ → List ℕ
digits zero radix ca num where' = where'
digits (suc left) radix ca num where' =
    let here = digit ca (num % radix) ∷ where' in
    let rest = digits left radix ca (num / radix) here in if num / radix == 0 then here else rest

-- From `EMIT2` on.
unfoldable pub emit_field : List ℕ → ℕ → Printer → Printer
emit_field where' actual_wd p =
    let f = p.flags in
    let p1 = if f.lj then p else pad (p.given_wd - actual_wd) (if f.lz then 48 else 32) p in
    let wd =
      if f.lj then p.given_wd else (if ltb actual_wd p.given_wd then actual_wd else p.given_wd) in
    let p2 = if f.ws && not f.lz then emit 45 p1 else p1 in
    let p3 = emit_all where' p2 in pad (if ltb wd actual_wd then 0 else wd - actual_wd) 32 p3

-- From `EMIT` on.
unfoldable pub emit_text : List ℕ → Printer → Printer
emit_text where' p =
    let f = p.flags in
    let actual_wd = if f.ws then u32 (length where' + 1) else u32 (length where') in
    emit_field where' actual_wd (if f.ws && f.lz then emit 45 p else p)

-- The flags and the number after the sign was taken care of.
unfoldable pub take_sign : Flags → ℕ → Flags × ℕ
take_sign f num =
    if f.sg && leb (2 ^ 31) num then (record f { ws = true }, u32 (2 ^ 32 - num)) else (f, num)

-- From `DO_NUM` on, for the word `num`; `PR_BUFLEN` leaves 15 bytes for digits.
unfoldable pub do_num : ℕ → ℕ → Printer → Printer
do_num radix num p =
    let (f, n) = take_sign p.flags num in
    emit_text (digits 15 radix f.ca n []) (record p { flags = f })

-- `va_arg`: the next argument as a word, and as a text.
unfoldable pub word_arg : List Arg → Option (ℕ × List Arg)
word_arg [] = none
word_arg (word w ∷ args) = some (u32 w, args)
word_arg (text t ∷ args) = none

unfoldable pub text_arg : List Arg → Option (List ℕ × List Arg)
text_arg [] = none
text_arg (word w ∷ args) = none
text_arg (text t ∷ args) = some (t, args)

infixl 5 ◌>>=◌
abbrev pub ◌>>=◌ : {A B : Type 0} → Option A → (A → Option B) → Option B
none >>= f = none
some a >>= f = f a

unfoldable pub convert_num : ℕ → Printer → Option Printer
convert_num radix p = do
  (num, args) ← word_arg p.args
  some (do_num radix num (record p { args = args }))

unfoldable pub convert_char : Printer → Option Printer
convert_char p = do
  (c, args) ← word_arg p.args
  let p' = record p { args = args; flags = record p.flags { lz = false } }
  some (emit_field (if c % 256 == 0 then [] else (c % 256) ∷ []) 1 p')

unfoldable pub convert_text : Printer → Option Printer
convert_text p = do
  (t, args) ← text_arg p.args
  some (emit_text t (record p { args = args; flags = record p.flags { lz = false } }))

unfoldable pub upper_case : Printer → Printer
upper_case p = record p { flags = record p.flags { ca = true } }

unfoldable pub signed : Printer → Printer
signed p = record p { flags = record p.flags { sg = true } }

-- State 4: the characters are X, x, p, n, d, i, u, o, c and s.
unfoldable pub convert : ℕ → Printer → Option Printer
convert c p =
    if c == 88
    then convert_num 16 (upper_case p)
    else if (c == 120) || (c == 112) || (c == 110)
    then convert_num 16 p
    else if (c == 100) || (c == 105)
    then convert_num 10 (signed p)
    else if c == 117
    then convert_num 10 p
    else if c == 111
    then convert_num 8 p
    else if c == 99
    then convert_char p
    else if c == 115
    then convert_text p
    else some p

unfoldable pub conversion : ℕ → Printer → Option Printer
conversion c p = do p' ← convert c p; some (reset p')

-- State 3: the characters are F, N, l and h.
unfoldable pub modifier : ℕ → Printer → Option Printer
modifier c p =
    if c == 70
    then some (record p { state = 3; flags = record p.flags { fp = true } })
    else if c == 78
    then some (record p { state = 3 })
    else if c == 108
    then some (record p { state = 3; flags = record p.flags { l32 = true } })
    else if c == 104
    then some (record p { state = 3; flags = record p.flags { l16 = true } })
    else conversion c (record p { state = 4 })

-- State 2.
unfoldable pub width : ℕ → Printer → Option Printer
width c p =
    if leb 48 c && leb c 57
    then some (record p { state = 2; given_wd = u32 (10 * p.given_wd + (c - 48)) })
    else modifier c (record p { state = 3 })

-- State 1: the characters are `%`, `-` and `0`.
unfoldable pub flag : ℕ → Printer → Option Printer
flag c p =
    if c == 37
    then some (reset (emit c p))
    else if c == 45
    then (if p.flags.lj
        then some (reset p)
        else some (record p { state = 1; flags = record p.flags { lj = true } }))
    else if c == 48
    then some (record p { state = 2; flags = record p.flags { lz = true }; unchecked = true })
    else width c (record p { state = 2 })

-- One byte of the format. Behind `%` and `0` the source goes on with the next byte at once, as the
-- next step does.
unfoldable pub step : ℕ → Printer → Option Printer
step c q =
    let p = record q { unchecked = false } in
    if q.state == 0
    then (if c == 37 then some (record p { state = 1; unchecked = true }) else some (emit c p))
    else if q.state == 1
    then flag c p
    else if q.state == 2
    then width c p
    else if q.state == 3
    then modifier c p
    else if q.state == 4
    then conversion c p
    else some (reset p)

-- The loop over the format. Where the format ends behind a byte that was not tested, the source
-- reads on behind its end, which is `none`, as is an argument that is missing or of the wrong kind.
unfoldable pub run : List ℕ → Printer → Option Printer
run [] p = if p.unchecked then none else some p
run (c ∷ fmt) p = do p' ← step c p; run fmt p'

-- The output and the result.
unfoldable pub do_printf : List ℕ → List Arg → Option (List ℕ × ℕ)
do_printf fmt args = do p ← run fmt (start args); some (p.out, p.count)

-- `vsprintf` puts a null byte behind the output.
unfoldable pub vsprintf : List ℕ → List Arg → Option (List ℕ × ℕ)
vsprintf fmt args = do (out, rv) ← do_printf fmt args; some (out ++ (0 ∷ []), rv)
