-- ===== src/Ps2/Setup/Outcome.antt =====
-- How `ps2_init` of src/drv/ps2.c can end, by what the controller answers.
use frod.Base.{
  ℕ, ◌≡◌, ◌≢◌, refl, sym, ◌∙◌, ap, true, false, Bool-cases, inl, inr, ◌⊎◌, ◌==◌, ◌∷◌, bit_or,
  if◌then◌else◌,
}
use frod.Base.Bits.{bit_or-zero}
use frod.Base.Int.{ℤ, pos}
use frod.Ports.{Trace, Device, read, written, is_set}
use frod.Pic.{pic_enable_irq}
use frod.Ps2.{first_off, second_off, ps2_err_self_test_failure}
use frod.Ps2.Devices.{Ps2}
use frod.Ps2.Setup.{
  and_then, clear_devices, disable_both, configure, self_test, find_second, test_channels,
  enable_channels, reset_first, reset_second, install_handlers, ps2_init,
}
use frod.Ps2.Setup.Talk.{talk, pic_enable_irq-talk}
use frod.Ps2.Setup.Steps.{
  and_then-on, and_then-off, quiet, disable_both-said, configure-said, self_test-said,
  find_second-said, test_single-said, test_dual-said, enable_single-said, enable_dual-said,
  reset_first-said, reset_second-said, reset_second-off,
}

-- Up to the self test, the latest first: both channels are disabled, what waits is read, and the
-- configuration byte `c` goes back without interrupts and translation. The test answers `a`.
abbrev pub opened : ℕ → ℕ → ℕ → Trace → Trace
opened d c a old =
    read 0x60 a
    ∷ written 0x64 0xAA
    ∷ written 0x60 (quiet c)
    ∷ written 0x64 0x60
    ∷ read 0x60 c
    ∷ written 0x64 0x20
    ∷ read 0x60 d
    ∷ written 0x64 0xA7
    ∷ written 0x64 0xAD
    ∷ old

-- Behind it, with one channel: `e` and `f` are the configuration bytes, `k` the answer to the test
-- of the channel and `q` that to the reset.
abbrev pub started_one : ℕ → ℕ → ℕ → ℕ → Trace → Trace
started_one e k f q said =
    read 0x60 q
    ∷ written 0x60 0xFF
    ∷ written 0x60 (bit_or f 1)
    ∷ written 0x64 0x60
    ∷ written 0x64 0xAE
    ∷ read 0x60 f
    ∷ written 0x64 0x20
    ∷ read 0x60 k
    ∷ written 0x64 0xAB
    ∷ read 0x60 e
    ∷ written 0x64 0x20
    ∷ written 0x64 0xA8
    ∷ said

-- With two channels.
abbrev pub started_two : ℕ → ℕ → ℕ → ℕ → ℕ → ℕ → Trace → Trace
started_two e k1 k2 f q1 q2 said =
    read 0x60 q2
    ∷ written 0x60 0xFF
    ∷ written 0x64 0xD4
    ∷ read 0x60 q1
    ∷ written 0x60 0xFF
    ∷ written 0x60 (bit_or (bit_or f 1) 2)
    ∷ written 0x64 0x60
    ∷ written 0x64 0xA8
    ∷ written 0x64 0xAE
    ∷ read 0x60 f
    ∷ written 0x64 0x20
    ∷ read 0x60 k2
    ∷ written 0x64 0xA9
    ∷ read 0x60 k1
    ∷ written 0x64 0xAB
    ∷ written 0x64 0xA7
    ∷ read 0x60 e
    ∷ written 0x64 0x20
    ∷ written 0x64 0xA8
    ∷ said

-- The mark of a channel whose device answers its reset with `q`.
abbrev pub marked : ℕ → ℕ → ℕ
marked q mark = if q == 0xFA then 0 else mark

one_mark :
    (q : ℕ) → (if q == 0xFA then 0x0400 else bit_or 0x0400 0x04) ≡ bit_or 0x0400 (marked q 0x04)
one_mark q = elim (Bool-cases (q == 0xFA)) [ inl ok ↦ rw ok refl | inr bad ↦ rw bad refl ]

one_mark-second_off : (q : ℕ) → second_off (bit_or 0x0400 (marked q 0x04)) ≡ true
one_mark-second_off q = elim (Bool-cases (q == 0xFA)) [
  | inl ok ↦ rw ok refl
  | inr bad ↦ rw bad refl
]

first_mark : (q : ℕ) → (if q == 0xFA then 0 else bit_or 0 0x04) ≡ marked q 0x04
first_mark q = elim (Bool-cases (q == 0xFA)) [ inl ok ↦ rw ok refl | inr bad ↦ rw bad refl ]

first_mark-second_off : (q : ℕ) → second_off (marked q 0x04) ≡ false
first_mark-second_off q = elim (Bool-cases (q == 0xFA)) [
  | inl ok ↦ rw ok refl
  | inr bad ↦ rw bad refl
]

second_mark :
    (q1 q2 : ℕ)
    → (if q2 == 0xFA then marked q1 0x04 else bit_or (marked q1 0x04) 0x0400)
      ≡ bit_or (marked q1 0x04) (marked q2 0x0400)
second_mark q1 q2 = elim (Bool-cases (q2 == 0xFA)) [
  | inl ok ↦ rw ok (sym (bit_or-zero (marked q1 0x04)))
  | inr bad ↦ rw bad refl
]

module _ {K H : Type 0} (dev : Device) where
  -- What is left behind a self test that failed.
  abbrev pub HasFailed : Trace → Ps2 K H × ℤ → Type 0
  HasFailed said (t, r) =
      (talk t.trace ≡ said) × (r ≡ ps2_err_self_test_failure) × (t.channel_status ≡ 0x0101)

  -- What is left behind a start of one or of two channels.
  abbrev pub HasStarted : H → H → Trace → Ps2 K H × ℤ → Type 0
  HasStarted h1 h2 said (t, r) =
      (r ≡ pos t.channel_status)
      × (t.handlers 33 ≡ h1)
      × (t.handlers 44 ≡ h2)
      × ((e : ℕ) × (((is_set e 0x20 ≡ true)
              × ((k : ℕ) × (f : ℕ) × (q : ℕ) × (talk t.trace ≡ started_one e k f q said)
                  × (t.channel_status ≡ bit_or 0x0400 (marked q 0x04))))
            ⊎ ((is_set e 0x20 ≡ false)
                × ((k1 : ℕ) × (k2 : ℕ) × (f : ℕ) × (q1 : ℕ) × (q2 : ℕ) × (talk t.trace
                      ≡ started_two e k1 k2 f q1 q2 said)
                    × (t.channel_status ≡ bit_or (marked q1 0x04) (marked q2 0x0400))))))

  installed-talk :
      (h1 h2 : H) (s : Ps2 K H) → talk (install_handlers dev h1 h2 s).0.trace ≡ talk s.trace
  unfolding install_handlers
  installed-talk h1 h2 s =
      pic_enable_irq-talk dev 12 (pic_enable_irq dev 1 s.trace) ∙ pic_enable_irq-talk dev 1 s.trace

  -- Steps 6 to 8.
  rest : H → H → Ps2 K H → Ps2 K H × ℤ
  rest h1 h2 s =
      and_then (and_then (test_channels dev s) (enable_channels dev))
        (λ t. install_handlers dev h1 h2 (reset_second dev (reset_first dev t)))

  rest-steps :
      (h1 h2 : H) (s : Ps2 K H)
      → (test_channels dev s).1 ≡ pos 0
      → (enable_channels dev (test_channels dev s).0).1 ≡ pos 0
      → rest h1 h2 s
        ≡ install_handlers dev h1 h2
            (reset_second dev (reset_first dev (enable_channels dev (test_channels dev s).0).0))
  unfolding rest
  rest-steps h1 h2 s e6 e7 =
      rw
        (
          and_then-on (test_channels dev s) (enable_channels dev) 0 e6,
          and_then-on (enable_channels dev (test_channels dev s).0)
              (λ t. install_handlers dev h1 h2 (reset_second dev (reset_first dev t))) 0 e7,
        )
        refl

  rest_one :
      (h1 h2 : H) (s : Ps2 K H) (e : ℕ) (said : Trace)
      → s.channel_status ≡ 0x0400
      → is_set e 0x20 ≡ true
      → talk s.trace ≡ read 0x60 e ∷ written 0x64 0x20 ∷ written 0x64 0xA8 ∷ said
      → HasStarted h1 h2 said (rest h1 h2 s)
  unfolding install_handlers
  rest_one h1 h2 s e said st single before =
      let (e6, c6, (k, a6)) = test_single-said dev s st in
      let t : Ps2 K H = (test_channels dev s).0 in
      let (e7, c7, (f, a7)) = enable_single-said dev t c6 in
      let u : Ps2 K H = (enable_channels dev t).0 in
      let (q, c8, a8) = reset_first-said dev u (ap first_off c7) in
      let v : Ps2 K H = reset_first dev u in
      let cv : v.channel_status ≡ bit_or 0x0400 (marked q 0x04) =
        c8 ∙ ap (λ n. if q == 0xFA then n else bit_or n 0x04) c7 ∙ one_mark q in
      let off : second_off v.channel_status ≡ true = ap second_off cv ∙ one_mark-second_off q in
      let heard =
        a8
        ∙ ap (λ l. read 0x60 q ∷ written 0x60 0xFF ∷ l)
            (a7
              ∙ ap
                  (λ l.
                    written 0x60 (bit_or f 1)
                    ∷ written 0x64 0x60
                    ∷ written 0x64 0xAE
                    ∷ read 0x60 f
                    ∷ written 0x64 0x20
                    ∷ l)
                  (a6 ∙ ap (λ l. read 0x60 k ∷ written 0x64 0xAB ∷ l) before)) in
      rw (rest-steps h1 h2 s e6 e7) (
        rw (reset_second-off dev v off)
          (refl, refl, refl, (e, inl (single, (k, f, q, installed-talk h1 h2 v ∙ heard, cv)))))

  rest_two :
      (h1 h2 : H) (s : Ps2 K H) (e : ℕ) (said : Trace)
      → s.channel_status ≡ 0
      → is_set e 0x20 ≡ false
      → talk s.trace
        ≡ written 0x64 0xA7 ∷ read 0x60 e ∷ written 0x64 0x20 ∷ written 0x64 0xA8 ∷ said
      → HasStarted h1 h2 said (rest h1 h2 s)
  unfolding install_handlers
  rest_two h1 h2 s e said st dual before =
      let (e6, c6, (k1, k2, a6)) = test_dual-said dev s st in
      let t : Ps2 K H = (test_channels dev s).0 in
      let (e7, c7, (f, a7)) = enable_dual-said dev t c6 in
      let u : Ps2 K H = (enable_channels dev t).0 in
      let (q1, c8, a8) = reset_first-said dev u (ap first_off c7) in
      let v : Ps2 K H = reset_first dev u in
      let cv : v.channel_status ≡ marked q1 0x04 =
        c8 ∙ ap (λ n. if q1 == 0xFA then n else bit_or n 0x04) c7 ∙ first_mark q1 in
      let on : second_off v.channel_status ≡ false = ap second_off cv ∙ first_mark-second_off q1 in
      let (q2, c9, a9) = reset_second-said dev v on in
      let w : Ps2 K H = reset_second dev v in
      let cw : w.channel_status ≡ bit_or (marked q1 0x04) (marked q2 0x0400) =
        c9 ∙ ap (λ n. if q2 == 0xFA then n else bit_or n 0x0400) cv ∙ second_mark q1 q2 in
      let heard =
        a9
        ∙ ap (λ l. read 0x60 q2 ∷ written 0x60 0xFF ∷ written 0x64 0xD4 ∷ l)
            (a8
              ∙ ap (λ l. read 0x60 q1 ∷ written 0x60 0xFF ∷ l)
                  (a7
                    ∙ ap
                        (λ l.
                          written 0x60 (bit_or (bit_or f 1) 2)
                          ∷ written 0x64 0x60
                          ∷ written 0x64 0xA8
                          ∷ written 0x64 0xAE
                          ∷ read 0x60 f
                          ∷ written 0x64 0x20
                          ∷ l)
                        (a6
                          ∙ ap
                              (λ l.
                                read 0x60 k2
                                ∷ written 0x64 0xA9
                                ∷ read 0x60 k1
                                ∷ written 0x64 0xAB
                                ∷ l)
                              before))) in
      rw (rest-steps h1 h2 s e6 e7)
        (refl, refl, refl, (e, inr (dual, (k1, k2, f, q1, q2, installed-talk h1 h2 w ∙ heard, cw))))

  passed_on :
      (h1 h2 : H) (s : Ps2 K H) (said : Trace)
      → s.channel_status ≡ 0
      → talk s.trace ≡ said
      → HasStarted h1 h2 said (rest h1 h2 (find_second dev s).0)
  passed_on h1 h2 s said st before =
      let (e5, (e, found)) = find_second-said dev s st in
      let t : Ps2 K H = (find_second dev s).0 in
      elim found [
        | inl (single, c, a) ↦
            rest_one h1 h2 t e said c single
              (a ∙ ap (λ l. read 0x60 e ∷ written 0x64 0x20 ∷ written 0x64 0xA8 ∷ l) before)
        | inr (dual, c, a) ↦ rest_two h1 h2 t e said c dual (
            a
            ∙ ap (λ l. written 0x64 0xA7 ∷ read 0x60 e ∷ written 0x64 0x20 ∷ written 0x64 0xA8 ∷ l)
                before)
      ]

  steps :
      (registered : ℕ) (h1 h2 : H) (s : Ps2 K H)
      → let s2 = disable_both dev (clear_devices registered s) in
        let s3 = (configure dev s2).0 in
        (configure dev s2).1 ≡ pos 0
        → (self_test dev s3).1 ≡ pos 0
        → (find_second dev (self_test dev s3).0).1 ≡ pos 0
        → ps2_init dev registered h1 h2 s ≡ rest h1 h2 (find_second dev (self_test dev s3).0).0
  unfolding ps2_init rest
  steps registered h1 h2 s e3 e4 e5 =
      let s2 : Ps2 K H = disable_both dev (clear_devices registered s) in
      let s3 : Ps2 K H = (configure dev s2).0 in
      let s4 : Ps2 K H = (self_test dev s3).0 in
      rw
        (
          and_then-on (configure dev s2) (self_test dev) 0 e3,
          and_then-on (self_test dev s3) (find_second dev) 0 e4,
          and_then-on (find_second dev s4) (test_channels dev) 0 e5,
        )
        refl

  stopped :
      (registered : ℕ) (h1 h2 : H) (s : Ps2 K H)
      → let s2 = disable_both dev (clear_devices registered s) in
        let s3 = (configure dev s2).0 in
        (configure dev s2).1 ≡ pos 0
        → (self_test dev s3).1 ≡ ps2_err_self_test_failure
        → ps2_init dev registered h1 h2 s ≡ self_test dev s3
  unfolding ps2_init
  stopped registered h1 h2 s e3 e4 =
      let s2 : Ps2 K H = disable_both dev (clear_devices registered s) in
      let s3 : Ps2 K H = (configure dev s2).0 in
      let p : Ps2 K H × ℤ = self_test dev s3 in
      rw
        (
          and_then-on (configure dev s2) (self_test dev) 0 e3,
          and_then-off p (find_second dev) 2 e4,
          and_then-off p (test_channels dev) 2 e4,
          and_then-off p (enable_channels dev) 2 e4,
          and_then-off p (λ t. install_handlers dev h1 h2 (reset_second dev (reset_first dev t))) 2
              e4,
        )
        refl

  -- From the status 0 of the boot, what `ps2_init` writes to the ports of the controller and reads
  -- from its data port is exactly what `opened`, `started_one` and `started_two` list, for some
  -- bytes that the controller answers. It disables the channels, writes the configuration byte back
  -- without interrupts and translation, and tests the controller. If the answer is not 0x55, that
  -- is all, both channels are marked, and it returns the error of the self test. If it is, the
  -- second channel is left out and marked where bit 5 of the configuration byte is set; each
  -- channel in use is tested, whatever the test answers, and is enabled with its interrupt; its
  -- device is reset, and the channel is marked, in its half of the status, unless the device answers
  -- 0xFA. Both interrupts have their handlers, and it returns the channel status, also where no
  -- channel works.
  pub ps2_init-HasStarted :
      (registered : ℕ) (h1 h2 : H) (s : Ps2 K H)
      → s.channel_status ≡ 0
      → let out = ps2_init dev registered h1 h2 s in
        (d : ℕ) × (c : ℕ) × (a : ℕ) × (((a ≢ 0x55) × HasFailed (opened d c a (talk s.trace)) out)
          ⊎ ((a ≡ 0x55) × HasStarted h1 h2 (opened d c a (talk s.trace)) out))
  ps2_init-HasStarted registered h1 h2 s st =
      let (c2, (d, a2)) = disable_both-said dev registered s st in
      let s2 : Ps2 K H = disable_both dev (clear_devices registered s) in
      let (e3, c3, (c, a3)) = configure-said dev s2 c2 in
      let s3 : Ps2 K H = (configure dev s2).0 in
      let (a, a4, tested) = self_test-said dev s3 c3 in
      let s4 : Ps2 K H = (self_test dev s3).0 in
      let heard =
        a4
        ∙ ap (λ l. read 0x60 a ∷ written 0x64 0xAA ∷ l)
            (a3
              ∙ ap
                  (λ l.
                    written 0x60 (quiet c)
                    ∷ written 0x64 0x60
                    ∷ read 0x60 c
                    ∷ written 0x64 0x20
                    ∷ l)
                  a2) in
      elim tested [
        | inl (passed, e4, c4) ↦
            let e5 = (find_second-said dev s4 c4).0 in
            (
              d,
              c,
              a,
              inr (passed, rw (steps registered h1 h2 s e3 e4 e5) (passed_on h1 h2 s4 _ c4 heard)),
            )
        | inr (failed, e4, c4) ↦
            (d, c, a, inl (failed, rw (stopped registered h1 h2 s e3 e4) (heard, e4, c4)))
      ]
