-- ===== src/Ps2/Register.antt =====
-- The contract of `ps2_register`, src/drv/ps2.c.
use frod.Base.{
  ℕ, ◌-◌, ◌==◌, ltb, ◌||◌, if◌then◌else◌, ◌≡◌, ◌≢◌, refl, arith, Bool, true, false, Bool-cases, inl,
  inr, ◌⊎◌, some,
}
use frod.Base.Int.{pos}
use frod.Ps2.{
  first_off, second_off, ps2_err_channel_broken, ps2_err_channel_active, ps2_err_invalid_param,
  ps2_success,
}
use frod.Strings.{strncpy}
use frod.Ps2.Devices.{Ps2, ps2_register, register_at, set_at, name_of, ps2_max_name_sz}

-- The channel with the number `n`, 1 or 2, is out of use.
abbrev pub off : ℕ → ℕ → Bool
off n status = if n == 1 then first_off status else second_off status

one_or_two : (n : ℕ) → (ltb n 1 || ltb 2 n) ≡ false → (n ≡ 1) ⊎ (n ≡ 2)
one_or_two n e = ground arith

module _ {K H : Type 0} (registered : ℕ) (handler : ℕ → K → K) (name n : ℕ) (s : Ps2 K H) where
  -- The channel belongs to the handler now, and the other one is as before.
  pub record IsRegistered (t : Ps2 K H) : Type 0 where
    pub active : t.active (n - 1) ≡ true
    pub callback : t.callback (n - 1) ≡ some handler
    pub others_active : (i : ℕ) → i ≢ n - 1 → t.active i ≡ s.active i
    pub others_callback : (i : ℕ) → i ≢ n - 1 → t.callback i ≡ s.callback i
    pub status : t.channel_status ≡ s.channel_status
    pub second :
        (h : ℕ → K → K) (other_name : ℕ)
        → ps2_register registered h other_name (pos n) t ≡ (t, ps2_err_channel_active)

module _ {K H : Type 0} (registered : ℕ) (handler : ℕ → K → K) (name : ℕ) (s : Ps2 K H) where
  -- The branches for a number that stands for a channel.
  Answer : ℕ → Type 0
  Answer n =
      let (t, r) = ps2_register registered handler name (pos n) s in
      if off n s.channel_status
      then (r ≡ ps2_err_channel_broken) × (t ≡ s)
      else if s.active (n - 1)
      then (r ≡ ps2_err_channel_active) × (t ≡ s)
      else (r ≡ ps2_success) × IsRegistered registered handler name n s t

  -- `ps2_register` behind its first test.
  Reaches : ℕ → Type 0
  Reaches n =
      (h : ℕ → K → K) (p : ℕ) (t : Ps2 K H)
      → ps2_register registered h p (pos n) t ≡ (
          if off n t.channel_status
          then (t, ps2_err_channel_broken)
          else register_at registered h p (n - 1) t)

  Reaches-Answer : (n : ℕ) → Reaches n → Answer n
  unfolding Answer register_at Reaches
  Reaches-Answer n reach = elim (Bool-cases (off n s.channel_status)) [
    | inl broken ↦ rw (reach handler name s, broken) (refl, refl)
    | inr works ↦ elim (Bool-cases (s.active (n - 1))) [
      | inl active ↦ rw (reach handler name s, works, active) (refl, refl)
      | inr idle ↦
          let me : (n - 1 == n - 1) ≡ true = ground arith in
          let t : Ps2 K H = record s {
            active = set_at (n - 1) true s.active;
            callback = set_at (n - 1) (some handler) s.callback;
            mem = (strncpy (name_of registered (n - 1)) name ps2_max_name_sz s.mem).0;
          } in
          rw (reach handler name s, works, idle)
            (
              refl,
              record {
                active = ground arith;
                callback = ground arith;
                others_active = λ i ne. ground arith;
                others_callback = λ i ne. ground arith;
                status = refl;
                second = λ h p. rw (reach h p t, works, me) refl;
              },
            )
    ]
  ]

  Reaches-at_1 : Reaches 1
  unfolding Reaches ps2_register
  Reaches-at_1 h p t = refl

  Reaches-at_2 : Reaches 2
  unfolding Reaches ps2_register
  Reaches-at_2 h p t = refl

  -- `ps2_register` refuses a number other than 1 and 2, a channel that is marked as broken, and one
  -- that has its device, each with its own error and without any change; else the channel belongs
  -- to the handler, the other channel is untouched, and a further registration is refused.
  pub ps2_register-IsRegistered :
      (n : ℕ)
      → let (t, r) = ps2_register registered handler name (pos n) s in
        if ltb n 1 || ltb 2 n
        then (r ≡ ps2_err_invalid_param) × (t ≡ s)
        else if off n s.channel_status
        then (r ≡ ps2_err_channel_broken) × (t ≡ s)
        else if s.active (n - 1)
        then (r ≡ ps2_err_channel_active) × (t ≡ s)
        else (r ≡ ps2_success) × IsRegistered registered handler name n s t
  unfolding Answer
  ps2_register-IsRegistered n = elim (Bool-cases (ltb n 1 || ltb 2 n)) [
    | inl bad ↦ rw bad (unfold ps2_register in (rw bad (refl, refl)))
    | inr good ↦ rw good (elim (one_or_two n good) [
      | inl e ↦ rw e (Reaches-Answer 1 Reaches-at_1)
      | inr e ↦ rw e (Reaches-Answer 2 Reaches-at_2)
    ])
  ]
