-- ===== src/Ps2/Send.antt =====
-- What `ps2_send_internal` of src/drv/ps2.c returns, and how long it takes.
use frod.Base.{
  ℕ, zero, suc, ◌+◌, ◌*◌, ◌/◌, ◌^◌, ◌≤◌, ◌<◌, ◌≡◌, refl, arith, Bool, true, false, Bool-cases, inl,
  inr, ◌⊎◌, ◌∷◌, length, u8, ◌&&◌, if◌then◌else◌, bit_and,
}
use frod.Base.Int.{ℤ, pos, is_neg}
use frod.Ports.{Trace, Device, read, written, inb, outb, is_set}
use frod.Ps2.{
  poll_output, poll_input, wait_data_ready, wait_buffer_ready, time_out, write_data, read_data,
  send_data, send_cmd, ps2_send_internal, first_off, second_off, ps2_err_no_usable_channel,
}

-- The reads of a waiting loop.
abbrev pub reads : ℕ → ℕ
reads zero = 10000
reads (suc ms) = suc ms

-- `t` comes after at most `n` accesses to a port, with the result `c` of a byte.
pub record IsDone (n : ℕ) (tr : Trace) (t : Trace) (r : ℤ) : Type 0 where
  pub byte : ℕ
  pub result : r ≡ pos byte
  pub is_byte : byte < 256
  pub few : length t ≤ n + length tr

pub time_out-reads : (ms : ℕ) → time_out (pos ms) ≡ pos (reads ms)
unfolding time_out
time_out-reads zero = refl
time_out-reads (suc ms) = refl

module _ (dev : Device) where
  pub length-poll_output :
      (ms : ℕ) (tr : Trace) → let (t, left) = poll_output dev ms tr in length t ≤ ms + length tr
  unfolding poll_output inb
  length-poll_output zero tr = omega arith
  length-poll_output (suc ms) tr =
      let v : ℕ = u8 (dev tr 0x64) in
      elim (Bool-cases (is_set v 0x01)) [
        | inl ready ↦ rw ready (omega arith)
        | inr empty ↦ rw empty (omega (arith, length-poll_output ms (read 0x64 v ∷ tr)))
      ]

  pub length-poll_input :
      (ms : ℕ) (tr : Trace) → let (t, left) = poll_input dev ms tr in length t ≤ ms + length tr
  unfolding poll_input inb
  length-poll_input zero tr = omega arith
  length-poll_input (suc ms) tr =
      let v : ℕ = u8 (dev tr 0x64) in
      elim (Bool-cases (is_set v 0x02)) [
        | inl full ↦ rw full (omega (arith, length-poll_input ms (read 0x64 v ∷ tr)))
        | inr ready ↦ rw ready (omega arith)
      ]

  write_data-IsDone :
      (b ms : ℕ) (tr : Trace) → let (t, r) = write_data dev b (pos ms) tr in IsDone (ms + 1) tr t r
  unfolding write_data wait_buffer_ready outb
  write_data-IsDone b ms tr =
      let n = length-poll_input ms tr in
      record { byte = 0; result = refl; is_byte = omega arith; few = omega (arith, n) }

  read_data-IsDone :
      (ms : ℕ) (tr : Trace) → let (t, r) = read_data dev (pos ms) tr in IsDone (ms + 1) tr t r
  unfolding read_data wait_data_ready inb
  read_data-IsDone ms tr =
      let n = length-poll_output ms tr in
      record { byte = _; result = refl; is_byte = omega arith; few = omega (arith, n) }

later :
    {n k : ℕ} {tr1 tr t : Trace} {r : ℤ}
    → IsDone n tr1 t r
    → n + length tr1 ≤ k + length tr
    → IsDone k tr t r
later d le = record {
  byte = d.byte;
  result = d.result;
  is_byte = d.is_byte;
  few = omega (arith, d.few, le);
}

-- No channel that could take what is sent is in use.
abbrev pub blocked : ℕ → ℕ → Bool
blocked flags status =
    if is_set flags 0x01
    then (if is_set flags 0x04 then second_off status else first_off status)
    else first_off status && second_off status

-- The trace and the result are those of a refusal, or of a sending that is done.
abbrev pub IsAnswered : ℕ → Bool → Trace → Trace × ℤ → Type 0
IsAnswered n refused tr (t, r) =
    ((refused ≡ true) × (r ≡ ps2_err_no_usable_channel) × (t ≡ tr))
    ⊎ ((refused ≡ false) × IsDone n tr t r)

module _ (dev : Device) where
  send_data-IsAnswered :
      (send ms flags status : ℕ) (tr : Trace)
      → IsAnswered
          (ms + 2)
          (if is_set flags 0x04 then second_off status else first_off status)
          tr
          (send_data dev send (pos ms) flags status tr)
  unfolding send_data outb
  send_data-IsAnswered send ms flags status tr = elim (Bool-cases (is_set flags 0x04)) [
    | inl second ↦ elim (Bool-cases (second_off status)) [
      | inl off ↦ rw (second, off) (inl (refl, refl, refl))
      | inr on ↦
          let d = write_data-IsDone dev (u8 send) ms (written 0x64 0xD4 ∷ tr) in
          rw (second, on) (inr (refl, later d (omega arith)))
    ]
    | inr first ↦ elim (Bool-cases (first_off status)) [
      | inl off ↦ rw (first, off) (inl (refl, refl, refl))
      | inr on ↦
          let d = write_data-IsDone dev (u8 send) ms tr in
          rw (first, on) (inr (refl, later d (omega arith)))
    ]
  ]

  send_cmd-IsAnswered :
      (send ms flags status : ℕ) (tr : Trace)
      → IsAnswered
          (ms + 2)
          (first_off status && second_off status)
          tr
          (send_cmd dev send (pos ms) flags status tr)
  unfolding send_cmd outb
  send_cmd-IsAnswered send ms flags status tr =
      let tr1 : Trace = written 0x64 (u8 (bit_and send 0xFF)) ∷ tr in
      elim (Bool-cases (first_off status && second_off status)) [
        | inl off ↦ rw off (inl (refl, refl, refl))
        | inr on ↦ elim (Bool-cases (is_set flags 0x08)) [
          | inl double ↦
              let d = write_data-IsDone dev (bit_and send 0xFF00 / 2 ^ 8) ms tr1 in
              rw (on, double) (inr (refl, later d (omega arith)))
          | inr single ↦
              rw (on, single)
                (inr (
                  refl,
                  record { byte = 0; result = refl; is_byte = omega arith; few = omega arith },
                ))
        ]
      ]

  -- The end of `ps2_send_internal`, with the response.
  respond-IsAnswered :
      (wanted : Bool) (n : ℕ) (refused : Bool) (tr t : Trace) (r : ℤ)
      → IsAnswered (n + 2) refused tr (t, r)
      → IsAnswered
          (2 * n + 4)
          refused
          tr
          (if is_neg r then (t, r) else if wanted then read_data dev (pos n) t else (t, r))
  respond-IsAnswered wanted n refused tr t r (inl (e, er, et)) = rw er (inl (e, refl, et))
  respond-IsAnswered true n refused tr t r (inr (e, d)) =
      let d2 = read_data-IsDone dev n t in
      let f = d.few in rw (d.result) (inr (e, later d2 (omega arith)))
  respond-IsAnswered false n refused tr t r (inr (e, d)) = rw (d.result) (
      inr (
        e,
        later (record { byte = d.byte; result = refl; is_byte = d.is_byte; few = d.few })
            (omega arith),
      ))

  -- For a time of 0 or more, whatever the device answers, `ps2_send_internal` never reports that a
  -- buffer did not become free or full: it refuses with PS2_ERR_NO_USABLE_CHANNEL, before any port
  -- access, exactly if no channel that could take it is in use; else it ends with a byte, or 0,
  -- within `2 * ms + 4` port accesses, where 10000 stands for an `ms` of 0.
  pub ps2_send_internal-IsAnswered :
      (send ms flags status : ℕ) (tr : Trace)
      → IsAnswered
          (2 * reads ms + 4)
          (blocked flags status)
          tr
          (ps2_send_internal dev send (pos ms) flags status tr)
  unfolding ps2_send_internal
  ps2_send_internal-IsAnswered send ms flags status tr =
      let n : ℕ = reads ms in
      let e : time_out (pos ms) ≡ pos n = time_out-reads ms in
      let respond = respond-IsAnswered (is_set flags 0x02) n in
      rw e (elim (Bool-cases (is_set flags 0x01)) [
        | inl data_flag ↦
            rw data_flag (respond _ tr _ _ (send_data-IsAnswered send n flags status tr))
        | inr command ↦ rw command (respond _ tr _ _ (send_cmd-IsAnswered send n flags status tr))
      ])
