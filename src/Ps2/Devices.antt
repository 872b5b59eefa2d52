-- ===== src/Ps2/Devices.antt =====
-- The devices that register for the two channels, drv/ps2.c, and the interrupt handlers.
-- `K` is the state that the callbacks change, and `H` the type of the interrupt handlers in isr.c.
use frod.Base.{
  ℕ, ◌+◌, ◌-◌, ◌*◌, ◌==◌, ltb, ◌||◌, ◌&&◌, if◌then◌else◌, Bool, true, Option, none, some, Memory,
}
use frod.Base.Int.{ℤ, pos, negsuc}
use frod.Ports.{Trace, Device, inb}
use frod.Strings.{strncpy}
use frod.Ps2.{
  ps2_port_data, first_off, second_off, ps2_err_invalid_param, ps2_err_channel_broken,
  ps2_err_channel_active, ps2_success,
}

abbrev pub ps2_max_name_sz : ℕ
ps2_max_name_sz = 32

-- `sizeof(ps2_devices)`: the callback's address, the name, and a bool, aligned to four bytes.
abbrev pub sizeof_ps2_devices : ℕ
sizeof_ps2_devices = 40

-- A callback of `none` is the null pointer. The names are in the memory, see `name_of`.
pub record Ps2 (K H : Type 0) : Type 0 where
  pub trace : Trace
  pub channel_status : ℕ
  pub active : ℕ → Bool
  pub callback : ℕ → Option (ℕ → K → K)
  pub mem : Memory
  pub handlers : ℕ → H

-- The array with the element at `n` set.
abbrev pub set_at : {A : Type 0} → ℕ → A → (ℕ → A) → ℕ → A
set_at n a f i = if i == n then a else f i

-- The address of `registered[n].name`.
abbrev pub name_of : ℕ → ℕ → ℕ
name_of registered n = registered + sizeof_ps2_devices * n + 4

module _ {K H : Type 0} (registered : ℕ) where
  -- The rest of `ps2_register` for the element `n` of the array.
  unfoldable pub register_at : (ℕ → K → K) → ℕ → ℕ → Ps2 K H → Ps2 K H × ℤ
  register_at handler name n s =
      let (mem, dst) = strncpy (name_of registered n) name ps2_max_name_sz s.mem in
      if s.active n then (s, ps2_err_channel_active) else (
        record s {
          active = set_at n true s.active;
          mem = mem;
          callback = set_at n (some handler) s.callback;
        },
        ps2_success,
      )

  unfoldable pub ps2_register : (ℕ → K → K) → ℕ → ℤ → Ps2 K H → Ps2 K H × ℤ
  ps2_register handler name (negsuc n) s = (s, ps2_err_invalid_param)
  ps2_register handler name (pos n) s =
      if ltb n 1 || ltb 2 n
      then (s, ps2_err_invalid_param)
      else if (n == 1) && first_off s.channel_status
      then (s, ps2_err_channel_broken)
      else if (n == 2) && second_off s.channel_status
      then (s, ps2_err_channel_broken)
      else register_at handler name (n - 1) s

-- The call of a callback, which for the null pointer is a jump to address 0.
unfoldable pub call : {K : Type 0} → Option (ℕ → K → K) → ℕ → K → Option K
call none byte k = none
call (some f) byte k = some (f byte k)

unfoldable pub with_state : {K H : Type 0} → Ps2 K H → Option K → Option (Ps2 K H × K)
with_state s none = none
with_state s (some k) = some (s, k)

module _ {K H : Type 0} (dev : Device) where
  -- The body that the two interrupt handlers share, for the element `n` of the array.
  unfoldable pub handle_interrupt : ℕ → Ps2 K H × K → Option (Ps2 K H × K)
  handle_interrupt n (s, k) =
      let (tr, byte) = inb dev ps2_port_data s.trace in
      let t : Ps2 K H = record s { trace = tr } in
      if s.active n then with_state t (call (s.callback n) byte k) else some (t, k)

  unfoldable pub ps2_handle_interrupt_1st : Ps2 K H × K → Option (Ps2 K H × K)
  ps2_handle_interrupt_1st sk = handle_interrupt 0 sk

  unfoldable pub ps2_handle_interrupt_2nd : Ps2 K H × K → Option (Ps2 K H × K)
  ps2_handle_interrupt_2nd sk = handle_interrupt 1 sk
