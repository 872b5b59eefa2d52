-- ===== src/Pit/Waits.antt =====
-- The divisor of the timer and the end of the wait, src/sys/pit.c.
use frod.Base.{
  ℕ, zero, suc, ◌+◌, ◌^◌, ◌≤◌, ◌<◌, ltb, ◌≡◌, refl, ap, arith, true, false, Bool-cases, inl, inr,
  if◌then◌else◌, some, u32,
}
use frod.Pit.{increment_tick, wait_until, kwait}

wait_until-end :
    (left fuel ticks : ℕ)
    → left < fuel
    → ticks + left < 2 ^ 32
    → wait_until fuel (ticks + left) ticks ≡ some (ticks + left)
unfolding wait_until increment_tick
wait_until-end left zero ticks enough small = absurd (omega arith)
wait_until-end zero (suc fuel) ticks enough small =
    let over : ltb ticks (ticks + 0) ≡ false = ground arith in
    let e : ticks ≡ ticks + 0 = omega arith in rw over (ap some e)
wait_until-end (suc left) (suc fuel) ticks enough small =
    let on : ltb ticks (ticks + suc left) ≡ true = ground arith in
    let next : u32 (ticks + 1) ≡ ticks + 1 = omega arith in
    let e : ticks + suc left ≡ ticks + 1 + left = omega arith in
    rw (on, next, e) (wait_until-end left fuel (ticks + 1) (omega arith) (omega arith))

at_once : (fuel end now : ℕ) → end ≤ now → wait_until (suc fuel) end now ≡ some now
unfolding wait_until
at_once fuel end now le = let over : ltb now end ≡ false = ground arith in rw over refl

-- `kwait` returns once exactly `nticks` more interrupts of the timer have come, if the counter does
-- not pass 2^32 in between; if it would, `kwait` returns at once, without any wait.
pub kwait-ticks :
    (nticks ticks : ℕ)
    → nticks < 2 ^ 32
    → ticks < 2 ^ 32
    → kwait (suc nticks) nticks ticks
      ≡ (if ltb (ticks + nticks) (2 ^ 32) then some (ticks + nticks) else some ticks)
unfolding kwait
kwait-ticks nticks ticks lt lt2 = elim (Bool-cases (ltb (ticks + nticks) (2 ^ 32))) [
  | inl below ↦
      let small : ticks + nticks < 2 ^ 32 = ground arith in
      let e : u32 (ticks + nticks) ≡ ticks + nticks = omega arith in
      rw (below, e) (wait_until-end nticks (suc nticks) ticks (omega arith) small)
  | inr wraps ↦ rw wraps (at_once nticks (u32 (ticks + nticks)) ticks (ground arith))
]
