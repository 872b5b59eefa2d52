-- ===== src/Lock/Tests.antt =====
-- Runs of the spinlock, sys/lock.c, with the processors 0 and 1.
use frod.Base.{ℕ, ◌≡◌, refl, ap, ◌≢◌, arith}
use frod.Lock.{
  Lock, Place, outside, waiting, inside, enters, tries, Reachable, initial, after, put, alock,
  spinlock_acquire, init_spinlock,
}
use frod.Lock.Exclusion.{IsExclusive, Reachable-IsExclusive}

abbrev one_waits : Lock
one_waits = put 1 waiting (put 0 waiting init_spinlock)

one_waits-Reachable : Reachable one_waits
unfolding put init_spinlock
one_waits-Reachable = after (after initial (enters 0 refl)) (enters 1 refl)

abbrev taken : Lock
taken = spinlock_acquire 1 (spinlock_acquire 0 one_waits)

taken-Reachable : Reachable taken
unfolding put init_spinlock spinlock_acquire alock
taken-Reachable = after (after one_waits-Reachable (tries 0 refl)) (tries 1 refl)

-- Processor 0 came first, and processor 1 still waits.
taken_run : (taken.cpus 0 ≡ inside) × (taken.cpus 1 ≡ waiting) × (taken.locked ≡ 1)
unfolding put init_spinlock spinlock_acquire alock
taken_run = (refl, refl, refl)

Reachable-IsExclusive_example : IsExclusive taken
Reachable-IsExclusive_example = Reachable-IsExclusive taken taken-Reachable

abbrev is_inside : Place → ℕ
is_inside outside = 0
is_inside waiting = 0
is_inside inside = 1

nobody_inside : (j : ℕ) → one_waits.cpus j ≢ inside
unfolding put init_spinlock
nobody_inside j e =
    let z : is_inside (one_waits.cpus j) ≡ 0 = ground arith in
    let o : is_inside (one_waits.cpus j) ≡ 1 = ap is_inside e in omega (arith, z, o)
