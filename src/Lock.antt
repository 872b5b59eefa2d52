-- ===== src/Lock.antt =====
-- The spinlock, sys/lock.c, among processors that take their steps in any order. The exchange of
-- `alock` is one step; `pushcli` and `popcli` are empty in the source.
pub mod Exclusion
mod Tests
use frod.Base.{ℕ, ◌==◌, if◌then◌else◌, ◌≡◌}

-- Where a processor is: it does not use the lock, it is in the loop of `spinlock_acquire`, or it
-- has come back from there and has not released the lock.
pub data Place : Type 0 where
  outside : Place
  waiting : Place
  inside : Place

-- The lock's word, and the processors.
pub record Lock : Type 0 where
  pub locked : ℕ
  pub cpus : ℕ → Place

unfoldable pub init_spinlock : Lock
init_spinlock = record { locked = 0; cpus = λ i. outside }

-- The word after the exchange, and the result.
unfoldable pub alock : ℕ → ℕ → ℕ × ℕ
alock old n_val = (n_val, old)

unfoldable pub put : ℕ → Place → Lock → Lock
put i p s = record s { cpus = λ j. if j == i then p else s.cpus j }

-- One round of the loop of `spinlock_acquire` on processor `i`.
unfoldable pub spinlock_acquire : ℕ → Lock → Lock
spinlock_acquire i s =
    let (word, ret) = alock s.locked 1 in
    let t = record s { locked = word } in if ret == 0 then put i inside t else t

unfoldable pub spinlock_release : ℕ → Lock → Lock
spinlock_release i s =
    let (word, ret) = alock s.locked 0 in put i outside (record s { locked = word })

-- A processor enters the loop, makes a round, or releases the lock that it holds.
pub data Step (s : Lock) : Lock → Type 0 where
  enters : (i : ℕ) → s.cpus i ≡ outside → Step s (put i waiting s)
  tries : (i : ℕ) → s.cpus i ≡ waiting → Step s (spinlock_acquire i s)
  leaves : (i : ℕ) → s.cpus i ≡ inside → Step s (spinlock_release i s)

pub data Reachable : Lock → Type 0 where
  initial : Reachable init_spinlock
  after : {s t : Lock} → Reachable s → Step s t → Reachable t
