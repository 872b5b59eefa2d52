-- ===== src/Lock/Exclusion.antt =====
-- Mutual exclusion and progress of the spinlock, sys/lock.c.
use frod.Base.{ℕ, ◌≡◌, refl, ap, ◌≢◌, sym, ◌∙◌, arith, ◌==◌, true, false, inl, inr, ◌⊎◌}
use native.Mathlib.Decide.{ℕ_discrete}
use frod.Lock.{
  Lock, Place, outside, waiting, inside, enters, tries, leaves, Reachable, initial, after, put,
  alock, spinlock_acquire, spinlock_release, init_spinlock,
}

-- At most one processor is inside, and the word is 0 exactly if none is.
pub record IsExclusive (s : Lock) : Type 0 where
  pub only : (i j : ℕ) → s.cpus i ≡ inside → s.cpus j ≡ inside → i ≡ j
  pub held : (i : ℕ) → s.cpus i ≡ inside → s.locked ≢ 0
  pub holder : (s.locked ≡ 0) ⊎ ((i : ℕ) × (s.cpus i ≡ inside))

abbrev is_inside : Place → ℕ
is_inside outside = 0
is_inside waiting = 0
is_inside inside = 1

outside≢inside : outside ≢ inside
outside≢inside e = let z : 0 ≡ 1 = ap is_inside e in omega (arith, z)

waiting≢inside : waiting ≢ inside
waiting≢inside e = let z : 0 ≡ 1 = ap is_inside e in omega (arith, z)

put_same : (i : ℕ) (p : Place) (s : Lock) → (put i p s).cpus i ≡ p
unfolding put
put_same i p s = ground arith

put_other : (i j : ℕ) (p : Place) (s : Lock) → j ≢ i → (put i p s).cpus j ≡ s.cpus j
unfolding put
put_other i j p s ne = ground arith

-- A processor that is not inside after a step on `i` by `put` is inside only if it was before.
put_inside :
    (i j : ℕ) (p : Place) (s : Lock)
    → p ≢ inside
    → (put i p s).cpus j ≡ inside
    → (j ≢ i) × (s.cpus j ≡ inside)
put_inside i j p s np h = elim (ℕ_discrete j i) [
  | yes e ↦ absurd (np (sym (put_same i p s) ∙ (ap (λ k. (put i p s).cpus k) (sym e) ∙ h)))
  | no ne ↦ (ne, sym (put_other i j p s ne) ∙ h)
]

enters-IsExclusive :
    (i : ℕ) (s : Lock) → s.cpus i ≡ outside → IsExclusive s → IsExclusive (put i waiting s)
enters-IsExclusive i s out k = record {
  only = λ a b h h'.
      k.only a b (put_inside i a waiting s waiting≢inside h).1
        (put_inside i b waiting s waiting≢inside h').1;
  held = λ a h. unfold put in (k.held a (put_inside i a waiting s waiting≢inside h).1);
  holder = elim k.holder [
    | inl z ↦ inl (unfold put in z)
    | inr (a, h) ↦
        inr
          (a, put_other i a waiting s (λ e. outside≢inside (sym out ∙ (ap s.cpus (sym e) ∙ h))) ∙ h)
  ];
}

leaves-IsExclusive :
    (i : ℕ) (s : Lock) → s.cpus i ≡ inside → IsExclusive s → IsExclusive (spinlock_release i s)
unfolding spinlock_release alock
leaves-IsExclusive i s ins k =
    let t : Lock = record s { locked = 0 } in
    record {
      only = λ a b h h'.
          k.only a b (put_inside i a outside t outside≢inside h).1
            (put_inside i b outside t outside≢inside h').1;
      held = λ a h.
          let (ne, was) = put_inside i a outside t outside≢inside h in
          absurd (ne (k.only a i was ins));
      holder = inl (unfold put in refl);
    }

tries-IsExclusive : (i : ℕ) (s : Lock) → IsExclusive s → IsExclusive (spinlock_acquire i s)
unfolding spinlock_acquire alock
tries-IsExclusive i s k = elim (ℕ_discrete s.locked 0) [
  | yes free ↦
      let on : (s.locked == 0) ≡ true = ground arith in
      let t : Lock = record s { locked = 1 } in
      let alone : (a : ℕ) → (put i inside t).cpus a ≡ inside → a ≡ i = λ a h.
        elim (ℕ_discrete a i) [
          | yes e ↦ e
          | no ne ↦ absurd (k.held a (sym (put_other i a inside t ne) ∙ h) free)
        ] in
      rw on (record {
        only = λ a b h h'. alone a h ∙ sym (alone b h');
        held = λ a h. unfold put in (λ e. omega arith);
        holder = inr (i, put_same i inside t);
      })
  | no taken ↦
      let off : (s.locked == 0) ≡ false = ground arith in
      rw off (record {
        only = k.only;
        held = λ a h e. omega arith;
        holder = elim k.holder [ inl z ↦ absurd (taken z) | inr found ↦ inr found ];
      })
]

-- In every state that the processors can reach, at most one of them holds the lock, and the lock's
-- word is 0 exactly if none does.
pub Reachable-IsExclusive : (s : Lock) → Reachable s → IsExclusive s
Reachable-IsExclusive _ initial = record {
  only = λ i j h. absurd (outside≢inside (unfold init_spinlock in h));
  held = λ i h. absurd (outside≢inside (unfold init_spinlock in h));
  holder = inl (unfold init_spinlock in refl);
}
Reachable-IsExclusive _ (after {s} r (enters i out)) =
    enters-IsExclusive i s out (Reachable-IsExclusive s r)
Reachable-IsExclusive _ (after {s} r (tries i w)) =
    tries-IsExclusive i s (Reachable-IsExclusive s r)
Reachable-IsExclusive _ (after {s} r (leaves i ins)) =
    leaves-IsExclusive i s ins (Reachable-IsExclusive s r)

-- In a reachable state where no processor holds the lock, the next round of any processor's loop
-- takes it.
pub spinlock_acquire_free :
    (s : Lock) (i : ℕ)
    → Reachable s
    → ((j : ℕ) → s.cpus j ≢ inside)
    → (spinlock_acquire i s).cpus i ≡ inside
unfolding spinlock_acquire alock
spinlock_acquire_free s i r none_inside = elim (Reachable-IsExclusive s r).holder [
  | inl z ↦ rw z (put_same i inside (record s { locked = 1 }))
  | inr (j, h) ↦ absurd (none_inside j h)
]
