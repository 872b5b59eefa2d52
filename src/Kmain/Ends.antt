-- ===== src/Kmain/Ends.antt =====
-- How a run of src/sys/kmain.c can end, and how that is shown of one call after the other.
use Prim.Native.String.{String}
use frod.Base.{ℕ, ◌≡◌, refl, ◌<◌, ◌&&◌, not, Bool, true, false, Option, none, some, List, [], ◌∷◌}
use frod.Base.Int.{ℤ}
use frod.Multiboot.{check_necessary_flags}
use frod.Multiboot.Print.{Arg}
use frod.Kmain.{
  Call, calls_check_necessary_flags, calls_move_module, calls_cpu_supported, calls_apic_init,
  calls_apic_find_info, calls_apic_find_cpus, calls_lapic_install, calls_kprintf, calls_panic,
  Answers, MultibootInfo, Run, next, ◌>>=◌, call, says, flags_checked, panic_if, is_zero,
  max_kernel_mem,
}
use frod.Kmain.Needs.{ready, in_order}

-- What a call has to return for the start to go on: what was asked for was found or done. Of the
-- other calls nothing is asked.
unfoldable pub passes : Call → ℤ → Bool
passes (calls_move_module p name to) r = not (is_zero r)
passes calls_cpu_supported r = not (is_zero r)
passes calls_apic_init r = not (is_zero r)
passes calls_apic_find_info r = is_zero r
passes calls_apic_find_cpus r = not (is_zero r)
passes calls_lapic_install r = not (is_zero r)
passes _ r = true

abbrev pub is_some : {A : Type 0} → Option A → Bool
is_some none = false
is_some (some a) = true

abbrev passed : Call → Option ℤ → Bool
passed c none = false
passed c (some r) = passes c r

module _ (answers : Answers) where
  -- A message always comes back, a panic never.
  unfoldable pub came_back : Call → List Call → Bool
  came_back (calls_kprintf kl fmt args) before = true
  came_back (calls_panic msg) before = false
  came_back (calls_check_necessary_flags flags) before = is_some (check_necessary_flags flags)
  came_back c before = is_some (answers (c ∷ before))

  -- The call came back with what is asked of it.
  unfoldable pub ok : Call → List Call → Bool
  ok (calls_kprintf kl fmt args) before = true
  ok (calls_panic msg) before = false
  ok (calls_check_necessary_flags flags) before = is_some (check_necessary_flags flags)
  ok c before = passed c (answers (c ∷ before))

  unfoldable pub all_ok : List Call → Bool
  all_ok [] = true
  all_ok (c ∷ calls) = ok c calls && all_ok calls

  -- A call of which nothing is asked but to come back.
  abbrev pub IsPlain : Call → Type 0
  IsPlain c =
      (before : List Call)
      → (ok c before ≡ is_some (answers (c ∷ before)))
        × (came_back c before ≡ is_some (answers (c ∷ before)))

  -- A call whose result is looked at.
  abbrev pub IsAsked : Call → Type 0
  IsAsked c =
      (before : List Call)
      → (ok c before ≡ passed c (answers (c ∷ before)))
        × (came_back c before ≡ is_some (answers (c ∷ before)))

  -- The latest of the calls is the first that does not come back; or it is the panic behind the
  -- first that came back without what is asked of it; or it is the panic about the kernel's size,
  -- and there is no other.
  pub data Stopped (mem_end : ℕ) : List Call → Type 0 where
    not_back :
        {c : Call} {calls : List Call}
        → came_back c calls ≡ false
        → all_ok calls ≡ true
        → Stopped mem_end (c ∷ calls)
    panicked :
        {c : Call} {calls : List Call} {msg : String}
        → came_back c calls ≡ true
        → ok c calls ≡ false
        → all_ok calls ≡ true
        → Stopped mem_end (calls_panic msg ∷ c ∷ calls)
    too_large :
        max_kernel_mem < mem_end → Stopped mem_end (calls_panic "Kernel is too large\n" ∷ [])

  module _ (info : MultibootInfo) (mem_start mem_end stack : ℕ) where
    -- All calls are in order, and `kmain` goes on, all of them came back with what is asked of them
    -- and `End` holds of them; or the machine has stopped.
    pub data Ends (End : List Call → Type 0) : List Call × Option {0} Unit → Type 0 where
      goes_on :
          {calls : List Call}
          → in_order info mem_start mem_end stack calls ≡ true
          → all_ok calls ≡ true
          → End calls
          → Ends End (calls, some tt)
      stops :
          {calls : List Call}
          → in_order info mem_start mem_end stack calls ≡ true
          → Stopped mem_end calls
          → Ends End (calls, none)

    -- What has been shown of the calls so far.
    pub record Fine (calls : List Call) : Type 0 where
      pub ordered : in_order info mem_start mem_end stack calls ≡ true
      pub passing : all_ok calls ≡ true

module _ {answers : Answers} {info : MultibootInfo} {mem_start mem_end stack : ℕ} where
  pub and_then :
      {P Q : List Call → Type 0} {out : List Call × Option Unit} (rest : Unit → Run Unit)
      → Ends answers info mem_start mem_end stack P out
      → ((calls : List Call)
          → Fine answers info mem_start mem_end stack calls
          → P calls
          → Ends answers info mem_start mem_end stack Q (rest tt calls))
      → Ends answers info mem_start mem_end stack Q (next out rest)
  and_then rest (goes_on {calls} i a p) f = f calls (record { ordered = i; passing = a }) p
  and_then rest (stops i s) f = stops i s

  module _ {before : List Call} (fine : Fine answers info mem_start mem_end stack before) where
    add_ok :
        (c : Call)
        → ready info mem_start mem_end stack c before ≡ true
        → ok answers c before ≡ true
        → Fine answers info mem_start mem_end stack (c ∷ before)
    unfolding in_order all_ok
    add_ok c r o = record {
      ordered = rw (r, fine.ordered) refl;
      passing = rw (o, fine.passing) refl;
    }

    ordered_with :
        (c : Call)
        → ready info mem_start mem_end stack c before ≡ true
        → in_order info mem_start mem_end stack (c ∷ before) ≡ true
    unfolding in_order
    ordered_with c r = rw (r, fine.ordered) refl

    pub says_then :
        {Q : List Call → Type 0} (kl : ℕ) (fmt : String) (args : List Arg) (rest : Unit → Run Unit)
        → ready info mem_start mem_end stack (calls_kprintf kl fmt args) before ≡ true
        → (Fine answers info mem_start mem_end stack (calls_kprintf kl fmt args ∷ before)
            → Ends answers info mem_start mem_end stack Q
                (rest tt (calls_kprintf kl fmt args ∷ before)))
        → Ends answers info mem_start mem_end stack Q ((says kl fmt args >>= rest) before)
    unfolding says ok
    says_then kl fmt args rest r f = f (add_ok (calls_kprintf kl fmt args) r refl)

    after_call :
        {Q : List Call → Type 0} (c : Call) (rest : ℤ → Run Unit)
        → ready info mem_start mem_end stack c before ≡ true
        → IsPlain answers c
        → ((r : ℤ)
            → Fine answers info mem_start mem_end stack (c ∷ before)
            → Ends answers info mem_start mem_end stack Q (rest r (c ∷ before)))
        → (o : Option ℤ) → answers (c ∷ before) ≡ o
        → Ends answers info mem_start mem_end stack Q (next (c ∷ before, o) rest)
    after_call c rest r plain f none e =
        stops (ordered_with c r) (not_back (rw ((plain before).1, e) refl) fine.passing)
    after_call c rest r plain f (some a) e = f a (add_ok c r (rw ((plain before).0, e) refl))

    pub call_then :
        {Q : List Call → Type 0} (c : Call) (rest : ℤ → Run Unit)
        → ready info mem_start mem_end stack c before ≡ true
        → IsPlain answers c
        → ((r : ℤ)
            → Fine answers info mem_start mem_end stack (c ∷ before)
            → Ends answers info mem_start mem_end stack Q (rest r (c ∷ before)))
        → Ends answers info mem_start mem_end stack Q ((call answers c >>= rest) before)
    unfolding call
    call_then c rest r plain f = after_call c rest r plain f (answers (c ∷ before)) refl

    looked_at :
        {Q : List Call → Type 0} (c : Call) (msg : String) (wrong : Bool) (a : ℤ)
        (rest : Unit → Run Unit)
        → ready info mem_start mem_end stack c before ≡ true
        → IsAsked answers c
        → answers (c ∷ before) ≡ some a
        → passes c a ≡ not wrong
        → (Fine answers info mem_start mem_end stack (c ∷ before)
            → Ends answers info mem_start mem_end stack Q (rest tt (c ∷ before)))
        → Ends answers info mem_start mem_end stack Q ((panic_if wrong msg >>= rest) (c ∷ before))
    unfolding panic_if in_order ready
    looked_at c msg true a rest r asked e wrong f =
        stops (ordered_with c r)
          (panicked (rw ((asked before).1, e) refl) (rw ((asked before).0, e) wrong) fine.passing)
    looked_at c msg false a rest r asked e right f = f (add_ok c r (rw ((asked before).0, e) right))

    after_asked :
        {Q : List Call → Type 0} (c : Call) (msg : String) (wrong : ℤ → Bool)
        (rest : ℤ → Unit → Run Unit)
        → ready info mem_start mem_end stack c before ≡ true
        → IsAsked answers c
        → ((a : ℤ) → passes c a ≡ not (wrong a))
        → ((a : ℤ)
            → Fine answers info mem_start mem_end stack (c ∷ before)
            → Ends answers info mem_start mem_end stack Q (rest a tt (c ∷ before)))
        → (o : Option ℤ) → answers (c ∷ before) ≡ o
        → Ends answers info mem_start mem_end stack Q
            (next (c ∷ before, o) (λ a. panic_if (wrong a) msg >>= rest a))
    after_asked c msg wrong rest r asked guard f none e =
        stops (ordered_with c r) (not_back (rw ((asked before).1, e) refl) fine.passing)
    after_asked c msg wrong rest r asked guard f (some a) e =
        looked_at c msg (wrong a) a (rest a) r asked e (guard a) (f a)

    -- A call and the panic if its result is not what is asked of it.
    pub checked_then :
        {Q : List Call → Type 0} (c : Call) (msg : String) (wrong : ℤ → Bool)
        (rest : ℤ → Unit → Run Unit)
        → ready info mem_start mem_end stack c before ≡ true
        → IsAsked answers c
        → ((a : ℤ) → passes c a ≡ not (wrong a))
        → ((a : ℤ)
            → Fine answers info mem_start mem_end stack (c ∷ before)
            → Ends answers info mem_start mem_end stack Q (rest a tt (c ∷ before)))
        → Ends answers info mem_start mem_end stack Q
            ((call answers c >>= (λ a. panic_if (wrong a) msg >>= rest a)) before)
    unfolding call
    checked_then c msg wrong rest r asked guard f =
        after_asked c msg wrong rest r asked guard f (answers (c ∷ before)) refl

    pub says_last :
        {Q : List Call → Type 0} (kl : ℕ) (fmt : String) (args : List Arg)
        → ready info mem_start mem_end stack (calls_kprintf kl fmt args) before ≡ true
        → Q (calls_kprintf kl fmt args ∷ before)
        → Ends answers info mem_start mem_end stack Q (says kl fmt args before)
    unfolding says ok
    says_last kl fmt args r q =
        let f = add_ok (calls_kprintf kl fmt args) r refl in goes_on f.ordered f.passing q

    looked_at_last :
        {Q : List Call → Type 0} (c : Call) (msg : String) (wrong : Bool) (a : ℤ)
        → ready info mem_start mem_end stack c before ≡ true
        → IsAsked answers c
        → answers (c ∷ before) ≡ some a
        → passes c a ≡ not wrong
        → Q (c ∷ before)
        → Ends answers info mem_start mem_end stack Q (panic_if wrong msg (c ∷ before))
    unfolding panic_if in_order ready
    looked_at_last c msg true a r asked e wrong q =
        stops (ordered_with c r)
          (panicked (rw ((asked before).1, e) refl) (rw ((asked before).0, e) wrong) fine.passing)
    looked_at_last c msg false a r asked e right q =
        let f = add_ok c r (rw ((asked before).0, e) right) in goes_on f.ordered f.passing q

    after_last :
        {Q : List Call → Type 0} (c : Call) (msg : String) (wrong : ℤ → Bool)
        → ready info mem_start mem_end stack c before ≡ true
        → IsAsked answers c
        → ((a : ℤ) → passes c a ≡ not (wrong a))
        → Q (c ∷ before)
        → (o : Option ℤ) → answers (c ∷ before) ≡ o
        → Ends answers info mem_start mem_end stack Q
            (next (c ∷ before, o) (λ a. panic_if (wrong a) msg))
    after_last c msg wrong r asked guard q none e =
        stops (ordered_with c r) (not_back (rw ((asked before).1, e) refl) fine.passing)
    after_last c msg wrong r asked guard q (some a) e =
        looked_at_last c msg (wrong a) a r asked e (guard a) q

    pub checked_last :
        {Q : List Call → Type 0} (c : Call) (msg : String) (wrong : ℤ → Bool)
        → ready info mem_start mem_end stack c before ≡ true
        → IsAsked answers c
        → ((a : ℤ) → passes c a ≡ not (wrong a))
        → Q (c ∷ before)
        → Ends answers info mem_start mem_end stack Q
            ((call answers c >>= (λ a. panic_if (wrong a) msg)) before)
    unfolding call
    checked_last c msg wrong r asked guard q =
        after_last c msg wrong r asked guard q (answers (c ∷ before)) refl

    flags_after :
        {Q : List Call → Type 0} (flags : ℕ) (rest : Unit → Run Unit) (o : Option {0} Unit)
        → check_necessary_flags flags ≡ o
        → (Fine answers info mem_start mem_end stack (calls_check_necessary_flags flags ∷ before)
            → Ends answers info mem_start mem_end stack Q
                (rest tt (calls_check_necessary_flags flags ∷ before)))
        → Ends answers info mem_start mem_end stack Q
            (next (calls_check_necessary_flags flags ∷ before, o) rest)
    unfolding came_back ok ready
    flags_after flags rest none e f =
        stops (ordered_with (calls_check_necessary_flags flags) refl)
          (not_back (rw e refl) fine.passing)
    flags_after flags rest (some tt) e f =
        f (add_ok (calls_check_necessary_flags flags) refl (rw e refl))

    pub flags_then :
        {Q : List Call → Type 0} (flags : ℕ) (rest : Unit → Run Unit)
        → (Fine answers info mem_start mem_end stack (calls_check_necessary_flags flags ∷ before)
            → Ends answers info mem_start mem_end stack Q
                (rest tt (calls_check_necessary_flags flags ∷ before)))
        → Ends answers info mem_start mem_end stack Q ((flags_checked flags >>= rest) before)
    unfolding flags_checked
    flags_then flags rest f = flags_after flags rest (check_necessary_flags flags) refl f
