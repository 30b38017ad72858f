-- ===== src/Machine/Interrupt/Pending.antt =====
-- The pending interrupts of machine/interrupt.cc that are due, and what an interrupt handler may do to
-- them.
use cmps.Prelude.{
  ℕ, ◌+◌, ◌≤◌, ◌<◌, ◌≡◌, inl, inr, refl, ◌∙◌, Bool, true, List, [], ◌∷◌, Option, some, arith, ltb,
  leb, length, if◌then◌else◌, Bool-cases,
}
use cmps.Threads.Sequence.{Entry, insert, AllFrom, IsSorted, IsSorted-insert}
use cmps.Machine.Interrupt.{
  Interrupt, PendingInterrupt, IntType, timer_int, int_off, yield_on_return, system_mode, schedule,
  time_of_next_interrupt, timer_expired,
}

module _ {ℓ} {A : Type ℓ} where
  -- How many entries are due at the time.
  unfoldable pub count_due : ℕ → List (Entry A) → ℕ
  count_due time [] = 0
  count_due time (e ∷ es) = (if leb e.key time then 1 else 0) + count_due time es

  pub count_due-insert :
      (time : ℕ) (e : Entry A) (es : List (Entry A))
      → count_due time (insert e es) ≡ (if leb e.key time then 1 else 0) + count_due time es
  unfolding count_due insert
  count_due-insert time e [] = refl
  count_due-insert time e (x ∷ xs) = elim (Bool-cases (ltb e.key x.key)) [
    | inl first ↦ rw (first, count_due)
    | inr later ↦ rw (later, count_due) (omega (arith, count_due-insert time e xs))
  ]

  pub count_due-le : (time : ℕ) (es : List (Entry A)) → count_due time es ≤ length es
  unfolding count_due
  count_due-le time [] = omega arith
  count_due-le time (e ∷ es) = ground (arith, count_due-le time es)

  -- An entry that is taken off and put back is in its old place.
  pub insert_back : (e : Entry A) (es : List (Entry A)) → IsSorted (e ∷ es) → IsSorted (insert e es)
  insert_back e es s = IsSorted-insert e es s.1

  pub all_later :
      (time k : ℕ) (es : List (Entry A)) → time < k → AllFrom k es → AllFrom (time + 1) es
  all_later time k [] late all = tt
  all_later time k (e ∷ es) late all = (omega (arith, all.0), all_later time k es late all.1)

-- What the code of the kernel that runs in a handler keeps: the time, the interrupt level, the order of
-- the pending interrupts, and that no more of them are due.
pub record Calm {W : Type 0} (k k' : Interrupt W) : Type 0 where
  pub time : k'.total_ticks ≡ k.total_ticks
  pub idle : k'.idle_ticks ≡ k.idle_ticks
  pub system : k'.system_ticks ≡ k.system_ticks
  pub user : k'.user_ticks ≡ k.user_ticks
  pub level : k'.level ≡ k.level
  pub sorted : IsSorted k.pending → IsSorted k'.pending
  pub fewer : count_due k.total_ticks k'.pending ≤ count_due k.total_ticks k.pending

-- Every handler, called as the source calls it, returns.
abbrev pub Polite : {W : Type 0} → (ℕ → ℕ → Interrupt W → Option (Interrupt W)) → Type 0
Polite {W} call =
    (handler arg : ℕ) (k : Interrupt W)
    → k.in_handler ≡ true
    → k.level ≡ int_off
    → k.status ≡ system_mode
    → (k' : Interrupt W) × (call handler arg k ≡ some k') × Calm k k'

-- Schedule fails its assertion if the interrupt is not in the future. Otherwise it keeps the order of
-- the pending interrupts, and makes none of them due.
pub schedule-Calm :
    {W : Type 0} (handler arg from_now : ℕ) (kind : IntType) (k : Interrupt W)
    → 0 < from_now
    → (k' : Interrupt W) × (schedule handler arg from_now kind k ≡ some k')
      × (k'.in_handler ≡ k.in_handler)
      × (k'.status ≡ k.status)
      × Calm k k'
unfolding schedule
schedule-Calm handler arg from_now kind k future = (
  record k { pending = insert e k.pending },
  ground (arith, future),
  refl,
  refl,
  record {
    time = refl;
    idle = refl;
    system = refl;
    user = refl;
    level = refl;
    sorted = λ s. IsSorted-insert e k.pending s;
    fewer = omega (arith, count_due-insert k.total_ticks e k.pending, late);
  },
)
  where
    e : Entry PendingInterrupt
    e = record {
      key = k.total_ticks + from_now;
      item = record { handler = handler; arg = arg; when = k.total_ticks + from_now; kind = kind };
    }

    late : ◌≡◌ {A = ℕ} (if leb e.key k.total_ticks then 1 else 0) 0
    late = ground (arith, future)

-- In a handler, what the timer does fails no assertion.
pub timer_expired-Calm :
    {W : Type 0} (randomize : Bool) (random handler arg : ℕ) (k : Interrupt W)
    → k.in_handler ≡ true
    → k.status ≡ system_mode
    → (k' : Interrupt W) × (timer_expired randomize random handler arg k ≡ some k') × Calm k k'
unfolding timer_expired yield_on_return time_of_next_interrupt
timer_expired-Calm randomize random handler arg k inside mode =
    let (k', run, same, still, calm) =
      schedule-Calm handler arg (time_of_next_interrupt randomize random) timer_int k
        (ground arith) in
    (
      record k' { yield_on_return = true },
      rw (run, still ∙ mode, same ∙ inside) refl,
      record {
        time = calm.time;
        idle = calm.idle;
        system = calm.system;
        user = calm.user;
        level = calm.level;
        sorted = calm.sorted;
        fewer = calm.fewer;
      },
    )
