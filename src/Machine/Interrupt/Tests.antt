-- ===== src/Machine/Interrupt/Tests.antt =====
-- The clock of machine/interrupt.cc with handlers that schedule themselves again, as the timer's does.
use cmps.Prelude.{ℕ, ◌≡◌, refl, false, List, [], ◌∷◌, Option, some, arith, if◌then◌else◌, ◌>>=◌}
use cmps.Threads.Sequence.{Entry, insert}
use cmps.Machine.Interrupt.{
  Interrupt, PendingInterrupt, IntType, timer_int, disk_int, int_off, int_on, system_mode, schedule,
  drain, one_tick, idle, check_if_due, due, invoke, yield_on_return, timer_expired,
  time_of_next_interrupt,
}
use cmps.Machine.Interrupt.Pending.{count_due, Polite, timer_expired-Calm}
use cmps.Machine.Interrupt.Handled.{Handled}
use cmps.Machine.Interrupt.Ticks.{Ticked}
use cmps.Machine.Interrupt.Drain.{Quiet, Kept, drain-Quiet}
use cmps.Machine.Interrupt.Clock.{IsBalanced, IdleResult, ticked, one_tick_lem, idle-IdleResult}

abbrev pending_at : ℕ → IntType → Entry PendingInterrupt
pending_at when kind = record {
  key = when;
  item = record { handler = 1; arg = 0; when = when; kind = kind };
}

abbrev kernel : Interrupt (Unit {0})
kernel = record {
  level = int_off;
  pending = pending_at 5 disk_int ∷ pending_at 20 timer_int ∷ [];
  in_handler = false;
  yield_on_return = false;
  status = system_mode;
  total_ticks = 0;
  idle_ticks = 0;
  system_ticks = 0;
  user_ticks = 0;
  world = tt;
}

-- Every handler is the timer's.
abbrev again : ℕ → ℕ → Interrupt (Unit {0}) → Option (Interrupt (Unit {0}))
again = timer_expired false 7

again-Polite : Polite again
again-Polite handler arg k inside off mode = timer_expired-Calm false 7 handler arg k inside mode

abbrev settle : Unit {0} → Unit {0}
settle w = w

abbrev yield : Interrupt (Unit {0}) → Option (Interrupt (Unit {0}))
yield k = some k

-- After the tick of 10 the disk's interrupt has run, and the next one of its kind is at 110.
one_tick_runs :
    one_tick again settle yield 3 kernel
    ≡ some (record kernel {
      level = int_on;
      pending = pending_at 20 timer_int ∷ pending_at 110 timer_int ∷ [];
      total_ticks = 10;
      system_ticks = 10;
    })
unfolding one_tick drain check_if_due due invoke timer_expired yield_on_return schedule
    time_of_next_interrupt insert
one_tick_runs = refl

one_tick_lem_example :
    (k₁ : Interrupt (Unit {0})) × (ps : List PendingInterrupt) × Handled again settle
      (ticked again settle again-Polite kernel)
      ps
      k₁
    × Ticked system_mode kernel k₁
    × Kept (ticked again settle again-Polite kernel) k₁
    × Quiet k₁
    × IsBalanced k₁
    × (one_tick again settle yield 3 kernel ≡ (
        if k₁.yield_on_return
        then (do
          k₃ ← yield (record k₁ { level = int_on; yield_on_return = false; status = system_mode })
          some (record k₃ { status = system_mode }))
        else some (record k₁ { level = int_on })))
one_tick_lem_example =
    one_tick_lem again settle again-Polite yield 3 kernel ((omega arith, tt), (tt, tt))
      (omega arith) refl

idle-IdleResult_example : IdleResult again settle again-Polite kernel (idle again settle 2 kernel)
idle-IdleResult_example =
    idle-IdleResult again settle again-Polite 2 kernel refl ((omega arith, tt), (tt, tt))
      (omega arith) refl

drain-Quiet_example :
    (ps : List PendingInterrupt) × (k' : Interrupt (Unit {0})) × (drain again settle 2
        (record kernel { total_ticks = 10 })
      ≡ some k')
    × Handled again settle (record kernel { total_ticks = 10 }) ps k'
    × Kept (record kernel { total_ticks = 10 }) k'
    × Quiet k'
unfolding count_due
drain-Quiet_example =
    drain-Quiet again settle again-Polite 2 (record kernel { total_ticks = 10 }) refl
      ((omega arith, tt), (tt, tt)) (omega arith)
