-- ===== src/Machine/Interrupt/Clock.antt =====
-- Interrupt::OneTick and Interrupt::Idle of machine/interrupt.cc.
use cmps.Prelude.{
  ℕ, ◌+◌, ◌-◌, ◌≤◌, ◌<◌, ◌≡◌, ◌⊎◌, inl, inr, refl, ap, sym, subst, ◌∙◌, true, false, ◌&&◌, List, [],
  ◌∷◌, Option, some, arith, if◌then◌else◌, ◌>>=◌, Bool-cases, length,
}
use cmps.Threads.Sequence.{Entry, insert, AllFrom, IsSorted}
use cmps.Machine.Interrupt.{
  Interrupt, PendingInterrupt, int_off, int_on, MachineStatus, idle_mode, system_mode, user_mode,
  is_idle, is_timer, no_entries, Idled, resumed, halted, tick, invoke, due, check_if_due, idle,
  one_tick,
}
use cmps.Machine.Interrupt.Pending.{count_due, count_due-le, Polite}
use cmps.Machine.Interrupt.Handled.{Handled, next}
use cmps.Machine.Interrupt.Ticks.{
  Ticked, tick-Ticked, Forwarded, next_time, next_time-le, forward, forward_lem,
}
use cmps.Machine.Interrupt.Drain.{Quiet, later, timer_only, Kept, invoke-Kept, drain-Quiet}

-- Every tick is spent in one of the three ways.
abbrev pub IsBalanced : {W : Type 0} → Interrupt W → Type 0
IsBalanced k = k.total_ticks ≡ k.idle_ticks + k.system_ticks + k.user_ticks

module _ {W : Type 0} (call : ℕ → ℕ → Interrupt W → Option (Interrupt W)) (settle : W → W)
    (polite : Polite call) where
  tick-sorted : (k : Interrupt W) (s : MachineStatus) → (tick k s).pending ≡ k.pending
  tick-sorted k idle_mode = refl
  tick-sorted k system_mode = refl
  tick-sorted k user_mode = refl

  tick-IsBalanced : (k : Interrupt W) (s : MachineStatus) → IsBalanced k → IsBalanced (tick k s)
  tick-IsBalanced k idle_mode b = omega (arith, b)
  tick-IsBalanced k system_mode b = omega (arith, b)
  tick-IsBalanced k user_mode b = omega (arith, b)

  -- The state in which OneTick looks for interrupts.
  abbrev pub ticked : Interrupt W → Interrupt W
  ticked k = record (tick k k.status) { level = int_off }

  -- Where every handler, called as a handler with interrupts off and in system mode, returns, keeps
  -- the clock, the counts of ticks, the interrupt level and the order of the pending interrupts, and
  -- makes none of them due: OneTick, with pending interrupts in order and fuel for more than them,
  -- lets 10 ticks of system mode pass, or 1 of user mode, and counts them as such. With interrupts off
  -- it calls handlers with their arguments, one after the other, each for the first interrupt of the
  -- list, which is due then and off the list, until none is due, or only a timer waits while the
  -- machine idles. It ends with interrupts on, and yields once if a handler has asked for it. The
  -- total of the ticks stays the sum of the three kinds.
  pub one_tick_lem :
      (yield : Interrupt W → Option (Interrupt W)) (fuel : ℕ) (k : Interrupt W)
      → IsSorted k.pending
      → length k.pending < fuel
      → IsBalanced k
      → (k₁ : Interrupt W) × (ps : List PendingInterrupt) × Handled call settle (ticked k) ps k₁
        × Ticked k.status k k₁
        × Kept (ticked k) k₁
        × Quiet k₁
        × IsBalanced k₁
        × (one_tick call settle yield fuel k ≡ (
            if k₁.yield_on_return
            then (do
              k₃ ←
                  yield
                    (record k₁ { level = int_on; yield_on_return = false; status = system_mode })
              some (record k₃ { status = k.status }))
            else some (record k₁ { level = int_on })))
  unfolding one_tick
  one_tick_lem yield fuel k s enough balanced =
      let one = tick-Ticked k k.status in
      let (ps, k₁, run, handled, kept, quiet) =
        drain-Quiet call settle polite fuel (ticked k) refl
          (subst IsSorted (sym (tick-sorted k k.status)) s)
          (omega (
            arith,
            enough,
            count_due-le (ticked k).total_ticks (ticked k).pending,
            ap (λ es. length es) (tick-sorted k k.status),
          )) in
      (
        k₁,
        ps,
        handled,
        record {
          idle = kept.idle ∙ one.idle;
          system = kept.system ∙ one.system;
          user = kept.user ∙ one.user;
          total = kept.time ∙ one.total;
        },
        kept,
        quiet,
        omega (
          arith,
          kept.time,
          kept.idle,
          kept.system,
          kept.user,
          tick-IsBalanced k k.status balanced,
        ),
        rw run refl,
      )

  -- Only a timer waits.
  abbrev pub TimerOnly : List (Entry PendingInterrupt) → Type 0
  TimerOnly es = (e : Entry PendingInterrupt) × (es ≡ e ∷ []) × (is_timer e.item.kind ≡ true)

  pub data IdleResult (k : Interrupt W) (out : Option (Idled W)) : Type 0 where
    stops :
        (k' : Interrupt W)
        → out ≡ some (halted k')
        → (k.pending ≡ []) ⊎ TimerOnly k.pending
        → IdleResult k out
    goes_on :
        (k₁ k₂ : Interrupt W) (e : Entry PendingInterrupt) (rest : List (Entry PendingInterrupt))
        (ps : List PendingInterrupt)
        → (let k' = record k₂ { yield_on_return = false; status = system_mode } in
            (out ≡ some (resumed k'))
            × (k.pending ≡ e ∷ rest)
            × Forwarded (next_time k.total_ticks e.key) k k₁
            × Handled call settle k₁ (e.item ∷ ps) k₂
            × (k'.total_ticks ≡ next_time k.total_ticks e.key)
            × (k'.idle_ticks ≡ k.idle_ticks + (next_time k.total_ticks e.key - k.total_ticks))
            × (k'.system_ticks ≡ k.system_ticks)
            × (k'.user_ticks ≡ k.user_ticks)
            × (AllFrom (k'.total_ticks + 1) k'.pending ⊎ TimerOnly k'.pending)
            × IsSorted k'.pending
            × IsBalanced k')
        → IdleResult k out

  check_forward :
      (k : Interrupt W) (e : Entry PendingInterrupt) (rest : List (Entry PendingInterrupt))
      → k.pending ≡ e ∷ rest
      → k.level ≡ int_off
      → check_if_due call settle true (record k { status = idle_mode })
        ≡ due call settle e (forward k e rest)
  unfolding check_if_due
  check_forward k e rest same off = ground (arith, same, off)

  Quiet-idle_end :
      (k : Interrupt W) → Quiet k → AllFrom (k.total_ticks + 1) k.pending ⊎ TimerOnly k.pending
  Quiet-idle_end k (later all) = inl all
  Quiet-idle_end k (timer_only e same timer idles) = inr (e, same, timer)

  runs_first :
      (k : Interrupt W) (e : Entry PendingInterrupt) (rest : List (Entry PendingInterrupt))
      (k₁ : Interrupt W)
      → is_timer e.item.kind && no_entries rest ≡ false
      → invoke call settle e.item (forward k e rest) ≡ some k₁
      → due call settle e (forward k e rest) ≡ some (true, k₁)
  unfolding due
  runs_first k e rest k₁ other run =
      ground (arith, other, run, (forward_lem k e rest).pending, (forward_lem k e rest).idles)

  timer_stops :
      (fuel : ℕ) (k : Interrupt W) (e : Entry PendingInterrupt)
      → k.pending ≡ e ∷ []
      → k.level ≡ int_off
      → is_timer e.item.kind ≡ true
      → IdleResult k (idle call settle fuel k)
  timer_stops fuel k e same off timer =
      stops (record (forward k e []) { pending = insert e (forward k e []).pending })
        (unfold idle in ground (arith, check_forward k e [] same off, put_back))
        (inr (e, same, timer))
    where
      put_back :
          due call settle e (forward k e [])
          ≡ some (false, record (forward k e []) { pending = insert e (forward k e []).pending })
      put_back =
          unfold due in
          ground (arith, timer, (forward_lem k e []).pending, (forward_lem k e []).idles)

  after_first :
      (fuel : ℕ) (k : Interrupt W) (e : Entry PendingInterrupt)
      (rest : List (Entry PendingInterrupt))
      → k.pending ≡ e ∷ rest
      → k.level ≡ int_off
      → IsSorted rest
      → length rest < fuel
      → IsBalanced k
      → is_timer e.item.kind && no_entries rest ≡ false
      → IdleResult k (idle call settle fuel k)
  after_first fuel k e rest same off s enough balanced other =
      let f = forward_lem k e rest in
      let fw = forward k e rest in
      let (k₁, run, kept, (k₀, called, back), fewer) =
        invoke-Kept call settle polite e.item fw (subst IsSorted (sym f.pending) s)
          (f.level ∙ off) in
      let (ps, k₂, drained, handled, kept', quiet) =
        drain-Quiet call settle polite fuel k₁ (kept.level ∙ f.level ∙ off) kept.sorted (
          subst (λ t. count_due t k₁.pending < fuel) (sym kept.time)
            (omega (
              arith,
              fewer,
              enough,
              count_due-le fw.total_ticks fw.pending,
              ap (λ es. length es) f.pending,
            ))) in
      goes_on (record fw { pending = k.pending }) k₂ e rest ps
        (
          unfold idle in
              ground
                (arith, check_forward k e rest same off, runs_first k e rest k₁ other run, drained),
          same,
          record {
            pending = refl;
            level = f.level;
            status = f.idles;
            total = f.clock;
            idle = f.idle;
            system = f.system;
            user = f.user;
            world = f.world;
          },
          next e (record fw { pending = k.pending }) k₁ ps k₂
              (record {
                rest = rest;
                pending = same;
                now = f.due_now;
                off = f.level ∙ off;
                busy = ground (arith, other, ap is_idle f.idles);
                handled = k₀;
                called =
                    subst
                      (λ z.
                        call e.item.handler e.item.arg (record fw {
                          pending = z;
                          world = settle fw.world;
                          in_handler = true;
                          status = system_mode;
                        })
                        ≡ some k₀)
                      f.pending called;
                back = back;
              })
              handled,
          kept'.time ∙ kept.time ∙ f.clock,
          kept'.idle ∙ kept.idle ∙ f.idle,
          kept'.system ∙ kept.system ∙ f.system,
          kept'.user ∙ kept.user ∙ f.user,
          Quiet-idle_end k₂ quiet,
          kept'.sorted,
          omega (
            arith,
            kept'.time ∙ kept.time ∙ f.clock,
            kept'.idle ∙ kept.idle ∙ f.idle,
            kept'.system ∙ kept.system ∙ f.system,
            kept'.user ∙ kept.user ∙ f.user,
            next_time-le k.total_ticks e.key,
            balanced,
          ),
        )

  -- Where every handler, called as a handler with interrupts off and in system mode, returns, keeps
  -- the clock, the counts of ticks, the interrupt level and the order of the pending interrupts, and
  -- makes none of them due: Idle, called with interrupts off, pending interrupts in order and fuel for
  -- them, stops the machine if no interrupt is pending, or a timer alone. Otherwise it puts the clock
  -- forward to the first interrupt, unless that is overdue, and counts these ticks as idle and no
  -- others. It calls the handler of this interrupt with its argument, and then those of other
  -- interrupts that are due, until none is, or only a timer is left, and returns in system mode with
  -- no request to yield.
  pub idle-IdleResult :
      (fuel : ℕ) (k : Interrupt W)
      → k.level ≡ int_off
      → IsSorted k.pending
      → length k.pending ≤ fuel
      → IsBalanced k
      → IdleResult k (idle call settle fuel k)
  idle-IdleResult fuel k off s enough balanced = split k.pending refl
    where
      split :
          (es : List (Entry PendingInterrupt))
          → k.pending ≡ es
          → IdleResult k (idle call settle fuel k)
      split [] same =
          stops (record k { status = idle_mode })
            (unfold idle check_if_due in ground (arith, same, off)) (inl same)
      split (e ∷ x ∷ rest) same =
          after_first fuel k e (x ∷ rest) same off (subst IsSorted same s).1
            (omega (arith, enough, ap (λ es. length es) same)) balanced (ground arith)
      split (e ∷ []) same = elim (Bool-cases (is_timer e.item.kind)) [
        | inr other ↦
            after_first fuel k e [] same off tt (omega (arith, enough, ap (λ es. length es) same))
              balanced (ground (arith, other))
        | inl timer ↦ timer_stops fuel k e same off timer
      ]
