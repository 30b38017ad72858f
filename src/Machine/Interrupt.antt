-- ===== src/Machine/Interrupt.antt =====
-- The class Interrupt of machine/interrupt.cc, with the clock of machine/stats.h.
-- The list of pending interrupts is the sequence that threads/list.cc keeps. The code behind a
-- handler, Thread::Yield, and the delayed load that precedes a handler are parameters: functions on the
-- state and on the rest `W` of the kernel. Times do not overflow: an int counts 2 ^ 31 ticks. A failed
-- ASSERT is `none`, and so is a loop that has used its fuel up.
pub mod Pending
pub mod Handled
pub mod Ticks
pub mod Drain
pub mod Clock
mod Tests
use cmps.Prelude.{
  ℕ, zero, suc, ◌+◌, ◌-◌, ◌*◌, ◌%◌, Bool, true, false, not, ◌&&◌, ◌||◌, List, [], ◌∷◌, Option, none,
  some, ltb, if◌then◌else◌, ◌>>=◌, ◌>>◌, assert,
}
use cmps.Threads.Sequence.{Entry, insert}

pub data IntStatus : Type 0 where
  int_off int_on : IntStatus

pub data MachineStatus : Type 0 where
  idle_mode system_mode user_mode : MachineStatus

pub data IntType : Type 0 where
  timer_int disk_int console_write_int console_read_int network_send_int network_recv_int : IntType

-- A function pointer is the number of the function.
pub record PendingInterrupt : Type 0 where
  pub handler : ℕ
  pub arg : ℕ
  pub when : ℕ
  pub kind : IntType

pub record Interrupt (W : Type 0) : Type 0 where
  pub level : IntStatus
  pub pending : List (Entry PendingInterrupt)
  pub in_handler : Bool
  pub yield_on_return : Bool
  pub status : MachineStatus
  pub total_ticks : ℕ
  pub idle_ticks : ℕ
  pub system_ticks : ℕ
  pub user_ticks : ℕ
  pub world : W

abbrev pub is_off : IntStatus → Bool
is_off int_off = true
is_off int_on = false

abbrev pub is_idle : MachineStatus → Bool
is_idle idle_mode = true
is_idle _ = false

abbrev pub is_timer : IntType → Bool
is_timer timer_int = true
is_timer _ = false

abbrev pub no_entries : List (Entry PendingInterrupt) → Bool
no_entries [] = true
no_entries (e ∷ es) = false

abbrev pub user_tick : ℕ
user_tick = 1

abbrev pub system_tick : ℕ
system_tick = 10

abbrev pub timer_ticks : ℕ
timer_ticks = 100

-- What Idle comes to: a thread may be ready now, or the machine stops.
pub data Idled (W : Type 0) : Type 0 where
  resumed : Interrupt W → Idled W
  halted : Interrupt W → Idled W

module _ {W : Type 0} where
  -- The time passes in the mode that the machine is in.
  abbrev pub tick : Interrupt W → MachineStatus → Interrupt W
  tick k system_mode = record k {
    total_ticks = k.total_ticks + system_tick;
    system_ticks = k.system_ticks + system_tick;
  }
  tick k _ = record k {
    total_ticks = k.total_ticks + user_tick;
    user_ticks = k.user_ticks + user_tick;
  }

  unfoldable pub schedule : ℕ → ℕ → ℕ → IntType → Interrupt W → Option (Interrupt W)
  schedule handler arg from_now kind k = do
    let when = k.total_ticks + from_now
    let to_occur : PendingInterrupt = record {
      handler = handler;
      arg = arg;
      when = when;
      kind = kind;
    }
    assert (ltb 0 from_now)
    some (record k { pending = insert (record { key = when; item = to_occur }) k.pending })

  pub yield_on_return : Interrupt W → Option (Interrupt W)
  yield_on_return k = do assert k.in_handler; some (record k { yield_on_return = true })

-- `call` runs a handler on its argument; `settle` is the delayed load.
module _ {W : Type 0} (call : ℕ → ℕ → Interrupt W → Option (Interrupt W)) (settle : W → W) where
  -- The handler, and the machine status around it.
  pub invoke : PendingInterrupt → Interrupt W → Option (Interrupt W)
  invoke to_occur k = do
    k' ←
        call to_occur.handler to_occur.arg
          (record k { world = settle k.world; in_handler = true; status = system_mode })
    some (record k' { status = k.status; in_handler = false })

  -- What CheckIfDue does when the first interrupt `e` is off the list, and the clock is right.
  pub due : Entry PendingInterrupt → Interrupt W → Option (Bool × Interrupt W)
  unfolding invoke
  due e k =
      if is_idle k.status && is_timer e.item.kind && no_entries k.pending
      then some (false, record k { pending = insert e k.pending })
      else (invoke e.item k >>= λ k'. some (true, k'))

  pub check_if_due : Bool → Interrupt W → Option (Bool × Interrupt W)
  unfolding due
  check_if_due advance_clock k = assert (is_off k.level) >> elim k.pending [
    | [] ↦ some (false, k)
    | e ∷ rest ↦
        let taken = record k { pending = rest } in
        if advance_clock && ltb k.total_ticks e.key
        then due e (record taken {
          idle_ticks = k.idle_ticks + (e.key - k.total_ticks);
          total_ticks = e.key;
        })
        else if ltb k.total_ticks e.key
        then some (false, record taken { pending = insert e rest })
        else due e taken
  ]

  -- `while (CheckIfDue(FALSE));`
  pub drain : ℕ → Interrupt W → Option (Interrupt W)
  unfolding check_if_due
  drain zero k = none
  drain (suc fuel) k = do
    (more, k') ← check_if_due false k
    elim more [ true ↦ drain fuel k' | false ↦ some k' ]

  pub idle : ℕ → Interrupt W → Option (Idled W)
  unfolding check_if_due drain
  idle fuel k = do
    (found, k') ← check_if_due true (record k { status = idle_mode })
    elim found [
      | true ↦ do
        k'' ← drain fuel k'
        some (resumed (record k'' { yield_on_return = false; status = system_mode }))
      | false ↦ some (halted k')
    ]

  -- `yield` is Thread::Yield of the current thread.
  module _ (yield : Interrupt W → Option (Interrupt W)) where
    pub one_tick : ℕ → Interrupt W → Option (Interrupt W)
    unfolding drain
    one_tick fuel k = do
      k₁ ← drain fuel (record (tick k k.status) { level = int_off })
      let k₂ = record k₁ { level = int_on }
      if k₂.yield_on_return
          then (do
            k₃ ← yield (record k₂ { yield_on_return = false; status = system_mode })
            some (record k₃ { status = k.status }))
          else some k₂

    -- The result has the level before.
    pub set_level : ℕ → IntStatus → Interrupt W → Option (IntStatus × Interrupt W)
    unfolding one_tick
    set_level fuel now k = do
      assert (is_off now || not k.in_handler)
      k' ←
          if not (is_off now) && is_off k.level
          then one_tick fuel (record k { level = now })
          else some (record k { level = now })
      some (k.level, k')

    pub enable : ℕ → Interrupt W → Option (Interrupt W)
    unfolding set_level
    enable fuel k = set_level fuel int_on k >>= λ r. some (r.1)

-- Timer::TimeOfNextInterrupt of machine/timer.cc, with the number that Random gives.
unfoldable pub time_of_next_interrupt : Bool → ℕ → ℕ
time_of_next_interrupt randomize random =
    if randomize then 1 + random % (timer_ticks * 2) else timer_ticks

-- Timer::TimerExpired with TimerInterruptHandler of threads/system.cc. `handler` and `arg` are TimerHandler
-- and the timer.
pub timer_expired : {W : Type 0} → Bool → ℕ → ℕ → ℕ → Interrupt W → Option (Interrupt W)
unfolding time_of_next_interrupt
timer_expired randomize random handler arg k =
    schedule handler arg (time_of_next_interrupt randomize random) timer_int k >>= λ k'.
    if is_idle k'.status then some k' else yield_on_return k'
