-- ===== src/Machine/Interrupt/Ticks.antt =====
-- The ticks that pass in OneTick and Idle of machine/interrupt.cc.
use cmps.Prelude.{ℕ, ◌+◌, ◌-◌, ◌≤◌, ◌≡◌, refl, List, arith, ltb, if◌then◌else◌}
use native.Mathlib.Decide.{dec_lt}
use cmps.Threads.Sequence.{Entry}
use cmps.Machine.Interrupt.{
  Interrupt, PendingInterrupt, MachineStatus, idle_mode, system_mode, user_mode, tick,
}

-- The ticks that pass in a mode.
abbrev pub system_ticks_of : MachineStatus → ℕ
system_ticks_of idle_mode = 0
system_ticks_of system_mode = 10
system_ticks_of user_mode = 0

abbrev pub user_ticks_of : MachineStatus → ℕ
user_ticks_of idle_mode = 1
user_ticks_of system_mode = 0
user_ticks_of user_mode = 1

-- One tick of the mode `s` has passed.
pub record Ticked {W : Type 0} (s : MachineStatus) (k k' : Interrupt W) : Type 0 where
  pub idle : k'.idle_ticks ≡ k.idle_ticks
  pub system : k'.system_ticks ≡ k.system_ticks + system_ticks_of s
  pub user : k'.user_ticks ≡ k.user_ticks + user_ticks_of s
  pub total : k'.total_ticks ≡ k.total_ticks + (system_ticks_of s + user_ticks_of s)

pub tick-Ticked : {W : Type 0} (k : Interrupt W) (s : MachineStatus) → Ticked s k (tick k s)
tick-Ticked k idle_mode = record { idle = refl; system = omega arith; user = refl; total = refl }
tick-Ticked k system_mode = record { idle = refl; system = refl; user = omega arith; total = refl }
tick-Ticked k user_mode = record { idle = refl; system = omega arith; user = refl; total = refl }

-- The clock is put forward to `time`, and the ticks are idle.
pub record Forwarded {W : Type 0} (time : ℕ) (k k' : Interrupt W) : Type 0 where
  pub pending : k'.pending ≡ k.pending
  pub level : k'.level ≡ k.level
  pub status : k'.status ≡ idle_mode
  pub total : k'.total_ticks ≡ time
  pub idle : k'.idle_ticks ≡ k.idle_ticks + (time - k.total_ticks)
  pub system : k'.system_ticks ≡ k.system_ticks
  pub user : k'.user_ticks ≡ k.user_ticks
  pub world : k'.world ≡ k.world

-- The time of the first interrupt, unless it is overdue.
abbrev pub next_time : ℕ → ℕ → ℕ
next_time total key = if ltb total key then key else total

pub next_time-le : (total key : ℕ) → total ≤ next_time total key
next_time-le total key = ground arith

module _ {W : Type 0} where
  -- The state after the clock has been put forward to the interrupt `e`, which is off the list.
  abbrev pub forward :
      Interrupt W → Entry PendingInterrupt → List (Entry PendingInterrupt) → Interrupt W
  forward k e rest =
      if ltb k.total_ticks e.key
      then record k {
        status = idle_mode;
        pending = rest;
        idle_ticks = k.idle_ticks + (e.key - k.total_ticks);
        total_ticks = e.key;
      }
      else record k { status = idle_mode; pending = rest }

  pub record Forward (k : Interrupt W) (e : Entry PendingInterrupt)
      (rest : List (Entry PendingInterrupt)) : Type 0 where
    pub pending : (forward k e rest).pending ≡ rest
    pub level : (forward k e rest).level ≡ k.level
    pub idles : (forward k e rest).status ≡ idle_mode
    pub clock :
        (forward k e rest).total_ticks ≡ (if ltb k.total_ticks e.key then e.key else k.total_ticks)
    pub due_now : e.key ≤ (forward k e rest).total_ticks
    pub idle :
        (forward k e rest).idle_ticks
        ≡ k.idle_ticks + (next_time k.total_ticks e.key - k.total_ticks)
    pub system : (forward k e rest).system_ticks ≡ k.system_ticks
    pub user : (forward k e rest).user_ticks ≡ k.user_ticks
    pub world : (forward k e rest).world ≡ k.world

  pub forward_lem :
      (k : Interrupt W) (e : Entry PendingInterrupt) (rest : List (Entry PendingInterrupt))
      → Forward k e rest
  forward_lem k e rest = elim (dec_lt k.total_ticks e.key) [
    | yes late ↦ record {
      pending = ground (arith, late);
      level = ground (arith, late);
      idles = ground (arith, late);
      clock = ground (arith, late);
      due_now = ground (arith, late);
      idle = ground (arith, late);
      system = ground (arith, late);
      user = ground (arith, late);
      world = ground (arith, late);
    }
    | no now ↦ record {
      pending = ground (arith, now);
      level = ground (arith, now);
      idles = ground (arith, now);
      clock = ground (arith, now);
      due_now = ground (arith, now);
      idle = ground (arith, now);
      system = ground (arith, now);
      user = ground (arith, now);
      world = ground (arith, now);
    }
  ]
