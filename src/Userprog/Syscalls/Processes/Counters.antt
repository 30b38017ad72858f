-- ===== src/Userprog/Syscalls/Processes/Counters.antt =====
-- The registers after Join and Exec of userprog/exception.cc.
use cmps.Prelude.{refl, ap, ◌-◌, ℕ, ◌+◌, ◌%◌, ◌^◌, ◌≡◌, ◌≢◌, Bool, true, false, arith}
use cmps.Machine.{Machine, set_register}
use cmps.Machine.Reg
use cmps.Userprog.Syscalls.Processes.{
  Joined, waits_on, no_memory, gone, join_end, exec_end, advance_pc,
}

-- The counters have moved to the next instruction, and nothing else has changed but register 2.
pub record Advanced (m m' : Machine) : Type 0 where
  pub prev_pc : m'.registers Reg.prev_pc ≡ m.registers Reg.pc
  pub pc : m'.registers Reg.pc ≡ m.registers Reg.next_pc
  pub next_pc : m'.registers Reg.next_pc ≡ (m.registers Reg.next_pc + 4) % 2 ^ 32
  pub others :
      (r : ℕ)
      → r ≢ 2
      → r ≢ Reg.pc
      → r ≢ Reg.next_pc
      → r ≢ Reg.prev_pc
      → m'.registers r ≡ m.registers r
  pub memory : m'.main_memory ≡ m.main_memory
  pub page_table : m'.page_table ≡ m.page_table

advance_pc-Advanced :
    (m m₀ : Machine)
    → ((r : ℕ) → r ≢ 2 → m₀.registers r ≡ m.registers r)
    → m₀.main_memory ≡ m.main_memory
    → m₀.page_table ≡ m.page_table
    → Advanced m (advance_pc m₀)
unfolding advance_pc
advance_pc-Advanced m m₀ same memory table = record {
  prev_pc = same Reg.pc (omega arith);
  pc = same Reg.next_pc (omega arith);
  next_pc = ap (λ z. (z + 4) % 2 ^ 32) (same Reg.next_pc (omega arith));
  others = λ r two pc next_pc prev_pc. ground (arith, same r two, pc, next_pc, prev_pc);
  memory = memory;
  page_table = table;
}

join_end-Advanced : (j : Joined) (m : Machine) → Advanced m (join_end j m)
unfolding join_end
join_end-Advanced (waits_on s) m =
    advance_pc-Advanced m (set_register 2 0 m) (λ r two. ground (arith, two)) refl refl
join_end-Advanced no_memory m = advance_pc-Advanced m m (λ r two. refl) refl refl
join_end-Advanced gone m =
    advance_pc-Advanced m (set_register 2 (2 ^ 32 - 1) m) (λ r two. ground (arith, two)) refl refl

-- Join and Exec go on at the next instruction, on every branch.
pub ends-Advanced :
    (j : Joined) (opened : Bool) (pid : ℕ) (m : Machine)
    → Advanced m (join_end j m) × Advanced m (exec_end opened pid m)
unfolding exec_end
ends-Advanced j true pid m = (
  join_end-Advanced j m,
  advance_pc-Advanced m (set_register 2 pid m) (λ r two. ground (arith, two)) refl refl,
)
ends-Advanced j false pid m =
    (join_end-Advanced j m, advance_pc-Advanced m m (λ r two. refl) refl refl)
