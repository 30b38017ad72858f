-- ===== src/Machine/Cpu/Advance.antt =====
-- Machine::OneInstruction of machine/mipssim.cc as a whole: it goes on to the next instruction, or
-- ends in the kernel.
use cmps.Prelude.{ℕ, ◌<◌, ◌≡◌, ◌⊎◌, inl, inr, ap, subst, ◌∙◌, Option, some, arith, Option-cases}
use cmps.Machine.{Machine, ExceptionType, delayed_load}
use cmps.Machine.Memory.{read_mem}
use cmps.Machine.Memory.Registers.{Raised, kept, failed, read_mem-Read}
use cmps.Machine.Reg
use cmps.Machine.Word.{add}
use cmps.Machine.Decode.{Instruction, decode}
use cmps.Machine.Decode.Fields.{decode-InRange}
use cmps.Machine.Cpu.{Outcome, trapped, completed, exec, finish, advance_pc, one_instruction}
use cmps.Machine.Cpu.Step.{Above, Ends, Kept}
use cmps.Machine.Cpu.Exec.{exec-Kept}

-- The instruction is over: register 0 is zero, the counters have moved on, and the load that was
-- pending is done, so the one that is pending now is of a general purpose register.
pub record Advanced (m m' : Machine) : Type 0 where
  pub zero_kept : m'.registers 0 ≡ 0
  pub previous : m'.registers Reg.prev_pc ≡ m.registers Reg.pc
  pub next : m'.registers Reg.pc ≡ m.registers Reg.next_pc
  pub load_target : m'.registers Reg.load < 32
  pub loaded :
      (m.registers Reg.load ≡ 0)
      ⊎ (m'.registers (m.registers Reg.load) ≡ m.registers Reg.load_value)

finish-Advanced :
    (m n : Machine) (after r v : ℕ)
    → m.registers Reg.load < 32
    → r < 32
    → Above m n
    → Advanced m (finish (completed after r v n))
unfolding finish advance_pc delayed_load
finish-Advanced m n after r v small r_small above = record {
  zero_kept = ground (arith, same_load);
  previous = ground (arith, same_load, same_pc);
  next = ground (arith, same_load, same_next);
  load_target = ground (arith, same_load);
  loaded = ground (arith, same_load, same_value);
}
  where
    same_load : n.registers Reg.load ≡ m.registers Reg.load
    same_load = above Reg.load (omega arith)

    same_value : n.registers Reg.load_value ≡ m.registers Reg.load_value
    same_value = above Reg.load_value (omega arith)

    same_pc : n.registers Reg.pc ≡ m.registers Reg.pc
    same_pc = above Reg.pc (omega arith)

    same_next : n.registers Reg.next_pc ≡ m.registers Reg.next_pc
    same_next = above Reg.next_pc (omega arith)

ending :
    (raise : ExceptionType → ℕ → Machine → Option Machine) (m n m' : Machine) (o : Outcome)
    → m.registers Reg.load < 32
    → n.registers ≡ m.registers
    → Ends raise n o
    → finish o ≡ m'
    → Raised raise m' ⊎ Advanced m m'
unfolding finish
ending raise m n m' (trapped n') small same ends e = inl (subst (Raised raise) e ends)
ending raise m n m' (completed after r v n') small same (r_small, above) e = inr (
    subst (Advanced m) e
      (finish-Advanced m n' after r v small r_small (λ q high. above q high ∙ ap (λ f. f q) same)))

-- If OneInstruction returns, while no load is pending of a register that is not a general purpose
-- one, then either the machine has raised an exception and is as the kernel left it, or the
-- instruction is over: PrevPC is the old PC, PC the old NextPC, register 0 is zero, the load that was
-- pending has reached its register, and no load is pending of a register that is not a general
-- purpose one.
pub one_instruction-Advanced :
    (raise : ExceptionType → ℕ → Machine → Option Machine) (m m' : Machine)
    → m.registers Reg.load < 32
    → one_instruction raise m ≡ some m'
    → Raised raise m' ⊎ Advanced m m'
unfolding one_instruction finish
one_instruction-Advanced raise m m' small e =
    elim (Option-cases (read_mem raise m (m.registers Reg.pc) 4)) [
      | inl dead ↦ absurd (ground (arith, dead, e))
      | inr ((raw, n), run) ↦ elim (read_mem-Read raise m (m.registers Reg.pc) 4 raw n run) [
        | failed is (x, a, n', back) ↦ inl (x, a, n', ground (arith, back, run, is, e))
        | kept value is same ↦ elim (Option-cases (decode value)) [
          | inl unknown ↦ absurd (ground (arith, run, is, unknown, e))
          | inr (i, decoded) ↦
              elim (Option-cases (exec raise i.op_code i n (add (n.registers Reg.next_pc) 4))) [
                | inl stops ↦ absurd (ground (arith, run, is, decoded, stops, e))
                | inr (o, done) ↦
                    ending raise m n m' o small same (ends n i value decoded o done)
                      (ground (arith, run, is, decoded, done, e))
              ]
        ]
      ]
    ]
  where
    ends :
        (n : Machine) (i : Instruction) (value : ℕ)
        → decode value ≡ some i
        → Kept raise n (exec raise i.op_code i n (add (n.registers Reg.next_pc) 4))
    ends n i value decoded =
        let r = decode-InRange value i decoded in
        exec-Kept raise i r.rs_small r.rt_small r.rd_small n (add (n.registers Reg.next_pc) 4)
          i.op_code
