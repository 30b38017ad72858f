-- ===== src/Machine/Cpu/Tests.antt =====
-- Runs of OneInstruction of machine/mipssim.cc on a machine with one page of code, and the theorems
-- about it there.
use cmps.Prelude.{
  ℕ, ◌+◌, ◌^◌, ◌≡◌, ◌⊎◌, refl, true, false, [], ◌∷◌, Option, none, some, arith, ◌==◌, if◌then◌else◌,
}
use cmps.Userprog.Space.{TranslationEntry}
use cmps.Machine.{Machine, ExceptionType, set_register}
use cmps.Machine.Word.{extend}
use cmps.Machine.Memory.{read_mem, translate, table_translate, use_entry, load_value}
use cmps.Machine.Memory.Registers.{Raised}
use cmps.Machine.Decode.{
  Instruction, op_add, decode, op_table, special_table, second_code, extra_of,
}
use cmps.Machine.Cpu.{
  completed, finish, one_instruction, exec, exec_load, exec_move, add_overflow, addi_overflow,
  sub_overflow,
}
use cmps.Machine.Cpu.Arith.{Checked, excess, arithmetic-Checked}
use cmps.Machine.Cpu.Advance.{Advanced, one_instruction-Advanced}

-- The kernel stops at any exception.
abbrev stop : ExceptionType → ℕ → Machine → Option Machine
stop e addr m = none

-- r1 and r2 hold 12 and 10, the counters 0 and 4.
abbrev registers : ℕ → ℕ
registers r = if r == 1 then 12 else if r == 2 then 10 else if r == 35 then 4 else 0

-- OR r3, r1, r2 at address 0, as 0x00221825.
abbrev memory : ℕ → ℕ
memory p = if p == 0 then 0x25 else if p == 1 then 0x18 else if p == 2 then 0x22 else 0

abbrev page : TranslationEntry
page = record {
  virtual_page = 0;
  physical_page = 0;
  valid = true;
  read_only = false;
  use_bit = false;
  dirty = false;
}

abbrev machine : Machine
machine = record {
  main_memory = memory;
  registers = registers;
  tlb = none;
  page_table = some (page ∷ []);
  page_table_size = 1;
}

abbrev after_or : Machine
after_or = finish (
    completed 8 0 0 (
      set_register 3 12
        (record machine { page_table = some (record page { use_bit = true } ∷ []) })))

-- OR of 12 and 10 gives 12.
or_runs : one_instruction stop machine ≡ some after_or
unfolding one_instruction read_mem translate table_translate use_entry load_value decode op_table
    special_table second_code extra_of extend exec exec_load exec_move
or_runs = refl

one_instruction-Advanced_example : Raised stop after_or ⊎ Advanced machine after_or
one_instruction-Advanced_example =
    one_instruction-Advanced stop machine after_or (omega arith) or_runs

abbrev add_three : Instruction
add_three = record { op_code = op_add; rs = 1; rt = 2; rd = 3; extra = 5 }

arithmetic-Checked_example :
    Checked stop machine 8 3
      (2 ^ 31)
      (excess 12 + excess 10)
      (add_overflow stop add_three machine 8)
    × Checked stop machine 8 2
        (2 ^ 31)
        (excess 12 + excess 5)
        (addi_overflow stop add_three machine 8)
    × Checked stop machine 8 3
        (excess 10)
        (excess 12 + 2 ^ 31)
        (sub_overflow stop add_three machine 8)
arithmetic-Checked_example =
    arithmetic-Checked stop add_three machine 8 (omega arith) (omega arith) (omega arith)
