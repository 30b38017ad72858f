-- ===== src/Machine.antt =====
-- The simulated MIPS machine of machine/: registers, main memory and address translation.
-- A register and a virtual address are 32-bit patterns, numbers below 2 ^ 32. Main memory is a
-- function from physical addresses to bytes. The host is little endian, and its `char` is signed.
pub mod Reg
pub mod Memory
pub mod Word
pub mod Decode
pub mod Mult
pub mod Cpu
pub mod Interrupt
pub mod Disk
use cmps.Prelude.{
  ℕ, ◌<◌, Bool, List, Option, none, some, ltb, ◌==◌, if◌then◌else◌, ◌>>=◌, ◌>>◌, assert,
}
use cmps.Userprog.Space.{TranslationEntry}

pub data ExceptionType : Type 0 where
  no_exception syscall_exception page_fault_exception : ExceptionType
  read_only_exception bus_error_exception address_error_exception : ExceptionType
  overflow_exception illegal_instr_exception num_exception_types : ExceptionType

pub record Machine : Type 0 where
  pub main_memory : ℕ → ℕ
  pub registers : ℕ → ℕ
  pub tlb : Option (List TranslationEntry)
  pub page_table : Option (List TranslationEntry)
  pub page_table_size : ℕ

abbrev pub num_total_regs : ℕ
num_total_regs = 40

-- `registers[num] = value`
abbrev pub set_register : ℕ → ℕ → Machine → Machine
set_register num value m = record m { registers = λ r. if num == r then value else m.registers r }

unfoldable pub read_register : ℕ → Machine → Option ℕ
read_register num m = do assert (ltb num num_total_regs); some (m.registers num)

unfoldable pub write_register : ℕ → ℕ → Machine → Option Machine
write_register num value m = do assert (ltb num num_total_regs); some (set_register num value m)

-- A load takes effect after the next instruction; register 0 stays 0.
unfoldable pub delayed_load : ℕ → ℕ → Machine → Machine
delayed_load next_reg next_value m =
    let loaded = set_register (m.registers Reg.load) (m.registers Reg.load_value) m in
    set_register 0 0
      (set_register Reg.load_value next_value (set_register Reg.load next_reg loaded))

-- The kernel's ExceptionHandler is the argument; the machine status it runs in is not modelled.
unfoldable pub raise_exception :
    (ExceptionType → Machine → Option Machine) → ExceptionType → ℕ → Machine → Option Machine
unfolding delayed_load
raise_exception handler which bad_vaddr m =
    handler which (delayed_load 0 0 (set_register Reg.bad_vaddr bad_vaddr m))
