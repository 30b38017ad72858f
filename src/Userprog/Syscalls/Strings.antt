-- ===== src/Userprog/Syscalls/Strings.antt =====
-- The strings that the system calls Exec and Write of userprog/exception.cc take from the memory of a
-- user program, byte by byte, and the outer switch of ExceptionHandler.
-- `raise` is Machine::RaiseException with the kernel behind it. A failed ASSERT is `none`.
pub mod Reads
pub mod Exec
pub mod Write
mod Tests
use cmps.Prelude.{
  ℕ, zero, suc, ◌+◌, ◌%◌, ◌^◌, Bool, true, false, List, [], ◌∷◌, ◌++◌, Option, none, some, ltb, leb,
  ◌==◌, if◌then◌else◌, ◌>>=◌,
}
use cmps.Machine.{
  Machine, ExceptionType, no_exception, syscall_exception, page_fault_exception,
  illegal_instr_exception,
}
use cmps.Machine.Memory.{read_mem}

-- What a string in a buffer comes to. `overrun` is a byte stored behind the end of the buffer,
-- `unfinished` a loop that goes on.
pub data Text : Type 0 where
  text : List ℕ → Text
  no_translation too_long overrun unfinished : Text

-- ExceptionHandler, for the thread called main or for another; `system_call` is its inner switch. No
-- counter is advanced where an exception of the program is reported.
pub exception_handler : (Machine → Option Machine) → Bool → ExceptionType → Machine → Option Machine
exception_handler system_call is_main no_exception m = some m
exception_handler system_call is_main syscall_exception m = system_call m
exception_handler system_call is_main page_fault_exception m = some m
exception_handler system_call is_main illegal_instr_exception m = none
exception_handler system_call is_main _ m = if is_main then none else some m

abbrev pub num_buff : ℕ
num_buff = 128

abbrev pub write_buff : ℕ
write_buff = 500

module _ (raise : ExceptionType → ℕ → Machine → Option Machine) where
  -- The loop of Exec: `value` has been read at `addr`, and `taken` is in the buffer.
  unfoldable pub name_loop : ℕ → List ℕ → ℕ → ℕ → ℕ → Machine → Option (Text × Machine)
  name_loop zero taken i addr value m = some (unfinished, m)
  name_loop (suc fuel) taken i addr value m =
      if value == 0
      then some (if ltb i num_buff then text taken else overrun, m)
      else if leb i num_buff
      then (if ltb i num_buff
          then (read_mem raise m ((addr + 1) % 2 ^ 32) 1 >>= λ r. elim r.0 [
            | none ↦ some (no_translation, r.1)
            | some value' ↦
                name_loop fuel (taken ++ value % 256 ∷ []) (i + 1) ((addr + 1) % 2 ^ 32) value' r.1
          ])
          else some (overrun, m))
      else some (too_long, m)

  -- The file name of Exec.
  unfoldable pub exec_name : ℕ → Machine → Option (Text × Machine)
  exec_name addr m = read_mem raise m addr 1 >>= λ r. elim r.0 [
    | none ↦ some (no_translation, r.1)
    | some value ↦ name_loop (num_buff + 1) [] 0 addr value r.1
  ]

  -- The loop of Write, which tries a byte again where it cannot be read.
  unfoldable pub write_loop : ℕ → List ℕ → ℕ → ℕ → Machine → Option (Text × Machine)
  write_loop zero taken j addr m = some (unfinished, m)
  write_loop (suc fuel) taken j addr m = read_mem raise m ((addr + j) % 2 ^ 32) 1 >>= λ r.
      elim r.0 [
        | none ↦ write_loop fuel taken j addr r.1
        | some value ↦
            if leb write_buff j
            then some (overrun, r.1)
            else if value % 256 == 0
            then some (text taken, r.1)
            else write_loop fuel (taken ++ value % 256 ∷ []) (j + 1) addr r.1
      ]
