-- ===== src/Userprog/Syscalls/Input/Tests.antt =====
-- What Read of userprog/exception.cc takes on a small machine.
use cmps.Prelude.{
  ℕ, ◌≡◌, refl, Bool, true, false, [], ◌∷◌, Option, none, some, arith, ◌==◌, if◌then◌else◌,
}
use cmps.Userprog.Space.{TranslationEntry}
use cmps.Machine.{Machine, ExceptionType, set_register}
use cmps.Machine.Memory.{write_mem, translate, table_translate, use_entry, store_value, put}
use cmps.Userprog.Syscalls.Processes.{advance_pc}
use cmps.Userprog.Syscalls.Input.{count, read_call}
use cmps.Userprog.Syscalls.Input.Keyboard.{Writes}
use cmps.Userprog.Syscalls.Input.Call.{read_call-keyboard}

abbrev page : Bool → TranslationEntry
page used = record {
  virtual_page = 0;
  physical_page = 2;
  valid = true;
  read_only = false;
  use_bit = used;
  dirty = used;
}

-- No exception can be handled.
abbrev no_handler : ExceptionType → ℕ → Machine → Option Machine
no_handler e addr m = none

-- A Read of `size` bytes to address 5, from `id`.
abbrev machine : (size id : ℕ) → (ℕ → ℕ) → Bool → Machine
machine size id memory used = record {
  main_memory = memory;
  registers = λ r. if r == 4 then 5 else if r == 5 then size else if r == 6 then id else 0;
  tlb = none;
  page_table = some (page used ∷ []);
  page_table_size = 1;
}

abbrev empty : ℕ → ℕ
empty q = 0

-- What the text of 104 and 105 leaves in frame 2, from address 5 of its page on.
abbrev two : ℕ → ℕ
two = put 518 105 (put 517 104 empty)

two-Writes : Writes no_handler (machine 1 0 empty false) 5 0 (104 ∷ 105 ∷ []) (machine 1 0 two true)
unfolding write_mem translate table_translate use_entry store_value
two-Writes =
    (true, machine 1 0 (put 517 104 empty) true, refl, (true, machine 1 0 two true, refl, refl))

-- Of four characters a Read of one takes two, without an end.
read_call-keyboard_example :
    read_call no_handler (104 ∷ 105 ∷ 106 ∷ 107 ∷ []) empty (λ i. none) (machine 1 0 empty false)
    ≡ some (count 2, advance_pc (set_register 2 2 (machine 1 0 two true)))
read_call-keyboard_example =
    read_call-keyboard no_handler empty (machine 1 0 empty false) (machine 1 0 two true)
      (104 ∷ 105 ∷ 106 ∷ 107 ∷ []) (λ i. none) refl (omega arith)
      (omega arith, (omega arith, (omega arith, (omega arith, tt)))) two-Writes

-- The bytes of a file.
abbrev byte : ℕ → Option ℕ
byte i = if i == 0 then some 104 else if i == 1 then some 105 else some 0
