-- ===== src/Userprog/Syscalls/Strings/Tests.antt =====
-- Strings that a small machine has for the system calls of userprog/exception.cc.
use cmps.Prelude.{
  ℕ, ◌≡◌, ◌≤◌, ◌⊎◌, refl, Bool, true, false, [], ◌∷◌, Option, none, some, arith, ◌==◌,
  if◌then◌else◌,
}
use cmps.Userprog.Space.{TranslationEntry}
use cmps.Machine.{Machine, ExceptionType}
use cmps.Machine.Memory.{read_mem, translate, table_translate, use_entry, load_value}
use cmps.Userprog.Syscalls.Strings.{text, unfinished, exec_name, write_loop}
use cmps.Userprog.Syscalls.Strings.Reads.{Reads}
use cmps.Userprog.Syscalls.Strings.Exec.{exec_name_lem}
use cmps.Userprog.Syscalls.Strings.Write.{Outside, reporting, write_loop-stuck}

abbrev page : Bool → TranslationEntry
page used = record {
  virtual_page = 0;
  physical_page = 2;
  valid = true;
  read_only = false;
  use_bit = used;
  dirty = false;
}

-- A system call of this program ends it.
abbrev ended : ExceptionType → ℕ → Machine → Option Machine
ended = reporting (λ m. none)

-- Page 0 is in frame 2, and has the bytes 115 and 104 from address 5 on.
abbrev machine : Bool → Machine
machine used = record {
  main_memory = λ q. if q == 517 then 115 else if q == 518 then 104 else 0;
  registers = λ r. 0;
  tlb = none;
  page_table = some (page used ∷ []);
  page_table_size = 1;
}

machine-Reads : Reads ended (machine false) 5 (115 ∷ 104 ∷ []) (machine true)
unfolding read_mem translate table_translate use_entry load_value
machine-Reads = (
  omega arith,
  omega arith,
  machine true,
  refl,
  (omega arith, omega arith, machine true, refl, refl),
)

exec_name_lem_example :
    (m'' : Machine) × (exec_name ended 5 (machine false) ≡ some (text (115 ∷ 104 ∷ []), m''))
    × ((128 ≤ 2) ⊎ (m'' ≡ machine true))
exec_name_lem_example =
    exec_name_lem ended (115 ∷ 104 ∷ []) 5 (machine false) (machine true) machine-Reads

write_loop-stuck_example :
    (m' : Machine) × (write_loop ended 1000 [] 0 4096 (machine false) ≡ some (unfinished, m'))
    × Outside 4096 m'
    × (m'.main_memory ≡ (machine false).main_memory)
write_loop-stuck_example =
    write_loop-stuck (λ m. none) 1000 4096 [] (machine false)
      (record { no_tlb = refl; table = page false ∷ []; has_table = refl; behind = omega arith })
