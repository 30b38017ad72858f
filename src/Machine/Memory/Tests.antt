-- ===== src/Machine/Memory/Tests.antt =====
-- Runs of machine/translate.cc on a small machine, and the theorems about it there.
use cmps.Prelude.{
  ℕ, ◌+◌, ◌≤◌, ◌<◌, ◌≡◌, ◌⊎◌, inr, refl, true, false, List, [], ◌∷◌, Option, none, some, set,
}
use cmps.Userprog.Space.{TranslationEntry}
use cmps.Machine.{Machine, ExceptionType}
use cmps.Machine.Memory.{physical, translate, table_translate, use_entry, read_mem, write_mem}
use cmps.Machine.Memory.Address.{Mapped, touched}
use cmps.Machine.Memory.RoundTrip.{read_back, write_mem-read_mem}

abbrev page : ℕ → ℕ → TranslationEntry
page virtual_page physical_page = record {
  virtual_page = virtual_page;
  physical_page = physical_page;
  valid = true;
  read_only = false;
  use_bit = false;
  dirty = false;
}

abbrev table : List TranslationEntry
table = page 0 7 ∷ page 1 3 ∷ []

abbrev machine : Machine
machine = record {
  main_memory = λ p. 0;
  registers = λ r. 0;
  tlb = none;
  page_table = some table;
  page_table_size = 2;
}

machine-Mapped : Mapped machine table
machine-Mapped = record { no_tlb = refl; table_set = refl; size = refl }

-- The kernel stops at any exception.
abbrev stop : ExceptionType → ℕ → Machine → Option Machine
stop e addr m = none

abbrev after : Machine
after = record machine { page_table = some (set table 1 (touched (page 1 3) true)) }

translate_runs : translate machine 260 4 true ≡ some (physical 772, after)
unfolding translate table_translate use_entry
translate_runs = refl

write_mem-read_mem_example :
    (n n' : Machine) × (write_mem stop machine 260 4 70000 ≡ some (true, n))
    × (read_mem stop n 260 4 ≡ some (some (read_back 4 70000), n'))
    × ((q : ℕ) → (q < 772) ⊎ (772 + 4 ≤ q) → n.main_memory q ≡ machine.main_memory q)
write_mem-read_mem_example =
    write_mem-read_mem stop machine table 260 4 machine-Mapped (inr (inr refl)) 70000 772 after
      translate_runs
