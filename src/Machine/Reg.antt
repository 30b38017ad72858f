-- ===== src/Machine/Reg.antt =====
-- The registers of machine/machine.h that are no general purpose registers, and two that are.
use cmps.Prelude.{ℕ}

abbrev pub stack : ℕ
stack = 29

abbrev pub r31 : ℕ
r31 = 31

abbrev pub hi : ℕ
hi = 32

abbrev pub lo : ℕ
lo = 33

abbrev pub pc : ℕ
pc = 34

abbrev pub next_pc : ℕ
next_pc = 35

abbrev pub prev_pc : ℕ
prev_pc = 36

abbrev pub load : ℕ
load = 37

abbrev pub load_value : ℕ
load_value = 38

abbrev pub bad_vaddr : ℕ
bad_vaddr = 39
