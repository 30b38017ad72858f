-- ===== src/Userprog/Syscalls/Strings/Reads.antt =====
-- A string in the memory of a user program, as ReadMem delivers it to userprog/exception.cc.
use cmps.Prelude.{ℕ, ◌+◌, ◌%◌, ◌^◌, ◌<◌, ◌≡◌, ◌≢◌, List, [], ◌∷◌, Option, some, arith}
use cmps.Machine.{Machine, ExceptionType}
use cmps.Machine.Memory.{read_mem, sign_extend_byte}

module _ (raise : ExceptionType → ℕ → Machine → Option Machine) where
  -- ReadMem gives the bytes of the string, none of them 0, and then 0.
  abbrev pub Reads : Machine → ℕ → List ℕ → Machine → Type 0
  Reads m addr [] m' = read_mem raise m addr 1 ≡ some (some 0, m')
  Reads m addr (b ∷ bs) m' =
      (0 < b)
      × (b < 256)
      × (m₁ : Machine) × (read_mem raise m addr 1 ≡ some (some (sign_extend_byte b), m₁))
      × Reads m₁ ((addr + 1) % 2 ^ 32) bs m'

pub low_byte : (b : ℕ) → b < 256 → sign_extend_byte b % 256 ≡ b
low_byte b h = ground (arith, h)

pub sign_extend_byte-nonzero : (b : ℕ) → 0 < b → sign_extend_byte b ≢ 0
sign_extend_byte-nonzero b h e = ground (arith, h, e)
