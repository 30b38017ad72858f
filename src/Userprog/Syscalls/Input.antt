-- ===== src/Userprog/Syscalls/Input.antt =====
-- The system call Read of userprog/exception.cc, with SRead.
-- `typed` is the text that scanf delivers for "%s", and `byte` gives the bytes that Read of the open file
-- delivers, `none` where it fails its ASSERT. The size is an int, as its pattern. A failed ASSERT is `none`.
-- The array of SRead takes no part in a Read from a file but for the byte that is read.
pub mod Keyboard
pub mod File
pub mod Call
mod Tests
use cmps.Prelude.{
  ℕ, zero, suc, ◌+◌, ◌%◌, ◌^◌, Bool, true, false, ◌&&◌, List, [], ◌∷◌, ◌++◌, Option, none, some,
  ltb, ◌==◌, if◌then◌else◌, ◌>>=◌, length, get_or,
}
use cmps.Machine.{Machine, ExceptionType, read_register, write_register}
use cmps.Machine.Memory.{write_mem, sign_extend_byte, put}
use cmps.Userprog.Syscalls.Processes.{advance_pc}

-- What SRead returns. `overrun` is a byte stored outside the buffer, or a buffer of a negative size.
pub data Count : Type 0 where
  count : ℕ → Count
  overrun : Count

-- The buffer has 10 bytes more than asked for.
abbrev pub spare : ℕ
spare = 10

-- The buffer behind scanf; `fresh` is what it held.
abbrev pub scanned : List ℕ → (ℕ → ℕ) → ℕ → ℕ
scanned typed fresh = λ i. get_or (typed ++ 0 ∷ []) i (fresh i)

-- `size + 1`, as the source computes it.
abbrev pub bound : ℕ → ℕ
bound size = (size + 1) % 2 ^ 32

-- The buffer has a size, scanf stores in it, and so does the end behind `size + 1` characters.
abbrev pub buffer_fits : (size num : ℕ) → Bool
buffer_fits size num =
    let room = (size + spare) % 2 ^ 32 in
    ltb room (2 ^ 31) && ltb num room && (ltb (bound size) (2 ^ 31))

-- The buffer with its end set, and Result.
abbrev pub cut : ℕ → ℕ → (ℕ → ℕ) → (ℕ → ℕ) × ℕ
cut size num buffer =
    if ltb (bound size) num
    then (put (bound size) 0 buffer, bound size)
    else (put (num + 1) 0 buffer, num + 1)

-- The rounds of the loop over a file: none for a negative size.
abbrev pub rounds_of_file : ℕ → ℕ
rounds_of_file size = if ltb size (2 ^ 31) then size else 0

module _ (raise : ExceptionType → ℕ → Machine → Option Machine) where
  -- The loop over the buffer: `n` rounds from `num` on. What WriteMem returns is not looked at.
  pub copy_out : (n num : ℕ) → (ℕ → ℕ) → ℕ → Machine → Option (ℕ × Machine)
  copy_out zero num buffer addr m = some (num, m)
  copy_out (suc n) num buffer addr m =
      write_mem raise m ((addr + num) % 2 ^ 32) 1 (sign_extend_byte (buffer num)) >>= λ r.
      elim (buffer num == 0) [
        | true ↦ some (num, r.1)
        | false ↦ copy_out n (num + 1) buffer addr r.1
      ]

  pub read_keyboard : List ℕ → (ℕ → ℕ) → (addr size : ℕ) → Machine → Option (Count × Machine)
  read_keyboard typed fresh addr size m =
      let num = length typed in
      if buffer_fits size num
      then (let (buffer, result) = cut size num (scanned typed fresh) in
          copy_out result 0 buffer addr m >>= λ r. some (count r.0, r.1))
      else some (overrun, m)

  -- The loop over the bytes of a file.
  pub read_file : (n num : ℕ) → (ℕ → Option ℕ) → ℕ → Machine → Option (ℕ × Machine)
  read_file zero num byte addr m = some (num, m)
  read_file (suc n) num byte addr m = do
    b ← byte num
    r ← write_mem raise m ((addr + num) % 2 ^ 32) 1 (sign_extend_byte b)
    elim (b == 0) [ true ↦ some (num, r.1) | false ↦ read_file n (num + 1) byte addr r.1 ]

  pub sread :
      List ℕ → (ℕ → ℕ) → (ℕ → Option ℕ) → (addr size id : ℕ) → Machine → Option (Count × Machine)
  sread typed fresh byte addr size id m =
      if id == 0
      then read_keyboard typed fresh addr size m
      else (read_file (rounds_of_file size) 0 byte addr m >>= λ r. some (count r.0, r.1))

  -- The case of Read in ExceptionHandler. An overrun ends it.
  pub read_call : List ℕ → (ℕ → ℕ) → (ℕ → Option ℕ) → Machine → Option (Count × Machine)
  read_call typed fresh byte m = do
    arg1 ← read_register 4 m
    arg2 ← read_register 5 m
    arg3 ← read_register 6 m
    r ← sread typed fresh byte arg1 arg2 arg3 m
    elim r.0 [
      | count n ↦ write_register 2 n r.1 >>= λ m'. some (count n, advance_pc m')
      | overrun ↦ some (overrun, r.1)
    ]
