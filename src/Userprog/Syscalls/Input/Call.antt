-- ===== src/Userprog/Syscalls/Input/Call.antt =====
-- What the system call Read of userprog/exception.cc leaves behind.
use cmps.Prelude.{
  ℕ, ◌^◌, ◌<◌, ◌≡◌, refl, List, Option, some, ltb, if◌then◌else◌, length, Bool-cases, inl, inr,
}
use cmps.Machine.{Machine, ExceptionType, read_register, write_register, set_register}
use cmps.Userprog.Syscalls.Processes.{advance_pc}
use cmps.Userprog.Syscalls.Input.{count, overrun, sread, read_call}
use cmps.Userprog.Syscalls.Input.Keyboard.{
  IsText, Writes, has_room, limit, taken, taken_count, read_keyboard_lem,
}

-- The number of bytes asked for, none for a negative size.
abbrev pub asked : ℕ → ℕ
asked size = if ltb size (2 ^ 31) then size else 0

module _ (raise : ExceptionType → ℕ → Machine → Option Machine) (fresh : ℕ → ℕ)
    (m m' : Machine) where
  -- For a Read of `size` bytes from id 0, an int, where scanf delivers a text of non-zero bytes, and
  -- WriteMem of the bytes below returns, TRUE or FALSE. For a `size` from 0 to 2^31 - 11 and a text of
  -- less than `size + 10` bytes: a text of at most `size + 1` bytes goes into memory with its end, of
  -- a longer one its first `size + 1` bytes without an end. For a `size` of -1 and a text of less than
  -- 9 bytes, nothing goes into memory but the end of an empty text. In these cases register 2 then has
  -- the number of the bytes before the end, and the program goes on behind the call. For any other
  -- `size` or text, a byte is stored outside the buffer, or the buffer has a negative size.
  pub read_call-keyboard :
      (typed : List ℕ) (byte : ℕ → Option ℕ)
      → m.registers 6 ≡ 0
      → m.registers 5 < 2 ^ 32
      → IsText typed
      → Writes raise m (m.registers 4) 0 (taken (limit (m.registers 5)) typed) m'
      → (let n = taken_count (limit (m.registers 5)) typed in
          read_call raise typed fresh byte m
          ≡ some (
              if has_room (m.registers 5) (length typed)
              then (count n, advance_pc (set_register 2 n m'))
              else (overrun, m)))
  unfolding read_call sread read_register write_register
  read_call-keyboard typed byte keyboard word chars writes =
      rw
        (
          keyboard,
          read_keyboard_lem raise typed fresh (m.registers 4) (m.registers 5) m m' word chars
              writes,
        )
        (elim (Bool-cases (has_room (m.registers 5) (length typed))) [
          | inl inside ↦ rw inside refl
          | inr outside ↦ rw outside refl
        ])
