-- ===== src/Userprog/Syscalls/Strings/Exec.antt =====
-- The file name that Exec of userprog/exception.cc reads.
use cmps.Prelude.{
  ℕ, suc, zero, ◌+◌, ◌%◌, ◌^◌, ◌<◌, ◌≤◌, ◌≡◌, ◌≢◌, ◌⊎◌, inl, inr, refl, ap, true, false, List, [],
  ◌∷◌, ◌++◌, Option, none, some, arith, ltb, leb, ◌==◌, if◌then◌else◌, length, ◌>>=◌, Option-cases,
  Bool-cases, ==-of_ne,
}
use mathlib.Core.List.{append-nil, append_assoc}
use native.Mathlib.Decide.{ℕ_discrete}
use cmps.Machine.{Machine, ExceptionType}
use cmps.Machine.Memory.{read_mem, sign_extend_byte}
use cmps.Userprog.Syscalls.Strings.{
  Text, text, no_translation, too_long, overrun, name_loop, exec_name, num_buff,
}
use cmps.Userprog.Syscalls.Strings.Reads.{Reads, low_byte, sign_extend_byte-nonzero}

module _ (raise : ExceptionType → ℕ → Machine → Option Machine) where
  -- The loop with the ReadMem in front of a round.
  abbrev next : ℕ → List ℕ → ℕ → ℕ → Machine → Option (Text × Machine)
  next fuel taken i addr m = read_mem raise m addr 1 >>= λ r. elim r.0 [
    | none ↦ some (no_translation, r.1)
    | some value ↦ name_loop raise fuel taken i addr value r.1
  ]

  -- One round on a byte that is not 0, while the buffer has room.
  round :
      (fuel : ℕ) (taken : List ℕ) (i addr b : ℕ) (m : Machine)
      → 0 < b
      → b < 256
      → i < 128
      → name_loop raise (suc fuel) taken i addr (sign_extend_byte b) m
        ≡ next fuel (taken ++ b ∷ []) (i + 1) ((addr + 1) % 2 ^ 32) m
  unfolding name_loop
  round fuel taken i addr b m pos byte room =
      let more : (sign_extend_byte b == 0) ≡ false =
        ==-of_ne (sign_extend_byte b) 0 (sign_extend_byte-nonzero b pos) in
      let le : leb i num_buff ≡ true = ground (arith, room) in
      let lt : ltb i num_buff ≡ true = ground (arith, room) in
      rw (more, le, lt)
        (ap (λ z. next fuel (taken ++ z ∷ []) (i + 1) ((addr + 1) % 2 ^ 32) m) (low_byte b byte))

  -- A byte that is not 0 where the buffer is full.
  full :
      (fuel : ℕ) (taken : List ℕ) (addr b : ℕ) (m : Machine)
      → 0 < b
      → name_loop raise (suc fuel) taken 128 addr (sign_extend_byte b) m ≡ some (overrun, m)
  unfolding name_loop
  full fuel taken addr b m pos =
      let more : (sign_extend_byte b == 0) ≡ false =
        ==-of_ne (sign_extend_byte b) 0 (sign_extend_byte-nonzero b pos) in
      rw more

  ended :
      (fuel : ℕ) (taken : List ℕ) (i addr : ℕ) (m : Machine)
      → name_loop raise (suc fuel) taken i addr 0 m
        ≡ some (if ltb i 128 then text taken else overrun, m)
  unfolding name_loop
  ended fuel taken i addr m = refl

  next_fits :
      (bs : List ℕ) (fuel : ℕ) (taken : List ℕ) (i addr : ℕ) (m m' : Machine)
      → Reads raise m addr bs m'
      → i + length bs < 128
      → length bs < fuel
      → next fuel taken i addr m ≡ some (text (taken ++ bs), m')
  next_fits bs zero taken i addr m m' reads fits enough = absurd (omega (arith, enough))
  next_fits [] (suc fuel) taken i addr m m' reads fits enough =
      let lt : ltb i 128 ≡ true = ground (arith, fits) in
      rw (reads, ended fuel taken i addr m', lt, append-nil taken)
  next_fits (b ∷ bs) (suc fuel) taken i addr m m' (pos, byte, m₁, e, reads) fits enough = rw (
    e,
    round fuel taken i addr b m₁ pos byte (omega (arith, fits)),
    next_fits bs fuel (taken ++ b ∷ []) (i + 1) ((addr + 1) % 2 ^ 32) m₁ m' reads
        (omega (arith, fits)) (omega (arith, enough)),
    append_assoc taken (b ∷ []) bs,
  )

  next_overruns :
      (bs : List ℕ) (fuel : ℕ) (taken : List ℕ) (i addr : ℕ) (m m' : Machine)
      → Reads raise m addr bs m'
      → i ≤ 128
      → 128 ≤ i + length bs
      → 129 ≤ fuel + i
      → (m'' : Machine) × (next fuel taken i addr m ≡ some (overrun, m''))
  next_overruns bs zero taken i addr m m' reads le long enough = absurd (omega (arith, enough, le))
  next_overruns [] (suc fuel) taken i addr m m' reads le long enough =
      let ge : ltb i 128 ≡ false = ground (arith, long) in
      (m', rw (reads, ended fuel taken i addr m', ge))
  next_overruns (b ∷ bs) (suc fuel) taken i addr m m' (pos, byte, m₁, e, reads) le long enough =
      elim (ℕ_discrete i 128) [
        | yes here ↦ (m₁, rw (e, here, full fuel taken addr b m₁ pos))
        | no away ↦
            let (m'', run) =
              next_overruns bs fuel (taken ++ b ∷ []) (i + 1) ((addr + 1) % 2 ^ 32) m₁ m' reads
                (omega (arith, le, away)) (omega (arith, long)) (omega (arith, enough)) in
            (m'', rw (e, round fuel taken i addr b m₁ pos byte (omega (arith, le, away)), run))
      ]

  -- Where ReadMem delivers a string of non-zero bytes with a zero byte behind it: Exec ends its
  -- reading of the name. If the string has less than 128 bytes, the file name is the string, and all
  -- of it has been read, the zero byte included; if it has more, Exec stores a byte behind the end of
  -- its buffer.
  pub exec_name_lem :
      (bs : List ℕ) (addr : ℕ) (m m' : Machine)
      → Reads raise m addr bs m'
      → (m'' : Machine) × (exec_name raise addr m
          ≡ some (if ltb (length bs) 128 then text bs else overrun, m''))
        × ((128 ≤ length bs) ⊎ (m'' ≡ m'))
  unfolding exec_name
  exec_name_lem bs addr m m' reads = elim (Bool-cases (ltb (length bs) 128)) [
    | inl short ↦ (
      m',
      rw short
          (next_fits bs 129 [] 0 addr m m' reads (ground (arith, short)) (ground (arith, short))),
      inr refl,
    )
    | inr long ↦
        let (m'', run) =
          next_overruns bs 129 [] 0 addr m m' reads (omega arith) (ground (arith, long))
            (omega arith) in
        (m'', rw long run, inl (ground (arith, long)))
  ]

  next_not_too_long :
      (fuel : ℕ) (taken : List ℕ) (i addr value : ℕ) (m m' : Machine)
      → i ≤ 128
      → name_loop raise fuel taken i addr value m ≢ some (too_long, m')
  unfolding name_loop
  next_not_too_long zero taken i addr value m m' le e = ground (arith, e)
  next_not_too_long (suc fuel) taken i addr value m m' le e =
      elim (Option-cases (read_mem raise m ((addr + 1) % 2 ^ 32) 1)) [
        | inl x ↦ ground (arith, e, x, le)
        | inr ((none, m₁), x) ↦ ground (arith, e, x, le)
        | inr ((some v, m₁), x) ↦ elim (ℕ_discrete i 128) [
          | yes here ↦ ground (arith, e, x, here)
          | no away ↦ ground (
            arith,
            e,
            x,
            le,
            away,
            next_not_too_long fuel (taken ++ value % 256 ∷ []) (i + 1) ((addr + 1) % 2 ^ 32) v m₁ m'
                (omega (arith, le, away)),
          )
        ]
      ]

  -- The branch for a name that is too long is never taken.
  pub exec_name-not_too_long :
      (addr : ℕ) (m m' : Machine) → exec_name raise addr m ≢ some (too_long, m')
  unfolding exec_name
  exec_name-not_too_long addr m m' e = elim (Option-cases (read_mem raise m addr 1)) [
    | inl x ↦ ground (arith, e, x)
    | inr ((none, m₁), x) ↦ ground (arith, e, x)
    | inr ((some v, m₁), x) ↦
        ground (arith, e, x, next_not_too_long 129 [] 0 addr v m₁ m' (omega arith))
  ]
