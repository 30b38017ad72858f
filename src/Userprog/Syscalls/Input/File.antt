-- ===== src/Userprog/Syscalls/Input/File.antt =====
-- What Read of userprog/exception.cc takes from a file, and what the system call leaves.
use cmps.Prelude.{
  ℕ, zero, suc, ◌+◌, ◌<◌, ◌≡◌, ap, sym, ◌∙◌, false, List, [], ◌∷◌, ◌++◌, Option, some, ltb, ◌==◌,
  if◌then◌else◌, length, arith, Bool-cases, inl, inr, ltb→lt, subst,
}
use cmps.Machine.{Machine, ExceptionType}
use cmps.Userprog.Syscalls.Input.{read_file}
use cmps.Userprog.Syscalls.Input.Keyboard.{IsText, Writes, first, first-IsText, length-first}

-- The open file delivers the bytes `bs` from number `num` on.
abbrev pub Delivers : (ℕ → Option ℕ) → ℕ → List ℕ → Type 0
Delivers byte num [] = Unit {0}
Delivers byte num (b ∷ bs) = (byte num ≡ some b) × Delivers byte (num + 1) bs

zero_more : (n : ℕ) → n ≡ n + 0
zero_more n = omega arith

-- The bytes that Read puts into memory: those of a text that is shorter than `size`, and its end, or `size`
-- bytes of it.
abbrev pub file_taken : ℕ → List ℕ → List ℕ
file_taken size bs = if ltb (length bs) size then bs ++ 0 ∷ [] else first size bs

module _ (raise : ExceptionType → ℕ → Machine → Option Machine) (byte : ℕ → Option ℕ)
    (addr : ℕ) where
  read_file-full :
      (bs : List ℕ) (num : ℕ) (m m' : Machine)
      → IsText bs
      → Delivers byte num bs
      → Writes raise m addr num bs m'
      → read_file raise (length bs) num byte addr m ≡ some (num + length bs, m')
  unfolding read_file
  read_file-full [] num m m' chars from done = λ i. some (zero_more num i, done i)
  read_file-full (b ∷ bs) num m m' chars from (ok, m₁, run, rest) =
      let more : (b == 0) ≡ false = ground (arith, chars.0) in
      rw (from.0, run, more)
        (read_file-full bs (num + 1) m₁ m' chars.1 from.1 rest
          ∙ ap (λ z. some (z, m')) (omega arith))

  read_file-ended :
      (bs : List ℕ) (n num : ℕ) (m m' : Machine)
      → IsText bs
      → Delivers byte num (bs ++ 0 ∷ [])
      → Writes raise m addr num (bs ++ 0 ∷ []) m'
      → length bs < n
      → read_file raise n num byte addr m ≡ some (num + length bs, m')
  unfolding read_file
  read_file-ended bs zero num m m' chars from writes enough = absurd (omega (arith, enough))
  read_file-ended [] (suc n) num m m' chars from (ok, m₁, run, done) enough =
      rw (from.0, run) (λ i. some (zero_more num i, done i))
  read_file-ended (b ∷ bs) (suc n) num m m' chars from (ok, m₁, run, rest) enough =
      let more : (b == 0) ≡ false = ground (arith, chars.0) in
      rw (from.0, run, more)
        (read_file-ended bs n (num + 1) m₁ m' chars.1 from.1 rest (omega (arith, enough))
          ∙ ap (λ z. some (z, m')) (omega arith))

  pub read_file_lem :
      (bs : List ℕ) (size : ℕ) (m m' : Machine)
      → IsText bs
      → Delivers byte 0 (file_taken size bs)
      → Writes raise m addr 0 (file_taken size bs) m'
      → read_file raise size 0 byte addr m
        ≡ some (if ltb (length bs) size then length bs else size, m')
  read_file_lem bs size m m' chars from writes = elim (Bool-cases (ltb (length bs) size)) [
    | inl ends ↦ rw ends (
        read_file-ended bs size 0 m m' chars
          (subst (λ b. Delivers byte 0 (if b then bs ++ 0 ∷ [] else first size bs)) ends from)
          (subst (λ b. Writes raise m addr 0 (if b then bs ++ 0 ∷ [] else first size bs) m') ends
            writes)
          (ltb→lt (length bs) size ends)
        ∙ ap (λ z. some (z, m')) (omega arith))
    | inr full ↦
        let size_lem : length (first size bs) ≡ size =
          length-first size bs (ground (arith, full)) in
        rw full (
          ap (λ z. read_file raise z 0 byte addr m) (sym size_lem)
          ∙ read_file-full (first size bs) 0 m m' (first-IsText size bs chars)
              (subst (λ b. Delivers byte 0 (if b then bs ++ 0 ∷ [] else first size bs)) full from)
              (subst (λ b. Writes raise m addr 0 (if b then bs ++ 0 ∷ [] else first size bs) m')
                full writes)
          ∙ ap (λ z. some (z, m')) (omega (arith, size_lem)))
  ]
