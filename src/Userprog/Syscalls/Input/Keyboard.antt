-- ===== src/Userprog/Syscalls/Input/Keyboard.antt =====
-- What Read of userprog/exception.cc takes from the keyboard.
use cmps.Prelude.{
  ◌&&◌, ◌-◌, ℕ, zero, suc, ◌+◌, ◌%◌, ◌^◌, ◌<◌, ◌≤◌, ◌≡◌, refl, ap, sym, ◌∙◌, Bool, false, List, [],
  ◌∷◌, ◌++◌, Option, some, ltb, ◌==◌, if◌then◌else◌, length, get_or, arith, Bool-cases, inl, inr,
  ltb→lt, length-append, subst,
}
use cmps.Machine.{Machine, ExceptionType}
use cmps.Machine.Memory.{write_mem, sign_extend_byte, put}
use cmps.Userprog.Syscalls.Input.{
  count, overrun, scanned, cut, bound, buffer_fits, copy_out, read_keyboard,
}

-- The characters of a text are not 0.
abbrev pub IsText : List ℕ → Type 0
IsText [] = Unit {0}
IsText (b ∷ bs) = (0 < b) × IsText bs

-- The first `n` bytes of a text.
abbrev pub first : ℕ → List ℕ → List ℕ
first zero bs = []
first (suc n) [] = []
first (suc n) (b ∷ bs) = b ∷ first n bs

get_or-default : (bs : List ℕ) (i d e : ℕ) → i < length bs → get_or bs i d ≡ get_or bs i e
get_or-default [] i d e h = absurd (omega (arith, h))
get_or-default (b ∷ bs) zero d e h = refl
get_or-default (b ∷ bs) (suc i) d e h = get_or-default bs i d e (omega (arith, h))

-- The characters that are cut off do not show.
get_or-first :
    (n : ℕ) (bs cs : List ℕ) (i d : ℕ)
    → i < n
    → n ≤ length bs
    → get_or (bs ++ cs) i d ≡ get_or (first n bs) i 0
get_or-first zero bs cs i d h l = absurd (omega (arith, h))
get_or-first (suc n) [] cs i d h l = absurd (omega (arith, l))
get_or-first (suc n) (b ∷ bs) cs zero d h l = refl
get_or-first (suc n) (b ∷ bs) cs (suc i) d h l =
    get_or-first n bs cs i d (omega (arith, h)) (omega (arith, l))

pub length-first : (n : ℕ) (bs : List ℕ) → n ≤ length bs → length (first n bs) ≡ n
length-first zero bs l = refl
length-first (suc n) [] l = absurd (omega (arith, l))
length-first (suc n) (b ∷ bs) l = ap suc (length-first n bs (omega (arith, l)))

pub first-IsText : (n : ℕ) (bs : List ℕ) → IsText bs → IsText (first n bs)
first-IsText zero bs chars = tt
first-IsText (suc n) [] chars = tt
first-IsText (suc n) (b ∷ bs) chars = (chars.0, first-IsText n bs chars.1)

same_sum : (n : ℕ) → n ≡ n + 0
same_sum n = omega arith

-- The bytes that Read puts into memory, where `b` is the most that it takes: all of the text and its end, or
-- `b` bytes of it.
abbrev pub taken : ℕ → List ℕ → List ℕ
taken b typed = if ltb b (length typed) then first b typed else typed ++ 0 ∷ []

-- The number that Read returns.
abbrev pub taken_count : ℕ → List ℕ → ℕ
taken_count b typed = if ltb b (length typed) then b else length typed

-- A text of `num` characters is shorter than a buffer of `size + 10` bytes, and `size` is not below -1.
abbrev pub has_room : (size num : ℕ) → Bool
has_room size num =
    if ltb size (2 ^ 31 - 10) then ltb num (size + 10) else (size == 2 ^ 32 - 1 && ltb num 9)

-- `size + 1` bytes are taken, and none for -1.
abbrev pub limit : ℕ → ℕ
limit size = if size == 2 ^ 32 - 1 then 0 else size + 1

has_room-buffer_fits : (size num : ℕ) → size < 2 ^ 32 → buffer_fits size num ≡ has_room size num
has_room-buffer_fits size num word = ground (arith, word)

limit-bound : (size : ℕ) → size < 2 ^ 32 → bound size ≡ limit size
limit-bound size word = ground (arith, word)

module _ (raise : ExceptionType → ℕ → Machine → Option Machine) where
  -- WriteMem of the bytes `bs`, one behind the other from `addr + num` on, leads from `m` to `m'`, whether
  -- it returns TRUE or FALSE.
  abbrev pub Writes : Machine → (addr num : ℕ) → List ℕ → Machine → Type 0
  Writes m addr num [] m' = m ≡ m'
  Writes m addr num (b ∷ bs) m' =
      (ok : Bool) × (m₁ : Machine) × (write_mem raise m ((addr + num) % 2 ^ 32) 1
          (sign_extend_byte b)
        ≡ some (ok, m₁))
      × Writes m₁ addr (num + 1) bs m'

  copy_out-end :
      (bs : List ℕ) (n num addr : ℕ) (buffer : ℕ → ℕ) (m m' : Machine)
      → IsText bs
      → ((i : ℕ) → i ≤ length bs → buffer (num + i) ≡ get_or (bs ++ 0 ∷ []) i 0)
      → Writes m addr num (bs ++ 0 ∷ []) m'
      → length bs < n
      → copy_out raise n num buffer addr m ≡ some (num + length bs, m')
  unfolding copy_out
  copy_out-end bs zero num addr buffer m m' chars holds writes enough =
      absurd (omega (arith, enough))
  copy_out-end [] (suc n) num addr buffer m m' chars holds (ok, m₁, run, done) enough =
      let here : buffer num ≡ 0 = ap buffer (omega arith) ∙ holds 0 (omega arith) in
      rw (here, run) (λ i. some (same_sum num i, done i))
  copy_out-end (b ∷ bs) (suc n) num addr buffer m m' chars holds (ok, m₁, run, rest) enough =
      let here : buffer num ≡ b = ap buffer (omega arith) ∙ holds 0 (omega arith) in
      let more : (b == 0) ≡ false = ground (arith, chars.0) in
      let again =
        copy_out-end bs n (num + 1) addr buffer m₁ m' chars.1
          (λ i l. ap buffer (omega arith) ∙ holds (suc i) (omega (arith, l))) rest
          (omega (arith, enough)) in
      rw (here, run, more) (again ∙ ap (λ z. some (z, m')) (omega arith))

  copy_out-cut :
      (bs : List ℕ) (num addr : ℕ) (buffer : ℕ → ℕ) (m m' : Machine)
      → IsText bs
      → ((i : ℕ) → i < length bs → buffer (num + i) ≡ get_or bs i 0)
      → Writes m addr num bs m'
      → copy_out raise (length bs) num buffer addr m ≡ some (num + length bs, m')
  unfolding copy_out
  copy_out-cut [] num addr buffer m m' chars holds done = λ i. some (same_sum num i, done i)
  copy_out-cut (b ∷ bs) num addr buffer m m' chars holds (ok, m₁, run, rest) =
      let here : buffer num ≡ b = ap buffer (omega arith) ∙ holds 0 (omega arith) in
      let more : (b == 0) ≡ false = ground (arith, chars.0) in
      let again =
        copy_out-cut bs (num + 1) addr buffer m₁ m' chars.1
          (λ i l. ap buffer (omega arith) ∙ holds (suc i) (omega (arith, l))) rest in
      rw (here, run, more) (again ∙ ap (λ z. some (z, m')) (omega arith))

  cut_copied :
      (typed : List ℕ) (fresh : ℕ → ℕ) (addr b : ℕ) (m m' : Machine)
      → IsText typed
      → b < length typed
      → Writes m addr 0 (first b typed) m'
      → copy_out raise b 0 (put b 0 (scanned typed fresh)) addr m ≡ some (b, m')
  cut_copied typed fresh addr b m m' chars longer writes =
      let size_lem = length-first b typed (omega (arith, longer)) in
      let buffer = put b 0 (scanned typed fresh) in
      ap (λ z. copy_out raise z 0 buffer addr m) (sym size_lem)
      ∙ copy_out-cut (first b typed) 0 addr buffer m m' (first-IsText b typed chars)
          (λ i l. ground (
            arith,
            l,
            size_lem,
            get_or-first b typed (0 ∷ []) i (fresh i) (omega (arith, l, size_lem))
                (omega (arith, longer)),
          ))
          writes
      ∙ ap (λ z. some (z, m')) (omega (arith, size_lem))

  whole_copied :
      (typed : List ℕ) (fresh : ℕ → ℕ) (addr : ℕ) (m m' : Machine)
      → IsText typed
      → Writes m addr 0 (typed ++ 0 ∷ []) m'
      → (let num = length typed in
          copy_out raise (num + 1) 0 (put (num + 1) 0 (scanned typed fresh)) addr m
          ≡ some (num, m'))
  whole_copied typed fresh addr m m' chars writes =
      let num = length typed in
      let buffer = put (num + 1) 0 (scanned typed fresh) in
      copy_out-end typed (num + 1) 0 addr buffer m m' chars
        (λ i l. ground (
          arith,
          l,
          get_or-default (typed ++ 0 ∷ []) i (fresh i) 0
              (omega (arith, l, length-append typed (0 ∷ []))),
        ))
        writes (omega arith)
      ∙ ap (λ z. some (z, m')) (omega arith)

  bound_copied :
      (typed : List ℕ) (fresh : ℕ → ℕ) (addr size : ℕ) (m m' : Machine)
      → IsText typed
      → Writes m addr 0 (taken (bound size) typed) m'
      → (let (buffer, result) = cut size (length typed) (scanned typed fresh) in
          copy_out raise result 0 buffer addr m)
        ≡ some (taken_count (bound size) typed, m')
  bound_copied typed fresh addr size m m' chars writes =
      let b = bound size in
      let part = λ (z : Bool). Writes m addr 0 (if z then first b typed else typed ++ 0 ∷ []) m' in
      elim (Bool-cases (ltb b (length typed))) [
        | inl longer ↦
            rw
              (
                longer,
                cut_copied typed fresh addr b m m' chars (ltb→lt b (length typed) longer)
                    (subst part longer writes),
              )
              refl
        | inr whole ↦
            rw (whole, whole_copied typed fresh addr m m' chars (subst part whole writes)) refl
      ]

  pub read_keyboard_lem :
      (typed : List ℕ) (fresh : ℕ → ℕ) (addr size : ℕ) (m m' : Machine)
      → size < 2 ^ 32
      → IsText typed
      → Writes m addr 0 (taken (limit size) typed) m'
      → read_keyboard raise typed fresh addr size m
        ≡ some (
            if has_room size (length typed)
            then (count (taken_count (limit size) typed), m')
            else (overrun, m))
  unfolding read_keyboard
  read_keyboard_lem typed fresh addr size m m' word chars writes =
      let num = length typed in
      let same = sym (has_room-buffer_fits size num word) in
      elim (Bool-cases (buffer_fits size num)) [
        | inr outside ↦ rw (outside, same ∙ outside) refl
        | inl inside ↦
            rw
              (
                inside,
                same ∙ inside,
                bound_copied typed fresh addr size m m' chars (
                    subst (λ b. Writes m addr 0 (taken b typed) m') (sym (limit-bound size word))
                      writes),
              )
              (ap (λ b. some (count (taken_count b typed), m')) (limit-bound size word))
      ]
