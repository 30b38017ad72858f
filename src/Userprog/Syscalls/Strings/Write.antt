-- ===== src/Userprog/Syscalls/Strings/Write.antt =====
-- The string that Write of userprog/exception.cc reads.
use cmps.Prelude.{
  ℕ, suc, zero, ◌+◌, ◌/◌, ◌%◌, ◌^◌, ◌<◌, ◌≤◌, ◌≡◌, ◌⊎◌, inl, inr, refl, ap, ◌∙◌, true, false, List,
  [], ◌∷◌, ◌++◌, Option, none, some, arith, ltb, leb, ◌==◌, if◌then◌else◌, length, Bool-cases,
}
use mathlib.Core.List.{append-nil, append_assoc}
use native.Mathlib.Decide.{ℕ_discrete}
use cmps.Machine.{
  address_error_exception, Machine, ExceptionType, raise_exception, delayed_load, set_register,
}
use cmps.Machine.Memory.{raised, read_mem, sign_extend_byte, translate, table_translate}
use cmps.Machine.Reg
use cmps.Userprog.Space.{TranslationEntry, page_size}
use cmps.Userprog.Syscalls.Strings.{
  text, overrun, unfinished, write_loop, write_buff, exception_handler,
}
use cmps.Userprog.Syscalls.Strings.Reads.{Reads, low_byte}

next_address :
    (addr j a : ℕ) → (addr + j) % 2 ^ 32 ≡ a → (addr + (j + 1)) % 2 ^ 32 ≡ (a + 1) % 2 ^ 32
next_address addr j a e = omega (arith, e)

module _ (raise : ExceptionType → ℕ → Machine → Option Machine) (addr : ℕ) where
  round :
      (fuel : ℕ) (taken : List ℕ) (j a b value : ℕ) (m m₁ : Machine)
      → (addr + j) % 2 ^ 32 ≡ a
      → read_mem raise m a 1 ≡ some (some value, m₁)
      → value % 256 ≡ b
      → 0 < b
      → j < 500
      → write_loop raise (suc fuel) taken j addr m
        ≡ write_loop raise fuel (taken ++ b ∷ []) (j + 1) addr m₁
  unfolding write_loop
  round fuel taken j a b value m m₁ place e low pos small =
      let room : leb write_buff j ≡ false = ground (arith, small) in
      let more : (b == 0) ≡ false = ground (arith, pos) in rw (place, e, room, low, more)

  -- A byte behind the end of the buffer.
  full :
      (fuel : ℕ) (taken : List ℕ) (j a value : ℕ) (m m₁ : Machine)
      → (addr + j) % 2 ^ 32 ≡ a
      → read_mem raise m a 1 ≡ some (some value, m₁)
      → 500 ≤ j
      → write_loop raise (suc fuel) taken j addr m ≡ some (overrun, m₁)
  unfolding write_loop
  full fuel taken j a value m m₁ place e large =
      let no_room : leb write_buff j ≡ true = ground (arith, large) in rw (place, e, no_room)

  loop_fits :
      (bs : List ℕ) (fuel : ℕ) (taken : List ℕ) (j a : ℕ) (m m' : Machine)
      → (addr + j) % 2 ^ 32 ≡ a
      → Reads raise m a bs m'
      → j + length bs < 500
      → length bs < fuel
      → write_loop raise fuel taken j addr m ≡ some (text (taken ++ bs), m')
  unfolding write_loop
  loop_fits bs zero taken j a m m' place reads fits enough = absurd (omega (arith, enough))
  loop_fits [] (suc fuel) taken j a m m' place reads fits enough =
      let room : leb write_buff j ≡ false = ground (arith, fits) in
      rw (place, reads, room, append-nil taken)
  loop_fits (b ∷ bs) (suc fuel) taken j a m m' place (pos, byte, m₁, e, reads) fits enough =
      round fuel taken j a b (sign_extend_byte b) m m₁ place e (low_byte b byte) pos
        (omega (arith, fits))
      ∙ loop_fits bs fuel (taken ++ b ∷ []) (j + 1) ((a + 1) % 2 ^ 32) m₁ m'
          (next_address addr j a place) reads (omega (arith, fits)) (omega (arith, enough))
      ∙ ap (λ z. some (text z, m')) (append_assoc taken (b ∷ []) bs)

  loop_overruns :
      (bs : List ℕ) (fuel : ℕ) (taken : List ℕ) (j a : ℕ) (m m' : Machine)
      → (addr + j) % 2 ^ 32 ≡ a
      → Reads raise m a bs m'
      → j ≤ 500
      → 500 ≤ j + length bs
      → 501 ≤ fuel + j
      → (m'' : Machine) × (write_loop raise fuel taken j addr m ≡ some (overrun, m''))
  loop_overruns bs zero taken j a m m' place reads le long enough =
      absurd (omega (arith, enough, le))
  loop_overruns [] (suc fuel) taken j a m m' place reads le long enough =
      (m', full fuel taken j a 0 m m' place reads (omega (arith, long)))
  loop_overruns (b ∷ bs) (suc fuel) taken j a m m' place (pos, byte, m₁, e, reads) le long enough =
      elim (ℕ_discrete j 500) [
        | yes here ↦
            (m₁, full fuel taken j a (sign_extend_byte b) m m₁ place e (omega (arith, here)))
        | no away ↦
            let (m'', run) =
              loop_overruns bs fuel (taken ++ b ∷ []) (j + 1) ((a + 1) % 2 ^ 32) m₁ m'
                (next_address addr j a place) reads (omega (arith, le, away)) (omega (arith, long))
                (omega (arith, enough)) in
            (
              m'',
              round fuel taken j a b (sign_extend_byte b) m m₁ place e (low_byte b byte) pos
                    (omega (arith, le, away))
                  ∙ run,
            )
      ]

  -- A string of less than 500 bytes is read whole; a longer one is stored past the end of the buffer.
  pub write_loop_lem :
      (bs : List ℕ) (m m' : Machine)
      → addr < 2 ^ 32
      → Reads raise m addr bs m'
      → (m'' : Machine) × (write_loop raise 501 [] 0 addr m
          ≡ some (if ltb (length bs) 500 then text bs else overrun, m''))
        × ((500 ≤ length bs) ⊎ (m'' ≡ m'))
  write_loop_lem bs m m' word reads = elim (Bool-cases (ltb (length bs) 500)) [
    | inl short ↦ (
      m',
      rw short (
          loop_fits bs 501 [] 0 addr m m' (omega (arith, word)) reads (ground (arith, short))
            (ground (arith, short))),
      inr refl,
    )
    | inr long ↦
        let (m'', run) =
          loop_overruns bs 501 [] 0 addr m m' (omega (arith, word)) reads (omega arith)
            (ground (arith, long)) (omega arith) in
        (m'', rw long run, inl (ground (arith, long)))
  ]

-- The machine has a page table, and the address is behind its last page.
pub record Outside (addr : ℕ) (m : Machine) : Type 0 where
  pub no_tlb : m.tlb ≡ none
  pub table : List TranslationEntry
  pub has_table : m.page_table ≡ some table
  pub behind : m.page_table_size ≤ addr / page_size

-- RaiseException and ExceptionHandler for a thread that is not the main one.
abbrev pub reporting : (Machine → Option Machine) → ExceptionType → ℕ → Machine → Option Machine
reporting system_call = raise_exception (exception_handler system_call false)

translate-behind :
    (addr : ℕ) (m : Machine)
    → Outside addr m
    → translate m addr 1 false ≡ some (raised address_error_exception, m)
unfolding translate table_translate
translate-behind addr m o =
    let behind : leb m.page_table_size (addr / page_size) ≡ true = ground (arith, o.behind) in
    simp (o.no_tlb, o.has_table, behind)

abbrev reported : ℕ → Machine → Machine
reported addr m = delayed_load 0 0 (set_register Reg.bad_vaddr addr m)

read_mem-behind :
    (f : Machine → Option Machine) (addr : ℕ) (m : Machine)
    → Outside addr m
    → read_mem (reporting f) m addr 1 ≡ some (none, reported addr m)
unfolding read_mem raise_exception exception_handler
read_mem-behind f addr m o = rw (translate-behind addr m o)

reported-Outside : (addr : ℕ) (m : Machine) → Outside addr m → Outside addr (reported addr m)
unfolding delayed_load
reported-Outside addr m o = record {
  no_tlb = o.no_tlb;
  table = o.table;
  has_table = o.has_table;
  behind = o.behind;
}

reported_memory : (addr : ℕ) (m : Machine) → (reported addr m).main_memory ≡ m.main_memory
unfolding delayed_load
reported_memory addr m = refl

-- For a thread that is not the main one, on a machine with a page table and no TLB, where the address
-- lies behind the last page: no ASSERT fails and the loop of Write goes on after any number of rounds,
-- with the main memory as it was.
pub write_loop-stuck :
    (f : Machine → Option Machine) (fuel addr : ℕ) (taken : List ℕ) (m : Machine)
    → Outside (addr % 2 ^ 32) m
    → (m' : Machine) × (write_loop (reporting f) fuel taken 0 addr m ≡ some (unfinished, m'))
      × Outside (addr % 2 ^ 32) m'
      × (m'.main_memory ≡ m.main_memory)
unfolding write_loop
write_loop-stuck f zero addr taken m o = (m, refl, o, refl)
write_loop-stuck f (suc fuel) addr taken m o =
    let place : (addr + 0) % 2 ^ 32 ≡ addr % 2 ^ 32 = omega arith in
    let (m', run, o', same) =
      write_loop-stuck f fuel addr taken (reported (addr % 2 ^ 32) m)
        (reported-Outside (addr % 2 ^ 32) m o) in
    (
      m',
      rw (place, read_mem-behind f (addr % 2 ^ 32) m o) run,
      o',
      same ∙ reported_memory (addr % 2 ^ 32) m,
    )
