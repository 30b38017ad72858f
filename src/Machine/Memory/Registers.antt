-- ===== src/Machine/Memory/Registers.antt =====
-- Machine::Translate, Machine::ReadMem and Machine::WriteMem of machine/translate.cc leave the
-- registers alone, unless they raise an exception.
use cmps.Prelude.{
  ℕ, ◌/◌, ◌%◌, ◌≡◌, inl, inr, Bool, true, false, List, Option, none, some, arith, Bool-cases,
  Option-cases,
}
use cmps.Userprog.Space.{TranslationEntry, page_size}
use cmps.Machine.{Machine, ExceptionType}
use cmps.Machine.Memory.{
  Translation, physical, raised, misaligned, translate, table_translate, tlb_translate, read_mem,
  write_mem, load_value, store_value,
}

abbrev SameRegisters : Machine → Option (Translation × Machine) → Type 0
SameRegisters m out =
    (t : Translation) (m' : Machine) → out ≡ some (t, m') → m'.registers ≡ m.registers

table_translate-SameRegisters :
    (m : Machine) (table : List TranslationEntry) (vpn offset size : ℕ) (w : Bool)
    → SameRegisters m (table_translate m table vpn offset size w)
unfolding table_translate
table_translate-SameRegisters m table vpn offset size w t m' e = ground arith

tlb_translate-SameRegisters :
    (m : Machine) (entries : List TranslationEntry) (vpn offset size : ℕ) (w : Bool)
    → SameRegisters m (tlb_translate m entries vpn offset size w)
unfolding tlb_translate
tlb_translate-SameRegisters m entries vpn offset size w t m' e = ground arith

translate-SameRegisters :
    (m : Machine) (addr size : ℕ) (w : Bool) → SameRegisters m (translate m addr size w)
unfolding translate
translate-SameRegisters m addr size w t m' e = elim (Bool-cases (misaligned addr size)) [
  | inl bad ↦ ground (arith, bad, e)
  | inr fine ↦ elim (Option-cases m.tlb) [
    | inl off ↦ elim (Option-cases m.page_table) [
      | inl nothing ↦ absurd (ground (arith, fine, off, nothing, e))
      | inr (table, set_table) ↦
          table_translate-SameRegisters m table (addr / page_size) (addr % page_size) size w t m'
            (ground (arith, fine, off, set_table, e))
    ]
    | inr (entries, on) ↦
        tlb_translate-SameRegisters m entries (addr / page_size) (addr % page_size) size w t m'
          (ground (arith, fine, on, e))
  ]
]

module _ (raise : ExceptionType → ℕ → Machine → Option Machine) where
  abbrev pub Raised : Machine → Type 0
  Raised m' = (e : ExceptionType) × (a : ℕ) × (n : Machine) × (raise e a n ≡ some m')

  -- The value is read with the registers as they are, or the exception was raised.
  pub data Read (m m' : Machine) (v : Option ℕ) : Type 0 where
    kept : (value : ℕ) → v ≡ some value → m'.registers ≡ m.registers → Read m m' v
    failed : v ≡ none → Raised m' → Read m m' v

  pub read_mem-Read :
      (m : Machine) (addr size : ℕ) (v : Option ℕ) (m' : Machine)
      → read_mem raise m addr size ≡ some (v, m')
      → Read m m' v
  unfolding read_mem
  read_mem-Read m addr size v m' e = elim (Option-cases (translate m addr size false)) [
    | inl stops ↦ absurd (ground (arith, stops, e))
    | inr ((physical p, n), run) ↦ elim (Option-cases (load_value n.main_memory p size)) [
      | inl odd ↦ absurd (ground (arith, run, odd, e))
      | inr (value, loaded) ↦ kept value (ground (arith, run, loaded, e)) (
          ground
            (arith, translate-SameRegisters m addr size false (physical p) n run, run, loaded, e))
    ]
    | inr ((raised x, n), run) ↦ elim (Option-cases (raise x addr n)) [
      | inl dead ↦ absurd (ground (arith, run, dead, e))
      | inr (n', back) ↦
          failed (ground (arith, run, back, e)) (x, addr, n, ground (arith, run, back, e))
    ]
  ]

  pub data Written (m m' : Machine) (ok : Bool) : Type 0 where
    kept : ok ≡ true → m'.registers ≡ m.registers → Written m m' ok
    failed : ok ≡ false → Raised m' → Written m m' ok

  pub write_mem-Written :
      (m : Machine) (addr size value : ℕ) (ok : Bool) (m' : Machine)
      → write_mem raise m addr size value ≡ some (ok, m')
      → Written m m' ok
  unfolding write_mem
  write_mem-Written m addr size value ok m' e = elim (Option-cases (translate m addr size true)) [
    | inl stops ↦ absurd (ground (arith, stops, e))
    | inr ((physical p, n), run) ↦ elim (Option-cases (store_value n.main_memory p size value)) [
      | inl odd ↦ absurd (ground (arith, run, odd, e))
      | inr (memory, stored) ↦ kept (ground (arith, run, stored, e)) (
          ground
            (arith, translate-SameRegisters m addr size true (physical p) n run, run, stored, e))
    ]
    | inr ((raised x, n), run) ↦ elim (Option-cases (raise x addr n)) [
      | inl dead ↦ absurd (ground (arith, run, dead, e))
      | inr (n', back) ↦
          failed (ground (arith, run, back, e)) (x, addr, n, ground (arith, run, back, e))
    ]
  ]
