-- ===== src/Machine/Memory/Address.antt =====
-- Machine::Translate of machine/translate.cc with a page table: every result, and why.
use cmps.Prelude.{
  ℕ, ◌+◌, ◌*◌, ◌/◌, ◌%◌, ◌≤◌, ◌<◌, ◌≡◌, ◌⊎◌, inl, inr, refl, Bool, true, false, ◌&&◌, List, Option,
  none, some, arith, length, get_elem?, set, if◌then◌else◌, Bool-cases, get_elem?-of_lt, set_same,
}
use native.Mathlib.Decide.{dec_lt}
use cmps.Userprog.Space.{TranslationEntry, page_size, num_phys_pages, memory_size}
use cmps.Machine.{
  Machine, ExceptionType, page_fault_exception, read_only_exception, bus_error_exception,
  address_error_exception,
}
use cmps.Machine.Memory.{Translation, physical, raised, misaligned, table_translate, translate}

-- The machine has the page table `table` and no TLB.
pub record Mapped (m : Machine) (table : List TranslationEntry) : Type 0 where
  pub no_tlb : m.tlb ≡ none
  pub table_set : m.page_table ≡ some table
  pub size : length table ≡ m.page_table_size

abbrev pub touched : TranslationEntry → Bool → TranslationEntry
touched entry writing = record entry {
  use_bit = true;
  dirty = if writing then true else entry.dirty;
}

-- The access may go on at physical address `p`.
pub record Hit (m : Machine) (table : List TranslationEntry) (addr size : ℕ) (writing : Bool)
    (p : ℕ) (m' : Machine) : Type 0 where
  pub entry : TranslationEntry
  pub aligned : misaligned addr size ≡ false
  pub within : addr / page_size < m.page_table_size
  pub found : get_elem? table (addr / page_size) ≡ some entry
  pub valid : entry.valid ≡ true
  pub allowed : entry.read_only && writing ≡ false
  pub frame : entry.physical_page < num_phys_pages
  pub address : p ≡ entry.physical_page * page_size + addr % page_size
  pub inside : p + size ≤ memory_size
  pub state :
      m' ≡ record m { page_table = some (set table (addr / page_size) (touched entry writing)) }

-- Why an access raises an exception.
pub data Refused (m : Machine) (table : List TranslationEntry) (addr size : ℕ) (writing : Bool)
    (e : ExceptionType) : Type 0 where
  unaligned :
      misaligned addr size ≡ true
      → e ≡ address_error_exception
      → Refused m table addr size writing e
  beyond :
      m.page_table_size ≤ addr / page_size
      → e ≡ address_error_exception
      → Refused m table addr size writing e
  invalid :
      (entry : TranslationEntry)
      → get_elem? table (addr / page_size) ≡ some entry
      → entry.valid ≡ false
      → e ≡ page_fault_exception
      → Refused m table addr size writing e
  protected :
      (entry : TranslationEntry)
      → get_elem? table (addr / page_size) ≡ some entry
      → (entry.read_only ≡ true) × (writing ≡ true)
      → e ≡ read_only_exception
      → Refused m table addr size writing e
  no_frame :
      (entry : TranslationEntry)
      → get_elem? table (addr / page_size) ≡ some entry
      → num_phys_pages ≤ entry.physical_page
      → e ≡ bus_error_exception
      → Refused m table addr size writing e

abbrev pub Translated :
    Machine → List TranslationEntry → ℕ → ℕ → Bool → Option (Translation × Machine) → Type 0
Translated m table addr size writing out =
    ((p : ℕ) × (m' : Machine) × (out ≡ some (physical p, m')) × Hit m table addr size writing p m')
    ⊎ ((e : ExceptionType) × (out ≡ some (raised e, m)) × Refused m table addr size writing e)

-- An aligned access of 1, 2 or 4 bytes does not leave its page.
in_page :
    (addr size : ℕ)
    → (size ≡ 1) ⊎ (size ≡ 2) ⊎ (size ≡ 4)
    → misaligned addr size ≡ false
    → addr % page_size + size ≤ page_size
in_page addr size s a = ground arith

module _ (m : Machine) (table : List TranslationEntry) (addr size : ℕ) (writing : Bool)
    (v : Mapped m table) (s : (size ≡ 1) ⊎ (size ≡ 2) ⊎ (size ≡ 4)) where
  translate-table :
      misaligned addr size ≡ false
      → translate m addr size writing
        ≡ table_translate m table (addr / page_size) (addr % page_size) size writing
  unfolding translate
  translate-table a = ground (arith, v.no_tlb, v.table_set)

  with_entry :
      (entry : TranslationEntry)
      → misaligned addr size ≡ false
      → addr / page_size < m.page_table_size
      → get_elem? table (addr / page_size) ≡ some entry
      → Translated m table addr size writing (translate m addr size writing)
  with_entry entry a w found = elim (Bool-cases entry.valid) [
    | inr stale ↦ inr (
      page_fault_exception,
      rw (translate-table a) (unfold table_translate in ground (arith, found)),
      invalid entry found stale refl,
    )
    | inl live ↦ elim (Bool-cases (entry.read_only && writing)) [
      | inl both ↦ inr (
        read_only_exception,
        rw (translate-table a) (unfold table_translate in ground (arith, found, unchanged)),
        protected entry found (ground arith) refl,
      )
      | inr free ↦ elim (dec_lt entry.physical_page num_phys_pages) [
        | no big ↦ inr (
          bus_error_exception,
          rw (translate-table a) (unfold table_translate in ground (arith, found, unchanged)),
          no_frame entry found (omega arith) refl,
        )
        | yes small ↦ inl (
          entry.physical_page * page_size + addr % page_size,
          record m { page_table = some (set table (addr / page_size) (touched entry writing)) },
          rw (translate-table a)
              (unfold table_translate in ground (arith, found, in_page addr size s a)),
          record {
            entry = entry;
            aligned = a;
            within = w;
            found = found;
            valid = live;
            allowed = free;
            frame = small;
            address = refl;
            inside = omega (arith, in_page addr size s a);
            state = refl;
          },
        )
      ]
    ]
  ]
    where
      unchanged : some (set table (addr / page_size) entry) ≡ m.page_table
      unchanged = rw (set_same table (addr / page_size) entry found, v.table_set)

  -- Translate with a page table and no TLB never fails an assertion, for an access of 1, 2 or 4
  -- bytes. Where it gives a physical address, this is the byte of the entry's frame at the offset, the
  -- access lies in memory, and only the use and dirty bits of the entry change. Where it raises an
  -- exception, the cause is the one that this exception is for, and the machine is unchanged.
  pub translate_lem : Translated m table addr size writing (translate m addr size writing)
  translate_lem = elim (Bool-cases (misaligned addr size)) [
    | inl bad ↦ inr (address_error_exception, unfold translate in rw bad, unaligned bad refl)
    | inr a ↦ elim (dec_lt (addr / page_size) m.page_table_size) [
      | no big ↦ inr (
        address_error_exception,
        rw (translate-table a) (unfold table_translate in ground arith),
        beyond (omega arith) refl,
      )
      | yes w ↦
          let (entry, found) = get_elem?-of_lt table (addr / page_size) (omega (arith, v.size)) in
          with_entry entry a w found
    ]
  ]
