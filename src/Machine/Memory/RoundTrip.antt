-- ===== src/Machine/Memory/RoundTrip.antt =====
-- Machine::ReadMem and Machine::WriteMem of machine/translate.cc: what is written is read.
use cmps.Prelude.{
  ℕ, ◌+◌, ◌/◌, ◌%◌, ◌^◌, ◌≤◌, ◌<◌, ◌≡◌, ◌⊎◌, inl, inr, ap, ◌∙◌, true, false, List, Option, some,
  arith, get_elem?, set, ◌==◌, if◌then◌else◌, length-set, get_elem?-set_self,
}
use cmps.Userprog.Space.{TranslationEntry, page_size}
use cmps.Machine.{Machine, ExceptionType}
use cmps.Machine.Memory.{
  physical, translate, load_value, store_value, read_mem, write_mem, sign_extend_byte, put,
}
use cmps.Machine.Memory.Address.{
  Mapped, Hit, unaligned, beyond, invalid, protected, no_frame, Translated, touched, translate_lem,
}

abbrev pub AccessSize : ℕ → Type 0
AccessSize size = (size ≡ 1) ⊎ (size ≡ 2) ⊎ (size ≡ 4)

-- What reading back a value of `size` bytes gives.
abbrev pub read_back : ℕ → ℕ → ℕ
read_back size value =
    if size == 1
    then sign_extend_byte (value % 2 ^ 8)
    else if size == 2
    then value % 2 ^ 16
    else value % 2 ^ 32

-- What a store leaves: the value at its place, and everything else.
pub record Stored (memory : ℕ → ℕ) (p size value : ℕ) (memory' : ℕ → ℕ) : Type 0 where
  pub written : store_value memory p size value ≡ some memory'
  pub back : load_value memory' p size ≡ some (read_back size value)
  pub elsewhere : (q : ℕ) → (q < p) ⊎ (p + size ≤ q) → memory' q ≡ memory q

store_lem :
    (memory : ℕ → ℕ) (p size value : ℕ)
    → AccessSize size
    → (memory' : ℕ → ℕ) × Stored memory p size value memory'
unfolding store_value load_value
store_lem memory p size value (inl one) = (
  put p (value % 256) memory,
  record { written = ground arith; back = ground arith; elsewhere = λ q away. ground arith },
)
store_lem memory p size value (inr (inl two)) = (
  put (p + 1) (value / 2 ^ 8 % 256) (put p (value % 256) memory),
  record { written = ground arith; back = ground arith; elsewhere = λ q away. ground arith },
)
store_lem memory p size value (inr (inr four)) = (
  put (p + 3) (value / 2 ^ 24 % 256) (
      put (p + 2) (value / 2 ^ 16 % 256)
        (put (p + 1) (value / 2 ^ 8 % 256) (put p (value % 256) memory))),
  record { written = ground arith; back = ground arith; elsewhere = λ q away. ground arith },
)

module _ (raise : ExceptionType → ℕ → Machine → Option Machine) (m : Machine)
    (table : List TranslationEntry) (addr size : ℕ) (v : Mapped m table) (s : AccessSize size) where
  -- A hit for writing is a hit for reading afterwards, whatever the store did to the memory.
  read_after-Hit :
      (p : ℕ) (m' : Machine) (memory : ℕ → ℕ)
      → Hit m table addr size true p m'
      → (m'' : Machine) × (translate (record m' { main_memory = memory }) addr size false
          ≡ some (physical p, m''))
        × (m''.main_memory ≡ memory)
  read_after-Hit p m' memory h = check (translate_lem n table' addr size false mapped s)
    where
      n : Machine
      n = record m' { main_memory = memory }

      table' : List TranslationEntry
      table' = set table (addr / page_size) (touched h.entry true)

      mapped : Mapped n table'
      mapped = record {
        no_tlb = ground (arith, h.state, v.no_tlb);
        table_set = ground (arith, h.state);
        size =
            length-set table (addr / page_size) (touched h.entry true)
            ∙ v.size
            ∙ ground (arith, h.state);
      }

      here : get_elem? table' (addr / page_size) ≡ some (touched h.entry true)
      here = get_elem?-set_self table (addr / page_size) h.entry (touched h.entry true) h.found

      same :
          (entry : TranslationEntry)
          → get_elem? table' (addr / page_size) ≡ some entry
          → entry ≡ touched h.entry true
      same entry e = ground (arith, here)

      check :
          Translated n table' addr size false (translate n addr size false)
          → (m'' : Machine) × (translate n addr size false ≡ some (physical p, m''))
            × (m''.main_memory ≡ memory)
      check (inl (p', m'', run, hit)) = (
        m'',
        ground (arith, run, same hit.entry hit.found, hit.address, h.address),
        ground (arith, hit.state),
      )
      check (inr (e, run, unaligned a _)) = absurd (ground (arith, h.aligned))
      check (inr (e, run, beyond b _)) =
          absurd (omega (arith, h.within, ap (λ (t : Machine). t.page_table_size) h.state))
      check (inr (e, run, invalid entry found stale _)) =
          absurd (ground (arith, same entry found, h.valid))
      check (inr (e, run, protected entry found both _)) = absurd (ground (arith, both))
      check (inr (e, run, no_frame entry found big _)) =
          absurd (ground (arith, same entry found, h.frame))

  -- With a page table and no TLB, for an access of 1, 2 or 4 bytes that translates for writing to `p`:
  -- WriteMem succeeds, a ReadMem of the same address and size then gives the value, cut to the size
  -- and, for one byte, extended by its sign, and no byte but those written has changed.
  pub write_mem-read_mem :
      (value p : ℕ) (m' : Machine)
      → translate m addr size true ≡ some (physical p, m')
      → (n n' : Machine) × (write_mem raise m addr size value ≡ some (true, n))
        × (read_mem raise n addr size ≡ some (some (read_back size value), n'))
        × ((q : ℕ) → (q < p) ⊎ (p + size ≤ q) → n.main_memory q ≡ m.main_memory q)
  unfolding write_mem read_mem
  write_mem-read_mem value p m' run = finish (translate_lem m table addr size true v s)
    where
      finish :
          Translated m table addr size true (translate m addr size true)
          → (n n' : Machine) × (write_mem raise m addr size value ≡ some (true, n))
            × (read_mem raise n addr size ≡ some (some (read_back size value), n'))
            × ((q : ℕ) → (q < p) ⊎ (p + size ≤ q) → n.main_memory q ≡ m.main_memory q)
      finish (inr (e, run', why)) = absurd (ground (arith, run, run'))
      finish (inl (p', n, run', hit)) =
          let (memory, stored) = store_lem n.main_memory p' size value s in
          let (n', again, kept) = read_after-Hit p' n memory hit in
          (
            record n { main_memory = memory },
            n',
            ground (arith, run', run, stored.written),
            rw (again, kept, stored.back),
            λ q away.
                stored.elsewhere q (ground (arith, run, run', away)) ∙ ground (arith, hit.state),
          )
