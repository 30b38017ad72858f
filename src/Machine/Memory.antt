-- ===== src/Machine/Memory.antt =====
-- Machine::Translate, Machine::ReadMem and Machine::WriteMem of machine/translate.cc.
-- `x & (2^k - 1)` is written `x % 2 ^ k`. A failed ASSERT, and an entry past the end of a table, is
-- `none`.
pub mod Address
pub mod RoundTrip
pub mod Registers
mod Tests
use cmps.Prelude.{
  ℕ, suc, ◌+◌, ◌-◌, ◌*◌, ◌/◌, ◌%◌, ◌^◌, Bool, true, false, not, ◌&&◌, ◌||◌, List, [], ◌∷◌, Option,
  none, some, get_elem?, set, ltb, leb, ◌==◌, if◌then◌else◌, ◌>>=◌, ◌>>◌, assert,
}
use cmps.Userprog.Space.{TranslationEntry, page_size, num_phys_pages, memory_size}
use cmps.Machine.{
  Machine, ExceptionType, page_fault_exception, read_only_exception, bus_error_exception,
  address_error_exception,
}

-- What a translation gives: a physical address, or the exception to raise.
pub data Translation : Type 0 where
  physical : ℕ → Translation
  raised : ExceptionType → Translation

abbrev pub misaligned : ℕ → ℕ → Bool
misaligned addr size = (size == 4 && not (addr % 4 == 0)) || (size == 2 && not (addr % 2 == 0))

abbrev pub is_null {ℓ} : {A : Type ℓ} → Option A → Bool
is_null none = true
is_null (some _) = false

-- The first valid entry of the TLB for the page, from position `i` on.
tlb_index : List TranslationEntry → ℕ → ℕ → Option ℕ
tlb_index [] vpn i = none
tlb_index (e ∷ es) vpn i =
    if e.valid && e.virtual_page == vpn then some i else tlb_index es vpn (suc i)

-- The checks on the entry that was found, and its use and dirty bits.
unfoldable pub use_entry : TranslationEntry → ℕ → ℕ → Bool → Option (Translation × TranslationEntry)
use_entry entry offset size writing =
    if entry.read_only && writing
    then some (raised read_only_exception, entry)
    else if leb num_phys_pages entry.physical_page
    then some (raised bus_error_exception, entry)
    else (do
      let phys_addr = entry.physical_page * page_size + offset
      assert (leb (phys_addr + size) memory_size)
      some (
        physical phys_addr,
        record entry { use_bit = true; dirty = if writing then true else entry.dirty },
      ))

unfoldable pub table_translate :
    Machine → List TranslationEntry → ℕ → ℕ → ℕ → Bool → Option (Translation × Machine)
unfolding use_entry
table_translate m table vpn offset size writing =
    if leb m.page_table_size vpn then some (raised address_error_exception, m) else (do
      entry ← get_elem? table vpn
      if not entry.valid then some (raised page_fault_exception, m) else (do
        (t, entry') ← use_entry entry offset size writing
        some (t, record m { page_table = some (set table vpn entry') })))

tlb_translate : Machine → List TranslationEntry → ℕ → ℕ → ℕ → Bool → Option (Translation × Machine)
unfolding use_entry tlb_index
tlb_translate m entries vpn offset size writing = elim (tlb_index entries vpn 0) [
  | none ↦ some (raised page_fault_exception, m)
  | some i ↦ do
    entry ← get_elem? entries i
    (t, entry') ← use_entry entry offset size writing
    some (t, record m { tlb = some (set entries i entry') })
]

unfoldable pub translate : Machine → ℕ → ℕ → Bool → Option (Translation × Machine)
unfolding table_translate tlb_translate
translate m virt_addr size writing =
    if misaligned virt_addr size then some (raised address_error_exception, m) else (do
      assert (is_null m.tlb || is_null m.page_table)
      assert (not (is_null m.tlb) || not (is_null m.page_table))
      let vpn = virt_addr / page_size
      let offset = virt_addr % page_size
      elim m.tlb [
        | none ↦ m.page_table >>= λ table. table_translate m table vpn offset size writing
        | some entries ↦ tlb_translate m entries vpn offset size writing
      ])

-- The value of a signed char, as a 32-bit pattern.
abbrev pub sign_extend_byte : ℕ → ℕ
sign_extend_byte b = if ltb b 128 then b else b + (2 ^ 32 - 256)

-- The bytes of main memory at an address, as a value of `size` bytes.
unfoldable pub load_value : (ℕ → ℕ) → ℕ → ℕ → Option ℕ
load_value memory p size =
    if size == 1
    then some (sign_extend_byte (memory p))
    else if size == 2
    then some (memory p + memory (p + 1) * 2 ^ 8)
    else if size == 4
    then some
        (memory p + memory (p + 1) * 2 ^ 8 + memory (p + 2) * 2 ^ 16 + memory (p + 3) * 2 ^ 24)
    else none

abbrev pub put : ℕ → ℕ → (ℕ → ℕ) → ℕ → ℕ
put p byte memory q = if p == q then byte else memory q

unfoldable pub store_value : (ℕ → ℕ) → ℕ → ℕ → ℕ → Option (ℕ → ℕ)
store_value memory p size value =
    if size == 1
    then some (put p (value % 256) memory)
    else if size == 2
    then some (put (p + 1) (value / 2 ^ 8 % 256) (put p (value % 256) memory))
    else if size == 4
    then some (
        put (p + 3) (value / 2 ^ 24 % 256) (
          put (p + 2) (value / 2 ^ 16 % 256)
            (put (p + 1) (value / 2 ^ 8 % 256) (put p (value % 256) memory))))
    else none

-- `raise` is Machine::RaiseException with the kernel behind it. The result is the value read, or
-- `none` where ReadMem returns FALSE.
module _ (raise : ExceptionType → ℕ → Machine → Option Machine) where
  unfoldable pub read_mem : Machine → ℕ → ℕ → Option (Option ℕ × Machine)
  read_mem m addr size = do
    (t, m') ← translate m addr size false
    elim t [
      | raised e ↦ raise e addr m' >>= λ m''. some (none, m'')
      | physical p ↦ load_value m'.main_memory p size >>= λ v. some (some v, m')
    ]

  -- The result is WriteMem's.
  unfoldable pub write_mem : Machine → ℕ → ℕ → ℕ → Option (Bool × Machine)
  write_mem m addr size value = do
    (t, m') ← translate m addr size true
    elim t [
      | raised e ↦ raise e addr m' >>= λ m''. some (false, m'')
      | physical p ↦ store_value m'.main_memory p size value >>= λ memory.
          some (true, record m' { main_memory = memory })
    ]
