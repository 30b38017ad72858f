-- ===== src/Userprog/Space.antt =====
-- The classes TranslationEntry (machine/translate.h) and AddrSpace (userprog/addrspace.h), and the
-- sizes of physical memory (machine/machine.h, machine/disk.h).
use cmps.Prelude.{ℕ, ◌*◌, Bool, List}

abbrev pub page_size : ℕ
page_size = 256

abbrev pub num_phys_pages : ℕ
num_phys_pages = 32

abbrev pub memory_size : ℕ
memory_size = num_phys_pages * page_size

pub record TranslationEntry : Type 0 where
  pub virtual_page : ℕ
  pub physical_page : ℕ
  pub valid : Bool
  pub read_only : Bool
  pub use_bit : Bool
  pub dirty : Bool

pub record AddrSpace : Type 0 where
  pub space_found : Bool
  pub page_table : List TranslationEntry
  pub num_pages : ℕ
  pub start_here : ℕ
