-- ===== src/Userprog/Loading/Tests.antt =====
-- The theorems about loading in userprog/addrspace.cc, at an address space of two pages.
use cmps.Prelude.{
  ℕ, zero, suc, ◌+◌, ◌%◌, ◌≤◌, ◌<◌, ◌≡◌, refl, sym, subst, true, false, [], ◌∷◌, some, arith,
  get_elem?,
}
use native.Mathlib.Decide.{ℕ_discrete}
use cmps.Userprog.BitMap.{BitMap, IsValid, is_set, test}
use cmps.Userprog.Placement.{memory_allocation, first_fit, search, scan, advance, first_done}
use cmps.Userprog.Space.{AddrSpace, TranslationEntry}
use cmps.Userprog.Loading.{
  NoffSegment, NoffHeader, noff_magic, construct, File, Bytes, Load, load_segment,
}
use cmps.Userprog.Loading.Copy.{bytes, Delivers}
use cmps.Userprog.Loading.Segment.{Linear, Loaded, load_segment-unaligned}
use cmps.Userprog.Loading.Construct.{Loadable, Placed, Zeroed, construct_lem}
use cmps.Userprog.Loading.Frames.{Filled}

-- Frames 0, 1 and 9 are used.
abbrev frames : BitMap
frames = record { num_bits = 32; num_words = 1; words = 515 ∷ [] }

frames-IsValid : IsValid frames
frames-IsValid = omega arith

frames_free : (j : ℕ) → 5 ≤ j → j < 5 + 2 → is_set frames j ≡ false
unfolding is_set
frames_free j low high = elim (ℕ_discrete j 5) [
  | yes five ↦ subst (λ z. is_set frames z ≡ false) (sym five) refl
  | no other ↦ let six : 6 ≡ j = omega arith in subst (λ z. is_set frames z ≡ false) six refl
]

abbrev page : ℕ → ℕ → TranslationEntry
page virtual_page physical_page = record {
  virtual_page = virtual_page;
  physical_page = physical_page;
  valid = true;
  read_only = false;
  use_bit = false;
  dirty = false;
}

abbrev space : AddrSpace
space = record {
  space_found = true;
  page_table = page 0 5 ∷ page 1 6 ∷ [];
  num_pages = 2;
  start_here = 5;
}

space-Linear : Linear 2 5 space
space-Linear = record { fits = omega arith; pages = refl; entry_of = entries }
  where
    entries :
        (i : ℕ)
        → i < 2
        → (e : TranslationEntry) × (get_elem? space.page_table i ≡ some e)
          × (e.valid ≡ true)
          × (e.physical_page ≡ i + 5)
    entries zero h = (page 0 5, refl, refl, refl)
    entries (suc zero) h = (page 1 6, refl, refl, refl)
    entries (suc (suc i)) h = absurd (omega arith)

abbrev content : Bytes
content p = p % 256

abbrev file : File
file n pos = bytes content n pos

file-Delivers : Delivers file content 1000
file-Delivers n pos h = refl

abbrev load_at : ℕ → ℕ → Load
load_at addr size = record {
  space = space;
  memory = λ p. 0;
  phys_addr = 0;
  addr = addr;
  size = size;
  in_file_addr = 40;
}

-- Of 300 bytes at address 4, 256 are loaded.
load_segment-unaligned_example :
    (s' : Load) × (load_segment file (load_at 4 300) ≡ some s')
    × Loaded 2 5 file content 1000 file-Delivers 256 (load_at 4 300) s'
load_segment-unaligned_example =
    load_segment-unaligned 2 5 file content 1000 file-Delivers (load_at 4 300) space-Linear
      (omega arith) (omega arith) (omega arith) (omega arith)

abbrev segment : ℕ → ℕ → ℕ → NoffSegment
segment virtual_addr in_file_addr size = record {
  virtual_addr = virtual_addr;
  in_file_addr = in_file_addr;
  size = size;
}

-- 200 bytes of code and 44 of data: five pages, with the stack.
abbrev header : NoffHeader
header = record {
  magic = noff_magic;
  code = segment 0 40 200;
  init_data = segment 256 240 44;
  uninit_data = segment 0 0 0;
}

abbrev raw : AddrSpace
raw = record { space_found = false; page_table = []; num_pages = 0; start_here = 0 }

abbrev found : AddrSpace
found = record { space_found = true; page_table = []; num_pages = 5; start_here = 2 }

allocation_runs : memory_allocation 0 frames (record raw { num_pages = 5 }) ≡ some found
unfolding memory_allocation first_fit search scan advance first_done test is_set
allocation_runs = refl

code-Loadable : Loadable 5 1000 (segment 0 40 200)
code-Loadable = record { aligned = refl; inside = omega arith; in_file = omega arith }

init_data-Loadable : Loadable 5 1000 (segment 256 240 44)
init_data-Loadable = record { aligned = refl; inside = omega arith; in_file = omega arith }

abbrev ones : Bytes
ones p = 1

construct_lem_example :
    (a' : AddrSpace) × (frames' : BitMap) × (memory₀ memory₁ memory₂ : Bytes) × (construct file
        header 0 7 raw frames ones
      ≡ some (a', frames', memory₂))
    × Filled true 2 5 frames frames'
    × Linear 5 2 a'
    × Zeroed 512 1792 ones memory₀
    × Placed content 2 (segment 0 40 200) memory₀ memory₁
    × Placed content 2 (segment 256 240 44) memory₁ memory₂
construct_lem_example =
    construct_lem file content 1000 file-Delivers 7 header 0 raw found frames ones refl
      frames-IsValid refl allocation_runs refl refl (omega arith) code-Loadable init_data-Loadable
