-- ===== src/Userprog/Loading.antt =====
-- AddrSpace::Translate, AddrSpace::LoadSegment, the constructor and the destructor of
-- userprog/addrspace.cc, as far as they concern memory.
-- The executable file is a parameter: `file n pos` are the bytes that OpenFile::ReadAt delivers for
-- `n` bytes at `pos`. Main memory is a function from physical addresses to bytes. A failed ASSERT and
-- an entry past the end of the page table are `none`.
pub mod Copy
pub mod Segment
pub mod Frames
pub mod Construct
mod Tests
use cmps.Prelude.{
  ℕ, zero, suc, ◌+◌, ◌-◌, ◌*◌, ◌/◌, ◌%◌, ◌^◌, Bool, true, false, not, ◌&&◌, List, [], ◌∷◌, Option,
  none, some, get_elem?, set, ltb, leb, ◌==◌, if◌then◌else◌, ◌>>=◌, ◌>>◌, assert,
}
use cmps.Userprog.BitMap.{BitMap, mark, clear, div_round_up}
use cmps.Userprog.Space.{AddrSpace, TranslationEntry, page_size, num_phys_pages, memory_size}
use cmps.Userprog.Placement.{memory_allocation}
use cmps.Machine.{page_fault_exception, bus_error_exception, address_error_exception}
use cmps.Machine.Memory.{Translation, physical, raised, put}

abbrev pub File : Type 0
File = ℕ → ℕ → List ℕ

abbrev pub Bytes : Type 0
Bytes = ℕ → ℕ

-- An int is negative if its pattern is 2 ^ 31 or more.
pub space_translate : AddrSpace → ℕ → ℕ → Option (Translation × AddrSpace)
space_translate a virt_addr size =
    let vpn = virt_addr / page_size in
    let offset = virt_addr % page_size in
    if leb (2 ^ 31) virt_addr
    then some (raised address_error_exception, a)
    else if leb a.num_pages vpn
    then some (raised address_error_exception, a)
    else (do
      entry ← get_elem? a.page_table vpn
      if not entry.valid
          then some (raised page_fault_exception, a)
          else if leb num_phys_pages entry.physical_page
          then some (raised bus_error_exception, a)
          else (do
            let phys_addr = entry.physical_page * page_size + offset
            assert (leb (phys_addr + size) memory_size)
            some (
              physical phys_addr,
              record a { page_table = set a.page_table vpn (record entry { use_bit = true }) },
            )))

-- The bytes of a list, at an address and on.
pub blit : ℕ → List ℕ → Bytes → Bytes
blit p [] memory = memory
blit p (b ∷ bs) memory = blit (p + 1) bs (put p b memory)

-- The variables of LoadSegment. The exception that Translate may return is ignored there, and
-- `phys_addr` then keeps its value.
pub record Load : Type 0 where
  pub space : AddrSpace
  pub memory : Bytes
  pub phys_addr : ℕ
  pub addr : ℕ
  pub size : ℕ
  pub in_file_addr : ℕ

abbrev pub phys_or : ℕ → Translation → ℕ
phys_or old (physical p) = p
phys_or old (raised e) = old

-- One Translate and one ReadAt of `n` bytes at the present place.
pub load_block : File → ℕ → Load → Option Load
load_block file n s = do
  (t, space') ← space_translate s.space s.addr n
  let p = phys_or s.phys_addr t
  some
      (record s { space = space'; memory = blit p (file n s.in_file_addr) s.memory; phys_addr = p })

-- The block before the first page boundary. The size is cut before it is used again, so the address
-- and the place in the file move by `0`, as in the source.
pub load_head : File → Load → Option Load
load_head file s = do
  s' ← load_block file (s.size % page_size) s
  let cut = s'.size - s'.size % page_size
  some (record s' {
    size = cut;
    addr = s'.addr + cut % page_size;
    in_file_addr = s'.in_file_addr + cut % page_size;
  })

pub load_pages : File → ℕ → Load → Option Load
load_pages file zero s = some s
load_pages file (suc loops) s = do
  s' ← load_block file page_size s
  load_pages file loops (record s' {
    size = s'.size - page_size;
    addr = s'.addr + page_size;
    in_file_addr = s'.in_file_addr + page_size;
  })

pub load_tail : File → Load → Option Load
load_tail file s =
    if s.size % page_size == 0 then some s else load_block file (s.size % page_size) s

pub load_segment : File → Load → Option Load
load_segment file s = do
  s₁ ← if s.addr % page_size == 0 then some s else load_head file s
  s₂ ← load_pages file (s₁.size / page_size) s₁
  load_tail file s₂

pub record NoffSegment : Type 0 where
  pub virtual_addr : ℕ
  pub in_file_addr : ℕ
  pub size : ℕ

pub record NoffHeader : Type 0 where
  pub magic : ℕ
  pub code : NoffSegment
  pub init_data : NoffSegment
  pub uninit_data : NoffSegment

abbrev pub noff_magic : ℕ
noff_magic = 0xbadfad

abbrev pub user_stack_size : ℕ
user_stack_size = 1024

-- The page table, from page `i` on.
pub page_table_from : ℕ → ℕ → ℕ → List TranslationEntry
page_table_from zero i start_here = []
page_table_from (suc n) i start_here =
    record {
      virtual_page = i;
      physical_page = i + start_here;
      valid = true;
      read_only = false;
      use_bit = false;
      dirty = false;
    }
    ∷ page_table_from n (i + 1) start_here

pub mark_frames : ℕ → ℕ → ℕ → BitMap → Option BitMap
mark_frames zero i start_here frames = some frames
mark_frames (suc n) i start_here frames = do
  frames' ← mark (i + start_here) frames
  mark_frames n (i + 1) start_here frames'

pub clear_frames : ℕ → ℕ → ℕ → BitMap → Option BitMap
clear_frames zero i start_here frames = some frames
clear_frames (suc n) i start_here frames = do
  frames' ← clear (i + start_here) frames
  clear_frames n (i + 1) start_here frames'

-- bzero of the frame of every page.
pub zero_pages : List TranslationEntry → Bytes → Bytes
zero_pages [] memory = memory
zero_pages (e ∷ es) memory = zero_pages es (λ q.
    if leb (e.physical_page * page_size) q && ltb q (e.physical_page * page_size + page_size)
    then 0
    else memory q)

abbrev pub load_of : AddrSpace → Bytes → ℕ → NoffSegment → Load
load_of a memory garbage s = record {
  space = a;
  memory = memory;
  phys_addr = garbage;
  addr = s.virtual_addr;
  size = s.size;
  in_file_addr = s.in_file_addr;
}

pub load_if : File → ℕ → NoffSegment → AddrSpace → Bytes → Option (AddrSpace × Bytes)
load_if file garbage s a memory =
    if ltb 0 s.size
    then (load_segment file (load_of a memory garbage s) >>= λ l. some (l.space, l.memory))
    else some (a, memory)

-- The constructor. The header is given in the byte order of the host; `garbage` is what phys_addr
-- holds before it is set. The result has the bitmap of the frames and main memory.
pub construct :
    File → NoffHeader → ℕ → ℕ → AddrSpace → BitMap → Bytes → Option (AddrSpace × BitMap × Bytes)
unfolding page_table_from mark_frames zero_pages load_if
construct file h mem_all garbage raw frames memory = do
  assert (h.magic == noff_magic)
  let total = h.code.size + h.init_data.size + h.uninit_data.size + user_stack_size
  let n = div_round_up total page_size
  a ← memory_allocation mem_all frames (record raw { num_pages = n })
  if not a.space_found then some (a, frames, memory) else (do
    frames' ← mark_frames n 0 a.start_here frames
    let table = page_table_from n 0 a.start_here
    (a₁, memory₁) ←
        load_if file garbage h.code (record a { page_table = table }) (zero_pages table memory)
    (a₂, memory₂) ← load_if file garbage h.init_data a₁ memory₁
    some (a₂, frames', memory₂))

-- The destructor, as far as it concerns memory: the pages are zeroed and the frames freed.
pub release : AddrSpace → BitMap → Bytes → Option (BitMap × Bytes)
release a frames memory = do
  frames' ← clear_frames a.num_pages 0 a.start_here frames
  some (frames', zero_pages a.page_table memory)
