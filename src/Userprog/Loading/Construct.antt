-- ===== src/Userprog/Loading/Construct.antt =====
-- The constructor of userprog/addrspace.cc as a whole.
use cmps.Prelude.{
  ℕ, zero, suc, ◌+◌, ◌*◌, ◌%◌, ◌≤◌, ◌<◌, ◌≡◌, inl, inr, refl, subst, true, some, arith, get_elem?,
  ltb, ◌==◌, Bool-cases, leb, ◌&&◌, if◌then◌else◌, ◌∙◌,
}
use native.Mathlib.Decide.{dec_lt}
use cmps.Userprog.BitMap.{BitMap, IsValid, div_round_up}
use cmps.Userprog.Space.{AddrSpace, TranslationEntry, page_size, num_phys_pages}
use cmps.Userprog.Placement.{memory_allocation}
use cmps.Userprog.Loading.{
  File, Bytes, NoffSegment, NoffHeader, noff_magic, user_stack_size, page_table_from, mark_frames,
  zero_pages, load_of, load_if, construct,
}
use cmps.Userprog.Loading.Copy.{Delivers, Copied, none-Copied}
use cmps.Userprog.Loading.Segment.{Linear, load_segment-Loaded}
use cmps.Userprog.Loading.Frames.{Filled, mark_frames-Filled}

page_table_from-entry :
    (n i start j : ℕ)
    → j < n
    → (e : TranslationEntry) × (get_elem? (page_table_from n i start) j ≡ some e)
      × (e.valid ≡ true)
      × (e.physical_page ≡ i + j + start)
unfolding page_table_from
page_table_from-entry zero i start j h = absurd (omega arith)
page_table_from-entry (suc n) i start zero h = (_, refl, refl, omega arith)
page_table_from-entry (suc n) i start (suc j) h =
    let (e, at, valid, frame) = page_table_from-entry n (i + 1) start j (omega arith) in
    (e, at, valid, omega (arith, frame))

page_table_from-Linear :
    (n start : ℕ) (a : AddrSpace)
    → start + n ≤ num_phys_pages
    → a.num_pages ≡ n
    → Linear n start (record a { page_table = page_table_from n 0 start })
page_table_from-Linear n start a fits pages = record {
  fits = fits;
  pages = pages;
  entry_of = λ i small.
      let (e, at, valid, frame) = page_table_from-entry n 0 start i small in
      (e, at, valid, omega (arith, frame));
}

-- Every byte from `low` to below `high` is 0, and the others are as before.
pub record Zeroed (low high : ℕ) (memory memory' : Bytes) : Type 0 where
  pub zero : (q : ℕ) → low ≤ q → q < high → memory' q ≡ 0
  pub below : (q : ℕ) → q < low → memory' q ≡ memory q
  pub behind : (q : ℕ) → high ≤ q → memory' q ≡ memory q

zero_pages-Zeroed :
    (n i start : ℕ) (memory : Bytes)
    → Zeroed
        ((i + start) * page_size)
        ((i + start + n) * page_size)
        memory
        (zero_pages (page_table_from n i start) memory)
unfolding zero_pages page_table_from
zero_pages-Zeroed zero i start memory = record {
  zero = λ q l h. absurd (omega (arith, l, h));
  below = λ q l. refl;
  behind = λ q h. refl;
}
zero_pages-Zeroed (suc n) i start memory =
    let first : Bytes = λ q.
      if leb ((i + start) * page_size) q && ltb q ((i + start) * page_size + page_size)
      then 0
      else memory q in
    let rest = zero_pages-Zeroed n (i + 1) start first in
    record {
      zero = λ q l h. elim (dec_lt q ((i + start + 1) * page_size)) [
        | yes near ↦ rest.below q (omega (arith, near)) ∙ ground (arith, l, near)
        | no far ↦ rest.zero q (omega (arith, far)) (omega (arith, h))
      ];
      below = λ q l. rest.below q (omega (arith, l)) ∙ ground (arith, l);
      behind = λ q h. rest.behind q (omega (arith, h)) ∙ ground (arith, h);
    }

-- A segment that starts at a page and ends in the space, and whose bytes are in the file.
pub record Loadable (n file_length : ℕ) (s : NoffSegment) : Type 0 where
  pub aligned : s.virtual_addr % page_size ≡ 0
  pub inside : s.virtual_addr + s.size ≤ n * page_size
  pub in_file : s.in_file_addr + s.size ≤ file_length

-- The bytes of a segment at their place, and no other byte changed.
abbrev pub Placed : Bytes → ℕ → NoffSegment → Bytes → Bytes → Type 0
Placed content start s memory memory' =
    Copied content s.size s.in_file_addr (start * page_size + s.virtual_addr) memory memory'

module _ (file : File) (content : Bytes) (file_length : ℕ)
    (reads : Delivers file content file_length) (garbage : ℕ) where
  load_if-Placed :
      (n start : ℕ) (s : NoffSegment) (a : AddrSpace) (memory : Bytes)
      → Linear n start a
      → Loadable n file_length s
      → (a' : AddrSpace) × (memory' : Bytes) × (load_if file garbage s a memory
          ≡ some (a', memory'))
        × Linear n start a'
        × Placed content start s memory memory'
  unfolding load_if
  load_if-Placed n start s a memory l ok = elim (Bool-cases (ltb 0 s.size)) [
    | inl some_bytes ↦
        let (s', run, loaded) =
          load_segment-Loaded n start file content file_length reads (load_of a memory garbage s) l
            ok.aligned ok.inside ok.in_file in
        (s'.space, s'.memory, ground (arith, some_bytes, run), loaded.linear, loaded.copied)
    | inr nothing ↦
        let empty : 0 ≡ s.size = ground (arith, nothing) in
        (
          a,
          memory,
          ground (arith, nothing),
          l,
          subst
              (λ z.
                Copied content z s.in_file_addr (start * page_size + s.virtual_addr) memory memory)
              empty
              (none-Copied content s.in_file_addr (start * page_size + s.virtual_addr) memory),
        )
  ]

  -- The size of the program and its stack in pages.
  abbrev pub pages_of : NoffHeader → ℕ
  pages_of h =
      div_round_up (h.code.size + h.init_data.size + h.uninit_data.size + user_stack_size) page_size

  runs :
      (h : NoffHeader) (mem_all : ℕ) (raw a a₁ a₂ : AddrSpace) (frames frames' : BitMap)
      (memory m₁ m₂ : Bytes)
      → h.magic ≡ noff_magic
      → memory_allocation mem_all frames (record raw { num_pages = pages_of h }) ≡ some a
      → a.space_found ≡ true
      → mark_frames (pages_of h) 0 a.start_here frames ≡ some frames'
      → load_if file garbage h.code
          (record a { page_table = page_table_from (pages_of h) 0 a.start_here })
          (zero_pages (page_table_from (pages_of h) 0 a.start_here) memory)
        ≡ some (a₁, m₁)
      → load_if file garbage h.init_data a₁ m₁ ≡ some (a₂, m₂)
      → construct file h mem_all garbage raw frames memory ≡ some (a₂, frames', m₂)
  unfolding construct
  runs h mem_all raw a a₁ a₂ frames frames' memory m₁ m₂ magic placed found marked first second =
      let named : (h.magic == noff_magic) ≡ true = ground (arith, magic) in
      ground (arith, named, placed, found, marked, first, second)

  -- Where the header has the magic number, the placement policy finds a run of frames for the program
  -- and its stack, and the code and the data start at pages, end in the space and are in the file: the
  -- constructor fails no assertion. It marks the frames of the run and no other, page `i` of the space
  -- is in frame `i` of the run, and memory is the old one with the frames of the space set to zero, then
  -- the code at its place and then the data at its place.
  pub construct_lem :
      (h : NoffHeader) (mem_all : ℕ) (raw a : AddrSpace) (frames : BitMap) (memory : Bytes)
      → h.magic ≡ noff_magic
      → IsValid frames
      → frames.num_bits ≡ num_phys_pages
      → memory_allocation mem_all frames (record raw { num_pages = pages_of h }) ≡ some a
      → a.space_found ≡ true
      → a.num_pages ≡ pages_of h
      → a.start_here + pages_of h ≤ num_phys_pages
      → Loadable (pages_of h) file_length h.code
      → Loadable (pages_of h) file_length h.init_data
      → (a' : AddrSpace) × (frames' : BitMap) × (memory₀ memory₁ memory₂ : Bytes) × (construct file
            h mem_all garbage raw frames memory
          ≡ some (a', frames', memory₂))
        × Filled true a.start_here (pages_of h) frames frames'
        × Linear (pages_of h) a.start_here a'
        × Zeroed (a.start_here * page_size) ((a.start_here + pages_of h) * page_size) memory memory₀
        × Placed content a.start_here h.code memory₀ memory₁
        × Placed content a.start_here h.init_data memory₁ memory₂
  construct_lem h mem_all raw a frames memory magic v bits placed found pages fits code init =
      let n = pages_of h in
      let (frames', marked, f) =
        mark_frames-Filled n 0 a.start_here frames v (omega (arith, bits, fits)) in
      let table = page_table_from n 0 a.start_here in
      let (a₁, m₁, first, l₁, c₁) =
        load_if-Placed n a.start_here h.code (record a { page_table = table })
          (zero_pages table memory) (page_table_from-Linear n a.start_here a fits pages) code in
      let (a₂, m₂, second, l₂, c₂) = load_if-Placed n a.start_here h.init_data a₁ m₁ l₁ init in
      (
        a₂,
        frames',
        zero_pages table memory,
        m₁,
        m₂,
        runs h mem_all raw a a₁ a₂ frames frames' memory m₁ m₂ magic placed found marked first
            second,
        subst (λ z. Filled true z n frames frames') (omega arith) f,
        l₂,
        subst (λ z. Zeroed (z * page_size) ((z + n) * page_size) memory (zero_pages table memory))
            (omega arith) (zero_pages-Zeroed n 0 a.start_here memory),
        c₁,
        c₂,
      )
