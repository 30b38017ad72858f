-- ===== src/Userprog/Loading/Segment.antt =====
-- AddrSpace::Translate and AddrSpace::LoadSegment of userprog/addrspace.cc on a page table as the
-- constructor makes it.
use cmps.Prelude.{
  ℕ, zero, suc, ◌+◌, ◌-◌, ◌*◌, ◌/◌, ◌%◌, ◌≤◌, ◌<◌, ◌≡◌, ◌≢◌, refl, sym, subst, ◌∙◌, true, some,
  arith, get_elem?, set, get_elem?-set_self, get_elem?-set_ne,
}
use native.Mathlib.Decide.{ℕ_discrete}
use cmps.Userprog.Space.{AddrSpace, TranslationEntry, page_size, num_phys_pages}
use cmps.Machine.Memory.{physical}
use cmps.Userprog.Loading.{
  File, Bytes, Load, space_translate, load_block, load_head, load_pages, load_tail, load_segment,
  blit,
}
use cmps.Userprog.Loading.Copy.{
  Delivers, Copied, none-Copied, join-Copied, overlay-Copied, blit-Copied,
}

-- Page `i` of `n` is in frame `i + start` of physical memory.
pub record Linear (n start : ℕ) (a : AddrSpace) : Type 0 where
  pub fits : start + n ≤ num_phys_pages
  pub pages : a.num_pages ≡ n
  pub entry_of :
      (i : ℕ)
      → i < n
      → (e : TranslationEntry) × (get_elem? a.page_table i ≡ some e)
        × (e.valid ≡ true)
        × (e.physical_page ≡ i + start)

module _ (n start : ℕ) where
  touched-Linear :
      (a : AddrSpace) (vpn : ℕ) (entry : TranslationEntry)
      → Linear n start a
      → vpn < n
      → get_elem? a.page_table vpn ≡ some entry
      → Linear n start
          (record a { page_table = set a.page_table vpn (record entry { use_bit = true }) })
  touched-Linear a vpn entry l h found = record {
    fits = l.fits;
    pages = l.pages;
    entry_of = λ i small. elim (ℕ_discrete vpn i) [
      | yes here ↦
          let (e, at, valid, frame) = l.entry_of i small in
          let same : e ≡ entry = ground (arith, at, found, here) in
          (
            record entry { use_bit = true },
            ground (
              arith,
              here,
              get_elem?-set_self a.page_table vpn entry (record entry { use_bit = true }) found,
            ),
            ground (arith, same, valid),
            ground (arith, same, frame),
          )
      | no away ↦
          let (e, at, valid, frame) = l.entry_of i small in
          (
            e,
            get_elem?-set_ne a.page_table vpn i (record entry { use_bit = true }) away ∙ at,
            valid,
            frame,
          )
    ];
  }

  -- An access inside the space, also where it goes on into the next page.
  space_translate-Linear :
      (a : AddrSpace) (addr size : ℕ)
      → Linear n start a
      → addr < n * page_size
      → addr + size ≤ n * page_size
      → (a' : AddrSpace) × (space_translate a addr size
          ≡ some (physical (start * page_size + addr), a'))
        × Linear n start a'
  unfolding space_translate
  space_translate-Linear a addr size l start_inside inside =
      let (e, at, valid, frame) = l.entry_of (addr / page_size) (omega arith) in
      (
        record a { page_table = set a.page_table (addr / page_size) (record e { use_bit = true }) },
        ground (arith, at, valid, frame, l.fits, l.pages),
        touched-Linear a (addr / page_size) e l (omega arith) at,
      )

  module _ (file : File) (content : Bytes) (file_length : ℕ)
      (reads : Delivers file content file_length) where
    -- What loading `size` bytes at the place of `s` gives.
    pub record Loaded (size : ℕ) (s s' : Load) : Type 0 where
      pub linear : Linear n start s'.space
      pub copied :
          Copied content size s.in_file_addr (start * page_size + s.addr) s.memory s'.memory

    load_block-Loaded :
        (size : ℕ) (s : Load)
        → Linear n start s.space
        → s.addr < n * page_size
        → s.addr + size ≤ n * page_size
        → s.in_file_addr + size ≤ file_length
        → (s' : Load) × (load_block file size s ≡ some s')
          × Loaded size s s'
          × (s'.addr ≡ s.addr)
          × (s'.size ≡ s.size)
          × (s'.in_file_addr ≡ s.in_file_addr)
    unfolding load_block
    load_block-Loaded size s l start_inside inside in_file =
        let (a', run, l') = space_translate-Linear s.space s.addr size l start_inside inside in
        (
          record s {
            space = a';
            memory = blit (start * page_size + s.addr) (file size s.in_file_addr) s.memory;
            phys_addr = start * page_size + s.addr;
          },
          rw run,
          record {
            linear = l';
            copied =
                rw (reads size s.in_file_addr in_file)
                  (blit-Copied content size s.in_file_addr (start * page_size + s.addr) s.memory);
          },
          refl,
          refl,
          refl,
        )

    -- A step from `s` to `s'` loads `size` bytes and moves on by as many.
    pub record Moved (size : ℕ) (s s' : Load) : Type 0 where
      pub loaded : Loaded size s s'
      pub addr : s'.addr ≡ s.addr + size
      pub left : s'.size ≡ s.size - size
      pub in_file_addr : s'.in_file_addr ≡ s.in_file_addr + size

    join-Loaded :
        (x y : ℕ) (s s' s'' : Load) → Moved x s s' → Loaded y s' s'' → Loaded (x + y) s s''
    join-Loaded x y s s' s'' first second = record {
      linear = second.linear;
      copied =
          join-Copied content x y s.in_file_addr (start * page_size + s.addr) s.memory s'.memory
            s''.memory first.loaded.copied
            (subst (λ z. Copied content y z (start * page_size + s.addr + x) s'.memory s''.memory)
              first.in_file_addr
              (subst (λ z. Copied content y s'.in_file_addr z s'.memory s''.memory)
                (omega (arith, first.addr)) second.copied));
    }

    stay : (s : Load) → Linear n start s.space → Moved 0 s s
    stay s l = record {
      loaded = record {
        linear = l;
        copied = none-Copied content s.in_file_addr (start * page_size + s.addr) s.memory;
      };
      addr = omega arith;
      left = omega arith;
      in_file_addr = omega arith;
    }

    load_pages-Moved :
        (loops : ℕ) (s : Load)
        → Linear n start s.space
        → s.addr + loops * page_size ≤ n * page_size
        → s.in_file_addr + loops * page_size ≤ file_length
        → (s' : Load) × (load_pages file loops s ≡ some s') × Moved (loops * page_size) s s'
    unfolding load_pages
    load_pages-Moved zero s l inside in_file = (s, refl, stay s l)
    load_pages-Moved (suc loops) s l inside in_file =
        let (s₁, run, loaded, same_addr, same_size, same_place) =
          load_block-Loaded page_size s l (omega arith) (omega arith) (omega arith) in
        let next = record s₁ {
          size = s₁.size - page_size;
          addr = s₁.addr + page_size;
          in_file_addr = s₁.in_file_addr + page_size;
        } in
        let (s', rest, moved) =
          load_pages-Moved loops next loaded.linear (omega arith) (omega arith) in
        (
          s',
          rw run rest,
          record {
            loaded =
                subst (λ z. Loaded z s s') (omega arith)
                  (join-Loaded page_size (loops * page_size) s next s'
                    (record {
                      loaded = record { linear = loaded.linear; copied = loaded.copied };
                      addr = omega (arith, same_addr);
                      left = omega (arith, same_size);
                      in_file_addr = omega (arith, same_place);
                    })
                    moved.loaded);
            addr = omega (arith, moved.addr);
            left = omega (arith, moved.left);
            in_file_addr = omega (arith, moved.in_file_addr);
          },
        )

    load_tail-Loaded :
        (s : Load)
        → Linear n start s.space
        → s.size < page_size
        → s.addr + s.size ≤ n * page_size
        → s.in_file_addr + s.size ≤ file_length
        → (s' : Load) × (load_tail file s ≡ some s') × Loaded s.size s s'
    unfolding load_tail
    load_tail-Loaded s l small inside in_file = elim (ℕ_discrete s.size 0) [
      | yes done ↦
          (s, ground (arith, done), subst (λ z. Loaded z s s) (sym done) ((stay s l).loaded))
      | no more ↦
          let whole : s.size % page_size ≡ s.size = omega arith in
          let (s', run, loaded, same_addr, same_size, same_place) =
            load_block-Loaded s.size s l (omega arith) inside in_file in
          (s', ground (arith, whole, run), loaded)
    ]

    -- In an address space whose page `i` is in frame `i + start`, where the file has the bytes: a segment
    -- at the start of a page that ends inside the space is loaded without a failed assertion. Its bytes
    -- are then at their places in physical memory, and every other byte of memory is unchanged.
    pub load_segment-Loaded :
        (s : Load)
        → Linear n start s.space
        → s.addr % page_size ≡ 0
        → s.addr + s.size ≤ n * page_size
        → s.in_file_addr + s.size ≤ file_length
        → (s' : Load) × (load_segment file s ≡ some s') × Loaded s.size s s'
    unfolding load_segment
    load_segment-Loaded s l aligned inside in_file =
        let (s₁, pages_run, moved) =
          load_pages-Moved (s.size / page_size) s l (omega arith) (omega arith) in
        let (s₂, tail_run, loaded) =
          load_tail-Loaded s₁ moved.loaded.linear (omega (arith, moved.left))
            (omega (arith, moved.left, moved.addr))
            (omega (arith, moved.left, moved.in_file_addr)) in
        (
          s₂,
          ground (arith, aligned, pages_run, tail_run),
          subst (λ z. Loaded z s s₂) (omega (arith, moved.left))
              (join-Loaded (s.size / page_size * page_size) s₁.size s s₁ s₂ moved loaded),
        )

    -- In such a space, where the file has the bytes: of a segment of at least a page that starts inside
    -- a page and ends inside the space only the first `size - size % PageSize` bytes are loaded, without
    -- a failed assertion, and every other byte of memory is unchanged. Where `size` is no multiple of
    -- PageSize, the end of the segment is missing.
    pub load_segment-unaligned :
        (s : Load)
        → Linear n start s.space
        → s.addr % page_size ≢ 0
        → page_size ≤ s.size
        → s.addr + s.size ≤ n * page_size
        → s.in_file_addr + s.size ≤ file_length
        → (s' : Load) × (load_segment file s ≡ some s') × Loaded (s.size - s.size % page_size) s s'
    unfolding load_segment load_head load_tail
    load_segment-unaligned s l unaligned large inside in_file =
        let (s₁, head_run, head, same_addr, same_size, same_place) =
          load_block-Loaded (s.size % page_size) s l (omega arith) (omega arith) (omega arith) in
        let cut = s₁.size - s₁.size % page_size in
        let next = record s₁ {
          size = cut;
          addr = s₁.addr + cut % page_size;
          in_file_addr = s₁.in_file_addr + cut % page_size;
        } in
        let (s₂, pages_run, moved) =
          load_pages-Moved (cut / page_size) next head.linear (omega (arith, same_addr, same_size))
            (omega (arith, same_place, same_size)) in
        let amount : cut / page_size * page_size ≡ s.size - s.size % page_size =
          omega (arith, same_size) in
        let written =
          subst
            (λ z. Copied content z s.in_file_addr (start * page_size + s.addr) s₁.memory s₂.memory)
            amount
            (subst
              (λ z.
                Copied content (cut / page_size * page_size) z (start * page_size + s.addr)
                  s₁.memory s₂.memory)
              (omega (arith, same_place, same_size))
              (subst
                (λ z.
                  Copied content (cut / page_size * page_size) next.in_file_addr
                    (start * page_size + z) s₁.memory s₂.memory)
                (omega (arith, same_addr, same_size)) moved.loaded.copied)) in
        (
          s₂,
          ground (arith, unaligned, head_run, pages_run, moved.left),
          record {
            linear = moved.loaded.linear;
            copied =
                overlay-Copied content (s.size % page_size) (s.size - s.size % page_size)
                  s.in_file_addr (start * page_size + s.addr) s.memory s₁.memory s₂.memory
                  (omega arith) head.copied written;
          },
        )
