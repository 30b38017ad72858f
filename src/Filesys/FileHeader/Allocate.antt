-- ===== src/Filesys/FileHeader/Allocate.antt =====
-- Allocate and Deallocate of filesys/filehdr.cc.
use cmps.Prelude.{
  ℕ, ◌<◌, ◌≤◌, ◌≡◌, inl, inr, sym, ap, ◌∙◌, Bool, true, false, List, [], ◌∷◌, Option, none, some,
  ltb, arith, Bool-cases,
}
use cmps.Userprog.BitMap.{BitMap, IsValid, div_round_up, is_set}
use cmps.Userprog.BitMap.Search.{clear_count, num_clear_lem}
use native.Mathlib.Decide.{ℕ_discrete}
use cmps.Filesys.FileHeader.{FileHeader, allocate, deallocate_from, deallocate}
use cmps.Filesys.FileHeader.Loops.{
  among, AllFree, AllUsed, Taken, allocate_from-Taken, allocate_from-overrun, deallocate_from_lem,
}

abbrev pub sectors_of : ℕ → ℕ
sectors_of file_size = div_round_up file_size 256

abbrev pub sized : ℕ → FileHeader → FileHeader
sized file_size f = record f { num_bytes = file_size; num_sectors = sectors_of file_size }

-- The clear bits of the bitmap.
abbrev pub clear_bits : BitMap → ℕ
clear_bits b = clear_count (is_set b) b.num_bits 0

pub data Allocation (file_size : ℕ) (f : FileHeader) (b : BitMap)
    (out : Option (Bool × FileHeader × BitMap)) : Type 0 where
  refused :
      clear_bits b < sectors_of file_size
      → out ≡ some (false, sized file_size f, b)
      → Allocation file_size f b out
  taken :
      (xs : List ℕ) (f' : FileHeader) (b' : BitMap)
      → sectors_of file_size ≤ clear_bits b
      → sectors_of file_size ≤ 62
      → out ≡ some (true, f', b')
      → Taken 0 (sectors_of file_size) (sized file_size f) b xs f' b'
      → Allocation file_size f b out
  overrun :
      sectors_of file_size ≤ clear_bits b
      → 62 < sectors_of file_size
      → out ≡ none
      → Allocation file_size f b out

-- On a valid bitmap, Allocate of a file size sets the length and the number of sectors. Where fewer
-- sectors are free, it returns FALSE and leaves the bitmap. Where enough are free and dataSectors has
-- room for them, it returns TRUE: that many different sectors, all free before, are in dataSectors,
-- and they are the ones that have become used in the bitmap. Where dataSectors has too little room, it
-- writes past its end.
pub allocate-Allocation :
    (file_size : ℕ) (f : FileHeader) (b : BitMap)
    → IsValid b
    → Allocation file_size f b (allocate file_size f b)
unfolding allocate
allocate-Allocation file_size f b v =
    elim (Bool-cases (ltb (clear_bits b) (sectors_of file_size))) [
      | inl short ↦ refused (ground (arith, short)) (rw (num_clear_lem b, short))
      | inr long ↦ elim (Bool-cases (ltb 62 (sectors_of file_size))) [
        | inl large ↦ overrun (ground (arith, long)) (ground (arith, large)) (
            rw (
              num_clear_lem b,
              long,
              allocate_from-overrun (sectors_of file_size) 0 (sized file_size f) b (omega arith)
                  (ground (arith, large)),
            ))
        | inr small ↦
            let (xs, f', b', run, t) =
              allocate_from-Taken (sectors_of file_size) 0 (sized file_size f) b v
                (ground (arith, long)) (ground (arith, small)) in
            taken xs f' b' (ground (arith, long)) (ground (arith, small))
              (rw (num_clear_lem b, long, run)) t
      ]
    ]

pub AllUsed-among :
    (b : BitMap) (xs : List ℕ)
    → ((x : ℕ) → among x xs ≡ true → (x < b.num_bits) × (is_set b x ≡ true))
    → AllUsed b xs
unfolding AllUsed among
AllUsed-among b [] h = tt
AllUsed-among b (x ∷ xs) h =
    let (small, set) = h x (ground arith) in
    (small, set, AllUsed-among b xs (λ y m. h y (ground (arith, m))))

pub among-AllFree :
    (b : BitMap) (x : ℕ) (xs : List ℕ)
    → AllFree b xs
    → among x xs ≡ true
    → (x < b.num_bits) × (is_set b x ≡ false)
unfolding among
among-AllFree b x [] free m = absurd (ground (arith, m))
among-AllFree b x (y ∷ xs) free m = elim (ℕ_discrete y x) [
  | yes here ↦ (ground (arith, free.0, here), ground (arith, free.1, here))
  | no away ↦ among-AllFree b x xs free.2 (ground (arith, m, away))
]

-- On a valid bitmap, where enough sectors are free and dataSectors has room for them: Allocate returns
-- TRUE, Deallocate of that header then fails no assertion, and the bitmap has the same bits as before.
deallocate-allocate :
    (file_size : ℕ) (f : FileHeader) (b : BitMap)
    → IsValid b
    → sectors_of file_size ≤ clear_bits b
    → sectors_of file_size ≤ 62
    → (f' : FileHeader) × (b' b'' : BitMap) × (allocate file_size f b ≡ some (true, f', b'))
      × (deallocate f' b' ≡ some b'')
      × ((j : ℕ) → is_set b'' j ≡ is_set b j)
unfolding deallocate
deallocate-allocate file_size f b v enough fits = elim (allocate-Allocation file_size f b v) [
  | refused short out ↦ absurd (omega (arith, short, enough))
  | overrun long large out ↦ absurd (omega (arith, large, fits))
  | taken xs f' b' long small out t ↦
      let used : AllUsed b' xs = AllUsed-among b' xs (λ x m.
        let (below, free) = among-AllFree b x xs t.free m in
        (omega (arith, below, t.size), ground (arith, t.used x, m))) in
      let (b'', run, after, valid, size) =
        deallocate_from_lem xs 0 f' b' t.valid t.holds used t.no_dup
          (omega (arith, t.count, fits)) in
      (
        f',
        b',
        b'',
        out,
        ap (λ z. deallocate_from z 0 f' b') (t.sectors ∙ sym t.count) ∙ run,
        λ j. elim (Bool-cases (among j xs)) [
          | inl m ↦ ground (arith, after j, m, among-AllFree b j xs t.free m)
          | inr m ↦ ground (arith, after j, m, t.used j)
        ],
      )
]
