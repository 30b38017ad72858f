-- ===== src/Filesys/FileHeader/Loops.antt =====
-- The loops of Allocate and Deallocate of filesys/filehdr.cc.
use cmps.Prelude.{
  ℕ, zero, suc, ◌+◌, ◌-◌, ◌^◌, ◌<◌, ◌≤◌, ◌≡◌, inl, inr, refl, sym, subst, ◌∙◌, Bool, true, false,
  ◌||◌, List, [], ◌∷◌, none, some, ltb, ◌==◌, if◌then◌else◌, arith, length, Absent,
}
use cmps.Userprog.BitMap.{BitMap, IsValid, clear, is_set, set_bit, clear_bit}
use cmps.Userprog.BitMap.Bits.{
  is_set-set_bit, is_set-clear_bit, set_bit-IsValid, clear_bit-IsValid, num_bits-set_bit,
  num_bits-clear_bit, test_lem, clear_lem,
}
use cmps.Userprog.BitMap.Search.{find-FindResult, clear_count, clear_count_set, clear_count_some}
use native.Mathlib.Decide.{ℕ_discrete}
use cmps.Threads.LinkedList.Chain.{NoDup}
use cmps.Filesys.FileHeader.{FileHeader, set_sector, num_direct, allocate_from, deallocate_from}

-- The sector is one of the list.
unfoldable pub among : ℕ → List ℕ → Bool
among j [] = false
among j (x ∷ xs) = (x == j) || among j xs

-- dataSectors has the sectors, from index `i` on.
abbrev pub Holds : (ℕ → ℕ) → ℕ → List ℕ → Type 0
Holds d i [] = Unit {0}
Holds d i (x ∷ xs) = (d i ≡ x) × Holds d (i + 1) xs

abbrev pub AllFree : BitMap → List ℕ → Type 0
AllFree b [] = Unit {0}
AllFree b (x ∷ xs) = (x < b.num_bits) × (is_set b x ≡ false) × AllFree b xs

-- The loop of Allocate has put the sectors `xs` into the header from index `i` on.
pub record Taken (i n : ℕ) (f : FileHeader) (b : BitMap) (xs : List ℕ) (f' : FileHeader)
    (b' : BitMap) : Type 0 where
  pub bytes : f'.num_bytes ≡ f.num_bytes
  pub sectors : f'.num_sectors ≡ f.num_sectors
  pub holds : Holds f'.data_sectors i xs
  pub before : (j : ℕ) → j < i → f'.data_sectors j ≡ f.data_sectors j
  pub count : length xs ≡ n
  pub free : AllFree b xs
  pub no_dup : NoDup xs
  pub valid : IsValid b'
  pub size : b'.num_bits ≡ b.num_bits
  pub used : (j : ℕ) → is_set b' j ≡ (among j xs || is_set b j)

AllFree-set_bit :
    (b : BitMap) (k : ℕ) (xs : List ℕ)
    → IsValid b
    → k < b.num_bits
    → AllFree (set_bit k b) xs
    → AllFree b xs × Absent k xs
AllFree-set_bit b k [] v h free = (tt, tt)
AllFree-set_bit b k (x ∷ xs) v h (small, clear, free) =
    let (free', away) = AllFree-set_bit b k xs v h free in
    (
      (
        omega (arith, small, num_bits-set_bit b k),
        ground (arith, clear, is_set-set_bit b k x v h),
        free',
      ),
      (ground (arith, clear, is_set-set_bit b k x v h), away),
    )

-- One sector more.
Taken-cons :
    (i n k : ℕ) (f : FileHeader) (b : BitMap) (xs : List ℕ) (f' : FileHeader) (b' : BitMap)
    → IsValid b
    → k < b.num_bits
    → is_set b k ≡ false
    → Taken (i + 1) n (set_sector i k f) (set_bit k b) xs f' b'
    → Taken i (suc n) f b (k ∷ xs) f' b'
unfolding among
Taken-cons i n k f b xs f' b' v below is_free t =
    let (free, away) = AllFree-set_bit b k xs v below t.free in
    record {
      bytes = t.bytes;
      sectors = t.sectors;
      holds = (ground (arith, t.before i), t.holds);
      before = λ j h. ground (arith, t.before j, h);
      count = omega (arith, t.count);
      free = (below, is_free, free);
      no_dup = (away, t.no_dup);
      valid = t.valid;
      size = t.size ∙ num_bits-set_bit b k;
      used = λ j. ground (arith, t.used j, is_set-set_bit b k j v below);
    }

pub count_left :
    (b : BitMap) (k n : ℕ)
    → IsValid b
    → k < b.num_bits
    → is_set b k ≡ false
    → suc n ≤ clear_count (is_set b) b.num_bits 0
    → n ≤ clear_count (is_set (set_bit k b)) (set_bit k b).num_bits 0
count_left b k n v below free enough =
    let step : clear_count (is_set b) b.num_bits 0
        ≡ suc (clear_count (is_set (set_bit k b)) b.num_bits 0) =
      clear_count_set (is_set b) (is_set (set_bit k b)) k b.num_bits 0 (omega arith)
        (omega (arith, below)) free (λ j. is_set-set_bit b k j v below) in
    subst (λ z. n ≤ clear_count (is_set (set_bit k b)) z 0) (sym (num_bits-set_bit b k))
      (omega (arith, enough, step))

pub allocate_from-Taken :
    (n i : ℕ) (f : FileHeader) (b : BitMap)
    → IsValid b
    → n ≤ clear_count (is_set b) b.num_bits 0
    → i + n ≤ 62
    → (xs : List ℕ) × (f' : FileHeader) × (b' : BitMap) × (allocate_from n i f b ≡ some (f', b'))
      × Taken i n f b xs f' b'
unfolding allocate_from among
allocate_from-Taken zero i f b v enough fits = (
  [],
  f,
  b,
  refl,
  record {
    bytes = refl;
    sectors = refl;
    holds = tt;
    before = λ j h. refl;
    count = refl;
    free = tt;
    no_dup = tt;
    valid = v;
    size = refl;
    used = λ j. refl;
  },
)
allocate_from-Taken (suc n) i f b v enough fits = elim (find-FindResult b) [
  | inr (e, all) ↦ absurd (
      omega (
        arith,
        enough,
        clear_count_some (is_set b) b.num_bits 0 (λ j p q. all j p (omega (arith, q))),
      ))
  | inl (k, e, found) ↦
      let (xs, f', b', run, t) =
        allocate_from-Taken n (i + 1) (set_sector i k f) (set_bit k b) (set_bit-IsValid b k v)
          (count_left b k n v found.below found.free enough) (omega (arith, fits)) in
      let room : ltb i num_direct ≡ true = ground (arith, fits) in
      (k ∷ xs, f', b', rw (e, room) run, Taken-cons i n k f b xs f' b' v found.below found.free t)
]

-- Deallocate, of sectors that are all in use.
unfoldable pub AllUsed : BitMap → List ℕ → Type 0
AllUsed b [] = Unit {0}
AllUsed b (x ∷ xs) = (x < b.num_bits) × (is_set b x ≡ true) × AllUsed b xs

AllUsed-clear_bit :
    (b : BitMap) (k : ℕ) (xs : List ℕ)
    → IsValid b
    → k < b.num_bits
    → Absent k xs
    → AllUsed b xs
    → AllUsed (clear_bit k b) xs
unfolding AllUsed
AllUsed-clear_bit b k [] v h away used = tt
AllUsed-clear_bit b k (x ∷ xs) v h away (small, set, used) = (
  omega (arith, small, num_bits-clear_bit b k),
  ground (arith, set, away.0, is_set-clear_bit b k x v h),
  AllUsed-clear_bit b k xs v h away.1 used,
)

pub deallocate_from_lem :
    (xs : List ℕ) (i : ℕ) (f : FileHeader) (b : BitMap)
    → IsValid b
    → Holds f.data_sectors i xs
    → AllUsed b xs
    → NoDup xs
    → i + length xs ≤ 62
    → (b' : BitMap) × (deallocate_from (length xs) i f b ≡ some b')
      × ((j : ℕ) → is_set b' j ≡ (if among j xs then false else is_set b j))
      × IsValid b'
      × (b'.num_bits ≡ b.num_bits)
unfolding deallocate_from among AllUsed
deallocate_from_lem [] i f b v holds used once fits = (b, refl, λ j. refl, v, refl)
deallocate_from_lem (x ∷ xs) i f b v holds used once fits =
    let (b', run, out, valid, size) =
      deallocate_from_lem xs (i + 1) f (clear_bit x b) (clear_bit-IsValid b x v) holds.1
        (AllUsed-clear_bit b x xs v used.0 once.0 used.2) once.1 (omega (arith, fits)) in
    let room : ltb i num_direct ≡ true = ground (arith, fits) in
    (
      b',
      rw (room, holds.0, test_lem b x used.0, used.1, clear_lem b x used.0) run,
      λ j. ground (arith, out j, is_set-clear_bit b x j v used.0),
      valid,
      size ∙ num_bits-clear_bit b x,
    )

pub allocate_from-overrun :
    (n i : ℕ) (f : FileHeader) (b : BitMap) → i ≤ 62 → 62 < i + n → allocate_from n i f b ≡ none
unfolding allocate_from
allocate_from-overrun zero i f b le large = absurd (omega (arith, le, large))
allocate_from-overrun (suc n) i f b le large = elim (ℕ_discrete i 62) [
  | yes here ↦ elim (find-FindResult b) [
    | inl (k, e, found) ↦ rw (e, here)
    | inr (e, all) ↦ rw (e, here)
  ]
  | no away ↦
      let room : ltb i num_direct ≡ true = ground (arith, le, away) in
      elim (find-FindResult b) [
        | inl (k, e, found) ↦
            rw (e, room)
              (allocate_from-overrun n (i + 1) (set_sector i k f) (set_bit k b)
                (omega (arith, le, away)) (omega (arith, large)))
        | inr (e, all) ↦
            rw (e, room)
              (allocate_from-overrun n (i + 1) (set_sector i (2 ^ 32 - 1) f) b
                (omega (arith, le, away)) (omega (arith, large)))
      ]
]
