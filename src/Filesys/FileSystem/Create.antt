-- ===== src/Filesys/FileSystem/Create.antt =====
-- Create and Open of filesys/filesys.cc.
use cmps.Prelude.{
  ℕ, suc, ◌+◌, ◌≤◌, ◌<◌, ◌≡◌, refl, ap, sym, ◌∙◌, subst, Bool, true, false, ◌||◌, Option, none,
  some, List, ◌==◌, arith, set, Bool-cases, Option-cases, inl, inr, ◌>>=◌, if◌then◌else◌,
}
use cmps.Userprog.BitMap.{BitMap, IsValid, is_set, set_bit}
use cmps.Userprog.BitMap.Bits.{is_set-set_bit, set_bit-IsValid, num_bits-set_bit}
use cmps.Userprog.BitMap.Search.{find-FindResult, clear_count_some, clear_count_set}
use cmps.Threads.LinkedList.Chain.{NoDup}
use cmps.Filesys.FileHeader.{FileHeader, allocate}
use cmps.Filesys.FileHeader.Loops.{among, Taken}
use cmps.Filesys.FileHeader.Allocate.{
  refused, taken, overrun, allocate-Allocation, among-AllFree, sectors_of, sized, clear_bits,
}
use cmps.Filesys.Directory.{find, free_index, add, new_entry}
use cmps.Filesys.Directory.Lookup.{find-absent}
use cmps.Filesys.FileSystem.{Volume, create, create_at, write_header}
use cmps.Filesys.FileSystem.Owners.{data_of, listed-Holds}

-- The header and the data of a new file.
abbrev pub new_sector : ℕ → FileHeader → ℕ → Bool
new_sector sector hdr x = (sector == x) || among x (data_of hdr)

-- The file that Create has made.
pub record Created (name : List ℕ) (initial_size : ℕ) (v v' : Volume) : Type 0 where
  pub sector : ℕ
  pub hdr : FileHeader
  pub index : ℕ
  pub empty : free_index v.directory ≡ some index
  pub directory : v'.directory ≡ set v.directory index (new_entry name sector)
  pub headers : v'.headers ≡ write_header sector hdr v.headers
  pub bytes : hdr.num_bytes ≡ initial_size
  pub count : hdr.num_sectors ≡ sectors_of initial_size
  pub room : hdr.num_sectors ≤ 62
  pub fresh :
      (x : ℕ)
      → new_sector sector hdr x ≡ true
      → (x < v.free_map.num_bits) × (is_set v.free_map x ≡ false)
  pub used : (x : ℕ) → is_set v'.free_map x ≡ (new_sector sector hdr x || is_set v.free_map x)
  pub once : NoDup (data_of hdr) × (among sector (data_of hdr) ≡ false)
  pub valid : IsValid v'.free_map
  pub size : v'.free_map.num_bits ≡ v.free_map.num_bits

pub data Creation (name : List ℕ) (initial_size : ℕ) (v : Volume) (out : Option (Bool × Volume))
    : Type 0 where
  present :
      (s : ℕ)
      → find name v.directory ≡ some s
      → out ≡ some (false, v)
      → Creation name initial_size v out
  no_space :
      find name v.directory ≡ none
      → clear_bits v.free_map < 1 + sectors_of initial_size
      → out ≡ some (false, v)
      → Creation name initial_size v out
  no_entry :
      find name v.directory ≡ none
      → free_index v.directory ≡ none
      → out ≡ some (false, v)
      → Creation name initial_size v out
  made :
      (v' : Volume)
      → find name v.directory ≡ none
      → 1 + sectors_of initial_size ≤ clear_bits v.free_map
      → out ≡ some (true, v')
      → Created name initial_size v v'
      → Creation name initial_size v out
  too_large :
      find name v.directory ≡ none
      → 62 < sectors_of initial_size
      → out ≡ none
      → Creation name initial_size v out

data_of-Taken :
    (n : ℕ) (f : FileHeader) (b : BitMap) (xs : List ℕ) (f' : FileHeader) (b' : BitMap)
    → f.num_sectors ≡ n
    → Taken 0 n f b xs f' b'
    → data_of f' ≡ xs
data_of-Taken n f b xs f' b' e t =
    rw (t.sectors ∙ e ∙ sym t.count) (listed-Holds f'.data_sectors 0 xs t.holds)

clear_bits-set_bit :
    (b : BitMap) (k : ℕ)
    → IsValid b
    → k < b.num_bits
    → is_set b k ≡ false
    → clear_bits b ≡ suc (clear_bits (set_bit k b))
unfolding set_bit
clear_bits-set_bit b k v below free =
    (clear_count_set (is_set b) (is_set (set_bit k b)) k b.num_bits 0 (omega arith)
      (omega (arith, below)) free (λ j. is_set-set_bit b k j v below))

module _ (blank : FileHeader) (name : List ℕ) (initial_size : ℕ) (v : Volume)
    (valid : IsValid v.free_map) (absent : find name v.directory ≡ none) (k : ℕ)
    (below : k < v.free_map.num_bits) (free : is_set v.free_map k ≡ false) where
  create_at-added :
      (i : ℕ)
      → free_index v.directory ≡ some i
      → create_at blank name initial_size v k (set_bit k v.free_map) ≡ (
          allocate initial_size blank (set_bit k v.free_map) >>= λ r. some (
            if r.0
            then (
              true,
              record {
                directory = set v.directory i (new_entry name k);
                free_map = r.2;
                headers = write_header k r.1 v.headers;
              },
            )
            else (false, v)))
  unfolding create_at add
  create_at-added i empty = rw (add, find-absent name v.directory absent, empty) refl

  new_fresh :
      (xs : List ℕ) (f' : FileHeader) (b' : BitMap)
      → (t : Taken 0
          (sectors_of initial_size)
          (sized initial_size blank)
          (set_bit k v.free_map)
          xs
          f'
          b')
      → (x : ℕ) → new_sector k f' x ≡ true
      → (x < v.free_map.num_bits) × (is_set v.free_map x ≡ false)
  new_fresh xs f' b' t x m = elim (Bool-cases (k == x)) [
    | inl here ↦ (ground (arith, here, below), ground (arith, here, free))
    | inr away ↦
        let in_data : among x xs ≡ true =
          ap (among x) (
            sym (
              data_of-Taken (sectors_of initial_size) (sized initial_size blank)
                (set_bit k v.free_map) xs f' b' refl t))
          ∙ ground (arith, m, away) in
        let (small, clear) = among-AllFree (set_bit k v.free_map) x xs t.free in_data in
        (
          omega (arith, small, num_bits-set_bit v.free_map k),
          ground (arith, clear, away, is_set-set_bit v.free_map k x valid below),
        )
  ]

  created :
      (i : ℕ) (xs : List ℕ) (f' : FileHeader) (b' : BitMap)
      → free_index v.directory ≡ some i
      → sectors_of initial_size ≤ 62
      → (t : Taken 0
          (sectors_of initial_size)
          (sized initial_size blank)
          (set_bit k v.free_map)
          xs
          f'
          b')
      → Created name initial_size v (record {
        directory = set v.directory i (new_entry name k);
        free_map = b';
        headers = write_header k f' v.headers;
      })
  created i xs f' b' empty small t =
      let listing =
        data_of-Taken (sectors_of initial_size) (sized initial_size blank) (set_bit k v.free_map) xs
          f' b' refl t in
      record {
        sector = k;
        hdr = f';
        index = i;
        empty = empty;
        directory = refl;
        headers = refl;
        bytes = t.bytes;
        count = t.sectors;
        room = omega (arith, t.sectors, small);
        fresh = new_fresh xs f' b' t;
        used = λ x.
            t.used x
            ∙ ground (arith, is_set-set_bit v.free_map k x valid below, ap (among x) listing);
        once = (
          subst (λ z. NoDup z) (sym listing) t.no_dup,
          elim (Bool-cases (among k xs)) [
            | inl m ↦ absurd (
                ground (
                  arith,
                  among-AllFree (set_bit k v.free_map) k xs t.free m,
                  is_set-set_bit v.free_map k k valid below,
                ))
            | inr m ↦ ap (among k) listing ∙ m
          ],
        );
        valid = t.valid;
        size = t.size ∙ num_bits-set_bit v.free_map k;
      }

  create_at-full :
      free_index v.directory ≡ none
      → create_at blank name initial_size v k (set_bit k v.free_map) ≡ some (false, v)
  unfolding create_at add
  create_at-full full = rw (add, find-absent name v.directory absent, full) refl

  create_at-Creation :
      Creation name initial_size v (create_at blank name initial_size v k (set_bit k v.free_map))
  create_at-Creation = elim (Option-cases (free_index v.directory)) [
    | inl full ↦ no_entry absent full (create_at-full full)
    | inr (i, empty) ↦
        let count = clear_bits-set_bit v.free_map k valid below free in
        elim (allocate-Allocation initial_size blank (set_bit k v.free_map)
          (set_bit-IsValid v.free_map k valid)) [
            | refused short out ↦
                no_space absent (omega (arith, short, count))
                  (create_at-added i empty ∙ rw out refl)
            | overrun long large out ↦
                too_large absent large (create_at-added i empty ∙ rw out refl)
            | taken xs f' b' long small out t ↦
                made
                  (record {
                    directory = set v.directory i (new_entry name k);
                    free_map = b';
                    headers = write_header k f' v.headers;
                  })
                  absent (omega (arith, long, count)) (create_at-added i empty ∙ rw out refl)
                  (created i xs f' b' empty small t)
          ]
  ]

-- On a valid bitmap, what Create does in each case. It returns FALSE and leaves the volume where the name
-- is there, or no entry is free, or too few sectors; it writes past dataSectors where the file is too large.
pub create-Creation :
    (blank : FileHeader) (name : List ℕ) (initial_size : ℕ) (v : Volume)
    → IsValid v.free_map
    → Creation name initial_size v (create blank name initial_size v)
unfolding create
create-Creation blank name initial_size v valid = elim (Option-cases (find name v.directory)) [
  | inr (s, here) ↦ present s here (rw (create, here) refl)
  | inl absent ↦ elim (find-FindResult v.free_map) [
    | inr (e, all) ↦
        no_space absent
          (omega (
            arith,
            clear_count_some (is_set v.free_map) v.free_map.num_bits 0
                (λ j p q. all j p (omega (arith, q))),
          ))
          (rw (create, absent, e) refl)
    | inl (k, e, found) ↦
        rw (create, absent, e)
          (create_at-Creation blank name initial_size v valid absent k found.below found.free)
  ]
]
