-- ===== src/Filesys/FileSystem/Remove.antt =====
-- Remove of filesys/filesys.cc.
use cmps.Prelude.{
  ℕ, ◌<◌, ◌≡◌, ◌≢◌, refl, ap, sym, ◌∙◌, subst, true, false, some, List, get_elem?, arith, set,
  Bool-cases, inl, inr, if◌then◌else◌, get_elem?-set_self, get_elem?-set_ne,
}
use native.Mathlib.Decide.{ℕ_discrete}
use cmps.Userprog.BitMap.{BitMap, IsValid, is_set, clear, clear_bit}
use cmps.Userprog.BitMap.Bits.{is_set-clear_bit, clear_bit-IsValid, num_bits-clear_bit, clear_lem}
use cmps.Filesys.FileHeader.{FileHeader, deallocate, deallocate_from}
use cmps.Filesys.FileHeader.Loops.{among, deallocate_from_lem}
use cmps.Filesys.FileHeader.Allocate.{AllUsed-among}
use cmps.Filesys.Directory.{
  DirectoryEntry, Table, find, find_index, release_entry, remove as remove_entry,
}
use cmps.Filesys.Directory.Lookup.{find-entry}
use cmps.Filesys.FileSystem.{Volume, remove}
use cmps.Filesys.FileSystem.Owners.{Consistent, Once, owns, data_of, Holds-listed, length-listed}

-- What Remove leaves of a volume.
pub record Removed (name : List ℕ) (v v' : Volume) : Type 0 where
  pub index : ℕ
  pub entry : DirectoryEntry
  pub named : find_index name v.directory ≡ some index
  pub at : get_elem? v.directory index ≡ some entry
  pub busy : entry.in_use ≡ true
  pub directory : v'.directory ≡ set v.directory index (record entry { in_use = false })
  pub headers : v'.headers ≡ v.headers
  pub bits :
      (x : ℕ)
      → is_set v'.free_map x ≡ (if owns v.headers entry x then false else is_set v.free_map x)
  pub valid : IsValid v'.free_map
  pub size : v'.free_map.num_bits ≡ v.free_map.num_bits

module _ (v : Volume) (c : Consistent v) (i : ℕ) (e : DirectoryEntry)
    (at : get_elem? v.directory i ≡ some e) (busy : e.in_use ≡ true) where
  abbrev hdr : FileHeader
  hdr = v.headers e.sector

  in_data : (x : ℕ) → among x (data_of hdr) ≡ true → owns v.headers e x ≡ true
  in_data x m = ground (arith, m, busy)

  deallocate_data :
      (b : BitMap) × (deallocate hdr v.free_map ≡ some b)
      × ((x : ℕ) → is_set b x ≡ (if among x (data_of hdr) then false else is_set v.free_map x))
      × IsValid b
      × (b.num_bits ≡ v.free_map.num_bits)
  unfolding deallocate
  deallocate_data =
      let count = length-listed hdr.data_sectors 0 hdr.num_sectors in
      let once = c.once i e at busy in
      let (b, run, bits, valid, size) =
        deallocate_from_lem (data_of hdr) 0 hdr v.free_map c.valid
          (Holds-listed hdr.data_sectors 0 hdr.num_sectors)
          (AllUsed-among v.free_map (data_of hdr) (λ x m. c.marked i e x at (in_data x m))) once.0
          (omega (arith, once.2, count)) in
      (b, ap (λ z. deallocate_from z 0 hdr v.free_map) (sym count) ∙ run, bits, valid, size)

  clear_header :
      (b' : BitMap) × ((b : BitMap) × (deallocate hdr v.free_map ≡ some b)
        × (clear e.sector b ≡ some b'))
      × ((x : ℕ) → is_set b' x ≡ (if owns v.headers e x then false else is_set v.free_map x))
      × IsValid b'
      × (b'.num_bits ≡ v.free_map.num_bits)
  clear_header =
      let (b, run, bits, valid, size) = deallocate_data in
      let small : e.sector < b.num_bits =
        omega (arith, (c.marked i e e.sector at (ground (arith, busy))).0, size) in
      (
        clear_bit e.sector b,
        (b, run, clear_lem b e.sector small),
        λ x. ground (arith, bits x, is_set-clear_bit b e.sector x valid small, busy),
        clear_bit-IsValid b e.sector valid,
        num_bits-clear_bit b e.sector ∙ size,
      )

remove_entry_lem :
    (name : List ℕ) (t : Table) (i : ℕ) (e : DirectoryEntry)
    → find_index name t ≡ some i
    → get_elem? t i ≡ some e
    → (remove_entry name t).1 ≡ set t i (record e { in_use = false })
unfolding remove_entry release_entry
remove_entry_lem name t i e index at = rw (remove_entry, index, release_entry, at) refl

pub remove-Removed :
    (name : List ℕ) (v : Volume) (s : ℕ)
    → Consistent v
    → find name v.directory ≡ some s
    → (v' : Volume) × (remove name v ≡ some (true, v')) × Removed name v v'
unfolding remove
remove-Removed name v s c here =
    let (i, e, index, at, busy, same) = find-entry name v.directory s here in
    let (b', (b, run, cleared), bits, valid, size) = clear_header v c i e at busy in
    let here' : find name v.directory ≡ some e.sector = here ∙ ap some (sym same) in
    (
      record v { free_map = b'; directory = set v.directory i (record e { in_use = false }) },
      rw (remove, here', run, cleared, remove_entry_lem name v.directory i e index at) refl,
      record {
        index = i;
        entry = e;
        named = index;
        at = at;
        busy = busy;
        directory = refl;
        headers = refl;
        bits = bits;
        valid = valid;
        size = size;
      },
    )

module _ (name : List ℕ) (v v' : Volume) (r : Removed name v v') (before : Consistent v) where
  abbrev idle_entry : DirectoryEntry
  idle_entry = record r.entry { in_use = false }

  -- An entry in use was there before, and is not the one removed.
  still_there :
      (j : ℕ) (e : DirectoryEntry)
      → get_elem? v'.directory j ≡ some e
      → e.in_use ≡ true
      → (r.index ≢ j) × (get_elem? v.directory j ≡ some e)
  still_there j e at busy =
      let at' : get_elem? (set v.directory r.index idle_entry) j ≡ some e =
        ap (λ z. get_elem? z j) (sym r.directory) ∙ at in
      elim (ℕ_discrete r.index j) [
        | yes here ↦ absurd (
            ground (
              arith,
              get_elem?-set_self v.directory r.index r.entry idle_entry r.at,
              at',
              here,
              busy,
            ))
        | no away ↦ (away, sym (get_elem?-set_ne v.directory r.index j idle_entry away) ∙ at')
      ]

  owner_busy :
      (headers : ℕ → FileHeader) (e : DirectoryEntry) (x : ℕ)
      → owns headers e x ≡ true
      → e.in_use ≡ true
  owner_busy headers e x own = ground (arith, own)

  same_owner : (e : DirectoryEntry) (x : ℕ) → owns v'.headers e x ≡ owns v.headers e x
  same_owner e x = ap (λ z. owns z e x) r.headers

  not_removed :
      (j : ℕ) (e : DirectoryEntry) (x : ℕ)
      → r.index ≢ j
      → get_elem? v.directory j ≡ some e
      → owns v.headers e x ≡ true
      → owns v.headers r.entry x ≡ false
  not_removed j e x away at own = elim (Bool-cases (owns v.headers r.entry x)) [
    | inl both ↦ absurd (away (before.apart r.index j r.entry e x r.at at both own))
    | inr only ↦ only
  ]

  Removed-Consistent : Consistent v'
  Removed-Consistent = record {
    valid = r.valid;
    marked = λ j e x at own.
        let own' = sym (same_owner e x) ∙ own in
        let (away, old) = still_there j e at (owner_busy v'.headers e x own) in
        let (small, set_before) = before.marked j e x old own' in
        (omega (arith, small, r.size), r.bits x ∙ rw (not_removed j e x away old own') set_before);
    apart = λ i j e e' x at at' own own'.
        before.apart i j e e' x (still_there i e at (owner_busy v'.headers e x own)).1
          (still_there j e' at' (owner_busy v'.headers e' x own')).1 (sym (same_owner e x) ∙ own)
          (sym (same_owner e' x) ∙ own');
    once = λ j e at busy.
        subst (λ z. Once (z e.sector) e.sector) (sym r.headers)
          (before.once j e (still_there j e at busy).1 busy);
  }

-- Where the bitmap is valid, the sectors of all files are marked in it, no sector belongs to two files
-- or twice to one, and the name is in the directory: Remove fails no assertion and returns TRUE, and
-- the same holds afterwards. The sectors of the entry found become free, that entry is no longer in
-- use, and nothing else changes.
pub remove-Consistent :
    (name : List ℕ) (v : Volume) (s : ℕ)
    → Consistent v
    → find name v.directory ≡ some s
    → (v' : Volume) × (remove name v ≡ some (true, v')) × Consistent v' × Removed name v v'
remove-Consistent name v s c here =
    let (v', run, r) = remove-Removed name v s c here in
    (v', run, Removed-Consistent name v v' r c, r)
