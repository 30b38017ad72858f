-- ===== src/Filesys/FileSystem/RoundTrip.antt =====
-- Create, Open and Remove of filesys/filesys.cc, one behind the other.
use cmps.Prelude.{
  ℕ, ◌+◌, ◌≤◌, ◌≡◌, refl, ap, sym, ◌∙◌, true, false, none, some, List, get_elem?, arith, set,
  Bool-cases, inl, inr, if◌then◌else◌, get_elem?-set_self, ==-of_eq,
}
use cmps.Userprog.BitMap.{is_set}
use cmps.Filesys.FileHeader.{FileHeader}
use cmps.Filesys.FileHeader.Allocate.{sectors_of, clear_bits}
use cmps.Filesys.Directory.{DirectoryEntry, find, find_index, free_index, new_entry, same_name}
use cmps.Filesys.Directory.Lookup.{find-absent, free_index-entry}
use cmps.Filesys.Directory.Names.{same_name_self}
use cmps.Filesys.Directory.Entries.{find-added, find-removed, find_index-added, set_twice}
use cmps.Filesys.OpenFile.{OpenFile}
use cmps.Filesys.FileSystem.{Volume, create, open_file, remove}
use cmps.Filesys.FileSystem.Owners.{Consistent, owns}
use cmps.Filesys.FileSystem.Create.{
  Created, present, no_space, no_entry, made, too_large, new_sector, create-Creation,
}
use cmps.Filesys.FileSystem.Keeps.{Created-Consistent, owns-new}
use cmps.Filesys.FileSystem.Remove.{Removed, remove-Removed}

module _ (name : List ℕ) (initial_size : ℕ) (v v' : Volume) (c : Created name initial_size v v')
    (absent : find name v.directory ≡ none) (before : Consistent v) where
  find-created :
      (other : List ℕ)
      → find other v'.directory
        ≡ (if same_name 9 name other then some c.sector else find other v.directory)
  find-created other =
      ap (find other) c.directory
      ∙ find-added name c.sector v.directory c.index (find-absent name v.directory absent) c.empty
          other

  open_file-created : open_file name v' ≡ some (record { hdr = c.hdr; seek_position = 0 })
  unfolding open_file
  open_file-created =
      rw (find-created name, same_name_self 9 name, c.headers, ==-of_eq c.sector c.sector refl) refl

  module _ (v'' : Volume) (r : Removed name v' v'') where
    index_lem : r.index ≡ c.index
    index_lem =
        let index =
          find_index-added name c.sector v.directory c.index (find-absent name v.directory absent)
            c.empty in
        ground (arith, r.named, ap (find_index name) c.directory, index)

    entry_lem : r.entry ≡ new_entry name c.sector
    entry_lem =
        let (old, old_at, idle) = free_index-entry v.directory c.index c.empty in
        let got = get_elem?-set_self v.directory c.index old (new_entry name c.sector) old_at in
        ground (arith, got, r.at, index_lem, ap (λ z. get_elem? z r.index) c.directory)

    find-gone : (other : List ℕ) → find other v''.directory ≡ find other v.directory
    find-gone other =
        let idle : DirectoryEntry → DirectoryEntry = λ e. record e { in_use = false } in
        ap (find other) (
          r.directory
          ∙ ap (λ z. set z r.index (idle r.entry)) c.directory
          ∙ ap (λ z. set (set v.directory c.index (new_entry name c.sector)) z (idle r.entry))
              index_lem
          ∙ ap (λ z. set (set v.directory c.index (new_entry name c.sector)) c.index (idle z))
              entry_lem
          ∙ set_twice v.directory c.index (new_entry name c.sector)
              (idle (new_entry name c.sector)))
        ∙ find-removed name c.sector v.directory c.index (find-absent name v.directory absent)
            c.empty other

    bits-gone : (x : ℕ) → is_set v''.free_map x ≡ is_set v.free_map x
    bits-gone x =
        let own : owns v'.headers r.entry x ≡ new_sector c.sector c.hdr x =
          ap (λ z. owns v'.headers z x) entry_lem ∙ owns-new name initial_size v v' c before x in
        elim (Bool-cases (new_sector c.sector c.hdr x)) [
          | inl m ↦ r.bits x ∙ rw (own ∙ m) (sym (c.fresh x m).1)
          | inr m ↦ r.bits x ∙ rw (own ∙ m) (c.used x ∙ rw m refl)
        ]

-- Where the files are apart and marked in the bitmap, the name is not in the directory, an entry is
-- free, and there are free sectors for the header and the data, at most 62 of these: Create returns
-- TRUE. Open then gives a file of that size, and Remove returns TRUE and leaves the bits of the
-- bitmap, and what Find says of any name, as they were before Create.
pub remove-create :
    (blank : FileHeader) (name : List ℕ) (initial_size : ℕ) (v : Volume) (i : ℕ)
    → Consistent v
    → find name v.directory ≡ none
    → free_index v.directory ≡ some i
    → 1 + sectors_of initial_size ≤ clear_bits v.free_map
    → sectors_of initial_size ≤ 62
    → (v' v'' : Volume) × (f : OpenFile) × (create blank name initial_size v ≡ some (true, v'))
      × (open_file name v' ≡ some f)
      × (f.hdr.num_bytes ≡ initial_size)
      × (remove name v' ≡ some (true, v''))
      × ((other : List ℕ) → find other v''.directory ≡ find other v.directory)
      × ((x : ℕ) → is_set v''.free_map x ≡ is_set v.free_map x)
remove-create blank name initial_size v i before absent empty enough fits =
    elim (create-Creation blank name initial_size v before.valid) [
      | present s here out ↦ absurd (ground (arith, here, absent))
      | no_space _ full out ↦ absurd (omega (arith, full, enough))
      | no_entry _ full out ↦ absurd (ground (arith, full, empty))
      | too_large _ large out ↦ absurd (omega (arith, large, fits))
      | made v' _ room out c ↦
          let after = Created-Consistent name initial_size v v' c before in
          let here : find name v'.directory ≡ some c.sector =
            find-created name initial_size v v' c absent before name
            ∙ rw (same_name_self 9 name) refl in
          let (v'', gone, r) = remove-Removed name v' c.sector after here in
          (
            v',
            v'',
            record { hdr = c.hdr; seek_position = 0 },
            out,
            open_file-created name initial_size v v' c absent before,
            c.bytes,
            gone,
            find-gone name initial_size v v' c absent before v'' r,
            bits-gone name initial_size v v' c absent before v'' r,
          )
    ]
