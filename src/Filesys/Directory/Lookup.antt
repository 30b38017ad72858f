-- ===== src/Filesys/Directory/Lookup.antt =====
-- What FindIndex and Find of filesys/directory.cc say of the entries.
use cmps.Prelude.{
  ℕ, suc, ◌≡◌, true, false, none, some, List, [], ◌∷◌, get_elem?, arith, Bool-cases, Option-cases,
  inl, inr,
}
use cmps.Filesys.Directory.{DirectoryEntry, Table, hit, find_index, find, free_index}

-- The entry that FindIndex gives.
pub find_index-entry :
    (name : List ℕ) (t : Table) (i : ℕ)
    → find_index name t ≡ some i
    → (e : DirectoryEntry) × (get_elem? t i ≡ some e) × (e.in_use ≡ true)
unfolding find_index
find_index-entry name [] i h = absurd (ground (arith, h))
find_index-entry name (e ∷ es) i h = elim (Bool-cases (hit name e)) [
  | inl here ↦
      let first : some 0 ≡ some i = rw here at h in (e, ground (arith, first), ground (arith, here))
  | inr later ↦ elim (Option-cases (find_index name es)) [
    | inl none_left ↦ absurd (ground (arith, h, later, none_left))
    | inr (j, e') ↦
        let (x, at, used) = find_index-entry name es j e' in
        let here : i ≡ suc j = ground (arith, h, later, e') in (x, rw here at, used)
  ]
]

pub find-entry :
    (name : List ℕ) (t : Table) (s : ℕ)
    → find name t ≡ some s
    → (i : ℕ) × (e : DirectoryEntry) × (find_index name t ≡ some i)
      × (get_elem? t i ≡ some e)
      × (e.in_use ≡ true)
      × (e.sector ≡ s)
unfolding find
find-entry name t s h = elim (Option-cases (find_index name t)) [
  | inl absent ↦ absurd (ground (arith, h, absent))
  | inr (i, index) ↦
      let (e, at, used) = find_index-entry name t i index in
      (i, e, index, at, used, ground (arith, h, index, at))
]

pub find-absent : (name : List ℕ) (t : Table) → find name t ≡ none → find_index name t ≡ none
unfolding find
find-absent name t h = elim (Option-cases (find_index name t)) [
  | inl absent ↦ absent
  | inr (i, index) ↦
      let (e, at, used) = find_index-entry name t i index in absurd (ground (arith, h, index, at))
]

pub free_index-entry :
    (t : Table) (i : ℕ)
    → free_index t ≡ some i
    → (e : DirectoryEntry) × (get_elem? t i ≡ some e) × (e.in_use ≡ false)
unfolding free_index
free_index-entry [] i h = absurd (ground (arith, h))
free_index-entry (e ∷ es) i h = elim (Bool-cases e.in_use) [
  | inr idle ↦ let first : some 0 ≡ some i = rw idle at h in (e, ground (arith, first), idle)
  | inl busy ↦ elim (Option-cases (free_index es)) [
    | inl none_left ↦ absurd (ground (arith, h, busy, none_left))
    | inr (j, e') ↦
        let (x, at, used) = free_index-entry es j e' in
        let here : i ≡ suc j = ground (arith, h, busy, e') in (x, rw here at, used)
  ]
]
