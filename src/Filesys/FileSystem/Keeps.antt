-- ===== src/Filesys/FileSystem/Keeps.antt =====
-- Create of filesys/filesys.cc keeps the files of the volume apart.
use cmps.Prelude.{
  ℕ, ◌<◌, ◌≡◌, ◌≢◌, ◌⊎◌, refl, ap, sym, ◌∙◌, subst, Bool, true, false, ◌&&◌, ◌||◌, some, List,
  get_elem?, ◌==◌, arith, set, Bool-cases, inl, inr, get_elem?-set_self, get_elem?-set_ne, ==-of_eq,
  ==-of_ne,
}
use native.Mathlib.Decide.{ℕ_discrete}
use cmps.Userprog.BitMap.{is_set}
use cmps.Filesys.FileHeader.{FileHeader}
use cmps.Filesys.FileHeader.Loops.{among}
use cmps.Filesys.Directory.{DirectoryEntry, new_entry}
use cmps.Filesys.Directory.Lookup.{free_index-entry}
use cmps.Filesys.FileSystem.{Volume, create}
use cmps.Filesys.FileSystem.Owners.{Consistent, Once, owns, data_of}
use cmps.Filesys.FileSystem.Create.{
  Created, present, no_space, no_entry, made, too_large, new_sector, create-Creation,
}

module _ (name : List ℕ) (initial_size : ℕ) (v v' : Volume) (c : Created name initial_size v v')
    (before : Consistent v) where
  abbrev pub new : DirectoryEntry
  new = new_entry name c.sector

  -- An entry of the new directory is the new one, or was there before.
  new_or_old :
      (j : ℕ) (e : DirectoryEntry)
      → get_elem? v'.directory j ≡ some e
      → ((c.index ≡ j) × (e ≡ new)) ⊎ ((c.index ≢ j) × (get_elem? v.directory j ≡ some e))
  new_or_old j e at =
      let at' : get_elem? (set v.directory c.index new) j ≡ some e =
        ap (λ z. get_elem? z j) (sym c.directory) ∙ at in
      elim (ℕ_discrete c.index j) [
        | yes here ↦
            let (old, old_at, idle) = free_index-entry v.directory c.index c.empty in
            let got = get_elem?-set_self v.directory c.index old new old_at in
            inl (here, ground (arith, got, at', here))
        | no away ↦ inr (away, sym (get_elem?-set_ne v.directory c.index j new away) ∙ at')
      ]

  pub owns-new : (x : ℕ) → owns v'.headers new x ≡ new_sector c.sector c.hdr x
  owns-new x = ap (λ z. owns z new x) c.headers ∙ rw (==-of_eq c.sector c.sector refl) refl

  own_new :
      (e : DirectoryEntry) (x : ℕ)
      → e ≡ new
      → owns v'.headers e x ≡ true
      → new_sector c.sector c.hdr x ≡ true
  own_new e x is_new own = sym (owns-new x) ∙ ap (λ z. owns v'.headers z x) (sym is_new) ∙ own

  same_header :
      (j : ℕ) (e : DirectoryEntry)
      → get_elem? v.directory j ≡ some e
      → e.in_use ≡ true
      → v'.headers e.sector ≡ v.headers e.sector
  same_header j e at busy =
      let self : owns v.headers e e.sector ≡ true = ground (arith, busy) in
      let taken = (before.marked j e e.sector at self).1 in
      let other : c.sector ≢ e.sector =
        λ same. ground (arith, taken, (c.fresh e.sector (ground (arith, same))).1) in
      ap (λ z. z e.sector) c.headers ∙ rw (==-of_ne c.sector e.sector other) refl

  owns-old :
      (j : ℕ) (e : DirectoryEntry) (x : ℕ)
      → get_elem? v.directory j ≡ some e
      → owns v'.headers e x ≡ owns v.headers e x
  owns-old j e x at = elim (Bool-cases e.in_use) [
    | inr idle ↦ rw idle refl
    | inl busy ↦
        ap (λ z. e.in_use && ((e.sector == x) || among x (data_of z))) (same_header j e at busy)
  ]

  -- A new sector belongs to no other entry.
  new-old :
      (j : ℕ) (e : DirectoryEntry) (x : ℕ)
      → get_elem? v.directory j ≡ some e
      → owns v.headers e x ≡ true
      → new_sector c.sector c.hdr x ≡ false
  new-old j e x at own = elim (Bool-cases (new_sector c.sector c.hdr x)) [
    | inl m ↦ absurd (ground (arith, (c.fresh x m).1, (before.marked j e x at own).1))
    | inr m ↦ m
  ]

  marked' :
      (j : ℕ) (e : DirectoryEntry) (x : ℕ)
      → get_elem? v'.directory j ≡ some e
      → owns v'.headers e x ≡ true
      → (x < v'.free_map.num_bits) × (is_set v'.free_map x ≡ true)
  marked' j e x at own = elim (new_or_old j e at) [
    | inl (here, is_new) ↦
        let m = own_new e x is_new own in
        (omega (arith, (c.fresh x m).0, c.size), c.used x ∙ rw m refl)
    | inr (away, old) ↦
        let (small, set_before) = before.marked j e x old (sym (owns-old j e x old) ∙ own) in
        (omega (arith, small, c.size), ground (arith, c.used x, set_before))
  ]

  apart' :
      (i j : ℕ) (e e' : DirectoryEntry) (x : ℕ)
      → get_elem? v'.directory i ≡ some e
      → get_elem? v'.directory j ≡ some e'
      → owns v'.headers e x ≡ true
      → owns v'.headers e' x ≡ true
      → i ≡ j
  apart' i j e e' x at at' own own' = elim (new_or_old i e at) [
    | inl (here, is_new) ↦ elim (new_or_old j e' at') [
      | inl (here', is_new') ↦ omega (arith, here, here')
      | inr (away', old') ↦ absurd (
          ground (
            arith,
            own_new e x is_new own,
            new-old j e' x old' (sym (owns-old j e' x old') ∙ own'),
          ))
    ]
    | inr (away, old) ↦ elim (new_or_old j e' at') [
      | inl (here', is_new') ↦ absurd (
          ground
            (arith, own_new e' x is_new' own', new-old i e x old (sym (owns-old i e x old) ∙ own)))
      | inr (away', old') ↦
          before.apart i j e e' x old old' (sym (owns-old i e x old) ∙ own)
            (sym (owns-old j e' x old') ∙ own')
    ]
  ]

  once' :
      (j : ℕ) (e : DirectoryEntry)
      → get_elem? v'.directory j ≡ some e
      → e.in_use ≡ true
      → Once (v'.headers e.sector) e.sector
  once' j e at busy = elim (new_or_old j e at) [
    | inl (here, is_new) ↦
        let header : v'.headers new.sector ≡ c.hdr =
          ap (λ z. z new.sector) c.headers ∙ rw (==-of_eq c.sector c.sector refl) refl in
        subst (λ z. Once (v'.headers z.sector) z.sector) (sym is_new)
          (subst (λ z. Once z new.sector) (sym header) (c.once.0, c.once.1, c.room))
    | inr (away, old) ↦
        subst (λ z. Once z e.sector) (sym (same_header j e old busy)) (before.once j e old busy)
  ]

  pub Created-Consistent : Consistent v'
  Created-Consistent = record { valid = c.valid; marked = marked'; apart = apart'; once = once' }

-- Where the bitmap is valid, the sectors of all files are marked in it, and no sector belongs to two
-- files or twice to one: after a Create that returns, TRUE or FALSE, this holds again.
pub create-Consistent :
    (blank : FileHeader) (name : List ℕ) (initial_size : ℕ) (v v' : Volume) (success : Bool)
    → Consistent v
    → create blank name initial_size v ≡ some (success, v')
    → Consistent v'
create-Consistent blank name initial_size v v' success c run =
    elim (create-Creation blank name initial_size v c.valid) [
      | present s here out ↦ subst Consistent (ground (arith, run, out)) c
      | no_space absent full out ↦ subst Consistent (ground (arith, run, out)) c
      | no_entry absent full out ↦ subst Consistent (ground (arith, run, out)) c
      | made new absent room out m ↦
          subst Consistent (ground (arith, run, out))
            (Created-Consistent name initial_size v new m c)
      | too_large absent large out ↦ absurd (ground (arith, run, out))
    ]
