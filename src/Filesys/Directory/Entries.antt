-- ===== src/Filesys/Directory/Entries.antt =====
-- Find, Add and Remove of filesys/directory.cc.
use cmps.Prelude.{
  ℕ, zero, suc, ◌≡◌, refl, ap, sym, ◌∙◌, true, false, ◌&&◌, List, [], ◌∷◌, Option, none, some,
  get_elem?, set, if◌then◌else◌, arith, Bool-cases, Option-cases, inl, inr,
}
use cmps.Filesys.Directory.{
  DirectoryEntry, Table, hit, find_index, find, free_index, new_entry, add, remove, release_entry,
  same_name,
}
use cmps.Filesys.Directory.Names.{same_name-prefix, same_name-same, same_name_self}

-- The sector of the first entry in use that has the name.
found : List ℕ → Table → Option ℕ
found name [] = none
found name (e ∷ es) = if hit name e then some e.sector else found name es

find-found : (name : List ℕ) (t : Table) → find name t ≡ found name t
unfolding find find_index found
find-found name [] = refl
find-found name (e ∷ es) = elim (Bool-cases (hit name e)) [
  | inl here ↦ rw here
  | inr later ↦ elim (Option-cases (find_index name es)) [
    | inl none_left ↦ rw later (ground (arith, none_left, find-found name es))
    | inr (i, e') ↦ rw later (ground (arith, e', find-found name es))
  ]
]

free_first : (e : DirectoryEntry) (es : Table) → free_index (e ∷ es) ≡ some 0 → e.in_use ≡ false
unfolding free_index
free_first e es free = elim (Bool-cases e.in_use) [
  | inl busy ↦ elim (Option-cases (free_index es)) [
    | inl e' ↦ absurd (ground (arith, free, busy, e'))
    | inr (i, e') ↦ absurd (ground (arith, free, busy, e'))
  ]
  | inr idle ↦ idle
]

free_later :
    (e : DirectoryEntry) (es : Table) (i : ℕ)
    → free_index (e ∷ es) ≡ some (suc i)
    → free_index es ≡ some i
unfolding free_index
free_later e es i free = elim (Option-cases (free_index es)) [
  | inl e' ↦ absurd (ground (arith, free, e'))
  | inr (j, e') ↦ ground (arith, free, e')
]

not_first :
    (name : List ℕ) (e : DirectoryEntry) (es : Table)
    → find_index name (e ∷ es) ≡ none
    → (hit name e ≡ false) × (find_index name es ≡ none)
unfolding find_index
not_first name e es absent = elim (Bool-cases (hit name e)) [
  | inl here ↦ absurd (ground (arith, rw here at absent))
  | inr later ↦ (
    later,
    elim (Option-cases (find_index name es)) [
      | inl e' ↦ e'
      | inr (j, e') ↦ absurd (ground (arith, rw (later, e') at absent))
    ],
  )
]

-- An entry that is not in use can be replaced by one that is not hit.
found-set_free :
    (name : List ℕ) (t : Table) (i : ℕ) (new : DirectoryEntry)
    → free_index t ≡ some i
    → hit name new ≡ false
    → found name (set t i new) ≡ found name t
unfolding found free_index
found-set_free name [] i new free miss = absurd (ground (arith, free))
found-set_free name (e ∷ es) zero new free miss =
    rw (miss, ap (λ z. z && same_name 9 e.name name) (free_first e es free))
found-set_free name (e ∷ es) (suc i) new free miss =
    ap (λ z. if hit name e then some e.sector else z)
      (found-set_free name es i new (free_later e es i free) miss)

-- A new entry is found, where its name was not in the table.
found-set_new :
    (name : List ℕ) (t : Table) (i : ℕ) (new : DirectoryEntry)
    → free_index t ≡ some i
    → find_index name t ≡ none
    → hit name new ≡ true
    → (found name (set t i new) ≡ some new.sector) × (find_index name (set t i new) ≡ some i)
unfolding found free_index find_index
found-set_new name [] i new free absent here = absurd (ground (arith, free))
found-set_new name (e ∷ es) zero new free absent here = (rw here, rw here)
found-set_new name (e ∷ es) (suc i) new free absent here =
    let (miss, absent') = not_first name e es absent in
    let (out, index) = found-set_new name es i new (free_later e es i free) absent' here in
    (rw miss out, rw (miss, index))

find_index-same :
    (name other : List ℕ) (t : Table)
    → same_name 9 name other ≡ true
    → find_index other t ≡ find_index name t
unfolding find_index
find_index-same name other [] same = refl
find_index-same name other (e ∷ es) same =
    rw (same_name-same 9 name other e.name same, find_index-same name other es same)

pub set_twice : (t : Table) (i : ℕ) (a b : DirectoryEntry) → set (set t i a) i b ≡ set t i b
set_twice [] i a b = refl
set_twice (e ∷ es) zero a b = refl
set_twice (e ∷ es) (suc i) a b = ap (◌∷◌ e) (set_twice es i a b)

set-get :
    (t : Table) (i : ℕ) (a : DirectoryEntry)
    → free_index t ≡ some i
    → get_elem? (set t i a) i ≡ some a
unfolding free_index
set-get [] i a free = absurd (ground (arith, free))
set-get (e ∷ es) zero a free = refl
set-get (e ∷ es) (suc i) a free = set-get es i a (free_later e es i free)

module _ (name : List ℕ) (sector : ℕ) (t : Table) (i : ℕ) (absent : find_index name t ≡ none)
    (free : free_index t ≡ some i) where
  abbrev pub entry : DirectoryEntry
  entry = new_entry name sector

  abbrev pub added : Table
  added = set t i entry

  abbrev pub removed : Table
  removed = set t i (record entry { in_use = false })

  hit-entry : (other : List ℕ) → hit other entry ≡ same_name 9 name other
  hit-entry other = same_name-prefix 9 name other

  pub find-added :
      (other : List ℕ)
      → find other added ≡ (if same_name 9 name other then some sector else find other t)
  find-added other = elim (Bool-cases (same_name 9 name other)) [
    | inl same ↦ rw same (
        find-found other added
        ∙ (found-set_new other t i entry free (find_index-same name other t same ∙ absent)
            (hit-entry other ∙ same)).0)
    | inr differs ↦ rw differs (
        find-found other added
        ∙ found-set_free other t i entry free (hit-entry other ∙ differs)
        ∙ sym (find-found other t))
  ]

  pub find_index-added : find_index name added ≡ some i
  find_index-added =
      (found-set_new name t i entry free absent (hit-entry name ∙ same_name_self 9 name)).1

  pub find-removed : (other : List ℕ) → find other removed ≡ find other t
  find-removed other =
      find-found other removed
      ∙ found-set_free other t i (record entry { in_use = false }) free refl
      ∙ sym (find-found other t)

  remove-added : remove name added ≡ (true, removed)
  unfolding remove release_entry
  remove-added = rw (
    remove,
    find_index-added,
    release_entry,
    set-get t i entry free,
    set_twice t i entry (record entry { in_use = false }),
  )

  -- Where the name is not in the directory and an entry is free: Add returns TRUE. Find then gives the
  -- new sector for every name with the same first 9 characters, and what it gave before for every
  -- other name. A Remove of the name then returns TRUE, and Find gives for every name what it gave
  -- before Add.
  find-add-remove :
      (t₁ t₂ : Table) × (add name sector t ≡ (true, t₁))
      × ((other : List ℕ)
          → find other t₁ ≡ (if same_name 9 name other then some sector else find other t))
      × (remove name t₁ ≡ (true, t₂))
      × ((other : List ℕ) → find other t₂ ≡ find other t)
  unfolding add
  find-add-remove = (added, removed, rw (add, absent, free), find-added, remove-added, find-removed)
