-- ===== src/Threads/Sequence.antt =====
-- What the list of threads/list.cc is a list of: items with keys, in their order. The other parts of
-- the kernel that keep such lists are modelled on these sequences.
use cmps.Prelude.{ℕ, ◌≤◌, List, [], ◌∷◌, arith, ltb, if◌then◌else◌, Bool-cases, inl, inr}

pub record Entry {ℓ} (A : Type ℓ) : Type ℓ where
  pub key : ℕ
  pub item : A

module _ {ℓ} {A : Type ℓ} where
  -- List::SortedInsert: in front of the first entry with a greater key.
  unfoldable pub insert : Entry A → List (Entry A) → List (Entry A)
  insert e [] = e ∷ []
  insert e (x ∷ xs) = let rest = insert e xs in if ltb e.key x.key then e ∷ x ∷ xs else x ∷ rest

  abbrev pub AllFrom : ℕ → List (Entry A) → Type 0
  AllFrom k [] = Unit {0}
  AllFrom k (x ∷ xs) = (k ≤ x.key) × AllFrom k xs

  -- The keys do not decrease.
  abbrev pub IsSorted : List (Entry A) → Type 0
  IsSorted [] = Unit {0}
  IsSorted (x ∷ xs) = AllFrom x.key xs × IsSorted xs

  pub AllFrom-weaker : (j k : ℕ) (xs : List (Entry A)) → j ≤ k → AllFrom k xs → AllFrom j xs
  AllFrom-weaker j k [] le all = tt
  AllFrom-weaker j k (x ∷ xs) le all = (omega (arith, all.0), AllFrom-weaker j k xs le all.1)

  pub AllFrom-insert :
      (k : ℕ) (e : Entry A) (xs : List (Entry A))
      → k ≤ e.key
      → AllFrom k xs
      → AllFrom k (insert e xs)
  unfolding insert
  AllFrom-insert k e [] le all = (le, tt)
  AllFrom-insert k e (x ∷ xs) le all = elim (Bool-cases (ltb e.key x.key)) [
    | inl first ↦ rw first (le, all)
    | inr later ↦ rw later (all.0, AllFrom-insert k e xs le all.1)
  ]

  -- A sorted sequence stays sorted.
  pub IsSorted-insert : (e : Entry A) (xs : List (Entry A)) → IsSorted xs → IsSorted (insert e xs)
  unfolding insert
  IsSorted-insert e [] s = (tt, tt)
  IsSorted-insert e (x ∷ xs) s = elim (Bool-cases (ltb e.key x.key)) [
    | inl first ↦
        rw first
          ((ground (arith, first), AllFrom-weaker e.key x.key xs (ground (arith, first)) s.0), s)
    | inr later ↦
        rw later (AllFrom-insert x.key e xs (ground (arith, later)) s.0, IsSorted-insert e xs s.1)
  ]
