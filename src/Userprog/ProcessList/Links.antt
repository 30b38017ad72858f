-- ===== src/Userprog/ProcessList/Links.antt =====
-- What it means that the pointers of a process list stand for a list of elements.
use cmps.Prelude.{Absent, first_of_list, last_of_list, ℕ, ◌≡◌, ◌≢◌, ◌⊎◌, List, [], ◌∷◌, none, some}
use cmps.Userprog.ProcessList.{Heap, ProcessList}

abbrev pub Unseen : Heap → ℕ → List ℕ → Type 0
Unseen h x [] = Unit {0}
Unseen h x (y ∷ ys) = ((h x).pid ≢ (h y).pid) × Unseen h x ys

-- The elements are different, and so are their PIDs.
abbrev pub Distinct : Heap → List ℕ → Type 0
Distinct h [] = Unit {0}
Distinct h (x ∷ xs) = Absent x xs × Unseen h x xs × Distinct h xs

-- Neighbours point at each other. What the first element has before it and the last behind it is
-- left open.
abbrev pub Links : Heap → List ℕ → Type 0
Links h [] = Unit {0}
Links h (x ∷ []) = Unit {0}
Links h (x ∷ y ∷ r) = ((h x).next ≡ some y) × ((h y).previous ≡ some x) × Links h (y ∷ r)

pub record IsList (h : Heap) (l : ProcessList) (xs : List ℕ) : Type 0 where
  pub at_head : l.head ≡ first_of_list xs
  pub at_tail : l.tail ≡ last_of_list xs
  pub links : Links h xs
  pub ended : (t : ℕ) → last_of_list xs ≡ some t → ((h t).next ≡ none) ⊎ ((h t).next ≡ some t)
  pub distinct : Distinct h xs
