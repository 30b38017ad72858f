-- ===== src/Userprog/ProcessList/Lookup.antt =====
-- ProcessList::Return of userprog/exception.cc: what the search finds, and where it fails.
use cmps.Prelude.{
  last_of_list, ℕ, zero, suc, ◌<◌, ◌+◌, ◌≡◌, ◌≢◌, ◌⊎◌, inl, inr, refl, List, [], ◌∷◌, Option, none,
  some, arith, length, ◌==◌, if◌then◌else◌,
}
use cmps.Userprog.ProcessList.{Heap, ProcessList, Result, ok, fault, search, find}
use cmps.Userprog.ProcessList.Links.{IsList, Links, Distinct, Unseen}

-- The first element with the PID.
abbrev pub element_of : Heap → ℕ → List ℕ → Option ℕ
element_of h pid [] = none
element_of h pid (x ∷ xs) = if (h x).pid == pid then some x else element_of h pid xs

-- A list of one element fails the search for another PID if nothing is behind that element.
abbrev pub expected : Heap → ℕ → List ℕ → Result (Option ℕ)
expected h pid [] = ok none
expected h pid (x ∷ []) =
    if (h x).pid == pid then ok (some x) else elim (h x).next [ none ↦ fault | some _ ↦ ok none ]
expected h pid (x ∷ y ∷ r) = ok (element_of h pid (x ∷ y ∷ r))

Unseen-last :
    (h : Heap) (x y t : ℕ) (r : List ℕ)
    → Unseen h x (y ∷ r)
    → last_of_list (y ∷ r) ≡ some t
    → (h x).pid ≢ (h t).pid
Unseen-last h x y t [] u e = ground arith
Unseen-last h x y t (z ∷ r) u e = Unseen-last h x z t r u.1 e

search_lem :
    (h : Heap) (pid t fuel x y : ℕ) (r : List ℕ)
    → Links h (x ∷ y ∷ r)
    → Distinct h (x ∷ y ∷ r)
    → last_of_list (y ∷ r) ≡ some t
    → length r + 1 < fuel
    → search h pid t fuel x ≡ ok (element_of h pid (x ∷ y ∷ r))
unfolding search
search_lem h pid t zero x y r l d e enough = absurd (omega arith)
search_lem h pid t (suc fuel) x y [] l d e enough = ground arith
search_lem h pid t (suc fuel) x y (z ∷ r) l d e enough =
    ground (
      arith,
      Unseen-last h y z t r (d.2.1) e,
      search_lem h pid t fuel y z r l.2 d.2 e (omega arith),
    )

search-lone :
    (h : Heap) (pid x fuel : ℕ)
    → ((h x).next ≡ none) ⊎ ((h x).next ≡ some x)
    → search h pid x (suc fuel) x ≡ expected h pid (x ∷ [])
unfolding search
search-lone h pid x fuel (inl e) = ground (arith, e)
search-lone h pid x fuel (inr e) = ground (arith, e)

last_lem : (y : ℕ) (r : List ℕ) → (t : ℕ) × (last_of_list (y ∷ r) ≡ some t)
last_lem y [] = (y, refl)
last_lem y (z ∷ r) = last_lem z r

-- On a well-formed list, with fuel for more than its elements, Return gives the element with the
-- PID, and NULL where the list is empty or has two or more elements and none has that PID. On a list
-- of one element with another PID it gives NULL, or takes a field of NULL where the `Next` of the
-- element is NULL.
pub find-expected :
    (h : Heap) (l : ProcessList) (xs : List ℕ) (pid fuel : ℕ)
    → IsList h l xs
    → length xs < fuel
    → find fuel h l pid ≡ expected h pid xs
unfolding find
find-expected h l [] pid fuel v enough = ground (arith, v.at_head)
find-expected h l (x ∷ []) pid zero v enough = absurd (omega arith)
find-expected h l (x ∷ []) pid (suc fuel) v enough =
    ground (arith, v.at_head, v.at_tail, search-lone h pid x fuel (v.ended x refl))
find-expected h l (x ∷ y ∷ r) pid fuel v enough =
    let (t, e) = last_lem y r in
    ground (
      arith,
      v.at_head,
      v.at_tail,
      e,
      search_lem h pid t fuel x y r v.links v.distinct e (omega arith),
    )
