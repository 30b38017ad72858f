-- ===== src/Threads/LinkedList/Chain.antt =====
-- What it means that the pointers of a list of threads/list.cc stand for a sequence.
use cmps.Prelude.{
  ℕ, ◌≡◌, ◌≢◌, refl, subst, ap, List, [], ◌∷◌, ◌++◌, map, Option, none, some, arith, Absent,
  last_of_list,
}
use cmps.Threads.Sequence.{Entry}
use cmps.Threads.LinkedList.{Heap, ListElement, LinkedList, update, set_next}

-- From the pointer `p` on stand these elements, and then NULL.
abbrev pub Chain : Heap → Option ℕ → List ℕ → Type 0
Chain h p [] = p ≡ none
Chain h p (x ∷ xs) = (p ≡ some x) × Chain h (h x).next xs

abbrev pub NoDup : List ℕ → Type 0
NoDup [] = Unit {0}
NoDup (x ∷ xs) = Absent x xs × NoDup xs

pub record IsList (h : Heap) (l : LinkedList) (xs : List ℕ) : Type 0 where
  pub chain : Chain h l.first xs
  pub at_last : l.last ≡ last_of_list xs
  pub no_dup : NoDup xs

abbrev pub entry : Heap → ℕ → Entry ℕ
entry h x = record { key = (h x).key; item = (h x).item }

-- The sequence that a list stands for.
abbrev pub contents : Heap → List ℕ → List (Entry ℕ)
contents h xs = map (entry h) xs

-- The list `l` stands for the sequence `es`.
pub record Holds (h : Heap) (l : LinkedList) (xs : List ℕ) (es : List (Entry ℕ)) : Type 0 where
  pub is_list : IsList h l xs
  pub entries : contents h xs ≡ es

-- A change of an element that is not in the chain.
pub Chain-update :
    (h : Heap) (a : ℕ) (e : ListElement) (p : Option ℕ) (xs : List ℕ)
    → Absent a xs
    → Chain h p xs
    → Chain (update h a e) p xs
Chain-update h a e p [] away c = c
Chain-update h a e p (x ∷ xs) away c = (
  c.0,
  subst (λ (z : ListElement). Chain (update h a e) z.next xs) same
      (Chain-update h a e (h x).next xs away.1 c.1),
)
  where
    same : h x ≡ update h a e x
    same = ground (arith, away.0)

pub contents-update :
    (h : Heap) (a : ℕ) (e : ListElement) (xs : List ℕ)
    → Absent a xs
    → contents (update h a e) xs ≡ contents h xs
contents-update h a e [] away = refl
contents-update h a e (x ∷ xs) away =
    let same : update h a e x ≡ h x = ground (arith, away.0) in
    rw (same, contents-update h a e xs away.1)

-- A change of pointers keeps the sequence.
pub contents-set_next :
    (h : Heap) (a : ℕ) (n : Option ℕ) (xs : List ℕ) → contents (set_next h a n) xs ≡ contents h xs
contents-set_next h a n [] = refl
contents-set_next h a n (x ∷ xs) =
    let same : entry (set_next h a n) x ≡ entry h x = ground arith in
    rw (same, contents-set_next h a n xs)

pub Absent-snoc : (x c : ℕ) (xs : List ℕ) → Absent x xs → x ≢ c → Absent x (xs ++ c ∷ [])
Absent-snoc x c [] a ne = (ne, tt)
Absent-snoc x c (y ∷ ys) a ne = (a.0, Absent-snoc x c ys a.1 ne)

pub NoDup-snoc : (c : ℕ) (xs : List ℕ) → NoDup xs → Absent c xs → NoDup (xs ++ c ∷ [])
NoDup-snoc c [] d a = (tt, tt)
NoDup-snoc c (x ∷ xs) d a = (Absent-snoc x c xs d.0 (ground (arith, a.0)), NoDup-snoc c xs d.1 a.1)

pub last-snoc : (c : ℕ) (xs : List ℕ) → last_of_list (xs ++ c ∷ []) ≡ some c
last-snoc c [] = refl
last-snoc c (x ∷ []) = refl
last-snoc c (x ∷ y ∷ xs) = last-snoc c (y ∷ xs)

pub last_some : (x : ℕ) (xs : List ℕ) → (t : ℕ) × (last_of_list (x ∷ xs) ≡ some t)
last_some x [] = (x, refl)
last_some x (y ∷ xs) = last_some y xs

last_ne : (x y t : ℕ) (xs : List ℕ) → Absent x (y ∷ xs) → last_of_list (y ∷ xs) ≡ some t → x ≢ t
last_ne x y t [] a e = ground (arith, a.0, e)
last_ne x y t (z ∷ xs) a e = last_ne x z t xs a.1 e

-- The element `c`, which points at NULL, behind the last one.
pub Chain-attach :
    (h : Heap) (c t x : ℕ) (p : Option ℕ) (xs : List ℕ)
    → Chain h p (x ∷ xs)
    → NoDup (x ∷ xs)
    → Absent c (x ∷ xs)
    → last_of_list (x ∷ xs) ≡ some t
    → (h c).next ≡ none
    → Chain (set_next h t (some c)) p (x ∷ xs ++ c ∷ [])
Chain-attach h c t x p [] chain d a e ends =
    (chain.0, (ground (arith, e), ground (arith, e, a.0, ends)))
Chain-attach h c t x p (y ∷ xs) chain d a e ends = (
  chain.0,
  subst (λ (z : ListElement). Chain (set_next h t (some c)) z.next (y ∷ xs ++ c ∷ [])) same
      (Chain-attach h c t y (h x).next xs chain.1 d.1 a.1 e ends),
)
  where
    same : h x ≡ set_next h t (some c) x
    same = ground (arith, last_ne x y t xs d.0 e)

pub contents-snoc :
    (h : Heap) (c : ℕ) (xs : List ℕ) → contents h (xs ++ c ∷ []) ≡ contents h xs ++ entry h c ∷ []
contents-snoc h c [] = refl
contents-snoc h c (x ∷ xs) = ap (◌∷◌ (entry h x)) (contents-snoc h c xs)

-- The new list is the old one with another element, and no other element has changed.
pub record Gained (h : Heap) (c : ℕ) (xs : List ℕ) (xs' : List ℕ) (es' : List (Entry ℕ)) (h' : Heap)
    (l' : LinkedList) : Type 0 where
  pub holds : Holds h' l' xs' es'
  pub elsewhere : (q : ℕ) → q ≢ c → Absent q xs → h' q ≡ h q
