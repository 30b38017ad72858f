-- ===== src/Threads/LinkedList/Ends.antt =====
-- List::Append, List::Prepend, List::Remove and List::SortedRemove of threads/list.cc.
use cmps.Prelude.{
  Absent-last_of_list, ℕ, ◌≡◌, refl, sym, subst, ap, ◌∙◌, false, List, [], ◌∷◌, ◌++◌, Option, none,
  some, arith, ◌==◌, Absent, last_of_list,
}
use cmps.Threads.Sequence.{Entry}
use cmps.Threads.LinkedList.{
  Heap, ListElement, LinkedList, set_next, new_element, append, prepend, sorted_remove, empty,
  singleton,
}
use cmps.Threads.LinkedList.Chain.{
  Chain, Holds, Gained, contents, entry, Chain-update, contents-update, contents-set_next,
  contents-snoc, NoDup-snoc, last-snoc, last_some, Chain-attach,
}

-- The element that an entry is put into.
abbrev pub new_entry : ℕ → ℕ → Entry ℕ
new_entry item key = record { key = key; item = item }

-- A new element behind the last one.
pub attach_lem :
    (h : Heap) (l : LinkedList) (x : ℕ) (xs : List ℕ) (es : List (Entry ℕ)) (c item key t : ℕ)
    → Holds h l (x ∷ xs) es
    → Absent c (x ∷ xs)
    → last_of_list (x ∷ xs) ≡ some t
    → Gained h c
        (x ∷ xs)
        (x ∷ xs ++ c ∷ [])
        (es ++ new_entry item key ∷ [])
        (set_next (new_element c item key h) t (some c))
        (record l { last = some c })
attach_lem h l x xs es c item key t holds away e = record {
  holds = record {
    is_list = record {
      chain =
          Chain-attach h₁ c t x l.first xs
            (Chain-update h c new l.first (x ∷ xs) away holds.is_list.chain) holds.is_list.no_dup
            away e (ground arith);
      at_last = sym (last-snoc c (x ∷ xs));
      no_dup = NoDup-snoc c (x ∷ xs) holds.is_list.no_dup away;
    };
    entries =
        contents-set_next h₁ t (some c) (x ∷ xs ++ c ∷ [])
        ∙ contents-snoc h₁ c (x ∷ xs)
        ∙ ap (λ ys. ys ++ entry h₁ c ∷ []) (contents-update h c new (x ∷ xs) away ∙ holds.entries)
        ∙ ap (λ z. es ++ z ∷ []) written;
  };
  elsewhere = λ q ne gone. ground (arith, ne, Absent-last_of_list q x t xs gone e);
}
  where
    new : ListElement
    new = record { next = none; key = key; item = item }

    h₁ : Heap
    h₁ = new_element c item key h

    written : entry h₁ c ≡ new_entry item key
    written = ground arith

pub single_lem :
    (h : Heap) (c item key : ℕ)
    → Gained h c [] (c ∷ []) (new_entry item key ∷ []) (new_element c item key h) (singleton c)
single_lem h c item key = record {
  holds = record {
    is_list = record { chain = (refl, ground arith); at_last = refl; no_dup = (tt, tt) };
    entries = ground arith;
  };
  elsewhere = λ q ne gone. ground arith;
}

-- Where the list stands for a sequence of items with keys: Append of a new element does not fail, puts
-- the item with key 0 behind the others, and changes no element outside the list.
append-Gained :
    (h : Heap) (l : LinkedList) (xs : List ℕ) (es : List (Entry ℕ)) (c item : ℕ)
    → Holds h l xs es
    → Absent c xs
    → (h' : Heap) × (l' : LinkedList) × (append c item h l ≡ some (h', l'))
      × Gained h c xs (xs ++ c ∷ []) (es ++ new_entry item 0 ∷ []) h' l'
unfolding append
append-Gained h l [] es c item holds away = (
  new_element c item 0 h,
  singleton c,
  ground (arith, holds.is_list.chain),
  subst
      (λ z.
        Gained h c [] (c ∷ []) (z ++ new_entry item 0 ∷ []) (new_element c item 0 h) (singleton c))
      holds.entries (single_lem h c item 0),
)
append-Gained h l (x ∷ xs) es c item holds away =
    let (t, e) = last_some x xs in
    (
      set_next (new_element c item 0 h) t (some c),
      record l { last = some c },
      ground (arith, holds.is_list.chain.0, holds.is_list.at_last, e),
      attach_lem h l x xs es c item 0 t holds away e,
    )

-- A new element in front of the first one.
pub front_lem :
    (h : Heap) (l : LinkedList) (x : ℕ) (xs : List ℕ) (es : List (Entry ℕ)) (c item key : ℕ)
    → Holds h l (x ∷ xs) es
    → Absent c (x ∷ xs)
    → Gained h c
        (x ∷ xs)
        (c ∷ x ∷ xs)
        (new_entry item key ∷ es)
        (set_next (new_element c item key h) c l.first)
        (record l { first = some c })
front_lem h l x xs es c item key holds away = record {
  holds = record {
    is_list = record {
      chain = (
        refl,
        subst (λ p. Chain h₂ p (x ∷ xs)) (ground arith)
            (Chain-update h₁ c (record (h₁ c) { next = l.first }) l.first (x ∷ xs) away
              (Chain-update h c new l.first (x ∷ xs) away holds.is_list.chain)),
      );
      at_last = holds.is_list.at_last;
      no_dup = (away, holds.is_list.no_dup);
    };
    entries =
        ap (λ z. z ∷ contents h₂ (x ∷ xs)) written
        ∙ ap (◌∷◌ (new_entry item key)) (
            contents-set_next h₁ c l.first (x ∷ xs)
            ∙ contents-update h c new (x ∷ xs) away
            ∙ holds.entries);
  };
  elsewhere = λ q ne gone. ground arith;
}
  where
    new : ListElement
    new = record { next = none; key = key; item = item }

    h₁ : Heap
    h₁ = new_element c item key h

    h₂ : Heap
    h₂ = set_next h₁ c l.first

    written : entry h₂ c ≡ new_entry item key
    written = ground arith

-- Prepend of a new element does not fail, puts the item with key 0 in front of the others, and changes
-- no element outside the list.
prepend-Gained :
    (h : Heap) (l : LinkedList) (xs : List ℕ) (es : List (Entry ℕ)) (c item : ℕ)
    → Holds h l xs es
    → Absent c xs
    → (h' : Heap) × (l' : LinkedList) × (prepend c item h l ≡ some (h', l'))
      × Gained h c xs (c ∷ xs) (new_entry item 0 ∷ es) h' l'
unfolding prepend
prepend-Gained h l [] es c item holds away = (
  new_element c item 0 h,
  singleton c,
  ground (arith, holds.is_list.chain),
  subst (λ z. Gained h c [] (c ∷ []) (new_entry item 0 ∷ z) (new_element c item 0 h) (singleton c))
      holds.entries (single_lem h c item 0),
)
prepend-Gained h l (x ∷ xs) es c item holds away = (
  set_next (new_element c item 0 h) c l.first,
  record l { first = some c },
  ground (arith, holds.is_list.chain.0),
  front_lem h l x xs es c item 0 holds away,
)

-- What SortedRemove gives on a list that stands for a sequence.
abbrev pub Removed :
    Heap → LinkedList → List ℕ → List (Entry ℕ) → Option (Option (ℕ × ℕ) × LinkedList) → Type 0
Removed h l xs [] out = out ≡ some (none, l)
Removed h l xs (e ∷ es) out =
    (l' : LinkedList) × (x : ℕ) × (ys : List ℕ) × (out ≡ some (some (e.item, e.key), l'))
    × (xs ≡ x ∷ ys)
    × Holds h l' ys es

first_same :
    (x y : ℕ) (xs : List ℕ) (t : ℕ)
    → Absent x (y ∷ xs)
    → last_of_list (y ∷ xs) ≡ some t
    → (x == t) ≡ false
first_same x y xs t a e = ground (arith, Absent-last_of_list x y t xs a e)

-- Where the list stands for a sequence of items with keys, SortedRemove does not fail. On a list with
-- no elements it gives NULL and leaves the list; otherwise it gives the item and the key of the first
-- element, and the list stands for the rest.
sorted_remove-Removed :
    (h : Heap) (l : LinkedList) (xs : List ℕ) (es : List (Entry ℕ))
    → Holds h l xs es
    → Removed h l xs es (sorted_remove h l)
unfolding sorted_remove
sorted_remove-Removed h l [] [] holds = ground (arith, holds.is_list.chain)
sorted_remove-Removed h l [] (e ∷ es) holds = absurd (ground (arith, holds.entries))
sorted_remove-Removed h l (x ∷ xs) [] holds = absurd (ground (arith, holds.entries))
sorted_remove-Removed h l (x ∷ []) (e ∷ es) holds = (
  empty,
  x,
  [],
  ground (arith, holds.is_list.chain.0, holds.is_list.at_last, holds.entries),
  refl,
  record {
    is_list = record { chain = refl; at_last = refl; no_dup = tt };
    entries = ground (arith, holds.entries);
  },
)
sorted_remove-Removed h l (x ∷ y ∷ xs) (e ∷ es) holds =
    let (t, last) = last_some y xs in
    (
      record l { first = (h x).next },
      x,
      y ∷ xs,
      ground (
        arith,
        holds.is_list.chain.0,
        holds.is_list.at_last,
        last,
        holds.entries,
        first_same x y xs t holds.is_list.no_dup.0 last,
      ),
      refl,
      record {
        is_list = record {
          chain = holds.is_list.chain.1;
          at_last = holds.is_list.at_last;
          no_dup = holds.is_list.no_dup.1;
        };
        entries = ground (arith, holds.entries);
      },
    )
