-- ===== src/Threads/LinkedList/Insert.antt =====
-- List::SortedInsert of threads/list.cc: where the loop puts the new element.
use cmps.Prelude.{
  ℕ, suc, zero, ◌<◌, ◌≡◌, ◌≢◌, inl, inr, refl, sym, subst, ap, ◌∙◌, true, false, List, [], ◌∷◌,
  ◌++◌, Option, none, some, arith, ltb, if◌then◌else◌, Absent, last_of_list, length, Bool-cases,
}
use cmps.Threads.Sequence.{Entry, insert}
use cmps.Threads.LinkedList.{
  Heap, ListElement, LinkedList, set_next, new_element, sorted_insert, walk, singleton,
}
use cmps.Threads.LinkedList.Chain.{
  Chain, NoDup, Holds, Gained, contents, entry, Chain-update, contents-update, contents-set_next,
  contents-snoc, last_some,
}
use cmps.Threads.LinkedList.Ends.{new_entry, attach_lem, front_lem, single_lem}

-- The elements, with `c` in front of the first that has a greater key.
insert_at : Heap → ℕ → ℕ → List ℕ → List ℕ
insert_at h key c [] = c ∷ []
insert_at h key c (x ∷ xs) =
    let rest = insert_at h key c xs in if ltb key (h x).key then c ∷ x ∷ xs else x ∷ rest

-- The loop has come to the end, or has put `c` between two elements.
data Walked (h : Heap) (c key x : ℕ) (ys : List ℕ) (out : Option (Option Heap)) : Type 0 where
  ended : out ≡ some none → insert_at h key c ys ≡ ys ++ c ∷ [] → Walked h c key x ys out
  placed :
      (z : ℕ) (n : ℕ)
      → out ≡ some (some (set_next (set_next h c (some n)) z (some c)))
      → Chain (set_next (set_next h c (some n)) z (some c)) (some x) (x ∷ insert_at h key c ys)
      → last_of_list (x ∷ insert_at h key c ys) ≡ last_of_list (x ∷ ys)
      → ((q : ℕ) → Absent q (x ∷ ys) → q ≢ z)
      → Walked h c key x ys out

at_front :
    (h : Heap) (key c y : ℕ) (ys : List ℕ)
    → ltb key (h y).key ≡ true
    → insert_at h key c (y ∷ ys) ≡ c ∷ y ∷ ys
unfolding insert_at
at_front h key c y ys e = rw e

at_later :
    (h : Heap) (key c y : ℕ) (ys : List ℕ)
    → ltb key (h y).key ≡ false
    → insert_at h key c (y ∷ ys) ≡ y ∷ insert_at h key c ys
unfolding insert_at
at_later h key c y ys e = rw e

between :
    (h : Heap) (c x y : ℕ) (ys : List ℕ)
    → Chain h (some x) (x ∷ y ∷ ys)
    → NoDup (x ∷ y ∷ ys)
    → Absent c (x ∷ y ∷ ys)
    → Chain (set_next (set_next h c (some y)) x (some c)) (some x) (x ∷ c ∷ y ∷ ys)
between h c x y ys chain d a = (
  refl,
  (
    ground arith,
    (subst (λ p. Chain h₂ p (y ∷ ys)) (ground (arith, a.0))
        (Chain-update h₁ x (record (h₁ x) { next = some c }) (some y) (y ∷ ys) d.0
          (Chain-update h c (record (h c) { next = some y }) (some y) (y ∷ ys) a.1
            (refl, chain.1.1)))),
  ),
)
  where
    h₁ : Heap
    h₁ = set_next h c (some y)

    h₂ : Heap
    h₂ = set_next h₁ x (some c)

-- The loop ends within as many rounds as there are elements.
walk-Walked :
    (fuel : ℕ) (h : Heap) (c key x : ℕ) (ys : List ℕ)
    → length ys < fuel
    → Chain h (some x) (x ∷ ys)
    → NoDup (x ∷ ys)
    → Absent c (x ∷ ys)
    → Walked h c key x ys (walk fuel c key h x)
unfolding walk
walk-Walked zero h c key x ys enough chain d a = absurd (omega arith)
walk-Walked (suc fuel) h c key x [] enough chain d a =
    ended (ground (arith, chain.1)) (unfold insert_at in refl)
walk-Walked (suc fuel) h c key x (y ∷ ys) enough chain d a = elim (Bool-cases (ltb key (h y).key)) [
  | inl greater ↦
      let front = at_front h key c y ys greater in
      placed x y (ground (arith, chain.1.0, greater))
        (subst (λ zs. Chain (set_next (set_next h c (some y)) x (some c)) (some x) (x ∷ zs))
          (sym front) (between h c x y ys chain d a))
        (ap (λ zs. last_of_list (x ∷ zs)) front) (λ q gone. gone.0)
  | inr not_greater ↦
      let later = at_later h key c y ys not_greater in
      elim (walk-Walked fuel h c key y ys (omega (arith, enough)) (refl, chain.1.1) d.1 a.1) [
        | ended out all ↦
            ended (ground (arith, chain.1.0, not_greater, out)) (later ∙ ap (◌∷◌ y) all)
        | placed z n out chain' last' away ↦
            let kept : h x ≡ set_next (set_next h c (some n)) z (some c) x =
              ground (arith, a.0, away x d.0) in
            placed z n (ground (arith, chain.1.0, not_greater, out))
              (subst (λ zs. Chain (set_next (set_next h c (some n)) z (some c)) (some x) (x ∷ zs))
                (sym later)
                (
                  refl,
                  subst
                      (λ (e : ListElement).
                        Chain (set_next (set_next h c (some n)) z (some c)) e.next
                          (y ∷ insert_at h key c ys))
                      kept
                      (subst
                        (λ p.
                          Chain (set_next (set_next h c (some n)) z (some c)) p
                            (y ∷ insert_at h key c ys))
                        (sym chain.1.0) chain'),
                ))
              (ap (λ zs. last_of_list (x ∷ zs)) later ∙ last') (λ q gone. away q gone.1)
      ]
]

Absent-insert_at :
    (h : Heap) (key c q : ℕ) (xs : List ℕ) → q ≢ c → Absent q xs → Absent q (insert_at h key c xs)
unfolding insert_at
Absent-insert_at h key c q [] ne a = (ne, tt)
Absent-insert_at h key c q (x ∷ xs) ne a = elim (Bool-cases (ltb key (h x).key)) [
  | inl greater ↦ rw greater (ne, a)
  | inr later ↦ rw later (a.0, Absent-insert_at h key c q xs ne a.1)
]

NoDup-insert_at :
    (h : Heap) (key c : ℕ) (xs : List ℕ) → NoDup xs → Absent c xs → NoDup (insert_at h key c xs)
unfolding insert_at
NoDup-insert_at h key c [] d a = (tt, tt)
NoDup-insert_at h key c (x ∷ xs) d a = elim (Bool-cases (ltb key (h x).key)) [
  | inl greater ↦ rw greater (a, d)
  | inr later ↦
      rw later (
        Absent-insert_at h key c x xs (ground (arith, a.0)) d.0,
        NoDup-insert_at h key c xs d.1 a.1,
      )
]

-- The entries of the elements are in the order of the sequence.
contents-insert_at :
    (h : Heap) (key c item : ℕ) (xs : List ℕ)
    → entry h c ≡ new_entry item key
    → contents h (insert_at h key c xs) ≡ insert (new_entry item key) (contents h xs)
unfolding insert_at insert
contents-insert_at h key c item [] e = rw e
contents-insert_at h key c item (x ∷ xs) e = elim (Bool-cases (ltb key (h x).key)) [
  | inl greater ↦ rw (greater, e)
  | inr later ↦ rw (later, contents-insert_at h key c item xs e)
]

module _ (h : Heap) (l : LinkedList) (x : ℕ) (xs : List ℕ) (es : List (Entry ℕ)) (c item key : ℕ)
    (holds : Holds h l (x ∷ xs) es) (away : Absent c (x ∷ xs)) where
  abbrev h₁ : Heap
  h₁ = new_element c item key h

  abbrev new : Entry ℕ
  new = new_entry item key

  written : entry h₁ c ≡ new
  written = ground arith

  kept : contents h₁ (x ∷ xs) ≡ es
  kept =
      contents-update h c (record { next = none; key = key; item = item }) (x ∷ xs) away
      ∙ holds.entries

  chain₁ : Chain h₁ (some x) (x ∷ xs)
  chain₁ =
      subst (λ p. Chain h₁ p (x ∷ xs)) holds.is_list.chain.0
        (Chain-update h c (record { next = none; key = key; item = item }) l.first (x ∷ xs) away
          holds.is_list.chain)

  inserted : contents h₁ (insert_at h₁ key c (x ∷ xs)) ≡ insert new es
  inserted = contents-insert_at h₁ key c item (x ∷ xs) written ∙ ap (insert new) kept

  insert_first : ltb key (h₁ x).key ≡ true → new ∷ es ≡ insert new es
  insert_first greater =
      sym (
        ap (λ zs. contents h₁ zs) (at_front h₁ key c x xs greater)
        ∙ ap (λ z. z ∷ contents h₁ (x ∷ xs)) written
        ∙ ap (◌∷◌ new) kept)
      ∙ inserted

  insert_last : insert_at h₁ key c (x ∷ xs) ≡ x ∷ xs ++ c ∷ [] → es ++ new ∷ [] ≡ insert new es
  insert_last e =
      sym (
        ap (λ zs. contents h₁ zs) e
        ∙ contents-snoc h₁ c (x ∷ xs)
        ∙ ap (λ z. contents h₁ (x ∷ xs) ++ z ∷ []) written
        ∙ ap (λ zs. zs ++ new ∷ []) kept)
      ∙ inserted

  -- The element is behind another one, and not the last.
  inner_lem :
      (z n : ℕ)
      → ltb key (h₁ x).key ≡ false
      → Chain (set_next (set_next h₁ c (some n)) z (some c)) (some x) (x ∷ insert_at h₁ key c xs)
      → last_of_list (x ∷ insert_at h₁ key c xs) ≡ last_of_list (x ∷ xs)
      → ((q : ℕ) → Absent q (x ∷ xs) → q ≢ z)
      → Gained h c
          (x ∷ xs)
          (insert_at h₁ key c (x ∷ xs))
          (insert new es)
          (set_next (set_next h₁ c (some n)) z (some c))
          l
  inner_lem z n later chain last' apart = record {
    holds = record {
      is_list = record {
        chain =
            subst (λ zs. Chain h₂ l.first zs) (sym place)
              (subst (λ p. Chain h₂ p (x ∷ insert_at h₁ key c xs)) (sym holds.is_list.chain.0)
                chain);
        at_last = holds.is_list.at_last ∙ sym last' ∙ sym (ap last_of_list place);
        no_dup = NoDup-insert_at h₁ key c (x ∷ xs) holds.is_list.no_dup away;
      };
      entries =
          contents-set_next (set_next h₁ c (some n)) z (some c) (insert_at h₁ key c (x ∷ xs))
          ∙ contents-set_next h₁ c (some n) (insert_at h₁ key c (x ∷ xs))
          ∙ inserted;
    };
    elsewhere = λ q ne gone. ground (arith, ne, apart q gone);
  }
    where
      h₂ : Heap
      h₂ = set_next (set_next h₁ c (some n)) z (some c)

      place : insert_at h₁ key c (x ∷ xs) ≡ x ∷ insert_at h₁ key c xs
      place = at_later h₁ key c x xs later

-- Where the list stands for a sequence of items with keys: SortedInsert of a new element, with fuel
-- for more than the elements, does not fail, puts the item in front of the first one with a greater
-- key, or at the end, and changes no element outside the list.
pub sorted_insert-Gained :
    (fuel : ℕ) (h : Heap) (l : LinkedList) (xs : List ℕ) (es : List (Entry ℕ)) (c item key : ℕ)
    → Holds h l xs es
    → Absent c xs
    → length xs < fuel
    → (h' : Heap) × (l' : LinkedList) × (xs' : List ℕ) × (sorted_insert fuel c item key h l
        ≡ some (h', l'))
      × Gained h c xs xs' (insert (new_entry item key) es) h' l'
unfolding sorted_insert
sorted_insert-Gained fuel h l [] es c item key holds away enough = (
  new_element c item key h,
  singleton c,
  c ∷ [],
  ground (arith, holds.is_list.chain),
  subst
      (λ z.
        Gained h c [] (c ∷ []) (insert (new_entry item key) z) (new_element c item key h)
          (singleton c))
      holds.entries (unfold insert in single_lem h c item key),
)
sorted_insert-Gained fuel h l (x ∷ xs) es c item key holds away enough =
    elim (Bool-cases (ltb key (h₁' x).key)) [
      | inl greater ↦ (
        set_next h₁' c l.first,
        record l { first = some c },
        c ∷ x ∷ xs,
        ground (arith, holds.is_list.chain.0, greater),
        subst
            (λ z.
              Gained h c (x ∷ xs) (c ∷ x ∷ xs) z (set_next h₁' c l.first)
                (record l { first = some c }))
            (insert_first h l x xs es c item key holds away greater)
            (front_lem h l x xs es c item key holds away),
      )
      | inr later ↦
          elim (walk-Walked fuel h₁' c key x xs (omega (arith, enough))
            (chain₁ h l x xs es c item key holds away) holds.is_list.no_dup away) [
              | ended out all ↦
                  let (t, e) = last_some x xs in
                  (
                    set_next h₁' t (some c),
                    record l { last = some c },
                    x ∷ xs ++ c ∷ [],
                    ground (arith, holds.is_list.chain.0, holds.is_list.at_last, later, out, e),
                    subst
                        (λ z.
                          Gained h c (x ∷ xs) (x ∷ xs ++ c ∷ []) z (set_next h₁' t (some c))
                            (record l { last = some c }))
                        (insert_last h l x xs es c item key holds away
                          (at_later h₁' key c x xs later ∙ ap (◌∷◌ x) all))
                        (attach_lem h l x xs es c item key t holds away e),
                  )
              | placed z n out chain last' apart ↦ (
                set_next (set_next h₁' c (some n)) z (some c),
                l,
                insert_at h₁' key c (x ∷ xs),
                ground (arith, holds.is_list.chain.0, later, out),
                inner_lem h l x xs es c item key holds away z n later chain last' apart,
              )
            ]
    ]
  where
    h₁' : Heap
    h₁' = new_element c item key h
