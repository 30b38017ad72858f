-- ===== src/Userprog/ProcessList/Update.antt =====
-- ProcessList::Append and ProcessList::Remove of userprog/exception.cc: the lists that they leave.
use cmps.Prelude.{
  Absent, last_of_list, ℕ, zero, suc, ◌<◌, ◌≡◌, ◌≢◌, inl, inr, refl, sym, subst, ◌∙◌, List, [], ◌∷◌,
  ◌++◌, Option, none, some, arith,
}
use mathlib.Core.List.{append-nil}
use cmps.Userprog.ProcessList.{
  Heap, ProcessList, ok, fault, ◌>>=◌, append, remove, empty, find, search, set_next, set_previous,
}
use cmps.Userprog.ProcessList.Links.{IsList, Links, Distinct, Unseen}

-- A change of pointers keeps the PIDs.
abbrev SamePids : Heap → Heap → Type 0
SamePids h h' = (x : ℕ) → (h' x).pid ≡ (h x).pid

set_next-SamePids : (h : Heap) (p : ℕ) (n : Option ℕ) → SamePids h (set_next h p n)
set_next-SamePids h p n x = ground arith

set_previous-SamePids : (h : Heap) (p : ℕ) (n : Option ℕ) → SamePids h (set_previous h p n)
set_previous-SamePids h p n x = ground arith

module _ (h h' : Heap) (same : SamePids h h') where
  Unseen-same : (x : ℕ) (xs : List ℕ) → Unseen h x xs → Unseen h' x xs
  Unseen-same x [] u = tt
  Unseen-same x (y ∷ ys) u = (ground (arith, same x, same y), Unseen-same x ys u.1)

  Distinct-same : (xs : List ℕ) → Distinct h xs → Distinct h' xs
  Distinct-same [] d = tt
  Distinct-same (x ∷ xs) d = (d.0, Unseen-same x xs d.1, Distinct-same xs d.2)

module _ (h : Heap) where
  Absent-snoc : (x c : ℕ) (xs : List ℕ) → Absent x xs → x ≢ c → Absent x (xs ++ c ∷ [])
  Absent-snoc x c [] a ne = (ne, tt)
  Absent-snoc x c (y ∷ ys) a ne = (a.0, Absent-snoc x c ys a.1 ne)

  Unseen-snoc :
      (x c : ℕ) (xs : List ℕ) → Unseen h x xs → (h x).pid ≢ (h c).pid → Unseen h x (xs ++ c ∷ [])
  Unseen-snoc x c [] u ne = (ne, tt)
  Unseen-snoc x c (y ∷ ys) u ne = (u.0, Unseen-snoc x c ys u.1 ne)

  Distinct-snoc :
      (c : ℕ) (xs : List ℕ)
      → Distinct h xs
      → Absent c xs
      → Unseen h c xs
      → Distinct h (xs ++ c ∷ [])
  Distinct-snoc c [] d a u = (tt, tt, tt)
  Distinct-snoc c (x ∷ xs) d a u = (
    Absent-snoc x c xs d.0 (ground arith),
    Unseen-snoc x c xs d.1 (ground arith),
    Distinct-snoc c xs d.2 a.1 u.1,
  )

  Absent-drop : (x c : ℕ) (xs ys : List ℕ) → Absent x (xs ++ c ∷ ys) → (x ≢ c) × Absent x (xs ++ ys)
  Absent-drop x c [] ys a = a
  Absent-drop x c (z ∷ xs) ys a = let rest = Absent-drop x c xs ys a.1 in (rest.0, (a.0, rest.1))

  Unseen-drop : (x c : ℕ) (xs ys : List ℕ) → Unseen h x (xs ++ c ∷ ys) → Unseen h x (xs ++ ys)
  Unseen-drop x c [] ys u = u.1
  Unseen-drop x c (z ∷ xs) ys u = (u.0, Unseen-drop x c xs ys u.1)

  Distinct-drop : (c : ℕ) (xs ys : List ℕ) → Distinct h (xs ++ c ∷ ys) → Distinct h (xs ++ ys)
  Distinct-drop c [] ys d = d.2
  Distinct-drop c (x ∷ xs) ys d =
      ((Absent-drop x c xs ys d.0).1, Unseen-drop x c xs ys d.1, Distinct-drop c xs ys d.2)

  -- The last element of a front part does not stand in the rest.
  Absent-append : (x : ℕ) (xs ys : List ℕ) → Absent x (xs ++ ys) → Absent x ys
  Absent-append x [] ys a = a
  Absent-append x (z ∷ xs) ys a = Absent-append x xs ys a.1

  Distinct-append : (xs ys : List ℕ) → Distinct h (xs ++ ys) → Distinct h ys
  Distinct-append [] ys d = d
  Distinct-append (x ∷ xs) ys d = Distinct-append xs ys d.2

  Absent-front : (x : ℕ) (xs ys : List ℕ) → Absent x (xs ++ ys) → Absent x xs
  Absent-front x [] ys a = tt
  Absent-front x (z ∷ xs) ys a = (a.0, Absent-front x xs ys a.1)

  Unseen-front : (x : ℕ) (xs ys : List ℕ) → Unseen h x (xs ++ ys) → Unseen h x xs
  Unseen-front x [] ys a = tt
  Unseen-front x (z ∷ xs) ys a = (a.0, Unseen-front x xs ys a.1)

  Distinct-front : (xs ys : List ℕ) → Distinct h (xs ++ ys) → Distinct h xs
  Distinct-front [] ys d = tt
  Distinct-front (x ∷ xs) ys d =
      (Absent-front x xs ys d.0, Unseen-front x xs ys d.1, Distinct-front xs ys d.2)

  last_apart :
      (t x : ℕ) (xs ys : List ℕ)
      → Distinct h (x ∷ xs ++ ys)
      → last_of_list (x ∷ xs) ≡ some t
      → Absent t ys
  last_apart t x [] ys d e = let same : x ≡ t = ground arith in rw (← same) d.0
  last_apart t x (y ∷ xs) ys d e = last_apart t y xs ys d.2 e

last_ne : (x y t : ℕ) (xs : List ℕ) → Absent x (y ∷ xs) → last_of_list (y ∷ xs) ≡ some t → x ≢ t
last_ne x y t [] a e = ground arith
last_ne x y t (z ∷ xs) a e = last_ne x z t xs a.1 e

last-append : (x c : ℕ) (xs ys : List ℕ) → last_of_list (x ∷ xs ++ c ∷ ys) ≡ last_of_list (c ∷ ys)
last-append x c [] ys = refl
last-append x c (z ∷ xs) ys = last-append z c xs ys

pub last_some : (x : ℕ) (xs : List ℕ) → (t : ℕ) × (last_of_list (x ∷ xs) ≡ some t)
last_some x [] = (x, refl)
last_some x (y ∷ xs) = last_some y xs

-- The heap after Append of `c` behind `t`.
abbrev attached : Heap → ℕ → ℕ → Heap
attached h t c = set_previous (set_next h t (some c)) c (some t)

Links-attached :
    (h : Heap) (c t x : ℕ) (r : List ℕ)
    → Links h (x ∷ r)
    → Distinct h (x ∷ r)
    → Absent c (x ∷ r)
    → last_of_list (x ∷ r) ≡ some t
    → Links (attached h t c) (x ∷ r ++ c ∷ [])
Links-attached h c t x [] l d a e = (ground arith, ground arith, tt)
Links-attached h c t x (y ∷ r) l d a e =
    (ground (arith, last_ne x y t r d.0 e), ground arith, Links-attached h c t y r l.2 d.2 a.1 e)

-- Append of an element that is not on the list, whose PID is not, and whose `Next` is itself, as the
-- kernel sets it, does not fail, and puts the element at the end of the list.
pub append_lem :
    (h : Heap) (l : ProcessList) (xs : List ℕ) (c : ℕ)
    → IsList h l xs
    → Absent c xs
    → Unseen h c xs
    → (h c).next ≡ some c
    → (h' : Heap) × (l' : ProcessList) × (append h l c ≡ ok (h', l')) × IsList h' l' (xs ++ c ∷ [])
unfolding append
append_lem h l [] c v a u self = (
  h,
  record { head = some c; tail = some c },
  ground (arith, v.at_head),
  record {
    at_head = refl;
    at_tail = refl;
    links = tt;
    ended = λ t e. inr (ground arith);
    distinct = (tt, tt, tt);
  },
)
append_lem h l (x ∷ xs) c v a u self =
    let (t, last) = last_some x xs in
    (
      attached h t c,
      record l { tail = some c },
      ground (arith, v.at_head, v.at_tail, last),
      record {
        at_head = v.at_head;
        at_tail = sym (last-append x c xs []);
        links = Links-attached h c t x xs v.links v.distinct a last;
        ended = λ q e.
            inr (ended_lem q (ground (arith, last-append x c xs [])) (last_ne c x t xs a last));
        distinct =
            Distinct-same h (attached h t c) (λ y. ground arith) (x ∷ xs ++ c ∷ [])
              (Distinct-snoc h c (x ∷ xs) v.distinct a u);
      },
    )
  where
    ended_lem : {t : ℕ} (q : ℕ) → q ≡ c → c ≢ t → (attached h t c q).next ≡ some q
    ended_lem {t} q same ne = rw same (ground (arith, self))

-- A change of pointers at `p` does not show in a list without `p`.
Links-frame :
    (h h' : Heap) (p : ℕ)
    → ((y : ℕ) → p ≢ y → ((h' y).next ≡ (h y).next) × ((h' y).previous ≡ (h y).previous))
    → (x : ℕ) (r : List ℕ) → Absent p (x ∷ r)
    → Links h (x ∷ r)
    → Links h' (x ∷ r)
Links-frame h h' p agree x [] a l = tt
Links-frame h h' p agree x (y ∷ r) a l =
    (rw ((agree x a.0).0) l.0, rw ((agree y a.1.0).1) l.1, Links-frame h h' p agree y r a.1 l.2)

-- What stands before the first element does not show either.
Links-set_previous :
    (h : Heap) (n : ℕ) (v : Option ℕ) (r : List ℕ)
    → Absent n r
    → Links h (n ∷ r)
    → Links (set_previous h n v) (n ∷ r)
Links-set_previous h n v [] a l = tt
Links-set_previous h n v (y ∷ r) a l = (
  ground arith,
  ground arith,
  Links-frame h (set_previous h n v) n (λ z ne. (ground arith, ground arith)) y r a l.2,
)

-- Nor does what stands behind the last.
Links-cut_last :
    (h : Heap) (c x t : ℕ) (r : List ℕ)
    → Links h (x ∷ r ++ c ∷ [])
    → Distinct h (x ∷ r)
    → last_of_list (x ∷ r) ≡ some t
    → Links (set_next h t none) (x ∷ r) × ((h c).previous ≡ some t)
Links-cut_last h c x t [] l d e = (tt, ground (arith, l.1))
Links-cut_last h c x t (y ∷ r) l d e =
    let rest = Links-cut_last h c y t r l.2 d.2 e in
    ((ground (arith, l.0, last_ne x y t r d.0 e), ground (arith, l.1), rest.0), rest.1)

-- The heap after Remove of an element between `t` and `n`.
abbrev bridged : Heap → ℕ → ℕ → Heap
bridged h t n = set_previous (set_next h t (some n)) n (some t)

Links-bridged :
    (h : Heap) (c x t n : ℕ) (r ys : List ℕ)
    → Links h (x ∷ r ++ c ∷ n ∷ ys)
    → Distinct h (x ∷ r ++ c ∷ n ∷ ys)
    → last_of_list (x ∷ r) ≡ some t
    → Links (bridged h t n) (x ∷ r ++ n ∷ ys) × ((h c).previous ≡ some t) × ((h c).next ≡ some n)
Links-bridged h c x t n [] ys l d e = (
  (
    ground arith,
    ground arith,
    Links-set_previous (set_next h t (some n)) n (some t) ys (d.2.2.0) (
        Links-frame h (set_next h t (some n)) t (λ z ne. (ground arith, ground arith)) n ys
          (subst (λ z. Absent z (n ∷ ys)) (ground arith) d.0.1) l.2.2),
  ),
  ground (arith, l.1),
  l.2.0,
)
Links-bridged h c x t n (y ∷ r) ys l d e =
    let rest = Links-bridged h c y t n r ys l.2 d.2 e in
    let x_apart = Absent-append h x (y ∷ r) (c ∷ n ∷ ys) d.0 in
    let y_apart = Absent-append h y r (c ∷ n ∷ ys) d.2.0 in
    let x_first = last_ne x y t r (Absent-front h x (y ∷ r) (c ∷ n ∷ ys) d.0) e in
    ((ground (arith, l.0), ground (arith, l.1), rest.0), rest.1, rest.2)

-- Remove of an element of the list does not fail, and takes that element out of the list; the others
-- keep their order.
pub remove_lem :
    (h : Heap) (l : ProcessList) (xs ys : List ℕ) (c : ℕ)
    → IsList h l (xs ++ c ∷ ys)
    → (h' : Heap) × (l' : ProcessList) × (remove h l c ≡ ok (h', l')) × IsList h' l' (xs ++ ys)
unfolding remove
remove_lem h l [] [] c v = (
  h,
  empty,
  ground (arith, v.at_head, v.at_tail),
  record { at_head = refl; at_tail = refl; links = tt; ended = λ t e. cc; distinct = tt },
)
remove_lem h l [] (n ∷ ys) c v =
    let (t, last) = last_some n ys in
    let apart = last_ne c n t ys v.distinct.0 last in
    (
      set_previous h n none,
      record l { head = some n },
      ground (arith, v.at_head, v.at_tail, last, v.links.0),
      record {
        at_head = refl;
        at_tail = v.at_tail;
        links = Links-set_previous h n none ys v.distinct.2.0 v.links.2;
        ended = λ q e. ground (arith, v.ended q e);
        distinct =
            Distinct-same h (set_previous h n none) (set_previous-SamePids h n none) (n ∷ ys)
              v.distinct.2;
      },
    )
remove_lem h l (x ∷ xs) [] c v =
    let (t, last) = last_some x xs in
    let front = Distinct-front h (x ∷ xs) (c ∷ []) v.distinct in
    let cut = Links-cut_last h c x t xs v.links front last in
    let not_first = (Absent-append h x xs (c ∷ []) v.distinct.0).0 in
    (
      set_next h t none,
      record l { tail = some t },
      ground (arith, v.at_head, v.at_tail, last-append x c xs [], cut.1),
      rw append-nil (record {
        at_head = v.at_head;
        at_tail = sym last;
        links = cut.0;
        ended = λ q e. inl (ground arith);
        distinct = Distinct-same h (set_next h t none) (set_next-SamePids h t none) (x ∷ xs) front;
      }),
    )
remove_lem h l (x ∷ xs) (n ∷ ys) c v =
    let (t, last) = last_some x xs in
    let bridge = Links-bridged h c x t n xs ys v.links v.distinct last in
    let (q, last') = last_some n ys in
    let rest = Distinct-append h (x ∷ xs) (c ∷ n ∷ ys) v.distinct in
    let not_first = (Absent-append h x xs (c ∷ n ∷ ys) v.distinct.0).0 in
    let not_last = last_ne c n q ys rest.0 last' in
    let apart = last_apart h t x xs (c ∷ n ∷ ys) v.distinct last in
    (
      bridged h t n,
      l,
      ground
          (arith, v.at_head, v.at_tail, last-append x c xs (n ∷ ys), bridge.1, bridge.2, apart.0),
      record {
        at_head = v.at_head;
        at_tail = rw (last-append x n xs ys, v.at_tail, last-append x c xs (n ∷ ys));
        links = bridge.0;
        ended = λ z e.
            let e' : last_of_list (n ∷ ys) ≡ some z = sym (last-append x n xs ys) ∙ e in
            ground
              (arith, v.ended z (last-append x c xs (n ∷ ys) ∙ e'), last_ne t n z ys apart.1 e');
        distinct =
            Distinct-same h (bridged h t n) (λ y. ground arith) (x ∷ xs ++ n ∷ ys)
              (Distinct-drop h c (x ∷ xs) (n ∷ ys) v.distinct);
      },
    )

-- After Remove of the last of two elements, a search for the PID of neither takes a field of NULL:
-- Remove leaves NULL behind the element that stays, and Return looks behind it before it has
-- compared it with the tail.
pub remove-find_faults :
    (h : Heap) (l : ProcessList) (a b pid fuel : ℕ)
    → IsList h l (a ∷ b ∷ [])
    → (h a).pid ≢ pid
    → 0 < fuel
    → (remove h l b >>= λ out. find fuel out.0 out.1 pid) ≡ fault
unfolding remove find search
remove-find_faults h l a b pid zero v ne enough = absurd (omega arith)
remove-find_faults h l a b pid (suc fuel) v ne enough =
    ground (arith, v.at_head, v.at_tail, v.links, v.distinct.0)
