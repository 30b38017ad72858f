-- ===== src/Threads/Kernel/Order.antt =====
-- Membership in the sequences of threads/list.cc, and threads that wait in Semaphore::P among them.
use cmps.Prelude.{
  ℕ, ◌+◌, ◌≤◌, ◌≡◌, ◌≢◌, ◌⊎◌, inl, inr, refl, sym, ◌∙◌, Bool, true, false, List, [], ◌∷◌, ◌++◌,
  arith, ◌==◌, if◌then◌else◌, Absent, Bool-cases,
}
use cmps.Threads.Kernel.{Thread, Place, outside, in_p, put}

abbrev pub In : ℕ → List ℕ → Type 0
In t [] = ⊥
In t (x ∷ xs) = (t ≡ x) ⊎ In t xs

pub In-snoc : (t c : ℕ) (xs : List ℕ) → In t (xs ++ c ∷ []) → In t xs ⊎ (t ≡ c)
In-snoc t c [] (inl e) = inr e
In-snoc t c [] (inr m) = elim m [ ]
In-snoc t c (x ∷ xs) (inl e) = inl (inl e)
In-snoc t c (x ∷ xs) (inr m) = elim (In-snoc t c xs m) [ inl old ↦ inl (inr old) | inr e ↦ inr e ]

pub snoc_old : (t c : ℕ) (xs : List ℕ) → In t xs → In t (xs ++ c ∷ [])
snoc_old t c [] m = elim m [ ]
snoc_old t c (x ∷ xs) (inl e) = inl e
snoc_old t c (x ∷ xs) (inr m) = inr (snoc_old t c xs m)

pub snoc_last : (t c : ℕ) (xs : List ℕ) → t ≡ c → In t (xs ++ c ∷ [])
snoc_last t c [] e = inl e
snoc_last t c (x ∷ xs) e = inr (snoc_last t c xs e)

pub Absent-of_In : (c : ℕ) (xs : List ℕ) → ((t : ℕ) → In t xs → t ≢ c) → Absent c xs
Absent-of_In c [] h = tt
Absent-of_In c (x ∷ xs) h = (λ e. h x (inl refl) (sym e), Absent-of_In c xs (λ t m. h t (inr m)))

pub In-Absent : (t c : ℕ) (xs : List ℕ) → Absent c xs → In t xs → t ≢ c
In-Absent t c [] a m f = elim m [ ]
In-Absent t c (x ∷ xs) a (inl e) f = a.0 (sym f ∙ e)
In-Absent t c (x ∷ xs) a (inr m) f = In-Absent t c xs a.1 m f

-- The thread goes on inside the loop of P on the semaphore.
abbrev pub is_in_p : ℕ → Place → Bool
is_in_p s outside = false
is_in_p s (in_p r) = s == r

abbrev pub one_if : Bool → ℕ
one_if b = if b then 1 else 0

pub retrying : ℕ → (ℕ → Thread) → List ℕ → ℕ
retrying s threads [] = 0
retrying s threads (t ∷ ts) = one_if (is_in_p s (threads t).place) + retrying s threads ts

pub retrying-snoc :
    (s : ℕ) (threads : ℕ → Thread) (t : ℕ) (ts : List ℕ)
    → retrying s threads (ts ++ t ∷ [])
      ≡ retrying s threads ts + one_if (is_in_p s (threads t).place)
unfolding retrying
retrying-snoc s threads t [] = omega arith
retrying-snoc s threads t (x ∷ ts) = omega (arith, retrying-snoc s threads t ts)

pub retrying-cons :
    (s : ℕ) (threads : ℕ → Thread) (t : ℕ) (ts : List ℕ)
    → retrying s threads (t ∷ ts) ≡ one_if (is_in_p s (threads t).place) + retrying s threads ts
unfolding retrying
retrying-cons s threads t ts = refl

pub is_in_p-place : (s : ℕ) (q : Place) → is_in_p s q ≡ true → q ≡ in_p s
is_in_p-place s outside h = absurd (ground (arith, h))
is_in_p-place s (in_p r) h = ground (arith, h)

pub retrying-found :
    (s : ℕ) (threads : ℕ → Thread) (ts : List ℕ)
    → 1 ≤ retrying s threads ts
    → (t : ℕ) × In t ts × ((threads t).place ≡ in_p s)
unfolding retrying
retrying-found s threads [] h = absurd (ground (arith, h))
retrying-found s threads (t ∷ ts) h = elim (Bool-cases (is_in_p s (threads t).place)) [
  | inl e ↦ (t, inl refl, is_in_p-place s (threads t).place e)
  | inr e ↦ let (u, m, q) = retrying-found s threads ts (ground (arith, h, e)) in (u, inr m, q)
]

-- It depends on the places of the threads in the list only.
pub retrying-same :
    (s : ℕ) (threads threads' : ℕ → Thread) (ts : List ℕ)
    → ((t : ℕ) → In t ts → (threads' t).place ≡ (threads t).place)
    → retrying s threads' ts ≡ retrying s threads ts
unfolding retrying
retrying-same s threads threads' [] h = refl
retrying-same s threads threads' (t ∷ ts) h =
    let here : (threads' t).place ≡ (threads t).place = h t (inl refl) in
    rw (here, retrying-same s threads threads' ts (λ u m. h u (inr m)))

pub put_here {ℓ} : {A : Type ℓ} (i j : ℕ) (a : A) (f : ℕ → A) → i ≡ j → put i a f j ≡ a
put_here i j a f e = ground (arith, e)

pub put_away {ℓ} : {A : Type ℓ} (i j : ℕ) (a : A) (f : ℕ → A) → i ≢ j → put i a f j ≡ f j
put_away i j a f ne = ground (arith, ne)
