-- ===== src/Threads/Philosophers/Sticks.antt =====
-- Who eats at the table of threads/threadtest.cc.
use cmps.Prelude.{
  ℕ, suc, zero, ◌+◌, ◌-◌, ◌%◌, ◌<◌, ◌≤◌, ◌≡◌, ◌≢◌, refl, Bool, true, false, ◌&&◌, ltb, ◌==◌,
  if◌then◌else◌, arith, subst, Bool-cases, inl, inr, eq_of_==, ap, sym, ◌∙◌,
}
use native.Mathlib.Nat.{mod-lt, mod-eq_of_lt, mod_self, add-mod_right}
use native.Mathlib.Decide.{ℕ_discrete}
use cmps.Threads.Kernel.{put}
use cmps.Threads.Kernel.Order.{put_away}
use cmps.Threads.Philosophers.{
  at, eat_p, check_sticks, available, granted, put_left, put_right, grant, set_state, PState,
  thinking, is_eating, is_hungry, Pc, Room, eats, hungry, left_of, right_of, Move, Step, start,
  Reach,
}

right_of_last : (n i : ℕ) → i < n → i + 1 ≡ n → right_of n i ≡ 0
right_of_last n i h e = ap (λ z. z % n) e ∙ mod_self n

right_of_other : (n i : ℕ) → i + 1 < n → right_of n i ≡ i + 1
right_of_other n i h = mod-eq_of_lt h

left_of_first : (n : ℕ) → 0 < n → left_of n 0 ≡ n - 1
left_of_first n h = ap (λ z. z % n) (omega (arith, h)) ∙ mod-eq_of_lt (omega (arith, h))

left_of_other : (n i : ℕ) → suc i < n → left_of n (suc i) ≡ i
left_of_other n i h =
    ap (λ z. z % n) (omega (arith, h)) ∙ add-mod_right i n ∙ mod-eq_of_lt (omega (arith, h))

pub right_of-lt : (n i : ℕ) → i < n → right_of n i < n
right_of-lt n i h = mod-lt (i + 1) (omega (arith, h))

-- The left neighbour of the right one.
neighbours : (n j : ℕ) → j < n → j ≡ left_of n (right_of n j)
neighbours n j h = elim (ℕ_discrete (j + 1) n) [
  | yes last ↦ sym (
      ap (left_of n) (right_of_last n j h last)
      ∙ left_of_first n (omega (arith, h))
      ∙ omega (arith, last))
  | no more ↦ sym (
      ap (left_of n) (right_of_other n j (omega (arith, h, more)) ∙ omega arith)
      ∙ left_of_other n j (omega (arith, h, more)))
]

left_of-lt : (n i : ℕ) → i < n → left_of n i < n
left_of-lt n i h = mod-lt (i + n - 1) (omega (arith, h))

-- The right neighbour of the left one.
neighbours_back : (n i : ℕ) → i < n → right_of n (left_of n i) ≡ i
neighbours_back n zero h =
    ap (right_of n) (left_of_first n h)
    ∙ right_of_last n (n - 1) (omega (arith, h)) (omega (arith, h))
neighbours_back n (suc i) h =
    ap (right_of n) (left_of_other n i h) ∙ right_of_other n i (omega (arith, h)) ∙ omega arith

pub right_of-ne : (n j : ℕ) → 2 ≤ n → j < n → right_of n j ≢ j
right_of-ne n j two h e = elim (ℕ_discrete (j + 1) n) [
  | yes last ↦ omega (arith, two, last, sym (right_of_last n j h last) ∙ e)
  | no more ↦ omega (arith, sym (right_of_other n j (omega (arith, h, more))) ∙ e)
]

-- At a table for two.
both_sides : (n i : ℕ) → n ≡ 2 → i < n → left_of n i ≡ right_of n i
both_sides n i two h =
    subst (λ z. (i < z) → left_of z i ≡ right_of z i) (sym two) (λ small. omega (arith, small)) h

-- The philosopher has both sticks.
abbrev pub has_sticks : Pc → Bool
has_sticks Pc.sticks_grant_v = true
has_sticks Pc.eat_p = true
has_sticks Pc.eat_v = true
has_sticks (Pc.eat_yield k) = true
has_sticks Pc.put_p = true
has_sticks Pc.put_left_v = true
has_sticks Pc.put_right_v = true
has_sticks _ = false

abbrev pub tries : Pc → Bool
tries Pc.sticks_v = true
tries Pc.sticks_grant_p = true
tries _ = false

abbrev pub thinks : PState → Bool
thinks thinking = true
thinks is_eating = false
thinks is_hungry = false

-- No philosopher eats while the right neighbour does.
abbrev pub Apart : ℕ → (ℕ → PState) → Type 0
Apart n st = (j : ℕ) → j < n → eats (st j) ≡ true → eats (st (right_of n j)) ≡ false

less-Apart :
    (n i : ℕ) (s : PState) (st : ℕ → PState) → eats s ≡ false → Apart n st → Apart n (put i s st)
less-Apart n i s st no_meal apart j l q = ground (arith, q, no_meal, apart j l)

more-Apart :
    (n i : ℕ) (st : ℕ → PState)
    → 2 ≤ n
    → i < n
    → eats (st (left_of n i)) ≡ false
    → eats (st (right_of n i)) ≡ false
    → Apart n st
    → Apart n (put i is_eating st)
more-Apart n i st two h left right apart j l q = elim (ℕ_discrete i j) [
  | yes here ↦
      ap (λ z. eats z)
        (put_away i (right_of n j) is_eating st (λ e. right_of-ne n j two l (sym e ∙ here)))
      ∙ subst (λ z. eats (st (right_of n z)) ≡ false) here right
  | no away ↦ elim (ℕ_discrete i (right_of n j)) [
    | yes next ↦ absurd (
        ground (
          arith,
          ap (λ z. eats (st z)) (neighbours n j l ∙ ap (left_of n) (sym next)),
          left,
          sym (ap (λ z. eats z) (put_away i j is_eating st away)) ∙ q,
        ))
    | no far ↦
        ap (λ z. eats z) (put_away i (right_of n j) is_eating st far)
        ∙ apart j l (sym (ap (λ z. eats z) (put_away i j is_eating st away)) ∙ q)
  ]
]

available-free :
    (n i : ℕ) (r : Room)
    → i < n
    → available n i r ≡ true
    → (eats (r.state (left_of n i)) ≡ false) × (eats (r.state (right_of n i)) ≡ false)
available-free n i r h a = elim (Bool-cases (n == 2)) [
  | inl two ↦
      let right : eats (r.state (right_of n i)) ≡ false = ground (arith, a, two) in
      (ap (λ z. eats (r.state z)) (both_sides n i (eq_of_== n 2 two) h) ∙ right, right)
  | inr more ↦ (ground (arith, a, more), ground (arith, a, more))
]

check_sticks-Apart :
    (n i : ℕ) (r : Room) → 2 ≤ n → i < n → Apart n r.state → Apart n (check_sticks n i r).state
check_sticks-Apart n i r two h apart = elim (Bool-cases (available n i r)) [
  | inl a ↦
      let (left, right) = available-free n i r h a in
      rw a (more-Apart n i r.state two h left right apart)
  | inr a ↦ rw a apart
]

granted-Apart :
    (n i : ℕ) (r : Room) → 2 ≤ n → i < n → Apart n r.state → Apart n (granted n i r).state
granted-Apart n i r two h apart = elim (Bool-cases (hungry (r.state i))) [
  | inl a ↦
      subst (λ b. Apart n (if b then check_sticks n i r else at i eat_p r).state) (sym a)
        (check_sticks-Apart n i r two h apart)
  | inr a ↦ rw a apart
]

put_right-Apart : (n i : ℕ) (r : Room) → Apart n r.state → Apart n (put_right n i r).state
put_right-Apart n i r apart = elim (Bool-cases (ltb 2 n && hungry (r.state (right_of n i)))) [
  | inl a ↦ rw a apart
  | inr a ↦ rw a (less-Apart n i thinking r.state refl apart)
]

put_left-Apart : (n i : ℕ) (r : Room) → Apart n r.state → Apart n (put_left n i r).state
put_left-Apart n i r apart = elim (Bool-cases (hungry (r.state (left_of n i)))) [
  | inl a ↦ rw a apart
  | inr a ↦ rw a (put_right-Apart n i r apart)
]

pub record Inv (n : ℕ) (r : Room) : Type 0 where
  pub holding : (j : ℕ) → has_sticks (r.pc j) ≡ true → eats (r.state j) ≡ true
  pub trying : (j : ℕ) → tries (r.pc j) ≡ true → thinks (r.state j) ≡ false
  pub apart : Apart n r.state

module _ (n : ℕ) (two : 2 ≤ n) (i : ℕ) (r : Room) (h : i < n) (inv : Inv n r) where
  Move-holding :
      {p : Pc} {r' : Room}
      → Move n i r p r'
      → r.pc i ≡ p
      → (j : ℕ) → has_sticks (r'.pc j) ≡ true
      → eats (r'.state j) ≡ true
  Move-holding (Move.enter g) e j q =
      ground (arith, e, q, inv.holding j, inv.trying i, inv.holding i)
  Move-holding m e j q = ground (arith, e, q, inv.holding j, inv.trying i, inv.holding i)

  Move-trying :
      {p : Pc} {r' : Room}
      → Move n i r p r'
      → r.pc i ≡ p
      → (j : ℕ) → tries (r'.pc j) ≡ true
      → thinks (r'.state j) ≡ false
  Move-trying (Move.enter g) e j q = ground (arith, e, q, inv.trying j, inv.holding i)
  Move-trying m e j q = ground (arith, e, q, inv.trying j, inv.holding i)

  Move-Apart : {p : Pc} {r' : Room} → Move n i r p r' → r.pc i ≡ p → Apart n r'.state
  Move-Apart (Move.reach g) e =
      check_sticks-Apart n i (set_state i is_hungry (record r { mutex = r.mutex - 1 })) two h
        (less-Apart n i is_hungry r.state refl inv.apart)
  Move-Apart (Move.wake g) e =
      granted-Apart n i (record r { phil_grant = put i (r.phil_grant i - 1) r.phil_grant }) two h
        inv.apart
  Move-Apart (Move.lay g) e = put_left-Apart n i (record r { mutex = r.mutex - 1 }) inv.apart
  Move-Apart Move.lay_left e = put_right-Apart n i (grant (left_of n i) r) inv.apart
  Move-Apart Move.lay_right e = less-Apart n i thinking r.state refl inv.apart
  Move-Apart m e = λ j l q. ground (arith, q, inv.apart j l)

pub Step-Inv : {n : ℕ} {r r' : Room} → 2 ≤ n → Inv n r → Step n r r' → Inv n r'
Step-Inv {n} {r} two inv (Step.pick i h m) = record {
  holding = Move-holding n two i r h inv m refl;
  trying = Move-trying n two i r h inv m refl;
  apart = Move-Apart n two i r h inv m refl;
}

pub Reach-Inv : {n meals : ℕ} {r : Room} → 2 ≤ n → Reach n meals r → Inv n r
unfolding start
Reach-Inv two Reach.begin = record {
  holding = λ j q. absurd (ground (arith, q));
  trying = λ j q. absurd (ground (arith, q));
  apart = λ j l q. refl;
}
Reach-Inv two (Reach.later before s) = Step-Inv two (Reach-Inv two before) s

-- Who eats has no neighbour with both sticks.
Inv-right :
    {n : ℕ} {r : Room}
    → Inv n r
    → (j : ℕ) → j < n
    → has_sticks (r.pc j) ≡ true
    → has_sticks (r.pc (right_of n j)) ≡ false
Inv-right {n} {r} inv j h q =
    ground (arith, inv.apart j h (inv.holding j q), inv.holding (right_of n j))

-- With at least 2 philosophers and any number of meals, in every state that the philosophers reach:
-- where philosopher `i` has both sticks, from GetSticks until PutSticks lays them down, the left and
-- the right neighbour do not.
pub Reach-Apart :
    {n meals : ℕ} {r : Room}
    → 2 ≤ n
    → Reach n meals r
    → (i : ℕ) → i < n
    → has_sticks (r.pc i) ≡ true
    → (has_sticks (r.pc (left_of n i)) ≡ false) × (has_sticks (r.pc (right_of n i)) ≡ false)
Reach-Apart {n} {meals} {r} two reached i h q =
    let inv = Reach-Inv two reached in
    (
      elim (Bool-cases (has_sticks (r.pc (left_of n i)))) [
        | inl a ↦ absurd (
            ground (
              arith,
              q,
              subst (λ z. has_sticks (r.pc z) ≡ false) (neighbours_back n i h)
                  (Inv-right inv (left_of n i) (left_of-lt n i h) a),
            ))
        | inr a ↦ a
      ],
      Inv-right inv i h q,
    )
