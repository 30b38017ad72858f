-- ===== src/Threads/BusyWait/Chopsticks.antt =====
-- Who has the chopsticks of DinPhilBusyWait of threads/threadtest.cc.
use cmps.Prelude.{
  ℕ, ◌+◌, ◌-◌, ◌<◌, ◌≤◌, ◌≡◌, ◌≢◌, refl, Bool, true, false, ltb, ◌==◌, if◌then◌else◌, arith, ap,
  sym, ◌∙◌, Bool-cases, inl, inr, ◌⊎◌, not, ◌&&◌, total, total-changed, total-le, total-two,
  total-zero,
}
use cmps.Threads.Philosophers.Sticks.{right_of-lt, right_of-ne}
use cmps.Threads.BusyWait.{
  Goal, at, unseated, lay, Pc, waiting, Table, Move, Step, start, Reach, right_of, resume, round,
  check_seat, check_leave, reach_left, reach_right,
}

-- Whether a philosopher has the left, and the right chopstick.
abbrev pub has_left : Pc → Bool
has_left (Pc.waiting (Goal.right c) k) = true
has_left (Pc.waiting Goal.eaten k) = true
has_left _ = false

abbrev pub eats : Pc → Bool
eats (Pc.waiting Goal.eaten k) = true
eats _ = false

-- How many times philosopher `i`, in state `q`, has chopstick `j`.
abbrev pub holds : (n j : ℕ) → ℕ × Pc → ℕ
holds n j (i, q) =
    (if has_left q && (i == j) then 1 else 0) + (if eats q && (right_of n i == j) then 1 else 0)

abbrev pub numbered : (ℕ → Pc) → ℕ → ℕ × Pc
numbered pc i = (i, pc i)

module _ (n i k : ℕ) where
  check_leave-elsewhere : (r : Table) (j : ℕ) → i ≢ j → (check_leave n i k r).pc j ≡ r.pc j
  check_leave-elsewhere r j away = ground (arith, away)

  check_leave-chopstick : (r : Table) (j : ℕ) → (check_leave n i k r).chopstick j ≡ r.chopstick j
  check_leave-chopstick r j = ground arith

  check_leave-hands : (r : Table) (j : ℕ) → holds n j (i, (check_leave n i k r).pc i) ≡ 0
  check_leave-hands r j = ground arith

  reach_right-elsewhere :
      (c : ℕ) (r : Table) (j : ℕ) → i ≢ j → (reach_right n i c k r).pc j ≡ r.pc j
  reach_right-elsewhere c r j away = ground (arith, away)

  reach_left-elsewhere : (c : ℕ) (r : Table) (j : ℕ) → i ≢ j → (reach_left n i c k r).pc j ≡ r.pc j
  reach_left-elsewhere c r j away = ground (arith, away)

  -- Chopstick `j`, on the table or in the hands of philosopher `i`.
  abbrev near : ℕ → Table → ℕ
  near j r = r.chopstick j + holds n j (i, r.pc i)

  reach_right-near :
      right_of n i ≢ i
      → (c : ℕ) (r : Table) → r.chopstick i ≡ 0
      → (j : ℕ) → near j (reach_right n i c k r) ≡ r.chopstick j + (if i == j then 1 else 0)
  reach_right-near two c r taken j = ground (arith, two, taken)

  reach_left-near :
      right_of n i ≢ i → (c : ℕ) (r : Table) (j : ℕ) → near j (reach_left n i c k r) ≡ r.chopstick j
  reach_left-near two c r j = elim (Bool-cases (not (c == 5) && (r.chopstick i == 1))) [
    | inl found ↦
        let more : (c == 5) ≡ false = ground (arith, found) in
        let there : (r.chopstick i == 1) ≡ true = ground (arith, found) in
        let taken : (lay i 0 r).chopstick i ≡ 0 = ground arith in
        rw (more, there) (ground (arith, there, reach_right-near two 0 (lay i 0 r) taken j))
    | inr missed ↦ ground (arith, missed)
  ]

  either-near :
      (b : Bool) (x y : Table) (v j : ℕ)
      → near j x ≡ v
      → near j y ≡ v
      → near j (if b then x else y) ≡ v
  either-near true x y v j of_x of_y = of_x
  either-near false x y v j of_x of_y = of_y

  round-near : right_of n i ≢ i → (r : Table) (j : ℕ) → near j (round n i k r) ≡ r.chopstick j
  round-near two r j =
      let r' = record r { philosopher_leave_rdy = r.philosopher_leave_rdy + 1 } in
      either-near (not (r.meal_left == 0)) (reach_left n i 0 k r) (check_leave n i k r')
        (r.chopstick j) j (reach_left-near two 0 r j)
        (omega (arith, check_leave-chopstick r' j, check_leave-hands r' j))

  check_seat-near :
      right_of n i ≢ i → (r : Table) (j : ℕ) → near j (check_seat n i k r) ≡ r.chopstick j
  check_seat-near two r j =
      let r' =
        if (r.num_phil_not_in == 0) && not r.seat_grant
        then record r { seat_grant = true }
        else r in
      let same : r'.chopstick j ≡ r.chopstick j = ground arith in
      either-near (ltb 0 r.num_phil_not_in) (at i unseated r) (round n i k r') (r.chopstick j) j
        (ground arith) (round-near two r' j ∙ same)

  resume-near :
      right_of n i ≢ i
      → (g : Goal) (r : Table)
      → ((j : ℕ) → (j ≡ i) ⊎ (j ≡ right_of n i) → r.chopstick j + holds n j (i, waiting g 0) ≤ 1)
      → (j : ℕ) → near j (resume n i k g r) ≡ r.chopstick j + holds n j (i, waiting g 0)
  resume-near two (Goal.left c) r once j = ground (arith, reach_left-near two c r j)
  resume-near two (Goal.right c) r once j =
      let taken : r.chopstick i ≡ 0 = ground (arith, once i (inl refl)) in
      ground (arith, reach_right-near two c r taken j)
  resume-near two Goal.eaten r once j =
      ground (arith, two, once i (inl refl), once (right_of n i) (inr refl))
  resume-near two Goal.thought r once j = ground (arith, round-near two r j)
  resume-near two Goal.together r once j =
      omega (arith, check_leave-chopstick r j, check_leave-hands r j)

near_of : (n i k : ℕ) → i < n → (k ≡ i) ⊎ (k ≡ right_of n i) → k < n
near_of n i k h (inl e) = omega (arith, h, e)
near_of n i k h (inr e) = omega (arith, right_of-lt n i h, e)

module _ {n i : ℕ} {r : Table} where
  elsewhere : {p : Pc} {r' : Table} → Move n i r p r' → (j : ℕ) → i ≢ j → r'.pc j ≡ r.pc j
  elsewhere (Move.join k a b) j away = ground (arith, away)
  elsewhere (Move.again k a b) j away = ground (arith, away)
  elsewhere Move.cycle j away = ground (arith, away)
  elsewhere (Move.go {g = Goal.left c} k a b) j away = reach_left-elsewhere n i k c r j away
  elsewhere (Move.go {g = Goal.right c} k a b) j away = reach_right-elsewhere n i k c r j away
  elsewhere (Move.go {g = g} k a b) j away = ground (arith, away)

  Move-near :
      right_of n i ≢ i
      → {p : Pc} {r' : Table} → Move n i r p r'
      → ((j : ℕ) → (j ≡ i) ⊎ (j ≡ right_of n i) → r.chopstick j + holds n j (i, p) ≤ 1)
      → (j : ℕ) → r'.chopstick j + holds n j (i, r'.pc i) ≡ r.chopstick j + holds n j (i, p)
  Move-near two (Move.join k a b) once j =
      omega
        (arith, check_seat-near n i k two (record r { num_phil_not_in = r.num_phil_not_in - 1 }) j)
  Move-near two (Move.again k a b) once j = omega (arith, check_seat-near n i k two r j)
  Move-near two (Move.cycle) once j = ground arith
  Move-near two (Move.go {g = g} k a b) once j = resume-near n i k two g r once j

-- Each chopstick is on the table or in the hand of one philosopher.
abbrev pub Shared : ℕ → Table → Type 0
Shared n r = (j : ℕ) → j < n → r.chopstick j + total (holds n j) n (numbered r.pc) ≡ 1

Step-Shared : {n : ℕ} {r r' : Table} → 2 ≤ n → Shared n r → Step n r r' → Shared n r'
Step-Shared {n} {r} {r'} two shared (Step.pick i h m) j l =
    let once : (k : ℕ) → (k ≡ i) ⊎ (k ≡ right_of n i) → r.chopstick k + holds n k (i, r.pc i) ≤ 1 =
      λ k near_by.
        omega
          (arith, shared k (near_of n i k h near_by), total-le (holds n k) n (numbered r.pc) i h) in
    let same =
      total-changed (holds n j) n (numbered r.pc) (numbered r'.pc) i h
        (λ k away. ap (λ z. holds n j (k, z)) (elsewhere m k away)) in
    omega (arith, same, Move-near (right_of-ne n i two h) m once j, shared j l)

pub Reach-Shared : {n meals : ℕ} {r : Table} → 2 ≤ n → Reach n meals r → Shared n r
unfolding start
Reach-Shared {n} {meals} two Reach.begin j l =
    omega (arith, total-zero (holds n j) n (numbered (start n meals).pc) (λ k h. refl))
Reach-Shared two (Reach.later before s) j l = Step-Shared two (Reach-Shared two before) s j l

-- With at least 2 philosophers that wait in a loop, and any number of meals, in every state that they
-- reach: while philosopher `i` eats, the right neighbour does not, and neither of the two chopsticks
-- is on the table.
pub Reach-one_eats :
    {n meals : ℕ} {r : Table}
    → 2 ≤ n
    → Reach n meals r
    → (i : ℕ) → i < n
    → eats (r.pc i) ≡ true
    → (eats (r.pc (right_of n i)) ≡ false) × (r.chopstick i ≡ 0) × (r.chopstick (right_of n i) ≡ 0)
Reach-one_eats {n} {meals} {r} two reached i h q =
    let shared = Reach-Shared two reached in
    let j = right_of n i in
    let l = right_of-lt n i h in
    (
      ground (
        arith,
        q,
        shared j l,
        total-two (holds n j) n (numbered r.pc) i j h l (λ e. right_of-ne n i two h (sym e)),
      ),
      ground (arith, q, shared i h, total-le (holds n i) n (numbered r.pc) i h),
      ground (arith, q, shared j l, total-le (holds n j) n (numbered r.pc) i h),
    )
