-- ===== src/Threads/BusyWait.antt =====
-- The dining philosophers that wait in a loop, of threads/threadtest.cc: DinPhilBusyWait and ReachChopStick,
-- for `n` philosophers. A philosopher gives up the processor only in Yield, so that all it does between two
-- calls of it is one step. The philosophers are numbered below `n`, and `i % P` is `i`.
pub mod Chopsticks
mod Tests
use cmps.Prelude.{
  ℕ, suc, zero, ◌+◌, ◌-◌, ◌%◌, ◌<◌, ◌≤◌, Bool, true, false, not, ◌&&◌, ltb, ◌==◌, if◌then◌else◌,
}
use cmps.Threads.Kernel.{put}

-- What a philosopher does behind a BusyWaitingLoop: reach for a chopstick again, after a number of
-- trials, put the chopsticks down, go on from thinking, or ask again whether all are ready to leave.
pub data Goal : Type 0 where
  left right : ℕ → Goal
  eaten thought together : Goal

-- `waiting g k` is in BusyWaitingLoop, with `k` calls of Yield still to come.
pub data Pc : Type 0 where
  outside unseated finished : Pc
  waiting : Goal → ℕ → Pc

pub record Table : Type 0 where
  pub pc : ℕ → Pc
  pub chopstick : ℕ → ℕ
  pub num_phil_not_in : ℕ
  pub seat_grant : Bool
  pub meal_left : ℕ
  pub philosopher_leave_rdy : ℕ
  pub leave_grant : Bool

abbrev pub right_of : ℕ → ℕ → ℕ
right_of n i = (i + 1) % n

abbrev pub at : ℕ → Pc → Table → Table
at i q r = record r { pc = put i q r.pc }

-- `chopstick[j] = value`
abbrev pub lay : ℕ → ℕ → Table → Table
lay j value r = record r { chopstick = put j value r.chopstick }

-- The loop in which the philosophers wait for all to be ready to leave.
abbrev pub check_leave : (n i k : ℕ) → Table → Table
check_leave n i k r =
    if ltb r.philosopher_leave_rdy n
    then at i (waiting together k) r
    else at i finished (
        if (r.philosopher_leave_rdy == n) && not r.leave_grant
        then record r { leave_grant = true }
        else r)

-- ReachChopStick of the right chopstick after `c` trials, and what follows it.
abbrev pub put_both : (n i : ℕ) → Table → Table
put_both n i r = lay (right_of n i) 1 (lay i 1 r)

abbrev pub eat : (n i k : ℕ) → Table → Table
eat n i k r =
    if r.meal_left == 0
    then at i (waiting thought k) (put_both n i r)
    else at i (waiting eaten k) (record r { meal_left = r.meal_left - 1 })

abbrev pub reach_right : (n i c k : ℕ) → Table → Table
reach_right n i c k r =
    if c == 5
    then at i (waiting thought k) (lay i 1 r)
    else if r.chopstick (right_of n i) == 1
    then eat n i k (lay (right_of n i) 0 r)
    else at i (waiting (right (c + 1)) k) r

-- The same for the left chopstick.
abbrev pub reach_left : (n i c k : ℕ) → Table → Table
reach_left n i c k r =
    if c == 5
    then at i (waiting thought k) r
    else if r.chopstick i == 1
    then reach_right n i 0 k (lay i 0 r)
    else at i (waiting (left (c + 1)) k) r

-- The test of the loop over the meals.
abbrev pub round : (n i k : ℕ) → Table → Table
round n i k r =
    if not (r.meal_left == 0)
    then reach_left n i 0 k r
    else check_leave n i k (record r { philosopher_leave_rdy = r.philosopher_leave_rdy + 1 })

-- The loop in which the philosophers wait for all to come in.
abbrev pub check_seat : (n i k : ℕ) → Table → Table
check_seat n i k r =
    if ltb 0 r.num_phil_not_in
    then at i unseated r
    else round n i k
        (if (r.num_phil_not_in == 0) && not r.seat_grant then record r { seat_grant = true } else r)

-- What philosopher `i` does next, with the number of calls of Yield that it draws for its next
-- BusyWaitingLoop.
abbrev pub resume : (n i k : ℕ) → Goal → Table → Table
resume n i k (left c) r = reach_left n i c k r
resume n i k (right c) r = reach_right n i c k r
resume n i k eaten r = at i (waiting thought k) (put_both n i r)
resume n i k thought r = round n i k r
resume n i k together r = check_leave n i k r

pub data Move (n i : ℕ) (r : Table) : Pc → Table → Type 0 where
  join :
      (k : ℕ)
      → 2 ≤ k
      → k ≤ 5
      → Move n i r outside (check_seat n i k (record r { num_phil_not_in = r.num_phil_not_in - 1 }))
  again : (k : ℕ) → 2 ≤ k → k ≤ 5 → Move n i r unseated (check_seat n i k r)
  cycle : {g : Goal} {j : ℕ} → Move n i r (waiting g (suc j)) (at i (waiting g j) r)
  go : {g : Goal} (k : ℕ) → 2 ≤ k → k ≤ 5 → Move n i r (waiting g 0) (resume n i k g r)

pub data Step (n : ℕ) (r : Table) : Table → Type 0 where
  pick : (i : ℕ) {r' : Table} → i < n → Move n i r (r.pc i) r' → Step n r r'

-- ThreadTest, for task 3: `n` philosophers and `meals` meals.
unfoldable pub start : ℕ → ℕ → Table
start n meals = record {
  pc = λ i. outside;
  chopstick = λ j. 1;
  num_phil_not_in = n;
  seat_grant = false;
  meal_left = meals;
  philosopher_leave_rdy = 0;
  leave_grant = false;
}

pub data Reach (n meals : ℕ) : Table → Type 0 where
  begin : Reach n meals (start n meals)
  later : {r r' : Table} → Reach n meals r → Step n r r' → Reach n meals r'
