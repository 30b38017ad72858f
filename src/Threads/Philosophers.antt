-- ===== src/Threads/Philosophers.antt =====
-- The dining philosophers with semaphores of threads/threadtest.cc: DinPhilSemaphore, GetSticks, Eat,
-- PutSticks and LeaveRoom, for `n` philosophers.
-- Interrupts are off inside P and V only, and a thread gives up the processor in P, in Yield, or, where the
-- timer asks for it, at the end of P and V. What a philosopher does between two such calls is one step. A
-- semaphore is its value here: P waits while it is 0.
pub mod Sticks
pub mod Doors
mod Tests
use cmps.Prelude.{
  ℕ, suc, zero, ◌+◌, ◌-◌, ◌%◌, ◌<◌, ◌≤◌, ◌≡◌, Bool, true, false, not, ◌&&◌, ◌||◌, Option, none,
  some, ltb, leb, ◌==◌, if◌then◌else◌,
}
use cmps.Threads.Kernel.{put}

pub data PState : Type 0 where
  thinking is_eating is_hungry : PState

-- The call that a philosopher comes to next.
pub data Pc : Type 0 where
  enter_p enter_v sit_p : Pc
  sit_v : ℕ → Pc
  sticks_p sticks_grant_v sticks_v sticks_grant_p : Pc
  eat_p eat_v : Pc
  eat_yield : ℕ → Pc
  put_p put_left_v put_right_v put_v : Pc
  think_yield : ℕ → Pc
  ready_p ready_v leave_p grant_p grant_v finished : Pc
  leave_v : ℕ → Pc

pub record Room : Type 0 where
  pub pc : ℕ → Pc
  pub state : ℕ → PState
  pub done : ℕ → Bool
  pub num_phil_not_in : ℕ
  pub meal_left : ℕ
  pub num_rdy_leave : ℕ
  pub num_grant_leave : ℕ
  pub leave_grant : Bool
  pub mutex : ℕ
  pub enter_mutex : ℕ
  pub leave_mutex : ℕ
  pub sit_semaphore : ℕ
  pub leave_semaphore : ℕ
  pub meal_left_mutex : ℕ
  pub phil_grant : ℕ → ℕ

abbrev pub eats : PState → Bool
eats is_eating = true
eats thinking = false
eats is_hungry = false

abbrev pub hungry : PState → Bool
hungry is_hungry = true
hungry thinking = false
hungry is_eating = false

-- `(i-1+P) % P` and `(i+1) % P`
abbrev pub left_of : ℕ → ℕ → ℕ
left_of n i = (i + n - 1) % n

abbrev pub right_of : ℕ → ℕ → ℕ
right_of n i = (i + 1) % n

abbrev pub at : ℕ → Pc → Room → Room
at i q r = record r { pc = put i q r.pc }

abbrev pub set_state : ℕ → PState → Room → Room
set_state i s r = record r { state = put i s r.state }

-- DinPhilSemaphore, behind EnterMutex->P().
abbrev pub entered : ℕ → ℕ → Room → Room
entered n i r =
    let r' = record r { num_phil_not_in = r.num_phil_not_in - 1 } in
    if r'.num_phil_not_in == 0 then at i (sit_v n) r' else at i enter_v r'

-- The test of the loop in DinPhilSemaphore.
abbrev pub dinner : ℕ → Room → Room
dinner i r = if r.done i then at i ready_p r else at i sticks_p r

-- One round of the loop of GetSticks, up to its first V. The test of the loop holds.
abbrev pub available : ℕ → ℕ → Room → Bool
available n i r =
    (hungry (r.state i)
      && not (eats (r.state (left_of n i)))
      && not (eats (r.state (right_of n i)))
      && ltb 2 n)
    || (hungry (r.state i) && not (eats (r.state (right_of n i))) && n == 2)

abbrev pub check_sticks : ℕ → ℕ → Room → Room
check_sticks n i r =
    if available n i r then at i sticks_grant_v (set_state i is_eating r) else at i sticks_v r

-- GetSticks behind mutex->P(), and behind PhilGrantSemaphore[i]->P().
abbrev pub get_sticks : ℕ → ℕ → Room → Room
get_sticks n i r = check_sticks n i (set_state i is_hungry r)

abbrev pub granted : ℕ → ℕ → Room → Room
granted n i r = if hungry (r.state i) then check_sticks n i r else at i eat_p r

-- Eat behind MealLeftMutex->P().
abbrev pub eat : ℕ → Room → Room
eat i r = at i eat_v (
    if not (r.meal_left == 0)
    then record r { meal_left = r.meal_left - 1 }
    else record r { done = put i true r.done })

-- PutSticks, from the test of the right neighbour on, and behind mutex->P().
abbrev pub put_down : ℕ → Room → Room
put_down i r = at i put_v (set_state i thinking r)

abbrev pub put_right : ℕ → ℕ → Room → Room
put_right n i r =
    if ltb 2 n && hungry (r.state (right_of n i)) then at i put_right_v r else put_down i r

abbrev pub put_left : ℕ → ℕ → Room → Room
put_left n i r = if hungry (r.state (left_of n i)) then at i put_left_v r else put_right n i r

-- LeaveRoom behind the first LeaveMutex->P(), and behind the second.
abbrev pub ready_to_leave : ℕ → ℕ → Room → Room
ready_to_leave n i r =
    let r' = record r { num_rdy_leave = r.num_rdy_leave + 1 } in
    if r'.num_rdy_leave == n then at i (leave_v n) r' else at i ready_v r'

abbrev pub grant_leave : ℕ → ℕ → Room → Room
grant_leave n i r =
    if ltb r.num_grant_leave (n - 1)
    then at i grant_v (record r { num_grant_leave = r.num_grant_leave + 1 })
    else at i finished (record r { leave_grant = true })

abbrev pub grant : ℕ → Room → Room
grant j r = record r { phil_grant = put j (r.phil_grant j + 1) r.phil_grant }

-- What philosopher `i` may do next. BusyWaitingLoop yields `k` times, for 2 to 5.
pub data Move (n i : ℕ) (r : Room) : Pc → Room → Type 0 where
  enter :
      0 < r.enter_mutex
      → Move n i r enter_p (entered n i (record r { enter_mutex = r.enter_mutex - 1 }))
  seat :
      {j : ℕ}
      → Move n i r
          (sit_v (suc j))
          (at i (sit_v j) (record r { sit_semaphore = r.sit_semaphore + 1 }))
  seated : Move n i r (sit_v 0) (at i enter_v r)
  entrance : Move n i r enter_v (at i sit_p (record r { enter_mutex = r.enter_mutex + 1 }))
  sit :
      0 < r.sit_semaphore
      → Move n i r sit_p (dinner i (record r { sit_semaphore = r.sit_semaphore - 1 }))
  reach : 0 < r.mutex → Move n i r sticks_p (get_sticks n i (record r { mutex = r.mutex - 1 }))
  take : Move n i r sticks_grant_v (at i sticks_v (grant i r))
  release : Move n i r sticks_v (at i sticks_grant_p (record r { mutex = r.mutex + 1 }))
  wake :
      0 < r.phil_grant i
      → Move n i r sticks_grant_p
          (granted n i (record r { phil_grant = put i (r.phil_grant i - 1) r.phil_grant }))
  serve :
      0 < r.meal_left_mutex
      → Move n i r eat_p (eat i (record r { meal_left_mutex = r.meal_left_mutex - 1 }))
  chew :
      (k : ℕ)
      → 2 ≤ k
      → k ≤ 5
      → Move n i r eat_v (at i (eat_yield k) (record r { meal_left_mutex = r.meal_left_mutex + 1 }))
  chewing : {k : ℕ} → Move n i r (eat_yield (suc k)) (at i (eat_yield k) r)
  eaten : Move n i r (eat_yield 0) (at i put_p r)
  lay : 0 < r.mutex → Move n i r put_p (put_left n i (record r { mutex = r.mutex - 1 }))
  lay_left : Move n i r put_left_v (put_right n i (grant (left_of n i) r))
  lay_right : Move n i r put_right_v (put_down i (grant (right_of n i) r))
  think :
      (k : ℕ)
      → 2 ≤ k
      → k ≤ 5
      → Move n i r put_v (at i (think_yield k) (record r { mutex = r.mutex + 1 }))
  pondering : {k : ℕ} → Move n i r (think_yield (suc k)) (at i (think_yield k) r)
  thought : Move n i r (think_yield 0) (dinner i r)
  get_ready :
      0 < r.leave_mutex
      → Move n i r ready_p (ready_to_leave n i (record r { leave_mutex = r.leave_mutex - 1 }))
  call :
      {j : ℕ}
      → Move n i r
          (leave_v (suc j))
          (at i (leave_v j) (record r { leave_semaphore = r.leave_semaphore + 1 }))
  called : Move n i r (leave_v 0) (at i ready_v r)
  stand : Move n i r ready_v (at i leave_p (record r { leave_mutex = r.leave_mutex + 1 }))
  rise :
      0 < r.leave_semaphore
      → Move n i r leave_p (at i grant_p (record r { leave_semaphore = r.leave_semaphore - 1 }))
  permit :
      0 < r.leave_mutex
      → Move n i r grant_p (grant_leave n i (record r { leave_mutex = r.leave_mutex - 1 }))
  bye : Move n i r grant_v (at i finished (record r { leave_mutex = r.leave_mutex + 1 }))

pub data Step (n : ℕ) (r : Room) : Room → Type 0 where
  pick : (i : ℕ) {r' : Room} → i < n → Move n i r (r.pc i) r' → Step n r r'

-- ThreadTest, for task 4: `n` philosophers and `meals` meals.
unfoldable pub start : ℕ → ℕ → Room
start n meals = record {
  pc = λ i. enter_p;
  state = λ i. thinking;
  done = λ i. false;
  num_phil_not_in = n;
  meal_left = meals;
  num_rdy_leave = 0;
  num_grant_leave = 0;
  leave_grant = false;
  mutex = 1;
  enter_mutex = 1;
  leave_mutex = 1;
  sit_semaphore = 0;
  leave_semaphore = 0;
  meal_left_mutex = 1;
  phil_grant = λ i. 0;
}

pub data Reach (n meals : ℕ) : Room → Type 0 where
  begin : Reach n meals (start n meals)
  later : {r r' : Room} → Reach n meals r → Step n r r' → Reach n meals r'
