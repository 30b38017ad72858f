-- ===== src/Threads/BusyWait/Tests.antt =====
-- Two philosophers of DinPhilBusyWait of threads/threadtest.cc.
use cmps.Prelude.{ℕ, ◌-◌, ◌≡◌, refl, false, arith}
use cmps.Threads.BusyWait.{Table, Move, Step, start, Reach, check_seat}
use cmps.Threads.BusyWait.Chopsticks.{Reach-one_eats, eats}

abbrev came_in : ℕ → Table → Table
came_in i r = check_seat 2 i 2 (record r { num_phil_not_in = r.num_phil_not_in - 1 })

-- Philosopher 0 waits for philosopher 1, who takes both chopsticks.
both_in : Reach 2 1 (came_in 1 (came_in 0 (start 2 1)))
unfolding start
both_in =
    Reach.later
      (Reach.later Reach.begin
        (Step.pick 0 (omega arith) (Move.join 2 (omega arith) (omega arith))))
      (Step.pick 1 (omega arith) (Move.join 2 (omega arith) (omega arith)))

Reach-one_eats_example :
    (eats ((came_in 1 (came_in 0 (start 2 1))).pc 0) ≡ false)
    × ((came_in 1 (came_in 0 (start 2 1))).chopstick 1 ≡ 0)
    × ((came_in 1 (came_in 0 (start 2 1))).chopstick 0 ≡ 0)
unfolding start
Reach-one_eats_example = Reach-one_eats (omega arith) both_in 1 (omega arith) refl
