-- ===== src/Threads/Philosophers/Tests.antt =====
-- Runs of the philosophers of threads/threadtest.cc.
use cmps.Prelude.{ℕ, suc, zero, ◌<◌, ◌≡◌, refl, inr, false, arith, Option, some, none}
use cmps.Threads.Philosophers.{left_of, right_of, Pc, Room, Move, Step, start, Reach}
use cmps.Threads.Philosophers.Sticks.{Reach-Apart, has_sticks}
use cmps.Threads.Philosophers.Doors.{Reach-waits, leaves}

abbrev Next : ℕ → ℕ → Room → Pc → Type 0
Next n i r p = Option ((r' : Room) × Move n i r p r')

abbrev behind {ℓ} : {A : Type ℓ} (k : ℕ) → (0 < k → A) → Option A
behind zero f = none
behind (suc k) f = some (f (omega arith))

-- The step of a philosopher who thinks and eats for two rounds, none where P waits.
abbrev next : (n i : ℕ) (r : Room) (p : Pc) → Next n i r p
next n i r Pc.enter_p = behind r.enter_mutex (λ g. (_, Move.enter g))
next n i r (Pc.sit_v zero) = some (_, Move.seated)
next n i r (Pc.sit_v (suc j)) = some (_, Move.seat)
next n i r Pc.enter_v = some (_, Move.entrance)
next n i r Pc.sit_p = behind r.sit_semaphore (λ g. (_, Move.sit g))
next n i r Pc.sticks_p = behind r.mutex (λ g. (_, Move.reach g))
next n i r Pc.sticks_grant_v = some (_, Move.take)
next n i r Pc.sticks_v = some (_, Move.release)
next n i r Pc.sticks_grant_p = behind (r.phil_grant i) (λ g. (_, Move.wake g))
next n i r Pc.eat_p = behind r.meal_left_mutex (λ g. (_, Move.serve g))
next n i r Pc.eat_v = some (_, Move.chew 2 (omega arith) (omega arith))
next n i r (Pc.eat_yield (suc k)) = some (_, Move.chewing)
next n i r (Pc.eat_yield zero) = some (_, Move.eaten)
next n i r Pc.put_p = behind r.mutex (λ g. (_, Move.lay g))
next n i r Pc.put_left_v = some (_, Move.lay_left)
next n i r Pc.put_right_v = some (_, Move.lay_right)
next n i r Pc.put_v = some (_, Move.think 2 (omega arith) (omega arith))
next n i r (Pc.think_yield (suc k)) = some (_, Move.pondering)
next n i r (Pc.think_yield zero) = some (_, Move.thought)
next n i r Pc.ready_p = behind r.leave_mutex (λ g. (_, Move.get_ready g))
next n i r (Pc.leave_v (suc j)) = some (_, Move.call)
next n i r (Pc.leave_v zero) = some (_, Move.called)
next n i r Pc.ready_v = some (_, Move.stand)
next n i r Pc.leave_p = behind r.leave_semaphore (λ g. (_, Move.rise g))
next n i r Pc.grant_p = behind r.leave_mutex (λ g. (_, Move.permit g))
next n i r Pc.grant_v = some (_, Move.bye)
next n i r Pc.finished = none

abbrev Reached : ℕ → ℕ → Type 0
Reached n meals = (r : Room) × Reach n meals r

abbrev continued :
    {n meals i : ℕ} {r : Room} → i < n → Reach n meals r → Next n i r (r.pc i) → Reached n meals
continued h reached none = (_, reached)
continued {i} h reached (some (r', m)) = (r', Reach.later reached (Step.pick i h m))

-- `rounds` turns of philosopher `i`, the turns where P waits left out.
abbrev turns : {n meals : ℕ} (i : ℕ) → i < n → ℕ → Reached n meals → Reached n meals
turns i h zero s = s
turns {n} i h (suc k) (r, reached) = turns i h k (continued h reached (next n i r (r.pc i)))

abbrev seated_two : Reached 2 0
seated_two =
    turns 0 (omega arith) 2
      (turns 1 (omega arith) 5 (turns 0 (omega arith) 2 (start 2 0, Reach.begin)))

-- Philosopher 0 has taken the sticks.
Reach-Apart_example :
    (has_sticks (seated_two.0.pc (left_of 2 0)) ≡ false)
    × (has_sticks (seated_two.0.pc (right_of 2 0)) ≡ false)
unfolding start
Reach-Apart_example = Reach-Apart (omega arith) seated_two.1 0 (omega arith) refl

Reach-waits_example : leaves (seated_two.0.pc 1) ≡ false
unfolding start
Reach-waits_example = Reach-waits seated_two.1 1 0 (omega arith) (omega arith) (inr refl)
