-- ===== src/Threads/PostOffice/Tests.antt =====
-- Runs of the post office of threads/threadtest.cc: 2 persons, 1 letter, and mailboxes for 1 letter.
use cmps.Prelude.{ℕ, suc, zero, ◌<◌, ◌≤◌, ◌≡◌, ◌≢◌, refl, arith, Option, some, none}
use cmps.Threads.PostOffice.{Pc, MailSlot, Office, Move, Step, start, Reach}
use cmps.Threads.PostOffice.Letters.{Reach-within, Reach-home}

-- Whoever writes sends message 0 to the other one.
abbrev other : ℕ → ℕ
other zero = 1
other (suc i) = 0

other-ne : (i : ℕ) → other i ≢ i
other-ne zero e = omega (arith, e)
other-ne (suc i) e = omega (arith, e)

other-lt : (i : ℕ) → other i < 2
other-lt zero = omega arith
other-lt (suc i) = omega arith

abbrev Next : ℕ → Office → Pc → Type 0
Next i r p = Option ((r' : Office) × Move 2 1 i r p r')

abbrev behind {ℓ} : {A : Type ℓ} (k : ℕ) → (0 < k → A) → Option A
behind zero f = none
behind (suc k) f = some (f (omega arith))

-- The step of a person who waits 2 cycles, none where P waits.
abbrev next : (i : ℕ) (r : Office) (p : Pc) → Next i r p
next i r Pc.enter = some (_, Move.arrive (other i) 0 (other-lt i) (other-ne i) (omega arith))
next i r Pc.read_p = behind (r.mailbox i) (λ g. (_, Move.claim_own g))
next i r (Pc.read_free_v j) = some (_, Move.free_own)
next i r Pc.read_box_v = some (_, Move.release_own)
next i r Pc.read_yield =
    some (_, Move.look_again (other i) 0 (other-lt i) (other-ne i) (omega arith))
next i r (Pc.free_p t z) = behind (r.free_space t) (λ g. (_, Move.reserve g))
next i r (Pc.box_p t z) = behind (r.mailbox t) (λ g. (_, Move.claim g))
next i r (Pc.count_p t z) = behind r.msg_cnt (λ g. (_, Move.count g))
next i r (Pc.abort_v t) = some (_, Move.abort)
next i r (Pc.box_v t) = some (_, Move.release)
next i r Pc.count_v = some (_, Move.counted 2 (omega arith) (omega arith))
next i r (Pc.stall (suc k)) = some (_, Move.cycle)
next i r (Pc.stall zero) = some (_, Move.leave (other i) 0 (other-lt i) (other-ne i) (omega arith))
next i r Pc.home = none

abbrev empty_mail : ℕ → ℕ → MailSlot
empty_mail = λ j k. record { who = 0; msg = 0 }

abbrev Reached : Type 0
Reached = (r : Office) × Reach 2 1 1 empty_mail r

abbrev continued :
    {i : ℕ} {r : Office} → i < 2 → Reach 2 1 1 empty_mail r → Next i r (r.pc i) → Reached
continued h reached none = (_, reached)
continued {i} h reached (some (r', m)) = (r', Reach.later reached (Step.pick i h m))

-- `k` turns of person `i`, the turns where P waits left out.
abbrev turns : (i : ℕ) → i < 2 → ℕ → Reached → Reached
turns i h zero s = s
turns i h (suc k) (r, reached) = turns i h k (continued h reached (next i r (r.pc i)))

-- Person 0 has sent the letter.
abbrev sent_one : Reached
sent_one = turns 0 (omega arith) 4 (start 1 empty_mail, Reach.begin)

sent_one_runs : sent_one.0.mail 1 0 ≡ record { who = 0; msg = 0 }
unfolding start
sent_one_runs = refl

-- Person 1 has read it and goes home.
abbrev read_one : Reached
read_one = turns 1 (omega arith) 15 (turns 0 (omega arith) 2 sent_one)

Reach-within_example : (sent_one.0.msg_ptr 1 ≤ 1) × (sent_one.0.msg_sent_cnt ≤ 1)
unfolding start
Reach-within_example = Reach-within sent_one.1 1

Reach-home_example : (read_one.0.msg_sent_cnt ≡ 1) × (read_one.0.msg_ptr 1 ≡ 0)
unfolding start
Reach-home_example = Reach-home read_one.1 1 refl 1 (omega arith)
