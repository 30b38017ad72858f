-- ===== src/Threads/PostOffice/Loop/Tests.antt =====
-- Two persons of PostOfficeLoop of threads/threadtest.cc, with mailboxes for one letter.
use cmps.Prelude.{ℕ, ◌+◌, ◌-◌, ◌≤◌, arith}
use cmps.Threads.Kernel.{put}
use cmps.Threads.PostOffice.{MailSlot}
use cmps.Threads.PostOffice.Loop.{Office, Move, Step, start, Reach, look, send, put_letter}
use cmps.Threads.PostOffice.Loop.Bounds.{Reach-fits, counting}

abbrev empty_mail : ℕ → ℕ → MailSlot
empty_mail = λ j k. record { who = 0; msg = 0 }

abbrev came : Office
came = look 0 (start empty_mail)

abbrev claimed : Office
claimed = send 1 5 0 1 3 (record came { msg_cnt = came.msg_cnt - 1 })

abbrev sent_one : Office
sent_one =
    put_letter 0 1 3 (record claimed { mailbox = put 1 (claimed.mailbox 1 - 1) claimed.mailbox })

-- Person 0 puts message 3 into the mailbox of person 1.
sent_one-Reach : Reach 2 1 5 empty_mail sent_one
unfolding start
sent_one-Reach =
    Reach.later
      (Reach.later (Reach.later Reach.begin (Step.pick 0 (omega arith) Move.arrive)) (
        Step.pick 0 (omega arith)
          (Move.count 1 3 (omega arith) (λ e. omega (arith, e)) (omega arith) (omega arith))))
      (Step.pick 0 (omega arith) (Move.claim (omega arith)))

Reach-fits_example :
    (sent_one.msg_ptr 1 ≤ 1)
    × (sent_one.msg_sent_cnt ≤ 5)
    × (counting (sent_one.pc 0) + counting (sent_one.pc 1) ≤ 1)
unfolding start
Reach-fits_example =
    Reach-fits sent_one-Reach 0 1 (omega arith) (omega arith) (λ e. omega (arith, e))
