-- ===== src/Threads/PostOffice/Loop.antt =====
-- The post office with a waiting loop of threads/threadtest.cc: PostOfficeLoop, for `n` persons, mailboxes
-- for `s` letters and `m` letters in all.
pub mod Bounds
mod Tests
use cmps.Prelude.{
  ℕ, suc, zero, ◌+◌, ◌-◌, ◌<◌, ◌≤◌, ◌≢◌, Bool, true, false, not, ◌&&◌, ltb, ◌==◌, if◌then◌else◌,
}
use cmps.Threads.Kernel.{put}
use cmps.Threads.PostOffice.{MailSlot, all_empty}

-- The call that a person comes to next, with the recipient and the message, or with the mailbox.
pub data Pc : Type 0 where
  enter read_p read_box_v read_yield count_p : Pc
  full_yield box_p : ℕ → ℕ → Pc
  box_v : ℕ → Pc
  count_v : Pc
  stall : ℕ → Pc
  home : Pc

-- sentCount and deadlock are a person's own.
pub record Office : Type 0 where
  pub pc : ℕ → Pc
  pub mail : ℕ → ℕ → MailSlot
  pub msg_ptr : ℕ → ℕ
  pub msg_sent_cnt : ℕ
  pub done : ℕ → Bool
  pub mailbox : ℕ → ℕ
  pub msg_cnt : ℕ
  pub sent_count : ℕ → ℕ
  pub deadlock : ℕ → Bool

abbrev pub at : ℕ → Pc → Office → Office
at i q r = record r { pc = put i q r.pc }

abbrev pub look : ℕ → Office → Office
look i r = if r.msg_ptr i == 0 then at i count_p r else at i read_p r

abbrev pub read_letter : ℕ → Office → Office
read_letter i r = at i read_box_v (record r { msg_ptr = put i (r.msg_ptr i - 1) r.msg_ptr })

-- The loop that waits for a place in the mailbox, and what follows it.
abbrev pub wait_for_place : (s i t z : ℕ) → Office → Office
wait_for_place s i t z r =
    if (r.msg_ptr t == s) && not (r.deadlock i)
    then (let count = r.sent_count i + 1 in
        at i (full_yield t z) (record r {
          sent_count = put i count r.sent_count;
          deadlock = put i (if count == 3 then true else r.deadlock i) r.deadlock;
        }))
    else if not (r.deadlock i)
    then at i (box_p t z) r
    else at i count_v
        (record r { deadlock = put i false r.deadlock; sent_count = put i 0 r.sent_count })

-- What follows MsgCntSemaphore->P().
abbrev pub send : (s m i t z : ℕ) → Office → Office
send s m i t z r = if ltb r.msg_sent_cnt m then wait_for_place s i t z r else at i count_v r

abbrev pub put_letter : (i t z : ℕ) → Office → Office
put_letter i t z r =
    let r' = record r { msg_ptr = put t (r.msg_ptr t + 1) r.msg_ptr } in
    at i (box_v t) (record r' {
      mail = put t (put (r'.msg_ptr t - 1) (record { who = i; msg = z }) (r'.mail t)) r'.mail;
      msg_sent_cnt = r'.msg_sent_cnt + 1;
    })

abbrev pub check_done : (n m i : ℕ) → Office → Office
check_done n m i r =
    let is_done = all_empty n r.msg_ptr && (r.msg_sent_cnt == m) in
    let r' = record r { done = put i is_done r.done } in if is_done then at i home r' else look i r'

-- What person `i` may do next.
pub data Move (n s m i : ℕ) (r : Office) : Pc → Office → Type 0 where
  arrive : Move n s m i r enter (look i r)
  claim_own :
      0 < r.mailbox i
      → Move n s m i r read_p
          (read_letter i (record r { mailbox = put i (r.mailbox i - 1) r.mailbox }))
  release_own :
      Move n s m i r read_box_v
        (at i read_yield (record r { mailbox = put i (r.mailbox i + 1) r.mailbox }))
  look_again : Move n s m i r read_yield (look i r)
  count :
      (t z : ℕ)
      → t < n
      → t ≢ i
      → z < 6
      → 0 < r.msg_cnt
      → Move n s m i r count_p (send s m i t z (record r { msg_cnt = r.msg_cnt - 1 }))
  wait : {t z : ℕ} → Move n s m i r (full_yield t z) (wait_for_place s i t z r)
  claim :
      {t z : ℕ}
      → 0 < r.mailbox t
      → Move n s m i r
          (box_p t z)
          (put_letter i t z (record r { mailbox = put t (r.mailbox t - 1) r.mailbox }))
  release :
      {t : ℕ}
      → Move n s m i r
          (box_v t)
          (at i count_v (record r { mailbox = put t (r.mailbox t + 1) r.mailbox }))
  counted :
      (k : ℕ)
      → 2 ≤ k
      → k ≤ 5
      → Move n s m i r count_v (at i (stall k) (record r { msg_cnt = r.msg_cnt + 1 }))
  cycle : {k : ℕ} → Move n s m i r (stall (suc k)) (at i (stall k) r)
  leave : Move n s m i r (stall 0) (check_done n m i r)

pub data Step (n s m : ℕ) (r : Office) : Office → Type 0 where
  pick : (i : ℕ) {r' : Office} → i < n → Move n s m i r (r.pc i) r' → Step n s m r r'

-- ThreadTest, for task 5. `mail` is what MailBox holds before.
unfoldable pub start : (ℕ → ℕ → MailSlot) → Office
start mail = record {
  pc = λ i. enter;
  mail = mail;
  msg_ptr = λ i. 0;
  msg_sent_cnt = 0;
  done = λ i. false;
  mailbox = λ i. 1;
  msg_cnt = 1;
  sent_count = λ i. 0;
  deadlock = λ i. false;
}

pub data Reach (n s m : ℕ) (mail : ℕ → ℕ → MailSlot) : Office → Type 0 where
  begin : Reach n s m mail (start mail)
  later : {r r' : Office} → Reach n s m mail r → Step n s m r r' → Reach n s m mail r'
