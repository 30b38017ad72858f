-- ===== src/Threads/PostOffice.antt =====
-- The post office with semaphores of threads/threadtest.cc: PostOfficeSemaphore, for `n` persons, mailboxes
-- for `s` letters and `m` letters in all. As with the philosophers, what a person does between two calls of
-- P, V and Yield is one step, and a semaphore is its value. Rows and columns of MailBox have no end here.
pub mod Letters
pub mod Loop
mod Tests
use cmps.Prelude.{
  ℕ, suc, zero, ◌+◌, ◌-◌, ◌<◌, ◌≤◌, ◌≢◌, Bool, true, false, ◌&&◌, ltb, ◌==◌, if◌then◌else◌,
}
use cmps.Threads.Kernel.{put}

-- The call that a person comes to next, with the recipient and the message, or with the mailbox.
pub data Pc : Type 0 where
  enter read_p : Pc
  read_free_v : ℕ → Pc
  read_box_v read_yield : Pc
  free_p box_p count_p : ℕ → ℕ → Pc
  abort_v box_v : ℕ → Pc
  count_v : Pc
  stall : ℕ → Pc
  home : Pc

pub record MailSlot : Type 0 where
  pub who : ℕ
  pub msg : ℕ

pub record Office : Type 0 where
  pub pc : ℕ → Pc
  pub mail : ℕ → ℕ → MailSlot
  pub msg_ptr : ℕ → ℕ
  pub msg_sent_cnt : ℕ
  pub done : ℕ → Bool
  pub mailbox : ℕ → ℕ
  pub free_space : ℕ → ℕ
  pub msg_cnt : ℕ

abbrev pub at : ℕ → Pc → Office → Office
at i q r = record r { pc = put i q r.pc }

-- The test whether the mailbox is empty, with the recipient and the message drawn.
abbrev pub look : (i t z : ℕ) → Office → Office
look i t z r = if r.msg_ptr i == 0 then at i (free_p t z) r else at i read_p r

-- A person reads the last letter.
abbrev pub read_letter : ℕ → Office → Office
read_letter i r = at i (read_free_v i) (record r { msg_ptr = put i (r.msg_ptr i - 1) r.msg_ptr })

-- The letter that is sent to `t`, behind MsgCntSemaphore->P().
abbrev pub put_letter : (i t z : ℕ) → Office → Office
put_letter i t z r =
    let r' = record r { msg_ptr = put t (r.msg_ptr t + 1) r.msg_ptr } in
    record r' {
      mail = put t (put (r'.msg_ptr t - 1) (record { who = i; msg = z }) (r'.mail t)) r'.mail;
      msg_sent_cnt = r'.msg_sent_cnt + 1;
    }

abbrev pub send : (m i t z : ℕ) → Office → Office
send m i t z r =
    if ltb r.msg_sent_cnt m then at i (box_v t) (put_letter i t z r) else at i (abort_v t) r

-- The loop over the mailboxes that sets done_temp.
abbrev pub all_empty : ℕ → (ℕ → ℕ) → Bool
all_empty zero ptr = true
all_empty (suc n) ptr = all_empty n ptr && (ptr n == 0)

-- The end of the loop, and its test.
abbrev pub check_done : (n m i t z : ℕ) → Office → Office
check_done n m i t z r =
    let is_done = all_empty n r.msg_ptr && (r.msg_sent_cnt == m) in
    let r' = record r { done = put i is_done r.done } in
    if is_done then at i home r' else look i t z r'

-- What person `i` may do next. A person waits 2 to 5 cycles at the end of a round.
pub data Move (n m i : ℕ) (r : Office) : Pc → Office → Type 0 where
  arrive : (t z : ℕ) → t < n → t ≢ i → z < 6 → Move n m i r enter (look i t z r)
  claim_own :
      0 < r.mailbox i
      → Move n m i r read_p
          (read_letter i (record r { mailbox = put i (r.mailbox i - 1) r.mailbox }))
  free_own :
      {j : ℕ}
      → Move n m i r
          (read_free_v j)
          (at i read_box_v (record r { free_space = put j (r.free_space j + 1) r.free_space }))
  release_own :
      Move n m i r read_box_v
        (at i read_yield (record r { mailbox = put i (r.mailbox i + 1) r.mailbox }))
  look_again : (t z : ℕ) → t < n → t ≢ i → z < 6 → Move n m i r read_yield (look i t z r)
  reserve :
      {t z : ℕ}
      → 0 < r.free_space t
      → Move n m i r
          (free_p t z)
          (at i (box_p t z) (record r { free_space = put t (r.free_space t - 1) r.free_space }))
  claim :
      {t z : ℕ}
      → 0 < r.mailbox t
      → Move n m i r
          (box_p t z)
          (at i (count_p t z) (record r { mailbox = put t (r.mailbox t - 1) r.mailbox }))
  count :
      {t z : ℕ}
      → 0 < r.msg_cnt
      → Move n m i r (count_p t z) (send m i t z (record r { msg_cnt = r.msg_cnt - 1 }))
  abort :
      {t : ℕ}
      → Move n m i r
          (abort_v t)
          (at i (box_v t) (record r { free_space = put t (r.free_space t + 1) r.free_space }))
  release :
      {t : ℕ}
      → Move n m i r
          (box_v t)
          (at i count_v (record r { mailbox = put t (r.mailbox t + 1) r.mailbox }))
  counted :
      (k : ℕ)
      → 2 ≤ k
      → k ≤ 5
      → Move n m i r count_v (at i (stall k) (record r { msg_cnt = r.msg_cnt + 1 }))
  cycle : {k : ℕ} → Move n m i r (stall (suc k)) (at i (stall k) r)
  leave : (t z : ℕ) → t < n → t ≢ i → z < 6 → Move n m i r (stall 0) (check_done n m i t z r)

pub data Step (n m : ℕ) (r : Office) : Office → Type 0 where
  pick : (i : ℕ) {r' : Office} → i < n → Move n m i r (r.pc i) r' → Step n m r r'

-- ThreadTest, for task 6, with `s` letters for a mailbox. `mail` is what MailBox holds before.
unfoldable pub start : ℕ → (ℕ → ℕ → MailSlot) → Office
start s mail = record {
  pc = λ i. enter;
  mail = mail;
  msg_ptr = λ i. 0;
  msg_sent_cnt = 0;
  done = λ i. false;
  mailbox = λ i. 1;
  free_space = λ i. s;
  msg_cnt = 1;
}

pub data Reach (n s m : ℕ) (mail : ℕ → ℕ → MailSlot) : Office → Type 0 where
  begin : Reach n s m mail (start s mail)
  later : {r r' : Office} → Reach n s m mail r → Step n m r r' → Reach n s m mail r'
