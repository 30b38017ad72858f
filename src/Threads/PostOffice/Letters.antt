-- ===== src/Threads/PostOffice/Letters.antt =====
-- How many letters there are in the post office of threads/threadtest.cc.
use cmps.Prelude.{
  ℕ, zero, suc, ◌+◌, ◌<◌, ◌≤◌, ◌≡◌, ◌≢◌, refl, Bool, true, false, ◌==◌, if◌then◌else◌, arith, ap,
  Bool-cases, inl, inr, total, total-changed, total-zero,
}
use native.Mathlib.Decide.{ℕ_discrete}
use cmps.Threads.PostOffice.{Pc, Office, MailSlot, Move, Step, start, Reach, all_empty}

-- The places of mailbox `j` that a person holds without a letter there.
abbrev pub claims : ℕ → Pc → ℕ
claims j (Pc.box_p t z) = if t == j then 1 else 0
claims j (Pc.count_p t z) = if t == j then 1 else 0
claims j (Pc.abort_v t) = if t == j then 1 else 0
claims j (Pc.read_free_v t) = if t == j then 1 else 0
claims j _ = 0

abbrev pub reads : Pc → Bool
reads Pc.read_p = true
reads _ = false

all_empty_at : (n : ℕ) (ptr : ℕ → ℕ) → all_empty n ptr ≡ true → (j : ℕ) → j < n → ptr j ≡ 0
all_empty_at zero ptr h j l = absurd (omega (arith, l))
all_empty_at (suc n) ptr h j l = elim (ℕ_discrete j n) [
  | yes last ↦ ground (arith, h, last)
  | no before ↦ all_empty_at n ptr (ground (arith, h)) j (omega (arith, l, before))
]

module _ {n m i : ℕ} {r : Office} where
  elsewhere : {p : Pc} {r' : Office} → Move n m i r p r' → (j : ℕ) → i ≢ j → r'.pc j ≡ r.pc j
  elsewhere (Move.arrive t z l a b) j away = ground (arith, away)
  elsewhere mv j away = ground (arith, away)

  Move-claims :
      {p : Pc} {r' : Office}
      → Move n m i r p r'
      → (reads p ≡ true → 0 < r.msg_ptr i)
      → (j : ℕ)
      → r'.free_space j + r'.msg_ptr j + claims j (r'.pc i)
        ≡ r.free_space j + r.msg_ptr j + claims j p
  Move-claims (Move.arrive t z l a b) full j = ground (arith, full)
  Move-claims (Move.reserve g) full j = ground (arith, full, g)
  Move-claims mv full j = ground (arith, full)

  Move-sent : {p : Pc} {r' : Office} → Move n m i r p r' → r.msg_sent_cnt ≤ m → r'.msg_sent_cnt ≤ m
  Move-sent (Move.arrive t z l a b) le = ground (arith, le)
  Move-sent mv le = ground (arith, le)

  Move-reads :
      {p : Pc} {r' : Office}
      → Move n m i r p r'
      → ((j : ℕ) → reads (r.pc j) ≡ true → 0 < r.msg_ptr j)
      → (j : ℕ) → reads (r'.pc j) ≡ true
      → 0 < r'.msg_ptr j
  Move-reads (Move.arrive t z l a b) full j q = ground (arith, q, full j)
  Move-reads mv full j q = ground (arith, q, full j)

  Move-all_sent :
      {p : Pc} {r' : Office}
      → Move n m i r p r'
      → ((j : ℕ) → r.done j ≡ true → r.msg_sent_cnt ≡ m)
      → (j : ℕ) → r'.done j ≡ true
      → r'.msg_sent_cnt ≡ m
  Move-all_sent (Move.arrive t z l a b) sent j d = ground (arith, d, sent j)
  Move-all_sent mv sent j d = ground (arith, d, sent j)

  Move-all_read :
      {p : Pc} {r' : Office}
      → Move n m i r p r'
      → ((j : ℕ) → r.done j ≡ true → r.msg_sent_cnt ≡ m)
      → (k : ℕ) → k < n
      → ((j : ℕ) → r.done j ≡ true → r.msg_ptr k ≡ 0)
      → (j : ℕ) → r'.done j ≡ true
      → r'.msg_ptr k ≡ 0
  Move-all_read (Move.arrive t z l a b) sent k h read j d = ground (arith, d, read j)
  Move-all_read (Move.leave t z l a b) sent k h read j d =
      elim (Bool-cases (all_empty n r.msg_ptr)) [
        | inl empty ↦ ground (arith, d, all_empty_at n r.msg_ptr empty k h)
        | inr letters ↦ ground (arith, d, letters, read j)
      ]
  Move-all_read mv sent k h read j d = ground (arith, d, sent j, read j)

pub record Letters (n s m : ℕ) (r : Office) : Type 0 where
  pub places : (j : ℕ) → r.free_space j + r.msg_ptr j + total (claims j) n r.pc ≡ s
  pub sent : r.msg_sent_cnt ≤ m
  pub full : (j : ℕ) → reads (r.pc j) ≡ true → 0 < r.msg_ptr j
  pub all_sent : (j : ℕ) → r.done j ≡ true → r.msg_sent_cnt ≡ m
  pub all_read : (k : ℕ) → k < n → (j : ℕ) → r.done j ≡ true → r.msg_ptr k ≡ 0

Step-Letters : {n s m : ℕ} {r r' : Office} → Letters n s m r → Step n m r r' → Letters n s m r'
Step-Letters {n} {s} {m} {r} {r'} before (Step.pick i h mv) = record {
  places = λ j. omega (
    arith,
    total-changed (claims j) n r.pc r'.pc i h (λ k away. ap (claims j) (elsewhere mv k away)),
    Move-claims mv (before.full i) j,
    before.places j,
  );
  sent = Move-sent mv before.sent;
  full = Move-reads mv before.full;
  all_sent = Move-all_sent mv before.all_sent;
  all_read = λ k h. Move-all_read mv before.all_sent k h (before.all_read k h);
}

pub Reach-Letters :
    {n s m : ℕ} {mail : ℕ → ℕ → MailSlot} {r : Office} → Reach n s m mail r → Letters n s m r
unfolding start
Reach-Letters {n} {s} {m} {mail} Reach.begin = record {
  places = λ j. ground (arith, total-zero (claims j) n (start s mail).pc (λ k h. refl));
  sent = omega arith;
  full = λ j q. absurd (ground (arith, q));
  all_sent = λ j d. absurd (ground (arith, d));
  all_read = λ k h j d. refl;
}
Reach-Letters (Reach.later before st) = Step-Letters (Reach-Letters before) st

-- In every state that the persons in the post office reach, for mailboxes of `s` letters and `m`
-- letters in all: no mailbox has more than `s` letters, and no more than `m` letters have been sent.
pub Reach-within :
    {n s m : ℕ} {mail : ℕ → ℕ → MailSlot} {r : Office}
    → Reach n s m mail r
    → (j : ℕ) → (r.msg_ptr j ≤ s) × (r.msg_sent_cnt ≤ m)
Reach-within reached j =
    let letters = Reach-Letters reached in (omega (arith, letters.places j), letters.sent)

-- In every state that `n` persons in the post office reach: where one of them is done, all `m` letters
-- have been sent, and no mailbox `k` of theirs has a letter.
pub Reach-home :
    {n s m : ℕ} {mail : ℕ → ℕ → MailSlot} {r : Office}
    → Reach n s m mail r
    → (i : ℕ) → r.done i ≡ true
    → (k : ℕ) → k < n
    → (r.msg_sent_cnt ≡ m) × (r.msg_ptr k ≡ 0)
Reach-home reached i gone k h =
    let letters = Reach-Letters reached in (letters.all_sent i gone, letters.all_read k h i gone)
