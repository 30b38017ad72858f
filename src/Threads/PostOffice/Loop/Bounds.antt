-- ===== src/Threads/PostOffice/Loop/Bounds.antt =====
-- How many letters PostOfficeLoop of threads/threadtest.cc lets into a mailbox.
use cmps.Prelude.{
  ℕ, ◌+◌, ◌<◌, ◌≤◌, ◌≡◌, ◌≢◌, refl, Bool, true, false, ◌==◌, arith, ap, sym, ◌∙◌, total,
  total-changed, total-two, total-zero,
}
use native.Mathlib.Decide.{ℕ_discrete}
use cmps.Threads.PostOffice.{MailSlot}
use cmps.Threads.PostOffice.Loop.{Pc, Office, Move, Step, start, Reach}

-- Between MsgCntSemaphore->P() and MsgCntSemaphore->V().
abbrev pub counting : Pc → ℕ
counting (Pc.full_yield t z) = 1
counting (Pc.box_p t z) = 1
counting (Pc.box_v t) = 1
counting Pc.count_v = 1
counting _ = 0

-- About to send a letter, and about to put it into mailbox `t`.
abbrev pub sends : Pc → Bool
sends (Pc.full_yield t z) = true
sends (Pc.box_p t z) = true
sends _ = false

abbrev pub puts : Pc → ℕ → Bool
puts (Pc.box_p t' z) t = t' == t
puts _ t = false

module _ {n s m i : ℕ} {r : Office} where
  elsewhere : {p : Pc} {r' : Office} → Move n s m i r p r' → (j : ℕ) → i ≢ j → r'.pc j ≡ r.pc j
  elsewhere Move.arrive j away = ground (arith, away)
  elsewhere mv j away = ground (arith, away)

  Move-counting :
      {p : Pc} {r' : Office}
      → Move n s m i r p r'
      → r'.msg_cnt + counting (r'.pc i) ≡ r.msg_cnt + counting p
  Move-counting Move.arrive = ground arith
  Move-counting (Move.count t z l a b g) = ground (arith, g)
  Move-counting mv = ground arith

  Move-letters :
      {p : Pc} {r' : Office}
      → Move n s m i r p r'
      → (j : ℕ) → (puts p j ≡ true → r.msg_ptr j < s)
      → r.msg_ptr j ≤ s
      → r'.msg_ptr j ≤ s
  Move-letters Move.arrive j room le = ground (arith, room, le)
  Move-letters mv j room le = ground (arith, room, le)

  Move-sent :
      {p : Pc} {r' : Office}
      → Move n s m i r p r'
      → (sends p ≡ true → r.msg_sent_cnt < m)
      → r.msg_sent_cnt ≤ m
      → r'.msg_sent_cnt ≤ m
  Move-sent Move.arrive more le = ground (arith, more, le)
  Move-sent mv more le = ground (arith, more, le)

  -- The person that moves still has a place, and another one keeps it.
  Move-room :
      {p : Pc} {r' : Office}
      → Move n s m i r p r'
      → (t : ℕ) → r.msg_ptr t ≤ s
      → puts (r'.pc i) t ≡ true
      → r'.msg_ptr t < s
  Move-room Move.arrive t le q = ground (arith, le, q)
  Move-room mv t le q = ground (arith, le, q)

  Move-more :
      {p : Pc} {r' : Office}
      → Move n s m i r p r'
      → (sends p ≡ true → r.msg_sent_cnt < m)
      → sends (r'.pc i) ≡ true
      → r'.msg_sent_cnt < m
  Move-more Move.arrive more q = ground (arith, more, q)
  Move-more mv more q = ground (arith, more, q)

  Move-others :
      {p : Pc} {r' : Office}
      → Move n s m i r p r'
      → counting p ≡ 0
      → (t : ℕ) → (r'.msg_ptr t ≤ r.msg_ptr t) × (r'.msg_sent_cnt ≡ r.msg_sent_cnt)
  Move-others Move.arrive idle t = (ground (arith, idle), ground (arith, idle))
  Move-others mv idle t = (ground (arith, idle), ground (arith, idle))

puts-counting : (q : Pc) (t : ℕ) → puts q t ≡ true → counting q ≡ 1
puts-counting Pc.enter t h = ground (arith, h)
puts-counting q t h = ground (arith, h)

sends-counting : (q : Pc) → sends q ≡ true → counting q ≡ 1
sends-counting Pc.enter h = ground (arith, h)
sends-counting q h = ground (arith, h)

pub record Bounded (n s m : ℕ) (r : Office) : Type 0 where
  pub one : r.msg_cnt + total counting n r.pc ≡ 1
  pub letters : (j : ℕ) → r.msg_ptr j ≤ s
  pub sent : r.msg_sent_cnt ≤ m
  pub room : (i t : ℕ) → i < n → puts (r.pc i) t ≡ true → r.msg_ptr t < s
  pub more : (i : ℕ) → i < n → sends (r.pc i) ≡ true → r.msg_sent_cnt < m

module _ {n s m i : ℕ} {r r' : Office} (h : i < n) (before : Bounded n s m r)
    (mv : Move n s m i r (r.pc i) r') where
  -- While another person is between P and V, this one is not.
  idle : (j : ℕ) → j < n → i ≢ j → counting (r'.pc j) ≡ 1 → counting (r.pc i) ≡ 0
  idle j l away busy = omega (
    arith,
    ap counting (elsewhere mv j away),
    busy,
    before.one,
    total-two counting n r.pc i j h l away,
  )

  room' : (j t : ℕ) → j < n → puts (r'.pc j) t ≡ true → r'.msg_ptr t < s
  room' j t l q = elim (ℕ_discrete i j) [
    | yes here ↦ Move-room mv t (before.letters t) (ap (λ z. puts (r'.pc z) t) here ∙ q)
    | no away ↦
        let place = before.room j t l (sym (ap (λ z. puts z t) (elsewhere mv j away)) ∙ q) in
        omega (arith, place, (Move-others mv (idle j l away (puts-counting (r'.pc j) t q)) t).0)
  ]

  more' : (j : ℕ) → j < n → sends (r'.pc j) ≡ true → r'.msg_sent_cnt < m
  more' j l q = elim (ℕ_discrete i j) [
    | yes here ↦ Move-more mv (before.more i h) (ap (λ z. sends (r'.pc z)) here ∙ q)
    | no away ↦
        let few = before.more j l (sym (ap sends (elsewhere mv j away)) ∙ q) in
        omega (arith, few, (Move-others mv (idle j l away (sends-counting (r'.pc j) q)) 0).1)
  ]

  Move-Bounded : Bounded n s m r'
  Move-Bounded = record {
    one = omega (
      arith,
      total-changed counting n r.pc r'.pc i h (λ j away. ap counting (elsewhere mv j away)),
      Move-counting mv,
      before.one,
    );
    letters = λ j. Move-letters mv j (before.room i j h) (before.letters j);
    sent = Move-sent mv (before.more i h) before.sent;
    room = room';
    more = more';
  }

pub Reach-Bounded :
    {n s m : ℕ} {mail : ℕ → ℕ → MailSlot} {r : Office} → Reach n s m mail r → Bounded n s m r
unfolding start
Reach-Bounded {n} {mail = mail} Reach.begin = record {
  one = omega (arith, total-zero counting n (start mail).pc (λ j l. refl));
  letters = λ j. omega arith;
  sent = omega arith;
  room = λ i t h q. absurd (ground (arith, q));
  more = λ i h q. absurd (ground (arith, q));
}
Reach-Bounded (Reach.later before (Step.pick i h mv)) = Move-Bounded h (Reach-Bounded before) mv

-- In every state that the persons of PostOfficeLoop reach, for mailboxes of `s` letters and `m`
-- letters in all: no mailbox has more than `s` letters, no more than `m` letters have been sent, and
-- of two persons at most one is between MsgCntSemaphore->P() and its V(), although it may yield there
-- to wait for a place.
pub Reach-fits :
    {n s m : ℕ} {mail : ℕ → ℕ → MailSlot} {r : Office}
    → Reach n s m mail r
    → (i j : ℕ) → i < n
    → j < n
    → i ≢ j
    → (r.msg_ptr j ≤ s) × (r.msg_sent_cnt ≤ m) × (counting (r.pc i) + counting (r.pc j) ≤ 1)
Reach-fits {n} {r = r} reached i j h l away =
    let bounded = Reach-Bounded reached in
    (
      bounded.letters j,
      bounded.sent,
      omega (arith, bounded.one, total-two counting n r.pc i j h l away),
    )
