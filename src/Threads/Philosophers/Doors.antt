-- ===== src/Threads/Philosophers/Doors.antt =====
-- The two doors of threads/threadtest.cc: DinPhilSemaphore up to the seat, and LeaveRoom.
use cmps.Prelude.{
  ℕ, ◌+◌, ◌<◌, ◌≤◌, ◌≡◌, ◌≢◌, refl, Bool, true, false, ◌==◌, if◌then◌else◌, arith, Bool-cases, inl,
  inr, ◌⊎◌, ap, total, total-changed, total-le, total-one, total-zero,
}
use cmps.Threads.Philosophers.{Pc, Room, Move, Step, start, Reach}

-- Not yet counted as present.
abbrev pub outside : Pc → ℕ
outside Pc.enter_p = 1
outside _ = 0

-- The seats that a philosopher has, or has still to grant.
abbrev pub seats : Pc → ℕ
seats Pc.enter_p = 0
seats Pc.enter_v = 0
seats Pc.sit_p = 0
seats (Pc.sit_v j) = j
seats _ = 1

-- Not yet counted as ready to leave.
abbrev pub stays : Pc → ℕ
stays Pc.ready_v = 0
stays Pc.leave_p = 0
stays Pc.grant_p = 0
stays Pc.grant_v = 0
stays Pc.finished = 0
stays (Pc.leave_v j) = 0
stays _ = 1

-- The permissions to leave that a philosopher has, or has still to grant.
abbrev pub permits : Pc → ℕ
permits Pc.grant_p = 1
permits Pc.grant_v = 1
permits Pc.finished = 1
permits (Pc.leave_v j) = j
permits _ = 0

-- Behind SitSemaphore->P(), and behind LeaveSemaphore->P().
abbrev pub at_table : Pc → Bool
at_table Pc.enter_p = false
at_table Pc.enter_v = false
at_table Pc.sit_p = false
at_table (Pc.sit_v j) = false
at_table _ = true

abbrev pub leaves : Pc → Bool
leaves Pc.grant_p = true
leaves Pc.grant_v = true
leaves Pc.finished = true
leaves _ = false

-- In LeaveRoom.
abbrev pub no_meals : Pc → Bool
no_meals Pc.ready_p = true
no_meals Pc.ready_v = true
no_meals Pc.leave_p = true
no_meals Pc.grant_p = true
no_meals Pc.grant_v = true
no_meals Pc.finished = true
no_meals (Pc.leave_v j) = true
no_meals _ = false

abbrev pub all_at : ℕ → ℕ → ℕ → ℕ
all_at n z k = if z == k then n else 0

module _ {n i : ℕ} {r : Room} where
  elsewhere : {p : Pc} {r' : Room} → Move n i r p r' → (j : ℕ) → i ≢ j → r'.pc j ≡ r.pc j
  elsewhere (Move.enter g) j away = ground (arith, away)
  elsewhere m j away = ground (arith, away)

  Move-outside :
      {p : Pc} {r' : Room}
      → Move n i r p r'
      → outside p ≤ r.num_phil_not_in
      → r'.num_phil_not_in + outside p ≡ r.num_phil_not_in + outside (r'.pc i)
  Move-outside (Move.enter g) some_out = ground (arith, some_out)
  Move-outside m some_out = ground (arith, some_out)

  Move-seats :
      {p : Pc} {r' : Room}
      → Move n i r p r'
      → outside p ≤ r.num_phil_not_in
      → r'.sit_semaphore + seats (r'.pc i) + all_at n r.num_phil_not_in 0
        ≡ r.sit_semaphore + seats p + all_at n r'.num_phil_not_in 0
  Move-seats (Move.enter g) some_out = ground (arith, some_out)
  Move-seats (Move.sit g) some_out = ground (arith, g)
  Move-seats m some_out = ground (arith, some_out)

  Move-stays :
      {p : Pc} {r' : Room}
      → Move n i r p r'
      → r'.num_rdy_leave + stays (r'.pc i) ≡ r.num_rdy_leave + stays p
  Move-stays (Move.enter g) = ground arith
  Move-stays m = ground arith

  Move-permits :
      {p : Pc} {r' : Room}
      → Move n i r p r'
      → r.num_rdy_leave + stays p ≤ n
      → r'.leave_semaphore + permits (r'.pc i) + all_at n r.num_rdy_leave n
        ≡ r.leave_semaphore + permits p + all_at n r'.num_rdy_leave n
  Move-permits (Move.enter g) few = ground (arith, few)
  Move-permits (Move.rise g) few = ground (arith, g)
  Move-permits m few = ground (arith, few)

  Move-done :
      {p : Pc} {r' : Room}
      → Move n i r p r'
      → ((j : ℕ) → r.done j ≡ true → r.meal_left ≡ 0)
      → (j : ℕ) → r'.done j ≡ true
      → r'.meal_left ≡ 0
  Move-done (Move.enter g) ate j d = ground (arith, d, ate j)
  Move-done m ate j d = ground (arith, d, ate j)

  Move-no_meals :
      {p : Pc} {r' : Room}
      → Move n i r p r'
      → r.pc i ≡ p
      → ((j : ℕ) → no_meals (r.pc j) ≡ true → r.done j ≡ true)
      → (j : ℕ) → no_meals (r'.pc j) ≡ true
      → r'.done j ≡ true
  Move-no_meals (Move.enter g) e ate j q = ground (arith, e, q, ate j, ate i)
  Move-no_meals m e ate j q = ground (arith, e, q, ate j, ate i)

pub record Doors (n : ℕ) (r : Room) : Type 0 where
  pub out : total outside n r.pc ≡ r.num_phil_not_in
  pub seated : r.sit_semaphore + total seats n r.pc ≡ all_at n r.num_phil_not_in 0
  pub stayed : r.num_rdy_leave + total stays n r.pc ≡ n
  pub permitted : r.leave_semaphore + total permits n r.pc ≡ all_at n r.num_rdy_leave n
  pub ate : (j : ℕ) → r.done j ≡ true → r.meal_left ≡ 0
  pub stopped : (j : ℕ) → no_meals (r.pc j) ≡ true → r.done j ≡ true

-- What the weights of all philosophers sum to after a move.
Move-total :
    (w : Pc → ℕ) {n i : ℕ} {r r' : Room}
    → i < n
    → Move n i r (r.pc i) r'
    → total w n r'.pc + w (r.pc i) ≡ total w n r.pc + w (r'.pc i)
Move-total w {n} {i} {r} {r'} h m =
    total-changed w n r.pc r'.pc i h (λ j away. ap w (elsewhere m j away))

Step-Doors : {n : ℕ} {r r' : Room} → Doors n r → Step n r r' → Doors n r'
Step-Doors {n} {r} {r'} doors (Step.pick i h m) =
    let some_out : outside (r.pc i) ≤ r.num_phil_not_in =
      omega (arith, total-le outside n r.pc i h, doors.out) in
    let few : r.num_rdy_leave + stays (r.pc i) ≤ n =
      omega (arith, total-le stays n r.pc i h, doors.stayed) in
    record {
      out = omega (arith, Move-total outside h m, Move-outside m some_out, doors.out);
      seated = omega (arith, Move-total seats h m, Move-seats m some_out, doors.seated);
      stayed = omega (arith, Move-total stays h m, Move-stays m, doors.stayed);
      permitted = omega (arith, Move-total permits h m, Move-permits m few, doors.permitted);
      ate = Move-done m doors.ate;
      stopped = Move-no_meals m refl doors.stopped;
    }

start-Doors : (n meals : ℕ) → 0 < n → Doors n (start n meals)
unfolding start
start-Doors n meals some_phil = record {
  out = total-one outside n (start n meals).pc (λ j b. refl);
  seated = ground (arith, some_phil, total-zero seats n (start n meals).pc (λ j b. refl));
  stayed = ground (arith, total-one stays n (start n meals).pc (λ j b. refl));
  permitted = ground (arith, some_phil, total-zero permits n (start n meals).pc (λ j b. refl));
  ate = λ j d. absurd (ground (arith, d));
  stopped = λ j d. absurd (ground (arith, d));
}

pub Reach-Doors : {n meals : ℕ} {r : Room} → 0 < n → Reach n meals r → Doors n r
Reach-Doors {n} {meals} some_phil Reach.begin = start-Doors n meals some_phil
Reach-Doors some_phil (Reach.later before s) = Step-Doors (Reach-Doors some_phil before) s

at_table-seats : (q : Pc) → at_table q ≡ true → seats q ≡ 1
at_table-seats Pc.enter_p a = ground (arith, a)
at_table-seats q a = ground (arith, a)

leaves-permits : (q : Pc) → leaves q ≡ true → permits q ≡ 1
leaves-permits Pc.enter_p a = ground (arith, a)
leaves-permits q a = ground (arith, a)

stays-no_meals : (q : Pc) → stays q ≡ 0 → no_meals q ≡ true
stays-no_meals Pc.enter_p a = ground (arith, a)
stays-no_meals q a = ground (arith, a)

-- In every state that `n` philosophers reach: where one of them, `i`, is behind SitSemaphore->P(),
-- each of the others has entered.
Reach-all_in :
    {n meals : ℕ} {r : Room}
    → Reach n meals r
    → (i : ℕ) → i < n
    → at_table (r.pc i) ≡ true
    → (j : ℕ) → j < n
    → outside (r.pc j) ≡ 0
Reach-all_in {n} {meals} {r} reached i h here j l =
    let doors = Reach-Doors (omega (arith, h)) reached in
    ground (
      arith,
      doors.out,
      doors.seated,
      total-le seats n r.pc i h,
      at_table-seats (r.pc i) here,
      total-le outside n r.pc j l,
    )

-- Who leaves has waited for all, and for the last meal.
pub Reach-all_leave :
    {n meals : ℕ} {r : Room}
    → Reach n meals r
    → (i : ℕ) → i < n
    → leaves (r.pc i) ≡ true
    → (r.meal_left ≡ 0) × ((j : ℕ) → j < n → no_meals (r.pc j) ≡ true)
Reach-all_leave {n} {meals} {r} reached i h gone =
    let doors = Reach-Doors (omega (arith, h)) reached in
    let ready : (j : ℕ) → j < n → no_meals (r.pc j) ≡ true = λ j l. stays-no_meals (r.pc j) (
      ground (
        arith,
        doors.stayed,
        doors.permitted,
        total-le permits n r.pc i h,
        leaves-permits (r.pc i) gone,
        total-le stays n r.pc j l,
      )) in
    (doors.ate i (doors.stopped i (ready i h)), ready)

-- In every state that `n` philosophers reach: while a meal is left, or some philosopher `j` is not in
-- LeaveRoom yet, no philosopher `i` is behind LeaveSemaphore->P().
pub Reach-waits :
    {n meals : ℕ} {r : Room}
    → Reach n meals r
    → (i j : ℕ) → i < n
    → j < n
    → (0 < r.meal_left) ⊎ (no_meals (r.pc j) ≡ false)
    → leaves (r.pc i) ≡ false
Reach-waits {r = r} reached i j h l early = elim (Bool-cases (leaves (r.pc i))) [
  | inl gone ↦
      let (none_left, all_stopped) = Reach-all_leave reached i h gone in
      elim early [
        | inl more ↦ absurd (omega (arith, more, none_left))
        | inr busy ↦ absurd (ground (arith, busy, all_stopped j l))
      ]
  | inr stays_in ↦ stays_in
]
