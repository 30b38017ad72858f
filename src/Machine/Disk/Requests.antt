-- ===== src/Machine/Disk/Requests.antt =====
-- One request at a time to the disk of machine/disk.cc.
use cmps.Prelude.{
  ℕ, ◌+◌, ◌%◌, ◌<◌, ◌≡◌, ◌⊎◌, inl, inr, refl, ap, sym, ◌∙◌, Bool, true, false, List, [], ◌∷◌,
  Option, none, some, ltb, ◌==◌, if◌then◌else◌, ◌>>=◌, arith, Bool-cases, ltb→lt, subst,
}
use mathlib.Core.Option.{some-injective}
use cmps.Threads.Sequence.{Entry, insert}
use cmps.Machine.Interrupt.{Interrupt, PendingInterrupt, disk_int, schedule}
use cmps.Machine.Disk.{
  Disk, store, time_to_seek, compute_latency, update_last, read_request, write_request,
  handle_interrupt, is_disk, disk_ints, Reach, start, other, reads, writes, handled, disk_done,
}
use cmps.Machine.Disk.Latency.{Latency, rotated, buffered, compute_latency_lem, time_to_seek_lem}

-- What the sectors are, and a pending interrupt while a request is active, else none.
pub record IsDisk (held : ℕ → ℕ → ℕ) (k : Interrupt Disk) : Type 0 where
  pub kept : k.world.sectors ≡ held
  pub aligned : k.world.buffer_init % 500 ≡ 0
  pub one : disk_ints k.pending ≡ (if k.world.active then 1 else 0)

disk_ints-insert :
    (e : Entry PendingInterrupt) (es : List (Entry PendingInterrupt))
    → disk_ints (insert e es) ≡ (if is_disk e.item.kind then 1 else 0) + disk_ints es
unfolding disk_ints insert
disk_ints-insert e [] = refl
disk_ints-insert e (x ∷ xs) = elim (Bool-cases (ltb e.key x.key)) [
  | inl first ↦ rw first refl
  | inr later ↦ rw (later, disk_ints-insert e xs) (omega arith)
]

positive : (d : Disk) (now s : ℕ) (writing : Bool) (l : ℕ) → Latency d now s writing l → 0 < l
positive d now s writing l (rotated p least) = omega (arith, p.after, p.before)
positive d now s writing l (buffered read still same p) = omega (arith, same)

update_last-aligned :
    (d : Disk) (now s : ℕ) → d.buffer_init % 500 ≡ 0 → (update_last now s d).buffer_init % 500 ≡ 0
unfolding update_last
update_last-aligned d now s aligned = elim (Bool-cases ((time_to_seek d now s).0 == 0)) [
  | inl still ↦ rw still aligned
  | inr seeks ↦
      rw seeks (let sought = time_to_seek_lem d now s in omega (arith, sought.0, sought.2))
]

-- What holds of the value of an Option, if it has one.
abbrev Holds {ℓ κ} : {A : Type ℓ} → (A → Type κ) → Option A → Type κ
Holds P none = Unit
Holds P (some x) = P x

-- A request has started: it is active, and the sectors are `held`.
abbrev Started : (ℕ → ℕ → ℕ) → Interrupt Disk → Type 0
Started held k = IsDisk held k × (k.world.active ≡ true)

started :
    (l : ℕ) (d : Disk) (held : ℕ → ℕ → ℕ) (k : Interrupt Disk)
    → 0 < l
    → disk_ints k.pending ≡ 0
    → d.sectors ≡ held
    → d.buffer_init % 500 ≡ 0
    → d.active ≡ true
    → (k' : Interrupt Disk) × (schedule disk_done 0 l disk_int (record k { world = d }) ≡ some k')
      × Started held k'
unfolding schedule
started l d held k later nothing sectors aligned active =
    let soon : ltb 0 l ≡ true = ground (arith, later) in
    rw soon (
      _,
      refl,
      (
        record {
          kept = sectors;
          aligned = aligned;
          one = disk_ints-insert _ k.pending ∙ ap (λ z. 1 + z) nothing ∙ rw active refl;
        },
        active,
      ),
    )

idle_ints :
    (held : ℕ → ℕ → ℕ) (k : Interrupt Disk)
    → IsDisk held k
    → k.world.active ≡ false
    → disk_ints k.pending ≡ 0
idle_ints held k valid idle = valid.one ∙ rw idle refl

latency_positive :
    (k : Interrupt Disk) (held : ℕ → ℕ → ℕ) (s : ℕ) (writing : Bool)
    → IsDisk held k
    → 0 < compute_latency k.world k.total_ticks s writing
latency_positive k held s writing valid =
    positive k.world k.total_ticks s writing _
      (compute_latency_lem k.world k.total_ticks s writing valid.aligned)

write_request-Started :
    (s : ℕ) (bytes : ℕ → ℕ) (held : ℕ → ℕ → ℕ) (k : Interrupt Disk)
    → IsDisk held k
    → k.world.active ≡ false
    → s < 1024
    → (k' : Interrupt Disk) × (write_request s bytes k ≡ some k') × Started (store s bytes held) k'
unfolding write_request
write_request-Started s bytes held k valid idle small =
    let inside : ltb s 1024 ≡ true = ground (arith, small) in
    let written = record k.world { sectors = store s bytes k.world.sectors; active = true } in
    rw (idle, inside)
      (started (compute_latency k.world k.total_ticks s true) _ (store s bytes held) k
        (latency_positive k held s true valid) (idle_ints held k valid idle)
        (ap (store s bytes) valid.kept) (update_last-aligned written k.total_ticks s valid.aligned)
        refl)

with_bytes :
    (bytes got : ℕ → ℕ) (held : ℕ → ℕ → ℕ) (o : Option (Interrupt Disk))
    → got ≡ bytes
    → (k' : Interrupt Disk) × (o ≡ some k') × Started held k'
    → (k' : Interrupt Disk) × (◌>>=◌ {B = (ℕ → ℕ) × Interrupt Disk} o (λ k'. some (got, k'))
        ≡ some (bytes, k'))
      × Started held k'
with_bytes bytes got held o same (k', run, st) = (k', rw run (λ i. some (same i, k')), st)

read_request-Started :
    (s : ℕ) (held : ℕ → ℕ → ℕ) (k : Interrupt Disk)
    → IsDisk held k
    → k.world.active ≡ false
    → s < 1024
    → (k' : Interrupt Disk) × (read_request s k ≡ some (held s, k')) × Started held k'
unfolding read_request
read_request-Started s held k valid idle small =
    let inside : ltb s 1024 ≡ true = ground (arith, small) in
    rw (idle, inside)
      (with_bytes (held s) (k.world.sectors s) held _ (ap (λ f. f s) valid.kept) (
        started (compute_latency k.world k.total_ticks s false) _ held k
          (latency_positive k held s false valid) (idle_ints held k valid idle) valid.kept
          (update_last-aligned (record k.world { active = true }) k.total_ticks s valid.aligned)
          refl))

read_request-busy : (s : ℕ) (k : Interrupt Disk) → k.world.active ≡ true → read_request s k ≡ none
unfolding read_request
read_request-busy s k busy = rw busy refl

write_request-busy :
    (s : ℕ) (bytes : ℕ → ℕ) (k : Interrupt Disk)
    → k.world.active ≡ true
    → write_request s bytes k ≡ none
unfolding write_request
write_request-busy s bytes k busy = rw busy refl

read_request-outside : (s : ℕ) (k : Interrupt Disk) → ltb s 1024 ≡ false → read_request s k ≡ none
unfolding read_request
read_request-outside s k outside = elim (Bool-cases k.world.active) [
  | inl busy ↦ rw busy refl
  | inr idle ↦ rw (idle, outside) refl
]

write_request-outside :
    (s : ℕ) (bytes : ℕ → ℕ) (k : Interrupt Disk)
    → ltb s 1024 ≡ false
    → write_request s bytes k ≡ none
unfolding write_request
write_request-outside s bytes k outside = elim (Bool-cases k.world.active) [
  | inl busy ↦ rw busy refl
  | inr idle ↦ rw (idle, outside) refl
]

-- A value that an Option has, by what it has and by what it could have.
result_of {ℓ κ} :
    {A : Type ℓ} (P : A → Type κ) (o : Option A) (x : A)
    → o ≡ some x
    → (o ≡ none) ⊎ ((y : A) × (o ≡ some y) × P y)
    → P x
result_of P o x run (inl nothing) = subst (Holds P) (sym nothing ∙ run) tt
result_of P o x run (inr (y, same, holds)) = subst P (some-injective y x (sym same ∙ run)) holds

read_request-Holds :
    (s : ℕ) (got : ℕ → ℕ) (held : ℕ → ℕ → ℕ) (k k' : Interrupt Disk)
    → IsDisk held k
    → read_request s k ≡ some (got, k')
    → IsDisk held k'
read_request-Holds s got held k k' valid run =
    result_of (λ r. IsDisk held r.1) (read_request s k) (got, k') run
      (elim (Bool-cases k.world.active) [
        | inl busy ↦ inl (read_request-busy s k busy)
        | inr idle ↦ elim (Bool-cases (ltb s 1024)) [
          | inr outside ↦ inl (read_request-outside s k outside)
          | inl inside ↦
              let (after, ran, st) =
                read_request-Started s held k valid idle (ltb→lt s 1024 inside) in
              inr ((held s, after), ran, st.0)
        ]
      ])

write_request-Holds :
    (s : ℕ) (bytes : ℕ → ℕ) (held : ℕ → ℕ → ℕ) (k k' : Interrupt Disk)
    → IsDisk held k
    → write_request s bytes k ≡ some k'
    → IsDisk (store s bytes held) k'
write_request-Holds s bytes held k k' valid run =
    result_of (IsDisk (store s bytes held)) (write_request s bytes k) k' run
      (elim (Bool-cases k.world.active) [
        | inl busy ↦ inl (write_request-busy s bytes k busy)
        | inr idle ↦ elim (Bool-cases (ltb s 1024)) [
          | inr outside ↦ inl (write_request-outside s bytes k outside)
          | inl inside ↦
              let (after, ran, st) =
                write_request-Started s bytes held k valid idle (ltb→lt s 1024 inside) in
              inr (after, ran, st.0)
        ]
      ])

Reach-IsDisk : (file held : ℕ → ℕ → ℕ) (k : Interrupt Disk) → Reach file k held → IsDisk held k
unfolding disk_ints handle_interrupt
Reach-IsDisk file _ _ (start k same nothing) = record {
  kept = ap (λ d. d.sectors) same;
  aligned = ap (λ d. d.buffer_init % 500) same;
  one = nothing ∙ rw same refl;
}
Reach-IsDisk file _ _ (other k k' held before same ints) =
    let valid = Reach-IsDisk file held k before in
    record {
      kept = ap (λ d. d.sectors) same ∙ valid.kept;
      aligned = ap (λ d. d.buffer_init % 500) same ∙ valid.aligned;
      one = ints ∙ valid.one ∙ rw same refl;
    }
Reach-IsDisk file _ _ (reads s got k k' held before run) =
    read_request-Holds s got held k k' (Reach-IsDisk file held k before) run
Reach-IsDisk file _ _ (writes s bytes k k' held before run) =
    write_request-Holds s bytes held k k' (Reach-IsDisk file held k before) run
Reach-IsDisk file _ _ (handled e rest k k' held before first kind run) =
    let valid = Reach-IsDisk file held k before in
    let taken : disk_ints k.pending ≡ 1 + disk_ints rest = ap disk_ints first ∙ rw kind refl in
    subst (IsDisk held) (some-injective _ k' run) (record {
      kept = valid.kept;
      aligned = valid.aligned;
      one = ground (arith, valid.one, taken);
    })

-- In every state that requests which return, the interrupts of the disk, and what leaves both alone
-- lead to, from a new disk and no pending disk interrupt, for a sector of the disk: either a request
-- is active, one disk interrupt is pending, and every further request for the sector fails its ASSERT;
-- or none is active and none pending, and a read returns and delivers the bytes last written to the
-- sector, or those of the UNIX file.
pub Reach-reads :
    (file held : ℕ → ℕ → ℕ) (k : Interrupt Disk) (s : ℕ)
    → Reach file k held
    → s < 1024
    → (k.world.active ≡ true)
        × (disk_ints k.pending ≡ 1)
        × (read_request s k ≡ none)
        × ((bytes : ℕ → ℕ) → write_request s bytes k ≡ none)
      ⊎ (k.world.active ≡ false)
        × (disk_ints k.pending ≡ 0)
        × ((k' : Interrupt Disk) × (read_request s k ≡ some (held s, k')) × Reach file k' held)
Reach-reads file held k s reached small =
    let valid = Reach-IsDisk file held k reached in
    elim (Bool-cases k.world.active) [
      | inl busy ↦ inl (
        busy,
        valid.one ∙ rw busy refl,
        read_request-busy s k busy,
        λ bytes. write_request-busy s bytes k busy,
      )
      | inr idle ↦
          let (k', run, st) = read_request-Started s held k valid idle small in
          inr (idle, idle_ints held k valid idle, (k', run, reads s (held s) k k' held reached run))
    ]
