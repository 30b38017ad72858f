-- ===== src/Machine/Interrupt/Drain.antt =====
-- The loops of machine/interrupt.cc over CheckIfDue: they end, and leave no interrupt that is due.
use cmps.Prelude.{
  ℕ, zero, suc, ◌+◌, ◌≤◌, ◌<◌, ◌≡◌, inl, inr, refl, ap, sym, subst, ◌∙◌, Bool, true, false, ◌&&◌,
  List, [], ◌∷◌, Option, some, arith, Bool-cases,
}
use native.Mathlib.Decide.{dec_lt}
use cmps.Threads.Sequence.{Entry, insert, AllFrom, IsSorted, AllFrom-insert}
use cmps.Machine.Interrupt.{
  Interrupt, PendingInterrupt, int_off, system_mode, is_idle, is_timer, invoke, due, check_if_due,
  drain,
}
use cmps.Machine.Interrupt.Handled.{PutBack, none_pending, inserted, Invoked, Handled, ends, next}
use cmps.Machine.Interrupt.Pending.{count_due, insert_back, all_later, Polite}

-- No interrupt is due; or the machine idles, and only a timer waits.
pub data Quiet {W : Type 0} (k : Interrupt W) : Type 0 where
  later : AllFrom (k.total_ticks + 1) k.pending → Quiet k
  timer_only :
      (e : Entry PendingInterrupt)
      → k.pending ≡ e ∷ []
      → is_timer e.item.kind ≡ true
      → is_idle k.status ≡ true
      → Quiet k

-- What a round or a loop keeps.
pub record Kept {W : Type 0} (k k' : Interrupt W) : Type 0 where
  pub time : k'.total_ticks ≡ k.total_ticks
  pub idle : k'.idle_ticks ≡ k.idle_ticks
  pub system : k'.system_ticks ≡ k.system_ticks
  pub user : k'.user_ticks ≡ k.user_ticks
  pub level : k'.level ≡ k.level
  pub status : k'.status ≡ k.status
  pub sorted : IsSorted k'.pending

pub Kept-trans : {W : Type 0} (a b c : Interrupt W) → Kept a b → Kept b c → Kept a c
Kept-trans a b c p q = record {
  time = q.time ∙ p.time;
  idle = q.idle ∙ p.idle;
  system = q.system ∙ p.system;
  user = q.user ∙ p.user;
  level = q.level ∙ p.level;
  status = q.status ∙ p.status;
  sorted = q.sorted;
}

module _ {W : Type 0} (call : ℕ → ℕ → Interrupt W → Option (Interrupt W)) (settle : W → W)
    (polite : Polite call) where
  -- A round of the loop: no interrupt is due, or the first is handled, and one fewer is due afterwards.
  pub data Round (k : Interrupt W) (out : Option (Bool × Interrupt W)) : Type 0 where
    stopped :
        (k' : Interrupt W)
        → out ≡ some (false, k')
        → PutBack k k'
        → Kept k k'
        → Quiet k'
        → Round k out
    ran :
        (e : Entry PendingInterrupt) (k' : Interrupt W)
        → out ≡ some (true, k')
        → Invoked call settle k e k'
        → Kept k k'
        → count_due k.total_ticks k'.pending < count_due k.total_ticks k.pending
        → Round k out

  pub invoke-Kept :
      (p : PendingInterrupt) (k : Interrupt W)
      → IsSorted k.pending
      → k.level ≡ int_off
      → (k' : Interrupt W) × (invoke call settle p k ≡ some k')
        × Kept k k'
        × ((k₁ : Interrupt W) × (call p.handler p.arg
                (record k { world = settle k.world; in_handler = true; status = system_mode })
              ≡ some k₁)
            × (k' ≡ record k₁ { status = k.status; in_handler = false }))
        × (count_due k.total_ticks k'.pending ≤ count_due k.total_ticks k.pending)
  unfolding invoke
  invoke-Kept p k s off =
      let (k', run, calm) =
        polite p.handler p.arg
          (record k { world = settle k.world; in_handler = true; status = system_mode }) refl off
          refl in
      (
        record k' { status = k.status; in_handler = false },
        ground (arith, run),
        record {
          time = calm.time;
          idle = calm.idle;
          system = calm.system;
          user = calm.user;
          level = calm.level;
          status = refl;
          sorted = calm.sorted s;
        },
        (k', run, refl),
        calm.fewer,
      )

  kept_of :
      (k : Interrupt W) (rest : List (Entry PendingInterrupt)) (k' : Interrupt W)
      → Kept (record k { pending = rest }) k'
      → Kept k k'
  kept_of k rest k' p = record {
    time = p.time;
    idle = p.idle;
    system = p.system;
    user = p.user;
    level = p.level;
    status = p.status;
    sorted = p.sorted;
  }

  one_fewer :
      (k : Interrupt W) (e : Entry PendingInterrupt) (rest : List (Entry PendingInterrupt))
      (k' : Interrupt W)
      → k.pending ≡ e ∷ rest
      → e.key ≤ k.total_ticks
      → count_due k.total_ticks k'.pending ≤ count_due k.total_ticks rest
      → count_due k.total_ticks k'.pending < count_due k.total_ticks k.pending
  one_fewer k e rest k' same now fewer =
      omega (arith, fewer, ap (count_due k.total_ticks) same, counted)
    where
      counted : count_due k.total_ticks (e ∷ rest) ≡ 1 + count_due k.total_ticks rest
      counted = unfold count_due in ground (arith, now)

  run_due :
      (k : Interrupt W) (e : Entry PendingInterrupt) (rest : List (Entry PendingInterrupt))
      → k.pending ≡ e ∷ rest
      → k.level ≡ int_off
      → e.key ≤ k.total_ticks
      → check_if_due call settle false k ≡ due call settle e (record k { pending = rest })
  unfolding check_if_due
  run_due k e rest same off now = ground (arith, same, off, now)

  -- The interrupt `e` is off the list, and due.
  due-Round :
      (k : Interrupt W) (e : Entry PendingInterrupt) (rest : List (Entry PendingInterrupt))
      → k.pending ≡ e ∷ rest
      → IsSorted (e ∷ rest)
      → e.key ≤ k.total_ticks
      → k.level ≡ int_off
      → Round k (due call settle e (record k { pending = rest }))
  due-Round k e [] same s now off = elim (Bool-cases (is_idle k.status && is_timer e.item.kind)) [
    | inl both ↦
        stopped (record k { pending = insert e [] }) (unfold due in ground (arith, both))
          (inserted e [] same)
          (record {
            time = refl;
            idle = refl;
            system = refl;
            user = refl;
            level = refl;
            status = refl;
            sorted = insert_back e [] s;
          })
          (timer_only e (unfold insert in refl) (ground (arith, both)) (ground (arith, both)))
    | inr not_both ↦
        let (k', run, kept, (k₁, called, back), fewer) =
          invoke-Kept e.item (record k { pending = [] }) tt off in
        ran e k' (unfold due in ground (arith, not_both, run))
          (record {
            rest = [];
            pending = same;
            now = now;
            off = off;
            busy = ground (arith, not_both);
            handled = k₁;
            called = called;
            back = back;
          })
          (kept_of k [] k' kept) (one_fewer k e [] k' same now fewer)
  ]
  due-Round k e (x ∷ rest) same s now off =
      let (k', run, kept, (k₁, called, back), fewer) =
        invoke-Kept e.item (record k { pending = x ∷ rest }) s.1 off in
      ran e k' (unfold due in ground (arith, run))
        (record {
          rest = x ∷ rest;
          pending = same;
          now = now;
          off = off;
          busy = ground arith;
          handled = k₁;
          called = called;
          back = back;
        })
        (kept_of k (x ∷ rest) k' kept) (one_fewer k e (x ∷ rest) k' same now fewer)

  check_if_due-Round :
      (k : Interrupt W) (pending : List (Entry PendingInterrupt))
      → k.pending ≡ pending
      → k.level ≡ int_off
      → IsSorted pending
      → Round k (check_if_due call settle false k)
  check_if_due-Round k [] same off s =
      stopped k (unfold check_if_due in ground (arith, same, off)) (none_pending same)
        (record {
          time = refl;
          idle = refl;
          system = refl;
          user = refl;
          level = refl;
          status = refl;
          sorted = subst IsSorted (sym same) tt;
        })
        (later (subst (AllFrom (k.total_ticks + 1)) (sym same) tt))
  check_if_due-Round k (e ∷ rest) same off s = elim (dec_lt k.total_ticks e.key) [
    | yes late ↦
        stopped (record k { pending = insert e rest })
          (unfold check_if_due in ground (arith, same, off, late)) (inserted e rest same)
          (record {
            time = refl;
            idle = refl;
            system = refl;
            user = refl;
            level = refl;
            status = refl;
            sorted = insert_back e rest s;
          })
          (later (
            AllFrom-insert (k.total_ticks + 1) e rest (omega (arith, late))
              (all_later k.total_ticks e.key rest late s.0)))
    | no now ↦
        let here : e.key ≤ k.total_ticks = omega (arith, now) in
        subst (Round k) (sym (run_due k e rest same off here)) (due-Round k e rest same s here off)
  ]

  -- Where every handler, called as a handler with interrupts off and in system mode, returns, keeps
  -- the clock, the counts of ticks, the interrupt level and the order of the pending interrupts, and
  -- makes none of them due: with interrupts off, pending interrupts in order, and fuel for a round for
  -- each that is due and one more, the loop of CheckIfDue ends without a failed assertion. It calls
  -- handlers with their arguments, one after the other, each for the first interrupt of the list,
  -- which is due then and off the list, and puts back the last one that it looked at. It keeps the
  -- clock, the counts of ticks, the level and the status, and no interrupt is due after it, or only a
  -- timer waits while the machine idles.
  pub drain-Quiet :
      (fuel : ℕ) (k : Interrupt W)
      → k.level ≡ int_off
      → IsSorted k.pending
      → count_due k.total_ticks k.pending < fuel
      → (ps : List PendingInterrupt) × (k' : Interrupt W) × (drain call settle fuel k ≡ some k')
        × Handled call settle k ps k'
        × Kept k k'
        × Quiet k'
  unfolding drain
  drain-Quiet zero k off s enough = absurd (omega (arith, enough))
  drain-Quiet (suc fuel) k off s enough = elim (check_if_due-Round k k.pending refl off s) [
    | stopped k' out back kept quiet ↦ ([], k', ground (arith, out), ends k k' back, kept, quiet)
    | ran e k' out invoked kept fewer ↦
        let (ps, k'', run, handled, kept', quiet) =
          drain-Quiet fuel k' (kept.level ∙ off) kept.sorted (
            subst (λ t. count_due t k'.pending < fuel) (sym kept.time)
              (omega (arith, fewer, enough))) in
        (
          e.item ∷ ps,
          k'',
          ground (arith, out, run),
          next e k k' ps k'' invoked handled,
          Kept-trans k k' k'' kept kept',
          quiet,
        )
  ]
