-- ===== src/Machine/Interrupt/Handled.antt =====
-- The handlers that CheckIfDue of machine/interrupt.cc calls.
use cmps.Prelude.{ℕ, ◌≤◌, ◌≡◌, true, false, ◌&&◌, List, [], ◌∷◌, Option, some}
use cmps.Threads.Sequence.{Entry, insert}
use cmps.Machine.Interrupt.{
  Interrupt, PendingInterrupt, int_off, system_mode, is_idle, is_timer, no_entries,
}

-- The interrupt that was looked at, if any, is put back.
pub data PutBack {W : Type 0} (k : Interrupt W) : Interrupt W → Type 0 where
  none_pending : k.pending ≡ [] → PutBack k k
  inserted :
      (e : Entry PendingInterrupt) (rest : List (Entry PendingInterrupt))
      → k.pending ≡ e ∷ rest
      → PutBack k (record k { pending = insert e rest })

module _ {W : Type 0} (call : ℕ → ℕ → Interrupt W → Option (Interrupt W)) (settle : W → W) where
  -- The first interrupt `e` is due, and not a timer that alone waits while the machine idles. Its handler is
  -- called with its argument, with interrupts off, in system mode, behind the delayed load, and with the
  -- interrupt off the list.
  pub record Invoked (k : Interrupt W) (e : Entry PendingInterrupt) (k' : Interrupt W)
      : Type 0 where
    pub rest : List (Entry PendingInterrupt)
    pub pending : k.pending ≡ e ∷ rest
    pub now : e.key ≤ k.total_ticks
    pub off : k.level ≡ int_off
    pub busy : is_idle k.status && is_timer e.item.kind && no_entries rest ≡ false
    pub handled : Interrupt W
    pub called :
        call e.item.handler e.item.arg (record k {
          pending = rest;
          world = settle k.world;
          in_handler = true;
          status = system_mode;
        })
        ≡ some handled
    pub back : k' ≡ record handled { status = k.status; in_handler = false }

  -- The handlers of these interrupts are called, one after the other, and then no more.
  pub data Handled : Interrupt W → List PendingInterrupt → Interrupt W → Type 0 where
    ends : (k k' : Interrupt W) → PutBack k k' → Handled k [] k'
    next :
        (e : Entry PendingInterrupt) (k k₁ : Interrupt W) (ps : List PendingInterrupt)
        (k' : Interrupt W)
        → Invoked k e k₁
        → Handled k₁ ps k'
        → Handled k (e.item ∷ ps) k'
