-- ===== src/Userprog/Placement/Scan.antt =====
-- The two loops that the searches of userprog/addrspace.cc share: a rule for each.
use cmps.Prelude.{
  ℕ, zero, suc, ◌+◌, ◌≤◌, ◌<◌, ◌≡◌, ◌⊎◌, inl, inr, refl, subst, Bool, true, false, Option, some,
  arith, leb, if◌then◌else◌, Bool-cases,
}
use native.Mathlib.Decide.{ℕ_discrete, dec_lt}
use cmps.Userprog.BitMap.{BitMap, test, is_set}
use cmps.Userprog.BitMap.Bits.{test_lem}
use cmps.Userprog.Placement.{Search, scan, search}

-- Frames `from` to `to`, the last excluded, are free.
abbrev pub AllFree : BitMap → ℕ → ℕ → Type 0
AllFree frames from to = (j : ℕ) → from ≤ j → j < to → is_set frames j ≡ false

-- A block of `k` frames at `s` lies in memory and is free.
pub record Fits (frames : BitMap) (k s : ℕ) : Type 0 where
  pub inside : s + k ≤ frames.num_bits
  pub free : AllFree frames s (s + k)

-- How a scan from frame `i` that met `r` free frames has stopped: at a used frame, or at the end.
abbrev pub Stopped : BitMap → ℕ → ℕ → Search → Type 0
Stopped frames i r s =
    ((i + r < frames.num_bits)
      × (is_set frames (i + r) ≡ true)
      × (s.index ≡ i + r)
      × (s.end_of_mem ≡ false))
    ⊎ ((i + r ≡ frames.num_bits) × (s.index ≡ 0) × (s.end_of_mem ≡ true))

-- What one step of a scan does to the index, whatever else it does.
abbrev pub Advances : ℕ → (Search → Search) → Type 0
Advances n step =
    (s : Search)
    → ((step s).index ≡ (if leb n (s.index + 1) then 0 else s.index + 1))
      × ((step s).end_of_mem ≡ (if leb n (s.index + 1) then true else s.end_of_mem))

pub scan-at_end :
    (frames : BitMap) (step : Search → Search) (fuel : ℕ) (s : Search)
    → s.index < frames.num_bits
    → s.end_of_mem ≡ true
    → 0 < fuel
    → scan step fuel frames s ≡ some s
unfolding scan
scan-at_end frames step zero s h e p = absurd (omega arith)
scan-at_end frames step (suc fuel) s h e p = ground (arith, test_lem frames s.index h)

module _ (frames : BitMap) (step : Search → Search) (adv : Advances frames.num_bits step) (i : ℕ)
    (P : ℕ → Search → Type 0)
    (keep : (k : ℕ) (s : Search) → s.index ≡ i + k → P k s → P (suc k) (step s)) where
  abbrev Scanned : Option Search → Type 0
  Scanned out =
      (r : ℕ) × (s' : Search) × (out ≡ some s')
      × P r s'
      × AllFree frames i (i + r)
      × Stopped frames i r s'

  pub scan_lem :
      (fuel k : ℕ) (s : Search)
      → i + k < frames.num_bits
      → s.index ≡ i + k
      → s.end_of_mem ≡ false
      → P k s
      → AllFree frames i (i + k)
      → frames.num_bits < fuel + (i + k)
      → Scanned (scan step fuel frames s)
  unfolding scan
  scan_lem zero k s h ix e p free enough = absurd (omega arith)
  scan_lem (suc fuel) k s h ix e p free enough = elim (Bool-cases (is_set frames (i + k))) [
    | inl used ↦ (k, s, ground (arith, tested), p, free, inl (h, used, ix, e))
    | inr open_frame ↦
        rw (first open_frame, scan)
          (next (extend open_frame) (keep k s ix p) (λ more.
            scan_lem fuel (suc k) (step s) (omega arith) (ground (arith, adv s))
              (ground (arith, adv s)) (keep k s ix p) (extend open_frame) (omega arith)))
  ]
    where
      tested : test s.index frames ≡ some (is_set frames (i + k))
      tested = rw ix (test_lem frames (i + k) h)

      first :
          is_set frames (i + k) ≡ false
          → scan step (suc fuel) frames s ≡ scan step fuel frames (step s)
      first o = ground (arith, tested)

      extend : is_set frames (i + k) ≡ false → AllFree frames i (i + suc k)
      extend o j lo hi = elim (ℕ_discrete j (i + k)) [
        | yes same ↦ rw same o
        | no ne ↦ free j lo (omega arith)
      ]

      next :
          AllFree frames i (i + suc k)
          → P (suc k) (step s)
          → (i + suc k < frames.num_bits → Scanned (scan step fuel frames (step s)))
          → Scanned (scan step fuel frames (step s))
      next free' p' more = elim (dec_lt (i + suc k) frames.num_bits) [
        | yes lt ↦ more lt
        | no ge ↦ (
          suc k,
          step s,
          scan-at_end frames step fuel (step s) (ground (arith, adv s)) (ground (arith, adv s))
              (omega arith),
          p',
          free',
          inr (omega arith, ground (arith, adv s), ground (arith, adv s)),
        )
      ]

-- The state after a round that found nothing, at index `j`.
abbrev pub restart : Search → ℕ → Search
restart s j = record s { chunk = 0; index = j }

-- What a round of the outer loop from frame `i` has to give: success, or the invariant past the
-- frame that stopped the scan, or, past the end of memory, that no later round succeeds.
abbrev pub RoundResult :
    BitMap
    → (Search → Bool)
    → (ℕ → Search → Type 0)
    → (Bool → Search → Type 0)
    → ℕ
    → Option Search
    → Type 0
RoundResult frames done J R i out =
    (r : ℕ) × (s' : Search) × (out ≡ some s')
    × Stopped frames i r s'
    × ((done s' ≡ true) × R true s'
        ⊎ (done s' ≡ false)
          × (i + r < frames.num_bits → J (i + r + 1) (restart s' (i + r + 1)))
          × (i + r ≡ frames.num_bits
              → (j : ℕ) → (done (restart s' j) ≡ false) × R false (restart s' j)))

module _ (frames : BitMap) (step : Search → Search) (done : Search → Bool) (fuel : ℕ)
    (s s' : Search) (inside : s.index < frames.num_bits)
    (run : scan step (frames.num_bits + 1) frames s ≡ some s') where
  search-found :
      done s' ≡ true → search step done frames.num_bits (suc fuel) frames s ≡ some (true, s')
  unfolding search
  search-found d = ground (arith, run)

  search-more :
      done s' ≡ false
      → search step done frames.num_bits (suc fuel) frames s
        ≡ search step done frames.num_bits fuel frames (restart s' (s'.index + 1))
  unfolding search
  search-more d = ground (arith, run)

search-past :
    (frames : BitMap) (step : Search → Search) (done : Search → Bool) (fuel : ℕ) (s : Search)
    → frames.num_bits ≤ s.index
    → search step done frames.num_bits (suc fuel) frames s ≡ some (false, s)
unfolding search
search-past frames step done fuel s h = ground arith

module _ (frames : BitMap) (step : Search → Search) (done : Search → Bool) (J : ℕ → Search → Type 0)
    (R : Bool → Search → Type 0) (exit : (s : Search) → J frames.num_bits s → R false s)
    (round : (i : ℕ) (s : Search)
      → i < frames.num_bits
      → s.index ≡ i
      → s.end_of_mem ≡ false
      → s.chunk ≡ 0
      → J i s
      → RoundResult frames done J R i (scan step (frames.num_bits + 1) frames s)) where
  abbrev Searched : Option (Bool × Search) → Type 0
  Searched out = (found : Bool) × (s' : Search) × (out ≡ some (found, s')) × R found s'

  search-at_end :
      (fuel : ℕ) (s : Search) (j : ℕ)
      → s.end_of_mem ≡ true
      → ((j : ℕ) → (done (restart s j) ≡ false) × R false (restart s j))
      → j ≤ frames.num_bits
      → frames.num_bits < fuel + j
      → Searched (search step done frames.num_bits fuel frames (restart s j))
  search-at_end zero s j e quiet h enough = absurd (omega arith)
  search-at_end (suc fuel) s j e quiet h enough = elim (dec_lt j frames.num_bits) [
    | no ge ↦ (
      false,
      restart s j,
      search-past frames step done fuel (restart s j) (omega arith),
      (quiet j).1,
    )
    | yes lt ↦
        rw
          (search-more frames step done fuel (restart s j) (restart s j) lt
            (scan-at_end frames step (frames.num_bits + 1) (restart s j) lt e (omega arith))
            ((quiet j).0))
          (search-at_end fuel s (j + 1) e quiet (omega arith) (omega arith))
  ]

  pub search_lem :
      (fuel i : ℕ) (s : Search)
      → i ≤ frames.num_bits
      → s.index ≡ i
      → s.end_of_mem ≡ false
      → s.chunk ≡ 0
      → J i s
      → frames.num_bits + frames.num_bits + 1 < fuel + i
      → Searched (search step done frames.num_bits fuel frames s)
  search_lem zero i s h ix e c inv enough = absurd (omega arith)
  search_lem (suc fuel) i s h ix e c inv enough = elim (dec_lt i frames.num_bits) [
    | no ge ↦ (
      false,
      s,
      search-past frames step done fuel s (omega arith),
      exit s (subst (λ k. J k s) (omega arith) inv),
    )
    | yes lt ↦ go lt (round i s lt ix e c inv) (search_lem fuel)
  ]
    where
      go :
          i < frames.num_bits
          → RoundResult frames done J R i (scan step (frames.num_bits + 1) frames s)
          → ((k : ℕ) (t : Search)
              → k ≤ frames.num_bits
              → t.index ≡ k
              → t.end_of_mem ≡ false
              → t.chunk ≡ 0
              → J k t
              → frames.num_bits + frames.num_bits + 1 < fuel + k
              → Searched (search step done frames.num_bits fuel frames t))
          → Searched (search step done frames.num_bits (suc fuel) frames s)
      go at (r, s', run, stop, inl (d, p)) later =
          (true, s', search-found frames step done fuel s s' (omega arith) run d, p)
      go at (r, s', run, inl (lt, used, ix', e'), inr (d, middle, last)) later =
          rw (search-more frames step done fuel s s' (omega arith) run d, ix')
            (later (i + r + 1) (restart s' (i + r + 1)) (omega arith) refl e' refl (middle lt)
              (omega arith))
      go at (r, s', run, inr (same, ix', e'), inr (d, middle, last)) later =
          rw (search-more frames step done fuel s s' (omega arith) run d, ix')
            (search-at_end fuel s' 1 e' (last same) (omega arith) (omega arith))

-- No block of `k` frames starts below `i`.
abbrev pub NoneBelow : BitMap → ℕ → ℕ → Type 0
NoneBelow frames k i = (j : ℕ) → j < i → ¬ Fits frames k j

abbrev pub NoneAtAll : BitMap → ℕ → Type 0
NoneAtAll frames k = (j : ℕ) → ¬ Fits frames k j

module _ (frames : BitMap) (k i r : ℕ) (before : NoneBelow frames k i) (short : r < k) where
  -- A chunk that is too short, with the used frame that ends it, holds no start of a block.
  pub none_past_chunk : is_set frames (i + r) ≡ true → NoneBelow frames k (i + r + 1)
  none_past_chunk used j lt fits = elim (dec_lt j i) [
    | yes early ↦ before j early fits
    | no late ↦ let open_frame = fits.free (i + r) (omega arith) (omega arith) in cc
  ]

  pub none_at_end : i + r ≡ frames.num_bits → NoneAtAll frames k
  none_at_end last j fits = elim (dec_lt j i) [
    | yes early ↦ before j early fits
    | no late ↦ absurd (omega (arith, fits.inside))
  ]

module _ (frames : BitMap) (i r : ℕ) (s : Search) where
  pub used_of_Stopped :
      Stopped frames i r s → i + r < frames.num_bits → is_set frames (i + r) ≡ true
  used_of_Stopped (inl (lt, used, ix, e)) h = used
  used_of_Stopped (inr (same, ix, e)) h = absurd (omega arith)

  pub le_of_Stopped : Stopped frames i r s → i + r ≤ frames.num_bits
  le_of_Stopped (inl (lt, used, ix, e)) = omega arith
  le_of_Stopped (inr (same, ix, e)) = omega arith

  -- A chunk that is long enough holds a block at its start.
  pub Fits-chunk :
      (k : ℕ) → k ≤ r → AllFree frames i (i + r) → Stopped frames i r s → Fits frames k i
  Fits-chunk k h free stop = record {
    inside = omega (arith, le_of_Stopped stop);
    free = λ j lo hi. free j lo (omega arith);
  }
