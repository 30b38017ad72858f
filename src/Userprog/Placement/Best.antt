-- ===== src/Userprog/Placement/Best.antt =====
-- AddrSpace::BestFit of userprog/addrspace.cc.
use cmps.Prelude.{
  ℕ, suc, ◌+◌, ◌-◌, ◌≤◌, ◌<◌, ◌≡◌, ◌⊎◌, inl, inr, refl, subst, Bool, true, false, Option, some,
  arith,
}
use native.Mathlib.Decide.{dec_lt}
use cmps.Userprog.BitMap.{BitMap, is_set}
use cmps.Userprog.Space.{AddrSpace, num_phys_pages}
use cmps.Userprog.Placement.{
  Search, scan, search, advance, choose_best, best_done, start, rounds, best_fit,
}
use cmps.Userprog.Placement.Scan.{
  AllFree, Stopped, Advances, RoundResult, restart, NoneBelow, NoneAtAll, scan_lem, search_lem,
  none_past_chunk, none_at_end, Fits-chunk,
}
use cmps.Userprog.Placement.First.{FirstPlace}

abbrev best_step : ℕ → ℕ → Search → Search
best_step k n s = choose_best k (advance n s)

best_step-Advances : (k n : ℕ) → Advances n (best_step k n)
unfolding advance choose_best
best_step-Advances k n s = ground arith

module _ (frames : BitMap) (k : ℕ) (pos : 0 < k) where
  -- After `m` steps from frame `i`, where the scan began with `s₀`.
  record Grown (s₀ : Search) (i m : ℕ) (s : Search) : Type 0 where
    count : s.chunk ≡ m
    begin : 0 < m → s.starting_address ≡ i
    still_none : s₀.best_chunk ≡ 0 → m < k → s.best_chunk ≡ 0
    now_some : s₀.best_chunk ≡ 0 → k ≤ m → (s.best_chunk ≡ k) × (s.start_here ≡ i)
    kept : s₀.best_chunk ≡ k → (s.best_chunk ≡ k) × (s.start_here ≡ s₀.start_here)

  best_step-Grown :
      (s₀ : Search) (i m : ℕ) (s : Search)
      → s.index ≡ i + m
      → Grown s₀ i m s
      → Grown s₀ i (suc m) (best_step k frames.num_bits s)
  unfolding advance choose_best
  best_step-Grown s₀ i m s ix g = record {
    count = ground (arith, g.count);
    begin = λ p. ground (arith, g.count, g.begin);
    still_none = λ z p. ground (arith, g.count, g.still_none z);
    now_some = λ z p. ground (arith, g.count, g.begin, g.still_none z, g.now_some z);
    kept = λ z. ground (arith, g.count, g.kept z);
  }

  -- The last frame before `i` is used, and the search remembers the lowest place found, if any.
  abbrev Known : ℕ → Search → Type 0
  Known i s =
      (0 < i → is_set frames (i - 1) ≡ true)
      × ((s.best_chunk ≡ 0) × NoneBelow frames k i
          ⊎ (s.best_chunk ≡ k) × FirstPlace frames k s.start_here)

  abbrev Outcome : Bool → Search → Type 0
  Outcome found s =
      ((found ≡ true)
        × FirstPlace frames k s.start_here
        × (is_set frames (frames.num_bits - 1) ≡ false))
      ⊎ ((found ≡ false) × (NoneAtAll frames k ⊎ (is_set frames (frames.num_bits - 1) ≡ true)))

  -- What the scan of one chunk of `r` frames leaves in memory of the search.
  after_chunk :
      (s₀ : Search) (i r : ℕ) (s : Search)
      → Grown s₀ i r s
      → AllFree frames i (i + r)
      → Stopped frames i r s
      → Known i s₀
      → ((s.best_chunk ≡ 0) × (r < k) × NoneBelow frames k i)
        ⊎ ((s.best_chunk ≡ k) × FirstPlace frames k s.start_here)
  after_chunk s₀ i r s g free stop (_, inr (b, place)) = inr ((g.kept b).0, rw ((g.kept b).1) place)
  after_chunk s₀ i r s g free stop (_, inl (b, before)) = elim (dec_lt r k) [
    | yes short ↦ inl (g.still_none b short, short, before)
    | no long ↦
        let now = g.now_some b (omega arith) in
        inr (
          now.0,
          rw (now.1) (record {
            fits = Fits-chunk frames i r s k (omega arith) free stop;
            lowest = before;
          }),
        )
  ]

  used_before : (i r : ℕ) → is_set frames (i + r) ≡ true → is_set frames (i + r + 1 - 1) ≡ true
  used_before i r used = subst (λ j. is_set frames j ≡ true) (omega arith) used

  best_round :
      (i : ℕ) (s : Search)
      → i < frames.num_bits
      → s.index ≡ i
      → s.end_of_mem ≡ false
      → s.chunk ≡ 0
      → Known i s
      → RoundResult frames
          (best_done k)
          Known
          Outcome
          i
          (scan (best_step k frames.num_bits) (frames.num_bits + 1) frames s)
  unfolding best_done
  best_round i s lt ix e c known =
      let (r, s', run, grown, free, stop) =
        scan_lem frames (best_step k frames.num_bits) (best_step-Advances k frames.num_bits) i
          (Grown s i) (best_step-Grown s i) (frames.num_bits + 1) 0 s (omega arith) (omega arith) e
          (record {
            count = c;
            begin = λ p. absurd (omega arith);
            still_none = λ z p. z;
            now_some = λ z p. absurd (omega arith);
            kept = λ z. (z, refl);
          })
          (λ j lo hi. absurd (omega arith)) (omega arith) in
      (r, s', run, stop, decide r s' free stop stop (after_chunk s i r s' grown free stop known))
    where
      decide :
          (r : ℕ) (s' : Search)
          → AllFree frames i (i + r)
          → Stopped frames i r s'
          → Stopped frames i r s'
          → ((s'.best_chunk ≡ 0) × (r < k) × NoneBelow frames k i)
            ⊎ ((s'.best_chunk ≡ k) × FirstPlace frames k s'.start_here)
          → (best_done k s' ≡ true) × Outcome true s'
            ⊎ (best_done k s' ≡ false)
              × (i + r < frames.num_bits → Known (i + r + 1) (restart s' (i + r + 1)))
              × (i + r ≡ frames.num_bits
                  → (j : ℕ) → (best_done k (restart s' j) ≡ false) × Outcome false (restart s' j))
      decide r s' free stop (inl (lt', used, ix', e')) (inl (b, short, before)) = inr (
        ground arith,
        (λ _.
            ((λ _. used_before i r used), inl (b, none_past_chunk frames k i r before short used))),
        λ last j. absurd (omega arith),
      )
      decide r s' free stop (inl (lt', used, ix', e')) (inr (b, place)) = inr (
        ground arith,
        (λ _. ((λ _. used_before i r used), inr (b, place))),
        λ last j. absurd (omega arith),
      )
      decide r s' free stop (inr (last, ix', e')) (inl (b, short, before)) = inr (
        ground arith,
        (λ lt'. absurd (omega arith)),
        λ _ j. (ground arith, inr (refl, inl (none_at_end frames k i r before short last))),
      )
      decide r s' free stop (inr (last, ix', e')) (inr (b, place)) =
          inl (
            ground arith,
            inl (refl, place, free (frames.num_bits - 1) (omega arith) (omega arith)),
          )

-- What BestFit gives: the place, or the reason why there is none.
abbrev pub BestFitResult : BitMap → AddrSpace → Option AddrSpace → Type 0
BestFitResult frames a out =
    ((s : ℕ) × (out ≡ some (record a { space_found = true; start_here = s }))
      × FirstPlace frames a.num_pages s
      × (is_set frames (num_phys_pages - 1) ≡ false))
    ⊎ ((s : ℕ) × (out ≡ some (record a { space_found = false; start_here = s }))
        × (NoneAtAll frames a.num_pages ⊎ (is_set frames (num_phys_pages - 1) ≡ true)))

module _ (frames : BitMap) (a : AddrSpace) (pos : 0 < a.num_pages)
    (full : 0 < frames.num_bits) where
  abbrev Runs : ℕ → Type 0
  Runs n =
      (found : Bool) × (s : Search) × (search (best_step a.num_pages n) (best_done a.num_pages) n
          (rounds n) frames (start a)
        ≡ some (found, s))
      × Outcome frames a.num_pages pos found s

  best_search : Runs frames.num_bits
  best_search =
      search_lem frames (best_step a.num_pages frames.num_bits) (best_done a.num_pages)
        (Known frames a.num_pages pos) (Outcome frames a.num_pages pos)
        (λ s known. inr (refl, inr (known.0 full))) (best_round frames a.num_pages pos)
        (rounds frames.num_bits) 0 (start a) (omega arith) refl refl refl
        ((λ h. absurd (omega arith)), inl (refl, λ j h. absurd (omega arith))) (omega arith)

-- In a memory of NumPhysPages frames BestFit returns, for an address space of at least one page. It
-- succeeds exactly when a run of that many free frames exists and the last frame of memory is free,
-- and then StartHere is the lowest start of such a run, as for FirstFit.
pub best_fit_lem :
    (frames : BitMap) (a : AddrSpace)
    → frames.num_bits ≡ num_phys_pages
    → 0 < a.num_pages
    → BestFitResult frames a (best_fit frames a)
unfolding best_fit
best_fit_lem frames a size pos =
    conclude (subst (Runs frames a pos (omega arith)) size (best_search frames a pos (omega arith)))
  where
    conclude :
        Runs frames a pos (omega arith) num_phys_pages → BestFitResult frames a (best_fit frames a)
    conclude (found, s, run, inl (yes_found, place, free)) = inl (
      s.start_here,
      ground (arith, run),
      place,
      subst (λ n. is_set frames (n - 1) ≡ false) size free,
    )
    conclude (found, s, run, inr (not_found, inl nowhere)) =
        inr (s.start_here, ground (arith, run), inl nowhere)
    conclude (found, s, run, inr (not_found, inr used)) = inr (
      s.start_here,
      ground (arith, run),
      inr (subst (λ n. is_set frames (n - 1) ≡ true) size used),
    )
