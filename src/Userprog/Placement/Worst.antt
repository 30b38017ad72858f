-- ===== src/Userprog/Placement/Worst.antt =====
-- AddrSpace::WorstFit of userprog/addrspace.cc.
use cmps.Prelude.{
  ℕ, suc, ◌+◌, ◌-◌, ◌≤◌, ◌<◌, ◌≡◌, ◌⊎◌, inl, inr, refl, ◌∙◌, subst, Bool, true, false, Option, some,
  arith,
}
use native.Mathlib.Decide.{dec_lt}
use cmps.Userprog.BitMap.{BitMap, is_set}
use cmps.Userprog.Space.{AddrSpace, num_phys_pages}
use cmps.Userprog.Placement.{
  Search, scan, search, advance, choose_worst, best_done, start, rounds, worst_fit,
}
use cmps.Userprog.Placement.Scan.{
  Fits, AllFree, Stopped, Advances, RoundResult, restart, NoneBelow, NoneAtAll, scan_lem,
  search_lem, none_past_chunk, none_at_end, Fits-chunk,
}

-- The lowest of the longest runs of free frames, where that has room for `k`.
pub record LongestPlace (frames : BitMap) (k s : ℕ) : Type 0 where
  pub size : ℕ
  pub enough : k ≤ size
  pub fits : Fits frames size s
  pub lowest : NoneBelow frames size s
  pub longest : NoneAtAll frames (size + 1)

abbrev worst_step : ℕ → ℕ → Search → Search
worst_step k n s = choose_worst k (advance n s)

worst_step-Advances : (k n : ℕ) → Advances n (worst_step k n)
unfolding advance choose_worst
worst_step-Advances k n s = ground arith

module _ (frames : BitMap) (k : ℕ) (pos : 0 < k) where
  -- After `m` steps from frame `i`, where the scan began with `s₀`.
  record Grown (s₀ : Search) (i m : ℕ) (s : Search) : Type 0 where
    count : s.chunk ≡ m
    begin : 0 < m → s.starting_address ≡ i
    longer : k ≤ m → s₀.best_chunk < m → (s.best_chunk ≡ m) × (s.start_here ≡ i)
    short : m < k → (s.best_chunk ≡ s₀.best_chunk) × (s.start_here ≡ s₀.start_here)
    kept : m ≤ s₀.best_chunk → (s.best_chunk ≡ s₀.best_chunk) × (s.start_here ≡ s₀.start_here)

  worst_step-Grown :
      (s₀ : Search) (i m : ℕ) (s : Search)
      → s.index ≡ i + m
      → Grown s₀ i m s
      → Grown s₀ i (suc m) (worst_step k frames.num_bits s)
  unfolding advance choose_worst
  worst_step-Grown s₀ i m s ix g = record {
    count = ground (arith, g.count);
    begin = λ p. ground (arith, g.count, g.begin);
    longer = λ z p. ground (arith, g.count, g.begin, g.longer, g.short, g.kept);
    short = λ z. ground (arith, g.count, g.short);
    kept = λ z. ground (arith, g.count, g.kept);
  }

  -- `b` frames at `s` are free, and nothing below `i` starts a longer run.
  record LongestBelow (i b s : ℕ) : Type 0 where
    enough : k ≤ b
    fits : Fits frames b s
    lowest : NoneBelow frames b s
    longest : NoneBelow frames (b + 1) i

  -- The last frame before `i` is used, and the search remembers the longest run found, if any.
  abbrev Known : ℕ → Search → Type 0
  Known i s =
      (0 < i → is_set frames (i - 1) ≡ true)
      × ((s.best_chunk ≡ 0) × NoneBelow frames k i ⊎ LongestBelow i s.best_chunk s.start_here)

  abbrev Outcome : Bool → Search → Type 0
  Outcome found s =
      ((found ≡ true)
        × LongestPlace frames k s.start_here
        × (is_set frames (frames.num_bits - 1) ≡ false))
      ⊎ ((found ≡ false) × (NoneAtAll frames k ⊎ (is_set frames (frames.num_bits - 1) ≡ true)))

  NoneBelow-mono : (b c i : ℕ) → b ≤ c → NoneBelow frames b i → NoneBelow frames c i
  NoneBelow-mono b c i h none_b j lt fits = none_b j lt (record {
    inside = omega (arith, fits.inside);
    free = λ m lo hi. fits.free m lo (omega arith);
  })

  -- What the scan of one chunk of `r` frames leaves in memory of the search: of the runs that start
  -- below `i`, or at `i`, it has the longest.
  abbrev AfterChunk : ℕ → ℕ → Search → Type 0
  AfterChunk i r s =
      ((s.best_chunk ≡ 0) × (r < k) × NoneBelow frames k i)
      ⊎ (LongestBelow i s.best_chunk s.start_here × (r < s.best_chunk + 1))

  after_chunk :
      (s₀ : Search) (i r : ℕ) (s : Search)
      → Grown s₀ i r s
      → AllFree frames i (i + r)
      → Stopped frames i r s
      → Known i s₀
      → AfterChunk i r s
  after_chunk s₀ i r s g free stop (_, inl (b, before)) = elim (dec_lt r k) [
    | yes short ↦ inl ((g.short short).0 ∙ b, short, before)
    | no long ↦
        let now = g.longer (omega arith) (omega arith) in
        inr (
          rw (now.0, now.1)
              (record {
                enough = omega arith;
                fits = Fits-chunk frames i r s r (omega arith) free stop;
                lowest = NoneBelow-mono k r i (omega arith) before;
                longest = NoneBelow-mono k (r + 1) i (omega arith) before;
              }),
          omega arith,
        )
  ]
  after_chunk s₀ i r s g free stop (_, inr known) = elim (dec_lt s₀.best_chunk r) [
    | no shorter ↦ let same = g.kept (omega arith) in inr (rw (same.0, same.1) known, omega arith)
    | yes longer ↦
        let now = g.longer (omega (arith, known.enough)) longer in
        inr (
          rw (now.0, now.1)
              (record {
                enough = omega (arith, known.enough);
                fits = Fits-chunk frames i r s r (omega arith) free stop;
                lowest = NoneBelow-mono (s₀.best_chunk + 1) r i (omega arith) known.longest;
                longest = NoneBelow-mono (s₀.best_chunk + 1) (r + 1) i (omega arith) known.longest;
              }),
          omega arith,
        )
  ]

  used_before : (i r : ℕ) → is_set frames (i + r) ≡ true → is_set frames (i + r + 1 - 1) ≡ true
  used_before i r used = subst (λ j. is_set frames j ≡ true) (omega arith) used

  worst_round :
      (i : ℕ) (s : Search)
      → i < frames.num_bits
      → s.index ≡ i
      → s.end_of_mem ≡ false
      → s.chunk ≡ 0
      → Known i s
      → RoundResult frames
          (best_done k)
          Known
          Outcome
          i
          (scan (worst_step k frames.num_bits) (frames.num_bits + 1) frames s)
  unfolding best_done
  worst_round i s lt ix e c known =
      let (r, s', run, grown, free, stop) =
        scan_lem frames (worst_step k frames.num_bits) (worst_step-Advances k frames.num_bits) i
          (Grown s i) (worst_step-Grown s i) (frames.num_bits + 1) 0 s (omega arith) (omega arith) e
          (record {
            count = c;
            begin = λ p. absurd (omega arith);
            longer = λ z p. absurd (omega arith);
            short = λ z. (refl, refl);
            kept = λ z. (refl, refl);
          })
          (λ j lo hi. absurd (omega arith)) (omega arith) in
      (r, s', run, stop, decide r s' free stop stop (after_chunk s i r s' grown free stop known))
    where
      decide :
          (r : ℕ) (s' : Search)
          → AllFree frames i (i + r)
          → Stopped frames i r s'
          → Stopped frames i r s'
          → AfterChunk i r s'
          → (best_done k s' ≡ true) × Outcome true s'
            ⊎ (best_done k s' ≡ false)
              × (i + r < frames.num_bits → Known (i + r + 1) (restart s' (i + r + 1)))
              × (i + r ≡ frames.num_bits
                  → (j : ℕ) → (best_done k (restart s' j) ≡ false) × Outcome false (restart s' j))
      decide r s' free stop (inl (lt', used, ix', e')) (inl (b, short, before)) = inr (
        ground arith,
        (λ _.
            ((λ _. used_before i r used), inl (b, none_past_chunk frames k i r before short used))),
        λ last j. absurd (omega arith),
      )
      decide r s' free stop (inl (lt', used, ix', e')) (inr (found, short)) = inr (
        ground arith,
        (λ _. (
          (λ _. used_before i r used),
          inr (record {
            enough = found.enough;
            fits = found.fits;
            lowest = found.lowest;
            longest = none_past_chunk frames (s'.best_chunk + 1) i r found.longest short used;
          }),
        )),
        λ last j. absurd (omega arith),
      )
      decide r s' free stop (inr (last, ix', e')) (inl (b, short, before)) = inr (
        ground arith,
        (λ lt'. absurd (omega arith)),
        λ _ j. (ground arith, inr (refl, inl (none_at_end frames k i r before short last))),
      )
      decide r s' free stop (inr (last, ix', e')) (inr (found, short)) = inl (
        ground (arith, found.enough),
        inl (
          refl,
          record {
            size = s'.best_chunk;
            enough = found.enough;
            fits = found.fits;
            lowest = found.lowest;
            longest = none_at_end frames (s'.best_chunk + 1) i r found.longest short last;
          },
          free (frames.num_bits - 1) (omega arith) (omega arith),
        ),
      )

-- What WorstFit gives: the place, or the reason why there is none.
abbrev pub WorstFitResult : BitMap → AddrSpace → Option AddrSpace → Type 0
WorstFitResult frames a out =
    ((s : ℕ) × (out ≡ some (record a { space_found = true; start_here = s }))
      × LongestPlace frames a.num_pages s
      × (is_set frames (num_phys_pages - 1) ≡ false))
    ⊎ ((s : ℕ) × (out ≡ some (record a { space_found = false; start_here = s }))
        × (NoneAtAll frames a.num_pages ⊎ (is_set frames (num_phys_pages - 1) ≡ true)))

module _ (frames : BitMap) (a : AddrSpace) (pos : 0 < a.num_pages)
    (full : 0 < frames.num_bits) where
  abbrev Runs : ℕ → Type 0
  Runs n =
      (found : Bool) × (s : Search) × (search (worst_step a.num_pages n) (best_done a.num_pages) n
          (rounds n) frames (start a)
        ≡ some (found, s))
      × Outcome frames a.num_pages pos found s

  worst_search : Runs frames.num_bits
  worst_search =
      search_lem frames (worst_step a.num_pages frames.num_bits) (best_done a.num_pages)
        (Known frames a.num_pages pos) (Outcome frames a.num_pages pos)
        (λ s known. inr (refl, inr (known.0 full))) (worst_round frames a.num_pages pos)
        (rounds frames.num_bits) 0 (start a) (omega arith) refl refl refl
        ((λ h. absurd (omega arith)), inl (refl, λ j h. absurd (omega arith))) (omega arith)

-- In a memory of NumPhysPages frames WorstFit returns, for an address space of at least one page. It
-- succeeds exactly when a run of that many free frames exists and the last frame of memory is free,
-- and then StartHere is the lowest start of the longest runs of free frames.
pub worst_fit_lem :
    (frames : BitMap) (a : AddrSpace)
    → frames.num_bits ≡ num_phys_pages
    → 0 < a.num_pages
    → WorstFitResult frames a (worst_fit frames a)
unfolding worst_fit
worst_fit_lem frames a size pos =
    conclude
      (subst (Runs frames a pos (omega arith)) size (worst_search frames a pos (omega arith)))
  where
    conclude :
        Runs frames a pos (omega arith) num_phys_pages
        → WorstFitResult frames a (worst_fit frames a)
    conclude (found, s, run, inl (yes_found, place, free)) = inl (
      s.start_here,
      ground (arith, run),
      place,
      subst (λ n. is_set frames (n - 1) ≡ false) size free,
    )
    conclude (found, s, run, inr (not_found, inl nowhere)) =
        inr (s.start_here, ground (arith, run), inl nowhere)
    conclude (found, s, run, inr (not_found, inr used)) = inr (
      s.start_here,
      ground (arith, run),
      inr (subst (λ n. is_set frames (n - 1) ≡ true) size used),
    )
