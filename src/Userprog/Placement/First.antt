-- ===== src/Userprog/Placement/First.antt =====
-- AddrSpace::FirstFit of userprog/addrspace.cc.
use cmps.Prelude.{
  ℕ, suc, ◌+◌, ◌≤◌, ◌<◌, ◌≡◌, ◌⊎◌, inl, inr, refl, subst, Bool, true, false, Option, some, arith,
  leb,
}
use native.Mathlib.Decide.{dec_lt}
use cmps.Userprog.BitMap.{BitMap}
use cmps.Userprog.Space.{AddrSpace, num_phys_pages}
use cmps.Userprog.Placement.{Search, scan, search, advance, first_done, start, rounds, first_fit}
use cmps.Userprog.Placement.Scan.{
  Fits, AllFree, Stopped, Advances, RoundResult, restart, NoneBelow, NoneAtAll, scan_lem,
  search_lem, none_past_chunk, none_at_end, used_of_Stopped, Fits-chunk,
}

-- The lowest place for a block of `k` frames, or that there is none.
pub record FirstPlace (frames : BitMap) (k s : ℕ) : Type 0 where
  pub fits : Fits frames k s
  pub lowest : NoneBelow frames k s

advance-Advances : (n : ℕ) → Advances n (advance n)
unfolding advance
advance-Advances n s = (refl, refl)

module _ (frames : BitMap) (k : ℕ) (pos : 0 < k) where
  -- After `m` steps from frame `i` the chunk has `m` frames and starts at `i`.
  abbrev Counted : ℕ → ℕ → Search → Type 0
  Counted i m s = (s.chunk ≡ m) × (0 < m → s.starting_address ≡ i)

  Counted-step :
      (i m : ℕ) (s : Search)
      → s.index ≡ i + m
      → Counted i m s
      → Counted i (suc m) (advance frames.num_bits s)
  unfolding advance
  Counted-step i m s ix c = (omega (arith, c.0), λ p. ground (arith, c.0, c.1))

  abbrev Outcome : Bool → Search → Type 0
  Outcome found s =
      ((found ≡ true) × FirstPlace frames k s.starting_address)
      ⊎ ((found ≡ false) × (s.chunk ≡ 0) × NoneAtAll frames k)

  first_round :
      (i : ℕ) (s : Search)
      → i < frames.num_bits
      → s.index ≡ i
      → s.end_of_mem ≡ false
      → s.chunk ≡ 0
      → NoneBelow frames k i × (s.chunk ≡ 0)
      → RoundResult frames
          (first_done k)
          (λ j s. NoneBelow frames k j × (s.chunk ≡ 0))
          Outcome
          i
          (scan (advance frames.num_bits) (frames.num_bits + 1) frames s)
  unfolding first_done
  first_round i s lt ix e c (before, _) =
      let (r, s', run, counted, free, stop) =
        scan_lem frames (advance frames.num_bits) (advance-Advances frames.num_bits) i (Counted i)
          (Counted-step i) (frames.num_bits + 1) 0 s (omega arith) (omega arith) e
          (c, λ p. absurd (omega arith)) (λ j lo hi. absurd (omega arith)) (omega arith) in
      (r, s', run, stop, decide r s' counted free stop)
    where
      decide :
          (r : ℕ) (s' : Search)
          → Counted i r s'
          → AllFree frames i (i + r)
          → Stopped frames i r s'
          → (leb k s'.chunk ≡ true) × Outcome true s'
            ⊎ (leb k s'.chunk ≡ false)
              × (i + r < frames.num_bits → NoneBelow frames k (i + r + 1) × (◌≡◌ {A = ℕ} 0 0))
              × (i + r ≡ frames.num_bits
                  → (j : ℕ) → (leb k (restart s' j).chunk ≡ false) × Outcome false (restart s' j))
      decide r s' counted free stop = elim (dec_lt r k) [
        | no long ↦ inl (ground (arith, counted.0), inl (refl, place (omega arith)))
        | yes short ↦ inr (
          ground (arith, counted.0),
          (λ lt'. (
            none_past_chunk frames k i r before short (used_of_Stopped frames i r s' stop lt'),
            refl,
          )),
          λ last j. (ground arith, inr (refl, refl, none_at_end frames k i r before short last)),
        )
      ]
        where
          place : k ≤ r → FirstPlace frames k s'.starting_address
          place long =
              rw (counted.1 (omega arith))
                (record { fits = Fits-chunk frames i r s' k long free stop; lowest = before })

abbrev pub FirstFitResult : BitMap → AddrSpace → Option AddrSpace → Type 0
FirstFitResult frames a out =
    ((s : ℕ) × (out ≡ some (record a { space_found = true; start_here = s }))
      × FirstPlace frames a.num_pages s)
    ⊎ ((out ≡ some (record a { space_found = false })) × NoneAtAll frames a.num_pages)

module _ (frames : BitMap) (a : AddrSpace) (pos : 0 < a.num_pages) where
  abbrev Runs : ℕ → Type 0
  Runs n =
      (found : Bool) × (s : Search) × (search (advance n) (first_done a.num_pages) n (rounds n)
          frames (start a)
        ≡ some (found, s))
      × Outcome frames a.num_pages pos found s

  first_search : Runs frames.num_bits
  first_search =
      search_lem frames (advance frames.num_bits) (first_done a.num_pages)
        (λ j s. NoneBelow frames a.num_pages j × (s.chunk ≡ 0)) (Outcome frames a.num_pages pos)
        (λ s inv. inr (refl, inv.1, λ j fits. inv.0 j (omega (arith, fits.inside)) fits))
        (first_round frames a.num_pages pos) (rounds frames.num_bits) 0 (start a) (omega arith) refl
        refl refl ((λ j h. absurd (omega arith)), refl) (omega arith)

-- In a memory of NumPhysPages frames FirstFit returns, for an address space of at least one page.
-- If a run of that many free frames exists it sets SpaceFound, and StartHere to the lowest start of
-- one; if none exists it resets SpaceFound and leaves StartHere.
pub first_fit_lem :
    (frames : BitMap) (a : AddrSpace)
    → frames.num_bits ≡ num_phys_pages
    → 0 < a.num_pages
    → FirstFitResult frames a (first_fit frames a)
unfolding first_fit
first_fit_lem frames a size pos =
    conclude (subst (Runs frames a pos) size (first_search frames a pos))
  where
    conclude : Runs frames a pos num_phys_pages → FirstFitResult frames a (first_fit frames a)
    conclude (found, s, run, inl (yes_found, place)) =
        inl (s.starting_address, ground (arith, run), place)
    conclude (found, s, run, inr (not_found, c, nowhere)) = inr (ground (arith, run), nowhere)
