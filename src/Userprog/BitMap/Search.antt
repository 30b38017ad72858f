-- ===== src/Userprog/BitMap/Search.antt =====
-- What Find and NumClear of userprog/bitmap.cc find.
use cmps.Prelude.{
  ℕ, zero, suc, ◌+◌, ◌≤◌, ◌<◌, ◌≡◌, ◌⊎◌, inl, inr, refl, ap, ◌∙◌, Bool, true, false, Option, none,
  some, arith, if◌then◌else◌, ◌==◌, Bool-cases,
}
use native.Mathlib.Decide.{ℕ_discrete}
use cmps.Userprog.BitMap.{BitMap, set_bit, is_set, find_from, find, num_clear_from, num_clear}
use cmps.Userprog.BitMap.Bits.{test_lem, mark_lem}

-- Find returned bit `k`, the first clear bit from `i` on.
pub record Found (i : ℕ) (b : BitMap) (k : ℕ) : Type 0 where
  pub from : i ≤ k
  pub below : k < b.num_bits
  pub free : is_set b k ≡ false
  pub first : (j : ℕ) → i ≤ j → j < k → is_set b j ≡ true

abbrev pub FindResult : ℕ → BitMap → Option (Option ℕ × BitMap) → Type 0
FindResult i b r =
    ((k : ℕ) × (r ≡ some (some k, set_bit k b)) × Found i b k)
    ⊎ ((r ≡ some (none, b)) × ((j : ℕ) → i ≤ j → j < b.num_bits → is_set b j ≡ true))

find_from_lem : (n i : ℕ) (b : BitMap) → i + n ≡ b.num_bits → FindResult i b (find_from n i b)
unfolding find_from
find_from_lem zero i b e = inr (refl, λ j p q. absurd (omega arith))
find_from_lem (suc n) i b e = elim (Bool-cases (is_set b i)) [
  | inr free ↦ inl (
    i,
    rw (test_lem b i (omega arith), free, mark_lem b i (omega arith)),
    record {
      from = omega arith;
      below = omega arith;
      free = free;
      first = λ j p q. absurd (omega arith);
    },
  )
  | inl used ↦
      rw (test_lem b i (omega arith), used) (skip used (find_from_lem n (i + 1) b (omega arith)))
]
  where
    step : is_set b i ≡ true → (j : ℕ) → i ≤ j → (i + 1 ≤ j → is_set b j ≡ true) → is_set b j ≡ true
    step used j p later = elim (ℕ_discrete i j) [
      | yes same ↦ rw (← same) used
      | no ne ↦ later (omega arith)
    ]

    skip :
        is_set b i ≡ true
        → FindResult (i + 1) b (find_from n (i + 1) b)
        → FindResult i b (find_from n (i + 1) b)
    skip used (inl (k, run, f)) = inl (
      k,
      run,
      record {
        from = omega (arith, f.from);
        below = f.below;
        free = f.free;
        first = λ j p q. step used j p (λ p'. f.first j p' q);
      },
    )
    skip used (inr (run, all)) = inr (run, λ j p q. step used j p (λ p'. all j p' q))

-- Find never fails an assertion. It marks and returns the lowest clear bit, or, where no bit is
-- clear, returns -1 and leaves the bitmap as it is.
pub find-FindResult : (b : BitMap) → FindResult 0 b (find b)
unfolding find
find-FindResult b = find_from_lem b.num_bits 0 b (omega arith)

-- How many of the `n` bits from `i` on are clear.
unfoldable pub clear_count : (ℕ → Bool) → ℕ → ℕ → ℕ
clear_count used zero i = 0
clear_count used (suc n) i = (if used i then 0 else 1) + clear_count used n (i + 1)

num_clear_from_lem :
    (n i count : ℕ) (b : BitMap)
    → i + n ≡ b.num_bits
    → num_clear_from n i count b ≡ some (count + clear_count (is_set b) n i)
unfolding num_clear_from clear_count
num_clear_from_lem zero i count b e = ap some (omega arith)
num_clear_from_lem (suc n) i count b e = rw (test_lem b i (omega arith)) (
    num_clear_from_lem n (i + 1) (if is_set b i then count else count + 1) b (omega arith)
    ∙ ap some (ground arith))

-- NumClear never fails an assertion and returns the number of clear bits.
pub num_clear_lem : (b : BitMap) → num_clear b ≡ some (clear_count (is_set b) b.num_bits 0)
unfolding num_clear
num_clear_lem b = num_clear_from_lem b.num_bits 0 0 b (omega arith) ∙ ap some (omega arith)

pub clear_count_same :
    (used used' : ℕ → Bool) (n i : ℕ)
    → ((j : ℕ) → i ≤ j → used' j ≡ used j)
    → clear_count used' n i ≡ clear_count used n i
unfolding clear_count
clear_count_same used used' zero i same = refl
clear_count_same used used' (suc n) i same =
    rw (same i (omega arith), clear_count_same used used' n (i + 1) (λ j p. same j (omega arith)))

-- Setting one clear bit takes one from the count.
pub clear_count_set :
    (used used' : ℕ → Bool) (k n i : ℕ)
    → i ≤ k
    → k < i + n
    → used k ≡ false
    → ((j : ℕ) → used' j ≡ (if k == j then true else used j))
    → clear_count used n i ≡ suc (clear_count used' n i)
unfolding clear_count
clear_count_set used used' k zero i p q free upd = absurd (omega arith)
clear_count_set used used' k (suc n) i p q free upd = elim (ℕ_discrete k i) [
  | yes same ↦ ground (
    arith,
    upd i,
    ap used same,
    clear_count_same used used' n (i + 1) (λ j r. ground (arith, upd j)),
  )
  | no ne ↦
      ground
        (arith, upd i, clear_count_set used used' k n (i + 1) (omega arith) (omega arith) free upd)
]

pub clear_count_some :
    (used : ℕ → Bool) (n i : ℕ)
    → ((j : ℕ) → i ≤ j → j < i + n → used j ≡ true)
    → clear_count used n i ≡ 0
unfolding clear_count
clear_count_some used zero i all = refl
clear_count_some used (suc n) i all = rw (
  all i (omega arith) (omega arith),
  clear_count_some used n (i + 1) (λ j p q. all j (omega arith) (omega arith)),
)
