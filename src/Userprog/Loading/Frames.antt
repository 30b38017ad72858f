-- ===== src/Userprog/Loading/Frames.antt =====
-- The bits of physical memory in the constructor and the destructor of userprog/addrspace.cc.
use cmps.Prelude.{
  ℕ, zero, suc, ◌+◌, ◌≤◌, ◌<◌, ◌≡◌, ◌⊎◌, refl, subst, ◌∙◌, Bool, true, false, some, arith, ◌==◌,
  if◌then◌else◌,
}
use cmps.Userprog.BitMap.{BitMap, IsValid, is_set, set_bit, clear_bit}
use cmps.Userprog.BitMap.Bits.{
  mark_lem, clear_lem, is_set-set_bit, is_set-clear_bit, set_bit-IsValid, clear_bit-IsValid,
  num_bits-set_bit, num_bits-clear_bit,
}
use cmps.Userprog.Loading.{mark_frames, clear_frames}

-- From `lo` on, `n` bits are `used`; the others are as before.
pub record Filled (used : Bool) (lo n : ℕ) (b b' : BitMap) : Type 0 where
  pub valid : IsValid b'
  pub size : b'.num_bits ≡ b.num_bits
  pub inside : (j : ℕ) → lo ≤ j → j < lo + n → is_set b' j ≡ used
  pub outside : (j : ℕ) → j < b.num_bits → (j < lo) ⊎ (lo + n ≤ j) → is_set b' j ≡ is_set b j

none-Filled : (used : Bool) (lo : ℕ) (b : BitMap) → IsValid b → Filled used lo 0 b b
none-Filled used lo b v = record {
  valid = v;
  size = refl;
  inside = λ j p q. absurd (omega arith);
  outside = λ j p q. refl;
}

-- One bit at `lo`, and then the rest.
Filled-step :
    (used : Bool) (lo n : ℕ) (b b₁ b' : BitMap)
    → b₁.num_bits ≡ b.num_bits
    → lo + suc n ≤ b.num_bits
    → ((j : ℕ) → j < b.num_bits → is_set b₁ j ≡ (if lo == j then used else is_set b j))
    → Filled used (lo + 1) n b₁ b'
    → Filled used lo (suc n) b b'
Filled-step used lo n b b₁ b' size fits one f = record {
  valid = f.valid;
  size = f.size ∙ size;
  inside = λ j p q. ground (arith, f.inside j, f.outside j, one j);
  outside = λ j p q. ground (arith, f.outside j, one j);
}

pub mark_frames-Filled :
    (n i start : ℕ) (b : BitMap)
    → IsValid b
    → i + start + n ≤ b.num_bits
    → (b' : BitMap) × (mark_frames n i start b ≡ some b') × Filled true (i + start) n b b'
unfolding mark_frames
mark_frames-Filled zero i start b v fits = (b, refl, none-Filled true (i + start) b v)
mark_frames-Filled (suc n) i start b v fits =
    let (b', run, f) =
      mark_frames-Filled n (i + 1) start (set_bit (i + start) b) (set_bit-IsValid b (i + start) v)
        (omega (arith, num_bits-set_bit b (i + start))) in
    (
      b',
      rw (mark_lem b (i + start) (omega arith)) run,
      Filled-step true (i + start) n b (set_bit (i + start) b) b' (num_bits-set_bit b (i + start))
          fits (λ j h. is_set-set_bit b (i + start) j v (omega arith))
          (subst (λ z. Filled true z n (set_bit (i + start) b) b') (omega arith) f),
    )

pub clear_frames-Filled :
    (n i start : ℕ) (b : BitMap)
    → IsValid b
    → i + start + n ≤ b.num_bits
    → (b' : BitMap) × (clear_frames n i start b ≡ some b') × Filled false (i + start) n b b'
unfolding clear_frames
clear_frames-Filled zero i start b v fits = (b, refl, none-Filled false (i + start) b v)
clear_frames-Filled (suc n) i start b v fits =
    let (b', run, f) =
      clear_frames-Filled n (i + 1) start (clear_bit (i + start) b)
        (clear_bit-IsValid b (i + start) v) (omega (arith, num_bits-clear_bit b (i + start))) in
    (
      b',
      rw (clear_lem b (i + start) (omega arith)) run,
      Filled-step false (i + start) n b (clear_bit (i + start) b) b'
          (num_bits-clear_bit b (i + start)) fits
          (λ j h. is_set-clear_bit b (i + start) j v (omega arith))
          (subst (λ z. Filled false z n (clear_bit (i + start) b) b') (omega arith) f),
    )

-- Where `n` frames from `start` on exist and are free, the constructor's loop marks them and no
-- other, and the destructor's loop then makes every frame free that was free before, and no other.
-- Neither fails an assertion.
clear_frames-mark_frames :
    (n start : ℕ) (b : BitMap)
    → IsValid b
    → start + n ≤ b.num_bits
    → ((j : ℕ) → start ≤ j → j < start + n → is_set b j ≡ false)
    → (b₁ b₂ : BitMap) × (mark_frames n 0 start b ≡ some b₁)
      × Filled true start n b b₁
      × (clear_frames n 0 start b₁ ≡ some b₂)
      × ((j : ℕ) → j < b.num_bits → is_set b₂ j ≡ is_set b j)
clear_frames-mark_frames n start b v fits free =
    let (b₁, marked, f) = mark_frames-Filled n 0 start b v (omega (arith, fits)) in
    let (b₂, cleared, g) = clear_frames-Filled n 0 start b₁ f.valid (omega (arith, fits, f.size)) in
    (
      b₁,
      b₂,
      marked,
      subst (λ z. Filled true z n b b₁) (omega arith) f,
      cleared,
      λ j h. ground (arith, f.size, f.outside j, g.inside j, g.outside j, free j),
    )
