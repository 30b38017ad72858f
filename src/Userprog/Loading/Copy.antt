-- ===== src/Userprog/Loading/Copy.antt =====
-- The bytes that OpenFile::ReadAt puts into main memory in AddrSpace::LoadSegment of
-- userprog/addrspace.cc.
use cmps.Prelude.{
  ℕ, zero, suc, ◌+◌, ◌-◌, ◌≤◌, ◌<◌, ◌≡◌, ◌⊎◌, inl, refl, ap, subst, ◌∙◌, List, [], ◌∷◌, arith,
}
use native.Mathlib.Decide.{dec_lt}
use cmps.Machine.Memory.{put}
use cmps.Userprog.Loading.{File, Bytes, blit}

-- `n` bytes of the content of a file, from `pos` on.
abbrev pub bytes : Bytes → ℕ → ℕ → List ℕ
bytes content zero pos = []
bytes content (suc n) pos = content pos ∷ bytes content n (pos + 1)

-- ReadAt gives the bytes of the file that are asked for, where the file has them.
abbrev pub Delivers : File → Bytes → ℕ → Type 0
Delivers file content file_length =
    (n pos : ℕ) → pos + n ≤ file_length → file n pos ≡ bytes content n pos

-- The `n` bytes of the content from `pos` on are at `p`, and the rest of memory is the same.
pub record Copied (content : Bytes) (n pos p : ℕ) (memory memory' : Bytes) : Type 0 where
  pub inside : (k : ℕ) → k < n → memory' (p + k) ≡ content (pos + k)
  pub outside : (q : ℕ) → (q < p) ⊎ (p + n ≤ q) → memory' q ≡ memory q

pub none-Copied :
    (content : Bytes) (pos p : ℕ) (memory : Bytes) → Copied content 0 pos p memory memory
none-Copied content pos p memory = record {
  inside = λ k h. absurd (omega arith);
  outside = λ q away. refl;
}

pub join-Copied :
    (content : Bytes) (n n' pos p : ℕ) (m m' m'' : Bytes)
    → Copied content n pos p m m'
    → Copied content n' (pos + n) (p + n) m' m''
    → Copied content (n + n') pos p m m''
join-Copied content n n' pos p m m' m'' first second = record {
  inside = λ k h. elim (dec_lt k n) [
    | yes early ↦ second.outside (p + k) (inl (omega arith)) ∙ first.inside k early
    | no late ↦
        ap m'' (shifted k (omega arith))
        ∙ second.inside (k - n) (omega arith)
        ∙ ap content (back k (omega arith))
  ];
  outside = λ q away. second.outside q (ground arith) ∙ first.outside q (ground arith);
}
  where
    shifted : (k : ℕ) → n ≤ k → p + k ≡ p + n + (k - n)
    shifted k late = omega (arith, late)

    back : (k : ℕ) → n ≤ k → pos + n + (k - n) ≡ pos + k
    back k late = omega (arith, late)

-- What is written twice holds what was written last, which is the same.
pub overlay-Copied :
    (content : Bytes) (n n' pos p : ℕ) (m m' m'' : Bytes)
    → n ≤ n'
    → Copied content n pos p m m'
    → Copied content n' pos p m' m''
    → Copied content n' pos p m m''
overlay-Copied content n n' pos p m m' m'' shorter first second = record {
  inside = second.inside;
  outside = λ q away. second.outside q away ∙ first.outside q (ground arith);
}

one-Copied :
    (content : Bytes) (pos p : ℕ) (memory : Bytes)
    → Copied content 1 pos p memory (put p (content pos) memory)
one-Copied content pos p memory = record {
  inside = λ k h. ground (arith, at k h);
  outside = λ q away. ground arith;
}
  where
    at : (k : ℕ) → k < 1 → content (pos + k) ≡ content pos
    at k h = ap content (omega arith)

pub blit-Copied :
    (content : Bytes) (n pos p : ℕ) (memory : Bytes)
    → Copied content n pos p memory (blit p (bytes content n pos) memory)
unfolding blit
blit-Copied content zero pos p memory = none-Copied content pos p memory
blit-Copied content (suc n) pos p memory =
    subst
      (λ z.
        Copied content z pos p memory
          (blit (p + 1) (bytes content n (pos + 1)) (put p (content pos) memory)))
      (omega arith)
      (join-Copied content 1 n pos p memory (put p (content pos) memory) _
        (one-Copied content pos p memory)
        (blit-Copied content n (pos + 1) (p + 1) (put p (content pos) memory)))
