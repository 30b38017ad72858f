-- ===== src/Filesys/Directory/Names.antt =====
-- The comparison of file names in filesys/directory.cc.
use cmps.Prelude.{ℕ, zero, suc, ◌≡◌, refl, ap, true, ◌&&◌, List, [], ◌∷◌, ◌==◌, arith}
use cmps.Filesys.Directory.{prefix, same_name}

-- A copy is the same name as its original.
pub same_name-prefix : (n : ℕ) (cs ds : List ℕ) → same_name n (prefix n cs) ds ≡ same_name n cs ds
same_name-prefix zero cs ds = refl
same_name-prefix (suc n) [] [] = refl
same_name-prefix (suc n) [] (d ∷ ds) = refl
same_name-prefix (suc n) (c ∷ cs) [] = refl
same_name-prefix (suc n) (c ∷ cs) (d ∷ ds) = ap (λ z. (c == d) && z) (same_name-prefix n cs ds)

-- Names that are the same are the same as the same names.
pub same_name-same :
    (n : ℕ) (cs ds es : List ℕ) → same_name n cs ds ≡ true → same_name n es ds ≡ same_name n es cs
same_name-same zero cs ds es same = refl
same_name-same (suc n) [] [] es same = refl
same_name-same (suc n) [] (d ∷ ds) es same = absurd (ground (arith, same))
same_name-same (suc n) (c ∷ cs) [] es same = absurd (ground (arith, same))
same_name-same (suc n) (c ∷ cs) (d ∷ ds) [] same = refl
same_name-same (suc n) (c ∷ cs) (d ∷ ds) (e ∷ es) same =
    ground (arith, same, same_name-same n cs ds es (ground (arith, same)))

pub same_name_self : (n : ℕ) (cs : List ℕ) → same_name n cs cs ≡ true
same_name_self zero cs = refl
same_name_self (suc n) [] = refl
same_name_self (suc n) (c ∷ cs) = ground (arith, same_name_self n cs)
