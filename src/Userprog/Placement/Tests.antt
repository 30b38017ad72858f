-- ===== src/Userprog/Placement/Tests.antt =====
-- Runs of the placement algorithms of userprog/addrspace.cc, and the theorems at such inputs.
use cmps.Prelude.{◌≡◌, refl, true, false, [], ◌∷◌, some, arith}
use cmps.Userprog.BitMap.{BitMap, test, is_set}
use cmps.Userprog.Space.{AddrSpace}
use cmps.Userprog.Placement.{
  first_fit, best_fit, worst_fit, scan, search, advance, choose_best, choose_worst, first_done,
  best_done,
}
use cmps.Userprog.Placement.First.{FirstFitResult, first_fit_lem}
use cmps.Userprog.Placement.Best.{BestFitResult, best_fit_lem}
use cmps.Userprog.Placement.Worst.{WorstFitResult, worst_fit_lem}

-- Used are the frames 0, 5, 8 and 20: free are 4 frames from 1, 2 from 6, 11 from 9 and 11 from 21.
abbrev holes : BitMap
holes = record { num_bits = 32; num_words = 1; words = 0x100121 ∷ [] }

-- As `holes`, with the last frame used too.
abbrev closed : BitMap
closed = record { num_bits = 32; num_words = 1; words = 0x80100121 ∷ [] }

abbrev wanted : AddrSpace
wanted = record { space_found = false; page_table = []; num_pages = 2; start_here = 0 }

first_fit_runs :
    first_fit holes wanted ≡ some (record wanted { space_found = true; start_here = 1 })
unfolding first_fit search scan test is_set advance first_done
first_fit_runs = refl

-- The run of exactly 2 frames, at 6, would be the best fit.
best_fit_runs : best_fit holes wanted ≡ some (record wanted { space_found = true; start_here = 1 })
unfolding best_fit search scan test is_set advance choose_best best_done
best_fit_runs = refl

best_fit_fails :
    best_fit closed wanted ≡ some (record wanted { space_found = false; start_here = 1 })
unfolding best_fit search scan test is_set advance choose_best best_done
best_fit_fails = refl

worst_fit_runs :
    worst_fit holes wanted ≡ some (record wanted { space_found = true; start_here = 9 })
unfolding worst_fit search scan test is_set advance choose_worst best_done
worst_fit_runs = refl

first_fit_lem_example : FirstFitResult holes wanted (first_fit holes wanted)
first_fit_lem_example = first_fit_lem holes wanted refl (omega arith)

best_fit_lem_example : BestFitResult closed wanted (best_fit closed wanted)
best_fit_lem_example = best_fit_lem closed wanted refl (omega arith)

worst_fit_lem_example : WorstFitResult holes wanted (worst_fit holes wanted)
worst_fit_lem_example = worst_fit_lem holes wanted refl (omega arith)
