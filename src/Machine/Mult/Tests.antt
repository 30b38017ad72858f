-- ===== src/Machine/Mult/Tests.antt =====
-- Runs of Mult of machine/mipssim.cc, and the theorem about it at two ints.
use cmps.Prelude.{ℕ, ◌≡◌, ◌-◌, ◌^◌, refl, true, arith}
use cmps.Machine.Mult.{mult, rounds, accumulate, shift, negate_pair}
use cmps.Machine.Mult.Value.{value, product, mult_lem}

abbrev minus_three : ℕ
minus_three = 2 ^ 32 - 3

mult_runs : mult minus_three 5 true ≡ (2 ^ 32 - 1, 2 ^ 32 - 15)
unfolding mult rounds accumulate shift negate_pair
mult_runs = refl

mult_lem_example :
    value (mult minus_three 5 true).0 (mult minus_three 5 true).1 ≡ product minus_three 5 true
mult_lem_example = mult_lem minus_three 5 true (omega arith) (omega arith)
