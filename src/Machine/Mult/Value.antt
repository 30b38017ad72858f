-- ===== src/Machine/Mult/Value.antt =====
-- Mult of machine/mipssim.cc: the words it stores are the product.
use cmps.Prelude.{
  ℕ, zero, suc, ◌+◌, ◌-◌, ◌*◌, ◌/◌, ◌%◌, ◌^◌, ◌≤◌, ◌<◌, ◌≡◌, ◌≢◌, ap, sym, subst, ◌∙◌, Bool, true,
  false, not, ◌&&◌, ◌||◌, arith, if◌then◌else◌,
}
use native.Mathlib.Nat.{
  pow-succ', mul_assoc, mul_comm, mul-add, add-mul, zero-mul, one-mul, suc-mul, pow-suc, add-zero,
  add-suc, mul-le-mul, mul-zero,
}
use native.Mathlib.Decide.{dec_le, ℕ_discrete}
use cmps.Machine.Word.{add, is_negative, magnitude, shift_right}
use cmps.Machine.Mult.{Product, accumulate, shift, rounds, negate_pair, mult}

abbrev pub value : ℕ → ℕ → ℕ
value hi lo = hi * 2 ^ 32 + lo

abbrev accumulated : Product → ℕ
accumulated s = value s.hi s.lo

abbrev addend : Product → ℕ
addend s = value s.b_hi s.b_lo

record Words (s : Product) : Type 0 where
  a_fits : s.a < 2 ^ 32
  b_hi_fits : s.b_hi < 2 ^ 32
  b_lo_fits : s.b_lo < 2 ^ 32
  hi_fits : s.hi < 2 ^ 32
  lo_fits : s.lo < 2 ^ 32

accumulate_lem :
    (s : Product)
    → Words s
    → accumulated s + addend s < 2 ^ 64
    → Words (accumulate s) × (accumulated (accumulate s) ≡ accumulated s + addend s)
unfolding accumulate add
accumulate_lem s w fits = ground (arith, w.a_fits, w.b_hi_fits, w.b_lo_fits, w.hi_fits, w.lo_fits)

shift-Words : (s : Product) → Words s → Words (shift s)
unfolding shift shift_right
shift-Words s w = ground (arith, w.a_fits, w.b_hi_fits, w.b_lo_fits, w.hi_fits, w.lo_fits)

addend-shift : (s : Product) → Words s → addend s * 2 < 2 ^ 64 → addend (shift s) ≡ addend s * 2
unfolding shift
addend-shift s w fits = ground (arith, w.b_hi_fits, w.b_lo_fits)

pow_sum : (m n : ℕ) → 2 ^ (m + n) ≡ 2 ^ m * 2 ^ n
pow_sum m zero = omega (arith, ap (λ z. 2 ^ z) (add-zero m))
pow_sum m (suc n) =
    ap (λ z. 2 ^ z) (add-suc m n)
    ∙ pow-suc 2 (m + n)
    ∙ ap (λ z. z * 2) (pow_sum m n)
    ∙ mul_assoc (2 ^ m) (2 ^ n) 2
    ∙ ap (λ z. 2 ^ m * z) (sym (pow-suc 2 n))

-- What is left of `a`, in its lower bits, is halved by a round; the sign that is copied stays above.
shift_right_half :
    (n a t k : ℕ)
    → n < 32
    → a ≡ t + 2 ^ suc n * k
    → (k' : ℕ) × (shift_right a 1 ≡ t / 2 + 2 ^ n * k')
unfolding shift_right
shift_right_half n a t k small e = elim (dec_le (2 ^ 31) a) [
  | no positive ↦ (k, ground (arith, half))
  | yes negative ↦ (k + 2 ^ (31 - n), ground (arith, half, mul-add (2 ^ n) k (2 ^ (31 - n)), top))
]
  where
    back : n + (31 - n) ≡ 31
    back = omega arith

    half : a / 2 ≡ t / 2 + 2 ^ n * k
    half = omega (
      arith,
      e,
      subst (λ z. z * k ≡ 2 * (2 ^ n * k)) (sym (pow-succ' 2 n)) (mul_assoc 2 (2 ^ n) k),
    )

    top : 2 ^ n * 2 ^ (31 - n) ≡ 2 ^ 31
    top = sym (pow_sum n (31 - n)) ∙ ap (λ z. 2 ^ z) back

halves : (t b : ℕ) → t * b ≡ t % 2 * b + t / 2 * (b * 2)
halves t b =
    ap (λ z. z * b) (omega arith)
    ∙ add-mul (t % 2) (t / 2 * 2) b
    ∙ ap (λ z. t % 2 * b + z) (mul_assoc (t / 2) 2 b ∙ ap (λ z. t / 2 * z) (mul_comm 2 b))

halves_even : (t b : ℕ) → t % 2 ≡ 0 → t * b ≡ t / 2 * (b * 2)
halves_even t b e = omega (arith, halves t b, subst (λ z. z * b ≡ 0) (sym e) (zero-mul b))

halves_odd : (t b : ℕ) → t % 2 ≡ 1 → t * b ≡ b + t / 2 * (b * 2)
halves_odd t b e = omega (arith, halves t b, subst (λ z. z * b ≡ b) (sym e) (one-mul b))

-- A round whose addend no longer fits has nothing left to add.
rest :
    (s : Product) (y : ℕ)
    → Words s
    → y * (addend s * 2) < 2 ^ 64
    → y * addend (shift s) ≡ y * (addend s * 2)
rest s zero w fits = zero-mul (addend (shift s)) ∙ sym (zero-mul (addend s * 2))
rest s (suc y) w fits =
    ap (λ z. suc y * z) (addend-shift s w (omega (arith, fits, suc-mul y (addend s * 2))))

record Finished (s s' : Product) (t : ℕ) : Type 0 where
  total : accumulated s' ≡ accumulated s + t * addend s
  words : Words s'

abbrev Adds : ℕ → Type 0
Adds n =
    (s : Product) (t k : ℕ)
    → Words s
    → t < 2 ^ n
    → s.a ≡ t + 2 ^ n * k
    → accumulated s + t * addend s < 2 ^ 64
    → Finished s (rounds n s) t

shift_then :
    (n : ℕ)
    → Adds n
    → (s : Product) (t k : ℕ) → n < 32
    → Words s
    → t < 2 ^ suc n
    → s.a ≡ t + 2 ^ suc n * k
    → accumulated s + t / 2 * (addend s * 2) < 2 ^ 64
    → (accumulated (rounds n (shift s)) ≡ accumulated s + t / 2 * (addend s * 2))
      × Words (rounds n (shift s))
unfolding shift
shift_then n ih s t k small w low e fits =
    let (k', a_half) = shift_right_half n s.a t k small e in
    let r = rest s (t / 2) w (omega (arith, fits)) in
    let f =
      ih (shift s) (t / 2) k' (shift-Words s w) (omega (arith, low, pow-succ' 2 n)) a_half
        (omega (arith, fits, r)) in
    (f.total ∙ ap (λ z. accumulated s + z) r, f.words)

odd_last : (n : ℕ) (s : Product) → s.a % 2 ≡ 1 → s.a / 2 ≡ 0 → rounds (suc n) s ≡ accumulate s
unfolding rounds
odd_last n s odd last = ground arith

odd_more :
    (n : ℕ) (s : Product)
    → s.a % 2 ≡ 1
    → s.a / 2 ≢ 0
    → rounds (suc n) s ≡ rounds n (shift (accumulate s))
unfolding rounds
odd_more n s odd more = ground arith

even_round : (n : ℕ) (s : Product) → s.a % 2 ≢ 1 → rounds (suc n) s ≡ rounds n (shift s)
unfolding rounds
even_round n s even = ground arith

module _ (n : ℕ) (small : n < 32) (ih : Adds n) (s : Product) (t k : ℕ) (w : Words s)
    (low : t < 2 ^ suc n) (e : s.a ≡ t + 2 ^ suc n * k)
    (fits : accumulated s + t * addend s < 2 ^ 64) where
  parity : s.a ≡ t + 2 * (2 ^ n * k)
  parity =
      e
      ∙ subst (λ z. t + z * k ≡ t + 2 * (2 ^ n * k)) (sym (pow-succ' 2 n))
          (ap (λ z. t + z) (mul_assoc 2 (2 ^ n) k))

  even_case : s.a % 2 ≢ 1 → Finished s (rounds (suc n) s) t
  even_case even =
      let split = halves_even t (addend s) (omega (arith, parity)) in
      let (total, words) = shift_then n ih s t k small w low e (omega (arith, fits, split)) in
      record {
        total =
            ap (λ (z : Product). accumulated z) (even_round n s even)
            ∙ total
            ∙ ap (λ z. accumulated s + z) (sym split);
        words = subst Words (sym (even_round n s even)) words;
      }

  odd_split : s.a % 2 ≡ 1 → t * addend s ≡ addend s + t / 2 * (addend s * 2)
  odd_split odd = halves_odd t (addend s) (omega (arith, parity))

  odd_case : s.a % 2 ≡ 1 → Finished s (rounds (suc n) s) t
  unfolding accumulate
  odd_case odd =
      let split = odd_split odd in
      let (words, total) = accumulate_lem s w (omega (arith, fits, split)) in
      elim (ℕ_discrete (s.a / 2) 0) [
        | yes last ↦ record {
          total =
              ap (λ (z : Product). accumulated z) (odd_last n s odd last)
              ∙ total
              ∙ ap (λ z. accumulated s + z)
                  (sym (one-mul (addend s)) ∙ ap (λ z. z * addend s) (omega (arith, parity)));
          words = subst Words (sym (odd_last n s odd last)) words;
        }
        | no more ↦
            let (total', words') =
              shift_then n ih (accumulate s) t k small words low e
                (omega (arith, fits, split, total)) in
            record {
              total =
                  ap (λ (z : Product). accumulated z) (odd_more n s odd more)
                  ∙ omega (arith, total', total, split);
              words = subst Words (sym (odd_more n s odd more)) words';
            }
      ]

rounds-value : (n : ℕ) → n ≤ 32 → Adds n
unfolding rounds
rounds-value zero small = λ s t k w low e fits. record {
  total = sym (
      ap (λ z. accumulated s + z)
        (ap (λ z. z * addend s) (omega (arith, low)) ∙ zero-mul (addend s))
      ∙ add-zero (accumulated s));
  words = w;
}
rounds-value (suc n) small = λ s t k w low e fits. elim (ℕ_discrete (s.a % 2) 1) [
  | yes odd ↦ odd_case n small (rounds-value n (omega arith)) s t k w low e fits odd
  | no even ↦ even_case n small (rounds-value n (omega arith)) s t k w low e fits even
]

-- The two's complement of a number of 64 bits.
abbrev pub negated : ℕ → ℕ
negated v = (2 ^ 64 - v) % 2 ^ 64

negate_pair_lem :
    (hi lo : ℕ)
    → hi < 2 ^ 32
    → lo < 2 ^ 32
    → value (negate_pair (hi, lo)).0 (negate_pair (hi, lo)).1 ≡ negated (value hi lo)
unfolding negate_pair add
negate_pair_lem hi lo h l = ground arith

-- The product that Mult is to give: the two's complement product of 64 bits for ints, and the product
-- for unsigned ints.
abbrev pub product : ℕ → ℕ → Bool → ℕ
product a b false = a * b
product a b true =
    if (is_negative a && not (is_negative b)) || (not (is_negative a) && is_negative b)
    then negated (magnitude a * magnitude b)
    else magnitude a * magnitude b

abbrev greatest : ℕ
greatest = 2 ^ 32 - 1

square : (x y : ℕ) → x < 2 ^ 32 → y < 2 ^ 32 → x * y < 2 ^ 64
square x y p q = below (mul-le-mul x_le y_le)
  where
    x_le : x ≤ greatest
    x_le = omega arith

    y_le : y ≤ greatest
    y_le = omega arith

    below : x * y ≤ greatest * greatest → x * y < 2 ^ 64
    below le = omega (arith, le)

abbrev start : ℕ → ℕ → Product
start x y = record { a = x; b_hi = 0; b_lo = y; hi = 0; lo = 0 }

start_low : (y : ℕ) → value 0 y ≡ y
start_low y = omega arith

start_lem :
    (x y : ℕ)
    → x < 2 ^ 32
    → y < 2 ^ 32
    → (value (rounds 32 (start x y)).hi (rounds 32 (start x y)).lo ≡ x * y)
      × ((rounds 32 (start x y)).hi < 2 ^ 32)
      × ((rounds 32 (start x y)).lo < 2 ^ 32)
start_lem x y p q =
    let f =
      rounds-value 32 (omega arith) (start x y) x 0
        (record {
          a_fits = p;
          b_hi_fits = omega arith;
          b_lo_fits = q;
          hi_fits = omega arith;
          lo_fits = omega arith;
        })
        p (omega arith) (omega (arith, square x y p q)) in
    (
      f.total ∙ omega (arith, square x y p q, ap (λ z. x * z) (start_low y)),
      f.words.hi_fits,
      f.words.lo_fits,
    )

magnitude_zero : (a : ℕ) → a ≡ 0 → magnitude a ≡ 0
magnitude_zero a e = ground arith

signed_case :
    (a b : ℕ)
    → a ≢ 0
    → b ≢ 0
    → a < 2 ^ 32
    → b < 2 ^ 32
    → value (mult a b true).0 (mult a b true).1 ≡ product a b true
unfolding mult
signed_case a b a_set b_set p q =
    let s = start_lem (magnitude a) (magnitude b) (ground arith) (ground arith) in
    let final = rounds 32 (start (magnitude a) (magnitude b)) in
    let neg = negate_pair_lem final.hi final.lo s.1 s.2 ∙ ap negated s.0 in
    ground (arith, s.0, neg, a_set, b_set)

-- For two words, the pair of words that Mult stores is their product: of ints, in two's complement of
-- 64 bits, where it is asked for signed arithmetic, and of unsigned ints where it is not.
pub mult_lem :
    (a b : ℕ) (signed : Bool)
    → a < 2 ^ 32
    → b < 2 ^ 32
    → value (mult a b signed).0 (mult a b signed).1 ≡ product a b signed
unfolding mult
mult_lem a b false p q = elim (ℕ_discrete a 0) [
  | yes a_zero ↦ ground (arith, ap (λ z. z * b) a_zero, zero-mul b)
  | no a_set ↦ elim (ℕ_discrete b 0) [
    | yes b_zero ↦ ground (arith, ap (λ z. a * z) b_zero, mul-zero a)
    | no b_set ↦ ground (arith, start_lem a b p q)
  ]
]
mult_lem a b true p q = elim (ℕ_discrete a 0) [
  | yes a_zero ↦
      ground
        (arith, a_zero, ap (λ z. z * magnitude b) (magnitude_zero a a_zero), zero-mul (magnitude b))
  | no a_set ↦ elim (ℕ_discrete b 0) [
    | yes b_zero ↦
        ground (
          arith,
          b_zero,
          ap (λ z. magnitude a * z) (magnitude_zero b b_zero),
          mul-zero (magnitude a),
        )
    | no b_set ↦ signed_case a b a_set b_set p q
  ]
]
