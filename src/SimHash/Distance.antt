-- ===== src/SimHash/Distance.antt =====
-- The loop of `hamming_distance` (app/services/content_fingerprint_service.py) counts the bits in
-- which two fingerprints differ.
use duka_scraper.Base.{
  ℕ, zero, suc, ◌+◌, ◌-◌, ◌*◌, ◌/◌, ◌%◌, ◌≤◌, ◌<◌, ◌≡◌, refl, sym, ap, ◌∙◌, arith, nat_beq,
  if◌then◌else◌, inl, inr, Bool-cases, nat_beq_iff,
}
use duka_scraper.SimHash.{ℤ, unsigned, xor_bits, and_bits, count_loop, hamming_distance}

-- How many of the lowest `n` bits differ.
unfoldable pub differing : ℕ → ℕ → ℕ → ℕ
differing zero a b = 0
differing (suc n) a b = (if nat_beq (a % 2) (b % 2) then 0 else 1) + differing n (a / 2) (b / 2)

unfoldable ones : ℕ → ℕ → ℕ
ones zero x = 0
ones (suc n) x = x % 2 + ones n (x / 2)

unfoldable pow2 : ℕ → ℕ
pow2 zero = 1
pow2 (suc n) = pow2 n + pow2 n

half : (q r : ℕ) → r < 2 → ((2 * q + r) / 2 ≡ q) × ((2 * q + r) % 2 ≡ r)
half q r h = (omega arith, omega arith)

ones_double : (n q r : ℕ) → r < 2 → ones (suc n) (2 * q + r) ≡ r + ones n q
unfolding ones
ones_double n q r h =
    let (d, m) = half q r h in ap (λ k. k + ones n ((2 * q + r) / 2)) m ∙ ap (λ k. r + ones n k) d

ones-xor_bits : (n a b : ℕ) → ones n (xor_bits n a b) ≡ differing n a b
unfolding ones xor_bits differing
ones-xor_bits zero a b = refl
ones-xor_bits (suc n) a b =
    let low : ℕ = if nat_beq (a % 2) (b % 2) then 0 else 1 in
    let small : low < 2 = ground arith in
    ones_double n (xor_bits n (a / 2) (b / 2)) low small
    ∙ ap (λ k. low + k) (ones-xor_bits n (a / 2) (b / 2))

ones-zero : (n : ℕ) → ones n 0 ≡ 0
unfolding ones
ones-zero zero = refl
ones-zero (suc n) = omega (arith, ones-zero n)

ones-le : (n x : ℕ) → ones n x ≤ n
unfolding ones
ones-le zero x = omega arith
ones-le (suc n) x = omega (arith, ones-le n (x / 2))

and_bits-same : (n x : ℕ) → ones n (and_bits n x x) ≡ ones n x
unfolding ones and_bits
and_bits-same zero x = refl
and_bits-same (suc n) x =
    let low : ℕ = if nat_beq (x % 2) 1 then x % 2 else 0 in
    let small : low < 2 = ground arith in
    let bit : low ≡ x % 2 = ground arith in
    ones_double n (and_bits n (x / 2) (x / 2)) low small
    ∙ ap (λ k. k + ones n (and_bits n (x / 2) (x / 2))) bit
    ∙ ap (λ k. x % 2 + k) (and_bits-same n (x / 2))

and_bits-small : (n x y : ℕ) → and_bits n x y < pow2 n
unfolding and_bits pow2
and_bits-small zero x y = omega arith
and_bits-small (suc n) x y =
    let low : ℕ = if nat_beq (x % 2) 1 then y % 2 else 0 in
    let small : low < 2 = ground arith in omega (arith, small, and_bits-small n (x / 2) (y / 2))

ones-suc : (n x : ℕ) → ones (suc n) x ≡ x % 2 + ones n (x / 2)
unfolding ones
ones-suc n x = refl

clear_low_bit :
    (n x : ℕ)
    → 1 ≤ x
    → ones (suc n) (and_bits (suc n) x (x - 1)) ≡ ones n (and_bits n (x / 2) ((x - 1) / 2))
unfolding and_bits
clear_low_bit n x some_bit =
    let low : ℕ = if nat_beq (x % 2) 1 then (x - 1) % 2 else 0 in
    let clear : low ≡ 0 = ground arith in
    let double = ones_double n (and_bits n (x / 2) ((x - 1) / 2)) low (omega (arith, clear)) in
    double ∙ ap (λ k. k + ones n (and_bits n (x / 2) ((x - 1) / 2))) clear ∙ omega arith

-- Clearing the lowest set bit leaves one bit fewer.
clear_lowest : (n x : ℕ) → x < pow2 n → 1 ≤ x → 1 + ones n (and_bits n x (x - 1)) ≡ ones n x
unfolding pow2
clear_lowest zero x small some_bit = omega arith
clear_lowest (suc n) x small some_bit = elim (Bool-cases (nat_beq (x % 2) 1)) [
  | inl odd ↦
      let low = (nat_beq_iff (x % 2) 1).0 odd in
      let same : (x - 1) / 2 ≡ x / 2 = omega arith in
      let rest = ap (λ k. ones n (and_bits n (x / 2) k)) same ∙ and_bits-same n (x / 2) in
      omega (arith, clear_low_bit n x some_bit, rest, ones-suc n x)
  | inr even ↦
      let low : x % 2 ≡ 0 = ground (arith, nat_beq_iff (x % 2) 1) in
      let lower : (x - 1) / 2 ≡ x / 2 - 1 = omega arith in
      let rest = ap (λ k. ones n (and_bits n (x / 2) k)) lower in
      let fewer = clear_lowest n (x / 2) (omega arith) (omega arith) in
      omega (arith, clear_low_bit n x some_bit, rest, fewer, ones-suc n x)
]

count_loop-ones : (fuel x : ℕ) → x < pow2 64 → ones 64 x ≤ fuel → count_loop fuel x ≡ ones 64 x
unfolding count_loop
count_loop-ones zero x small enough = omega arith
count_loop-ones (suc fuel) x small enough = elim (Bool-cases (nat_beq x 0)) [
  | inl nothing ↦
      let x0 = (nat_beq_iff x 0).0 nothing in
      rw nothing (sym (ones-zero 64) ∙ ap (ones 64) (sym x0))
  | inr more ↦
      let bits = clear_lowest 64 x small (ground (arith, nat_beq_iff x 0)) in
      let rest =
        count_loop-ones fuel (and_bits 64 x (x - 1)) (and_bits-small 64 x (x - 1)) (omega arith) in
      rw more (ap (λ k. 1 + k) rest ∙ bits)
]

xor_bits-small : (n x y : ℕ) → xor_bits n x y < pow2 n
unfolding xor_bits pow2
xor_bits-small zero x y = omega arith
xor_bits-small (suc n) x y =
    let low : ℕ = if nat_beq (x % 2) (y % 2) then 0 else 1 in
    let small : low < 2 = ground arith in omega (arith, small, xor_bits-small n (x / 2) (y / 2))

-- The distance of two fingerprints is the number of the 64 bits in which they differ, signed or
-- not; the rounds of the loop are enough.
pub hamming_distance-differing :
    (h1 h2 : ℤ) → hamming_distance h1 h2 ≡ differing 64 (unsigned h1) (unsigned h2)
unfolding hamming_distance
hamming_distance-differing h1 h2 =
    count_loop-ones 64 (xor_bits 64 (unsigned h1) (unsigned h2))
      (xor_bits-small 64 (unsigned h1) (unsigned h2))
      (ones-le 64 (xor_bits 64 (unsigned h1) (unsigned h2)))
    ∙ ones-xor_bits 64 (unsigned h1) (unsigned h2)
