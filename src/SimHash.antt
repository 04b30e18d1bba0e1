-- ===== src/SimHash.antt =====
-- The distance of two SimHash fingerprints and the search for the nearest stored one:
-- `hamming_distance`, `is_near_duplicate`, `is_stale`
-- (app/services/content_fingerprint_service.py) and `check_near_duplicate`
-- (app/storage/postgres/client.py).
pub mod Distance
pub mod Nearest
mod Tests
use duka_scraper.Base.{
  ℕ, zero, suc, ◌+◌, ◌-◌, ◌*◌, ◌/◌, ◌%◌, ◌^◌, String, Bool, true, false, ◌&&◌, Option, none, some,
  List, [], ◌∷◌, nat_beq, leb, ltb, not, keep, take, if◌then◌else◌,
}

-- Integers, as the database stores the fingerprints: `negsuc n` is -1 - n.
pub data ℤ : Type 0 where
  pos negsuc : ℕ → ℤ

-- `hash % (1 << 64)`, which Python takes below zero to a natural number too.
unfoldable pub unsigned : ℤ → ℕ
unsigned (pos n) = n % 2 ^ 64
unsigned (negsuc n) = (2 ^ 64 - 1) - n % 2 ^ 64

-- `a ^ b` and `a & b` on the lowest `n` bits.
unfoldable pub xor_bits : ℕ → ℕ → ℕ → ℕ
xor_bits zero a b = 0
xor_bits (suc n) a b = 2 * xor_bits n (a / 2) (b / 2) + (if nat_beq (a % 2) (b % 2) then 0 else 1)

unfoldable pub and_bits : ℕ → ℕ → ℕ → ℕ
and_bits zero a b = 0
and_bits (suc n) a b = 2 * and_bits n (a / 2) (b / 2) + (if nat_beq (a % 2) 1 then b % 2 else 0)

-- The loop over `xor`: each round clears its lowest set bit, so that 64 rounds are enough.
unfoldable pub count_loop : ℕ → ℕ → ℕ
unfolding and_bits
count_loop zero x = 0
count_loop (suc fuel) x =
    let rest = count_loop fuel (and_bits 64 x (x - 1)) in if nat_beq x 0 then 0 else 1 + rest

unfoldable pub hamming_distance : ℤ → ℤ → ℕ
unfolding unsigned xor_bits count_loop
hamming_distance h1 h2 = count_loop 64 (xor_bits 64 (unsigned h1) (unsigned h2))

unfoldable pub is_near_duplicate : ℤ → ℤ → ℕ → Bool
unfolding hamming_distance
is_near_duplicate h1 h2 threshold = leb (hamming_distance h1 h2) threshold

-- A row of `content_fingerprints`; times are numbers of seconds.
pub record FingerprintRow : Type 0 where
  pub item_id : String
  pub simhash : ℤ
  pub duplicate_of : Option String
  pub created_at : Option ℕ

-- A record is stale when its age is more than `stale` seconds, or not known.
unfoldable pub is_stale : ℕ → Option ℕ → ℕ → Bool
is_stale now none stale = true
is_stale now (some t) stale = ltb (t + stale) now

abbrev pub week : ℕ
week = 604800

abbrev pub is_recent : ℕ → FingerprintRow → Bool
is_recent now r =
    (elim (r.duplicate_of) [ none ↦ true | some _ ↦ false ])
    && (elim (r.created_at) [ none ↦ false | some t ↦ ltb now (t + week) ])

abbrev pub is_newer : FingerprintRow → FingerprintRow → Bool
is_newer a b = elim (a.created_at) [
  | none ↦ false
  | some t ↦ elim (b.created_at) [ none ↦ false | some u ↦ ltb u t ]
]

-- `ORDER BY created_at DESC`
unfoldable pub insert_newest : FingerprintRow → List FingerprintRow → List FingerprintRow
insert_newest r [] = r ∷ []
insert_newest r (x ∷ xs) =
    let rest = insert_newest r xs in if is_newer r x then r ∷ x ∷ xs else x ∷ rest

unfoldable pub newest_first : List FingerprintRow → List FingerprintRow → List FingerprintRow
unfolding insert_newest
newest_first [] sorted = sorted
newest_first (r ∷ rs) sorted = newest_first rs (insert_newest r sorted)

unfoldable pub recent_rows : ℕ → List FingerprintRow → List FingerprintRow
unfolding newest_first
recent_rows now table = take 10000 (newest_first (keep (is_recent now) table) [])

-- The loop over the rows: the best match and the distance to beat.
unfoldable pub scan_rows :
    ℕ → ℕ → ℤ → List FingerprintRow → Option FingerprintRow × ℕ → Option FingerprintRow × ℕ
unfolding hamming_distance is_stale
scan_rows now stale h [] best = best
scan_rows now stale h (r ∷ rs) best =
    let dist = hamming_distance h r.simhash in
    scan_rows now stale h rs (
      if is_stale now r.created_at stale
      then best
      else if ltb dist best.1
      then (some r, dist)
      else best)

unfoldable pub check_near_duplicate :
    ℕ → ℤ → ℕ → ℕ → List FingerprintRow → Option (FingerprintRow × ℕ)
unfolding recent_rows scan_rows
check_near_duplicate now h threshold stale table =
    let best = scan_rows now stale h (recent_rows now table) (none, threshold + 1) in
    elim (best.0) [ none ↦ none | some r ↦ if leb best.1 threshold then some (r, best.1) else none ]
