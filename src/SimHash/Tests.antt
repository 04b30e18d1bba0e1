-- ===== src/SimHash/Tests.antt =====
-- Distances of fingerprints, a search among three, and instances of their theorems.
use duka_scraper.Base.{ℕ, ◌-◌, ◌^◌, ◌≡◌, refl, String, true, none, some, List, [], ◌∷◌}
use duka_scraper.SimHash.{
  ℤ, FingerprintRow, unsigned, xor_bits, count_loop, hamming_distance, is_near_duplicate, is_stale,
  insert_newest, newest_first, recent_rows, scan_rows, check_near_duplicate,
}
use duka_scraper.SimHash.Distance.{differing, hamming_distance-differing}
use duka_scraper.SimHash.Nearest.{IsNearest, check_near_duplicate-IsNearest}

-- All that a run has to compute with.
search_runs : Unit {0}
unfolding unsigned xor_bits count_loop hamming_distance is_near_duplicate is_stale insert_newest
    newest_first recent_rows scan_rows check_near_duplicate
search_runs = tt

-- -1 has all bits set; the sign makes no difference to the bits.
hamming_distance_runs :
    (hamming_distance (ℤ.pos 5) (ℤ.pos 6) ≡ 2)
    × (hamming_distance (ℤ.negsuc 0) (ℤ.pos 0) ≡ 64)
    × (hamming_distance (ℤ.negsuc 0) (ℤ.pos (2 ^ 64 - 1)) ≡ 0)
    × (is_near_duplicate (ℤ.pos 7) (ℤ.pos 0) 3 ≡ true)
unfolding search_runs
hamming_distance_runs = (refl, refl, refl, refl)

abbrev row : String → ℕ → ℕ → FingerprintRow
row item_id simhash created_at = record {
  item_id = item_id;
  simhash = ℤ.pos simhash;
  duplicate_of = none;
  created_at = some created_at;
}

abbrev table : List FingerprintRow
table = row "ITM1" 12 100 ∷ row "ITM2" 13 200 ∷ row "ITM3" 15 300 ∷ []

-- The first of the nearest, newest first; the row of the time 100 is stale.
check_near_duplicate_runs :
    (check_near_duplicate 400 (ℤ.pos 12) 3 250 table ≡ some (row "ITM2" 13 200, 1))
    × (check_near_duplicate 400 (ℤ.pos 240) 3 250 table ≡ none)
unfolding search_runs
check_near_duplicate_runs = (refl, refl)

hamming_distance-differing_example :
    hamming_distance (ℤ.negsuc 4) (ℤ.pos 6)
    ≡ differing 64 (unsigned (ℤ.negsuc 4)) (unsigned (ℤ.pos 6))
hamming_distance-differing_example = hamming_distance-differing (ℤ.negsuc 4) (ℤ.pos 6)

check_near_duplicate-IsNearest_example :
    IsNearest 400 250
      (ℤ.pos 12)
      3
      (recent_rows 400 table)
      (check_near_duplicate 400 (ℤ.pos 12) 3 250 table)
check_near_duplicate-IsNearest_example = check_near_duplicate-IsNearest 400 250 (ℤ.pos 12) 3 table
