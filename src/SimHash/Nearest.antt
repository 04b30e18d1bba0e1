-- ===== src/SimHash/Nearest.antt =====
-- The search for a near duplicate (`check_near_duplicate`, app/storage/postgres/client.py) finds the
-- nearest of the rows that it looks at.
use duka_scraper.Base.{
  ℕ, ◌+◌, ◌≡◌, ◌≤◌, ◌<◌, refl, false, Option, none, some, List, [], ◌∷◌, arith, All, AnyOf, ltb,
  leb, if_ind, inl, inr, if◌then◌else◌,
}
use duka_scraper.SimHash.{
  ℤ, FingerprintRow, hamming_distance, is_stale, recent_rows, scan_rows, check_near_duplicate,
}

module _ (now stale : ℕ) (h : ℤ) where
  abbrev pub IsFresh : FingerprintRow → Type 0
  IsFresh r = is_stale now r.created_at stale ≡ false

  abbrev pub distance : FingerprintRow → ℕ
  distance r = hamming_distance h r.simhash

  -- The answer of a search among `rows`: the row is one of them, fresh, within the threshold and
  -- no farther than any other fresh one; no answer, when every fresh row is farther.
  abbrev pub IsNearest : ℕ → List FingerprintRow → Option (FingerprintRow × ℕ) → Type 0
  IsNearest threshold rows none = All (λ r. IsFresh r → threshold < distance r) rows
  IsNearest threshold rows (some (r, d)) =
      (d ≡ distance r)
      × (d ≤ threshold)
      × IsFresh r
      × AnyOf (λ x. x ≡ r) rows
      × All (λ x. IsFresh x → d ≤ distance x) rows

  abbrev step : FingerprintRow → Option FingerprintRow × ℕ → Option FingerprintRow × ℕ
  step r best =
      if is_stale now r.created_at stale
      then best
      else if ltb (distance r) best.1
      then (some r, distance r)
      else best

  step_least :
      (r : FingerprintRow) (best : Option FingerprintRow × ℕ)
      → ((step r best).1 ≤ best.1) × (IsFresh r → (step r best).1 ≤ distance r)
  step_least r best = (ground arith, λ fresh. ground arith)

  scan_least :
      (rs : List FingerprintRow) (best : Option FingerprintRow × ℕ)
      → let d = (scan_rows now stale h rs best).1 in
        (d ≤ best.1) × All (λ x. IsFresh x → d ≤ distance x) rs
  unfolding scan_rows
  scan_least [] best = (omega arith, tt)
  scan_least (r ∷ rs) best =
      let (one, near) = step_least r best in
      let (less, rest) = scan_least rs (step r best) in
      (omega (arith, one, less), (λ fresh. omega (arith, near fresh, less), rest))

  module _ (threshold : ℕ) (P : FingerprintRow → Type 0) where
    abbrev Good : Option FingerprintRow × ℕ → Type 0
    Good (none, d) = d ≡ threshold + 1
    Good (some r, d) = (d ≡ distance r) × (d ≤ threshold) × IsFresh r × P r

    Good-below : (best : Option FingerprintRow × ℕ) → Good best → best.1 ≤ threshold + 1
    Good-below (none, d) g = omega arith
    Good-below (some r, d) g = omega (arith, g.1)

    step-Good :
        (r : FingerprintRow) (best : Option FingerprintRow × ℕ)
        → P r
        → Good best
        → Good (step r best)
    step-Good r best p g =
        if_ind Good (is_stale now r.created_at stale) (λ e. g)
          (λ e.
            if_ind Good (ltb (distance r) best.1)
              (λ less. (refl, ground (arith, Good-below best g), e, p)) (λ more. g))

    scan-Good :
        (rs : List FingerprintRow) (best : Option FingerprintRow × ℕ)
        → All P rs
        → Good best
        → Good (scan_rows now stale h rs best)
    unfolding scan_rows
    scan-Good [] best ps g = g
    scan-Good (r ∷ rs) best (p, ps) g = scan-Good rs (step r best) ps (step-Good r best p g)

  All-members :
      (rs whole : List FingerprintRow)
      → ((r : FingerprintRow) → AnyOf (λ x. x ≡ r) rs → AnyOf (λ x. x ≡ r) whole)
      → All (λ r. AnyOf (λ x. x ≡ r) whole) rs
  All-members [] whole f = tt
  All-members (r ∷ rs) whole f = (f r (inl refl), All-members rs whole (λ x m. f x (inr m)))

  All-farther :
      (d threshold : ℕ) (rs : List FingerprintRow)
      → d ≡ threshold + 1
      → All (λ x. IsFresh x → d ≤ distance x) rs
      → All (λ x. IsFresh x → threshold < distance x) rs
  All-farther d threshold [] e all = tt
  All-farther d threshold (r ∷ rs) e (one, rest) =
      (λ fresh. omega (arith, one fresh), All-farther d threshold rs e rest)

  answer :
      (threshold : ℕ) (rows : List FingerprintRow) (best : Option FingerprintRow × ℕ)
      → Good threshold (λ r. AnyOf (λ x. x ≡ r) rows) best
      → All (λ x. IsFresh x → best.1 ≤ distance x) rows
      → IsNearest threshold rows (elim (best.0) [
        | none ↦ none
        | some r ↦ if leb best.1 threshold then some (r, best.1) else none
      ])
  answer threshold rows (none, d) good all = All-farther d threshold rows good all
  answer threshold rows (some r, d) (exact, within, fresh, found) all =
      if_ind (IsNearest threshold rows) (leb d threshold) (λ e. (exact, within, fresh, found, all))
        (λ e. ground arith)

  -- The search is exact on the rows that it reads: it answers with a nearest fresh row, if one is
  -- within the threshold, and with nothing otherwise.
  pub check_near_duplicate-IsNearest :
      (threshold : ℕ) (table : List FingerprintRow)
      → IsNearest threshold
          (recent_rows now table)
          (check_near_duplicate now h threshold stale table)
  unfolding check_near_duplicate
  check_near_duplicate-IsNearest threshold table =
      let rows = recent_rows now table in
      let start : Option FingerprintRow × ℕ = (none, threshold + 1) in
      let good =
        scan-Good threshold (λ r. AnyOf (λ x. x ≡ r) rows) rows start
          (All-members rows rows (λ r m. m)) refl in
      answer threshold rows (scan_rows now stale h rows start) good (scan_least rows start).1
