-- ===== src/Links/Trap.antt =====
-- `_is_crawler_trap` (app/services/link_extraction_service.py): long URLs, deep or repeating paths,
-- many query parameters.
use duka_scraper.Base.{
  ℕ, ◌+◌, Bool, true, false, not, ◌&&◌, none, some, List, [], ◌∷◌, ltb, leb, length, keep, contains,
  ◌==◌, if◌then◌else◌,
}
use duka_scraper.Base.Text.{Text, text_eq, is_empty, split_on}
use duka_scraper.Url.{urlparse, query_keys}
use duka_scraper.Links.Constants.{
  max_url_length, max_path_segments, max_query_params, max_segment_repeat,
}

-- `[s for s in path.split("/") if s]`
unfoldable pub segments : Text → List Text
segments path = keep (λ s. not (is_empty s)) (split_on b'/' path)

-- The loop over `run`, behind a segment `prev` that ends a run of `n` equal ones.
unfoldable pub run_loop : ℕ → Text → List Text → Bool
run_loop n prev [] = false
run_loop n prev (s ∷ rest) =
    let longer = run_loop (n + 1) s rest in
    let fresh = run_loop 1 s rest in
    if s == prev then (if leb 3 (n + 1) then true else longer) else fresh

unfoldable pub has_long_run : List Text → Bool
unfolding run_loop
has_long_run [] = false
has_long_run (s ∷ rest) = run_loop 1 s rest

-- `counts[s] = counts.get(s, 0) + 1`: the dict after the assignment, and the new count.
unfoldable pub bump : Text → List (Text × ℕ) → List (Text × ℕ)
bump s [] = (s, 1) ∷ []
bump s ((k, n) ∷ counts) = if k == s then (k, n + 1) ∷ counts else (k, n) ∷ bump s counts

unfoldable pub get_count : Text → List (Text × ℕ) → ℕ
get_count s [] = 0
get_count s ((k, n) ∷ counts) = if k == s then n else get_count s counts

unfoldable pub count_loop : List (Text × ℕ) → List Text → Bool
unfolding bump get_count
count_loop counts [] = false
count_loop counts (s ∷ rest) =
    let counts' = bump s counts in
    let more = count_loop counts' rest in
    if leb max_segment_repeat (get_count s counts') then true else more

-- `len(parse_qs(query))`: the names, each once.
unfoldable pub distinct : List Text → List Text
distinct [] = []
distinct (k ∷ ks) = let rest = distinct ks in if contains rest k then rest else k ∷ rest

unfoldable pub is_crawler_trap : Text → Bool
unfolding segments has_long_run count_loop distinct
is_crawler_trap url = if ltb max_url_length (length url) then true else elim (urlparse url) [
  | none ↦ false
  | some u ↦
      let segs = segments u.path in
      if ltb max_path_segments (length segs)
      then true
      else if has_long_run segs
      then true
      else if leb 6 (length segs) && count_loop [] segs
      then true
      else ltb max_query_params (length (distinct (query_keys u.query)))
]
