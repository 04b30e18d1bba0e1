-- ===== src/Links/Following.antt =====
-- What `filter_links` promises of the links that it returns
-- (app/services/link_extraction_service.py).
use mathlib.Core.Bool.{false≢true}
use mathlib.Core.List.{append_assoc}
use native.Mathlib.Decide.{dec_lt}
use duka_scraper.Base.{
  ◌≤◌, ◌<◌, ◌≡◌, sym, ◌∙◌, ◌⊎◌, inl, inr, true, false, some, List, [], ◌∷◌, ◌++◌, length, All,
  All-keep, ◌==◌, arith, Bool-cases, Option-cases,
}
use duka_scraper.Base.Text.{
  Text, codes, text_eq, text_beq_iff, lower, rstrip, starts_with_iff, is_empty,
}
use duka_scraper.Url.{Url, urlparse}
use duka_scraper.Links.{
  Extract, Search, Scope, link_path, slash, under_prefix, is_followable, passes_url, link_passes,
  filter_links,
}
use duka_scraper.Links.Trap.{is_crawler_trap, segments, has_long_run, count_loop}
use duka_scraper.Links.Loops.{HasTriple, has_long_run_iff, occurrences, count_loop_iff}
use duka_scraper.Links.Constants.{max_segment_repeat}

-- A path lies in a directory: it is the directory, or goes on behind a slash.
abbrev pub IsBelow : Text → Text → Type 0
IsBelow dir path = (path ≡ dir) ⊎ ((r : Text) × (path ≡ dir ++ b'/' ∷ r))

under_prefix_sound :
    (prefix : Text) (u : Url)
    → is_empty prefix ≡ false
    → under_prefix (some prefix) u ≡ true
    → IsBelow (rstrip slash prefix) (link_path u)
unfolding under_prefix
under_prefix_sound prefix u given h = elim (Bool-cases (link_path u == rstrip slash prefix)) [
  | inl same ↦ inl ((text_beq_iff _ _).0 same)
  | inr other ↦
      let (r, e) =
        (starts_with_iff (link_path u) (rstrip slash prefix ++ b'/' ∷ [])).0 (ground arith) in
      inr (r, e ∙ append_assoc (rstrip slash prefix) (b'/' ∷ []) r)
]

-- What a link that passed is: parsed, over http or https, below the seed's directory.
pub record IsFollowed (prefix : Text) (link : Text) : Type 0 where
  pub url : Url
  pub parsed : urlparse link ≡ some url
  pub scheme : (lower url.scheme ≡ codes "http") ⊎ (lower url.scheme ≡ codes "https")
  pub below : IsBelow (rstrip slash prefix) (link_path url)
  pub no_trap : is_crawler_trap link ≡ false

followable_scheme :
    (link : Text) (u : Url)
    → is_followable link u ≡ true
    → ((lower u.scheme ≡ codes "http") ⊎ (lower u.scheme ≡ codes "https"))
      × (is_crawler_trap link ≡ false)
unfolding is_followable
followable_scheme link u h = (
  ground (
    arith,
    text_beq_iff (lower u.scheme) (codes "http"),
    text_beq_iff (lower u.scheme) (codes "https"),
  ),
  ground arith,
)

passes_url_parts :
    (extract : Extract) (search : Search) (scope : Scope) (prefix link : Text) (u : Url)
    → scope.path_prefix ≡ some prefix
    → passes_url extract search scope link u ≡ true
    → (is_followable link u ≡ true) × (under_prefix (some prefix) u ≡ true)
unfolding passes_url
passes_url_parts extract search scope prefix link u p h = ground arith

link_passes_sound :
    (extract : Extract) (search : Search) (scope : Scope) (prefix link : Text)
    → scope.path_prefix ≡ some prefix
    → is_empty prefix ≡ false
    → link_passes extract search scope link ≡ true
    → IsFollowed prefix link
unfolding link_passes
link_passes_sound extract search scope prefix link p given h = elim (Option-cases (urlparse link)) [
  | inl bad ↦ let impossible : false ≡ true = ground arith in cc
  | inr (u, parsed) ↦
      let passed : passes_url extract search scope link u ≡ true = ground arith in
      let (ok, below) = passes_url_parts extract search scope prefix link u p passed in
      let (scheme, no_trap) = followable_scheme link u ok in
      record {
        url = u;
        parsed = parsed;
        scheme = scheme;
        below = under_prefix_sound prefix u given below;
        no_trap = no_trap;
      }
]

-- Whatever the other settings, `tldextract` and the patterns are: with a path prefix, every link
-- that is returned can be parsed, is over http or https, is no crawler trap, and its path is that
-- of the seed or goes on from it behind a slash; `/amharic-news` is not below `/amharic`.
pub filter_links-IsFollowed :
    (extract : Extract) (search : Search) (scope : Scope) (prefix : Text) (links : List Text)
    → scope.path_prefix ≡ some prefix
    → is_empty prefix ≡ false
    → All (IsFollowed prefix) (filter_links extract search scope links)
unfolding filter_links
filter_links-IsFollowed extract search scope prefix links p given =
    All-keep (link_passes extract search scope) (IsFollowed prefix)
      (λ link h. link_passes_sound extract search scope prefix link p given h) links

few_occurrences :
    (segs : List Text)
    → 6 ≤ length segs
    → (count_loop [] segs ≡ false) ⊎ (length segs < 6)
    → (s : Text) → occurrences s segs < max_segment_repeat
few_occurrences segs deep (inr shallow) s = absurd (omega arith)
few_occurrences segs deep (inl none_of) s = elim (dec_lt (occurrences s segs) 4) [
  | yes few ↦ few
  | no many ↦
      let repeats = (count_loop_iff segs).1 (s, omega arith) in
      absurd (false≢true (sym none_of ∙ repeats))
]

-- What the paths of URLs that are no traps are free of.
not_trap_loops :
    (link : Text) (u : Url)
    → urlparse link ≡ some u
    → is_crawler_trap link ≡ false
    → (length link ≤ 2000)
      × (length (segments u.path) ≤ 12)
      × (has_long_run (segments u.path) ≡ false)
      × ((count_loop [] (segments u.path) ≡ false) ⊎ (length (segments u.path) < 6))
unfolding is_crawler_trap
not_trap_loops link u p h = (ground arith, ground arith, ground arith, ground arith)

-- A URL that is parsed and is no trap has at most 2000 characters and 12 segments, no segment
-- three times in a row and, from six segments on, none four times.
pub not_is_crawler_trap :
    (link : Text) (u : Url)
    → urlparse link ≡ some u
    → is_crawler_trap link ≡ false
    → (length link ≤ 2000)
      × (length (segments u.path) ≤ 12)
      × (¬ HasTriple (segments u.path))
      × (6 ≤ length (segments u.path)
          → (s : Text) → occurrences s (segments u.path) < max_segment_repeat)
not_is_crawler_trap link u p h =
    let (short, shallow, no_run, few) = not_trap_loops link u p h in
    (
      short,
      shallow,
      λ t. let yes_run = (has_long_run_iff (segments u.path)).1 t in cc,
      λ deep s. few_occurrences (segments u.path) deep few s,
    )
