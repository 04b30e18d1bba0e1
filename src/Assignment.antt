-- ===== src/Assignment.antt =====
-- The rules engine that assigns a worker to a URL, from the URL alone
-- (app/common/constants/worker_assignment.py, `WorkerAssignmentEngine`). A host is compared as
-- text; a pattern of `DEEP_PATH_PATTERNS` has no special character and is searched as a text.
pub mod Constants
pub mod Hosts
pub mod Priority
pub mod Escalation
mod Tests
use duka_scraper.Base.{
  ℕ, String, Bool, true, false, ◌||◌, Option, none, some, List, [], ◌∷◌, ◌++◌, map, any, ◌==◌,
  string_eq, contains, if◌then◌else◌,
}
use duka_scraper.Base.Text.{
  Text, codes, text_eq, lower, starts_with, ends_with, has_infix, split_on, cut, is_empty,
}
use duka_scraper.Url.{Url, urlparse, hostname, query_keys}
use Constants.{
  dark_domain_suffixes, deep_domain_whitelist, waf_cdn_protected_domains, ethiopian_deep_domains,
  ethiopian_surface_domains, ethiopian_tld_suffixes, skip_domains, deep_path_patterns,
  deep_query_params,
}

pub data WorkerType : Type 0 where
  surface deep dark : WorkerType

-- `WorkerType(...)`; `none` is the `ValueError`.
unfoldable pub worker_type : String → Option WorkerType
worker_type s =
    if s == "surface"
    then some WorkerType.surface
    else if s == "deep"
    then some WorkerType.deep
    else if s == "dark"
    then some WorkerType.dark
    else none

-- A test of the parsed URL; when the URL cannot be parsed, each signal is false.
abbrev pub on_url : (Url → Bool) → Text → Bool
on_url test url = elim (urlparse url) [ none ↦ false | some u ↦ test u ]

-- `_hostname_matches`: the domain itself or a subdomain.
unfoldable pub hostname_matches : Text → List String → Bool
hostname_matches host [] = false
hostname_matches host (d ∷ ds) =
    host == codes d || ends_with host (b'.' ∷ codes d) || hostname_matches host ds

unfoldable pub has_suffix : Text → List String → Bool
has_suffix host suffixes = any (λ s. ends_with host (codes s)) suffixes

unfoldable pub is_dark_web : Text → Bool
unfolding has_suffix
is_dark_web = on_url (λ u. has_suffix (lower (hostname u)) dark_domain_suffixes)

unfoldable pub is_waf_cdn_protected : Text → Bool
is_waf_cdn_protected = on_url (λ u. hostname_matches (lower (hostname u)) waf_cdn_protected_domains)

unfoldable pub is_deep_domain : Text → Bool
is_deep_domain = on_url (λ u. hostname_matches (lower (hostname u)) deep_domain_whitelist)

unfoldable pub is_ethiopian_deep_domain : Text → Bool
is_ethiopian_deep_domain =
    on_url (λ u. hostname_matches (lower (hostname u)) ethiopian_deep_domains)

unfoldable pub is_ethiopian_surface_domain : Text → Bool
is_ethiopian_surface_domain =
    on_url (λ u. hostname_matches (lower (hostname u)) ethiopian_surface_domains)

unfoldable pub is_ethiopian_tld : Text → Bool
unfolding has_suffix
is_ethiopian_tld = on_url (λ u. has_suffix (lower (hostname u)) ethiopian_tld_suffixes)

unfoldable pub matches_deep_path : Text → Bool
matches_deep_path = on_url (λ u. any (λ p. has_infix (lower u.path) (codes p)) deep_path_patterns)

unfoldable pub matches_deep_query : Text → Bool
matches_deep_query =
    on_url (λ u. any (λ k. contains (map codes deep_query_params) (lower k)) (query_keys u.query))

unfoldable pub should_skip_domain : Text → Bool
should_skip_domain =
    on_url (λ u. any (λ s. has_infix (lower (hostname u) ++ lower u.path) (codes s)) skip_domains)

-- The chain of signals below the user's choice.
unfoldable pub assign_by_rules : Text → WorkerType × String
assign_by_rules url =
    if is_dark_web url
    then (WorkerType.dark, "dark_web_tld")
    else if is_waf_cdn_protected url
    then (WorkerType.deep, "waf_cdn_protected_domain")
    else if is_deep_domain url
    then (WorkerType.deep, "deep_domain_whitelist")
    else if is_ethiopian_deep_domain url
    then (WorkerType.deep, "ethiopian_gov_telecom_domain")
    else if is_ethiopian_surface_domain url
    then (WorkerType.surface, "ethiopian_surface_domain")
    else if matches_deep_path url
    then (WorkerType.deep, "url_path_heuristic")
    else if matches_deep_query url
    then (WorkerType.deep, "query_param_heuristic")
    else if is_ethiopian_tld url
    then (WorkerType.surface, "ethiopian_tld_default")
    else (WorkerType.surface, "default_fallback")

-- An empty override is none, and one that names no worker is passed over.
unfoldable pub initial_assignment : Text → Option String → WorkerType × String
unfolding assign_by_rules
initial_assignment url none = assign_by_rules url
initial_assignment url (some override) =
    if override == ""
    then assign_by_rules url
    else elim (worker_type override) [ some w ↦ (w, "user_override") | none ↦ assign_by_rules url ]

unfoldable pub worker_value : WorkerType → String
worker_value WorkerType.surface = "surface"
worker_value WorkerType.deep = "deep"
worker_value WorkerType.dark = "dark"

unfoldable pub assign_worker : Text → Option String → String
unfolding worker_value
assign_worker url override = worker_value (initial_assignment url override).0

unfoldable pub assign_worker_with_reason : Text → Option String → String × String
unfolding worker_value
assign_worker_with_reason url override =
    let (w, reason) = initial_assignment url override in (worker_value w, reason)

-- `LinkExtractionService.infer_target_layer` (app/services/link_extraction_service.py).
unfoldable pub infer_target_layer : Text → String
infer_target_layer url = elim (urlparse url) [
  | none ↦ "surface"
  | some u ↦
      if ends_with (lower (hostname u)) (codes ".onion")
      then "dark"
      else if ends_with (lower (hostname u)) (codes ".i2p")
      then "deep"
      else "surface"
]
