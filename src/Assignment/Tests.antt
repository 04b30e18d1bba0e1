-- ===== src/Assignment/Tests.antt =====
-- Runs of the rules engine on URLs, and instances of its theorems.
use duka_scraper.Base.{nat_eq, AnyOf, ◌↔◌, ◌≡◌, refl, none, some, true, ◌∷◌, []}
use duka_scraper.Base.Text.{
  codes, cut, rcut, lower_code, starts_with, lstrip, text_beq, ends_with, has_infix, split_on,
}
use duka_scraper.Url.{Url, urlparse, hostname, query_keys}
use duka_scraper.Assignment.{
  worker_type, is_dark_web, is_waf_cdn_protected, is_deep_domain, is_ethiopian_deep_domain,
  is_ethiopian_surface_domain, is_ethiopian_tld, matches_deep_path, matches_deep_query,
  should_skip_domain, hostname_matches, initial_assignment, assign_worker,
  assign_worker_with_reason, infer_target_layer,
}
use duka_scraper.Assignment.Constants.{
  dark_domain_suffixes, deep_domain_whitelist, waf_cdn_protected_domains, ethiopian_deep_domains,
  ethiopian_surface_domains, ethiopian_tld_suffixes, skip_domains, deep_path_patterns,
  deep_query_params,
}
use duka_scraper.Assignment.Hosts.{IsUnder, hostname_matches_iff}
use duka_scraper.Assignment.Priority.{infer_target_layer-assign_worker}

-- All that a run has to compute with.
engine : Unit {0}
unfolding urlparse hostname query_keys cut rcut lower_code starts_with lstrip text_beq ends_with
    has_infix split_on hostname_matches is_dark_web is_waf_cdn_protected is_deep_domain
    is_ethiopian_deep_domain is_ethiopian_surface_domain is_ethiopian_tld matches_deep_path
    matches_deep_query should_skip_domain initial_assignment assign_worker_with_reason assign_worker
    infer_target_layer worker_type dark_domain_suffixes deep_domain_whitelist
    waf_cdn_protected_domains ethiopian_deep_domains ethiopian_surface_domains
    ethiopian_tld_suffixes skip_domains deep_path_patterns deep_query_params
engine = tt

assign_runs :
    (assign_worker_with_reason (codes "http://abc.onion/login") none ≡ ("dark", "dark_web_tld"))
    × (assign_worker_with_reason (codes "https://m.github.com/x") none
        ≡ ("deep", "deep_domain_whitelist"))
    × (assign_worker_with_reason (codes "https://notgithub.com/x") none
        ≡ ("surface", "default_fallback"))
    × (assign_worker_with_reason (codes "https://fanabc.com/login") none
        ≡ ("surface", "ethiopian_surface_domain"))
    × (assign_worker_with_reason (codes "https://example.com/Login") none
        ≡ ("deep", "url_path_heuristic"))
    × (assign_worker_with_reason (codes "https://example.com/a?Access%5Ftoken=1") none
        ≡ ("deep", "query_param_heuristic"))
    × (assign_worker_with_reason (codes "https://example.com/") (some "dark")
        ≡ ("dark", "user_override"))
unfolding engine
assign_runs = (refl, refl, refl, refl, refl, refl, refl)

abbrev front : Url
front = record { scheme = codes "https"; netloc = codes "fanabc.com"; path = codes "/"; query = [] }

abbrev login : Url
login = record {
  scheme = codes "https";
  netloc = codes "FANABC.com";
  path = codes "/login";
  query = codes "token=1";
}

hostname_matches_iff_example :
    (hostname_matches (codes "m.github.com") ("github.com" ∷ []) ≡ true)
    ↔ AnyOf (IsUnder (codes "m.github.com")) ("github.com" ∷ [])
hostname_matches_iff_example = hostname_matches_iff (codes "m.github.com") ("github.com" ∷ [])

infer_target_layer-assign_worker_example :
    (assign_worker (codes "http://a.i2p/") none ≡ "dark")
    × (infer_target_layer (codes "http://a.i2p/") ≡ "deep")
unfolding engine
infer_target_layer-assign_worker_example =
    infer_target_layer-assign_worker (codes "http://a.i2p/") refl
