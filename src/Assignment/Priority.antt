-- ===== src/Assignment/Priority.antt =====
-- The order of the signals (`initial_assignment`, app/common/constants/worker_assignment.py), and
-- how it stands to `infer_target_layer` (app/services/link_extraction_service.py).
use duka_scraper.Base.{
  ◌≡◌, refl, ap, String, Bool, true, ◌||◌, Option, none, some, arith, string_eq, if◌then◌else◌,
  Option-cases, inl, inr,
}
use duka_scraper.Base.Text.{Text, codes, lower, ends_with}
use duka_scraper.Assignment.Constants.{
  dark_domain_suffixes, deep_domain_whitelist, waf_cdn_protected_domains, ethiopian_deep_domains,
  ethiopian_surface_domains,
}
use duka_scraper.Url.{Url, urlparse, hostname}
use duka_scraper.Assignment.{
  WorkerType, on_url, has_suffix, hostname_matches, worker_type, worker_value, is_dark_web,
  is_waf_cdn_protected, is_deep_domain, is_ethiopian_deep_domain, is_ethiopian_surface_domain,
  assign_by_rules, initial_assignment, assign_worker, infer_target_layer,
}

-- One of the lists of domains decides: the host is dark, protected, deep, or curated as surface.
abbrev pub is_known_host : Text → Bool
is_known_host url =
    is_dark_web url
    || is_waf_cdn_protected url
    || is_deep_domain url
    || is_ethiopian_deep_domain url
    || is_ethiopian_surface_domain url

same_signals :
    (url url' : Text)
    → is_dark_web url ≡ is_dark_web url'
    → is_waf_cdn_protected url ≡ is_waf_cdn_protected url'
    → is_deep_domain url ≡ is_deep_domain url'
    → is_ethiopian_deep_domain url ≡ is_ethiopian_deep_domain url'
    → is_ethiopian_surface_domain url ≡ is_ethiopian_surface_domain url'
    → is_known_host url ≡ true
    → assign_by_rules url ≡ assign_by_rules url'
unfolding assign_by_rules
same_signals url url' a b c d e known = ground arith

on_url-same_host :
    (test : Text → Bool) (url url' : Text) (u u' : Url)
    → urlparse url ≡ some u
    → urlparse url' ≡ some u'
    → hostname u ≡ hostname u'
    → on_url (λ v. test (lower (hostname v))) url ≡ on_url (λ v. test (lower (hostname v))) url'
on_url-same_host test url url' u u' p p' same = ground arith

-- Two URLs of one host get the same worker for the same reason when a list of domains knows the
-- host, whatever their paths and queries are: a login page of a curated surface site stays there.
pub assign_by_rules-known_host :
    (url url' : Text) (u u' : Url)
    → urlparse url ≡ some u
    → urlparse url' ≡ some u'
    → hostname u ≡ hostname u'
    → is_known_host url ≡ true
    → assign_by_rules url ≡ assign_by_rules url'
unfolding assign_by_rules is_dark_web is_waf_cdn_protected is_deep_domain is_ethiopian_deep_domain
    is_ethiopian_surface_domain
assign_by_rules-known_host url url' u u' p p' same known =
    let agree = λ (test : Text → Bool). on_url-same_host test url url' u u' p p' same in
    same_signals url url' (agree (λ h. has_suffix h dark_domain_suffixes))
      (agree (λ h. hostname_matches h waf_cdn_protected_domains))
      (agree (λ h. hostname_matches h deep_domain_whitelist))
      (agree (λ h. hostname_matches h ethiopian_deep_domains))
      (agree (λ h. hostname_matches h ethiopian_surface_domains)) known

initial_assignment-worker_value :
    (url : Text) (w : WorkerType)
    → initial_assignment url (some (worker_value w)) ≡ (w, "user_override")
unfolding initial_assignment worker_type worker_value
initial_assignment-worker_value url WorkerType.surface = refl
initial_assignment-worker_value url WorkerType.deep = refl
initial_assignment-worker_value url WorkerType.dark = refl

-- The worker that a URL was assigned is a valid override, and assigning with it again keeps it.
pub assign_worker_again :
    (url : Text) (override : Option String)
    → assign_worker url (some (assign_worker url override)) ≡ assign_worker url override
unfolding assign_worker
assign_worker_again url override =
    ap (λ a. worker_value a.0)
      (initial_assignment-worker_value url (initial_assignment url override).0)

-- An override that names no worker changes nothing: worker and reason are those of the rules.
pub initial_assignment_invalid :
    (url : Text) (override : String)
    → worker_type override ≡ none
    → initial_assignment url (some override) ≡ initial_assignment url none
unfolding initial_assignment
initial_assignment_invalid url override bad = ground arith

-- The host of a URL that is parsed, in lower case, ends with the suffix.
abbrev pub host_ends : String → Text → Bool
host_ends suffix = on_url (λ u. ends_with (lower (hostname u)) (codes suffix))

-- The two readings of a host agree on `.onion`, and differ on `.i2p`, which the layer calls deep
-- and the rules send to the dark worker.
pub infer_target_layer-assign_worker :
    (url : Text)
    → (host_ends ".onion" url || host_ends ".i2p" url) ≡ true
    → (assign_worker url none ≡ "dark")
      × (infer_target_layer url ≡ (if host_ends ".onion" url then "dark" else "deep"))
unfolding infer_target_layer assign_worker initial_assignment is_dark_web dark_domain_suffixes
infer_target_layer-assign_worker url hidden = elim (Option-cases (urlparse url)) [
  | inl bad ↦ ground (arith, bad, hidden)
  | inr (u, good) ↦ (ground (arith, good, hidden), ground (arith, good, hidden))
]
