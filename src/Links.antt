-- ===== src/Links.antt =====
-- Which links of a page are followed (app/services/link_extraction_service.py,
-- `LinkExtractionService.filter_links` and the checks that it makes).
pub mod Constants
pub mod Trap
pub mod Loops
pub mod Following
mod Tests
use duka_scraper.Base.{
  ℕ, String, Bool, true, false, not, ◌&&◌, ◌||◌, Option, none, some, List, [], ◌∷◌, ◌++◌, any, keep,
  ◌==◌, if◌then◌else◌,
}
use duka_scraper.Base.Text.{
  Text, codes, text_eq, lower, starts_with, ends_with, has_infix, rstrip, split_on, is_code,
  is_empty,
}
use duka_scraper.Url.{Url, urlparse, hostname, is_digit}
use Constants.{
  non_content_extensions, junk_domain_hints, shortlink_domains, video_path_hints,
  redirect_path_hints, non_content_ends, non_content_infixes, feed_hints,
}
use Trap.{is_crawler_trap}

-- A check that answers `False` when the URL cannot be parsed.
abbrev pub on_url : (Url → Bool) → Text → Bool
on_url test url = elim (urlparse url) [ none ↦ false | some u ↦ test u ]

abbrev pub any_infix : Text → List String → Bool
any_infix s hints = any (λ h. has_infix s (codes h)) hints

abbrev pub any_end : Text → List String → Bool
any_end s ends = any (λ h. ends_with s (codes h)) ends

-- `/page/\d+$`: the digits at the end, at least one of them, behind `/page/`.
unfoldable pub is_page_number : Text → Bool
unfolding is_digit
is_page_number path =
    let rest = rstrip is_digit path in not (rest == path) && ends_with rest (codes "/page/")

-- `_is_non_content_page`: the patterns that end in `$`, the page numbers and the others.
unfoldable pub is_non_content_page : Text → Bool
unfolding is_page_number
is_non_content_page = on_url (λ u.
    let path = lower u.path in
    any_end path non_content_ends || any_infix path non_content_infixes || is_page_number path)

unfoldable pub is_static_asset : Text → Bool
is_static_asset = on_url (λ u. any_end (lower u.path) non_content_extensions)

unfoldable pub is_junk_domain : Text → Bool
is_junk_domain = on_url (λ u.
    let host = lower (hostname u) in
    if is_empty host then false else any_infix host junk_domain_hints)

unfoldable pub is_feed : Url → Bool
is_feed u = any_infix (lower u.path) feed_hints

unfoldable pub is_shortlink : Text → Bool
is_shortlink domain = any (λ s. ends_with domain (codes s) || domain == codes s) shortlink_domains

-- The tests of `filter_links` that no argument of it changes.
unfoldable pub is_followable : Text → Url → Bool
unfolding is_feed is_shortlink
is_followable link u =
    (lower u.scheme == codes "http" || lower u.scheme == codes "https")
    && not (not (is_feed u) && is_static_asset link)
    && not (is_crawler_trap link)
    && not (is_junk_domain link)
    && not (is_non_content_page link)
    && not (is_shortlink (lower u.netloc))
    && not (any_infix (lower u.path) video_path_hints)
    && not (any_infix (lower u.path) redirect_path_hints)

abbrev pub slash : ℕ → Bool
slash = is_code b'/'

-- `(parsed.path or "/").rstrip("/")`
abbrev pub link_path : Url → Text
link_path u = rstrip slash (if is_empty u.path then b'/' ∷ [] else u.path)

-- The prefix itself, or the prefix and a slash. An empty prefix is none.
unfoldable pub under_prefix : Option Text → Url → Bool
under_prefix none u = true
under_prefix (some prefix) u =
    let pp = rstrip slash prefix in
    if is_empty prefix
    then true
    else link_path u == pp || starts_with (link_path u) (pp ++ b'/' ∷ [])

-- `".".join(parts[-2:])`, and the host itself where it has one part.
unfoldable pub last_labels : List Text → Text
last_labels [] = []
last_labels (a ∷ []) = a
last_labels (a ∷ b ∷ []) = a ++ b'.' ∷ b
last_labels (a ∷ b ∷ c ∷ rest) = last_labels (b ∷ c ∷ rest)

-- `tldextract.extract`, which is not part of the program: a domain and a suffix, or `none` where
-- it is not installed or fails.
abbrev pub Extract : Type 0
Extract = Text → Option (Text × Text)

-- `re.search` of a pattern of the job's configuration; `none` where the pattern is not valid.
abbrev pub Search : Type 0
Search = Text → Text → Option Bool

unfoldable pub registrable_domain : Extract → Text → Text
unfolding last_labels
registrable_domain extract host =
    let labels = last_labels (split_on b'.' host) in
    elim (extract host) [
      | none ↦ labels
      | some (domain, suffix) ↦
          if is_empty domain || is_empty suffix then labels else domain ++ b'.' ∷ suffix
    ]

-- With subdomains included, as every caller leaves it.
unfoldable pub is_same_domain : Extract → Text → Text → Bool
unfolding registrable_domain
is_same_domain extract a b =
    on_url
      (λ u.
        on_url
          (λ v.
            let host_a = lower (hostname u) in
            let host_b = lower (hostname v) in
            if is_empty host_a || is_empty host_b
            then false
            else registrable_domain extract host_a == registrable_domain extract host_b)
          b)
      a

-- The arguments of `filter_links` besides the links. An empty text of the second is none.
pub record Scope : Type 0 where
  pub allowed_patterns : List Text
  pub skip_domains : List Text
  pub same_domain_as : Option Text
  pub path_prefix : Option Text

unfoldable pub in_domain : Extract → Option Text → Text → Bool
unfolding is_same_domain
in_domain extract none link = true
in_domain extract (some seed) link =
    if is_empty seed then true else is_same_domain extract link seed

-- `any(re.search(...))`, up to the first pattern that raises: the link is then dropped.
unfoldable pub matches_any : Search → List Text → Text → Bool
matches_any search [] link = false
matches_any search (p ∷ ps) link =
    let more = matches_any search ps link in
    elim (search p link) [ none ↦ false | some found ↦ if found then true else more ]

unfoldable pub is_allowed : Search → List Text → Text → Bool
unfolding matches_any
is_allowed search [] link = true
is_allowed search (p ∷ ps) link = matches_any search (p ∷ ps) link

unfoldable pub passes_url : Extract → Search → Scope → Text → Url → Bool
unfolding in_domain is_allowed
passes_url extract search scope link u =
    is_followable link u
    && not (any (λ d. has_infix (lower u.netloc) (lower d)) scope.skip_domains)
    && in_domain extract scope.same_domain_as link
    && under_prefix scope.path_prefix u
    && is_allowed search scope.allowed_patterns link

-- One round of the loop; a URL that cannot be parsed is dropped.
unfoldable pub link_passes : Extract → Search → Scope → Text → Bool
unfolding passes_url
link_passes extract search scope link = on_url (passes_url extract search scope link) link

unfoldable pub filter_links : Extract → Search → Scope → List Text → List Text
unfolding link_passes
filter_links extract search scope links = keep (link_passes extract search scope) links
