-- ===== src/Assignment/Constants.antt =====
-- The constants of the rules engine that assigns a worker to a URL
-- (app/common/constants/worker_assignment.py). The path patterns are plain texts, in lower case.
use duka_scraper.Base.{ℕ, String, List, [], ◌∷◌}

unfoldable pub dark_domain_suffixes : List String
dark_domain_suffixes = ".onion" ∷ ".i2p" ∷ ".loki" ∷ ".zeronet" ∷ []

unfoldable pub deep_domain_whitelist : List String
deep_domain_whitelist =
    "linkedin.com" ∷ "www.linkedin.com" ∷ "x.com" ∷ "www.x.com" ∷ "twitter.com" ∷ "www.twitter.com"
    ∷ "facebook.com" ∷ "www.facebook.com" ∷ "m.facebook.com" ∷ "instagram.com" ∷ "www.instagram.com"
    ∷ "t.me" ∷ "telegram.org" ∷ "web.telegram.org" ∷ "tiktok.com" ∷ "www.tiktok.com" ∷ "reddit.com"
    ∷ "www.reddit.com" ∷ "old.reddit.com" ∷ "pinterest.com" ∷ "www.pinterest.com" ∷ "snapchat.com"
    ∷ "threads.net" ∷ "mastodon.social" ∷ "gmail.com" ∷ "mail.google.com" ∷ "outlook.com"
    ∷ "outlook.office.com" ∷ "yahoo.com" ∷ "mail.yahoo.com" ∷ "github.com" ∷ "gitlab.com"
    ∷ "bitbucket.org" ∷ "medium.com" ∷ "substack.com" ∷ "patreon.com" ∷ "quora.com"
    ∷ "www.quora.com" ∷ "amazon.com" ∷ "www.amazon.com" ∷ "ebay.com" ∷ "www.ebay.com"
    ∷ "aliexpress.com" ∷ "youtube.com" ∷ "www.youtube.com" ∷ "m.youtube.com" ∷ "netflix.com"
    ∷ "vimeo.com" ∷ "console.aws.amazon.com" ∷ "portal.azure.com" ∷ "console.cloud.google.com" ∷ []

unfoldable pub waf_cdn_protected_domains : List String
waf_cdn_protected_domains =
    "cloudflare.com" ∷ "shopify.com" ∷ "www.shopify.com" ∷ "nike.com" ∷ "www.nike.com"
    ∷ "ticketmaster.com" ∷ "bestbuy.com" ∷ "target.com" ∷ "walmart.com" ∷ "chase.com"
    ∷ "bankofamerica.com" ∷ "wellsfargo.com" ∷ []

unfoldable pub ethiopian_deep_domains : List String
ethiopian_deep_domains =
    "ethiopia.gov.et" ∷ "mofa.gov.et" ∷ "mor.gov.et" ∷ "mint.gov.et" ∷ "nbe.gov.et" ∷ "ecc.gov.et"
    ∷ "insa.gov.et" ∷ "epa.gov.et" ∷ "parliament.gov.et" ∷ "eprdf.org.et" ∷ "ethiotelecom.et"
    ∷ "safaricom.et" ∷ []

unfoldable pub ethiopian_surface_domains : List String
ethiopian_surface_domains =
    "ena.et" ∷ "fanabc.com" ∷ "ethiopianreporter.com" ∷ "addisstandard.com" ∷ "capitalethiopia.com"
    ∷ "ethiopianmonitor.com" ∷ "waltainfo.com" ∷ "borkena.com" ∷ "zehabesha.com" ∷ "ethsat.com"
    ∷ "amharaweb.com" ∷ "tigraionline.com" ∷ "oromiamedia.org" ∷ "esat.tv" ∷ "addisfortune.news"
    ∷ "2merkato.com" ∷ "aau.edu.et" ∷ "astu.edu.et" ∷ "haramaya.edu.et" ∷ "mu.edu.et" ∷ "bdu.edu.et"
    ∷ "jimma.edu.et" ∷ "wollegauniversity.edu.et" ∷ []

unfoldable pub ethiopian_tld_suffixes : List String
ethiopian_tld_suffixes = ".et" ∷ []

unfoldable pub skip_domains : List String
skip_domains =
    "ads.com" ∷ "doubleclick.net" ∷ "google-analytics.com" ∷ "googlesyndication.com"
    ∷ "facebook.com/tr" ∷ "tracking.com" ∷ "adnxs.com" ∷ "criteo.com" ∷ []

unfoldable pub deep_path_patterns : List String
deep_path_patterns =
    "/login" ∷ "/signin" ∷ "/sign-in" ∷ "/log-in" ∷ "/signup" ∷ "/sign-up" ∷ "/register"
    ∷ "/registration" ∷ "/organizer/register" ∷ "/auth" ∷ "/authenticate" ∷ "/authorization"
    ∷ "/account" ∷ "/my-account" ∷ "/dashboard" ∷ "/admin" ∷ "/wp-admin" ∷ "/wp-login" ∷ "/checkout"
    ∷ "/cart" ∷ "/payment" ∷ "/sso" ∷ "/oauth" ∷ "/oidc" ∷ "/portal" ∷ "/console" ∷ []

unfoldable pub deep_query_params : List String
deep_query_params =
    "oauth" ∷ "sso" ∷ "token" ∷ "session_token" ∷ "access_token" ∷ "redirect_uri" ∷ "return_url"
    ∷ "auth_code" ∷ "id_token" ∷ []

unfoldable pub escalation_status_codes : List ℕ
escalation_status_codes = 401 ∷ 403 ∷ 407 ∷ 429 ∷ 451 ∷ []
