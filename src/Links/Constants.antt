-- ===== src/Links/Constants.antt =====
-- The lists of texts by which links are dropped (app/services/link_extraction_service.py,
-- app/common/constants/content_extensions.py).
use duka_scraper.Base.{ℕ, String, List, [], ◌∷◌}

unfoldable pub non_content_extensions : List String
non_content_extensions =
    ".png" ∷ ".jpg" ∷ ".jpeg" ∷ ".gif" ∷ ".svg" ∷ ".webp" ∷ ".ico" ∷ ".bmp" ∷ ".tiff" ∷ ".avif"
    ∷ ".heic" ∷ ".heif" ∷ ".css" ∷ ".js" ∷ ".json" ∷ ".map" ∷ ".wasm" ∷ ".xml" ∷ ".rss" ∷ ".zip"
    ∷ ".rar" ∷ ".7z" ∷ ".tar" ∷ ".gz" ∷ ".tgz" ∷ ".bz2" ∷ ".xz" ∷ ".exe" ∷ ".msi" ∷ ".dll" ∷ ".bin"
    ∷ ".apk" ∷ ".dmg" ∷ ".iso" ∷ ".torrent" ∷ ".mp4" ∷ ".avi" ∷ ".mov" ∷ ".mkv" ∷ ".webm" ∷ ".m4v"
    ∷ ".woff" ∷ ".woff2" ∷ ".ttf" ∷ ".eot" ∷ ".otf" ∷ []

unfoldable pub junk_params : List String
junk_params =
    "utm_source" ∷ "utm_medium" ∷ "utm_campaign" ∷ "utm_content" ∷ "utm_term" ∷ "gclid" ∷ "fbclid"
    ∷ "msclkid" ∷ "igshid" ∷ "mc_cid" ∷ "mc_eid" ∷ "ref" ∷ "referrer" ∷ "redirect_uri"
    ∷ "session_id" ∷ "tracking_id" ∷ "_ga" ∷ "_gid" ∷ "_gat" ∷ "redir" ∷ "campaign" ∷ "source"
    ∷ "sid" ∷ "phpsessid" ∷ "session" ∷ "sess" ∷ "csrf" ∷ "csrf_token" ∷ "token" ∷ "auth_token"
    ∷ "nonce" ∷ "_t" ∷ []

unfoldable pub junk_domain_hints : List String
junk_domain_hints =
    "fonts.googleapis.com" ∷ "fonts.gstatic.com" ∷ "cdn.jsdelivr.net" ∷ "cdnjs.cloudflare.com"
    ∷ "unpkg.com" ∷ "googletagmanager.com" ∷ "google-analytics.com" ∷ "googlesyndication.com"
    ∷ "doubleclick.net" ∷ "facebook.net" ∷ "twitter.com/i/" ∷ "platform.twitter.com"
    ∷ "connect.facebook.net" ∷ "ajax.googleapis.com" ∷ "maxcdn.bootstrapcdn.com"
    ∷ "stackpath.bootstrapcdn.com" ∷ "code.jquery.com" ∷ "ajax.cloudflare.com" ∷ "cdn.bootcss.com"
    ∷ "cdn.staticfile.org" ∷ []

unfoldable pub shortlink_domains : List String
shortlink_domains =
    "bit.ly" ∷ "tinyurl.com" ∷ "t.co" ∷ "goo.gl" ∷ "ow.ly" ∷ "is.gd" ∷ "buff.ly" ∷ "rebrand.ly"
    ∷ "cutt.ly" ∷ "shorturl.at" ∷ "tiny.cc" ∷ []

unfoldable pub video_path_hints : List String
video_path_hints = "/watch" ∷ "/video" ∷ "/clip" ∷ "/stream" ∷ []

unfoldable pub redirect_path_hints : List String
redirect_path_hints = "/redirect" ∷ "/go/" ∷ "/out/" ∷ "/redir" ∷ []

unfoldable pub non_content_ends : List String
non_content_ends =
    "/search" ∷ "/signin" ∷ "/signup" ∷ "/register" ∷ "/account" ∷ "/auth" ∷ "/logout" ∷ "/password"
    ∷ "/forgot" ∷ "/reset" ∷ "/subscribe" ∷ "/unsubscribe" ∷ "/cart" ∷ "/checkout" ∷ "/compare"
    ∷ "/watch" ∷ "/redirect" ∷ []

unfoldable pub non_content_infixes : List String
non_content_infixes = "/tag/" ∷ "/tags/" ∷ "/category/" ∷ "/categories/" ∷ "/go/" ∷ "/out/" ∷ []

unfoldable pub feed_hints : List String
feed_hints = "/feed" ∷ "/rss" ∷ "/atom" ∷ "/feed.xml" ∷ "/rss.xml" ∷ "/atom.xml" ∷ "/index.xml" ∷ []

abbrev pub max_url_length : ℕ
max_url_length = 2000

abbrev pub max_path_segments : ℕ
max_path_segments = 12

abbrev pub max_query_params : ℕ
max_query_params = 12

abbrev pub max_segment_repeat : ℕ
max_segment_repeat = 4
