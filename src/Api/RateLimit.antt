-- ===== src/Api/RateLimit.antt =====
-- app/security/rate_limit.py
use duka_scraper.Base.{ℕ, String, Option, none, some, ◌++◌, leb, ◌==◌, nat_eq, if◌then◌else◌}
use duka_scraper.Base.Text.{Text, codes}
use duka_scraper.Api.{Reply, Platform, Call, Handler}

abbrev pub client_ip : Option Text → Text
client_ip none = codes "unknown"
client_ip (some host) = host

unfoldable pub rate_key : String → Option Text → Text
rate_key scope host = codes "api:rate:" ++ (codes scope ++ (codes ":" ++ client_ip host))

module _ {Redis Token : Type 0} (p : Platform Redis Token) where
  -- The counter after `incr`, and after `expire` if it is the first of its window.
  abbrev pub count_request : ℕ → Text → ℕ → Redis → ℕ × Redis
  count_request now key window_seconds redis =
      let (count, redis') = p.incr now key redis in
      (count, if count == 1 then p.expire now key window_seconds redis' else redis')

  unfoldable pub enforce_rate_limit : Call → String → ℕ → ℕ → Handler Redis (Unit {0})
  enforce_rate_limit c scope limit window_seconds w =
      let (count, redis) =
        count_request c.now (rate_key scope c.client_host) window_seconds w.redis in
      (
        if leb count limit
            then Reply.ok tt
            else Reply.refused 429 "Too many requests. Try again later.",
        record w { redis = redis },
      )
