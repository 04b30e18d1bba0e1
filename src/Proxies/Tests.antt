-- ===== src/Proxies/Tests.antt =====
-- A pool of two proxies, and instances of the theorems on their health.
use duka_scraper.Base.{◌≡◌, refl, true, false, List, [], ◌∷◌, arith, contains}
use duka_scraper.Base.Text.{Text, codes, text_eq, text_beq, lstrip, rstrip, is_empty, text_beq_iff}
use duka_scraper.Fingerprint.{strip, is_space}
use duka_scraper.Proxies.{
  ProxyManager, get_entry, set_entry, new_manager, available, reset_health, get_proxy,
  report_failure, report_success,
}
use duka_scraper.Proxies.Health.{report_failures, failed_proxy_stays_out}

-- All that a run has to compute with.
pool_runs : Unit {0}
unfolding text_beq lstrip rstrip strip is_space get_entry set_entry new_manager available
    reset_health get_proxy report_failure report_success report_failures
pool_runs = tt

abbrev pool : ProxyManager
pool = record {
  proxies = codes "a:1" ∷ codes "b:2" ∷ [];
  failure_threshold = 3;
  cooldown_seconds = 300;
  proxy_failures = (codes "a:1", 0) ∷ (codes "b:2", 0) ∷ [];
  proxy_cooldowns = [];
}

-- Three failures put a proxy out, two do not, and a success takes one failure back.
pool_steps :
    (new_manager (codes " a:1 " ∷ codes " " ∷ codes "b:2" ∷ []) 3 300 ≡ pool)
    × (available 900 (report_failures (10 ∷ 20 ∷ 30 ∷ []) (codes "a:1") pool) ≡ codes "b:2" ∷ [])
    × (available 900 (report_failures (10 ∷ 20 ∷ []) (codes "a:1") pool) ≡ pool.proxies)
    × (available 900
          (report_success (codes "a:1") (report_failures (10 ∷ 20 ∷ 30 ∷ []) (codes "a:1") pool))
        ≡ pool.proxies)
unfolding pool_runs
pool_steps = (refl, refl, refl, refl)

failed_proxy_stays_out_example :
    contains
      (available 100000 (report_failures (10 ∷ 20 ∷ 30 ∷ []) (codes "a:1") pool))
      (codes "a:1")
    ≡ false
unfolding pool_runs
failed_proxy_stays_out_example =
    failed_proxy_stays_out (10 ∷ 20 ∷ 30 ∷ []) (codes "a:1") pool 100000 refl (omega arith)

-- The first of the list.
abbrev head_of : List Text → Text
head_of [] = []
head_of (p ∷ ps) = p

head_of-fair : (xs : List Text) → is_empty xs ≡ false → contains xs (head_of xs) ≡ true
head_of-fair [] h = ground arith
head_of-fair (p ∷ ps) h = ground (arith, text_beq_iff p p)
