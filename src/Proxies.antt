-- ===== src/Proxies.antt =====
-- `ProxyManager` (app/common/proxy_manager.py): the health of the proxies that the workers share. A
-- method takes the time in seconds; `random.choice` is an argument.
pub mod Health
mod Tests
use duka_scraper.Base.{
  ℕ, zero, suc, ◌+◌, ◌-◌, Bool, true, false, ◌&&◌, Option, none, some, List, [], ◌∷◌, map, keep,
  ltb, leb, not, ◌==◌, if◌then◌else◌,
}
use duka_scraper.Base.Text.{Text, text_eq, is_empty}
use duka_scraper.Fingerprint.{strip}

-- The dictionaries are lists of keys with their values.
pub record ProxyManager : Type 0 where
  pub proxies : List Text
  pub failure_threshold : ℕ
  pub cooldown_seconds : ℕ
  pub proxy_failures : List (Text × ℕ)
  pub proxy_cooldowns : List (Text × ℕ)

-- `d.get(p)` and `d[p] = n`
unfoldable pub get_entry : Text → List (Text × ℕ) → Option ℕ
get_entry p [] = none
get_entry p ((q, n) ∷ d) = let rest = get_entry p d in if q == p then some n else rest

unfoldable pub set_entry : Text → ℕ → List (Text × ℕ) → List (Text × ℕ)
set_entry p n [] = (p, n) ∷ []
set_entry p n ((q, m) ∷ d) =
    let rest = set_entry p n d in if q == p then (q, n) ∷ d else (q, m) ∷ rest

-- `d.get(p, 0)`
abbrev pub get_or_zero : Text → List (Text × ℕ) → ℕ
get_or_zero p d = elim (get_entry p d) [ none ↦ 0 | some n ↦ n ]

abbrev pub no_failures : List Text → List (Text × ℕ)
no_failures = map (λ p. (p, 0))

unfoldable pub new_manager : List Text → ℕ → ℕ → ProxyManager
new_manager proxy_list threshold cooldown =
    let proxies = map strip (keep (λ p. not (is_empty (strip p))) proxy_list) in
    record {
      proxies = proxies;
      failure_threshold = threshold;
      cooldown_seconds = cooldown;
      proxy_failures = no_failures proxies;
      proxy_cooldowns = [];
    }

abbrev pub is_available : ℕ → ProxyManager → Text → Bool
is_available now m p =
    ltb (get_or_zero p m.proxy_failures) m.failure_threshold
    && ltb (get_or_zero p m.proxy_cooldowns) now

unfoldable pub available : ℕ → ProxyManager → List Text
unfolding get_entry
available now m = keep (is_available now m) m.proxies

unfoldable pub reset_health : ProxyManager → ProxyManager
reset_health m = record m { proxy_failures = no_failures m.proxies; proxy_cooldowns = [] }

-- `choice` is given a list that is not empty.
unfoldable pub get_proxy : (List Text → Text) → ℕ → ProxyManager → Option Text × ProxyManager
unfolding available reset_health
get_proxy choice now m =
    if is_empty m.proxies
    then (none, m)
    else if is_empty (available now m)
    then (some (choice m.proxies), reset_health m)
    else (some (choice (available now m)), m)

unfoldable pub report_failure : ℕ → Text → ProxyManager → ProxyManager
unfolding set_entry get_entry
report_failure now p m =
    let count = get_or_zero p m.proxy_failures + 1 in
    let counted = record m { proxy_failures = set_entry p count m.proxy_failures } in
    if is_empty p
    then m
    else if leb m.failure_threshold count
    then record counted {
      proxy_cooldowns = set_entry p (now + m.cooldown_seconds) m.proxy_cooldowns;
    }
    else counted

unfoldable pub report_success : Text → ProxyManager → ProxyManager
unfolding set_entry get_entry
report_success p m = if is_empty p then m else elim (get_entry p m.proxy_failures) [
  | none ↦ m
  | some n ↦
      if ltb 0 n then record m { proxy_failures = set_entry p (n - 1) m.proxy_failures } else m
]
