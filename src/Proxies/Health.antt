-- ===== src/Proxies/Health.antt =====
-- Which proxies `get_proxy` gives (app/common/proxy_manager.py), and what failures do to that.
use duka_scraper.Base.{
  ℕ, ◌+◌, ◌≤◌, ◌≡◌, refl, Bool, true, false, ◌⊎◌, some, List, [], ◌∷◌, keep, arith, leb, length,
  contains, inl, inr, Bool-cases,
}
use duka_scraper.Base.Text.{Text, text_eq, text_beq_iff, is_empty}
use duka_scraper.Proxies.{
  ProxyManager, get_entry, set_entry, get_or_zero, is_available, available, reset_health, get_proxy,
  report_failure,
}

get_entry-set_entry :
    (p : Text) (n : ℕ) (d : List (Text × ℕ)) → get_entry p (set_entry p n d) ≡ some n
unfolding get_entry set_entry
get_entry-set_entry p n [] = ground (arith, text_beq_iff p p)
get_entry-set_entry p n ((q, m) ∷ d) = ground (arith, get_entry-set_entry p n d)

-- A run of failures of one proxy, at the given times.
unfoldable pub report_failures : List ℕ → Text → ProxyManager → ProxyManager
report_failures [] p m = m
report_failures (now ∷ ts) p m = report_failures ts p (report_failure now p m)

report_failure-count :
    (now : ℕ) (p : Text) (m : ProxyManager)
    → is_empty p ≡ false
    → let m' = report_failure now p m in
      (get_or_zero p m'.proxy_failures ≡ get_or_zero p m.proxy_failures + 1)
      × (m'.failure_threshold ≡ m.failure_threshold)
unfolding report_failure
report_failure-count now p m given =
    let count = get_or_zero p m.proxy_failures + 1 in
    let set = get_entry-set_entry p count m.proxy_failures in
    elim (Bool-cases (leb m.failure_threshold count)) [
      | inl enough ↦ (ground arith, ground arith)
      | inr few ↦ (ground arith, ground arith)
    ]

contains-keep :
    (f : Text → Bool) (p : Text) (xs : List Text) → contains (keep f xs) p ≡ true → f p ≡ true
contains-keep f p [] h = ground arith
contains-keep f p (x ∷ xs) h = elim (Bool-cases (f x)) [
  | inl good ↦ ground (arith, contains-keep f p xs, text_beq_iff p x)
  | inr bad ↦ ground (arith, contains-keep f p xs)
]

-- When the failures of a proxy, one after the other and with no other call in between, reach the
-- threshold, the proxy is not available after them, at whatever time: the end of its cooldown does
-- not bring it back.
pub failed_proxy_stays_out :
    (ts : List ℕ) (p : Text) (m : ProxyManager) (now : ℕ)
    → is_empty p ≡ false
    → m.failure_threshold ≤ get_or_zero p m.proxy_failures + length ts
    → contains (available now (report_failures ts p m)) p ≡ false
unfolding report_failures available
failed_proxy_stays_out [] p m now given enough = elim (Bool-cases (contains (available now m) p)) [
  | inl in_list ↦ let good = contains-keep (is_available now m) p m.proxies in_list in ground arith
  | inr out ↦ out
]
failed_proxy_stays_out (t ∷ ts) p m now given enough =
    let (count, same) = report_failure-count t p m given in
    failed_proxy_stays_out ts p (report_failure t p m) now given (omega (arith, count, same))

is_empty-nil : (xs : List Text) → is_empty xs ≡ true → xs ≡ []
is_empty-nil [] h = refl
is_empty-nil (x ∷ xs) h = ground arith

-- With at least one proxy configured `get_proxy` always gives one of them: an available one, with
-- the health as it was, or any of them after the health was reset because none was available.
pub get_proxy_lem :
    (choice : List Text → Text) (now : ℕ) (m : ProxyManager)
    → ((xs : List Text) → is_empty xs ≡ false → contains xs (choice xs) ≡ true)
    → is_empty m.proxies ≡ false
    → (p : Text) × ((get_proxy choice now m).0 ≡ some p)
      × (((get_proxy choice now m).1 ≡ m) × (contains (available now m) p ≡ true)
          ⊎ ((get_proxy choice now m).1 ≡ reset_health m)
            × (available now m ≡ [])
            × (contains m.proxies p ≡ true))
unfolding get_proxy
get_proxy_lem choice now m fair some_proxy = elim (Bool-cases (is_empty (available now m))) [
  | inl nothing ↦ (
    choice m.proxies,
    ground arith,
    inr (ground arith, is_empty-nil (available now m) nothing, fair m.proxies some_proxy),
  )
  | inr something ↦
      (choice (available now m), ground arith, inl (ground arith, fair (available now m) something))
]
