-- ===== src/Alerts/Scope.antt =====
-- What a caller is shown (app/security/scope.py, app/api/routes/alerts.py).
use mathlib.Core.List.{append-nil}
use duka_scraper.Base.{
  ℕ, suc, zero, ◌≡◌, refl, inl, inr, String, Bool, true, false, ◌&&◌, Option, none, some, List, [],
  ◌∷◌, map, any, keep, take, drop, ◌==◌, nat_eq, string_eq, eq_iff, arith, All, AnyOf, All-keep,
  Bool-cases,
}
use duka_scraper.Jobs.{Job}
use duka_scraper.Auth.{is_admin}
use duka_scraper.Api.{Reply}
use duka_scraper.Alerts.{
  Alert, AlertTables, is_system, is_listed, alert_scope, is_of_job, list_alerts, insert_latest,
  latest_first, is_later, is_unread, count_unread_alerts, mark_all_alerts_read, alert_in_scope,
}
use duka_scraper.Alerts.Routes.{
  Caller, FeedQuery, FeedItem, feed_item, get_job_ids_for_user, visible_job_ids, get_alerts,
  get_unread_count, read_all_alerts, read_one_alert,
}

module _ (P : Alert → Type 0) where
  All-insert_latest : (a : Alert) (xs : List Alert) → P a → All P xs → All P (insert_latest a xs)
  unfolding insert_latest
  All-insert_latest a [] h hs = (h, tt)
  All-insert_latest a (x ∷ xs) h (hx, hs) = elim (Bool-cases (is_later x a)) [
    | inl later ↦ rw later (hx, All-insert_latest a xs h hs)
    | inr not_later ↦ rw not_later (h, (hx, hs))
  ]

  All-latest_first : (xs : List Alert) → All P xs → All P (latest_first xs)
  unfolding latest_first
  All-latest_first [] hs = tt
  All-latest_first (x ∷ xs) (hx, hs) =
      All-insert_latest x (latest_first xs) hx (All-latest_first xs hs)

  All-take : (n : ℕ) (xs : List Alert) → All P xs → All P (take n xs)
  All-take zero xs hs = tt
  All-take (suc n) [] hs = tt
  All-take (suc n) (x ∷ xs) (hx, hs) = (hx, All-take n xs hs)

  All-drop : (n : ℕ) (xs : List Alert) → All P xs → All P (drop n xs)
  All-drop zero xs hs = hs
  All-drop (suc n) [] hs = tt
  All-drop (suc n) (x ∷ xs) (hx, hs) = All-drop n xs hs

  All-feed :
      (u : Caller) (db : AlertTables) (xs : List Alert)
      → All P xs
      → All (λ (i : FeedItem). P i.alert) (map (feed_item u db) xs)
  All-feed u db [] hs = tt
  All-feed u db (x ∷ xs) (hx, hs) = (hx, All-feed u db xs hs)

-- The caller has started a job whose finding the alert reports.
abbrev pub IsOwnFinding : Caller → List Job → Alert → Type 0
IsOwnFinding u jobs a =
    (is_system a.alert_type ≡ false)
    × AnyOf (λ (j : Job). (j.user_id ≡ u.user_id) × (a.job_id ≡ some j.job_id)) jobs

owned_job :
    (u : Caller) (jobs : List Job) (o : Option String)
    → is_of_job (get_job_ids_for_user u.user_id jobs) o ≡ true
    → AnyOf (λ (j : Job). (j.user_id ≡ u.user_id) × (o ≡ some j.job_id)) jobs
unfolding get_job_ids_for_user
owned_job u jobs none h = cc
owned_job u [] (some i) h = cc
owned_job u (j ∷ jobs) (some i) h = elim (Bool-cases (j.user_id == u.user_id)) [
  | inr other ↦ inr (owned_job u jobs (some i) (ground (arith, h, other)))
  | inl own ↦ elim (Bool-cases (i == j.job_id)) [
    | inl same ↦ inl (ground (arith, own, same, eq_iff j.user_id u.user_id, eq_iff i j.job_id))
    | inr differs ↦ inr (owned_job u jobs (some i) (ground (arith, h, own, differs)))
  ]
]

-- Whatever is asked for, the feed of a caller who is no administrator shows only findings of jobs
-- that this caller has started, and no alert of the system.
pub feed_shows_own :
    (u : Caller) (q : FeedQuery) (jobs : List Job) (db : AlertTables)
    → is_admin u.role ≡ false
    → All (λ (i : FeedItem). IsOwnFinding u jobs i.alert) (get_alerts u q jobs db).items
unfolding get_alerts list_alerts visible_job_ids alert_scope
feed_shows_own u q jobs db low =
    let scope = some (get_job_ids_for_user u.user_id jobs) in
    let p = is_listed u.user_id scope q.unread_only q.min_severity q.alert_type db.alert_reads in
    let own = IsOwnFinding u jobs in
    rw low (
      All-feed own u db _ (
        All-take own q.limit _ (
          All-drop own q.offset _ (
            All-latest_first own (keep p db.alerts) (
              All-keep p own
                (λ a shown.
                  (ground (arith, shown), owned_job u jobs a.job_id (ground (arith, shown))))
                db.alerts)))))

abbrev pub OwnsNone : Caller → List Job → Type 0
OwnsNone u jobs = All (λ (j : Job). (j.user_id == u.user_id) ≡ false) jobs

no_job_ids :
    (u : Caller) (jobs : List Job) → OwnsNone u jobs → get_job_ids_for_user u.user_id jobs ≡ []
unfolding get_job_ids_for_user
no_job_ids u [] h = refl
no_job_ids u (j ∷ jobs) (hj, h) = ground (arith, hj, no_job_ids u jobs h)

of_no_job : (o : Option String) → is_of_job [] o ≡ false
of_no_job none = refl
of_no_job (some i) = refl

not_in_scope :
    (alert_id : ℕ) (xs : List Alert)
    → any (λ a. a.alert_id == alert_id && is_of_job [] a.job_id) xs ≡ false
not_in_scope alert_id [] = refl
not_in_scope alert_id (x ∷ xs) = ground (arith, of_no_job x.job_id, not_in_scope alert_id xs)

keep_nothing : (p : Alert → Bool) (xs : List Alert) → ((a : Alert) → p a ≡ false) → keep p xs ≡ []
keep_nothing p [] h = refl
keep_nothing p (x ∷ xs) h = ground (arith, h x, keep_nothing p xs h)

empty_page :
    (u : Caller) (db : AlertTables) (limit offset : ℕ)
    → map (feed_item u db) (take limit (drop offset [])) ≡ []
empty_page u db zero zero = refl
empty_page u db zero (suc m) = refl
empty_page u db (suc n) zero = refl
empty_page u db (suc n) (suc m) = refl

-- A caller who is no administrator and has started no job sees nothing and changes nothing: the
-- feed is empty for every query, its total and the badge are 0, reading all alerts marks none, and
-- every single alert is refused with 404.
pub no_jobs_no_alerts :
    (u : Caller) (q : FeedQuery) (alert_id : ℕ) (jobs : List Job) (db : AlertTables)
    → is_admin u.role ≡ false
    → OwnsNone u jobs
    → ((get_alerts u q jobs db).items ≡ [])
      × ((get_alerts u q jobs db).total ≡ 0)
      × (get_unread_count u jobs db ≡ 0)
      × ((read_all_alerts u jobs db).0 ≡ 0)
      × ((read_all_alerts u jobs db).1.alert_reads ≡ db.alert_reads)
      × (read_one_alert u alert_id jobs db ≡ (Reply.refused 404 "Alert not found", db))
unfolding get_alerts list_alerts latest_first get_unread_count count_unread_alerts read_all_alerts
    mark_all_alerts_read read_one_alert visible_job_ids alert_in_scope alert_scope
no_jobs_no_alerts u q alert_id jobs db low none_own =
    let ids = no_job_ids u jobs none_own in
    let listed =
      keep_nothing
        (is_listed u.user_id (some []) q.unread_only q.min_severity q.alert_type db.alert_reads)
        db.alerts (λ a. ground (arith, of_no_job a.job_id)) in
    let unread =
      keep_nothing (is_unread u.user_id (some []) db.alert_reads) db.alerts
        (λ a. ground (arith, of_no_job a.job_id)) in
    (
      rw (low, ids, listed) (empty_page u db q.limit q.offset),
      rw (low, ids, listed) refl,
      rw (low, ids, unread) refl,
      rw (low, ids, unread) refl,
      rw (low, ids, unread) (append-nil db.alert_reads),
      rw (low, ids, not_in_scope alert_id db.alerts) refl,
    )
