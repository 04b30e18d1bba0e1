-- ===== src/Alerts/Badge.antt =====
-- The number of unread alerts, the feed, and the markers (app/storage/postgres/client.py).
use duka_scraper.Base.{
  ℕ, ◌≡◌, refl, ap, String, Bool, true, false, not, ◌&&◌, ◌||◌, Option, none, List, [], ◌∷◌, ◌++◌,
  map, any, keep, length, ◌==◌, nat_eq, string_eq, ==_refl, eq_iff, arith, All,
}
use duka_scraper.Alerts.{
  Alert, AlertRead, AlertTables, is_read, is_unread, is_listed, marker, list_alerts,
  count_unread_alerts, mark_all_alerts_read,
}

keep_ext :
    (p q : Alert → Bool) (xs : List Alert) → ((a : Alert) → p a ≡ q a) → keep p xs ≡ keep q xs
keep_ext p q [] h = refl
keep_ext p q (a ∷ xs) h = ground (arith, h a, keep_ext p q xs h)

any-append :
    (p : AlertRead → Bool) (xs ys : List AlertRead) → any p (xs ++ ys) ≡ (any p xs || any p ys)
any-append p [] ys = refl
any-append p (x ∷ xs) ys = ground (arith, any-append p xs ys)

abbrev has_id : ℕ → Alert → Bool
has_id alert_id x = x.alert_id == alert_id

is_read_marked :
    (u : String) (xs : List Alert) (a : Alert)
    → is_read u (map (marker u) xs) a ≡ any (has_id a.alert_id) xs
is_read_marked u [] a = refl
is_read_marked u (x ∷ xs) a = ground (arith, eq_iff u u, is_read_marked u xs a)

marked_for_other :
    (u v : String) (xs : List Alert) (a : Alert)
    → (u == v) ≡ false
    → is_read v (map (marker u) xs) a ≡ false
marked_for_other u v [] a other = refl
marked_for_other u v (x ∷ xs) a other = ground (arith, other, marked_for_other u v xs a other)

-- What passes the test is among the rows that have what is kept.
kept_among :
    (p : Alert → Bool) (ys xs : List Alert)
    → ((n : ℕ) → any (has_id n) (keep p xs) ≡ true → any (has_id n) ys ≡ true)
    → All (λ a. (not (p a) || any (has_id a.alert_id) ys) ≡ true) xs
kept_among p ys [] h = tt
kept_among p ys (x ∷ xs) h = (
  ground (arith, ==_refl x.alert_id, h x.alert_id),
  kept_among p ys xs (λ n e. h n (ground (arith, e))),
)

none_kept : (p : Alert → Bool) (xs : List Alert) → All (λ a. p a ≡ false) xs → keep p xs ≡ []
none_kept p [] h = refl
none_kept p (x ∷ xs) (hx, h) = ground (arith, hx, none_kept p xs h)

All-map : (P Q : Alert → Type 0) (xs : List Alert) → ((a : Alert) → P a → Q a) → All P xs → All Q xs
All-map P Q [] f h = tt
All-map P Q (x ∷ xs) f (hx, h) = (f x hx, All-map P Q xs f h)

-- Who marks all as read has no unread alert left, the answer is the number that the badge showed,
-- and nobody else's badge changes, whatever the others may see.
pub mark_all_alerts_read_lem :
    (u : String) (s : Option (List String)) (db : AlertTables) (v : String)
    (s' : Option (List String))
    → (u == v) ≡ false
    → let (marked, db') = mark_all_alerts_read u s db in
      (marked ≡ count_unread_alerts u s db)
      × (count_unread_alerts u s db' ≡ 0)
      × (count_unread_alerts v s' db' ≡ count_unread_alerts v s' db)
unfolding mark_all_alerts_read count_unread_alerts
mark_all_alerts_read_lem u s db v s' other =
    let unread = keep (is_unread u s db.alert_reads) db.alerts in
    let reads = db.alert_reads ++ map (marker u) unread in
    let cleared = none_kept (is_unread u s reads) db.alerts (
      All-map _ (λ a. is_unread u s reads a ≡ false) db.alerts
        (λ a seen. ground (
          arith,
          seen,
          is_read_marked u unread a,
          any-append (λ r. r.alert_id == a.alert_id && r.user_id == u) db.alert_reads
              (map (marker u) unread),
        ))
        (kept_among (is_unread u s db.alert_reads) unread db.alerts (λ n e. e))) in
    let same = keep_ext (is_unread v s' reads) (is_unread v s' db.alert_reads) db.alerts (λ a.
      ground (
        arith,
        marked_for_other u v unread a other,
        any-append (λ r. r.alert_id == a.alert_id && r.user_id == v) db.alert_reads
            (map (marker u) unread),
      )) in
    (refl, rw cleared refl, rw same refl)

-- The badge is the total of the feed of unread alerts of severity four and more, whatever page of
-- it is asked for.
pub count_unread_alerts-list_alerts :
    (u : String) (s : Option (List String)) (limit offset : ℕ) (db : AlertTables)
    → count_unread_alerts u s db ≡ (list_alerts u s true 4 limit offset none db).1
unfolding count_unread_alerts list_alerts
count_unread_alerts-list_alerts u s limit offset db = ap length (
    keep_ext (is_unread u s db.alert_reads) (is_listed u s true 4 none db.alert_reads) db.alerts
      (λ a. ground arith))
