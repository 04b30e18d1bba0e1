-- ===== src/Alerts/Routes.antt =====
-- Raising alerts (app/services/alert_service.py), whose rows a caller may see
-- (app/security/scope.py), and the routes of app/api/routes/alerts.py. The mails of the service and
-- the short summaries are left out.
use duka_scraper.Base.{
  ℕ, ◌+◌, String, Bool, false, ◌&&◌, Option, none, some, List, [], map, keep, length, ltb, leb,
  ◌==◌, nat_eq, string_eq, if◌then◌else◌,
}
use duka_scraper.Jobs.{Job, coalesce}
use duka_scraper.Accounts.{Role}
use duka_scraper.Api.{Reply}
use duka_scraper.Auth.{is_admin}
use duka_scraper.Alerts.{
  Alert, AlertType, AlertTables, Finding, is_read, upsert_alert, insert_system_alert, list_alerts,
  count_unread_alerts, alert_in_scope, mark_alert_read, mark_all_alerts_read,
}

abbrev pub min_alert_severity : ℕ
min_alert_severity = 4

abbrev pub max_severity : ℕ
max_severity = 5

abbrev pub system_alert_severity : ℕ
system_alert_severity = 3

-- `none` where `int` fails; a negative number is as good as 0 here.
unfoldable pub qualifies_as_alert : Option ℕ → ℕ → Bool
qualifies_as_alert none minimum = false
qualifies_as_alert (some severity) minimum = leb minimum severity && leb severity max_severity

unfoldable pub alert_priority : ℕ → AlertType → String
alert_priority severity AlertType.system = "system"
alert_priority severity AlertType.threat =
    if leb 5 severity then "critical" else if severity == 4 then "high" else "low"

-- The severity of the row is what `int` gives.
unfoldable pub record_alert : ℕ → ℕ → Option ℕ → Finding → AlertTables → Option ℕ × AlertTables
unfolding qualifies_as_alert upsert_alert
record_alert now next_id none f db = (none, db)
record_alert now next_id (some severity) f db =
    if qualifies_as_alert (some severity) min_alert_severity
    then (let (alert_id, db') = upsert_alert now next_id (record f { severity = severity }) db in
        (some alert_id, db'))
    else (none, db)

-- `none` is an argument that is not given.
unfoldable pub record_system_alert :
    ℕ
    → ℕ
    → String
    → String
    → String
    → Option String
    → Option ℕ
    → Option (List String)
    → AlertTables
    → Option ℕ × AlertTables
unfolding insert_system_alert
record_system_alert now next_id dedupe_key title summary category severity entities db =
    insert_system_alert now next_id dedupe_key title summary (coalesce category "system")
      (coalesce severity system_alert_severity) (coalesce entities []) db

-- The caller, as `get_current_user` gives it.
pub record Caller : Type 0 where
  pub user_id : String
  pub role : Role

unfoldable pub get_job_ids_for_user : String → List Job → List String
get_job_ids_for_user user_id jobs = map (λ j. j.job_id) (keep (λ j. j.user_id == user_id) jobs)

-- `none` is no restriction.
unfoldable pub visible_job_ids : Caller → List Job → Option (List String)
unfolding get_job_ids_for_user
visible_job_ids u jobs =
    if is_admin u.role then none else some (get_job_ids_for_user u.user_id jobs)

pub record FeedQuery : Type 0 where
  pub alert_type : Option AlertType
  pub unread_only : Bool
  pub min_severity : ℕ
  pub limit : ℕ
  pub offset : ℕ

pub record FeedItem : Type 0 where
  pub alert : Alert
  pub read : Bool
  pub priority : String

pub record Feed : Type 0 where
  pub items : List FeedItem
  pub total : ℕ
  pub has_more : Bool

abbrev pub feed_item : Caller → AlertTables → Alert → FeedItem
feed_item u db a = record {
  alert = a;
  read = is_read u.user_id db.alert_reads a;
  priority = alert_priority a.severity a.alert_type;
}

unfoldable pub get_alerts : Caller → FeedQuery → List Job → AlertTables → Feed
unfolding visible_job_ids list_alerts alert_priority
get_alerts u q jobs db =
    let (page, total) =
      list_alerts u.user_id (visible_job_ids u jobs) q.unread_only q.min_severity q.limit q.offset
        q.alert_type db in
    record {
      items = map (feed_item u db) page;
      total = total;
      has_more = ltb (q.offset + length (map (feed_item u db) page)) total;
    }

unfoldable pub get_unread_count : Caller → List Job → AlertTables → ℕ
unfolding visible_job_ids count_unread_alerts
get_unread_count u jobs db = count_unread_alerts u.user_id (visible_job_ids u jobs) db

unfoldable pub read_all_alerts : Caller → List Job → AlertTables → ℕ × AlertTables
unfolding visible_job_ids mark_all_alerts_read
read_all_alerts u jobs db = mark_all_alerts_read u.user_id (visible_job_ids u jobs) db

unfoldable pub read_one_alert : Caller → ℕ → List Job → AlertTables → Reply (Unit {0}) × AlertTables
unfolding visible_job_ids alert_in_scope mark_alert_read
read_one_alert u alert_id jobs db =
    if alert_in_scope alert_id (visible_job_ids u jobs) db
    then (Reply.ok tt, (mark_alert_read u.user_id alert_id db).1)
    else (Reply.refused 404 "Alert not found", db)
