-- ===== src/Alerts/Tests.antt =====
-- A job of one user, two alerts, and the theorems on them.
use duka_scraper.Base.{◌≡◌, refl, false, none, some, [], ◌∷◌, All, find, keep, string_eq}
use duka_scraper.Jobs.{Job}
use duka_scraper.Jobs
use duka_scraper.Accounts.{Role}
use duka_scraper.Alerts.{
  Alert, AlertTables, Finding, has_item, new_alert, with_source, count_unread_alerts,
  mark_all_alerts_read,
}
use duka_scraper.Alerts.Badge.{mark_all_alerts_read_lem}
use duka_scraper.Alerts.Items.{alert_of, record_alert_once}
use duka_scraper.Alerts.Routes.{
  Caller, FeedQuery, FeedItem, get_alerts, record_alert, qualifies_as_alert,
}
use duka_scraper.Alerts.Scope.{IsOwnFinding, feed_shows_own}

abbrev job : Job
job = record {
  job_id = "J1";
  user_id = "USR00001";
  url = "https://example.et";
  language = "am";
  status = Jobs.Status.running;
  assignment_reason = none;
  created_at = 0;
  completed_at = none;
  active_tasks = 1;
  resume_status = none;
}

abbrev finding : Finding
finding = record {
  job_id = "J1";
  item_id = "I1";
  url = "https://example.et/a";
  title = "a";
  category = "hate";
  severity = 5;
  language = "am";
  summary = "s";
  entities = [];
  analysis_source = "";
  llm_model = "m";
}

abbrev raised : Alert
raised = new_alert 10 1 (with_source finding)

abbrev tables : AlertTables
tables = record {
  alerts = raised ∷ record raised { alert_id = 2; item_id = "I2"; job_id = some "J2" } ∷ [];
  alert_reads = record { alert_id = 1; user_id = "USR00002" } ∷ [];
}

abbrev owner : Caller
owner = record { user_id = "USR00001"; role = Role.user }

abbrev stranger : Caller
stranger = record { user_id = "USR00003"; role = Role.user }

abbrev everything : FeedQuery
everything = record {
  alert_type = none;
  unread_only = false;
  min_severity = 1;
  limit = 50;
  offset = 0;
}

mark_all_alerts_read_lem_example :
    let (marked, db') = mark_all_alerts_read "USR00001" (some ("J1" ∷ [])) tables in
    (marked ≡ count_unread_alerts "USR00001" (some ("J1" ∷ [])) tables)
    × (count_unread_alerts "USR00001" (some ("J1" ∷ [])) db' ≡ 0)
    × (count_unread_alerts "USR00002" none db' ≡ count_unread_alerts "USR00002" none tables)
mark_all_alerts_read_lem_example =
    mark_all_alerts_read_lem "USR00001" (some ("J1" ∷ [])) tables "USR00002" none refl

record_alert_once_example :
    let (answer, db') = record_alert 20 3 (some 4) finding tables in
    (answer ≡ some 1)
    × (find (has_item "I1") db'.alerts ≡ some (alert_of 20 3 4 finding (some raised)))
    × (keep (has_item "I2") db'.alerts ≡ keep (has_item "I2") tables.alerts)
    × (record_alert 30 4 (some 4) finding db' ≡ (answer, db'))
unfolding qualifies_as_alert
record_alert_once_example = record_alert_once 20 3 30 4 4 finding tables "I2" refl refl

feed_shows_own_example :
    All
      (λ (i : FeedItem). IsOwnFinding owner (job ∷ []) i.alert)
      (get_alerts owner everything (job ∷ []) tables).items
feed_shows_own_example = feed_shows_own owner everything (job ∷ []) tables refl
