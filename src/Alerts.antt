-- ===== src/Alerts.antt =====
-- The tables alerts and alert_reads: the methods of `PostgreSQLClient` on them
-- (app/storage/postgres/client.py), app/services/alert_service.py, and the routes of
-- app/api/routes/alerts.py.
pub mod Routes
pub mod Badge
pub mod Items
pub mod Scope
mod Tests
use duka_scraper.Base.{
  ℕ, ◌+◌, String, Bool, true, false, not, ◌&&◌, ◌||◌, Option, none, some, List, [], ◌∷◌, ◌++◌, map,
  any, find, keep, take, drop, length, ltb, leb, ◌==◌, nat_eq, string_eq, contains, if◌then◌else◌,
}

pub data AlertType : Type 0 where
  threat system : AlertType

-- `alert_id` is the number of the sequence, which the text of the id pads with zeros.
pub record Alert : Type 0 where
  pub alert_id : ℕ
  pub alert_type : AlertType
  pub job_id : Option String
  pub item_id : String
  pub url : String
  pub title : String
  pub category : String
  pub severity : ℕ
  pub language : String
  pub summary : String
  pub entities : List String
  pub analysis_source : String
  pub llm_model : String
  pub created_at : ℕ

pub record AlertRead : Type 0 where
  pub alert_id : ℕ
  pub user_id : String

pub record AlertTables : Type 0 where
  pub alerts : List Alert
  pub alert_reads : List AlertRead

-- What a model found in an item, as `upsert_alert` takes it.
pub record Finding : Type 0 where
  pub job_id : String
  pub item_id : String
  pub url : String
  pub title : String
  pub category : String
  pub severity : ℕ
  pub language : String
  pub summary : String
  pub entities : List String
  pub analysis_source : String
  pub llm_model : String

abbrev pub has_item : String → Alert → Bool
has_item item_id a = a.item_id == item_id

abbrev pub write_finding : Finding → Alert → Alert
write_finding f a = record a {
  job_id = some f.job_id;
  url = f.url;
  title = f.title;
  category = f.category;
  severity = f.severity;
  language = f.language;
  summary = f.summary;
  entities = f.entities;
  analysis_source = f.analysis_source;
  llm_model = f.llm_model;
}

abbrev pub new_alert : ℕ → ℕ → Finding → Alert
new_alert now next_id f = record {
  alert_id = next_id;
  alert_type = AlertType.threat;
  job_id = some f.job_id;
  item_id = f.item_id;
  url = f.url;
  title = f.title;
  category = f.category;
  severity = f.severity;
  language = f.language;
  summary = f.summary;
  entities = f.entities;
  analysis_source = f.analysis_source;
  llm_model = f.llm_model;
  created_at = now;
}

-- `source or "llm"`
abbrev pub source_or_llm : String → String
source_or_llm source = if source == "" then "llm" else source

abbrev pub with_source : Finding → Finding
with_source f = record f { analysis_source = source_or_llm f.analysis_source }

-- `INSERT … ON CONFLICT (item_id) DO UPDATE … RETURNING alert_id`
unfoldable pub upsert_alert : ℕ → ℕ → Finding → AlertTables → ℕ × AlertTables
upsert_alert now next_id f db = elim (find (has_item f.item_id) db.alerts) [
  | some a ↦ (
    a.alert_id,
    record db {
      alerts =
          map (λ x. if has_item f.item_id x then write_finding (with_source f) x else x) db.alerts;
    },
  )
  | none ↦ (next_id, record db { alerts = db.alerts ++ new_alert now next_id (with_source f) ∷ [] })
]

-- `INSERT … ON CONFLICT (item_id) DO NOTHING RETURNING alert_id`
unfoldable pub insert_system_alert :
    ℕ
    → ℕ
    → String
    → String
    → String
    → String
    → ℕ
    → List String
    → AlertTables
    → Option ℕ × AlertTables
insert_system_alert now next_id dedupe_key title summary category severity entities db =
    if any (has_item dedupe_key) db.alerts then (none, db) else (
      some next_id,
      record db {
        alerts =
            db.alerts
            ++ record {
              alert_id = next_id;
              alert_type = AlertType.system;
              job_id = none;
              item_id = dedupe_key;
              url = "";
              title = title;
              category = category;
              severity = severity;
              language = "";
              summary = summary;
              entities = entities;
              analysis_source = "system";
              llm_model = "";
              created_at = now;
            }
              ∷ [];
      },
    )

abbrev pub is_system : AlertType → Bool
is_system AlertType.system = true
is_system AlertType.threat = false

abbrev pub is_of_job : List String → Option String → Bool
is_of_job job_ids none = false
is_of_job job_ids (some job_id) = contains job_ids job_id

-- The clause of `_alert_scope`: none for an administrator.
unfoldable pub alert_scope : Option (List String) → Alert → Bool
alert_scope none a = true
alert_scope (some job_ids) a = not (is_system a.alert_type) && is_of_job job_ids a.job_id

abbrev pub is_severe : ℕ → Alert → Bool
is_severe minimum a = is_system a.alert_type || leb minimum a.severity

-- `ar.alert_id IS NOT NULL`
abbrev pub is_read : String → List AlertRead → Alert → Bool
is_read user_id reads a = any (λ r. r.alert_id == a.alert_id && r.user_id == user_id) reads

abbrev pub has_type : Option AlertType → Alert → Bool
has_type none a = true
has_type (some AlertType.system) a = is_system a.alert_type
has_type (some AlertType.threat) a = not (is_system a.alert_type)

abbrev pub is_listed :
    String → Option (List String) → Bool → ℕ → Option AlertType → List AlertRead → Alert → Bool
is_listed user_id job_ids unread_only minimum alert_type reads a =
    is_severe minimum a
    && alert_scope job_ids a
    && has_type alert_type a
    && not (unread_only && is_read user_id reads a)

-- `ORDER BY a.created_at DESC, a.alert_id DESC`
abbrev pub is_later : Alert → Alert → Bool
is_later a b =
    ltb b.created_at a.created_at || a.created_at == b.created_at && ltb b.alert_id a.alert_id

unfoldable pub insert_latest : Alert → List Alert → List Alert
insert_latest a [] = a ∷ []
insert_latest a (b ∷ bs) =
    let rest = insert_latest a bs in if is_later b a then b ∷ rest else a ∷ b ∷ bs

unfoldable pub latest_first : List Alert → List Alert
unfolding insert_latest
latest_first [] = []
latest_first (a ∷ as') = insert_latest a (latest_first as')

-- The page and the total; the type is `none` for "all".
unfoldable pub list_alerts :
    String
    → Option (List String)
    → Bool
    → ℕ
    → ℕ
    → ℕ
    → Option AlertType
    → AlertTables
    → List Alert × ℕ
unfolding latest_first
list_alerts user_id job_ids unread_only minimum limit offset alert_type db =
    let listed =
      keep (is_listed user_id job_ids unread_only minimum alert_type db.alert_reads) db.alerts in
    (take limit (drop offset (latest_first listed)), length listed)

abbrev pub is_unread : String → Option (List String) → List AlertRead → Alert → Bool
is_unread user_id job_ids reads a =
    is_severe 4 a && alert_scope job_ids a && not (is_read user_id reads a)

unfoldable pub count_unread_alerts : String → Option (List String) → AlertTables → ℕ
count_unread_alerts user_id job_ids db =
    length (keep (is_unread user_id job_ids db.alert_reads) db.alerts)

unfoldable pub get_alert : ℕ → AlertTables → Option Alert
get_alert alert_id db = find (λ a. a.alert_id == alert_id) db.alerts

unfoldable pub alert_in_scope : ℕ → Option (List String) → AlertTables → Bool
alert_in_scope alert_id none db = any (λ a. a.alert_id == alert_id) db.alerts
alert_in_scope alert_id (some job_ids) db =
    any (λ a. a.alert_id == alert_id && is_of_job job_ids a.job_id) db.alerts

-- The marker is there afterwards, once; its time is left out. An id of no alert is an error of the
-- foreign key, which the callers exclude.
unfoldable pub mark_alert_read : String → ℕ → AlertTables → Bool × AlertTables
mark_alert_read user_id alert_id db = (
  true,
  if any (λ r. r.alert_id == alert_id && r.user_id == user_id) db.alert_reads
      then db
      else record db {
        alert_reads = db.alert_reads ++ record { alert_id = alert_id; user_id = user_id } ∷ [];
      },
)

abbrev pub marker : String → Alert → AlertRead
marker user_id a = record { alert_id = a.alert_id; user_id = user_id }

-- The number is that of the markers; the keys of the alerts differ.
unfoldable pub mark_all_alerts_read : String → Option (List String) → AlertTables → ℕ × AlertTables
mark_all_alerts_read user_id job_ids db =
    let unread = keep (is_unread user_id job_ids db.alert_reads) db.alerts in
    (length unread, record db { alert_reads = db.alert_reads ++ map (marker user_id) unread })
