-- ===== src/Jobs.antt =====
-- The tables `jobs` and `crawl_log` and the methods of `PostgreSQLClient` that move a job through
-- its states (app/storage/postgres/client.py). A method takes the time, the database and its
-- arguments and returns the database and its result; a connected pool is taken for granted.
pub mod Settle
pub mod Effects
pub mod Runs
pub mod Lifecycle
pub mod Accounting
pub mod Pause
mod Tests
use duka_scraper.Base.{
  ℕ, ◌+◌, String, Bool, true, false, ◌&&◌, Option, none, some, List, [], ◌∷◌, ◌++◌, any, ◌==◌,
  string_eq, if◌then◌else◌,
}
use duka_scraper.Base.Table.{select, update, returning}
use duka_scraper.CrawlLog.{LogEntry}

-- The statuses that the table's check admits.
pub data Status : Type 0 where
  pending running paused completed failed skipped needs_review : Status

pub record Job : Type 0 where
  pub job_id : String
  pub user_id : String
  pub url : String
  pub language : String
  pub status : Status
  pub assignment_reason : Option String
  pub created_at : ℕ
  pub completed_at : Option ℕ
  pub active_tasks : ℕ
  pub resume_status : Option Status

-- What `_publish_job_event` puts on the channel.
pub record Event : Type 0 where
  pub event : String
  pub job_id : String
  pub status : Status

pub record Db : Type 0 where
  pub jobs : List Job
  pub crawl_log : List LogEntry
  pub events : List Event

-- `status IN ('pending', 'running', 'needs_review')`
abbrev pub is_active : Status → Bool
is_active Status.pending = true
is_active Status.running = true
is_active Status.needs_review = true
is_active _ = false

-- `status in ("completed", "failed", "skipped", "needs_review")`
abbrev pub is_final : Status → Bool
is_final Status.completed = true
is_final Status.failed = true
is_final Status.skipped = true
is_final Status.needs_review = true
is_final _ = false

abbrev pub is_completed : Status → Bool
is_completed Status.completed = true
is_completed _ = false

abbrev pub is_failed : Status → Bool
is_failed Status.failed = true
is_failed _ = false

abbrev pub is_paused : Status → Bool
is_paused Status.paused = true
is_paused _ = false

-- `COALESCE(a, b)`
abbrev pub coalesce {ℓ} : {A : Type ℓ} → Option A → A → A
coalesce none d = d
coalesce (some a) d = a

abbrev pub key : Job → String
key j = j.job_id

unfoldable pub get_job : String → Db → Option Job
get_job job_id db = select key job_id db.jobs

abbrev pub publish : String → String → Status → Db → Db
publish event job_id status db = record db {
  events = db.events ++ record { event = event; job_id = job_id; status = status } ∷ [];
}

-- The id is the one that the column's default generates; `none` is the key's conflict.
unfoldable pub create_job :
    ℕ → String → String → String → String → Option String → Db → Option (Job × Db)
unfolding get_job
create_job now job_id user_id url language reason db =
    let row : Job = record {
      job_id = job_id;
      user_id = user_id;
      url = url;
      language = language;
      status = Status.pending;
      assignment_reason = reason;
      created_at = now;
      completed_at = none;
      active_tasks = 0;
      resume_status = none;
    } in
    elim (get_job job_id db) [
      | some _ ↦ none
      | none ↦ some (
        row,
        publish "job_created" job_id Status.pending (record db { jobs = db.jobs ++ row ∷ [] }),
      )
    ]

-- The three `UPDATE` statements of `update_job_status`: their guards and what they set.
abbrev pub status_guard : Status → Status → Bool
status_guard Status.completed old = true
status_guard new old =
    if is_final new then (if is_completed old then false else true) else is_active old

abbrev pub write_status : ℕ → Status → Job → Job
write_status now new j =
    if is_final new
    then record j { status = new; completed_at = some (coalesce j.completed_at now) }
    else record j { status = new }

unfoldable pub update_job_status : ℕ → String → Status → Db → Db
update_job_status now job_id status db = publish "job_status" job_id status (record db {
  jobs = update key job_id (λ j. status_guard status j.status) (write_status now status) db.jobs;
})

abbrev pub write_pause : Job → Job
write_pause j = record j { resume_status = some j.status; status = Status.paused }

abbrev current_status : String → List Job → Option Status
current_status job_id jobs = elim (select key job_id jobs) [ none ↦ none | some j ↦ some j.status ]

-- The result is a status, or `none` for the empty text of a job that is not there.
unfoldable pub pause_job : String → Db → Option Status × Db
pause_job job_id db =
    let jobs = update key job_id (λ j. is_active j.status) write_pause db.jobs in
    let row = returning key job_id (λ j. is_active j.status) write_pause db.jobs in
    (
      elim row [ some _ ↦ some Status.paused | none ↦ current_status job_id jobs ],
      record db { jobs = jobs },
    )

abbrev pub resumed : Option Status → Status
resumed none = Status.running
resumed (some s) = if is_active s then s else Status.running

abbrev pub write_resume : Job → Job
write_resume j = record j { status = resumed j.resume_status; resume_status = none }

unfoldable pub resume_job : String → Db → Option Status × Db
resume_job job_id db =
    let jobs = update key job_id (λ j. is_paused j.status) write_resume db.jobs in
    let row = returning key job_id (λ j. is_paused j.status) write_resume db.jobs in
    (
      elim row [ some j ↦ some j.status | none ↦ current_status job_id jobs ],
      record db { jobs = jobs },
    )

unfoldable pub is_job_paused : String → Db → Bool
unfolding get_job
is_job_paused job_id db = elim (get_job job_id db) [ none ↦ false | some j ↦ is_paused j.status ]

-- A count of zero or less is the early return; the counts of the callers are lengths.
unfoldable pub register_job_tasks : String → ℕ → Db → Db
register_job_tasks job_id count db = record db {
  jobs =
      update key job_id (λ j. true) (λ j. record j { active_tasks = j.active_tasks + count })
        db.jobs;
}

-- `EXISTS (SELECT 1 FROM crawl_log WHERE … AND status = 'completed')`
unfoldable pub has_completed_page : String → List LogEntry → Bool
has_completed_page job_id log = any (λ e. e.job_id == job_id && e.status == "completed") log

abbrev pub failure_entry : String → String → String → LogEntry
failure_entry job_id event_type details = record {
  job_id = job_id;
  item_id = none;
  url = "";
  worker_type = "worker";
  event_type = event_type;
  status = "failed";
  retry_count = 0;
  details = some details;
}

abbrev pub log_entry : LogEntry → Db → Db
log_entry e db = record db { crawl_log = db.crawl_log ++ e ∷ [] }
