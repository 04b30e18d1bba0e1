-- ===== src/Jobs/Settle.antt =====
-- How a crawl message ends: `complete_job_task` and `fail_job` (app/storage/postgres/client.py).
-- The insertions into `crawl_log` and the alert are the code's best effort, here without failure.
use duka_scraper.Base.{
  ℕ, ◌-◌, String, Bool, true, false, ◌&&◌, Option, none, some, leb, ◌==◌, string_eq, if◌then◌else◌,
}
use duka_scraper.Base.Table.{update, returning}
use duka_scraper.CrawlLog.{truncate, text_or, describe_empty_result}
use duka_scraper.Jobs.{
  Status, Job, Db, is_active, is_completed, is_failed, coalesce, key, publish, update_job_status,
  has_completed_page, failure_entry, log_entry,
}

-- `status NOT IN ('completed', 'paused')`
abbrev pub may_fail : Status → Bool
may_fail Status.completed = false
may_fail Status.paused = false
may_fail _ = true

-- `GREATEST(active_tasks - 1, 0)` is the truncated difference.
abbrev pub write_failure : ℕ → Job → Job
write_failure now j = record j {
  status = Status.failed;
  completed_at = some (coalesce j.completed_at now);
  active_tasks = j.active_tasks - 1;
}

-- `active_tasks <= 1 AND status IN (...)`
abbrev pub is_last_task : Job → Bool
is_last_task j = leb j.active_tasks 1 && is_active j.status

abbrev pub write_settled : ℕ → Bool → Job → Job
write_settled now produced j = record j {
  active_tasks = j.active_tasks - 1;
  status =
      if is_last_task j then (if produced then Status.completed else Status.failed) else j.status;
  completed_at = if is_last_task j then some now else j.completed_at;
}

abbrev pub status_of : Option Job → Option Status
status_of none = none
status_of (some j) = some j.status

-- The event is published when the row ended as completed or failed.
abbrev pub announce : String → Option Status → Db → Db
announce job_id none db = db
announce job_id (some s) db =
    if is_completed s
    then publish "job_status" job_id s db
    else if is_failed s
    then publish "job_status" job_id s db
    else db

-- The branch `failed=True`, with its reason if one is given.
unfoldable pub settle_failed : ℕ → String → Option String → Db → Option Status × Db
settle_failed now job_id reason db =
    let row = returning key job_id (λ j. may_fail j.status) (write_failure now) db.jobs in
    let written = record db {
      jobs = update key job_id (λ j. may_fail j.status) (write_failure now) db.jobs;
    } in
    let logged : Db = elim reason [
      | none ↦ written
      | some text ↦
          if text == ""
          then written
          else log_entry (failure_entry job_id "task_failed" (truncate 2000 text)) written
    ] in
    (status_of row, announce job_id (status_of row) logged)

-- The other branch. A job that ends as failed, now or before, has its empty result explained.
unfoldable pub settle_done : ℕ → String → Db → Option Status × Db
settle_done now job_id db =
    let produced = has_completed_page job_id db.crawl_log in
    let row = returning key job_id (λ j. true) (write_settled now produced) db.jobs in
    let written = record db {
      jobs = update key job_id (λ j. true) (write_settled now produced) db.jobs;
    } in
    let logged : Db = elim (status_of row) [
      | none ↦ written
      | some s ↦
          if is_failed s
          then log_entry
              (failure_entry job_id "all_sites_failed" (describe_empty_result job_id db.crawl_log))
              written
          else written
    ] in
    (status_of row, announce job_id (status_of row) logged)

unfoldable pub complete_job_task : ℕ → String → Bool → Option String → Db → Option Status × Db
unfolding settle_failed settle_done
complete_job_task now job_id failed reason db =
    if failed then settle_failed now job_id reason db else settle_done now job_id db

-- The alert that `fail_job` raises is left to the alerts.
unfoldable pub fail_job : ℕ → String → String → String → String → Option String → String → Db → Db
unfolding update_job_status
fail_job now job_id worker_type url reason item_id event_type db =
    update_job_status now job_id Status.failed (
      log_entry
        (record {
          job_id = job_id;
          item_id = item_id;
          url = url;
          worker_type = worker_type;
          event_type = event_type;
          status = "failed";
          retry_count = 0;
          details = some (truncate 2000 (text_or "unknown error" reason));
        })
        db)
