-- ===== src/Jobs/Tests.antt =====
-- Runs of the methods on the jobs' tables, and instances of their theorems.
use duka_scraper.Base.{ℕ, ◌≡◌, refl, true, false, Option, none, some, arith, List, [], ◌∷◌}
use duka_scraper.CrawlLog.{LogEntry, describe_groups}
use duka_scraper.Jobs.{
  Status, Job, Db, get_job, pause_job, resume_job, update_job_status, has_completed_page,
}
use duka_scraper.Jobs.Runs.{Op, apply, run}
use duka_scraper.Jobs.Lifecycle.{Edge, apply-Edge, run-completed, IsValid, run-IsValid}
use duka_scraper.Jobs.Accounting.{settlements, settlements_end_job}
use duka_scraper.Jobs.Pause.{
  resume-settlements-pause, failures, failures_while_paused, failed_comes_back,
}

abbrev job_in : Status → Option ℕ → ℕ → Job
job_in status completed_at tasks = record {
  job_id = "JOB1";
  user_id = "USR1";
  url = "https://example.com/";
  language = "am";
  status = status;
  assignment_reason = none;
  created_at = 10;
  completed_at = completed_at;
  active_tasks = tasks;
  resume_status = none;
}

abbrev page_done : LogEntry
page_done = record {
  job_id = "JOB1";
  item_id = some "ITEM1";
  url = "https://example.com/";
  worker_type = "surface";
  event_type = "page_stored";
  status = "completed";
  retry_count = 0;
  details = none;
}

abbrev db_of : Job → Db
db_of j = record { jobs = j ∷ []; crawl_log = page_done ∷ []; events = [] }

abbrev working : Job
working = job_in Status.running none 2

abbrev finished : Job
finished = job_in Status.completed (some 50) 0

abbrev calls : List (ℕ × Op)
calls =
    (60, Op.fail "JOB1" "deep" "" "late crash" none "worker_error")
    ∷ (61, Op.settle "JOB1" true (some "late"))
    ∷ (62, Op.pause "JOB1")
    ∷ (63, Op.set_status "JOB1" Status.running)
    ∷ []

describe_runs :
    describe_groups (
      record { event_type = "fetch_failed"; status = "failed"; n = 3 }
      ∷ record { event_type = "dns_error"; status = "failed"; n = 1 }
      ∷ [])
    ≡ "Every request failed (dns_error, fetch_failed) — no content could be retrieved"
unfolding describe_groups
describe_runs = refl

apply-Edge_example :
    (r' : Job) × (get_job "JOB1" (apply 20 (Op.pause "JOB1") (db_of working)) ≡ some r')
    × Edge Status.running r'.status
unfolding get_job
apply-Edge_example = apply-Edge 20 (Op.pause "JOB1") "JOB1" (db_of working) working refl

run-completed_example :
    (r' : Job) × (get_job "JOB1" (run calls (db_of finished)) ≡ some r')
    × ((r'.status ≡ Status.completed) × (r'.completed_at ≡ some 50))
unfolding get_job
run-completed_example = run-completed calls "JOB1" (db_of finished) finished 50 refl refl refl

finished-IsValid : IsValid finished
finished-IsValid = record { stamped = λ _. cc; resumable = λ s h. cc }

run-IsValid_example :
    (r' : Job) × (get_job "JOB1" (run calls (db_of finished)) ≡ some r') × IsValid r'
unfolding get_job
run-IsValid_example = run-IsValid calls "JOB1" (db_of finished) finished refl finished-IsValid

settlements_end_job_example :
    (get_job "JOB1" (run (settlements "JOB1" (20 ∷ [])) (db_of working))
      ≡ some (record working { active_tasks = 1 }))
    × (get_job "JOB1" (
          apply 30
            (Op.settle "JOB1" false none)
            (run (settlements "JOB1" (20 ∷ [])) (db_of working)))
        ≡ some (record working {
          active_tasks = 0;
          status = Status.completed;
          completed_at = some 30;
        }))
unfolding get_job has_completed_page
settlements_end_job_example =
    settlements_end_job (20 ∷ []) 30 "JOB1" (db_of working) working refl refl refl

resume-settlements-pause_example :
    get_job "JOB1"
      (resume_job "JOB1"
        (run (settlements "JOB1" (20 ∷ 21 ∷ [])) (pause_job "JOB1" (db_of working)).1)).1
    ≡ some (record working { active_tasks = 0; resume_status = none })
unfolding get_job
resume-settlements-pause_example =
    resume-settlements-pause (20 ∷ 21 ∷ []) "JOB1" (db_of working) working refl refl

failures_while_paused_example :
    let back =
      (resume_job "JOB1"
        (run (failures "JOB1" ((20, some "crash") ∷ [])) (pause_job "JOB1" (db_of working)).1)).1 in
    (get_job "JOB1" back ≡ some working)
    × (get_job "JOB1" (run (settlements "JOB1" (30 ∷ [])) back)
        ≡ some (record working { active_tasks = 1 }))
unfolding get_job
failures_while_paused_example =
    failures_while_paused ((20, some "crash") ∷ []) (30 ∷ []) "JOB1" (db_of working) working refl
      refl (omega arith) refl

failed_comes_back_example :
    get_job "JOB1" (
      update_job_status 61 "JOB1" Status.running (
        update_job_status 60 "JOB1" Status.needs_review (db_of (job_in Status.failed (some 50) 0))))
    ≡ some (job_in Status.running (some 50) 0)
unfolding get_job
failed_comes_back_example =
    failed_comes_back 60 61 50 "JOB1" (db_of (job_in Status.failed (some 50) 0))
      (job_in Status.failed (some 50) 0) refl refl refl
