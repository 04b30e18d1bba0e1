-- ===== src/Workers/Tests.antt =====
-- Deliveries of crawl requests to the three groups of workers, and instances of their theorems.
use duka_scraper.Base.{◌≡◌, refl, true, false, none, some, [], ◌∷◌, arith, eq_iff}
use duka_scraper.Jobs.{Status, Job, Db, get_job}
use duka_scraper.Jobs.Settle.{complete_job_task}
use duka_scraper.Workers.{Fields, Message}
use duka_scraper.Workers.Deliveries.{deliver, settled_once, unassigned_settles_each}

abbrev request : Fields
request = record { job_id = some "JOB1"; url = some "https://a.et/"; worker_type = some "deep" }

abbrev busy : Job
busy = record {
  job_id = "JOB1";
  user_id = "USR1";
  url = "https://a.et/";
  language = "am";
  status = Status.running;
  assignment_reason = none;
  created_at = 1;
  completed_at = none;
  active_tasks = 4;
  resume_status = none;
}

abbrev db : Db
db = record { jobs = busy ∷ []; crawl_log = []; events = [] }

settled_once_example :
    deliver
      ((5, "surface") ∷ (6, "deep") ∷ (7, "dark") ∷ [])
      (Message.object request)
      true
      (some "crash")
      db
    ≡ (complete_job_task 6 "JOB1" true (some "crash") db).1
settled_once_example =
    settled_once ((5, "surface") ∷ []) ((7, "dark") ∷ []) 6 request "deep" "JOB1" true
      (some "crash") db refl refl (λ e. ground (arith, eq_iff "deep" "surface"), tt)
      (λ e. ground (arith, eq_iff "deep" "dark"), tt)

unassigned_settles_each_example :
    get_job "JOB1" (
      deliver
        ((5, "surface") ∷ (6, "deep") ∷ (7, "dark") ∷ [])
        (Message.object (record request { worker_type = none }))
        false
        none
        db)
    ≡ some (record busy { active_tasks = 1 })
unfolding get_job
unassigned_settles_each_example =
    unassigned_settles_each ((5, "surface") ∷ (6, "deep") ∷ (7, "dark") ∷ [])
      (record request { worker_type = none }) "JOB1" db busy refl refl refl refl (omega arith)
