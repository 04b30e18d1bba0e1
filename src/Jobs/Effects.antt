-- ===== src/Jobs/Effects.antt =====
-- What each method leaves of the row of every job: the form in which the proofs use the methods of
-- `PostgreSQLClient` on `jobs` (app/storage/postgres/client.py).
use mathlib.Core.Option
use duka_scraper.Base.{
  ℕ, ◌+◌, ◌≡◌, refl, String, true, ◌&&◌, Option, arith, ◌==◌, string_eq, if◌then◌else◌,
}
use duka_scraper.Base.Table.{select-update}
use duka_scraper.Jobs.{
  Status, Db, is_active, is_paused, key, get_job, update_job_status, status_guard, write_status,
  pause_job, write_pause, resume_job, write_resume, register_job_tasks, has_completed_page,
}
use duka_scraper.Jobs.Settle.{
  may_fail, write_failure, write_settled, settle_failed, settle_done, fail_job,
}

module _ (j k : String) where
  pub get_job-update_job_status :
      (now : ℕ) (s : Status) (db : Db)
      → get_job j (update_job_status now k s db)
        ≡ Option.map
            (λ r. if k == j && status_guard s r.status then write_status now s r else r)
            (get_job j db)
  unfolding get_job update_job_status
  get_job-update_job_status now s db =
      select-update key j k (λ r. status_guard s r.status) (write_status now s) (λ r. ground arith)
        db.jobs

  pub get_job-pause_job :
      (db : Db)
      → get_job j (pause_job k db).1
        ≡ Option.map (λ r. if k == j && is_active r.status then write_pause r else r) (get_job j db)
  unfolding get_job pause_job
  get_job-pause_job db =
      select-update key j k (λ r. is_active r.status) write_pause (λ r. refl) db.jobs

  pub get_job-resume_job :
      (db : Db)
      → get_job j (resume_job k db).1
        ≡ Option.map
            (λ r. if k == j && is_paused r.status then write_resume r else r)
            (get_job j db)
  unfolding get_job resume_job
  get_job-resume_job db =
      select-update key j k (λ r. is_paused r.status) write_resume (λ r. refl) db.jobs

  pub get_job-register_job_tasks :
      (n : ℕ) (db : Db)
      → get_job j (register_job_tasks k n db)
        ≡ Option.map
            (λ r. if k == j && true then record r { active_tasks = r.active_tasks + n } else r)
            (get_job j db)
  unfolding get_job register_job_tasks
  get_job-register_job_tasks n db =
      select-update key j k (λ r. true) (λ r. record r { active_tasks = r.active_tasks + n })
        (λ r. refl) db.jobs

  pub get_job-settle_failed :
      (now : ℕ) (reason : Option String) (db : Db)
      → get_job j (settle_failed now k reason db).1
        ≡ Option.map
            (λ r. if k == j && may_fail r.status then write_failure now r else r)
            (get_job j db)
  unfolding get_job settle_failed
  get_job-settle_failed now reason db = ground (
    arith,
    select-update key j k (λ r. may_fail r.status) (write_failure now) (λ r. refl) db.jobs,
  )

  pub get_job-settle_done :
      (now : ℕ) (db : Db)
      → get_job j (settle_done now k db).1
        ≡ Option.map
            (λ r.
              if k == j && true then write_settled now (has_completed_page k db.crawl_log) r else r)
            (get_job j db)
  unfolding get_job settle_done
  get_job-settle_done now db = ground (
    arith,
    select-update key j k (λ r. true) (write_settled now (has_completed_page k db.crawl_log))
        (λ r. refl) db.jobs,
  )

  pub get_job-fail_job :
      (now : ℕ) (worker url reason : String) (item : Option String) (event : String) (db : Db)
      → get_job j (fail_job now k worker url reason item event db)
        ≡ Option.map
            (λ r.
              if k == j && status_guard Status.failed r.status
              then write_status now Status.failed r
              else r)
            (get_job j db)
  unfolding get_job fail_job
  get_job-fail_job now worker url reason item event db =
      select-update key j k (λ r. status_guard Status.failed r.status)
        (write_status now Status.failed) (λ r. refl) db.jobs
