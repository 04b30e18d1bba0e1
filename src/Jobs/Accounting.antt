-- ===== src/Jobs/Accounting.antt =====
-- The counter `active_tasks`: when the settlements of a crawl's messages end its job
-- (`complete_job_task`, app/storage/postgres/client.py).
use duka_scraper.Base.{
  ℕ, ◌+◌, ◌-◌, ◌<◌, ◌∙◌, ◌≡◌, String, true, false, none, some, List, [], ◌∷◌, arith, ==_refl,
  string_eq, length, if◌then◌else◌,
}
use duka_scraper.Jobs.{Status, Job, Db, is_active, get_job, has_completed_page}
use duka_scraper.Jobs.Settle.{settle_done, complete_job_task, write_settled}
use duka_scraper.Jobs.Effects.{get_job-settle_done}
use duka_scraper.Jobs.Runs.{Op, apply, run, get_job-apply}

-- The result of a settlement, and the row that it leaves.
pub settle_done_lem :
    (now : ℕ) (j : String) (db : Db) (r : Job)
    → get_job j db ≡ some r
    → let r' = write_settled now (has_completed_page j db.crawl_log) r in
      ((settle_done now j db).0 ≡ some r'.status) × (get_job j (settle_done now j db).1 ≡ some r')
unfolding settle_done get_job
settle_done_lem now j db r h =
    (ground arith, ground (arith, get_job-settle_done j j now db, ==_refl j))

-- Above one task a settlement of an active job leaves the log alone.
crawl_log-settle_done :
    (now : ℕ) (j : String) (db : Db) (r : Job)
    → get_job j db ≡ some r
    → is_active r.status ≡ true
    → 1 < r.active_tasks
    → (settle_done now j db).1.crawl_log ≡ db.crawl_log
unfolding settle_done get_job
crawl_log-settle_done now j db r h a m = ground arith

-- The settlements of `j` at the times `ts`, none of them a failure.
abbrev pub settlements : String → List ℕ → List (ℕ × Op)
settlements j [] = []
settlements j (t ∷ ts) = (t, Op.settle j false none) ∷ settlements j ts

settle_one :
    (now : ℕ) (j : String) (db : Db) (r : Job)
    → get_job j db ≡ some r
    → is_active r.status ≡ true
    → 1 < r.active_tasks
    → get_job j (apply now (Op.settle j false none) db)
      ≡ some (record r { active_tasks = r.active_tasks - 1 })
settle_one now j db r h a m =
    ground (arith, get_job-apply now (Op.settle j false none) j db r h, ==_refl j)

-- The same of a call by itself.
pub settle_task :
    (now : ℕ) (j : String) (db : Db) (r : Job)
    → get_job j db ≡ some r
    → is_active r.status ≡ true
    → 1 < r.active_tasks
    → get_job j (complete_job_task now j false none db).1
      ≡ some (record r { active_tasks = r.active_tasks - 1 })
unfolding complete_job_task
settle_task now j db r h a m = ground (arith, get_job-settle_done j j now db, ==_refl j)

crawl_log-settle_one :
    (now : ℕ) (j : String) (db : Db) (r : Job)
    → get_job j db ≡ some r
    → is_active r.status ≡ true
    → 1 < r.active_tasks
    → (apply now (Op.settle j false none) db).crawl_log ≡ db.crawl_log
unfolding apply complete_job_task
crawl_log-settle_one now j db r h a m = crawl_log-settle_done now j db r h a m

-- As long as tasks remain an active job keeps its status, and the log is as it was.
pub run-settlements :
    (ts : List ℕ) (j : String) (db : Db) (r : Job)
    → get_job j db ≡ some r
    → is_active r.status ≡ true
    → length ts < r.active_tasks
    → (get_job j (run (settlements j ts) db)
        ≡ some (record r { active_tasks = r.active_tasks - length ts }))
      × ((run (settlements j ts) db).crawl_log ≡ db.crawl_log)
unfolding run
run-settlements [] j db r h a m = ground arith
run-settlements (t ∷ ts) j db r h a m =
    let one = settle_one t j db r h a (omega arith) in
    let log = crawl_log-settle_one t j db r h a (omega arith) in
    let (row, kept) =
      run-settlements ts j (apply t (Op.settle j false none) db) _ one a (omega arith) in
    (ground arith, kept ∙ log)

-- When the tasks of an active job settle one after the other, none of them as failed and with no
-- other call in between, they end it exactly with the last task: before that the status stands,
-- and the last one, at time `t`, completes the job if some page of it was logged as completed, and
-- fails it otherwise.
pub settlements_end_job :
    (ts : List ℕ) (t : ℕ) (j : String) (db : Db) (r : Job)
    → get_job j db ≡ some r
    → is_active r.status ≡ true
    → length ts + 1 ≡ r.active_tasks
    → (get_job j (run (settlements j ts) db) ≡ some (record r { active_tasks = 1 }))
      × (get_job j (apply t (Op.settle j false none) (run (settlements j ts) db))
          ≡ some (record r {
            active_tasks = 0;
            status = if has_completed_page j db.crawl_log then Status.completed else Status.failed;
            completed_at = some t;
          }))
settlements_end_job ts t j db r h a m =
    let (row, kept) = run-settlements ts j db r h a (omega arith) in
    let before : get_job j (run (settlements j ts) db) ≡ some (record r { active_tasks = 1 }) =
      ground arith in
    (
      before,
      ground (
        arith,
        get_job-apply t (Op.settle j false none) j (run (settlements j ts) db) _ before,
        ==_refl j,
      ),
    )
