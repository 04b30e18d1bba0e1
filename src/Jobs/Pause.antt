-- ===== src/Jobs/Pause.antt =====
-- Pausing and resuming a job (`pause_job`, `resume_job`, app/storage/postgres/client.py), and what
-- becomes of the messages that end while it is paused.
use duka_scraper.Base.{
  ℕ, ◌+◌, ◌-◌, ◌≤◌, ◌≡◌, refl, String, true, false, Option, none, some, List, [], ◌∷◌, arith,
  ==_refl, string_eq, length,
}
use duka_scraper.Base.Table.{update, select-update}
use duka_scraper.Jobs.{
  Status, Job, Db, is_active, key, get_job, pause_job, resume_job, write_pause, update_job_status,
}
use duka_scraper.Jobs.Effects.{get_job-update_job_status, get_job-pause_job, get_job-resume_job}
use duka_scraper.Jobs.Runs.{Op, apply, run, get_job-apply}
use duka_scraper.Jobs.Accounting.{settlements, run-settlements}

-- While a job is paused its settlements only count down.
paused_settlements :
    (ts : List ℕ) (j : String) (db : Db) (r : Job)
    → get_job j db ≡ some r
    → r.status ≡ Status.paused
    → get_job j (run (settlements j ts) db)
      ≡ some (record r { active_tasks = r.active_tasks - length ts })
unfolding run
paused_settlements [] j db r h p = ground arith
paused_settlements (t ∷ ts) j db r h p =
    let one : get_job j (apply t (Op.settle j false none) db)
        ≡ some (record r { active_tasks = r.active_tasks - 1 }) =
      ground (arith, get_job-apply t (Op.settle j false none) j db r h, ==_refl j) in
    let rest = paused_settlements ts j (apply t (Op.settle j false none) db) _ one p in ground arith

pause_row :
    (j : String) (db : Db) (r : Job)
    → get_job j db ≡ some r
    → is_active r.status ≡ true
    → get_job j (pause_job j db).1 ≡ some (write_pause r)
pause_row j db r h a = ground (arith, get_job-pause_job j j db, ==_refl j)

-- An active job that is paused, loses any number of tasks to settlements, and is resumed, has its
-- status of before the pause and as many tasks fewer; nothing else of its row has changed.
pub resume-settlements-pause :
    (ts : List ℕ) (j : String) (db : Db) (r : Job)
    → get_job j db ≡ some r
    → is_active r.status ≡ true
    → get_job j (resume_job j (run (settlements j ts) (pause_job j db).1)).1
      ≡ some (record r { active_tasks = r.active_tasks - length ts; resume_status = none })
resume-settlements-pause ts j db r h a = ground (
  arith,
  get_job-resume_job j j (run (settlements j ts) (pause_job j db).1),
  paused_settlements ts j (pause_job j db).1 (write_pause r) (pause_row j db r h a) refl,
  ==_refl j,
)

-- When every task of an active job settles during a pause, the resumed job is active with no task
-- left: no message remains whose settlement would complete it.
pub drained_while_paused :
    (ts : List ℕ) (j : String) (db : Db) (r : Job)
    → get_job j db ≡ some r
    → is_active r.status ≡ true
    → length ts ≡ r.active_tasks
    → (r' : Job) × (get_job j (resume_job j (run (settlements j ts) (pause_job j db).1)).1
        ≡ some r')
      × (is_active r'.status ≡ true)
      × (r'.active_tasks ≡ 0)
drained_while_paused ts j db r h a n = (_, resume-settlements-pause ts j db r h a, a, omega arith)

-- Failures of tasks of `j`, each with its time and its reason.
abbrev pub failures : String → List (ℕ × Option String) → List (ℕ × Op)
failures j [] = []
failures j ((t, reason) ∷ ts) = (t, Op.settle j true reason) ∷ failures j ts

paused_failures :
    (ts : List (ℕ × Option String)) (j : String) (db : Db) (r : Job)
    → get_job j db ≡ some r
    → r.status ≡ Status.paused
    → get_job j (run (failures j ts) db) ≡ some r
unfolding run
paused_failures [] j db r h p = h
paused_failures ((t, reason) ∷ ts) j db r h p =
    let one : get_job j (apply t (Op.settle j true reason) db) ≡ some r =
      ground (arith, get_job-apply t (Op.settle j true reason) j db r h, ==_refl j) in
    paused_failures ts j (apply t (Op.settle j true reason) db) r one p

-- Tasks that fail while their job is paused are lost: an active job that is paused, has some tasks
-- fail and is resumed has the status and the tasks of before; and when all of its other tasks have
-- settled, none of them as failed and with no other call in between, it still has that status, with
-- as many tasks outstanding as failed.
pub failures_while_paused :
    (ts : List (ℕ × Option String)) (us : List ℕ) (j : String) (db : Db) (r : Job)
    → get_job j db ≡ some r
    → is_active r.status ≡ true
    → 1 ≤ length ts
    → length ts + length us ≡ r.active_tasks
    → let back = (resume_job j (run (failures j ts) (pause_job j db).1)).1 in
      (get_job j back ≡ some (record r { resume_status = none }))
      × (get_job j (run (settlements j us) back)
          ≡ some (record r { active_tasks = length ts; resume_status = none }))
failures_while_paused ts us j db r h a some_fail total =
    let paused = (pause_job j db).1 in
    let back = (resume_job j (run (failures j ts) paused)).1 in
    let row : get_job j back ≡ some (record r { resume_status = none }) = ground (
      arith,
      get_job-resume_job j j (run (failures j ts) paused),
      paused_failures ts j paused (write_pause r) (pause_row j db r h a) refl,
      ==_refl j,
    ) in
    let (rest, log) =
      run-settlements us j back (record r { resume_status = none }) row a (omega arith) in
    (row, ground (arith, rest))

update_pause_twice :
    (j : String) (rows : List Job)
    → let once = update key j (λ r. is_active r.status) write_pause rows in
      update key j (λ r. is_active r.status) write_pause once ≡ once
update_pause_twice j [] = refl
update_pause_twice j (r ∷ rows) = ground (arith, update_pause_twice j rows)

-- Pausing a job twice answers as pausing it once, and leaves the same tables.
pub pause_job_idem :
    (j : String) (db : Db) (r : Job)
    → get_job j db ≡ some r
    → is_active r.status ≡ true
    → pause_job j (pause_job j db).1 ≡ pause_job j db
unfolding pause_job get_job
pause_job_idem j db r h a = ground (
  arith,
  update_pause_twice j db.jobs,
  select-update key j j (λ r. is_active r.status) write_pause (λ r. refl) db.jobs,
  ==_refl j,
)

-- A failed job is not final: a message that it needs review and then one that it runs bring it
-- back; it keeps the time at which it ended, and all of its row but the status.
pub failed_comes_back :
    (t u ended : ℕ) (j : String) (db : Db) (r : Job)
    → get_job j db ≡ some r
    → r.status ≡ Status.failed
    → r.completed_at ≡ some ended
    → get_job j
        (update_job_status u j Status.running (update_job_status t j Status.needs_review db))
      ≡ some (record r { status = Status.running; completed_at = some ended })
failed_comes_back t u ended j db r h f e = ground (
  arith,
  get_job-update_job_status j j u Status.running (update_job_status t j Status.needs_review db),
  get_job-update_job_status j j t Status.needs_review db,
  ==_refl j,
)
