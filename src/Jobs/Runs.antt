-- ===== src/Jobs/Runs.antt =====
-- Sequences of calls on the jobs' tables, as the API and the workers make them in any order, and
-- the diagram of the statuses (app/storage/postgres/client.py).
use mathlib.Core.Option
use duka_scraper.Base.{
  ℕ, ◌+◌, ◌≡◌, ap, ◌∙◌, ◌&&◌, String, Bool, true, false, Option, none, some, List, [], ◌∷◌, ◌++◌,
  arith, ◌==◌, string_eq, eq_iff, if◌then◌else◌, Option-cases, inl, inr,
}
use duka_scraper.Base.Table.{select}
use duka_scraper.Jobs.{
  Status, Job, Db, is_active, key, get_job, create_job, update_job_status, pause_job, resume_job,
  register_job_tasks, has_completed_page, write_pause, write_resume, write_status, status_guard,
  is_paused,
}
use duka_scraper.Jobs.Settle.{complete_job_task, fail_job, write_failure, write_settled, may_fail}
use duka_scraper.Jobs.Effects.{
  get_job-update_job_status, get_job-pause_job, get_job-resume_job, get_job-register_job_tasks,
  get_job-settle_failed, get_job-settle_done, get_job-fail_job,
}

-- A call of one of the methods that write the tables.
pub data Op : Type 0 where
  create : (job_id user_id url language : String) → Option String → Op
  set_status : String → Status → Op
  pause resume : String → Op
  register : String → ℕ → Op
  settle : String → Bool → Option String → Op
  fail : (job_id worker_type url reason : String) → Option String → String → Op

-- A conflict of the key is an exception, and leaves the tables alone.
abbrev created : Option (Job × Db) → Db → Db
created none db = db
created (some (_, db')) db = db'

unfoldable pub apply : ℕ → Op → Db → Db
apply now (Op.create i u url lang reason) db = created (create_job now i u url lang reason db) db
apply now (Op.set_status i s) db = update_job_status now i s db
apply now (Op.pause i) db = (pause_job i db).1
apply now (Op.resume i) db = (resume_job i db).1
apply now (Op.register i n) db = register_job_tasks i n db
apply now (Op.settle i failed reason) db = (complete_job_task now i failed reason db).1
apply now (Op.fail i w url reason item event) db = fail_job now i w url reason item event db

-- Each call comes with the time at which it is made.
unfoldable pub run : List (ℕ × Op) → Db → Db
run [] db = db
run ((now, op) ∷ ops) db = run ops (apply now op db)

-- What a call does to the row of job `j`, once it is there: one case for each method.
abbrev pub row_effect : ℕ → Bool → Op → String → Job → Job
row_effect now produced (Op.create i u url lang reason) j r = r
row_effect now produced (Op.set_status i s) j r =
    if i == j && status_guard s r.status then write_status now s r else r
row_effect now produced (Op.pause i) j r = if i == j && is_active r.status then write_pause r else r
row_effect now produced (Op.resume i) j r =
    if i == j && is_paused r.status then write_resume r else r
row_effect now produced (Op.register i n) j r =
    if i == j && true then record r { active_tasks = r.active_tasks + n } else r
row_effect now produced (Op.settle i true reason) j r =
    if i == j && may_fail r.status then write_failure now r else r
row_effect now produced (Op.settle i false reason) j r =
    if i == j && true then write_settled now produced r else r
row_effect now produced (Op.fail i w url reason item event) j r =
    if i == j && status_guard Status.failed r.status then write_status now Status.failed r else r

pub select-append :
    (j : String) (rows more : List Job) (r : Job)
    → select key j rows ≡ some r
    → select key j (rows ++ more) ≡ some r
select-append j [] more r h = cc
select-append j (x ∷ rows) more r h = ground (arith, select-append j rows more r)

get_job-create :
    (now : ℕ) (i u url lang : String) (reason : Option String) (j : String) (db : Db) (r : Job)
    → get_job j db ≡ some r
    → get_job j (apply now (Op.create i u url lang reason) db) ≡ some r
unfolding apply create_job get_job
get_job-create now i u url lang reason j db r h = elim (Option-cases (select key i db.jobs)) [
  | inl fresh ↦ rw (fresh, get_job, apply, created, create_job) (select-append j db.jobs _ r h)
  | inr (x, taken) ↦ rw (taken, get_job, apply, created, create_job) h
]

-- A call acts on a job that is there by its row alone.
pub get_job-apply :
    (now : ℕ) (op : Op) (j : String) (db : Db) (r : Job)
    → get_job j db ≡ some r
    → get_job j (apply now op db) ≡ some (row_effect now (has_completed_page j db.crawl_log) op j r)
unfolding apply complete_job_task
get_job-apply now (Op.create i u url lang reason) j db r h =
    unfold apply in get_job-create now i u url lang reason j db r h
get_job-apply now (Op.set_status i s) j db r h =
    get_job-update_job_status j i now s db ∙ ap (Option.map _) h
get_job-apply now (Op.pause i) j db r h = get_job-pause_job j i db ∙ ap (Option.map _) h
get_job-apply now (Op.resume i) j db r h = get_job-resume_job j i db ∙ ap (Option.map _) h
get_job-apply now (Op.register i n) j db r h =
    get_job-register_job_tasks j i n db ∙ ap (Option.map _) h
get_job-apply now (Op.settle i true reason) j db r h =
    get_job-settle_failed j i now reason db ∙ ap (Option.map _) h
get_job-apply now (Op.settle i false reason) j db r h =
    ground (arith, get_job-settle_done j i now db, eq_iff i j)
get_job-apply now (Op.fail i w url reason item event) j db r h =
    get_job-fail_job j i now w url reason item event db ∙ ap (Option.map _) h

-- A property of rows that every call keeps holds after every run, of a job that is still there.
pub run_keeps {ℓ} :
    (P : Job → Type ℓ) (j : String)
    → ((now : ℕ) (produced : Bool) (op : Op) (r : Job) → P r → P (row_effect now produced op j r))
    → (ops : List (ℕ × Op)) (db : Db) (r : Job) → get_job j db ≡ some r
    → P r
    → (r' : Job) × (get_job j (run ops db) ≡ some r') × P r'
unfolding run
run_keeps P j keep [] db r h p = (r, h, p)
run_keeps P j keep ((now, op) ∷ ops) db r h p =
    run_keeps P j keep ops (apply now op db) _ (get_job-apply now op j db r h)
      (keep now (has_completed_page j db.crawl_log) op r p)
