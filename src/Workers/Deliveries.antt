-- ===== src/Workers/Deliveries.antt =====
-- A message of the topic reaches every group of workers (workers/common.py): how often its task is
-- settled.
use duka_scraper.Base.{
  ℕ, suc, sym, ◌-◌, ◌<◌, ◌≡◌, ◌≢◌, refl, ap, ◌∙◌, String, Bool, true, false, Option, none, some,
  List, [], ◌∷◌, ◌++◌, arith, eq_iff, All, length, map, ==_refl, string_eq,
}
use duka_scraper.Jobs.{Job, Db, get_job, is_active}
use duka_scraper.Jobs.Settle.{complete_job_task}
use duka_scraper.Jobs.Runs.{Op, run, apply}
use duka_scraper.Jobs.Accounting.{settlements, run-settlements}
use duka_scraper.Workers.{Fields, Message, complete_job_task_from_message}

-- The deliveries of one message: the time and the type of the worker that is done with it.
unfoldable pub deliver : List (ℕ × String) → Message → Bool → Option String → Db → Db
deliver [] m failed reason db = db
deliver ((now, worker) ∷ later) m failed reason db =
    deliver later m failed reason (complete_job_task_from_message now m worker failed reason db)

abbrev IsOther : String → ℕ × String → Type 0
IsOther assigned (now, worker) = assigned ≢ worker

other_settles_nothing :
    (now : ℕ) (worker : String) (f : Fields) (assigned : String) (failed : Bool)
    (reason : Option String) (db : Db)
    → f.worker_type ≡ some assigned
    → assigned ≢ worker
    → complete_job_task_from_message now (Message.object f) worker failed reason db ≡ db
unfolding complete_job_task_from_message
other_settles_nothing now worker f assigned failed reason db a other =
    ground (arith, eq_iff assigned worker)

owner_settles :
    (now : ℕ) (f : Fields) (assigned job_id : String) (failed : Bool) (reason : Option String)
    (db : Db)
    → f.worker_type ≡ some assigned
    → f.job_id ≡ some job_id
    → complete_job_task_from_message now (Message.object f) assigned failed reason db
      ≡ (complete_job_task now job_id failed reason db).1
unfolding complete_job_task_from_message
owner_settles now f assigned job_id failed reason db a j = ground (arith, ==_refl assigned)

others_settle_nothing :
    (ds : List (ℕ × String)) (f : Fields) (assigned : String) (failed : Bool)
    (reason : Option String) (db : Db)
    → f.worker_type ≡ some assigned
    → All (IsOther assigned) ds
    → deliver ds (Message.object f) failed reason db ≡ db
unfolding deliver complete_job_task_from_message
others_settle_nothing [] f assigned failed reason db a others = refl
others_settle_nothing ((now, worker) ∷ ds) f assigned failed reason db a (one, rest) =
    ap (deliver ds (Message.object f) failed reason)
      (other_settles_nothing now worker f assigned failed reason db a one)
    ∙ others_settle_nothing ds f assigned failed reason db a rest

-- However many groups a message reaches and in whatever order, if the worker that it was assigned
-- to is done with it once, its task is settled once, at that time and with that outcome.
pub settled_once :
    (before after : List (ℕ × String)) (now : ℕ) (f : Fields) (assigned job_id : String)
    (failed : Bool) (reason : Option String) (db : Db)
    → f.worker_type ≡ some assigned
    → f.job_id ≡ some job_id
    → All (IsOther assigned) before
    → All (IsOther assigned) after
    → deliver (before ++ (now, assigned) ∷ after) (Message.object f) failed reason db
      ≡ (complete_job_task now job_id failed reason db).1
unfolding deliver complete_job_task_from_message
settled_once [] after now f assigned job_id failed reason db a j b c =
    ap (deliver after (Message.object f) failed reason)
      (owner_settles now f assigned job_id failed reason db a j)
    ∙ others_settle_nothing after f assigned failed reason _ a c
settled_once ((t, worker) ∷ before) after now f assigned job_id failed reason db a j (one, b) c =
    ap (deliver (before ++ (now, assigned) ∷ after) (Message.object f) failed reason)
      (other_settles_nothing t worker f assigned failed reason db a one)
    ∙ settled_once before after now f assigned job_id failed reason db a j b c

unassigned_run :
    (ds : List (ℕ × String)) (f : Fields) (job_id : String) (db : Db)
    → f.worker_type ≡ none
    → f.job_id ≡ some job_id
    → deliver ds (Message.object f) false none db ≡ run (settlements job_id (map (λ d. d.0) ds)) db
unfolding deliver complete_job_task_from_message run apply
unassigned_run [] f job_id db a j = refl
unassigned_run ((now, worker) ∷ ds) f job_id db a j =
    let one : complete_job_task_from_message now (Message.object f) worker false none db
        ≡ apply now (Op.settle job_id false none) db =
      ground arith in
    ap (deliver ds (Message.object f) false none) one ∙ unassigned_run ds f job_id _ a j

length-map_times : (ds : List (ℕ × String)) → length (map (λ d. d.0) ds) ≡ length ds
length-map_times [] = refl
length-map_times (d ∷ ds) = ap suc (length-map_times ds)

-- A message that names a job and no worker is everyone's: each delivery takes a slot of the job,
-- as long as the job is active and slots remain.
pub unassigned_settles_each :
    (ds : List (ℕ × String)) (f : Fields) (job_id : String) (db : Db) (r : Job)
    → f.worker_type ≡ none
    → f.job_id ≡ some job_id
    → get_job job_id db ≡ some r
    → is_active r.status ≡ true
    → length ds < r.active_tasks
    → get_job job_id (deliver ds (Message.object f) false none db)
      ≡ some (record r { active_tasks = r.active_tasks - length ds })
unassigned_settles_each ds f job_id db r a j h active enough =
    ap (get_job job_id) (unassigned_run ds f job_id db a j)
    ∙ (rw (sym (length-map_times ds))
        (run-settlements (map (λ d. d.0) ds) job_id db r h active
          (omega (arith, length-map_times ds))).0)
