-- ===== src/Jobs/Lifecycle.antt =====
-- The states of a job: the diagram that every call follows, what is final, and what every run
-- keeps (app/storage/postgres/client.py, the methods on `jobs`).
use duka_scraper.Base.{ℕ, ◌≡◌, refl, ◌≢◌, ◌∙◌, String, Bool, true, false, none, some, List, arith}
use duka_scraper.Jobs.{Status, Job, Db, is_active, is_final, is_completed, get_job}
use duka_scraper.Jobs.Runs.{Op, apply, run, row_effect, get_job-apply, run_keeps}

-- What one call may do to the status of a job.
pub data Edge : Status → Status → Type 0 where
  stay : {s : Status} → Edge s s
  complete : {s : Status} → Edge s Status.completed
  finish : {s t : Status} → is_completed s ≡ false → is_final t ≡ true → Edge s t
  activate : {s t : Status} → is_active s ≡ true → is_final t ≡ false → Edge s t
  resume : {t : Status} → is_active t ≡ true → Edge Status.paused t

ruleset edges = (stay, complete, finish, activate, resume)

row_effect-Edge :
    (now : ℕ) (produced : Bool) (op : Op) (j : String) (r : Job)
    → Edge r.status (row_effect now produced op j r).status
row_effect-Edge now produced op j r = grind (arith, edges)

-- Every call moves the status of a job that is there along an edge of the diagram, whichever job
-- the call names: a completed job stays completed; any other job keeps its status or may be set to
-- completed, failed, skipped or needs_review; only a job that is pending, running or needs_review
-- is set to pending, running or paused, but that a paused job resumes into pending, running or
-- needs_review.
pub apply-Edge :
    (now : ℕ) (op : Op) (j : String) (db : Db) (r : Job)
    → get_job j db ≡ some r
    → (r' : Job) × (get_job j (apply now op db) ≡ some r') × Edge r.status r'.status
apply-Edge now op j db r h = (_, get_job-apply now op j db r h, row_effect-Edge now _ op j r)

abbrev IsDone : Job → Job → Type 0
IsDone first r = (r.status ≡ Status.completed) × (r.completed_at ≡ first.completed_at)

row_effect-IsDone :
    (first : Job) (t : ℕ)
    → first.completed_at ≡ some t
    → (j : String) (now : ℕ) (produced : Bool) (op : Op) (r : Job) → IsDone first r
    → IsDone first (row_effect now produced op j r)
row_effect-IsDone first t e j now produced op r (s, c) = ground arith

-- A job that is completed at a time `t` stays completed, with that time, through every sequence of
-- calls: late settlements, failures, pauses and status messages do not change it.
pub run-completed :
    (ops : List (ℕ × Op)) (j : String) (db : Db) (r : Job) (t : ℕ)
    → get_job j db ≡ some r
    → r.status ≡ Status.completed
    → r.completed_at ≡ some t
    → (r' : Job) × (get_job j (run ops db) ≡ some r')
      × ((r'.status ≡ Status.completed) × (r'.completed_at ≡ some t))
run-completed ops j db r t h s c =
    let (r', found, (s', c')) =
      run_keeps (IsDone r) j (row_effect-IsDone r t c j) ops db r h (s, refl) in
    (r', found, (s', c' ∙ c))

-- `completed`, `failed` and `skipped`.
abbrev pub is_finished : Status → Bool
is_finished Status.completed = true
is_finished Status.failed = true
is_finished Status.skipped = true
is_finished _ = false

-- A finished job has its time, and what a pause remembers is an active status.
pub record IsValid (r : Job) : Type 0 where
  pub stamped : is_finished r.status ≡ true → r.completed_at ≢ none
  pub resumable : (s : Status) → r.resume_status ≡ some s → is_active s ≡ true

row_effect-stamped :
    (j : String) (now : ℕ) (produced : Bool) (op : Op) (r : Job)
    → (is_finished r.status ≡ true → r.completed_at ≢ none)
    → is_finished (row_effect now produced op j r).status ≡ true
    → (row_effect now produced op j r).completed_at ≢ none
row_effect-stamped j now produced op r h = ground arith

row_effect-resumable :
    (j : String) (now : ℕ) (produced : Bool) (op : Op) (r : Job)
    → ((s : Status) → r.resume_status ≡ some s → is_active s ≡ true)
    → (s : Status) → (row_effect now produced op j r).resume_status ≡ some s
    → is_active s ≡ true
row_effect-resumable j now produced op r h s = grind arith

row_effect-IsValid :
    (j : String) (now : ℕ) (produced : Bool) (op : Op) (r : Job)
    → IsValid r
    → IsValid (row_effect now produced op j r)
row_effect-IsValid j now produced op r v = record {
  stamped = row_effect-stamped j now produced op r v.stamped;
  resumable = row_effect-resumable j now produced op r v.resumable;
}

-- Every run keeps the invariant of a row.
pub run-IsValid :
    (ops : List (ℕ × Op)) (j : String) (db : Db) (r : Job)
    → get_job j db ≡ some r
    → IsValid r
    → (r' : Job) × (get_job j (run ops db) ≡ some r') × IsValid r'
run-IsValid ops j = run_keeps IsValid j (row_effect-IsValid j) ops
