-- ===== src/Submission/Guard.antt =====
-- A submission that is repeated (app/pipeline/main.py, app/storage/postgres/client.py).
use duka_scraper.Base.{
  ◌+◌, ◌≡◌, refl, String, Bool, true, false, none, some, List, [], ◌∷◌, ◌++◌, keep, arith, eq_iff,
  Option-cases, Bool-cases, inl, inr, string_eq, ap, sym, ◌∙◌,
}
use duka_scraper.Base.Table.{select, update, update_row}
use duka_scraper.Base.Text.{text_eq}
use duka_scraper.Jobs.{
  Status, Job, key, publish, get_job, create_job, register_job_tasks, update_job_status,
  write_status, status_guard,
}
use duka_scraper.Api.{Reply}
use duka_scraper.Submission.{
  Pipeline, Call, Submission, Submitted, is_duplicate, latest, get_active_job_for_url, route,
  root_request, publish_root, submit_crawl_job,
}

pub latest-none : (js : List Job) → latest js ≡ none → js ≡ []
unfolding latest
latest-none [] h = refl
latest-none (j ∷ js) h = elim (Option-cases (latest js)) [
  | inl e ↦ ground (arith, h, e)
  | inr (k, e) ↦ ground (arith, h, e)
]

keep-append :
    (p : Job → Bool) (xs : List Job) (y : Job)
    → keep p xs ≡ []
    → p y ≡ true
    → keep p (xs ++ y ∷ []) ≡ y ∷ []
keep-append p [] y h e = ground (arith, e)
keep-append p (x ∷ xs) y h e = ground (arith, keep-append p xs y, h, e)

update-append :
    (k : String) (g : Job → Bool) (f : Job → Job) (rs : List Job) (r : Job)
    → select key k rs ≡ none
    → update key k g f (rs ++ r ∷ []) ≡ rs ++ update_row key k g f r ∷ []
update-append k g f [] r h = refl
update-append k g f (x ∷ rs) r h = ground (arith, update-append k g f rs r, h)

row-written :
    (k : String) (g : Job → Bool) (f : Job → Job) (r : Job)
    → key r ≡ k
    → g r ≡ true
    → update_row key k g f r ≡ f r
row-written k g f r e h = ground (arith, eq_iff (key r) k, e, h)

-- The row of a job that was submitted.
abbrev pub submitted_row : Call → Submission → Job
submitted_row c s = record {
  job_id = c.job_id;
  user_id = s.user_id;
  url = s.url;
  language = s.language;
  status = Status.running;
  assignment_reason = some (route s).1;
  created_at = c.now;
  completed_at = none;
  active_tasks = 1;
  resume_status = none;
}

abbrev pub created_row : Call → Submission → Job
created_row c s = record (submitted_row c s) { status = Status.pending; active_tasks = 0 }

-- What the slot and the last status leave of the row, in a table that had the id nowhere.
pub root_rows :
    (c : Call) (s : Submission) (st : Status) (jobs : List Job)
    → select key c.job_id jobs ≡ none
    → status_guard st Status.pending ≡ true
    → update key c.job_id
        (λ j. status_guard st j.status)
        (write_status c.now st)
        (update key c.job_id
          (λ j. true)
          (λ j. record j { active_tasks = j.active_tasks + 1 })
          (jobs ++ created_row c s ∷ []))
      ≡ jobs ++ write_status c.now st (record (created_row c s) { active_tasks = 1 }) ∷ []
root_rows c s st jobs fresh open_row =
    let set = update key c.job_id (λ j. status_guard st j.status) (write_status c.now st) in
    let reserve = λ (j : Job). record j { active_tasks = j.active_tasks + 1 } in
    ap set (
      update-append c.job_id (λ j. true) reserve jobs (created_row c s) fresh
      ∙ ap (λ r. jobs ++ r ∷ [])
          (row-written c.job_id (λ j. true) reserve (created_row c s) refl refl))
    ∙ update-append c.job_id (λ j. status_guard st j.status) (write_status c.now st) jobs
        (record (created_row c s) { active_tasks = 1 }) fresh
    ∙ ap (λ r. jobs ++ r ∷ [])
        (row-written c.job_id (λ j. status_guard st j.status) (write_status c.now st)
          (record (created_row c s) { active_tasks = 1 }) refl open_row)

abbrev pub first_answer : Call → Submission → Submitted
first_answer c s = record {
  message = "Scraping job submitted successfully";
  job_id = c.job_id;
  assigned_worker = (route s).0;
  assignment_reason = (route s).1;
  max_depth = s.max_depth;
  duplicate = false;
  retry_of = none;
}

abbrev pub first_pipeline : Call → Submission → Pipeline → Pipeline
first_pipeline c s p =
    let created =
      publish "job_created" c.job_id Status.pending
        (record (p.db) { jobs = p.db.jobs ++ created_row c s ∷ [] }) in
    record {
      db = update_job_status c.now c.job_id Status.running (register_job_tasks c.job_id 1 created);
      topic = p.topic ++ root_request c.job_id (route s).0 s ∷ [];
    }

submit_first :
    (c : Call) (s : Submission) (p : Pipeline)
    → c.is_ready ≡ true
    → c.is_taken ≡ true
    → latest (keep (is_duplicate s.user_id s.url) p.db.jobs) ≡ none
    → select key c.job_id p.db.jobs ≡ none
    → submit_crawl_job c s p ≡ (Reply.ok (first_answer c s), first_pipeline c s p)
unfolding submit_crawl_job get_active_job_for_url create_job get_job publish_root
submit_first c s p up sent none_active fresh = rw (up, none_active, fresh, sent) refl

ok-injective :
    {a b : Submitted} {p q : Pipeline}
    → ◌≡◌ {A = Reply Submitted × Pipeline} (Reply.ok a, p) (Reply.ok b, q)
    → (a ≡ b) × (p ≡ q)
ok-injective e = (cc, cc)

-- An accepted submission that is no duplicate found no active job of the user and the URL, and adds a
-- running one and its message.
pub accepted :
    (c : Call) (s : Submission) (p p' : Pipeline) (a : Submitted)
    → submit_crawl_job c s p ≡ (Reply.ok a, p')
    → a.duplicate ≡ false
    → (get_job c.job_id p.db ≡ none)
      × (a ≡ first_answer c s)
      × (p'.db.jobs ≡ p.db.jobs ++ submitted_row c s ∷ [])
      × (p'.topic ≡ p.topic ++ root_request c.job_id (route s).0 s ∷ [])
unfolding submit_crawl_job get_active_job_for_url create_job get_job publish_root update_job_status
    register_job_tasks
accepted c s p p' a ok first = elim (Bool-cases c.is_ready) [
  | inr down ↦ ground (arith, ok, down)
  | inl up ↦ elim (Option-cases (latest (keep (is_duplicate s.user_id s.url) p.db.jobs))) [
    | inr (active, e) ↦ ground (arith, ok, up, e, first)
    | inl none_active ↦ elim (Option-cases (select key c.job_id p.db.jobs)) [
      | inr (taken, e) ↦ ground (arith, ok, up, none_active, e)
      | inl fresh ↦ elim (Bool-cases c.is_taken) [
        | inr lost ↦ ground (arith, ok, up, none_active, fresh, lost)
        | inl sent ↦
            let (answer, left) =
              ok-injective (sym ok ∙ submit_first c s p up sent none_active fresh) in
            (
              fresh,
              answer,
              rw left (root_rows c s Status.running p.db.jobs fresh refl),
              rw left refl,
            )
      ]
    ]
  ]
]
