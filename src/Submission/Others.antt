-- ===== src/Submission/Others.antt =====
-- What a submission and a retry leave of the jobs that are there (app/pipeline/main.py,
-- app/api/routes/jobs.py).
use duka_scraper.Base.{
  ℕ, ◌≡◌, refl, String, true, false, none, some, List, arith, ap, ◌∙◌, eq_iff, Option-cases,
  Bool-cases, inl, inr, ◌==◌, string_eq,
}
use duka_scraper.Base.Table.{select}
use duka_scraper.Jobs.{Status, Job, Db, key, get_job, create_job, register_job_tasks, write_status}
use duka_scraper.Jobs.Effects.{
  get_job-update_job_status, get_job-register_job_tasks, get_job-fail_job,
}
use duka_scraper.Jobs.Runs.{select-append}
use duka_scraper.Alerts.Routes.{Caller}
use duka_scraper.Api.{Reply}
use duka_scraper.ExternalLinks.Review.{may_read}
use duka_scraper.Submission.{
  Pipeline, Call, Submission, Submitted, is_queued, get_active_job_for_url, route, publish_root,
  submit_crawl_job,
}
use duka_scraper.Submission.Retry.{
  RetryRequest, may_retry, resubmission, give_up, mark_retry, retry_job,
}

-- The row of another id is in none of the writes.
published_keeps :
    (c : Call) (s : Submission) (to : String × String) (db : Db) (topic : List _) (j : String)
    (r : Job)
    → (c.job_id == j) ≡ false
    → get_job j db ≡ some r
    → get_job j (publish_root c s to db topic).1.db ≡ some r
unfolding publish_root
published_keeps c s to db topic j r other e = elim (Bool-cases c.is_taken) [
  | inl sent ↦
      rw
        (
          sent,
          get_job-update_job_status j c.job_id c.now Status.running
              (register_job_tasks c.job_id 1 db),
          get_job-register_job_tasks j c.job_id 1 db,
          e,
          other,
        )
        refl
  | inr lost ↦
      rw
        (
          lost,
          get_job-fail_job j c.job_id c.now to.0 s.url _ none "publish_failed"
              (register_job_tasks c.job_id 1 db),
          get_job-register_job_tasks j c.job_id 1 db,
          e,
          other,
        )
        refl
]

taken_by_no_other :
    (i j : String) (db : Db) (r : Job)
    → get_job i db ≡ none
    → get_job j db ≡ some r
    → (i == j) ≡ false
unfolding get_job
taken_by_no_other i j db r fresh e = elim (Bool-cases (i == j)) [
  | inr other ↦ other
  | inl same ↦ let i_is_j : i ≡ j = (eq_iff i j).0 same in cc
]

-- A submission leaves every job that is there as it is, whatever comes of it.
pub submit_keeps :
    (c : Call) (s : Submission) (p : Pipeline) (j : String) (r : Job)
    → get_job j p.db ≡ some r
    → get_job j (submit_crawl_job c s p).1.db ≡ some r
unfolding submit_crawl_job create_job get_job
submit_keeps c s p j r e = elim (Bool-cases c.is_ready) [
  | inr down ↦ rw down e
  | inl up ↦ elim (Option-cases (get_active_job_for_url s.user_id s.url p.db)) [
    | inr (active, has) ↦ rw (up, has) e
    | inl idle ↦ elim (Option-cases (select key c.job_id p.db.jobs)) [
      | inr (x, taken) ↦ rw (up, idle, taken) e
      | inl fresh ↦
          rw (up, idle, fresh)
            (published_keeps c s (route s) _ p.topic j r
              (taken_by_no_other c.job_id j p.db r fresh e) (select-append j p.db.jobs _ r e))
    ]
  ]
]

mark_retry_left :
    (job_id url : String) (x : Reply Submitted × Pipeline) → (mark_retry job_id url x).1 ≡ x.1
mark_retry_left job_id url (Reply.ok a, p) = refl
mark_retry_left job_id url (Reply.refused code detail, p) = refl

may_retry-is_queued : (st : Status) → is_queued st ≡ true → may_retry st ≡ true
may_retry-is_queued Status.failed h = refl
may_retry-is_queued st h = h

give_up_lem :
    (now : ℕ) (job_id : String) (job : Job) (p : Pipeline)
    → get_job job_id p.db ≡ some job
    → is_queued job.status ≡ true
    → get_job job_id (give_up now job_id job p).db ≡ some (write_status now Status.failed job)
give_up_lem now job_id job p row open_row =
    rw
      (
        open_row,
        get_job-fail_job job_id job_id now "retry" job.url _ none "retry_requested" p.db,
        row,
      )
      (ground (arith, eq_iff job_id job_id, open_row))

-- A retry of a pending or running job, by its owner or an administrator, leaves it failed, whatever
-- comes of the new submission.
pub retry_fails_old :
    (c : Call) (u : Caller) (job_id : String) (r : RetryRequest) (p : Pipeline) (job : Job)
    → get_job job_id p.db ≡ some job
    → may_read u job ≡ true
    → is_queued job.status ≡ true
    → get_job job_id (retry_job c u job_id r p).1.db ≡ some (write_status c.now Status.failed job)
unfolding retry_job get_job
retry_fails_old c u job_id r p job row allowed open_row =
    let given_up = give_up_lem c.now job_id job p row open_row in
    rw (row, retry_job, get_job, allowed, may_retry-is_queued job.status open_row)
      (ap (λ q. get_job job_id q.db)
          (mark_retry_left job_id job.url
            (submit_crawl_job c (resubmission r job) (give_up c.now job_id job p)))
        ∙ submit_keeps c (resubmission r job) (give_up c.now job_id job p) job_id _ given_up)
