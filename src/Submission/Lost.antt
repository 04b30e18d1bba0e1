-- ===== src/Submission/Lost.antt =====
-- A submission that the broker does not take (app/pipeline/main.py).
use duka_scraper.Base.{
  ◌≡◌, refl, String, Bool, true, false, none, some, List, [], ◌∷◌, ◌++◌, keep, arith, ap, ◌∙◌,
  string_eq,
}
use duka_scraper.Base.Text.{text_eq}
use duka_scraper.Jobs.{Status, Job, get_job, create_job, register_job_tasks, update_job_status}
use duka_scraper.Jobs.Settle.{fail_job}
use duka_scraper.Api.{Reply}
use duka_scraper.Submission.{
  Pipeline, Call, Submission, is_duplicate, latest, get_active_job_for_url, publish_root,
  submit_crawl_job,
}
use duka_scraper.Submission.Guard.{created_row, root_rows, latest-none}

-- The row of a job whose message was not taken.
abbrev pub lost_row : Call → Submission → Job
lost_row c s = record (created_row c s) {
  status = Status.failed;
  completed_at = some c.now;
  active_tasks = 1;
}

keep-append-false :
    (p : Job → Bool) (xs : List Job) (y : Job)
    → keep p xs ≡ []
    → p y ≡ false
    → keep p (xs ++ y ∷ []) ≡ []
keep-append-false p [] y h e = ground (arith, e)
keep-append-false p (x ∷ xs) y h e = ground (arith, keep-append-false p xs y, h, e)

lost_is_no_duplicate :
    (c : Call) (s : Submission) (user_id url : String)
    → is_duplicate user_id url (lost_row c s) ≡ false
lost_is_no_duplicate c s user_id url = ground arith

-- A new submission that the broker does not take is answered with 503 and sends no message. Its
-- job is in the table and is failed, and does not count as active, so that the URL can be submitted
-- again.
pub submit_lost :
    (c : Call) (s : Submission) (p : Pipeline)
    → get_active_job_for_url s.user_id s.url p.db ≡ none
    → get_job c.job_id p.db ≡ none
    → c.is_ready ≡ true
    → c.is_taken ≡ false
    → let (answer, left) = submit_crawl_job c s p in
      (answer
        ≡ Reply.refused 503
            "Message broker unavailable — the crawl was not queued. Please retry in a moment.")
      × (left.topic ≡ p.topic)
      × (left.db.jobs ≡ p.db.jobs ++ lost_row c s ∷ [])
      × (get_active_job_for_url s.user_id s.url left.db ≡ none)
unfolding submit_crawl_job get_active_job_for_url create_job get_job publish_root fail_job
    update_job_status register_job_tasks latest
submit_lost c s p idle fresh up lost =
    let rows = root_rows c s Status.failed p.db.jobs fresh refl in
    let none_active =
      ap (λ js. latest (keep (is_duplicate s.user_id s.url) js)) rows
      ∙ ap latest (
          keep-append-false (is_duplicate s.user_id s.url) p.db.jobs (lost_row c s)
            (latest-none _ idle) (lost_is_no_duplicate c s s.user_id s.url)) in
    rw (up, idle, fresh, lost) (refl, refl, rows, none_active)
