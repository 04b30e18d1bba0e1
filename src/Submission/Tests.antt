-- ===== src/Submission/Tests.antt =====
-- Submissions and retries of one URL, and the theorems on them.
use duka_scraper.Base.{ℕ, List, AnyOf, inr, ◌≡◌, refl, true, false, none, some, [], ◌∷◌, string_eq}
use duka_scraper.Base.Text.{text_eq, codes, rstrip, lstrip}
use duka_scraper.Fingerprint.{strip, is_space}
use duka_scraper.Jobs.{
  Status, Job, get_job, create_job, update_job_status, register_job_tasks, write_status,
}
use duka_scraper.Accounts.{Role}
use duka_scraper.Api.{Reply}
use duka_scraper.Alerts.Routes.{Caller}
use duka_scraper.Submission.{
  Pipeline, Call, Submission, Submitted, get_active_job_for_url, submit_crawl_job,
}
use duka_scraper.Submission.Guard.{submitted_row, first_answer, first_pipeline}
use duka_scraper.Submission.Again.{IsRunning, url_key, submit_again}
use duka_scraper.Jobs.Runs.{Op, apply, run}
use duka_scraper.Submission.Lost.{lost_row, submit_lost}
use duka_scraper.Submission.Retry.{RetryRequest, retry_job}
use duka_scraper.Submission.Others.{retry_fails_old}

abbrev empty : Pipeline
empty = record { db = record { jobs = []; crawl_log = []; events = [] }; topic = [] }

abbrev first_call : Call
first_call = record { now = 10; job_id = "J1"; is_ready = true; is_taken = true }

abbrev second_call : Call
second_call = record { now = 20; job_id = "J2"; is_ready = true; is_taken = false }

abbrev submission : Submission
submission = record {
  user_id = "USR00001";
  url = "https://b.et/x";
  language = "am";
  worker_override = some "surface";
  max_depth = 5;
  recursive_config = record {
    enable_extraction = none;
    link_filter_patterns = [];
    skip_domains = [];
    seed_url = none;
    same_domain_only = none;
  };
  job_params = ("auto_signup", "true") ∷ [];
}

abbrev with_slash : Submission
with_slash = record submission { url = " https://b.et/x/ " }

-- The job is sent to review and runs again.
abbrev reviewed : List (ℕ × Op)
reviewed =
    (12, Op.set_status "J1" Status.needs_review) ∷ (13, Op.set_status "J1" Status.running) ∷ []

abbrev later : Pipeline
later = record { db = run reviewed (first_pipeline first_call submission empty).db; topic = [] }

abbrev still_running : Job
still_running = record (submitted_row first_call submission) { completed_at = some 12 }

submit_again_example :
    (b : Submitted) × (active : Job) × (submit_crawl_job second_call with_slash later
      ≡ (Reply.ok b, later))
    × (b.duplicate ≡ true)
    × (b.job_id ≡ active.job_id)
    × AnyOf (λ j. j ≡ active) later.db.jobs
    × IsRunning active.status
    × (active.user_id ≡ "USR00001")
    × (url_key (codes active.url) ≡ url_key (codes "https://b.et/x"))
unfolding submit_crawl_job strip rstrip lstrip is_space get_active_job_for_url create_job run apply
    get_job update_job_status register_job_tasks
submit_again_example =
    submit_again first_call second_call submission with_slash empty
      (first_pipeline first_call submission empty) (first_answer first_call submission) reviewed []
      still_running refl refl refl (inr refl) refl refl refl

submit_lost_example :
    let (answer, left) = submit_crawl_job second_call submission empty in
    (answer
      ≡ Reply.refused 503
          "Message broker unavailable — the crawl was not queued. Please retry in a moment.")
    × (left.topic ≡ [])
    × (left.db.jobs ≡ lost_row second_call submission ∷ [])
    × (get_active_job_for_url "USR00001" "https://b.et/x" left.db ≡ none)
unfolding get_active_job_for_url get_job
submit_lost_example = submit_lost second_call submission empty refl refl refl refl

abbrev stuck : Job
stuck = record {
  job_id = "J0";
  user_id = "USR00001";
  url = "https://b.et/x";
  language = "am";
  status = Status.running;
  assignment_reason = none;
  created_at = 1;
  completed_at = none;
  active_tasks = 3;
  resume_status = none;
}

abbrev over : Job
over = record stuck { job_id = "J3"; status = Status.failed; completed_at = some 2 }

abbrev crawling : Pipeline
crawling = record {
  db = record { jobs = stuck ∷ over ∷ []; crawl_log = []; events = [] };
  topic = [];
}

abbrev owner : Caller
owner = record { user_id = "USR00001"; role = Role.user }

abbrev retry : RetryRequest
retry = record { max_depth = 3; recursive_config = submission.recursive_config; job_params = [] }

retry_fails_old_example :
    get_job "J0" (retry_job first_call owner "J0" retry crawling).1.db
    ≡ some (write_status 10 Status.failed stuck)
unfolding get_job
retry_fails_old_example = retry_fails_old first_call owner "J0" retry crawling stuck refl refl refl
