-- ===== src/Submission/Retry.antt =====
-- The route `retry_job` (app/api/routes/jobs.py).
use Prim.Native.String.{◌++◌ as ◌<>◌}
use duka_scraper.Base.{ℕ, String, Bool, true, none, some, List, string_eq, not, if◌then◌else◌}
use duka_scraper.Jobs.{Status, Job, get_job}
use duka_scraper.Jobs.Settle.{fail_job}
use duka_scraper.Crawl.{Config}
use duka_scraper.Alerts.Routes.{Caller}
use duka_scraper.Api.{Reply}
use duka_scraper.ExternalLinks.Review.{may_read}
use duka_scraper.Submission.{Pipeline, Call, Submission, Submitted, is_queued, submit_crawl_job}

pub record RetryRequest : Type 0 where
  pub max_depth : ℕ
  pub recursive_config : Config
  pub job_params : List (String × String)

-- `("running", "pending", "failed")`
abbrev pub may_retry : Status → Bool
may_retry Status.failed = true
may_retry s = is_queued s

-- The submission that the new job is made from.
abbrev pub resubmission : RetryRequest → Job → Submission
resubmission r job = record {
  user_id = job.user_id;
  url = job.url;
  language = job.language;
  worker_override = none;
  max_depth = r.max_depth;
  recursive_config = r.recursive_config;
  job_params = r.job_params;
}

-- A job that still runs is failed before it is submitted anew.
abbrev pub give_up : ℕ → String → Job → Pipeline → Pipeline
give_up now job_id job p =
    if is_queued job.status
    then record p {
      db =
          fail_job now job_id "retry" job.url
            "Retry requested — old job marked failed to allow new submission" none "retry_requested"
            p.db;
    }
    else p

abbrev pub mark_retry : String → String → Reply Submitted × Pipeline → Reply Submitted × Pipeline
mark_retry job_id url (Reply.refused code detail, p) = (Reply.refused code detail, p)
mark_retry job_id url (Reply.ok a, p) = (
  Reply.ok
      (record a { retry_of = some job_id; message = "Job retried — new job created for " <> url }),
  p,
)

-- The detail of the 400 is without the status that it names.
unfoldable pub retry_job :
    Call → Caller → String → RetryRequest → Pipeline → Reply Submitted × Pipeline
unfolding get_job
retry_job c u job_id r p = elim (get_job job_id p.db) as (λ _. Reply Submitted × Pipeline) [
  | none ↦ (Reply.refused 404 "Job not found", p)
  | some job ↦
      if not (may_read u job)
      then (Reply.refused 403 "You can access only your own data", p)
      else if not (may_retry job.status)
      then (Reply.refused 400 "Only running, pending, or failed jobs can be retried.", p)
      else mark_retry job_id job.url
          (submit_crawl_job c (resubmission r job) (give_up c.now job_id job p))
]
