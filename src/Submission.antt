-- ===== src/Submission.antt =====
-- How a job comes about: `submit_crawl_job` (app/pipeline/main.py), the guard against duplicates
-- `get_active_job_for_url` (app/storage/postgres/client.py) and the route `retry_job`
-- (app/api/routes/jobs.py). Each call is given its time, the id that the column's default generates
-- and what the broker does.
pub mod Guard
pub mod Again
pub mod Retry
pub mod Lost
pub mod Others
mod Tests
use duka_scraper.Base.{
  ℕ, String, Bool, true, false, not, ◌&&◌, ◌||◌, Option, none, some, List, [], ◌∷◌, ◌++◌, keep, ltb,
  any, ◌==◌, string_eq, if◌then◌else◌,
}
use duka_scraper.Base.Text.{Text, text_eq, codes, rstrip, is_code}
use duka_scraper.Fingerprint.{strip}
use duka_scraper.Jobs.{Status, Job, Db, get_job, create_job, register_job_tasks, update_job_status}
use duka_scraper.Jobs.Settle.{fail_job}
use duka_scraper.Crawl.{Config, CrawlRequest, get_param, or_default}
use duka_scraper.Assignment.{assign_worker_with_reason}
use duka_scraper.Auth.{is_admin}
use duka_scraper.Alerts.Routes.{Caller}
use duka_scraper.Api.{Reply}

-- The tables of the jobs and the topic of crawl requests.
pub record Pipeline : Type 0 where
  pub db : Db
  pub topic : List CrawlRequest

-- The time, the id for a new job, whether the producer is started and whether a message is taken.
pub record Call : Type 0 where
  pub now : ℕ
  pub job_id : String
  pub is_ready : Bool
  pub is_taken : Bool

-- `user_id` is that of the row that `ensure_user` gives.
pub record Submission : Type 0 where
  pub user_id : String
  pub url : String
  pub language : String
  pub worker_override : Option String
  pub max_depth : ℕ
  pub recursive_config : Config
  pub job_params : List (String × String)

pub record Submitted : Type 0 where
  pub message : String
  pub job_id : String
  pub assigned_worker : String
  pub assignment_reason : String
  pub max_depth : ℕ
  pub duplicate : Bool
  pub retry_of : Option String

-- `status IN ('pending', 'queued', 'running')`; the table has no queued jobs.
abbrev pub is_queued : Status → Bool
is_queued Status.pending = true
is_queued Status.running = true
is_queued _ = false

-- The text of the query is stripped at both ends, that of the row of its slashes alone.
abbrev pub is_duplicate : String → String → Job → Bool
is_duplicate user_id url j =
    j.user_id == user_id
    && rstrip (is_code b'/') (codes j.url) == rstrip (is_code b'/') (strip (codes url))
    && is_queued j.status

-- The first row of `ORDER BY created_at DESC`.
unfoldable pub latest : List Job → Option Job
latest [] = none
latest (j ∷ js) = elim (latest js) [
  | none ↦ some j
  | some k ↦ if ltb j.created_at k.created_at then some k else some j
]

unfoldable pub get_active_job_for_url : String → String → Db → Option Job
unfolding latest
get_active_job_for_url user_id url db = latest (keep (is_duplicate user_id url) db.jobs)

-- A parameter that is there and is not empty.
abbrev pub is_set : List (String × String) → String → Bool
is_set params key = elim (get_param key params) as (λ _. Bool) [
  | none ↦ false
  | some v ↦ not (v == "")
]

unfoldable pub needs_browser : List (String × String) → Bool
unfolding get_param
needs_browser params =
    any (is_set params) ("auto_signup" ∷ "allow_login" ∷ "allow_signup" ∷ "credentials" ∷ [])

unfoldable pub route : Submission → String × String
unfolding needs_browser
route s =
    let (worker, reason) = assign_worker_with_reason (codes s.url) s.worker_override in
    if needs_browser s.job_params && not (worker == "deep")
    then ("deep", "auto_signup_or_credentials")
    else (worker, reason)

-- The layer that links carry is not given for a root.
abbrev pub root_request : String → String → Submission → CrawlRequest
root_request job_id worker s =
    let config = s.recursive_config in
    record {
      job_id = job_id;
      url = codes s.url;
      language = s.language;
      worker_type = worker;
      depth = 0;
      max_depth = s.max_depth;
      parent_url = none;
      target_layer = "";
      recursive_config = record config {
        seed_url = elim config.seed_url [ none ↦ some (codes s.url) | some seed ↦ some seed ];
        same_domain_only = some (or_default true config.same_domain_only);
      };
      job_params = s.job_params;
    }

abbrev pub queue_failed : String
queue_failed =
    "Job could not be queued: the message broker was unreachable. Click Retry to resubmit."

-- The end of a submission whose row is there: its slot, its message, its status.
unfoldable pub publish_root :
    Call → Submission → String × String → Db → List CrawlRequest → Reply Submitted × Pipeline
publish_root c s (worker, reason) db topic =
    let registered = register_job_tasks c.job_id 1 db in
    if not c.is_taken
    then (
      Reply.refused 503
          "Message broker unavailable — the crawl was not queued. Please retry in a moment.",
      record {
        db = fail_job c.now c.job_id worker s.url queue_failed none "publish_failed" registered;
        topic = topic;
      },
    )
    else (
      Reply.ok (record {
        message = "Scraping job submitted successfully";
        job_id = c.job_id;
        assigned_worker = worker;
        assignment_reason = reason;
        max_depth = s.max_depth;
        duplicate = false;
        retry_of = none;
      }),
      record {
        db = update_job_status c.now c.job_id Status.running registered;
        topic = topic ++ root_request c.job_id worker s ∷ [];
      },
    )

abbrev pub duplicate_of : Job → String → ℕ → Submitted
duplicate_of active worker max_depth = record {
  message = "This URL is already being crawled — returning the active job";
  job_id = active.job_id;
  assigned_worker = worker;
  assignment_reason = "duplicate_active_job";
  max_depth = max_depth;
  duplicate = true;
  retry_of = none;
}

-- A conflict of the key is an exception, which the routes answer with 500.
unfoldable pub submit_crawl_job : Call → Submission → Pipeline → Reply Submitted × Pipeline
unfolding get_active_job_for_url route publish_root
submit_crawl_job c s p =
    if not c.is_ready
    then (Reply.refused 503 "Kafka is unavailable; retry after the messaging service is ready", p)
    else (elim (get_active_job_for_url s.user_id s.url p.db) as (λ _. Reply Submitted × Pipeline) [
      | some active ↦ (Reply.ok (duplicate_of active (route s).0 s.max_depth), p)
      | none ↦
          elim (create_job c.now c.job_id s.user_id s.url s.language (some (route s).1) p.db)
            as (λ _. Reply Submitted × Pipeline) [
              | none ↦ (Reply.refused 500 "Internal Server Error", p)
              | some (row, db) ↦ publish_root c s (route s) db p.topic
            ]
    ])
