-- ===== src/Workers.antt =====
-- What the crawl workers share (workers/common.py): which of them owns a message of the topic, and
-- what it does to the message's job. All three read the same topic, each in a group of its own.
pub mod Deliveries
mod Tests
use duka_scraper.Base.{
  ℕ, String, Bool, true, Option, none, some, List, [], ◌∷◌, ◌==◌, string_eq, if◌then◌else◌,
}
use duka_scraper.Jobs.{Db}
use duka_scraper.Jobs.Settle.{complete_job_task, fail_job}

-- What `data.get` gives for the keys of a message that is a JSON object, as a text; a value that is
-- missing or empty is `none`.
pub record Fields : Type 0 where
  pub job_id : Option String
  pub url : Option String
  pub worker_type : Option String

-- The bytes of a message by what `json.loads` makes of them: `none` is no JSON, or no object.
pub data Message : Type 0 where
  malformed : Message
  object : Fields → Message

unfoldable pub extract_job_context : Message → Option String × Option String
extract_job_context malformed = (none, none)
extract_job_context (object f) = (f.job_id, f.url)

unfoldable pub message_worker_type : Message → Option String
message_worker_type malformed = none
message_worker_type (object f) = f.worker_type

unfoldable pub owns_message : Message → String → Bool
unfolding message_worker_type
owns_message m worker = elim (message_worker_type m) [
  | none ↦ true
  | some assigned ↦ assigned == worker
]

-- The stage that closes the site's line in the timeline is published on a channel only.
unfoldable pub fail_job_from_message : ℕ → String → Message → String → Db → Db
unfolding extract_job_context owns_message
fail_job_from_message now worker m reason db = elim (extract_job_context m).0 [
  | none ↦ db
  | some job_id ↦
      let url : String = elim (extract_job_context m).1 [ none ↦ "" | some u ↦ u ] in
      let failed = fail_job now job_id worker url reason none "worker_error" db in
      if owns_message m worker then failed else db
]

unfoldable pub complete_job_task_from_message :
    ℕ → Message → String → Bool → Option String → Db → Db
unfolding extract_job_context owns_message
complete_job_task_from_message now m worker failed fail_reason db = elim (extract_job_context m).0 [
  | none ↦ db
  | some job_id ↦
      let settled = (complete_job_task now job_id failed fail_reason db).1 in
      if owns_message m worker then settled else db
]
