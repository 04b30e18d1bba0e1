-- ===== src/ExternalLinks/Review.antt =====
-- The review of discovered links (app/api/routes/jobs.py).
use duka_scraper.Base.{
  ℕ, String, Bool, true, false, not, ◌&&◌, ◌||◌, Option, none, some, List, [], ◌==◌, string_eq,
  if◌then◌else◌,
}
use duka_scraper.Base.Text.{Text, is_empty}
use duka_scraper.Jobs.{Job, Db, get_job}
use duka_scraper.Auth.{is_admin}
use duka_scraper.Alerts.Routes.{Caller}
use duka_scraper.Api.{Reply}
use duka_scraper.ExternalLinks.{
  LinkTable, approve_discovered_links, reject_discovered_links, get_approved_external_urls,
}

-- `is_approval` is none for an action that is neither.
pub record ReviewRequest : Type 0 where
  pub is_approval : Option Bool
  pub link_ids : List ℕ
  pub domains : List Text
  pub auto_crawl : Bool

pub record ReviewAnswer : Type 0 where
  pub links_affected : ℕ
  -- the URLs that `submit_crawl_job` is called with, for the owner of the job
  pub submitted : List Text

-- `ensure_owner_or_admin`
abbrev pub may_read : Caller → Job → Bool
may_read u job = is_admin u.role || job.user_id == u.user_id

abbrev pub decide : ℕ → String → ReviewRequest → Bool → LinkTable → ℕ × LinkTable
decide now job_id r true db = approve_discovered_links now job_id r.link_ids r.domains db
decide now job_id r false db = reject_discovered_links now job_id r.link_ids r.domains db

abbrev pub answer_of :
    String → ReviewRequest → Bool → ℕ × LinkTable → Reply ReviewAnswer × LinkTable
answer_of job_id r approval (count, db) = (
  Reply.ok (record {
    links_affected = count;
    submitted = if approval && r.auto_crawl then get_approved_external_urls job_id db else [];
  }),
  db,
)

-- A submission that fails is part of the answer and changes nothing here.
unfoldable pub review_discovered_links :
    ℕ → Caller → String → ReviewRequest → Db → LinkTable → Reply ReviewAnswer × LinkTable
unfolding get_job approve_discovered_links reject_discovered_links get_approved_external_urls
review_discovered_links now u job_id r jobs db =
    elim (get_job job_id jobs) as (λ _. Reply ReviewAnswer × LinkTable) [
      | none ↦ (Reply.refused 404 "Job not found", db)
      | some job ↦
          if not (may_read u job)
          then (Reply.refused 403 "You can access only your own data", db)
          else (elim r.is_approval as (λ _. Reply ReviewAnswer × LinkTable) [
            | none ↦ (Reply.refused 400 "action must be 'approve' or 'reject'", db)
            | some approval ↦
                if is_empty r.link_ids && is_empty r.domains
                then (Reply.refused 400 "Provide link_ids or domains", db)
                else answer_of job_id r approval (decide now job_id r approval db)
          ])
    ]
