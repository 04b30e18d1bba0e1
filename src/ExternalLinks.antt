-- ===== src/ExternalLinks.antt =====
-- The table discovered_external_links and the methods of `PostgreSQLClient` on it
-- (app/storage/postgres/client.py), and their review (app/api/routes/jobs.py).
pub mod Review
pub mod Decisions
mod Tests
use duka_scraper.Base.{
  ℕ, ◌+◌, String, Bool, true, false, not, ◌&&◌, ◌||◌, Option, none, some, List, [], ◌∷◌, ◌++◌, map,
  any, find, keep, take, length, ◌==◌, nat_eq, string_eq, contains, if◌then◌else◌,
}
use duka_scraper.Base.Text.{Text, text_eq, lower, is_empty}

pub data LinkStatus : Type 0 where
  pending approved rejected auto_approved : LinkStatus

pub record DiscoveredLink : Type 0 where
  pub id : ℕ
  pub job_id : String
  pub parent_url : Text
  pub discovered_url : Text
  pub discovered_domain : Text
  pub anchor_text : Text
  pub status : LinkStatus
  pub reviewed_at : Option ℕ

-- `next_id` is the sequence of the ids, which a conflict uses up too.
pub record LinkTable : Type 0 where
  pub links : List DiscoveredLink
  pub next_id : ℕ

-- A dictionary of a link; without a URL its row is skipped.
pub record FoundLink : Type 0 where
  pub url : Option Text
  pub domain : Text
  pub anchor_text : Text

abbrev pub is_pending_link : LinkStatus → Bool
is_pending_link LinkStatus.pending = true
is_pending_link _ = false

-- `status IN ('approved', 'auto_approved')`
abbrev pub is_approved : LinkStatus → Bool
is_approved LinkStatus.approved = true
is_approved LinkStatus.auto_approved = true
is_approved _ = false

abbrev pub is_link : String → Text → DiscoveredLink → Bool
is_link job_id url l = l.job_id == job_id && l.discovered_url == url

abbrev pub new_link : String → Text → Text → FoundLink → LinkStatus → ℕ → DiscoveredLink
new_link job_id parent_url url found status id = record {
  id = id;
  job_id = job_id;
  parent_url = parent_url;
  discovered_url = url;
  discovered_domain = found.domain;
  anchor_text = take 200 found.anchor_text;
  status = status;
  reviewed_at = none;
}

abbrev pub link_status : List Text → Text → LinkStatus
link_status domains domain =
    if contains (map lower domains) (lower domain)
    then LinkStatus.auto_approved
    else LinkStatus.pending

-- `INSERT … ON CONFLICT (job_id, discovered_url) DO NOTHING`
abbrev pub insert_link : String → Text → List Text → FoundLink → Text → LinkTable → LinkTable
insert_link job_id parent_url domains found url db =
    let row = new_link job_id parent_url url found (link_status domains found.domain) db.next_id in
    record {
      links = if any (is_link job_id url) db.links then db.links else db.links ++ row ∷ [];
      next_id = db.next_id + 1;
    }

unfoldable pub record_link : String → Text → List Text → FoundLink → LinkTable → LinkTable
record_link job_id parent_url domains found db = elim found.url as (λ _. LinkTable) [
  | none ↦ db
  | some url ↦ insert_link job_id parent_url domains found url db
]

unfoldable pub record_discovered_external_links :
    String → Text → List FoundLink → List Text → LinkTable → LinkTable
unfolding record_link
record_discovered_external_links job_id parent_url [] domains db = db
record_discovered_external_links job_id parent_url (found ∷ more) domains db =
    record_discovered_external_links job_id parent_url more domains
      (record_link job_id parent_url domains found db)

-- The links that a review names: by id, or else by domain, or else none.
abbrev pub is_named : List ℕ → List Text → DiscoveredLink → Bool
is_named [] [] l = false
is_named [] (d ∷ domains) l = contains (map lower (d ∷ domains)) l.discovered_domain
is_named (i ∷ ids) domains l = contains (i ∷ ids) l.id

abbrev pub is_reviewable : String → List ℕ → List Text → DiscoveredLink → Bool
is_reviewable job_id ids domains l =
    l.job_id == job_id && is_named ids domains l && is_pending_link l.status

abbrev pub write_review : ℕ → LinkStatus → DiscoveredLink → DiscoveredLink
write_review now status l = record l { status = status; reviewed_at = some now }

-- The number of rows changed, and the table.
abbrev pub review_links : ℕ → LinkStatus → String → List ℕ → List Text → LinkTable → ℕ × LinkTable
review_links now status job_id ids domains db = (
  length (keep (is_reviewable job_id ids domains) db.links),
  record db {
    links =
        map (λ l. if is_reviewable job_id ids domains l then write_review now status l else l)
          db.links;
  },
)

unfoldable pub approve_discovered_links :
    ℕ → String → List ℕ → List Text → LinkTable → ℕ × LinkTable
approve_discovered_links now = review_links now LinkStatus.approved

unfoldable pub reject_discovered_links : ℕ → String → List ℕ → List Text → LinkTable → ℕ × LinkTable
reject_discovered_links now = review_links now LinkStatus.rejected

unfoldable pub get_approved_external_urls : String → LinkTable → List Text
get_approved_external_urls job_id db =
    map (λ l. l.discovered_url) (keep (λ l. l.job_id == job_id && is_approved l.status) db.links)
