-- ===== src/Crawl/Tests.antt =====
-- Runs of the recursive crawl over a set of visited URLs, and instances of its theorems.
use duka_scraper.Base.{
  ◌+◌, ◌≡◌, refl, Bool, true, false, ◌++◌, All, length, none, some, List, [], ◌∷◌, arith, contains,
}
use duka_scraper.Base.Text.{Text, codes, text_eq, text_beq}
use duka_scraper.Jobs.{Status, Job, get_job}
use duka_scraper.Links.{Extract, Search}
use duka_scraper.Crawl.{Dedup, CrawlRequest, World, queue_links, visit_link}
use duka_scraper.Dedup.{check_visited, add_visited}
use duka_scraper.Dedup.Instances.{set_dedup}
use duka_scraper.Crawl.Accounting.{queue_links-active_tasks}

-- A Redis set; the filter is not used.
abbrev no_filter : List Text → Text → Bool
no_filter xs url = false

abbrev set_store : Dedup
set_store = set_dedup no_filter

abbrev running_job : Job
running_job = record {
  job_id = "JOB1";
  user_id = "USR1";
  url = "https://example.com/a";
  language = "en";
  status = Status.running;
  assignment_reason = none;
  created_at = 10;
  completed_at = none;
  active_tasks = 1;
  resume_status = none;
}

abbrev root : CrawlRequest
root = record {
  job_id = "JOB1";
  url = codes "https://example.com/a";
  language = "en";
  worker_type = "surface";
  depth = 0;
  max_depth = 2;
  parent_url = none;
  target_layer = "surface";
  recursive_config = record {
    enable_extraction = none;
    link_filter_patterns = [];
    skip_domains = [];
    seed_url = none;
    same_domain_only = none;
  };
  job_params = ("auto_signup", "true") ∷ ("note", "x") ∷ [];
}

abbrev world : World set_store
world = record {
  db = record { jobs = running_job ∷ []; crawl_log = []; events = [] };
  visited = codes "https://example.com/a/seen" ∷ [];
  topic = [];
  expiring = false;
}

abbrev found : List Text
found =
    codes "https://example.com/a/b"
    ∷ codes "https://example.com/a/seen"
    ∷ codes "https://example.com/a/b"
    ∷ codes "https://example.com/a/lost"
    ∷ []

abbrev broker : Text → Bool
broker link = contains (codes "https://example.com/a/b" ∷ []) link

abbrev as_it_is : Text → Text
as_it_is url = url

abbrev no_extract : Extract
no_extract host = none

abbrev no_search : Search
no_search pattern link = none

queue_links-active_tasks_example :
    let t = queue_links set_store as_it_is broker 20 root found world in
    (added : List CrawlRequest) × (t.world.topic ≡ [] ++ added)
    × All (λ (q : CrawlRequest). broker q.url ≡ true) added
    × (get_job "JOB1" t.world.db ≡ some (record running_job { active_tasks = 1 + length added }))
    × (t.queued ≡ length added)
unfolding get_job
queue_links-active_tasks_example =
    queue_links-active_tasks set_store as_it_is broker 20 root found world running_job refl refl
      (omega arith)

-- One of the four links is queued, with the permission to sign up and no other parameter.
queue_links_counts :
    let t = queue_links set_store as_it_is broker 20 root found world in
    (t.queued ≡ 1) × (t.skipped ≡ 2)
unfolding queue_links visit_link text_beq check_visited add_visited
queue_links_counts = (refl, refl)
