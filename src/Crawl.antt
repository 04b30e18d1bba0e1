-- ===== src/Crawl.antt =====
-- How a crawl goes on below a page: `extract_and_queue_children`
-- (app/services/recursive_crawl_service.py) over the database of the jobs, the record of visited
-- URLs (app/services/dedup_service.py) and the topic of crawl requests. What the page's HTML is
-- read by, the broker and the store of visited URLs are not part of the program: their links,
-- deliveries and answers are arguments.
pub mod Accounting
pub mod Batches
pub mod Requests
mod Tests
use duka_scraper.Base.{
  ℕ, ◌+◌, ◌-◌, ◌≡◌, String, Bool, true, false, ◌||◌, Option, none, some, List, [], ◌∷◌, ◌++◌, leb,
  not, length, ◌==◌, string_eq, if◌then◌else◌,
}
use duka_scraper.Base.Text.{Text, codes, rstrip, is_empty}
use duka_scraper.Url.{urlparse}
use duka_scraper.Jobs.{Db, register_job_tasks}
use duka_scraper.Jobs.Settle.{complete_job_task}
use duka_scraper.Links.{Extract, Search, Scope, filter_links, link_path}
use duka_scraper.Assignment.{assign_worker}

-- The keys of `recursive_config` that are read; `none` is a key that is not there.
pub record Config : Type 0 where
  pub enable_extraction : Option Bool
  pub link_filter_patterns : List Text
  pub skip_domains : List Text
  pub seed_url : Option Text
  pub same_domain_only : Option Bool

-- `CrawlRequest` (app/pipeline/schemas.py); the job's parameters are texts by their keys.
pub record CrawlRequest : Type 0 where
  pub job_id : String
  pub url : Text
  pub language : String
  pub worker_type : String
  pub depth : ℕ
  pub max_depth : ℕ
  pub parent_url : Option Text
  pub target_layer : String
  pub recursive_config : Config
  pub job_params : List (String × String)

unfoldable pub auth_job_param_keys : List String
auth_job_param_keys =
    "allow_login" ∷ "allow_signup" ∷ "allow_email_verification" ∷ "credentials" ∷ "credential_email"
    ∷ "auto_signup" ∷ "auto_signup_email" ∷ "auto_password" ∷ []

unfoldable pub get_param : String → List (String × String) → Option String
get_param key [] = none
get_param key ((k, v) ∷ params) = if k == key then some v else get_param key params

-- The comprehension over the keys.
unfoldable pub pick_params : List String → List (String × String) → List (String × String)
unfolding get_param
pick_params [] params = []
pick_params (k ∷ ks) params = elim (get_param k params) [
  | none ↦ pick_params ks params
  | some v ↦ (k, v) ∷ pick_params ks params
]

-- The store of a job's visited URLs, a Redis set or a Bloom filter, with what both promise: a URL
-- that was added is found from then on. A Bloom filter may find others.
pub record Dedup : Type 1 where
  pub Visited : Type 0
  pub is_visited : Text → Visited → Bool
  pub mark_visited : Text → Visited → Visited
  pub marked_self : (u : Text) (v : Visited) → is_visited u (mark_visited u v) ≡ true
  pub marked_other :
      (u w : Text) (v : Visited) → is_visited w v ≡ true → is_visited w (mark_visited u v) ≡ true

abbrev pub or_default : Bool → Option Bool → Bool
or_default d none = d
or_default d (some b) = b

-- The scope of the links: the seed's domain and its directory, if it has one.
unfoldable pub seed_of : CrawlRequest → Text
seed_of request = elim (request.recursive_config.seed_url) [ none ↦ request.url | some seed ↦ seed ]

unfoldable pub seed_prefix : Text → Option Text
seed_prefix seed = elim (urlparse seed) [
  | none ↦ none
  | some u ↦ if is_empty (link_path u) then none else some (link_path u)
]

unfoldable pub scope_of : CrawlRequest → Scope
unfolding seed_of seed_prefix
scope_of request =
    let config = request.recursive_config in
    record {
      allowed_patterns = config.link_filter_patterns;
      skip_domains = config.skip_domains;
      same_domain_as =
          if or_default true config.same_domain_only then some (seed_of request) else none;
      path_prefix = seed_prefix (seed_of request);
    }

unfoldable pub child_request : CrawlRequest → Text → CrawlRequest
unfolding pick_params auth_job_param_keys
child_request request link =
    let worker = assign_worker link none in
    record {
      job_id = request.job_id;
      url = link;
      language = request.language;
      worker_type = worker;
      depth = request.depth + 1;
      max_depth = request.max_depth;
      parent_url = some request.url;
      target_layer = worker;
      recursive_config = request.recursive_config;
      job_params = pick_params auth_job_param_keys request.job_params;
    }

module _ (dedup : Dedup) where
  open dedup use {Visited, is_visited, mark_visited}

  pub record World : Type 0 where
    pub db : Db
    pub visited : Visited
    pub topic : List CrawlRequest
    pub expiring : Bool

  pub record Tally : Type 0 where
    pub world : World
    pub queued : ℕ
    pub skipped : ℕ

  -- `cleanup`, at the last level that can queue requests.
  abbrev pub expire : CrawlRequest → World → World
  expire request w =
      if leb (request.max_depth - 1) request.depth then record w { expiring = true } else w

  -- `normalize` is `LinkExtractionService.normalize_url`, and `delivered` says of each link whether
  -- the broker took its request.
  module _ (normalize : Text → Text) (delivered : Text → Bool) (now : ℕ) where
    abbrev settle : CrawlRequest → Db → Db
    settle request db = (complete_job_task now request.job_id false none db).1

    -- One round of the loop over the links: visited, queued, or not taken by the broker. The
    -- exceptions of `normalize_url` end in that method, and Redis is taken to answer: with an error
    -- of it the service says that the URL is new.
    unfoldable pub visit_link : CrawlRequest → Text → Tally → Tally
    unfolding child_request
    visit_link request link t =
        let w = t.world in
        if is_visited (normalize link) w.visited
        then record t { world = record w { db = settle request w.db }; skipped = t.skipped + 1 }
        else if delivered link
        then record t {
          world = record w {
            visited = mark_visited (normalize link) w.visited;
            topic = w.topic ++ child_request request link ∷ [];
          };
          queued = t.queued + 1;
        }
        else record t {
          world = record w {
            visited = mark_visited (normalize link) w.visited;
            db = settle request w.db;
          };
        }

    unfoldable pub visit_links : CrawlRequest → List Text → Tally → Tally
    visit_links request [] t = t
    visit_links request (link ∷ links) t = visit_links request links (visit_link request link t)

    -- The slots of all links are reserved before the first is queued.
    unfoldable pub queue_links : CrawlRequest → List Text → World → Tally
    unfolding visit_links
    queue_links request links w = visit_links request links (record {
      world = record w { db = register_job_tasks request.job_id (length links) w.db };
      queued = 0;
      skipped = 0;
    })

    -- `extracted` are the links of the page. The results are the links that were kept, how many
    -- were queued and how many were known.
    unfoldable pub extract_and_queue_children :
        Extract → Search → CrawlRequest → List Text → World → List Text × ℕ × ℕ × World
    unfolding scope_of queue_links
    extract_and_queue_children extract search request extracted w =
        if leb request.max_depth request.depth
        then ([], 0, 0, w)
        else if not (or_default true request.recursive_config.enable_extraction)
        then ([], 0, 0, w)
        else if is_empty extracted
        then ([], 0, 0, w)
        else let links = filter_links extract search (scope_of request) extracted in
          let t = queue_links request links w in
          (links, t.queued, t.skipped, expire request t.world)
