-- ===== src/Crawl/Requests.antt =====
-- The requests that a page adds to the topic (`extract_and_queue_children`,
-- app/services/recursive_crawl_service.py).
use duka_scraper.Base.{ℕ, ◌≤◌, ◌≡◌, Bool, List, ◌++◌, length, All}
use duka_scraper.Base.Text.{Text}
use duka_scraper.Crawl.{Dedup, CrawlRequest, World}
use duka_scraper.Crawl.Batches.{IsChild, IsFresh, AreDistinct}

module _ (dedup : Dedup) (normalize : Text → Text) (delivered : Text → Bool) (now : ℕ) where
  -- What a page has put on the topic: so many requests as the count says, each a child of the
  -- page's request below the greatest depth, none of them for a URL that was visited before, and
  -- no two for one normalised URL.
  pub record Added (request : CrawlRequest) (queued : ℕ) (w w' : World dedup)
      (added : List CrawlRequest) : Type 0 where
    pub appended : w'.topic ≡ w.topic ++ added
    pub counted : queued ≡ length added
    pub children : All (IsChild request) added
    pub shallow : All (λ (c : CrawlRequest). c.depth ≤ c.max_depth) added
    pub fresh : All (IsFresh dedup normalize delivered now w.visited) added
    pub distinct : AreDistinct dedup normalize delivered now added

  Outcome : CrawlRequest → World dedup → List Text × ℕ × ℕ × World dedup → Type 0
  Outcome request w (links, queued, skipped, w') =
      (added : List CrawlRequest) × Added request queued w w' added
