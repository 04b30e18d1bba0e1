-- ===== src/Crawl/Batches.antt =====
-- The requests that the loop over the links puts on the topic (`extract_and_queue_children`,
-- app/services/recursive_crawl_service.py).
use mathlib.Core.List.{append-nil, append_assoc}
use duka_scraper.Base.{
  ℕ, ◌+◌, ◌≡◌, ◌≢◌, refl, ap, sym, subst, ◌∙◌, Bool, false, none, some, List, [], ◌∷◌, ◌++◌, arith,
  length, All, Bool-cases, inl, inr,
}
use duka_scraper.Base.Text.{Text}
use duka_scraper.Assignment.{assign_worker}
use duka_scraper.Crawl.{Dedup, CrawlRequest, Tally, child_request, visit_link, visit_links}

-- A request one level below its parent's, for the same job, sent to the worker that its own URL
-- is assigned.
pub record IsChild (request child : CrawlRequest) : Type 0 where
  pub job : child.job_id ≡ request.job_id
  pub depth : child.depth ≡ request.depth + 1
  pub max_depth : child.max_depth ≡ request.max_depth
  pub parent : child.parent_url ≡ some request.url
  pub worker : child.worker_type ≡ assign_worker child.url none

child_request-IsChild :
    (request : CrawlRequest) (link : Text) → IsChild request (child_request request link)
unfolding child_request
child_request-IsChild request link = record {
  job = refl;
  depth = refl;
  max_depth = refl;
  parent = refl;
  worker = refl;
}

module _ (dedup : Dedup) (normalize : Text → Text) (delivered : Text → Bool) (now : ℕ) where
  open dedup use {Visited, is_visited, mark_visited, marked_self, marked_other}

  -- The request's URL was not known.
  abbrev pub IsFresh : Visited → CrawlRequest → Type 0
  IsFresh v c = is_visited (normalize c.url) v ≡ false

  -- No two of the requests have the same normalised URL.
  abbrev pub AreDistinct : List CrawlRequest → Type 0
  AreDistinct [] = Unit
  AreDistinct (c ∷ cs) =
      All (λ (d : CrawlRequest). normalize d.url ≢ normalize c.url) cs × AreDistinct cs

  -- What a run of the loop has put on the topic.
  pub record Batch (request : CrawlRequest) (t t' : Tally dedup) (added : List CrawlRequest)
      : Type 0 where
    pub appended : t'.world.topic ≡ t.world.topic ++ added
    pub counted : t'.queued ≡ t.queued + length added
    pub children : All (IsChild request) added
    pub fresh : All (IsFresh t.world.visited) added
    pub distinct : AreDistinct added

  IsFresh-before :
      (u : Text) (v : Visited) (cs : List CrawlRequest)
      → All (IsFresh (mark_visited u v)) cs
      → All (IsFresh v) cs
  IsFresh-before u v [] f = tt
  IsFresh-before u v (c ∷ cs) (f, fs) = (
    elim (Bool-cases (is_visited (normalize c.url) v)) [
      | inl known ↦ let again = marked_other u (normalize c.url) v known in cc
      | inr new ↦ new
    ],
    IsFresh-before u v cs fs,
  )

  other_urls :
      (u : Text) (v : Visited) (cs : List CrawlRequest)
      → All (IsFresh (mark_visited u v)) cs
      → All (λ (d : CrawlRequest). normalize d.url ≢ u) cs
  other_urls u v [] f = tt
  other_urls u v (c ∷ cs) (f, fs) = (
    λ e.
        let marked = marked_self u v in
        let same = ap (λ x. is_visited x (mark_visited u v)) e in cc,
    other_urls u v cs fs,
  )

  -- The three outcomes of a round, in front of the rounds that follow.
  Batch-known :
      (request : CrawlRequest) (t t1 t' : Tally dedup) (added : List CrawlRequest)
      → t1.world.visited ≡ t.world.visited
      → t1.world.topic ≡ t.world.topic
      → t1.queued ≡ t.queued
      → Batch request t1 t' added
      → Batch request t t' added
  Batch-known request t t1 t' added v p q b = record {
    appended = b.appended ∙ ap (λ x. x ++ added) p;
    counted = omega (arith, b.counted);
    children = b.children;
    fresh = subst (λ x. All (IsFresh x) added) v b.fresh;
    distinct = b.distinct;
  }

  Batch-lost :
      (request : CrawlRequest) (u : Text) (t t1 t' : Tally dedup) (added : List CrawlRequest)
      → t1.world.visited ≡ mark_visited u t.world.visited
      → t1.world.topic ≡ t.world.topic
      → t1.queued ≡ t.queued
      → Batch request t1 t' added
      → Batch request t t' added
  Batch-lost request u t t1 t' added v p q b = record {
    appended = b.appended ∙ ap (λ x. x ++ added) p;
    counted = omega (arith, b.counted);
    children = b.children;
    fresh = IsFresh-before u t.world.visited added (subst (λ x. All (IsFresh x) added) v b.fresh);
    distinct = b.distinct;
  }

  Batch-sent :
      (request : CrawlRequest) (link : Text) (t t1 t' : Tally dedup) (added : List CrawlRequest)
      → is_visited (normalize link) t.world.visited ≡ false
      → t1.world.visited ≡ mark_visited (normalize link) t.world.visited
      → t1.world.topic ≡ t.world.topic ++ child_request request link ∷ []
      → t1.queued ≡ t.queued + 1
      → Batch request t1 t' added
      → Batch request t t' (child_request request link ∷ added)
  unfolding child_request
  Batch-sent request link t t1 t' added new v p q b =
      let unseen = subst (λ x. All (IsFresh x) added) v b.fresh in
      record {
        appended =
            b.appended
            ∙ ap (λ x. x ++ added) p
            ∙ append_assoc t.world.topic (child_request request link ∷ []) added;
        counted = omega (arith, b.counted);
        children = (child_request-IsChild request link, b.children);
        fresh = (new, IsFresh-before (normalize link) t.world.visited added unseen);
        distinct = (other_urls (normalize link) t.world.visited added unseen, b.distinct);
      }

  pub visit_links-Batch :
      (request : CrawlRequest) (links : List Text) (t : Tally dedup)
      → (added : List CrawlRequest) × Batch request t
          (visit_links dedup normalize delivered now request links t)
          added
  unfolding visit_links visit_link
  visit_links-Batch request [] t = (
    [],
    record {
      appended = sym (append-nil _);
      counted = omega arith;
      children = tt;
      fresh = tt;
      distinct = tt;
    },
  )
  visit_links-Batch request (link ∷ links) t =
      let t1 = visit_link dedup normalize delivered now request link t in
      let (added, b) = visit_links-Batch request links t1 in
      elim (Bool-cases (is_visited (normalize link) t.world.visited)) [
        | inl known ↦
            (added, Batch-known request t t1 _ added (ground arith) (ground arith) (ground arith) b)
        | inr new ↦ elim (Bool-cases (delivered link)) [
          | inl sent ↦ (
            child_request request link ∷ added,
            Batch-sent request link t t1 _ added new (ground arith) (ground arith) (ground arith) b,
          )
          | inr lost ↦ (
            added,
            Batch-lost request (normalize link) t t1 _ added (ground arith) (ground arith)
                (ground arith) b,
          )
        ]
      ]
