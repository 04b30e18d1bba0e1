-- ===== src/Crawl/Accounting.antt =====
-- The slots of a recursive crawl: what `extract_and_queue_children` leaves of the counter of its
-- job (app/services/recursive_crawl_service.py with `register_job_tasks` and `complete_job_task`,
-- app/storage/postgres/client.py).
use mathlib.Core.List.{append-nil, append_assoc}
use duka_scraper.Base.{
  ℕ, ◌+◌, ◌-◌, ◌≤◌, ◌<◌, ◌≡◌, Bool, true, some, List, [], ◌∷◌, ◌++◌, All, All-append, ap, sym, refl,
  ◌∙◌, arith, length, length-append, ==_refl, string_eq, Bool-cases, inl, inr,
}
use duka_scraper.Base.Text.{Text}
use duka_scraper.Jobs.{Job, is_active, get_job, register_job_tasks}
use duka_scraper.Jobs.Accounting.{settle_task}
use duka_scraper.Jobs.Effects.{get_job-register_job_tasks}
use duka_scraper.Crawl.{
  Dedup, CrawlRequest, World, Tally, child_request, visit_link, visit_links, queue_links,
}

module _ (dedup : Dedup) (normalize : Text → Text) (delivered : Text → Bool) (now : ℕ) where
  open dedup use {is_visited}

  IsDelivered : CrawlRequest → Type 0
  IsDelivered q = delivered q.url ≡ true

  -- What a link leaves of the topic and of the slots of an active job: one request that the broker
  -- took, or a slot given back.
  visit_link-slots :
      (request : CrawlRequest) (link : Text) (t : Tally dedup) (r : Job)
      → get_job request.job_id t.world.db ≡ some r
      → is_active r.status ≡ true
      → 1 < r.active_tasks
      → let t' = visit_link dedup normalize delivered now request link t in
        (added : List CrawlRequest) × (settled : ℕ) × (settled + length added ≡ 1)
        × (t'.world.topic ≡ t.world.topic ++ added)
        × All IsDelivered added
        × (get_job request.job_id t'.world.db
            ≡ some (record r { active_tasks = r.active_tasks - settled }))
        × (t'.queued ≡ t.queued + length added)
  unfolding visit_link child_request IsDelivered
  visit_link-slots request link t r h a m =
      let given_back = settle_task now request.job_id t.world.db r h a m in
      elim (Bool-cases (is_visited (normalize link) t.world.visited)) [
        | inl known ↦ (
          [],
          1,
          refl,
          ground (arith, known, append-nil t.world.topic),
          tt,
          ground (arith, known, given_back),
          ground (arith, known),
        )
        | inr fresh ↦ elim (Bool-cases (delivered link)) [
          | inl sent ↦ (
            child_request request link ∷ [],
            0,
            refl,
            ground (arith, fresh, sent),
            (sent, tt),
            ground (arith, fresh, sent),
            ground (arith, fresh, sent),
          )
          | inr lost ↦ (
            [],
            1,
            refl,
            ground (arith, fresh, lost, append-nil t.world.topic),
            tt,
            ground (arith, fresh, lost, given_back),
            ground (arith, fresh, lost),
          )
        ]
      ]

  visit_links-slots :
      (request : CrawlRequest) (links : List Text) (t : Tally dedup) (r : Job)
      → get_job request.job_id t.world.db ≡ some r
      → is_active r.status ≡ true
      → length links < r.active_tasks
      → let t' = visit_links dedup normalize delivered now request links t in
        (added : List CrawlRequest) × (settled : ℕ) × (settled + length added ≡ length links)
        × (t'.world.topic ≡ t.world.topic ++ added)
        × All IsDelivered added
        × (get_job request.job_id t'.world.db
            ≡ some (record r { active_tasks = r.active_tasks - settled }))
        × (t'.queued ≡ t.queued + length added)
  unfolding visit_links
  visit_links-slots request [] t r h a m =
      ([], 0, refl, sym (append-nil t.world.topic), tt, ground arith, omega arith)
  visit_links-slots request (link ∷ links) t r h a m =
      let (first, one, few, topic, sent, row, count) =
        visit_link-slots request link t r h a (omega arith) in
      let (later, more, total, topic', sent', row', count') =
        visit_links-slots request links (visit_link dedup normalize delivered now request link t)
          (record r { active_tasks = r.active_tasks - one }) row a (omega arith) in
      let sizes = length-append first later in
      (
        first ++ later,
        one + more,
        omega arith,
        topic' ∙ ap (λ q. q ++ later) topic ∙ append_assoc t.world.topic first later,
        All-append IsDelivered first later sent sent',
        ground arith,
        omega arith,
      )

  -- A worker that holds one slot of an active job and queues the links of its page puts requests on
  -- the topic that the broker took, each of them, and leaves the job as it was but for one more
  -- slot for each of these requests; their number is what it counts. So known links and lost
  -- requests give their slots back, and no slot that comes back ends the job.
  pub queue_links-active_tasks :
      (request : CrawlRequest) (links : List Text) (w : World dedup) (r : Job)
      → get_job request.job_id w.db ≡ some r
      → is_active r.status ≡ true
      → 1 ≤ r.active_tasks
      → let t = queue_links dedup normalize delivered now request links w in
        (added : List CrawlRequest) × (t.world.topic ≡ w.topic ++ added)
        × All (λ q. delivered q.url ≡ true) added
        × (get_job request.job_id t.world.db
            ≡ some (record r { active_tasks = r.active_tasks + length added }))
        × (t.queued ≡ length added)
  unfolding queue_links IsDelivered
  queue_links-active_tasks request links w r h a m =
      let row : get_job request.job_id (register_job_tasks request.job_id (length links) w.db)
          ≡ some (record r { active_tasks = r.active_tasks + length links }) =
        ground (
          arith,
          get_job-register_job_tasks request.job_id request.job_id (length links) w.db,
          ==_refl request.job_id,
        ) in
      let (added, settled, total, topic, sent, row', count) =
        visit_links-slots request links
          (record {
            world = record w { db = register_job_tasks request.job_id (length links) w.db };
            queued = 0;
            skipped = 0;
          })
          (record r { active_tasks = r.active_tasks + length links }) row a (omega arith) in
      (added, topic, sent, ground arith, omega (arith, count))
