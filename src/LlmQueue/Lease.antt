-- ===== src/LlmQueue/Lease.antt =====
-- Who holds an item of the queue, and for how long (app/services/llm_analysis_queue.py).
use duka_scraper.Base.{
  ℕ, ◌+◌, ◌≡◌, ◌≢◌, ◌≤◌, refl, String, Bool, true, false, Option, some, List, [], ◌∷◌, map, arith,
  eq_iff, All, AnyOf, ◌==◌, string_eq, if◌then◌else◌, contains, not,
}
use duka_scraper.LlmQueue.{
  QueueStatus, Row, QueueItem, held_by, is_stalled, is_due, write_claim, write_batched,
  write_reclaimed, get_row, claim, settle_success, mark_batched, reclaim_stalled,
}
use duka_scraper.LlmQueue.Rows.{
  HasOnly, HasOnly-item_id, HasOnly-map_same, HasOnly-keep, HasOnly-enqueue,
}
use duka_scraper.LlmQueue.Claims.{HasOnly-update_all, HasOnly-fail}
use duka_scraper.LlmQueue.Loads.{claim_others, claim-HasOnly}
use duka_scraper.LlmQueue.Runs.{Op, apply, run}

-- The worker `w` has the row since the time `t`.
pub record IsHeld (w : String) (t : ℕ) (r : Row) : Type 0 where
  pub in_flight : r.status ≡ QueueStatus.processing
  pub holder : r.worker_id ≡ some w
  pub since : r.claimed_at ≡ some t

-- A call that is not the holder's own business with the item: any claim and any enqueuing, what
-- concerns other items, batches of other workers, and reclaiming while the lease lasts.
abbrev pub Respects : String → String → ℕ → ℕ × Op → Type 0
Respects j w t (now, Op.enqueue_item i job payload) = Unit
Respects j w t (now, Op.claim_items locked limit worker) = Unit
Respects j w t (now, Op.settle_items ids) = contains ids j ≡ false
Respects j w t (now, Op.fail_item i error delay) = (i == j) ≡ false
Respects j w t (now, Op.mark_items [] batch) = Unit
Respects j w t (now, Op.mark_items ((i, worker) ∷ entries) batch) = worker ≢ w
Respects j w t (now, Op.reclaim_items lease) = now ≤ t + lease

module _ {Payload : Type 0} (loads : String → Option Payload) where
  apply-HasOnly :
      (now : ℕ) (op : Op) (j w : String) (t : ℕ) (r : Row) (q : List Row)
      → Respects j w t (now, op)
      → IsHeld w t r
      → HasOnly j r q
      → HasOnly j r (apply loads now op q)
  unfolding apply mark_batched reclaim_stalled settle_success
  apply-HasOnly now (Op.enqueue_item i job payload) j w t r q ok held h =
      HasOnly-enqueue now i job payload j r q h
  apply-HasOnly now (Op.claim_items locked limit worker) j w t r q ok held h =
      (claim_others loads now locked limit worker j r q (ground (arith, held.in_flight)) h).0
  apply-HasOnly now (Op.settle_items ids) j w t r q ok held h =
      HasOnly-keep (λ x. not (contains ids x.item_id)) j r q
        (ground (arith, HasOnly-item_id j r q h)) h
  apply-HasOnly now (Op.fail_item i error delay) j w t r q ok held h =
      HasOnly-fail now i error delay j r q ok h
  apply-HasOnly now (Op.mark_items [] batch) j w t r q ok held h = h
  apply-HasOnly now (Op.mark_items ((i, worker) ∷ entries) batch) j w t r q ok held h =
      HasOnly-update_all (i ∷ map (λ e. e.0) entries) (held_by worker) (write_batched now batch) j r
        q (λ x. refl) (ground (arith, held.holder, eq_iff w worker)) h
  apply-HasOnly now (Op.reclaim_items lease) j w t r q ok held h =
      HasOnly-map_same (λ x. if is_stalled now lease x then write_reclaimed now x else x) j r q
        (λ x. ground arith) (ground (arith, held.since, held.in_flight)) h

  run-HasOnly :
      (ops : List (ℕ × Op)) (j w : String) (t : ℕ) (r : Row) (q : List Row)
      → All (Respects j w t) ops
      → IsHeld w t r
      → HasOnly j r q
      → HasOnly j r (run loads ops q)
  unfolding run
  run-HasOnly [] j w t r q ok held h = h
  run-HasOnly ((now, op) ∷ ops) j w t r q (one, rest) held h =
      run-HasOnly ops j w t r (apply loads now op q) rest held
        (apply-HasOnly now op j w t r q one held h)

  lease_excludes :
      (ops : List (ℕ × Op)) (j w : String) (t : ℕ) (r : Row) (q : List Row)
      → All (Respects j w t) ops
      → IsHeld w t r
      → HasOnly j r q
      → (get_row j (run loads ops q) ≡ some r)
        × ((now : ℕ) (locked : String → Bool) (limit : ℕ) (other : String)
            → All
                (λ (i : QueueItem Payload). i.item_id ≢ j)
                (claim loads now locked limit other (run loads ops q)).0)
  lease_excludes ops j w t r q ok held h =
      let kept = run-HasOnly ops j w t r q ok held h in
      (
        kept.found,
        λ now locked limit other.
            (claim_others loads now locked limit other j r _ (ground (arith, held.in_flight))
              kept).1,
      )

  -- An item that a claim gives a worker is its own while the lease lasts: the item was due, and
  -- whatever is enqueued, claimed, or settled, failed and batched of other items and by other
  -- workers afterwards, as long as nothing is reclaimed beyond the lease, its row is as the claim
  -- wrote it, and no claim gives the item again.
  pub claim_excludes :
      (now limit : ℕ) (locked : String → Bool) (w j : String) (r : Row) (q : List Row)
      (ops : List (ℕ × Op))
      → HasOnly j r q
      → AnyOf (λ (i : QueueItem Payload). i.item_id ≡ j) (claim loads now locked limit w q).0
      → All (Respects j w now) ops
      → let later = run loads ops (claim loads now locked limit w q).1 in
        (is_due now locked r ≡ true)
        × (get_row j later ≡ some (write_claim now w r))
        × ((now' limit' : ℕ) (locked' : String → Bool) (other : String)
            → All
                (λ (i : QueueItem Payload). i.item_id ≢ j)
                (claim loads now' locked' limit' other later).0)
  claim_excludes now limit locked w j r q ops h given ok =
      let (due, held) = claim-HasOnly loads now locked limit w j r q h given in
      let (row, others) =
        lease_excludes ops j w now (write_claim now w r) _ ok
          (record { in_flight = refl; holder = refl; since = refl }) held in
      (due, row, λ now' limit' locked' other. others now' locked' limit' other)
