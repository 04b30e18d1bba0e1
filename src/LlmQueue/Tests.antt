-- ===== src/LlmQueue/Tests.antt =====
-- Runs of the queue of LLM analyses, and instances of its theorems.
use duka_scraper.Base.{
  ℕ, ◌≡◌, ◌≢◌, ◌≤◌, refl, String, Bool, true, false, Option, none, some, List, [], ◌∷◌, map, All,
  arith, eq_iff, inl, ◌==◌, string_eq, if◌then◌else◌,
}
use duka_scraper.LlmQueue.{
  QueueStatus, Row, QueueItem, get_row, new_row, enqueue, fail, claim, is_due, write_claim,
  insert_due, claimable, load_claimed, rows_for_batch, mark_batched, reclaim_stalled,
  settle_success,
}
use duka_scraper.LlmQueue.Rows.{HasOnly}
use duka_scraper.LlmQueue.Runs.{Op, run}
use duka_scraper.LlmQueue.Lease.{claim_excludes}
use duka_scraper.LlmQueue.Batches.{fail-batched}
use duka_scraper.LlmQueue.Once.{enqueue_once}

-- All that a run has to compute with.
queue_runs : Unit {0}
unfolding get_row enqueue insert_due claimable fail load_claimed claim rows_for_batch mark_batched
    reclaim_stalled settle_success run
queue_runs = tt

-- Every payload but the empty one is JSON.
abbrev loads : String → Option String
loads payload = if payload == "" then none else some payload

abbrev unlocked : String → Bool
unlocked item_id = false

abbrev first : Row
first = new_row 5 "ITM1" "JOB1" "{}"

abbrev second : Row
second = new_row 7 "ITM2" "JOB1" ""

abbrev backlog : List Row
backlog = second ∷ first ∷ new_row 99 "ITM3" "JOB2" "{}" ∷ []

-- The oldest due item comes first; the one whose payload is corrupt is failed instead.
claim_runs :
    (map (λ (i : QueueItem String). i.item_id) (claim loads 10 unlocked 1 "w1" backlog).0
      ≡ "ITM1" ∷ [])
    × (map (λ (r : Row). r.status) (claim loads 10 unlocked 5 "w1" backlog).1
        ≡ QueueStatus.failed ∷ QueueStatus.processing ∷ QueueStatus.pending ∷ [])
unfolding queue_runs
claim_runs = (refl, refl)

first-HasOnly : HasOnly "ITM1" first backlog
unfolding queue_runs
first-HasOnly = record {
  found = refl;
  sole = (
    λ e. ground (arith, eq_iff "ITM2" "ITM1"),
    (λ e. refl, (λ e. ground (arith, eq_iff "ITM3" "ITM1"), tt)),
  );
}

abbrev others_work : List (ℕ × Op)
others_work =
    (11, Op.claim_items unlocked 5 "w2")
    ∷ (12, Op.settle_items ("ITM2" ∷ []))
    ∷ (13, Op.mark_items (("ITM1", "w2") ∷ []) "B1")
    ∷ (14, Op.reclaim_items 5)
    ∷ []

claim_excludes_example :
    let later = run loads others_work (claim loads 10 unlocked 5 "w1" backlog).1 in
    (is_due 10 unlocked first ≡ true)
    × (get_row "ITM1" later ≡ some (write_claim 10 "w1" first))
    × ((now' limit' : ℕ) (locked' : String → Bool) (other : String)
        → All
            (λ (i : QueueItem String). i.item_id ≢ "ITM1")
            (claim loads now' locked' limit' other later).0)
unfolding queue_runs
claim_excludes_example =
    claim_excludes loads 10 5 unlocked "w1" "ITM1" first backlog others_work first-HasOnly
      (inl refl) (tt, (refl, (λ e. ground (arith, eq_iff "w2" "w1"), (omega arith, tt))))

abbrev work_on_first : List (ℕ × Op)
work_on_first =
    (10, Op.claim_items unlocked 5 "w1")
    ∷ (11, Op.fail_item "ITM1" "timeout" none)
    ∷ (12, Op.settle_items ("ITM2" ∷ []))
    ∷ []

enqueue_once_example :
    let later = run loads work_on_first (enqueue 8 "ITM1" "JOB1" "{}" []).1 in
    enqueue 13 "ITM1" "JOB2" "{}" later ≡ (false, later)
enqueue_once_example =
    enqueue_once loads 8 13 "ITM1" "JOB1" "JOB2" "{}" "{}" work_on_first [] (tt, (tt, (refl, tt)))

abbrev sent : Row
sent = record first { status = QueueStatus.batched; batch_id = some "B1" }

sent-HasOnly : HasOnly "ITM1" sent (sent ∷ [])
unfolding queue_runs
sent-HasOnly = record { found = refl; sole = (λ e. refl, tt) }

fail-batched_example :
    (r' : Row) × HasOnly "ITM1" r' (fail 20 "ITM1" "timeout" (some 30) (sent ∷ []))
    × (r'.batch_id ≡ some "B1")
    × ((now' : ℕ) (locked : String → Bool)
        → 50 ≤ now'
        → locked "ITM1" ≡ false
        → is_due now' locked r' ≡ true)
fail-batched_example = fail-batched 20 30 "timeout" "ITM1" sent (sent ∷ []) sent-HasOnly refl
