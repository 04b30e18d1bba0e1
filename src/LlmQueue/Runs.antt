-- ===== src/LlmQueue/Runs.antt =====
-- Sequences of calls on the queue of app/services/llm_analysis_queue.py, by any number of workers:
-- each call runs as a whole, as its statement does.
use duka_scraper.Base.{ℕ, String, Bool, Option, List, [], ◌∷◌}
use duka_scraper.LlmQueue.{Row, enqueue, fail, claim, settle_success, mark_batched, reclaim_stalled}

pub data Op : Type 0 where
  enqueue_item : (item_id job_id payload : String) → Op
  claim_items : (String → Bool) → ℕ → String → Op
  settle_items : List String → Op
  fail_item : (item_id error : String) → Option ℕ → Op
  mark_items : List (String × String) → String → Op
  reclaim_items : ℕ → Op

module _ {Payload : Type 0} (loads : String → Option Payload) where
  unfoldable pub apply : ℕ → Op → List Row → List Row
  apply now (Op.enqueue_item i job payload) q = (enqueue now i job payload q).1
  apply now (Op.claim_items locked limit worker) q = (claim loads now locked limit worker q).1
  apply now (Op.settle_items ids) q = settle_success ids q
  apply now (Op.fail_item i error delay) q = fail now i error delay q
  apply now (Op.mark_items entries batch) q = (mark_batched now entries batch q).1
  apply now (Op.reclaim_items lease) q = (reclaim_stalled now lease q).1

  unfoldable pub run : List (ℕ × Op) → List Row → List Row
  unfolding apply
  run [] q = q
  run ((now, op) ∷ ops) q = run ops (apply now op q)
