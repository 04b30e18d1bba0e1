-- ===== src/LlmQueue.antt =====
-- The table `llm_analysis_queue` and the methods of `LLMAnalysisQueue`
-- (app/services/llm_analysis_queue.py). A method takes the time and the rows and returns the rows
-- and its result; a connected pool is taken for granted. `json.loads` is an argument.
pub mod Rows
pub mod Claims
pub mod Loads
pub mod Runs
pub mod Lease
pub mod Batches
pub mod Once
mod Tests
use duka_scraper.Base.{
  ℕ, ◌+◌, String, Bool, true, false, ◌&&◌, Option, none, some, List, [], ◌∷◌, ◌++◌, map, ltb, leb,
  not, length, take, keep, any, ◌==◌, string_eq, if◌then◌else◌, contains,
}
use duka_scraper.Base.Table.{select, update}
use duka_scraper.CrawlLog.{truncate}

pub data QueueStatus : Type 0 where
  pending processing done failed batched : QueueStatus

-- A row of the table; times are numbers of seconds.
pub record Row : Type 0 where
  pub item_id : String
  pub job_id : String
  pub payload : String
  pub status : QueueStatus
  pub attempts : ℕ
  pub last_error : Option String
  pub next_attempt_at : ℕ
  pub claimed_at : Option ℕ
  pub worker_id : Option String
  pub batch_id : Option String
  pub created_at : ℕ
  pub updated_at : ℕ

pub record QueueItem (Payload : Type 0) : Type 0 where
  pub item_id : String
  pub job_id : String
  pub payload : Payload
  pub attempts : ℕ

pub record BatchRow (Payload : Type 0) : Type 0 where
  pub item_id : String
  pub job_id : String
  pub payload : Payload

abbrev pub is_pending : QueueStatus → Bool
is_pending QueueStatus.pending = true
is_pending _ = false

abbrev pub is_processing : QueueStatus → Bool
is_processing QueueStatus.processing = true
is_processing _ = false

abbrev pub is_batched : QueueStatus → Bool
is_batched QueueStatus.batched = true
is_batched _ = false

abbrev pub row_key : Row → String
row_key r = r.item_id

unfoldable pub get_row : String → List Row → Option Row
get_row item_id q = select row_key item_id q

abbrev pub new_row : ℕ → String → String → String → Row
new_row now item_id job_id payload = record {
  item_id = item_id;
  job_id = job_id;
  payload = payload;
  status = QueueStatus.pending;
  attempts = 0;
  last_error = none;
  next_attempt_at = now;
  claimed_at = none;
  worker_id = none;
  batch_id = none;
  created_at = now;
  updated_at = now;
}

-- `ON CONFLICT (item_id) DO NOTHING`
unfoldable pub enqueue : ℕ → String → String → String → List Row → Bool × List Row
unfolding get_row
enqueue now item_id job_id payload q = elim (get_row item_id q) [
  | some _ ↦ (false, q)
  | none ↦ (true, q ++ new_row now item_id job_id payload ∷ [])
]

-- The subquery of `claim`: `locked` are the rows that another transaction holds at the time.
abbrev pub is_due : ℕ → (String → Bool) → Row → Bool
is_due now locked r = is_pending r.status && leb r.next_attempt_at now && not (locked r.item_id)

unfoldable pub insert_due : Row → List Row → List Row
insert_due r [] = r ∷ []
insert_due r (x ∷ xs) =
    let rest = insert_due r xs in
    if ltb r.next_attempt_at x.next_attempt_at then r ∷ x ∷ xs else x ∷ rest

unfoldable pub sort_due : List Row → List Row → List Row
unfolding insert_due
sort_due [] sorted = sorted
sort_due (r ∷ rs) sorted = sort_due rs (insert_due r sorted)

unfoldable pub claimable : ℕ → (String → Bool) → ℕ → List Row → List Row
unfolding sort_due
claimable now locked limit q = take limit (sort_due (keep (is_due now locked) q) [])

abbrev pub write_claim : ℕ → String → Row → Row
write_claim now worker r = record r {
  status = QueueStatus.processing;
  attempts = r.attempts + 1;
  claimed_at = some now;
  worker_id = some worker;
  updated_at = now;
}

-- `UPDATE … WHERE item_id = ANY(ids) AND guard`
abbrev pub update_all : List String → (Row → Bool) → (Row → Row) → List Row → List Row
update_all ids guard f = map (λ r. if contains ids r.item_id && guard r then f r else r)

abbrev pub write_failed : ℕ → String → Row → Row
write_failed now error r = record r {
  status = QueueStatus.failed;
  last_error = some (truncate 1000 error);
  updated_at = now;
}

abbrev pub write_retry : ℕ → String → ℕ → Row → Row
write_retry now error delay r = record r {
  status = QueueStatus.pending;
  last_error = some (truncate 1000 error);
  next_attempt_at = now + delay;
  claimed_at = none;
  updated_at = now;
}

-- `none` is the delay of an item that is not tried again.
unfoldable pub fail : ℕ → String → String → Option ℕ → List Row → List Row
fail now item_id error none q = update row_key item_id (λ r. true) (write_failed now error) q
fail now item_id error (some delay) q =
    update row_key item_id (λ r. true) (write_retry now error delay) q

module _ {Payload : Type 0} (loads : String → Option Payload) where
  -- The loop over the rows that were claimed.
  unfoldable pub load_claimed : ℕ → List Row → List Row → List (QueueItem Payload) × List Row
  unfolding fail
  load_claimed now [] q = ([], q)
  load_claimed now (r ∷ rs) q = elim (loads r.payload) [
    | none ↦ load_claimed now rs (fail now r.item_id "corrupt payload" none q)
    | some payload ↦
        let (items, q') = load_claimed now rs q in
        (
          record {
            item_id = r.item_id;
            job_id = r.job_id;
            payload = payload;
            attempts = r.attempts;
          }
              ∷ items,
          q',
        )
  ]

  -- The rows that `RETURNING` gives are those of the subquery, as written.
  unfoldable pub claim :
      ℕ → (String → Bool) → ℕ → String → List Row → List (QueueItem Payload) × List Row
  unfolding claimable load_claimed
  claim now locked limit worker q =
      let chosen = claimable now locked limit q in
      load_claimed now (map (write_claim now worker) chosen)
        (update_all (map row_key chosen) (λ r. true) (write_claim now worker) q)

  -- What `rows_for_batch` gives for one row, with its payload; `none` is the error of
  -- `json.loads`, which nothing catches there.
  unfoldable pub load_rows : List Row → List String → Option (List (BatchRow Payload))
  load_rows rows [] = some []
  load_rows rows (i ∷ ids) =
      let rest = load_rows rows ids in
      elim (select row_key i rows) [
        | none ↦ rest
        | some r ↦ elim (loads r.payload) [
          | none ↦ none
          | some payload ↦ elim rest [
            | none ↦ none
            | some items ↦
                some (record { item_id = i; job_id = r.job_id; payload = payload } ∷ items)
          ]
        ]
      ]

  unfoldable pub rows_for_batch : List String → List Row → Option (List (BatchRow Payload))
  unfolding load_rows
  rows_for_batch ids q = load_rows (keep (λ r. contains ids r.item_id && is_batched r.status) q) ids

-- `DELETE … WHERE item_id = ANY(ids)`
unfoldable pub settle_success : List String → List Row → List Row
settle_success ids q = keep (λ r. not (contains ids r.item_id)) q

abbrev pub held_by : String → Row → Bool
held_by worker r =
    is_processing r.status && (elim r.worker_id [ none ↦ false | some w ↦ w == worker ])

abbrev pub write_batched : ℕ → String → Row → Row
write_batched now batch r = record r {
  status = QueueStatus.batched;
  batch_id = some batch;
  last_error = none;
  claimed_at = none;
  updated_at = now;
}

-- The worker is that of the first entry.
unfoldable pub mark_batched : ℕ → List (String × String) → String → List Row → ℕ × List Row
mark_batched now [] batch q = (0, q)
mark_batched now ((i, worker) ∷ entries) batch q =
    let ids = i ∷ map (λ e. e.0) entries in
    (
      length (keep (λ r. contains ids r.item_id && held_by worker r) q),
      update_all ids (held_by worker) (write_batched now batch) q,
    )

-- `claimed_at < now - lease`; a row without a claim is not older than anything.
abbrev pub is_stalled : ℕ → ℕ → Row → Bool
is_stalled now lease r =
    is_processing r.status && (elim r.claimed_at [ none ↦ false | some t ↦ ltb (t + lease) now ])

abbrev pub write_reclaimed : ℕ → Row → Row
write_reclaimed now r = record r {
  status = QueueStatus.pending;
  claimed_at = none;
  worker_id = none;
  last_error = some (elim r.last_error [ none ↦ "worker lease expired" | some e ↦ e ]);
  updated_at = now;
}

unfoldable pub reclaim_stalled : ℕ → ℕ → List Row → ℕ × List Row
reclaim_stalled now lease q = (
  length (keep (is_stalled now lease) q),
  map (λ r. if is_stalled now lease r then write_reclaimed now r else r) q,
)
