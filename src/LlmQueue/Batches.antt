-- ===== src/LlmQueue/Batches.antt =====
-- What the queue of app/services/llm_analysis_queue.py keeps of the items that a batch has.
use duka_scraper.Base.{
  ℕ, ◌+◌, ◌≡◌, ◌≤◌, refl, String, Bool, true, false, ◌&&◌, Option, none, some, List, [], ◌∷◌, map,
  arith, eq_iff, subst, All, keep, any, ◌==◌, ==_refl, string_eq, contains, inl, inr, Bool-cases,
  Option-cases,
}
use duka_scraper.Base.Table.{select, update_row}
use duka_scraper.LlmQueue.{
  QueueStatus, Row, BatchRow, row_key, is_batched, is_due, fail, write_retry, load_rows,
  rows_for_batch,
}
use duka_scraper.LlmQueue.Rows.{HasOnly, HasOnly-item_id, HasOnly-map}

-- A worker that fails an item with a delay after the item went into a batch takes it back: the row
-- is pending again, still with its batch, and is due for every claim after the delay that finds it
-- unlocked.
pub fail-batched :
    (now delay : ℕ) (error j : String) (r : Row) (q : List Row)
    → HasOnly j r q
    → r.status ≡ QueueStatus.batched
    → (r' : Row) × HasOnly j r' (fail now j error (some delay) q)
      × (r'.batch_id ≡ r.batch_id)
      × ((now' : ℕ) (locked : String → Bool)
          → now + delay ≤ now'
          → locked j ≡ false
          → is_due now' locked r' ≡ true)
unfolding fail
fail-batched now delay error j r q h b =
    let step = update_row row_key j (λ x. true) (write_retry now error delay) in
    let written : step r ≡ write_retry now error delay r =
      ground (arith, HasOnly-item_id j r q h, ==_refl j) in
    (
      write_retry now error delay r,
      subst (λ y. HasOnly j y (map step q)) written (HasOnly-map step j r q (λ x. ground arith) h),
      refl,
      λ now' locked late free. ground (arith, HasOnly-item_id j r q h),
    )

abbrev pub in_batch : List Row → String → Bool
in_batch q i = any (λ r. r.item_id == i && is_batched r.status) q

abbrev is_wanted : List String → Row → Bool
is_wanted ids r = contains ids r.item_id && is_batched r.status

select-wanted_none :
    (ids : List String) (i : String) (q : List Row)
    → contains ids i ≡ true
    → select row_key i (keep (is_wanted ids) q) ≡ none
    → in_batch q i ≡ false
select-wanted_none ids i [] m h = refl
select-wanted_none ids i (x ∷ q) m h = elim (Bool-cases (is_wanted ids x)) [
  | inl good ↦ ground (arith, select-wanted_none ids i q m, eq_iff x.item_id i)
  | inr bad ↦ ground (arith, select-wanted_none ids i q m, eq_iff x.item_id i)
]

select-wanted_some :
    (ids : List String) (i : String) (q : List Row) (r : Row)
    → select row_key i (keep (is_wanted ids) q) ≡ some r
    → in_batch q i ≡ true
select-wanted_some ids i [] r h = ground arith
select-wanted_some ids i (x ∷ q) r h = elim (Bool-cases (is_wanted ids x)) [
  | inl good ↦ ground (arith, select-wanted_some ids i q r, eq_iff x.item_id i)
  | inr bad ↦ ground (arith, select-wanted_some ids i q r, eq_iff x.item_id i)
]

All-contains :
    (ids whole : List String)
    → ((i : String) → contains ids i ≡ true → contains whole i ≡ true)
    → All (λ i. contains whole i ≡ true) ids
All-contains [] whole f = tt
All-contains (i ∷ ids) whole f =
    (f i (ground (arith, ==_refl i)), All-contains ids whole (λ j h. f j (ground arith)))

module _ {Payload : Type 0} (loads : String → Option Payload) where
  load_rows-item_id :
      (ids later : List String) (q : List Row) (items : List (BatchRow Payload))
      → All (λ i. contains ids i ≡ true) later
      → load_rows loads (keep (is_wanted ids) q) later ≡ some items
      → map (λ (i : BatchRow Payload). i.item_id) items ≡ keep (in_batch q) later
  unfolding load_rows
  load_rows-item_id ids [] q items m h = ground arith
  load_rows-item_id ids (i ∷ later) q items (one, rest) h =
      elim (Option-cases (select row_key i (keep (is_wanted ids) q))) [
        | inl missing ↦
            let out = select-wanted_none ids i q one missing in
            ground (arith, load_rows-item_id ids later q items rest)
        | inr (r, found) ↦
            let batched_row = select-wanted_some ids i q r found in
            let more = load_rows loads (keep (is_wanted ids) q) later in
            elim (Option-cases (loads r.payload)) [
              | inl corrupt ↦ ground arith
              | inr (payload, good) ↦ elim (Option-cases more) [
                | inl stuck ↦ ground arith
                | inr (items', done) ↦
                    let same = load_rows-item_id ids later q items' rest done in ground arith
              ]
            ]
      ]

  -- The rows of a batch come in the order of the ids that were asked for, one for each id that has
  -- a batched row, whichever order the table has.
  pub rows_for_batch-item_id :
      (ids : List String) (q : List Row) (items : List (BatchRow Payload))
      → rows_for_batch loads ids q ≡ some items
      → map (λ (i : BatchRow Payload). i.item_id) items ≡ keep (in_batch q) ids
  unfolding rows_for_batch
  rows_for_batch-item_id ids q items h =
      load_rows-item_id ids ids q items (All-contains ids ids (λ i m. m)) h
