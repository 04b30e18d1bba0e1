-- ===== src/LlmQueue/Once.antt =====
-- An item is queued once (`enqueue`, app/services/llm_analysis_queue.py).
use duka_scraper.Base.{
  ℕ, ◌≡◌, ◌∙◌, refl, String, Bool, true, false, Option, none, some, List, [], ◌∷◌, ◌++◌, map, any,
  keep, All, arith, eq_iff, ◌==◌, ◌&&◌, string_eq, contains, not, inl, inr, Option-cases,
  Bool-cases, if◌then◌else◌,
}
use duka_scraper.Base.Table.{select, update_row}
use duka_scraper.LlmQueue.{
  Row, row_key, get_row, new_row, enqueue, fail, write_failed, write_retry, update_all, write_claim,
  claimable, load_claimed, claim, settle_success, held_by, write_batched, mark_batched, is_stalled,
  write_reclaimed, reclaim_stalled,
}
use duka_scraper.LlmQueue.Runs.{Op, apply, run}

-- The item has a row, in whatever status.
abbrev pub has_row : String → List Row → Bool
has_row i q = any (λ (r : Row). r.item_id == i) q

-- The item is not among those that are settled, whose rows are deleted.
abbrev pub Spares : String → ℕ × Op → Type 0
Spares i (now, Op.settle_items ids) = contains ids i ≡ false
Spares i _ = Unit

has_row-map :
    (f : Row → Row) (i : String) (q : List Row)
    → ((r : Row) → (f r).item_id ≡ r.item_id)
    → has_row i (map f q) ≡ has_row i q
has_row-map f i [] same = refl
has_row-map f i (r ∷ q) same = ground (arith, same r, has_row-map f i q same)

has_row-append :
    (i : String) (q more : List Row) → has_row i q ≡ true → has_row i (q ++ more) ≡ true
has_row-append i [] more h = ground arith
has_row-append i (r ∷ q) more h = ground (arith, has_row-append i q more)

has_row-keep :
    (ids : List String) (i : String) (q : List Row)
    → contains ids i ≡ false
    → has_row i q ≡ true
    → has_row i (keep (λ (r : Row). not (contains ids r.item_id)) q) ≡ true
has_row-keep ids i [] spared h = h
has_row-keep ids i (r ∷ q) spared h =
    ground (arith, has_row-keep ids i q spared, eq_iff r.item_id i)

has_row-enqueue :
    (now : ℕ) (j job payload i : String) (q : List Row)
    → has_row i q ≡ true
    → has_row i (enqueue now j job payload q).1 ≡ true
unfolding enqueue get_row
has_row-enqueue now j job payload i q h = elim (Option-cases (select row_key j q)) [
  | inl fresh ↦ rw (fresh, enqueue, get_row) (has_row-append i q _ h)
  | inr (r, taken) ↦ rw (taken, enqueue, get_row) h
]

has_row-fail :
    (now : ℕ) (j error : String) (delay : Option ℕ) (i : String) (q : List Row)
    → has_row i (fail now j error delay q) ≡ has_row i q
unfolding fail
has_row-fail now j error none i q =
    has_row-map (update_row row_key j (λ r. true) (write_failed now error)) i q (λ r. ground arith)
has_row-fail now j error (some delay) i q =
    has_row-map (update_row row_key j (λ r. true) (write_retry now error delay)) i q
      (λ r. ground arith)

has_row-last :
    (i : String) (q : List Row) (r : Row) → r.item_id ≡ i → has_row i (q ++ r ∷ []) ≡ true
has_row-last i [] r e = ground (arith, eq_iff r.item_id i)
has_row-last i (x ∷ q) r e = ground (arith, has_row-last i q r)

has_row-selected :
    (i : String) (q : List Row) (r : Row) → select row_key i q ≡ some r → has_row i q ≡ true
has_row-selected i [] r e = ground arith
has_row-selected i (x ∷ q) r e = ground (arith, has_row-selected i q r)

has_row-enqueued :
    (now : ℕ) (i job payload : String) (q : List Row)
    → has_row i (enqueue now i job payload q).1 ≡ true
unfolding enqueue get_row
has_row-enqueued now i job payload q = elim (Option-cases (select row_key i q)) [
  | inl fresh ↦ rw (fresh, enqueue, get_row) (has_row-last i q (new_row now i job payload) refl)
  | inr (r, taken) ↦ rw (taken, enqueue, get_row) (has_row-selected i q r taken)
]

known_enqueue :
    (now : ℕ) (i job payload : String) (q : List Row) (r : Row)
    → select row_key i q ≡ some r
    → enqueue now i job payload q ≡ (false, q)
unfolding enqueue get_row
known_enqueue now i job payload q r h = rw (h, enqueue) refl

module _ {Payload : Type 0} (loads : String → Option Payload) where
  has_row-load_claimed :
      (now : ℕ) (rs : List Row) (i : String) (q : List Row)
      → has_row i (load_claimed loads now rs q).1 ≡ has_row i q
  unfolding load_claimed
  has_row-load_claimed now [] i q = refl
  has_row-load_claimed now (r ∷ rs) i q = elim (Option-cases (loads r.payload)) [
    | inl corrupt ↦
        rw (corrupt, load_claimed)
          (has_row-load_claimed now rs i (fail now r.item_id "corrupt payload" none q)
            ∙ has_row-fail now r.item_id "corrupt payload" none i q)
    | inr (payload, good) ↦ rw (good, load_claimed) (has_row-load_claimed now rs i q)
  ]

  has_row-apply :
      (now : ℕ) (op : Op) (i : String) (q : List Row)
      → Spares i (now, op)
      → has_row i q ≡ true
      → has_row i (apply loads now op q) ≡ true
  unfolding apply claim mark_batched reclaim_stalled settle_success
  has_row-apply now (Op.enqueue_item j job payload) i q spared h =
      has_row-enqueue now j job payload i q h
  has_row-apply now (Op.claim_items locked limit worker) i q spared h =
      let chosen = claimable now locked limit q in
      has_row-load_claimed now (map (write_claim now worker) chosen) i
        (update_all (map row_key chosen) (λ r. true) (write_claim now worker) q)
      ∙ has_row-map
          (λ r.
            if contains (map row_key chosen) r.item_id && true then write_claim now worker r else r)
          i q (λ r. ground arith)
      ∙ h
  has_row-apply now (Op.settle_items ids) i q spared h = has_row-keep ids i q spared h
  has_row-apply now (Op.fail_item j error delay) i q spared h =
      has_row-fail now j error delay i q ∙ h
  has_row-apply now (Op.mark_items [] batch) i q spared h = h
  has_row-apply now (Op.mark_items ((j, worker) ∷ entries) batch) i q spared h =
      has_row-map
        (λ r.
          if contains (j ∷ map (λ e. e.0) entries) r.item_id && held_by worker r
          then write_batched now batch r
          else r)
        i q (λ r. ground arith)
      ∙ h
  has_row-apply now (Op.reclaim_items lease) i q spared h =
      has_row-map (λ r. if is_stalled now lease r then write_reclaimed now r else r) i q
        (λ r. ground arith)
      ∙ h

  has_row-run :
      (ops : List (ℕ × Op)) (i : String) (q : List Row)
      → All (Spares i) ops
      → has_row i q ≡ true
      → has_row i (run loads ops q) ≡ true
  unfolding run
  has_row-run [] i q spared h = h
  has_row-run ((now, op) ∷ ops) i q (one, rest) h =
      has_row-run ops i (apply loads now op q) rest (has_row-apply now op i q one h)

  has_row-select :
      (i : String) (q : List Row) → has_row i q ≡ true → (r : Row) × (select row_key i q ≡ some r)
  has_row-select i [] h = absurd (ground arith)
  has_row-select i (r ∷ q) h = elim (Bool-cases (r.item_id == i)) [
    | inl here ↦ (r, rw here refl)
    | inr there ↦ let (x, found) = has_row-select i q (ground arith) in (x, ground arith)
  ]

  -- An item that was enqueued is not enqueued again, whatever is enqueued, claimed, failed, batched
  -- and reclaimed in between, as long as it is not settled: the answer is no, whatever the job and
  -- the payload of the second message are, and the table stays as it is.
  pub enqueue_once :
      (now now' : ℕ) (i job job' payload payload' : String) (ops : List (ℕ × Op)) (q : List Row)
      → All (Spares i) ops
      → let later = run loads ops (enqueue now i job payload q).1 in
        enqueue now' i job' payload' later ≡ (false, later)
  enqueue_once now now' i job job' payload payload' ops q spared =
      let later = run loads ops (enqueue now i job payload q).1 in
      let (r, found) =
        has_row-select i later
          (has_row-run ops i _ spared (has_row-enqueued now i job payload q)) in
      known_enqueue now' i job' payload' later r found
