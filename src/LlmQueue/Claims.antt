-- ===== src/LlmQueue/Claims.antt =====
-- Which rows a claim of app/services/llm_analysis_queue.py takes: those that are due, and the other
-- rows stay as they are.
use duka_scraper.Base.{
  ℕ, zero, suc, ◌≡◌, ◌≢◌, refl, ap, String, Bool, true, false, ◌&&◌, Option, none, some, List, [],
  ◌∷◌, map, arith, eq_iff, keep, take, All, ◌==◌, string_eq, if◌then◌else◌, contains, Bool-cases,
  ltb, if_ind, inl, inr,
}
use duka_scraper.Base.Table.{update_row}
use duka_scraper.LlmQueue.{
  Row, row_key, insert_due, sort_due, claimable, is_due, fail, write_claim, write_failed,
  write_retry, update_all,
}
use duka_scraper.LlmQueue.Rows.{HasOnly, HasOnly-item_id, HasOnly-map_same}

module _ (P : Row → Type 0) where
  All-insert_due : (r : Row) (rs : List Row) → P r → All P rs → All P (insert_due r rs)
  unfolding insert_due
  All-insert_due r [] p h = (p, tt)
  All-insert_due r (x ∷ rs) p (q, h) =
      if_ind (All P) (ltb r.next_attempt_at x.next_attempt_at) (λ e. (p, (q, h)))
        (λ e. (q, All-insert_due r rs p h))

  All-sort_due : (rs sorted : List Row) → All P rs → All P sorted → All P (sort_due rs sorted)
  unfolding sort_due
  All-sort_due [] sorted h s = s
  All-sort_due (r ∷ rs) sorted (p, h) s =
      All-sort_due rs (insert_due r sorted) h (All-insert_due r sorted p s)

  All-take : (n : ℕ) (rs : List Row) → All P rs → All P (take n rs)
  All-take zero rs h = tt
  All-take (suc n) [] h = tt
  All-take (suc n) (r ∷ rs) (p, h) = (p, All-take n rs h)

  pub All-claimable :
      (now : ℕ) (locked : String → Bool) (limit : ℕ) (q : List Row)
      → All P (keep (is_due now locked) q)
      → All P (claimable now locked limit q)
  unfolding claimable
  All-claimable now locked limit q h = All-take limit _ (All-sort_due _ [] h tt)

due_others :
    (now : ℕ) (locked : String → Bool) (j : String) (r : Row) (q : List Row)
    → is_due now locked r ≡ false
    → All (λ (x : Row). x.item_id ≡ j → x ≡ r) q
    → All (λ (x : Row). x.item_id ≢ j) (keep (is_due now locked) q)
due_others now locked j r [] idle h = tt
due_others now locked j r (x ∷ q) idle (one, rest) = elim (Bool-cases (is_due now locked x)) [
  | inl due ↦ rw due (
    λ e. let same = ap (is_due now locked) (one e) in ground arith,
    due_others now locked j r q idle rest,
  )
  | inr bad ↦ rw bad (due_others now locked j r q idle rest)
]

-- A claim takes no row of an item whose row is not due.
pub claimable_others :
    (now : ℕ) (locked : String → Bool) (limit : ℕ) (j : String) (r : Row) (q : List Row)
    → is_due now locked r ≡ false
    → HasOnly j r q
    → All (λ (x : Row). x.item_id ≢ j) (claimable now locked limit q)
claimable_others now locked limit j r q idle h =
    All-claimable (λ x. x.item_id ≢ j) now locked limit q (due_others now locked j r q idle h.sole)

pub contains_others :
    (j : String) (rs : List Row)
    → All (λ (x : Row). x.item_id ≢ j) rs
    → contains (map row_key rs) j ≡ false
contains_others j [] h = refl
contains_others j (x ∷ rs) (one, rest) =
    ground (arith, contains_others j rs rest, eq_iff j x.item_id)

pub others_contains :
    (j : String) (rs : List Row)
    → contains (map row_key rs) j ≡ false
    → All (λ (x : Row). x.item_id ≢ j) rs
others_contains j [] h = tt
others_contains j (x ∷ rs) h =
    (ground (arith, eq_iff j x.item_id), others_contains j rs (ground arith))

pub All-map_claim :
    (now : ℕ) (worker j : String) (rs : List Row)
    → All (λ (x : Row). x.item_id ≢ j) rs
    → All (λ (x : Row). x.item_id ≢ j) (map (write_claim now worker) rs)
All-map_claim now worker j [] h = tt
All-map_claim now worker j (x ∷ rs) (one, rest) = (one, All-map_claim now worker j rs rest)

-- An update of other items leaves the row.
pub HasOnly-update_all :
    (ids : List String) (guard : Row → Bool) (f : Row → Row) (j : String) (r : Row) (q : List Row)
    → ((x : Row) → (f x).item_id ≡ x.item_id)
    → (contains ids j && guard r) ≡ false
    → HasOnly j r q
    → HasOnly j r (update_all ids guard f q)
HasOnly-update_all ids guard f j r q keys out h =
    HasOnly-map_same (λ x. if contains ids x.item_id && guard x then f x else x) j r q
      (λ x. ground (arith, keys x)) (ground (arith, HasOnly-item_id j r q h)) h

pub HasOnly-fail :
    (now : ℕ) (i error : String) (delay : Option ℕ) (j : String) (r : Row) (q : List Row)
    → (i == j) ≡ false
    → HasOnly j r q
    → HasOnly j r (fail now i error delay q)
unfolding fail
HasOnly-fail now i error none j r q other h =
    HasOnly-map_same (update_row row_key i (λ x. true) (write_failed now error)) j r q
      (λ x. ground arith) (ground (arith, HasOnly-item_id j r q h, eq_iff i j, eq_iff r.item_id i))
      h
HasOnly-fail now i error (some delay) j r q other h =
    HasOnly-map_same (update_row row_key i (λ x. true) (write_retry now error delay)) j r q
      (λ x. ground arith) (ground (arith, HasOnly-item_id j r q h, eq_iff i j, eq_iff r.item_id i))
      h
