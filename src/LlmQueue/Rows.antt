-- ===== src/LlmQueue/Rows.antt =====
-- Which row an item has in the queue of app/services/llm_analysis_queue.py, and how the
-- statements of its methods change it.
use mathlib.Core.Option
use duka_scraper.Base.{
  ℕ, ◌≡◌, refl, sym, ap, ◌∙◌, String, Bool, true, Option, none, some, List, [], ◌∷◌, ◌++◌, map,
  arith, eq_iff, subst, keep, All, string_eq, inl, inr, Bool-cases, Option-cases, All-append,
}
use duka_scraper.Base.Table.{select}
use duka_scraper.LlmQueue.{Row, row_key, get_row, new_row, enqueue}

-- The item `j` has the row `r`, and the table no other row for it.
pub record HasOnly (j : String) (r : Row) (q : List Row) : Type 0 where
  pub found : get_row j q ≡ some r
  pub sole : All (λ (x : Row). x.item_id ≡ j → x ≡ r) q

select_key : (j : String) (q : List Row) (r : Row) → select row_key j q ≡ some r → r.item_id ≡ j
select_key j [] r h = ground arith
select_key j (x ∷ q) r h = ground (arith, select_key j q r, eq_iff x.item_id j)

pub HasOnly-item_id : (j : String) (r : Row) (q : List Row) → HasOnly j r q → r.item_id ≡ j
unfolding get_row
HasOnly-item_id j r q h = select_key j q r h.found

select-map :
    (f : Row → Row) (j : String) (q : List Row)
    → ((x : Row) → (f x).item_id ≡ x.item_id)
    → select row_key j (map f q) ≡ Option.map f (select row_key j q)
select-map f j [] keys = refl
select-map f j (x ∷ q) keys = ground (arith, select-map f j q keys, keys x)

pub sole-map :
    (f : Row → Row) (j : String) (r : Row) (q : List Row)
    → ((x : Row) → (f x).item_id ≡ x.item_id)
    → All (λ (x : Row). x.item_id ≡ j → x ≡ r) q
    → All (λ (x : Row). x.item_id ≡ j → x ≡ f r) (map f q)
sole-map f j r [] keys h = tt
sole-map f j r (x ∷ q) keys (one, rest) =
    (λ e. ap f (one (sym (keys x) ∙ e)), sole-map f j r q keys rest)

-- A change of every row that keeps the ids changes the row of an item.
pub HasOnly-map :
    (f : Row → Row) (j : String) (r : Row) (q : List Row)
    → ((x : Row) → (f x).item_id ≡ x.item_id)
    → HasOnly j r q
    → HasOnly j (f r) (map f q)
unfolding get_row
HasOnly-map f j r q keys h = record {
  found = select-map f j q keys ∙ ap (Option.map f) h.found;
  sole = sole-map f j r q keys h.sole;
}

-- One that leaves the row itself leaves what the item has.
pub HasOnly-map_same :
    (f : Row → Row) (j : String) (r : Row) (q : List Row)
    → ((x : Row) → (f x).item_id ≡ x.item_id)
    → f r ≡ r
    → HasOnly j r q
    → HasOnly j r (map f q)
HasOnly-map_same f j r q keys same h =
    subst (λ y. HasOnly j y (map f q)) same (HasOnly-map f j r q keys h)

select-keep :
    (p : Row → Bool) (j : String) (r : Row) (q : List Row)
    → p r ≡ true
    → All (λ (x : Row). x.item_id ≡ j → x ≡ r) q
    → select row_key j q ≡ some r
    → select row_key j (keep p q) ≡ some r
select-keep p j r [] h one e = e
select-keep p j r (x ∷ q) h (one, rest) e =
    ground (arith, select-keep p j r q h rest, eq_iff x.item_id j)

pub sole-keep :
    (p : Row → Bool) (j : String) (r : Row) (q : List Row)
    → All (λ (x : Row). x.item_id ≡ j → x ≡ r) q
    → All (λ (x : Row). x.item_id ≡ j → x ≡ r) (keep p q)
sole-keep p j r [] h = tt
sole-keep p j r (x ∷ q) (one, rest) = elim (Bool-cases (p x)) [
  | inl good ↦ rw good (one, sole-keep p j r q rest)
  | inr bad ↦ rw bad (sole-keep p j r q rest)
]

pub HasOnly-keep :
    (p : Row → Bool) (j : String) (r : Row) (q : List Row)
    → p r ≡ true
    → HasOnly j r q
    → HasOnly j r (keep p q)
unfolding get_row
HasOnly-keep p j r q h only = record {
  found = select-keep p j r q h only.sole only.found;
  sole = sole-keep p j r q only.sole;
}

select-append :
    (j : String) (r : Row) (q more : List Row)
    → select row_key j q ≡ some r
    → select row_key j (q ++ more) ≡ some r
select-append j r [] more h = cc
select-append j r (x ∷ q) more h = ground (arith, select-append j r q more)

not_both : (r : Row) (o : Option Row) → o ≡ none → o ≡ some r → ⊥
not_both r o e e' = ground arith

pub HasOnly-enqueue :
    (now : ℕ) (i job payload : String) (j : String) (r : Row) (q : List Row)
    → HasOnly j r q
    → HasOnly j r (enqueue now i job payload q).1
unfolding enqueue get_row
HasOnly-enqueue now i job payload j r q h = elim (Option-cases (select row_key i q)) [
  | inl fresh ↦
      rw (fresh, enqueue)
        (record {
          found = select-append j r q _ h.found;
          sole =
              All-append _ q (new_row now i job payload ∷ []) h.sole
                (λ e. absurd (not_both r _ fresh (ap (λ k. select row_key k q) e ∙ h.found)), tt);
        })
  | inr (x, taken) ↦ rw (taken, enqueue) h
]
