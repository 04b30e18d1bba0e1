-- ===== src/Alerts/Items.antt =====
-- One alert for one item, however often it is analysed (app/services/alert_service.py,
-- app/storage/postgres/client.py).
use duka_scraper.Base.{
  ℕ, ◌≡◌, ◌∙◌, ap, refl, Option, String, Bool, true, false, none, some, List, [], ◌∷◌, ◌++◌, map,
  find, keep, ◌==◌, string_eq, ==_refl, eq_iff, arith, Option-cases, inl, inr, if◌then◌else◌,
}
use duka_scraper.Alerts.{
  Alert, AlertType, AlertTables, Finding, has_item, write_finding, new_alert, with_source,
  upsert_alert,
}
use duka_scraper.Alerts.Routes.{record_alert, qualifies_as_alert}

write_items : Finding → List Alert → List Alert
write_items f = map (λ x. if has_item f.item_id x then write_finding (with_source f) x else x)

write_items_twice :
    (f : Finding) (xs : List Alert) → write_items f (write_items f xs) ≡ write_items f xs
unfolding write_items
write_items_twice f [] = refl
write_items_twice f (x ∷ xs) = ground (arith, write_items_twice f xs)

write_items_absent :
    (f : Finding) (xs : List Alert) → find (has_item f.item_id) xs ≡ none → write_items f xs ≡ xs
unfolding write_items
write_items_absent f [] e = refl
write_items_absent f (x ∷ xs) e = ground (arith, write_items_absent f xs, e)

find-write_items :
    (f : Finding) (xs : List Alert) (a : Alert)
    → find (has_item f.item_id) xs ≡ some a
    → find (has_item f.item_id) (write_items f xs) ≡ some (write_finding (with_source f) a)
unfolding write_items
find-write_items f [] a e = cc
find-write_items f (x ∷ xs) a e = ground (arith, find-write_items f xs a, e)

find_last :
    (f : Finding) (xs : List Alert) (a : Alert)
    → find (has_item f.item_id) xs ≡ none
    → has_item f.item_id a ≡ true
    → find (has_item f.item_id) (xs ++ a ∷ []) ≡ some a
find_last f [] a e h = ground (arith, h)
find_last f (x ∷ xs) a e h = ground (arith, find_last f xs a, e, h)

write_items_last :
    (f : Finding) (xs : List Alert) (a : Alert)
    → find (has_item f.item_id) xs ≡ none
    → write_finding (with_source f) a ≡ a
    → write_items f (xs ++ a ∷ []) ≡ xs ++ a ∷ []
unfolding write_items
write_items_last f [] a e h = ground (arith, h)
write_items_last f (x ∷ xs) a e h = ground (arith, write_items_last f xs a, e, h)

-- The other items keep their alerts, and this one has the finding.
find-upsert_alert :
    (now next_id : ℕ) (f : Finding) (db : AlertTables)
    → find (has_item f.item_id) (upsert_alert now next_id f db).1.alerts
      ≡ some (elim (find (has_item f.item_id) db.alerts) as (λ _. Alert) [
        | none ↦ new_alert now next_id (with_source f)
        | some a ↦ write_finding (with_source f) a
      ])
unfolding upsert_alert write_items
find-upsert_alert now next_id f db = elim (Option-cases (find (has_item f.item_id) db.alerts)) [
  | inl new ↦
      let a = new_alert now next_id (with_source f) in
      ground (arith, new, find_last f db.alerts a new (==_refl f.item_id))
  | inr (a, old) ↦ ground (arith, old, find-write_items f db.alerts a old)
]

upsert_alert_twice :
    (now next_id now' next_id' : ℕ) (f : Finding) (db : AlertTables)
    → upsert_alert now' next_id' f (upsert_alert now next_id f db).1 ≡ upsert_alert now next_id f db
unfolding upsert_alert write_items
upsert_alert_twice now next_id now' next_id' f db =
    elim (Option-cases (find (has_item f.item_id) db.alerts)) [
      | inl new ↦
          let a = new_alert now next_id (with_source f) in
          ground (
            arith,
            new,
            find_last f db.alerts a new (==_refl f.item_id),
            write_items_last f db.alerts a new refl,
          )
      | inr (a, old) ↦
          ground (arith, old, find-write_items f db.alerts a old, write_items_twice f db.alerts)
    ]

others_unwritten :
    (f : Finding) (item_id : String) (xs : List Alert)
    → (f.item_id == item_id) ≡ false
    → keep (has_item item_id) (write_items f xs) ≡ keep (has_item item_id) xs
unfolding write_items
others_unwritten f item_id [] other = refl
others_unwritten f item_id (x ∷ xs) other = ground (
  arith,
  others_unwritten f item_id xs,
  other,
  eq_iff x.item_id f.item_id,
  eq_iff x.item_id item_id,
  eq_iff f.item_id item_id,
)

keep-append_other :
    (p : Alert → Bool) (xs : List Alert) (a : Alert)
    → p a ≡ false
    → keep p (xs ++ a ∷ []) ≡ keep p xs
keep-append_other p [] a e = ground (arith, e)
keep-append_other p (x ∷ xs) a e = ground (arith, e, keep-append_other p xs a)

other_items_stay :
    (now next_id : ℕ) (f : Finding) (db : AlertTables) (item_id : String)
    → (f.item_id == item_id) ≡ false
    → keep (has_item item_id) (upsert_alert now next_id f db).1.alerts
      ≡ keep (has_item item_id) db.alerts
unfolding upsert_alert write_items
other_items_stay now next_id f db item_id other =
    elim (Option-cases (find (has_item f.item_id) db.alerts)) [
      | inl new ↦
          let a = new_alert now next_id (with_source f) in
          ground (arith, new, other, keep-append_other (has_item item_id) db.alerts a)
      | inr (a, old) ↦ ground (arith, old, others_unwritten f item_id db.alerts other)
    ]

upsert_alert_id :
    (now next_id : ℕ) (f : Finding) (db : AlertTables)
    → (upsert_alert now next_id f db).0 ≡ (elim (find (has_item f.item_id) db.alerts) as (λ _. ℕ) [
      | none ↦ next_id
      | some a ↦ a.alert_id
    ])
unfolding upsert_alert
upsert_alert_id now next_id f db = elim (Option-cases (find (has_item f.item_id) db.alerts)) [
  | inl new ↦ ground (arith, new)
  | inr (a, old) ↦ ground (arith, old)
]

abbrev pub kept {ℓ} : {A : Type ℓ} → Option Alert → A → (Alert → A) → A
kept none a f = a
kept (some old) a f = f old

-- The alert of an item after a finding on it: what stays of the old one, and what the finding says.
abbrev pub alert_of : ℕ → ℕ → ℕ → Finding → Option Alert → Alert
alert_of now next_id severity f old = record {
  alert_id = kept old next_id (λ a. a.alert_id);
  alert_type = kept old AlertType.threat (λ a. a.alert_type);
  job_id = some f.job_id;
  item_id = kept old f.item_id (λ a. a.item_id);
  url = f.url;
  title = f.title;
  category = f.category;
  severity = severity;
  language = f.language;
  summary = f.summary;
  entities = f.entities;
  analysis_source = if f.analysis_source == "" then "llm" else f.analysis_source;
  llm_model = f.llm_model;
  created_at = kept old now (λ a. a.created_at);
}

written-alert_of :
    (now next_id severity : ℕ) (f : Finding) (old : Option Alert)
    → ◌≡◌ {A = Alert}
        (elim old as (λ _. Alert) [
          | none ↦ new_alert now next_id (with_source (record f { severity = severity }))
          | some a ↦ write_finding (with_source (record f { severity = severity })) a
        ])
        (alert_of now next_id severity f old)
written-alert_of now next_id severity f none = refl
written-alert_of now next_id severity f (some a) = refl

-- A finding of severity four or five is raised once: the item's alert is the one that it had, with
-- its id, its time and its type, but for what the finding says, or a new one of type threat with
-- the next id; the answer is its id; the alerts of every other item are as they were; and raising
-- the same finding again, at any time, gives the same answer and changes nothing.
pub record_alert_once :
    (now next_id now' next_id' severity : ℕ) (f : Finding) (db : AlertTables) (item_id : String)
    → qualifies_as_alert (some severity) 4 ≡ true
    → (f.item_id == item_id) ≡ false
    → let old = find (has_item f.item_id) db.alerts in
      let a = alert_of now next_id severity f old in
      let (answer, db') = record_alert now next_id (some severity) f db in
      (answer ≡ some a.alert_id)
      × (find (has_item f.item_id) db'.alerts ≡ some a)
      × (keep (has_item item_id) db'.alerts ≡ keep (has_item item_id) db.alerts)
      × (record_alert now' next_id' (some severity) f db' ≡ (answer, db'))
unfolding record_alert
record_alert_once now next_id now' next_id' severity f db item_id fits other =
    let g = record f { severity = severity } in
    let written = written-alert_of now next_id severity f (find (has_item f.item_id) db.alerts) in
    let id = ap (λ (a : Alert). a.alert_id) written in
    (
      ground (arith, fits, upsert_alert_id now next_id g db, id),
      ground (arith, fits, find-upsert_alert now next_id g db ∙ ap some written),
      ground (arith, fits, other_items_stay now next_id g db item_id other),
      ground (arith, fits, upsert_alert_twice now next_id now' next_id' g db),
    )
