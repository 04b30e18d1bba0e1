-- ===== src/CrawlLog.antt =====
-- The table `crawl_log` (app/storage/postgres/client.py): its rows, and what an empty crawl is
-- reported as (`_describe_empty_result`). Statuses and event types are the texts that are stored.
-- Groups of equal size, whose order the query leaves open, are taken in the order of the log.
use Prim.Native.Nat.{Ordering}
use Prim.Native.String.{◌++◌ as ◌<>◌, compare}
use duka_scraper.Base.{
  ℕ, ◌+◌, String, Bool, true, false, not, ◌&&◌, ◌||◌, Option, List, [], ◌∷◌, map, ltb, ◌==◌,
  string_eq, contains, any, all, keep, take, if◌then◌else◌,
}

pub record LogEntry : Type 0 where
  pub job_id : String
  pub item_id : Option String
  pub url : String
  pub worker_type : String
  pub event_type : String
  pub status : String
  pub retry_count : ℕ
  pub details : Option String

-- `s[:n]`
unfoldable pub truncate : ℕ → String → String
truncate ℕ.zero s = ""
truncate (ℕ.suc n) String.[] = ""
truncate (ℕ.suc n) (String.◌∷◌ c s) = String.◌∷◌ c (truncate n s)

-- `(text or default)`
abbrev pub text_or : String → String → String
text_or d s = if s == "" then d else s

pub record Group : Type 0 where
  pub event_type : String
  pub status : String
  pub n : ℕ

-- One row of the result of `GROUP BY event_type, status` grows by one, or is added.
unfoldable pub add_to_group : LogEntry → List Group → List Group
add_to_group e [] = record { event_type = e.event_type; status = e.status; n = 1 } ∷ []
add_to_group e (g ∷ gs) =
    if e.event_type == g.event_type && e.status == g.status
    then record g { n = g.n + 1 } ∷ gs
    else g ∷ add_to_group e gs

unfoldable pub group_entries : List LogEntry → List Group → List Group
unfolding add_to_group
group_entries [] gs = gs
group_entries (e ∷ es) gs = group_entries es (add_to_group e gs)

-- `ORDER BY n DESC`, by insertion.
unfoldable pub insert_group : Group → List Group → List Group
insert_group g [] = g ∷ []
insert_group g (h ∷ gs) = if ltb h.n g.n then g ∷ h ∷ gs else h ∷ insert_group g gs

unfoldable pub order_groups : List Group → List Group → List Group
unfolding insert_group
order_groups [] sorted = sorted
order_groups (g ∷ gs) sorted = order_groups gs (insert_group g sorted)

-- The query of `_describe_empty_result`.
unfoldable pub attempted : String → List LogEntry → List Group
unfolding group_entries order_groups
attempted job_id log = take 12 (
    order_groups
      (group_entries
        (keep (λ e. e.job_id == job_id && not (e.event_type == "all_sites_failed")) log) [])
      [])

abbrev text_le : String → String → Bool
text_le s t = elim (compare s t) [ Ordering.gt ↦ false | _ ↦ true ]

-- `sorted(set(...))`, one element at a time.
unfoldable pub insert_text : String → List String → List String
insert_text s [] = s ∷ []
insert_text s (t ∷ ts) =
    if s == t then t ∷ ts else if text_le s t then s ∷ t ∷ ts else t ∷ insert_text s ts

unfoldable pub sorted_texts : List String → List String
unfolding insert_text
sorted_texts [] = []
sorted_texts (s ∷ ss) = insert_text s (sorted_texts ss)

-- `", ".join(...)`
unfoldable pub join_texts : List String → String
join_texts [] = ""
join_texts (s ∷ []) = s
join_texts (s ∷ t ∷ ts) = ◌<>◌ s (◌<>◌ ", " (join_texts (t ∷ ts)))

abbrev pub extraction_kinds : List String
extraction_kinds = "docx_extracted" ∷ "pdf_extracted" ∷ "text_extracted" ∷ []

abbrev parenthesised : List String → String
parenthesised [] = ""
parenthesised (s ∷ ss) = ◌<>◌ " (" (◌<>◌ (join_texts (s ∷ ss)) ")")

-- The tests on the kinds of events and on the statuses, in the order of the code.
unfoldable pub describe_groups : List Group → String
unfolding sorted_texts join_texts
describe_groups [] = "No content was produced — the crawl produced no results"
describe_groups (g ∷ gs) =
    let kinds = map (λ (r : Group). r.event_type) (g ∷ gs) in
    if contains kinds "audio_transcribed" || contains kinds "audio_handoff"
    then (if contains kinds "audio_handoff" && not (contains kinds "audio_transcribed")
        then "Audio was queued for transcription but never produced a transcript — the transcribe worker did not finish"
        else "Audio was transcribed but no text could be stored — the transcript was empty or was a duplicate of an existing item")
    else if any (contains kinds) extraction_kinds
    then ◌<>◌ "Document extraction ran (" (
        ◌<>◌ (join_texts (keep (contains kinds) extraction_kinds))
          ") but nothing was stored — the extracted text was empty or a duplicate")
    else if contains kinds "challenge_detected" || contains kinds "challenge"
    then "The site served an anti-bot challenge that was not solved, so no content could be read"
    else if contains kinds "login_failed" || contains kinds "signup_failed"
    then "Authentication failed, so no protected content could be read"
    else if contains kinds "registration_page"
    then "The site requires a registered account and no usable credentials were available"
    else if all (λ (r : Group). r.status == "failed") (g ∷ gs)
    then ◌<>◌ "Every request failed"
        (◌<>◌ (parenthesised (take 3 (sorted_texts kinds))) " — no content could be retrieved")
    else "No content was stored — every crawled page failed or was skipped"

unfoldable pub describe_empty_result : String → List LogEntry → String
unfolding attempted describe_groups
describe_empty_result job_id log = describe_groups (attempted job_id log)
