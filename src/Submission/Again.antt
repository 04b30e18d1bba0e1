-- ===== src/Submission/Again.antt =====
-- Submissions of a URL that is being crawled (app/pipeline/main.py,
-- app/storage/postgres/client.py).
use duka_scraper.Base.{
  ℕ, ◌≡◌, ◌≢◌, ◌⊎◌, AnyOf, refl, String, Bool, true, false, none, some, List, [], ◌∷◌, ◌++◌, keep,
  arith, eq_iff, Option-cases, Bool-cases, inl, inr, string_eq, ap, sym, ◌∙◌, subst, ltb,
}
use duka_scraper.Base.Table.{select}
use duka_scraper.Base.Text.{Text, text_eq, text_beq_iff, codes, rstrip, is_code}
use duka_scraper.Fingerprint.{strip}
use duka_scraper.Jobs.{Status, Job, Db, key, get_job}
use duka_scraper.Jobs.Runs.{Op, run, row_effect, run_keeps}
use duka_scraper.Crawl.{CrawlRequest}
use duka_scraper.Api.{Reply}
use duka_scraper.Submission.{
  Pipeline, Call, Submission, Submitted, is_queued, is_duplicate, latest, get_active_job_for_url,
  route, duplicate_of, submit_crawl_job,
}
use duka_scraper.Submission.Guard.{submitted_row, accepted, latest-none}

select-last :
    (k : String) (rows : List Job) (r : Job)
    → select key k rows ≡ none
    → key r ≡ k
    → select key k (rows ++ r ∷ []) ≡ some r
select-last k [] r fresh e = ground (arith, eq_iff (key r) k)
select-last k (x ∷ rows) r fresh e = ground (arith, select-last k rows r)

keep-selected :
    (p : Job → Bool) (k : String) (rows : List Job) (r : Job)
    → select key k rows ≡ some r
    → p r ≡ true
    → keep p rows ≢ []
keep-selected p k [] r e h = ground arith
keep-selected p k (x ∷ rows) r e h = ground (arith, keep-selected p k rows r)

latest-listed : (js : List Job) (a : Job) → latest js ≡ some a → AnyOf (λ j. j ≡ a) js
unfolding latest
latest-listed [] a e = cc
latest-listed (j ∷ js) a e = elim (Option-cases (latest js)) [
  | inl last ↦ inl (ground (arith, e, last))
  | inr (k, more) ↦ elim (Bool-cases (ltb j.created_at k.created_at)) [
    | inl later ↦ inr (latest-listed js a (ground (arith, e, more, later)))
    | inr earlier ↦ inl (ground (arith, e, more, earlier))
  ]
]

kept_listed :
    (p : Job → Bool) (js : List Job) (a : Job)
    → AnyOf (λ j. j ≡ a) (keep p js)
    → AnyOf (λ j. j ≡ a) js × (p a ≡ true)
kept_listed p [] a h = absurd h
kept_listed p (j ∷ js) a h = elim (Bool-cases (p j)) [
  | inl good ↦ elim (rw good at h) [
    | inl same ↦ (inl same, subst (λ x. p x ≡ true) same good)
    | inr more ↦ let (listed, passed) = kept_listed p js a more in (inr listed, passed)
  ]
  | inr bad ↦ let (listed, passed) = kept_listed p js a (rw bad at h) in (inr listed, passed)
]

-- The row still is of the user and the URL of the submission.
abbrev IsOfSubmission : Submission → Job → Type 0
IsOfSubmission s r = (r.user_id ≡ s.user_id) × (r.url ≡ s.url)

row_effect-IsOfSubmission :
    (s : Submission) (j : String) (now : ℕ) (produced : Bool) (op : Op) (r : Job)
    → IsOfSubmission s r
    → IsOfSubmission s (row_effect now produced op j r)
row_effect-IsOfSubmission s j now produced op r (u, x) = ground arith

-- The guard finds a job of the table that it takes for a duplicate, if there is one.
active_found :
    (u x k : String) (db : Db) (r : Job)
    → get_job k db ≡ some r
    → is_duplicate u x r ≡ true
    → (active : Job) × (get_active_job_for_url u x db ≡ some active)
      × AnyOf (λ j. j ≡ active) db.jobs
      × (is_duplicate u x active ≡ true)
unfolding get_active_job_for_url get_job
active_found u x k db r row fits = elim (Option-cases (latest (keep (is_duplicate u x) db.jobs))) [
  | inl nothing ↦
      absurd (keep-selected (is_duplicate u x) k db.jobs r row fits (latest-none _ nothing))
  | inr (active, found) ↦
      let (listed, passed) =
        kept_listed (is_duplicate u x) db.jobs active (latest-listed _ active found) in
      (active, found, listed, passed)
]

-- The key of a URL in the guard: without slashes at its end.
abbrev pub url_key : Text → Text
url_key = rstrip (is_code b'/')

abbrev pub IsRunning : Status → Type 0
IsRunning st = (st ≡ Status.pending) ⊎ (st ≡ Status.running)

is_duplicate-IsRunning :
    (u x : String) (r : Job)
    → r.user_id ≡ u
    → url_key (codes r.url) ≡ url_key (strip (codes x))
    → IsRunning r.status
    → is_duplicate u x r ≡ true
is_duplicate-IsRunning u x r same_user same_url (inl e) =
    ground (
      arith,
      e,
      eq_iff r.user_id u,
      text_beq_iff (url_key (codes r.url)) (url_key (strip (codes x))),
    )
is_duplicate-IsRunning u x r same_user same_url (inr e) =
    ground (
      arith,
      e,
      eq_iff r.user_id u,
      text_beq_iff (url_key (codes r.url)) (url_key (strip (codes x))),
    )

IsRunning-is_queued : (st : Status) → is_queued st ≡ true → IsRunning st
IsRunning-is_queued Status.pending h = inl refl
IsRunning-is_queued Status.running h = inr refl
IsRunning-is_queued Status.paused h = cc
IsRunning-is_queued Status.completed h = cc
IsRunning-is_queued Status.failed h = cc
IsRunning-is_queued Status.skipped h = cc
IsRunning-is_queued Status.needs_review h = cc

answered :
    (d : Call) (t : Submission) (p : Pipeline) (active : Job)
    → d.is_ready ≡ true
    → get_active_job_for_url t.user_id t.url p.db ≡ some active
    → (b : Submitted) × (submit_crawl_job d t p ≡ (Reply.ok b, p))
      × (b.duplicate ≡ true)
      × (b.job_id ≡ active.job_id)
unfolding submit_crawl_job
answered d t p active up found =
    (duplicate_of active (route t).0 t.max_depth, rw (up, found) refl, refl, refl)

-- Once a submission was accepted, and after any calls on the tables of the jobs, as long as its job
-- is still pending or running, a submission of the same user for the URL, given with other slashes
-- at its end or with space around it, makes no job, if the broker is ready: it changes nothing and
-- is answered, as a duplicate, with a pending or running job of the table, of the user and the URL.
pub submit_again :
    (c d : Call) (s t : Submission) (p p' : Pipeline) (a : Submitted) (ops : List (ℕ × Op))
    (topic : List CrawlRequest) (r : Job)
    → submit_crawl_job c s p ≡ (Reply.ok a, p')
    → a.duplicate ≡ false
    → get_job a.job_id (run ops p'.db) ≡ some r
    → IsRunning r.status
    → t.user_id ≡ s.user_id
    → url_key (codes s.url) ≡ url_key (strip (codes t.url))
    → d.is_ready ≡ true
    → let later : Pipeline = record { db = run ops p'.db; topic = topic } in
      (b : Submitted) × (active : Job) × (submit_crawl_job d t later ≡ (Reply.ok b, later))
      × (b.duplicate ≡ true)
      × (b.job_id ≡ active.job_id)
      × AnyOf (λ j. j ≡ active) later.db.jobs
      × IsRunning active.status
      × (active.user_id ≡ s.user_id)
      × (url_key (codes active.url) ≡ url_key (codes s.url))
unfolding get_job
submit_again c d s t p p' a ops topic r ok first row running same_user same_url up =
    let (fresh, answer, rows, sent) = accepted c s p p' a ok first in
    let id : a.job_id ≡ c.job_id = rw answer refl in
    let begun : get_job c.job_id p'.db ≡ some (submitted_row c s) =
      rw (rows, get_job) (select-last c.job_id p.db.jobs (submitted_row c s) fresh refl) in
    let (r', row', (user, url)) =
      run_keeps (IsOfSubmission s) c.job_id (row_effect-IsOfSubmission s c.job_id) ops p'.db
        (submitted_row c s) begun (refl, refl) in
    let same : r' ≡ r = cc in
    let (active, found, listed, fits) =
      active_found t.user_id t.url c.job_id (run ops p'.db) r' row' (
        is_duplicate-IsRunning t.user_id t.url r' (user ∙ sym same_user)
          (ap (λ x. url_key (codes x)) url ∙ same_url) (rw same running)) in
    let later : Pipeline = record { db = run ops p'.db; topic = topic } in
    let (b, e, duplicate, same_id) = answered d t later active up found in
    (
      b,
      active,
      e,
      duplicate,
      same_id,
      listed,
      IsRunning-is_queued active.status (ground (arith, fits)),
      ground (arith, fits, eq_iff active.user_id t.user_id, same_user),
      ground (
        arith,
        fits,
        text_beq_iff (url_key (codes active.url)) (url_key (strip (codes t.url))),
        same_url,
      ),
    )
