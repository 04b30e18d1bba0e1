-- ===== src/ExternalLinks/Decisions.antt =====
-- A decision on a link is final (app/storage/postgres/client.py, app/api/routes/jobs.py).
use duka_scraper.Base.{
  ℕ, ◌≡◌, String, Bool, true, false, Option, none, some, List, [], ◌∷◌, ◌++◌, map, any, find, ◌==◌,
  nat_eq, string_eq, arith, Option-cases, inl, inr, if◌then◌else◌,
}
use duka_scraper.Base.Text.{Text}
use duka_scraper.ExternalLinks.{
  LinkStatus, DiscoveredLink, LinkTable, FoundLink, is_pending_link, is_reviewable, is_link,
  write_review, record_link, record_discovered_external_links, approve_discovered_links,
  reject_discovered_links,
}
use duka_scraper.ExternalLinks.Review.{ReviewRequest}

abbrev pub is_approving : ReviewRequest → Bool
is_approving r = elim r.is_approval as (λ _. Bool) [ none ↦ false | some approval ↦ approval ]

pub data Op : Type 0 where
  discover : String → Text → List FoundLink → List Text → Op
  approve reject : ℕ → String → List ℕ → List Text → Op

unfoldable pub apply : Op → LinkTable → LinkTable
unfolding record_discovered_external_links approve_discovered_links reject_discovered_links
apply (Op.discover job_id parent_url found domains) db =
    record_discovered_external_links job_id parent_url found domains db
apply (Op.approve now job_id ids domains) db =
    (approve_discovered_links now job_id ids domains db).1
apply (Op.reject now job_id ids domains) db = (reject_discovered_links now job_id ids domains db).1

unfoldable pub run : List Op → LinkTable → LinkTable
unfolding apply
run [] db = db
run (op ∷ ops) db = run ops (apply op db)

abbrev pub find_link : ℕ → LinkTable → Option DiscoveredLink
find_link id db = find (λ l. l.id == id) db.links

find-append :
    (p : DiscoveredLink → Bool) (xs ys : List DiscoveredLink) (l : DiscoveredLink)
    → find p xs ≡ some l
    → find p (xs ++ ys) ≡ some l
find-append p [] ys l e = cc
find-append p (x ∷ xs) ys l e = ground (arith, find-append p xs ys l, e)

find-reviewed :
    (now : ℕ) (status : LinkStatus) (q : DiscoveredLink → Bool) (id : ℕ) (xs : List DiscoveredLink)
    (l : DiscoveredLink)
    → find (λ x. x.id == id) xs ≡ some l
    → q l ≡ false
    → find (λ x. x.id == id) (map (λ x. if q x then write_review now status x else x) xs) ≡ some l
find-reviewed now status q id [] l e h = cc
find-reviewed now status q id (x ∷ xs) l e h =
    ground (arith, find-reviewed now status q id xs l, e, h)

either_list :
    (b : Bool) (id : ℕ) (xs ys : List DiscoveredLink) (l : DiscoveredLink)
    → find (λ x. x.id == id) xs ≡ some l
    → find (λ x. x.id == id) (if b then xs else xs ++ ys) ≡ some l
either_list true id xs ys l e = e
either_list false id xs ys l e = find-append (λ x. x.id == id) xs ys l e

record_link_keeps :
    (job_id : String) (parent_url : Text) (domains : List Text) (found : FoundLink) (id : ℕ)
    (db : LinkTable) (l : DiscoveredLink)
    → find_link id db ≡ some l
    → find_link id (record_link job_id parent_url domains found db) ≡ some l
unfolding record_link
record_link_keeps job_id parent_url domains found id db l e = elim (Option-cases found.url) [
  | inl no_url ↦ rw (no_url, record_link) e
  | inr (url, has_url) ↦
      rw (has_url, record_link) (either_list (any (is_link job_id url) db.links) id db.links _ l e)
]

record_links_keep :
    (job_id : String) (parent_url : Text) (founds : List FoundLink) (domains : List Text) (id : ℕ)
    (db : LinkTable) (l : DiscoveredLink)
    → find_link id db ≡ some l
    → find_link id (record_discovered_external_links job_id parent_url founds domains db) ≡ some l
unfolding record_discovered_external_links
record_links_keep job_id parent_url [] domains id db l e = e
record_links_keep job_id parent_url (f ∷ founds) domains id db l e =
    record_links_keep job_id parent_url founds domains id
      (record_link job_id parent_url domains f db) l
      (record_link_keeps job_id parent_url domains f id db l e)

apply_keeps :
    (op : Op) (id : ℕ) (db : LinkTable) (l : DiscoveredLink)
    → find_link id db ≡ some l
    → is_pending_link l.status ≡ false
    → find_link id (apply op db) ≡ some l
unfolding apply approve_discovered_links reject_discovered_links
apply_keeps (Op.discover job_id parent_url founds domains) id db l e decided =
    record_links_keep job_id parent_url founds domains id db l e
apply_keeps (Op.approve now job_id ids domains) id db l e decided =
    find-reviewed now LinkStatus.approved (is_reviewable job_id ids domains) id db.links l e
      (ground (arith, decided))
apply_keeps (Op.reject now job_id ids domains) id db l e decided =
    find-reviewed now LinkStatus.rejected (is_reviewable job_id ids domains) id db.links l e
      (ground (arith, decided))

-- A link that is no longer pending stays as it is, with its status and the time of its review,
-- whatever is discovered again, approved or rejected afterwards, in any order and for any job.
pub decision_stands :
    (ops : List Op) (id : ℕ) (db : LinkTable) (l : DiscoveredLink)
    → find_link id db ≡ some l
    → is_pending_link l.status ≡ false
    → find_link id (run ops db) ≡ some l
unfolding run
decision_stands [] id db l e decided = e
decision_stands (op ∷ ops) id db l e decided =
    decision_stands ops id (apply op db) l (apply_keeps op id db l e decided) decided
