-- ===== src/ExternalLinks/Tests.antt =====
-- Two links of one job, and the theorems on them.
use duka_scraper.Base.{◌≡◌, refl, true, none, some, [], ◌∷◌, string_eq}
use duka_scraper.Base.Text.{Text, text_eq, codes}
use duka_scraper.Jobs
use duka_scraper.Jobs.{Job, Db}
use duka_scraper.Accounts.{Role}
use duka_scraper.Alerts.Routes.{Caller}
use duka_scraper.ExternalLinks.{LinkStatus, DiscoveredLink, LinkTable}
use duka_scraper.ExternalLinks.Review.{ReviewRequest}
use duka_scraper.ExternalLinks.Decisions.{Op, run, find_link, decision_stands}

abbrev job : Job
job = record {
  job_id = "J1";
  user_id = "USR00001";
  url = "https://example.et";
  language = "am";
  status = Jobs.Status.completed;
  assignment_reason = none;
  created_at = 0;
  completed_at = some 9;
  active_tasks = 0;
  resume_status = none;
}

abbrev jobs : Db
jobs = record { jobs = job ∷ []; crawl_log = []; events = [] }

abbrev owner : Caller
owner = record { user_id = "USR00001"; role = Role.user }

abbrev waiting : DiscoveredLink
waiting = record {
  id = 1;
  job_id = "J1";
  parent_url = codes "https://example.et/a";
  discovered_url = codes "https://b.et/x";
  discovered_domain = codes "b.et";
  anchor_text = codes "x";
  status = LinkStatus.pending;
  reviewed_at = none;
}

abbrev refused_link : DiscoveredLink
refused_link = record waiting {
  id = 2;
  discovered_url = codes "https://c.et/y";
  discovered_domain = codes "c.et";
  status = LinkStatus.rejected;
  reviewed_at = some 5;
}

abbrev table : LinkTable
table = record { links = waiting ∷ refused_link ∷ []; next_id = 3 }

abbrev review : ReviewRequest
review = record {
  is_approval = some true;
  link_ids = [];
  domains = codes "B.et" ∷ [];
  auto_crawl = true;
}

decision_stands_example :
    find_link 2 (
      run
        (Op.approve 7 "J1" (2 ∷ 1 ∷ []) []
          ∷ Op.discover "J1"
              (codes "https://example.et/b")
              (record {
                url = some (codes "https://c.et/y");
                domain = codes "c.et";
                anchor_text = [];
              }
                ∷ [])
              (codes "c.et" ∷ [])
          ∷ [])
        table)
    ≡ some refused_link
decision_stands_example = decision_stands _ 2 table refused_link refl refl
