-- ===== src/Links/Tests.antt =====
-- Runs of the link filter, and instances of its theorems.
use duka_scraper.Base.{◌≡◌, refl, none, some, List, [], ◌∷◌, All}
use duka_scraper.Base.Text.{
  Text, codes, cut, rcut, lower_code, starts_with, lstrip, rstrip, text_beq, ends_with, has_infix,
  split_on,
}
use duka_scraper.Url.{Url, urlparse, hostname, query_keys}
use duka_scraper.Links.{
  Extract, Search, Scope, filter_links, is_non_content_page, is_static_asset, is_junk_domain,
  is_followable, under_prefix, registrable_domain,
}
use duka_scraper.Links.Constants.{
  non_content_extensions, junk_domain_hints, shortlink_domains, video_path_hints,
  redirect_path_hints, non_content_ends, non_content_infixes, feed_hints,
}
use duka_scraper.Links.Trap.{is_crawler_trap}
use duka_scraper.Links.Following.{IsFollowed, filter_links-IsFollowed}

-- All that a run has to compute with.
filter_runs : Unit {0}
unfolding urlparse hostname query_keys cut rcut lower_code starts_with lstrip rstrip text_beq
    ends_with has_infix split_on filter_links is_non_content_page is_static_asset is_junk_domain
    is_followable under_prefix is_crawler_trap non_content_extensions junk_domain_hints
    shortlink_domains video_path_hints redirect_path_hints non_content_ends non_content_infixes
    feed_hints registrable_domain
filter_runs = tt

abbrev no_extract : Extract
no_extract host = none

abbrev no_search : Search
no_search pattern link = none

abbrev amharic : Scope
amharic = record {
  allowed_patterns = [];
  skip_domains = [];
  same_domain_as = some (codes "https://www.bbc.com/amharic");
  path_prefix = some (codes "/amharic");
}

abbrev page : List Text
page =
    codes "https://www.bbc.com/amharic/articles/c1"
    ∷ codes "https://www.bbc.com/amharic-news/x"
    ∷ codes "https://www.bbc.com/sport"
    ∷ codes "https://other.com/amharic/a"
    ∷ codes "https://bbc.com/amharic/photo.png"
    ∷ codes "ftp://bbc.com/amharic/a"
    ∷ codes "https://bbc.com/amharic/a/a/a/"
    ∷ codes "https://bbc.com/amharic/page/12"
    ∷ []

filter_links-page :
    filter_links no_extract no_search amharic page
    ≡ codes "https://www.bbc.com/amharic/articles/c1" ∷ []
unfolding filter_runs
filter_links-page = refl

filter_links-IsFollowed_example :
    All (IsFollowed (codes "/amharic")) (filter_links no_extract no_search amharic page)
filter_links-IsFollowed_example =
    filter_links-IsFollowed no_extract no_search amharic (codes "/amharic") page refl refl

abbrev article : Url
article = record {
  scheme = codes "https";
  netloc = codes "bbc.com";
  path = codes "/a/b/a/c/a/d";
  query = [];
}
