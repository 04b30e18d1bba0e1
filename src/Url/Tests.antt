-- ===== src/Url/Tests.antt =====
-- Runs of the URL parser, against what `urllib.parse` answers.
use duka_scraper.Base.{◌≡◌, refl, some, none, []}
use duka_scraper.Base.Text.{codes, cut, rcut, lower_code, starts_with, lstrip, text_beq}
use duka_scraper.Url.{Url, urlparse, hostname}

abbrev mixed : Url
mixed = record {
  scheme = codes "https";
  netloc = codes "u:p@WWW.Example.com:80";
  path = codes "/a;x/b";
  query = codes "q=1";
}

urlparse-mixed : urlparse (codes "HTTPS://u:p@WWW.Example.com:80/a;x/b;p?q=1#f") ≡ some mixed
unfolding urlparse cut rcut lower_code starts_with lstrip text_beq
urlparse-mixed = refl

hostname-mixed : hostname mixed ≡ codes "www.example.com"
unfolding hostname cut rcut lower_code
hostname-mixed = refl

urlparse_relative :
    urlparse (codes "a/b?c")
    ≡ some (record { scheme = []; netloc = []; path = codes "a/b"; query = codes "c" })
unfolding urlparse cut rcut lower_code starts_with lstrip text_beq
urlparse_relative = refl

urlparse_bracket : urlparse (codes "http://[::1/x") ≡ none
unfolding urlparse cut rcut lower_code starts_with lstrip text_beq
urlparse_bracket = refl
