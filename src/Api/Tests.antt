-- ===== src/Api/Tests.antt =====
-- A platform to run the handlers on, and the rate limit on it.
use duka_scraper.Base.{ℕ, ◌+◌, true, ◌&&◌, none, some, [], leb, ltb, ◌==◌, if◌then◌else◌}
use duka_scraper.Base.Text.{Text, text_eq, codes}
use duka_scraper.Accounts.{Accounts}
use duka_scraper.Api.{World, Platform, Call, Claims}
use duka_scraper.Api.Windows.{Entry, Attempt, live_entry}

-- A server of Redis as a function of its keys.
abbrev pub Keys : Type 0
Keys = Text → Entry

abbrev count_one : ℕ → Entry → Entry
count_one now e = record { count = (live_entry now e).count + 1; until = (live_entry now e).until }

abbrev pub local : Platform Keys Claims
local = record {
  incr = λ now key r.
      ((live_entry now (r key)).count + 1, λ j. if key == j then count_one now (r j) else r j);
  expire = λ now key seconds r.
      λ j. if key == j then record { count = (r j).count; until = some (now + seconds) } else r j;
  encode = λ k. k;
  decode = λ now k. if leb k.iat now && ltb now k.exp then some k else none;
  hash = λ salt password. password;
  verify = λ password hash. some (hash == password);
  digest = λ text. text;
  access_token_expire_minutes = 30;
  refresh_token_expire_days = 7;
  password_reset_expire_minutes = 30;
  login_rate_limit_per_minute = 10;
  reset_rate_limit_per_hour = 5;
}

abbrev pub at_key : Text → Keys → Entry
at_key j r = r j

abbrev pub no_accounts : Accounts
no_accounts = record { users = []; tokens = []; sessions = []; audit_logs = []; job_owners = [] }

abbrev pub no_keys : Keys
no_keys key = record { count = 0; until = none }

abbrev pub call_at : ℕ → Call
call_at now = record {
  now = now;
  client_host = some (codes "10.0.0.7");
  session_id = codes "s1";
  token_id = codes "t1";
  user_id = codes "USR00009";
  salt = codes "salt";
  six_digits = codes "123456";
  url_token = codes "token";
  hex_token = codes "abcdef";
  is_mail_sent = true;
}

abbrev attempt_at : ℕ → Attempt
attempt_at now = record { call = call_at now; scope = "login"; limit = 2; window_seconds = 60 }

abbrev empty_world : World Keys
empty_world = record { accounts = no_accounts; redis = no_keys; outbox = [] }

-- Another client, whose requests do not count.
abbrev stranger_at : ℕ → Attempt
stranger_at now = record (attempt_at now) {
  call = record (call_at now) { client_host = some (codes "10.0.0.8") };
}
