-- ===== src/Api/Windows.antt =====
-- How many requests the rate limit lets through (app/security/rate_limit.py).
use duka_scraper.Base.{
  ℕ, ◌+◌, ◌≡◌, nat_beq, String, Bool, Option, none, some, List, [], ◌∷◌, leb, ltb, not, ◌&&◌, ◌||◌,
  ◌==◌, all, nat_eq, if◌then◌else◌,
}
use duka_scraper.Base.Text.{Text, text_eq, codes}
use duka_scraper.Api.{Reply, World, Platform, Call}
use duka_scraper.Api.RateLimit.{enforce_rate_limit, client_ip}

-- A key of Redis: its number, and when it goes away.
pub record Entry : Type 0 where
  pub count : ℕ
  pub until : Option ℕ

-- A key whose time is over is as good as missing, which counts as 0.
abbrev pub live_entry : ℕ → Entry → Entry
live_entry now e = elim e.until [
  | none ↦ e
  | some t ↦ if leb t now then record { count = 0; until = none } else e
]

-- The documentation of INCR and EXPIRE, for a look at the keys of the server.
pub record IsRedis {Redis Token : Type 0} (p : Platform Redis Token) (entry : Text → Redis → Entry)
    : Type 0 where
  pub reply :
      (now : ℕ) (key : Text) (r : Redis)
      → (p.incr now key r).0 ≡ (live_entry now (entry key r)).count + 1
  pub counted :
      (now : ℕ) (key j : Text) (r : Redis)
      → entry j (p.incr now key r).1 ≡ (
          if key == j
          then record {
            count = (live_entry now (entry j r)).count + 1;
            until = (live_entry now (entry j r)).until;
          }
          else entry j r)
  pub timed :
      (now seconds : ℕ) (key j : Text) (r : Redis)
      → entry j (p.expire now key seconds r) ≡ (
          if key == j
          then record { count = (entry j r).count; until = some (now + seconds) }
          else entry j r)

-- Requests of any clients in any scopes, each with its limit and window.
pub record Attempt : Type 0 where
  pub call : Call
  pub scope : String
  pub limit : ℕ
  pub window_seconds : ℕ

-- The attempts of one client in one scope; clients without an address are one client.
abbrev pub is_like : Attempt → Attempt → Bool
is_like a b =
    codes b.scope == codes a.scope && client_ip b.call.client_host == client_ip a.call.client_host

-- An attempt like `a` has its limit and comes before that time.
abbrev pub is_within : Attempt → ℕ → Attempt → Bool
is_within a end b = not (is_like a b) || b.limit == a.limit && ltb b.call.now end

-- How many attempts are like `a`.
abbrev pub hits : Attempt → List Attempt → ℕ
hits a [] = 0
hits a (b ∷ more) = (if is_like a b then 1 else 0) + hits a more

-- A name of a scope has no colon in it.
abbrev pub is_name : Text → Bool
is_name = all (λ c. not (nat_beq c b':'))

module _ {Redis Token : Type 0} (p : Platform Redis Token) where
  abbrev pub was_let_through : Reply (Unit {0}) → ℕ
  was_let_through (Reply.ok a) = 1
  was_let_through (Reply.refused status detail) = 0

  -- How many of the attempts like `a` pass.
  unfoldable pub passes : Attempt → List Attempt → World Redis → ℕ
  unfolding enforce_rate_limit
  passes a [] w = 0
  passes a (b ∷ more) w =
      let (reply, w') = enforce_rate_limit p b.call b.scope b.limit b.window_seconds w in
      (if is_like a b then was_let_through reply else 0) + passes a more w'
