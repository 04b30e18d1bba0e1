-- ===== src/Api.antt =====
-- What the handlers of app/api/routes run on. A handler changes the tables, the counters of Redis
-- and the mail that is out, and answers or raises an HTTPException; what it wrote before it raised
-- stays written.
pub mod Keeps
pub mod RateLimit
pub mod Windows
pub mod Tests
use duka_scraper.Base.{ℕ, String, Bool, true, false, Option, none, some, List, ◌∷◌, ◌++◌, []}
use duka_scraper.Base.Text.{Text}
use duka_scraper.Accounts.{Accounts, Role}

pub data Reply (A : Type 0) : Type 0 where
  ok : A → Reply A
  refused : ℕ → String → Reply A

-- A mail with a secret for one address.
pub record Mail : Type 0 where
  pub address : Text
  pub secret : Text

-- `redis` is the state of the Redis server.
pub record World (Redis : Type 0) : Type 0 where
  pub accounts : Accounts
  pub redis : Redis
  pub outbox : List Mail

-- The payload of a JWT as `decode` gives it; an entry may be missing.
pub record Claims : Type 0 where
  pub sub : Option Text
  pub role : Role
  pub sid : Option Text
  pub typ : Option Text
  pub iat : ℕ
  pub exp : ℕ

-- The libraries, the server of Redis and the settings.
pub record Platform (Redis Token : Type 0) : Type 0 where
  pub incr : ℕ → Text → Redis → ℕ × Redis
  pub expire : ℕ → Text → ℕ → Redis → Redis
  -- `jwt.encode`, and `jwt.decode` at a time with `none` for its errors
  pub encode : Claims → Token
  pub decode : ℕ → Token → Option Claims
  -- `password_hasher.hash` with the salt that it draws, and `verify` with `none` for a ValueError
  -- or TypeError; a text that is no hash is another error, which is left out
  pub hash : Text → Text → Text
  pub verify : Text → Text → Option Bool
  -- `sha256(text.encode()).hexdigest()`
  pub digest : Text → Text
  pub access_token_expire_minutes : ℕ
  pub refresh_token_expire_days : ℕ
  pub password_reset_expire_minutes : ℕ
  pub login_rate_limit_per_minute : ℕ
  pub reset_rate_limit_per_hour : ℕ

-- What one request meets: the time, the client's address, what `uuid4`, the column's default and
-- `secrets` draw for it, and whether its mail goes out.
pub record Call : Type 0 where
  pub now : ℕ
  pub client_host : Option Text
  pub session_id : Text
  pub token_id : Text
  pub user_id : Text
  pub salt : Text
  pub six_digits : Text
  pub url_token : Text
  pub hex_token : Text
  pub is_mail_sent : Bool

abbrev pub Handler : Type 0 → Type 0 → Type 0
Handler Redis A = World Redis → Reply A × World Redis

module _ {Redis A : Type 0} where
  unfoldable pub pure : A → Handler Redis A
  pure a w = (Reply.ok a, w)

  unfoldable pub refuse : ℕ → String → Handler Redis A
  refuse status detail w = (Reply.refused status detail, w)

  unfoldable pub query : (Accounts → A) → Handler Redis A
  query f w = (Reply.ok (f w.accounts), w)

  unfoldable pub method : (Accounts → A × Accounts) → Handler Redis A
  method f w = let (a, db) = f w.accounts in (Reply.ok a, record w { accounts = db })

  -- The value that is there, or the refusal.
  unfoldable pub demand : Option A → ℕ → String → Handler Redis A
  unfolding pure refuse
  demand none status detail = refuse status detail
  demand (some a) status detail = pure a

  -- A method that may raise: its result and the tables, or the refusal.
  unfoldable pub attempt : (Accounts → Option (A × Accounts)) → ℕ → String → Handler Redis A
  attempt f status detail w = elim (f w.accounts) [
    | none ↦ (Reply.refused status detail, w)
    | some (a, db) ↦ (Reply.ok a, record w { accounts = db })
  ]

module _ {Redis : Type 0} where
  unfoldable pub exec : (Accounts → Accounts) → Handler Redis (Unit {0})
  exec f w = (Reply.ok tt, record w { accounts = f w.accounts })

  -- `if not test: raise`
  unfoldable pub check : Bool → ℕ → String → Handler Redis (Unit {0})
  unfolding pure refuse
  check true status detail = pure tt
  check false status detail = refuse status detail

  -- Whether the mail went out; if not, the function raised.
  unfoldable pub send : Bool → Text → Text → Handler Redis Bool
  send true address secret w = (
    Reply.ok true,
    record w { outbox = w.outbox ++ record { address = address; secret = secret } ∷ [] },
  )
  send false address secret w = (Reply.ok false, w)

module _ {Redis A B : Type 0} where
  abbrev pub follow : Reply A → (A → Handler Redis B) → Handler Redis B
  follow (Reply.ok a) f w = f a w
  follow (Reply.refused status detail) f w = (Reply.refused status detail, w)

  infixl 10 ◌>>=◌ ◌>>◌
  unfoldable pub ◌>>=◌ : Handler Redis A → (A → Handler Redis B) → Handler Redis B
  unfolding pure refuse query method demand attempt exec check send
  ◌>>=◌ m f w = let (reply, w') = m w in follow reply f w'

  abbrev pub ◌>>◌ : Handler Redis A → Handler Redis B → Handler Redis B
  m >> n = m >>= λ _. n
