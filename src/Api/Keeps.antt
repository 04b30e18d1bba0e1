-- ===== src/Api/Keeps.antt =====
-- What a handler leaves true, one rule for each way that handlers are put together.
use duka_scraper.Base.{ℕ, String, Bool, true, false, Option, none, some, ◌≡◌, refl, if◌then◌else◌}
use duka_scraper.Base.Text.{Text}
use duka_scraper.Accounts.{Accounts}
use duka_scraper.Api.{
  Reply, World, Handler, pure, refuse, query, method, demand, attempt, exec, check, send, follow,
  ◌>>=◌,
}

-- What holds of the tables before `m` holds of them after it, whatever it replies.
pub record Keeps {Redis A : Type 0} (P : Accounts → Type 0) (m : Handler Redis A) : Type 0 where
  pub kept : (w : World Redis) → P w.accounts → P (m w).1.accounts

module _ {Redis A : Type 0} {P : Accounts → Type 0} where
  pub pure-Keeps : (a : A) → Keeps P (pure {Redis = Redis} a)
  unfolding pure
  pure-Keeps a = record { kept = λ w h. h }

  pub refuse-Keeps :
      (status : ℕ) (detail : String) → Keeps P (refuse {Redis = Redis} {A = A} status detail)
  unfolding refuse
  refuse-Keeps status detail = record { kept = λ w h. h }

  pub query-Keeps : (f : Accounts → A) → Keeps P (query {Redis = Redis} f)
  unfolding query
  query-Keeps f = record { kept = λ w h. h }

  pub method-Keeps :
      (f : Accounts → A × Accounts)
      → ((db : Accounts) → P db → P (f db).1)
      → Keeps P (method {Redis = Redis} f)
  unfolding method
  method-Keeps f step = record { kept = λ w h. step w.accounts h }

  pub demand-Keeps :
      (o : Option A) (status : ℕ) (detail : String)
      → Keeps P (demand {Redis = Redis} o status detail)
  unfolding demand
  demand-Keeps none status detail = record { kept = λ w h. h }
  demand-Keeps (some a) status detail = record { kept = λ w h. h }

  pub if-Keeps :
      (b : Bool) (m n : Handler Redis A) → Keeps P m → Keeps P n → Keeps P (if b then m else n)
  if-Keeps true m n hm hn = hm
  if-Keeps false m n hm hn = hn

module _ {Redis A : Type 0} {P : Accounts → Type 0} where
  attempted :
      (o : Option (A × Accounts)) (status : ℕ) (detail : String) (w : World Redis)
      → P w.accounts
      → ((a : A) (db : Accounts) → o ≡ some (a, db) → P db)
      → P (attempt (λ db. o) status detail w).1.accounts
  unfolding attempt
  attempted none status detail w h step = h
  attempted (some (a, db)) status detail w h step = step a db refl

  pub attempt-Keeps :
      (f : Accounts → Option (A × Accounts)) (status : ℕ) (detail : String)
      → ((db : Accounts) (a : A) (db' : Accounts) → f db ≡ some (a, db') → P db → P db')
      → Keeps P (attempt {Redis = Redis} f status detail)
  unfolding attempt
  attempt-Keeps f status detail step = record {
    kept = λ w h. attempted (f w.accounts) status detail w h (λ a db e. step w.accounts a db e h);
  }

module _ {Redis : Type 0} {P : Accounts → Type 0} where
  pub exec-Keeps :
      (f : Accounts → Accounts)
      → ((db : Accounts) → P db → P (f db))
      → Keeps P (exec {Redis = Redis} f)
  unfolding exec
  exec-Keeps f step = record { kept = λ w h. step w.accounts h }

  pub check-Keeps :
      (b : Bool) (status : ℕ) (detail : String) → Keeps P (check {Redis = Redis} b status detail)
  unfolding check
  check-Keeps true status detail = record { kept = λ w h. h }
  check-Keeps false status detail = record { kept = λ w h. h }

  pub send-Keeps :
      (sent : Bool) (address secret : Text) → Keeps P (send {Redis = Redis} sent address secret)
  unfolding send
  send-Keeps true address secret = record { kept = λ w h. h }
  send-Keeps false address secret = record { kept = λ w h. h }

module _ {Redis A B : Type 0} {P : Accounts → Type 0} where
  follow-Keeps :
      (r : Reply A) (f : A → Handler Redis B) (w : World Redis)
      → ((a : A) → Keeps P (f a))
      → P w.accounts
      → P (follow r f w).1.accounts
  follow-Keeps (Reply.ok a) f w hf h = (hf a).kept w h
  follow-Keeps (Reply.refused status detail) f w hf h = h

  pub >>=-Keeps :
      (m : Handler Redis A) (f : A → Handler Redis B)
      → Keeps P m
      → ((a : A) → Keeps P (f a))
      → Keeps P (m >>= f)
  unfolding ◌>>=◌
  >>=-Keeps m f hm hf = record {
    kept = λ w h. let (r, w') = m w in follow-Keeps r f w' hf (hm.kept w h);
  }

pub ruleset keeps_rules = (
  pure-Keeps, refuse-Keeps, query-Keeps, demand-Keeps, if-Keeps, check-Keeps, send-Keeps, >>=-Keeps,
)
