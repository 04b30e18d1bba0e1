-- ===== src/Auth/Revocation.antt =====
-- A session that has ended stays ended: what the methods of the tables leave of its rows.
pub mod Handlers
pub mod AdminHandlers
pub mod Rotation
use duka_scraper.Base.{
  ℕ, String, ◌≡◌, ◌≢◌, refl, Bool, true, false, not, ◌&&◌, ◌||◌, Option, none, some, List, [], ◌∷◌,
  ◌++◌, map, any, keep, arith, ◌==◌, if◌then◌else◌, All,
}
use duka_scraper.Base.Text.{Text, text_eq}
use duka_scraper.Accounts.{
  AuthSession, Accounts, User, Role, VerificationToken, is_none, update_where,
}
use duka_scraper.Accounts
use duka_scraper.Accounts.Sessions.{
  create_auth_session, is_auth_session_active, revoke_auth_session, revoke_all_auth_sessions,
  record_audit_event, write_revoked,
}
use duka_scraper.Accounts.Tokens.{
  consume_password_reset_token, verify_email_token, redeem_reset, redeem_email,
}
use duka_scraper.Api.{Platform, Call, Handler, exec, method, attempt}
use duka_scraper.Api.RateLimit.{enforce_rate_limit}
use duka_scraper.Auth.{get_current_user, require_admin, create_token_pair}
use duka_scraper.Api.Keeps.{Keeps, exec-Keeps, method-Keeps, attempt-Keeps, keeps_rules}

abbrev pub is_open : Text → AuthSession → Bool
is_open session_id s = s.session_id == session_id && is_none s.revoked_at

-- No row of the session is open.
pub record HasEnded (session_id : Text) (db : Accounts) : Type 0 where
  pub closed : any (is_open session_id) db.sessions ≡ false

any-keep :
    (q p : AuthSession → Bool) (ss : List AuthSession)
    → any q ss ≡ false
    → any q (keep p ss) ≡ false
any-keep q p [] h = refl
any-keep q p (s ∷ ss) h = ground (arith, any-keep q p ss)

any-revoked :
    (sid : Text) (p : AuthSession → Bool) (now : ℕ) (ss : List AuthSession)
    → any (is_open sid) ss ≡ false
    → any (is_open sid) (update_where p (write_revoked now) ss) ≡ false
any-revoked sid p now [] h = refl
any-revoked sid p now (s ∷ ss) h = ground (arith, any-revoked sid p now ss)

pub any-append_one :
    (q : AuthSession → Bool) (s : AuthSession) (ss : List AuthSession)
    → any q ss ≡ false
    → q s ≡ false
    → any q (ss ++ s ∷ []) ≡ false
any-append_one q s [] h e = ground arith
any-append_one q s (x ∷ ss) h e = ground (arith, any-append_one q s ss)

redeem_reset-HasEnded :
    (sid : Text) (now : ℕ) (password_hash : Text) (o : Option (VerificationToken × User))
    (db : Accounts)
    → HasEnded sid db
    → HasEnded sid (redeem_reset now password_hash o db).1
unfolding revoke_all_auth_sessions
redeem_reset-HasEnded sid now password_hash none db h = h
redeem_reset-HasEnded sid now password_hash (some (t, u)) db h = record {
  closed = any-revoked sid _ now db.sessions h.closed;
}

redeem_email-sessions :
    (now : ℕ) (o : Option (VerificationToken × User)) (db : Accounts)
    → (redeem_email now o db).1.sessions ≡ db.sessions
redeem_email-sessions now none db = refl
redeem_email-sessions now (some (t, u)) db = refl

module _ {Redis A : Type 0} (sid : Text) where
  pub method-HasEnded :
      (f : Accounts → A × Accounts)
      → ((db : Accounts) → (f db).1.sessions ≡ db.sessions)
      → Keeps (HasEnded sid) (method {Redis = Redis} f)
  method-HasEnded f same = method-Keeps f (λ db h. record { closed = rw (same db) h.closed })

  pub attempt-HasEnded :
      (f : Accounts → Option (A × Accounts)) (status : ℕ) (detail : String)
      → ((db : Accounts) (a : A) (db' : Accounts)
          → f db ≡ some (a, db')
          → db'.sessions ≡ db.sessions)
      → Keeps (HasEnded sid) (attempt {Redis = Redis} f status detail)
  attempt-HasEnded f status detail same =
      attempt-Keeps f status detail
        (λ db a db' e h. record { closed = rw (same db a db' e) h.closed })

module _ {Redis : Type 0} (sid : Text) where
  pub exec-HasEnded :
      (f : Accounts → Accounts)
      → ((db : Accounts) → (f db).sessions ≡ db.sessions)
      → Keeps (HasEnded sid) (exec {Redis = Redis} f)
  exec-HasEnded f same = exec-Keeps f (λ db h. record { closed = rw (same db) h.closed })

  pub revoke-HasEnded :
      (now : ℕ) (s : Text) → Keeps (HasEnded sid) (exec {Redis = Redis} (revoke_auth_session now s))
  unfolding revoke_auth_session
  revoke-HasEnded now s =
      exec-Keeps _ (λ db h. record { closed = any-revoked sid _ now db.sessions h.closed })

  pub revoke_all-HasEnded :
      (now : ℕ) (user_id : Text)
      → Keeps (HasEnded sid) (exec {Redis = Redis} (revoke_all_auth_sessions now user_id))
  unfolding revoke_all_auth_sessions
  revoke_all-HasEnded now user_id =
      exec-Keeps _ (λ db h. record { closed = any-revoked sid _ now db.sessions h.closed })

  pub create-HasEnded :
      (now : ℕ) (user_id s : Text) (days : ℕ)
      → (s == sid) ≡ false
      → Keeps (HasEnded sid) (exec {Redis = Redis} (create_auth_session now user_id s days))
  unfolding create_auth_session
  create-HasEnded now user_id s days other = exec-Keeps _ (λ db h. record {
    closed = any-append_one (is_open sid) _ db.sessions h.closed (ground (arith, other));
  })

  pub delete-HasEnded :
      (user_id : Text)
      → Keeps (HasEnded sid) (method {Redis = Redis} (Accounts.delete_user user_id))
  unfolding Accounts.delete_user
  delete-HasEnded user_id =
      method-Keeps _ (λ db h. record { closed = any-keep (is_open sid) _ db.sessions h.closed })

  pub redeem-HasEnded :
      (now : ℕ) (token_hash password_hash : Text)
      → Keeps
          (HasEnded sid)
          (method {Redis = Redis} (consume_password_reset_token now token_hash password_hash))
  unfolding consume_password_reset_token
  redeem-HasEnded now token_hash password_hash =
      method-Keeps _ λ db h. redeem_reset-HasEnded sid now password_hash _ db h

  pub email-HasEnded :
      (now : ℕ) (token_hash : Text)
      → Keeps (HasEnded sid) (method {Redis = Redis} (verify_email_token now token_hash))
  unfolding verify_email_token
  email-HasEnded now token_hash = method-HasEnded sid _ λ db. redeem_email-sessions now _ db

  pub audit-HasEnded :
      (actor : Option Text) (action : Text) (target : Option Text)
      → Keeps (HasEnded sid) (exec {Redis = Redis} (record_audit_event actor action target))
  unfolding record_audit_event
  audit-HasEnded actor action target = exec-HasEnded _ λ db. refl

  pub verified-HasEnded :
      (user_id : Text)
      → Keeps (HasEnded sid) (exec {Redis = Redis} (Accounts.mark_email_verified user_id))
  unfolding Accounts.mark_email_verified
  verified-HasEnded user_id = exec-HasEnded _ λ db. refl

module _ {Redis Token : Type 0} (sid : Text) (p : Platform Redis Token) (c : Call) where
  pub get_current_user-HasEnded : (t : Option Token) → Keeps (HasEnded sid) (get_current_user p c t)
  unfolding get_current_user
  get_current_user-HasEnded t = search keeps_rules depth 20

  pub require_admin-HasEnded : (t : Option Token) → Keeps (HasEnded sid) (require_admin p c t)
  unfolding require_admin
  require_admin-HasEnded t = search (keeps_rules, get_current_user-HasEnded)

  pub limit-HasEnded :
      (scope : String) (limit seconds : ℕ)
      → Keeps (HasEnded sid) (enforce_rate_limit p c scope limit seconds)
  unfolding enforce_rate_limit
  limit-HasEnded scope limit seconds = record { kept = λ w h. h }

  pub create_token_pair-HasEnded :
      (other : (c.session_id == sid) ≡ false) (user_id : Text) (role : Role)
      → Keeps (HasEnded sid) (create_token_pair p c user_id role)
  unfolding create_token_pair
  create_token_pair-HasEnded other user_id role = search (keeps_rules, create-HasEnded, other)

pub ruleset ended_rules = (
  keeps_rules, exec-HasEnded, method-HasEnded, attempt-HasEnded, revoke-HasEnded,
  revoke_all-HasEnded, delete-HasEnded, redeem-HasEnded, email-HasEnded, audit-HasEnded,
  verified-HasEnded, get_current_user-HasEnded, require_admin-HasEnded, limit-HasEnded,
  create_token_pair-HasEnded,
)
