-- ===== src/Auth/Passwords.antt =====
-- Resetting and changing passwords, and the caller's own profile (app/api/routes/auth.py).
use duka_scraper.Base.{Bool, false, not, ◌&&◌, Option, none, some, ◌==◌, if◌then◌else◌}
use duka_scraper.Base.Text.{Text, text_eq, codes, is_empty, lower}
use duka_scraper.Fingerprint.{strip}
use duka_scraper.Accounts.{User, get_user_by_email, update_user_credentials, update_user_profile}
use duka_scraper.Accounts.Sessions.{record_audit_event, revoke_all_auth_sessions}
use duka_scraper.Accounts.Tokens.{store_password_reset_token, consume_password_reset_token}
use duka_scraper.Api.{
  Platform, Call, Handler, pure, query, method, attempt, demand, exec, check, send, ◌>>=◌, ◌>>◌,
}
use duka_scraper.Api.RateLimit.{enforce_rate_limit}
use duka_scraper.Auth.{
  PublicUser, public_user, public_user_without_flag, hash_password, verify_password,
  get_current_user, is_missing,
}
use duka_scraper.Auth.Login.{find_login}

-- A user who is there and enabled.
abbrev pub enabled : Option User → Option User
enabled none = none
enabled (some u) = if u.is_active then some u else none

-- An address as it was typed matches the address of a code.
abbrev pub is_address : Text → Option Text → Bool
is_address email none = false
is_address email (some owner) = not (is_empty owner) && owner == email

abbrev pub is_some_text : Option Text → Bool
is_some_text o = not (is_missing o)

pub record ProfileUpdate : Type 0 where
  pub full_name : Option Text
  pub email : Option Text
  pub password : Option Text

-- The address is somebody else's.
abbrev pub is_taken_by_other : Text → Option User → Bool
is_taken_by_other user_id none = false
is_taken_by_other user_id (some u) = not (u.user_id == user_id)

module _ {Redis Token : Type 0} (p : Platform Redis Token) where
  -- The code or token is stored, and mailed to the address of the account.
  abbrev pub mail_reset : Call → Text → Option User → Handler Redis (Option User)
  mail_reset c secret none = pure none
  mail_reset c secret (some user) = do
    exec (
        store_password_reset_token c.now c.token_id user.user_id (p.digest secret)
          p.password_reset_expire_minutes)
    sent ← send c.is_mail_sent user.email secret
    check sent 503 "Password reset email is temporarily unavailable"
    pure (some user)

  abbrev pub log_reset_request : Option User → Handler Redis (Unit {0})
  log_reset_request none = pure tt
  log_reset_request (some user) = exec (
      record_audit_event (some user.user_id) (codes "password_reset_requested") (some user.user_id))

  unfoldable pub request_password_reset : Call → Text → Handler Redis (Unit {0})
  unfolding enforce_rate_limit
  request_password_reset c email = do
    enforce_rate_limit p c "password-reset" p.reset_rate_limit_per_hour 3600
    found ← query (find_login (lower (strip email)))
    mailed ← mail_reset c c.url_token (enabled found)
    log_reset_request mailed

  unfoldable pub confirm_password_reset : Call → Text → Text → Handler Redis (Unit {0})
  confirm_password_reset c token new_password = do
    email ←
        method
          (consume_password_reset_token c.now (p.digest token) (hash_password p c new_password))
    check (is_some_text email) 400 "Reset token is invalid, expired, or already used"

  unfoldable pub forgot_password : Call → Text → Handler Redis (Unit {0})
  unfolding enforce_rate_limit
  forgot_password c email = do
    enforce_rate_limit p c "forgot-password" p.reset_rate_limit_per_hour 3600
    found ← query (find_login (lower (strip email)))
    mail_reset c c.six_digits (enabled found)
    pure tt

  unfoldable pub reset_password_with_code : Call → Text → Text → Text → Handler Redis (Unit {0})
  reset_password_with_code c email code new_password = do
    email_from_token ←
        method (consume_password_reset_token c.now (p.digest code) (hash_password p c new_password))
    check (is_address (lower (strip email)) email_from_token) 400
        "Reset code is invalid, expired, or already used"

  unfoldable pub change_own_password : Call → Option Token → Text → Text → Handler Redis (Unit {0})
  unfolding get_current_user
  change_own_password c credentials current_password new_password = do
    user ← get_current_user p c credentials
    check (verify_password p current_password user.password_hash) 401
        "Current password is incorrect"
    method
        (update_user_credentials user.user_id (some (hash_password p c new_password)) (some false))
    exec (record_audit_event (some user.user_id) (codes "password_changed") (some user.user_id))

  unfoldable pub get_profile : Call → Option Token → Handler Redis PublicUser
  unfolding get_current_user
  get_profile c credentials = do user ← get_current_user p c credentials; pure (public_user user)

  abbrev pub check_address : Text → Option Text → Handler Redis (Unit {0})
  check_address user_id none = pure tt
  check_address user_id (some email) = if is_empty email then pure tt else do
    existing ← query (get_user_by_email (lower email))
    check (not (is_taken_by_other user_id existing)) 409 "Email is already in use"

  abbrev pub new_hash : Call → Option Text → Option Text
  new_hash c none = none
  new_hash c (some password) = if is_empty password then none else some (hash_password p c password)

  abbrev pub new_address : Option Text → Option Text
  new_address none = none
  new_address (some email) = if is_empty email then none else some (lower email)

  -- A user who is gone is an error of `public_user`, after all was written.
  unfoldable pub update_profile : Call → Option Token → ProfileUpdate → Handler Redis PublicUser
  unfolding get_current_user
  update_profile c credentials r = do
    user ← get_current_user p c credentials
    check_address user.user_id r.email
    updated ←
        attempt
          (update_user_profile user.user_id r.full_name (new_address r.email)
            (new_hash c r.password))
          500 "Internal Server Error"
    (if is_some_text r.password
        then exec (revoke_all_auth_sessions c.now user.user_id)
        else pure tt)
    exec (record_audit_event (some user.user_id) (codes "profile_updated") (some user.user_id))
    shown ← demand updated 500 "Internal Server Error"
    pure (public_user_without_flag shown)
