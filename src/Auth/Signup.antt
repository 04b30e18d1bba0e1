-- ===== src/Auth/Signup.antt =====
-- The three steps in which an administrator opens an account for an address
-- (app/api/routes/auth.py).
use duka_scraper.Base.{ℕ, ◌*◌, Bool, true, false, not, Option, none, some, if◌then◌else◌}
use duka_scraper.Base.Text.{Text, text_eq, codes, is_empty, lower, starts_with}
use duka_scraper.Fingerprint.{strip}
use duka_scraper.Accounts.{
  User, Role, TokenType, get_user_by_email, get_user_by_username, create_pending_user, delete_user,
  update_user_credentials, finalize_pending_user,
}
use duka_scraper.Accounts.Sessions.{record_audit_event}
use duka_scraper.Accounts.Tokens.{
  store_email_verification_token, is_valid_verification_code, verify_email_token,
}
use duka_scraper.Api.{
  Platform, Call, Handler, pure, query, method, attempt, demand, exec, check, send, ◌>>=◌, ◌>>◌,
}
use duka_scraper.Api.RateLimit.{enforce_rate_limit}
use duka_scraper.Auth.{PublicUser, public_user, hash_password, require_admin, text_or_empty}
use duka_scraper.Auth.Passwords.{is_address, is_taken_by_other}

abbrev pub signup_code_expire_minutes : ℕ
signup_code_expire_minutes = 10

abbrev pub signup_confirm_expire_minutes : ℕ
signup_confirm_expire_minutes = 30

pub record Completion : Type 0 where
  pub email : Text
  pub username : Text
  pub full_name : Option Text
  pub role : Role
  pub token : Text
  pub must_change_password : Bool

abbrev pub is_pending_user : User → Bool
is_pending_user u = starts_with u.username (codes "pending_")

-- `(full_name or "").strip() or None`
abbrev pub stripped_name : Option Text → Option Text
stripped_name full_name =
    let name = strip (text_or_empty full_name) in if is_empty name then none else some name

module _ {Redis Token : Type 0} (p : Platform Redis Token) where
  -- The row of the address: made, or with the new password if it is still pending.
  abbrev pub pending_row : Call → Text → Text → Option User → Handler Redis User
  pending_row c email password none =
      attempt (create_pending_user c.user_id c.hex_token email (hash_password p c password)) 500
        "Internal Server Error"
  pending_row c email password (some existing) = do
    check (is_pending_user existing) 409 "This email is already registered"
    method (update_user_credentials existing.user_id (some (hash_password p c password)) none)
    pure existing

  abbrev pub roll_back : Text → Bool → Handler Redis (Unit {0})
  roll_back user_id true = pure tt
  roll_back user_id false = do method (delete_user user_id); pure tt

  unfoldable pub send_signup_code : Call → Option Token → Text → Text → Handler Redis Text
  unfolding require_admin enforce_rate_limit
  send_signup_code c credentials typed password = do
    require_admin p c credentials
    enforce_rate_limit p c "signup-verify" (p.reset_rate_limit_per_hour * 2) 3600
    let email = lower (strip typed)
    existing ← query (get_user_by_email email)
    pending ← pending_row c email password existing
    exec (
        store_email_verification_token c.now c.token_id pending.user_id (p.digest c.six_digits)
          signup_code_expire_minutes)
    sent ← send c.is_mail_sent email c.six_digits
    roll_back pending.user_id sent
    check sent 503 "Verification email is temporarily unavailable"
    pure email

  -- The answer is the completion token.
  unfoldable pub confirm_signup_code : Call → Option Token → Text → Text → Handler Redis Text
  unfolding require_admin enforce_rate_limit
  confirm_signup_code c credentials typed code = do
    require_admin p c credentials
    enforce_rate_limit p c "signup-confirm" 20 600
    found ← query (get_user_by_email (lower (strip typed)))
    user ← demand found 400 "Verification code is invalid or expired"
    valid ←
        query (
          is_valid_verification_code c.now user.user_id TokenType.email_verification
            (p.digest code))
    check valid 400 "Verification code is invalid or expired"
    exec (
        store_email_verification_token c.now c.token_id user.user_id (p.digest c.url_token)
          signup_confirm_expire_minutes)
    pure c.url_token

  unfoldable pub complete_user_creation :
      Call → Option Token → Completion → Handler Redis PublicUser
  unfolding require_admin
  complete_user_creation c credentials r = do
    require_admin p c credentials
    let email = lower (strip r.email)
    found ← query (get_user_by_email email)
    user ← demand found 400 "Email verification is incomplete. Start over."
    verified_email ← method (verify_email_token c.now (p.digest r.token))
    check (is_address email verified_email) 400 "Verification token is invalid or expired"
    username_taken ← query (get_user_by_username (lower r.username))
    check (not (is_taken_by_other user.user_id username_taken)) 409 "Username is already taken"
    updated ←
        attempt
          (finalize_pending_user user.user_id (lower r.username) (stripped_name r.full_name) r.role
            r.must_change_password)
          409 "Username is already taken"
    shown ← demand updated 500 "Internal Server Error"
    exec (record_audit_event none (codes "user_created") (some shown.user_id))
    pure (public_user shown)
