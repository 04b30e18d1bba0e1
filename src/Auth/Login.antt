-- ===== src/Auth/Login.antt =====
-- Signing in and out, and the code of the first sign-in (app/api/routes/auth.py). The lengths and
-- patterns that the request models ask for are checked before a handler runs; the mails that only
-- confirm what was done carry no secret and are left out.
use duka_scraper.Base.{ℕ, ◌*◌, not, Option, none, some, [], ◌∷◌, ◌++◌, if◌then◌else◌}
use duka_scraper.Base.Text.{Text, text_eq, codes, is_empty, cut, lower}
use duka_scraper.Fingerprint.{strip}
use duka_scraper.Accounts.{
  User, TokenType, Accounts, coalesce, get_user, get_user_by_email, get_user_by_username,
  mark_email_verified,
}
use duka_scraper.Accounts.Sessions.{record_audit_event}
use duka_scraper.Accounts.Tokens.{
  store_email_verification_token, is_valid_verification_code, consume_verification_code,
}
use duka_scraper.Api.{
  Platform, Call, Handler, pure, query, method, demand, exec, check, send, ◌>>=◌, ◌>>◌,
}
use duka_scraper.Api.RateLimit.{enforce_rate_limit}
use duka_scraper.Auth.{
  TokenPair, PublicUser, public_user, verify_password, create_token_pair, refresh_token, logout,
  is_missing, text_or_empty,
}

pub record LoginRequest : Type 0 where
  pub email : Option Text
  pub username : Option Text
  pub password : Text

pub record Challenge : Type 0 where
  pub user_id : Text
  pub masked_email : Text
  pub expires_in_seconds : ℕ

pub data LoginReply (Token : Type 0) : Type 0 where
  signed_in : TokenPair Token → PublicUser → LoginReply Token
  requires_verification : Challenge → LoginReply Token

abbrev pub login_otp_expire_minutes : ℕ
login_otp_expire_minutes = 10

abbrev pub or_else {ℓ} : {A : Type ℓ} → Option A → Option A → Option A
or_else none o = o
or_else (some a) o = some a

-- `email.partition("@")`, without what separates
abbrev partition_at : Text → Text × Text
partition_at email = coalesce (cut b'@' email) (email, [])

abbrev first_of : Text → Text
first_of [] = codes "?"
first_of (a ∷ t) = a ∷ []

abbrev pub mask_email : Text → Text
mask_email email =
    let (local, domain) = partition_at email in
    first_of local ++ (codes "***@" ++ (if is_empty domain then codes "?" else domain))

unfoldable pub resolve_user : Text → Accounts → Option User
unfolding get_user get_user_by_username
resolve_user identifier db =
    or_else (get_user identifier db) (get_user_by_username (lower identifier) db)

-- By the address first, then by the name.
unfoldable pub find_login : Text → Accounts → Option User
unfolding get_user_by_email get_user_by_username
find_login identifier db =
    or_else (get_user_by_email identifier db) (get_user_by_username identifier db)

abbrev pub login_identifier : LoginRequest → Text
login_identifier r =
    lower (strip (if is_missing r.email then text_or_empty r.username else text_or_empty r.email))

module _ {Redis Token : Type 0} (p : Platform Redis Token) where
  abbrev pub with_password : Text → Option User → Option User
  with_password password none = none
  with_password password (some u) =
      if verify_password p password u.password_hash then some u else none

  unfoldable pub issue_login_otp : Call → User → Handler Redis (LoginReply Token)
  issue_login_otp c user = do
    exec (
        store_email_verification_token c.now c.token_id user.user_id (p.digest c.six_digits)
          login_otp_expire_minutes)
    sent ← send c.is_mail_sent user.email c.six_digits
    check sent 503 "Verification email is temporarily unavailable"
    pure (
        LoginReply.requires_verification (record {
          user_id = user.user_id;
          masked_email = mask_email user.email;
          expires_in_seconds = login_otp_expire_minutes * 60;
        }))

  -- The end of `login`, for a user who has shown the password and the address.
  unfoldable pub sign_in : Call → User → Handler Redis (LoginReply Token)
  unfolding create_token_pair
  sign_in c user = do
    exec (record_audit_event (some user.user_id) (codes "login") (some user.user_id))
    pair ← create_token_pair p c user.user_id user.role
    pure (LoginReply.signed_in pair (public_user user))

  unfoldable pub login : Call → LoginRequest → Handler Redis (LoginReply Token)
  unfolding enforce_rate_limit issue_login_otp sign_in
  login c r = do
    enforce_rate_limit p c "login" p.login_rate_limit_per_minute 60
    found ← query (find_login (login_identifier r))
    user ← demand (with_password r.password found) 401 "Incorrect email or password"
    check user.is_active 403 "This account has been disabled. Contact an administrator."
    if user.email_verified then sign_in c user else issue_login_otp c user

  unfoldable pub refresh : Call → Token → Handler Redis (TokenPair Token)
  unfolding refresh_token
  refresh c token = refresh_token p c token

  -- A user who is there and not verified yet.
  abbrev pub unverified : Option User → Option User
  unverified none = none
  unverified (some u) = if u.email_verified then none else some u

  -- A code is tested, and then taken.
  unfoldable pub take_code : Call → Text → Text → Handler Redis (Unit {0})
  take_code c user_id code = do
    valid ←
        query
          (is_valid_verification_code c.now user_id TokenType.email_verification (p.digest code))
    check valid 400 "Verification code is invalid or expired"
    taken ←
        method
          (consume_verification_code c.now user_id TokenType.email_verification (p.digest code))
    check taken 400 "Verification code is invalid or expired"

  unfoldable pub verify_login_otp : Call → Text → Text → Handler Redis (LoginReply Token)
  unfolding enforce_rate_limit take_code create_token_pair
  verify_login_otp c user_id code = do
    enforce_rate_limit p c "verify-otp" 20 600
    found ← query (resolve_user (strip user_id))
    user ← demand (unverified found) 400 "Verification code is invalid or expired"
    take_code c user.user_id code
    exec (mark_email_verified user.user_id)
    exec (record_audit_event (some user.user_id) (codes "login") (some user.user_id))
    refreshed ← query (get_user user.user_id)
    pair ← create_token_pair p c user.user_id user.role
    pure (LoginReply.signed_in pair (public_user (coalesce refreshed user)))

  unfoldable pub resend_login_otp : Call → Text → Handler Redis (LoginReply Token)
  unfolding enforce_rate_limit issue_login_otp
  resend_login_otp c user_id = do
    enforce_rate_limit p c "verify-otp-resend" 5 3600
    found ← query (resolve_user (strip user_id))
    user ← demand found 404 "Account not found"
    check (not user.email_verified) 400 "This account is already verified — just sign in."
    issue_login_otp c user

  unfoldable pub sign_out : Call → Option Token → Handler Redis (Unit {0})
  unfolding logout
  sign_out c credentials = logout p c credentials

  unfoldable pub confirm_email_verification : Call → Text → Text → Handler Redis (Unit {0})
  unfolding enforce_rate_limit take_code
  confirm_email_verification c user_id code = do
    enforce_rate_limit p c "email-verification" 10 600
    found ← query (resolve_user (strip user_id))
    user ← demand found 404 "Account not found"
    check (not user.email_verified) 400 "This account is already verified - just sign in."
    take_code c user.user_id code
    exec (mark_email_verified user.user_id)
