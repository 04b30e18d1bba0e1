-- ===== src/Auth/Revocation/Handlers.antt =====
-- No request of app/api/routes/auth.py opens a session that has ended, unless `uuid4` draws its id
-- again.
use duka_scraper.Base.{ℕ, String, ◌≡◌, refl, false, Option, none, some, ◌==◌, arith}
use duka_scraper.Base.Text.{Text, text_eq}
use duka_scraper.Accounts.{User, Accounts}
use duka_scraper.Accounts
use duka_scraper.Accounts.Tokens.{
  store_email_verification_token, store_password_reset_token, consume_verification_code,
}
use duka_scraper.Api.{Platform, Call, exec, attempt}
use duka_scraper.Api.Keeps.{Keeps}
use duka_scraper.Auth.{refresh_token, logout, revoke_named}
use duka_scraper.Auth.Login.{
  LoginRequest, login, sign_in, issue_login_otp, take_code, verify_login_otp, resend_login_otp,
  sign_out, confirm_email_verification,
}
use duka_scraper.Auth.Passwords.{
  ProfileUpdate, request_password_reset, confirm_password_reset, forgot_password,
  reset_password_with_code, change_own_password, get_profile, update_profile, mail_reset,
  log_reset_request, check_address,
}
use duka_scraper.Auth.Revocation.{HasEnded, exec-HasEnded, attempt-HasEnded, ended_rules}

module _ {Redis : Type 0} (sid : Text) where
  pub store_email-HasEnded :
      (now : ℕ) (token_id user_id token_hash : Text) (minutes : ℕ)
      → Keeps (HasEnded sid) (
          exec {Redis = Redis}
            (store_email_verification_token now token_id user_id token_hash minutes))
  unfolding store_email_verification_token
  store_email-HasEnded now token_id user_id token_hash minutes = exec-HasEnded sid _ λ db. refl

  pub store_reset-HasEnded :
      (now : ℕ) (token_id user_id token_hash : Text) (minutes : ℕ)
      → Keeps (HasEnded sid) (
          exec {Redis = Redis} (store_password_reset_token now token_id user_id token_hash minutes))
  unfolding store_password_reset_token
  store_reset-HasEnded now token_id user_id token_hash minutes = exec-HasEnded sid _ λ db. refl

  pub update_profile_kept :
      (user_id : Text) (full_name email hash : Option Text) (status : ℕ) (detail : String)
      → Keeps (HasEnded sid) (
          attempt {Redis = Redis}
            (Accounts.update_user_profile user_id full_name email hash)
            status
            detail)
  unfolding Accounts.update_user_profile
  update_profile_kept user_id full_name email hash status detail =
      attempt-HasEnded sid _ status detail λ db a db' e. ground arith

pub ruleset store_rules = (ended_rules, store_email-HasEnded, store_reset-HasEnded)

module _ {Redis Token : Type 0} (sid : Text) (p : Platform Redis Token) (c : Call)
    (other : (c.session_id == sid) ≡ false) where
  pub refresh_token-HasEnded : (token : Token) → Keeps (HasEnded sid) (refresh_token p c token)
  unfolding refresh_token
  refresh_token-HasEnded token = search (ended_rules, other) depth 20

  pub issue_login_otp-HasEnded : (user : User) → Keeps (HasEnded sid) (issue_login_otp p c user)
  unfolding issue_login_otp
  issue_login_otp-HasEnded user = search store_rules depth 20

  pub sign_in-HasEnded : (user : User) → Keeps (HasEnded sid) (sign_in p c user)
  unfolding sign_in
  sign_in-HasEnded user = search (ended_rules, other) depth 20

  pub login-HasEnded : (r : LoginRequest) → Keeps (HasEnded sid) (login p c r)
  unfolding login
  login-HasEnded r = search (ended_rules, sign_in-HasEnded, issue_login_otp-HasEnded) depth 20

  pub take_code-HasEnded : (user_id code : Text) → Keeps (HasEnded sid) (take_code p c user_id code)
  unfolding take_code consume_verification_code
  take_code-HasEnded user_id code = search ended_rules depth 20

  pub verify_login_otp-HasEnded :
      (user_id code : Text) → Keeps (HasEnded sid) (verify_login_otp p c user_id code)
  unfolding verify_login_otp
  verify_login_otp-HasEnded user_id code = search (ended_rules, take_code-HasEnded, other) depth 20

  pub resend_login_otp-HasEnded :
      (user_id : Text) → Keeps (HasEnded sid) (resend_login_otp p c user_id)
  unfolding resend_login_otp
  resend_login_otp-HasEnded user_id = search (ended_rules, issue_login_otp-HasEnded) depth 20

  pub confirm_email-HasEnded :
      (user_id code : Text) → Keeps (HasEnded sid) (confirm_email_verification p c user_id code)
  unfolding confirm_email_verification
  confirm_email-HasEnded user_id code = search (ended_rules, take_code-HasEnded) depth 20

  pub revoke_named-HasEnded : (o : Option Text) → Keeps (HasEnded sid) (revoke_named p c o)
  revoke_named-HasEnded none = search ended_rules
  revoke_named-HasEnded (some s) = search ended_rules

  pub sign_out-HasEnded : (t : Option Token) → Keeps (HasEnded sid) (sign_out p c t)
  unfolding sign_out logout
  sign_out-HasEnded none = search ended_rules
  sign_out-HasEnded (some token) = revoke_named-HasEnded _

  pub mail_reset-HasEnded :
      (secret : Text) (o : Option User) → Keeps (HasEnded sid) (mail_reset p c secret o)
  mail_reset-HasEnded secret none = search store_rules
  mail_reset-HasEnded secret (some user) = search store_rules depth 20

  pub log_reset_request-HasEnded : (o : Option User) → Keeps (HasEnded sid) (log_reset_request p o)
  log_reset_request-HasEnded none = search ended_rules
  log_reset_request-HasEnded (some user) = search ended_rules

  pub request_password_reset-HasEnded :
      (email : Text) → Keeps (HasEnded sid) (request_password_reset p c email)
  unfolding request_password_reset
  request_password_reset-HasEnded email =
      search (ended_rules, mail_reset-HasEnded, log_reset_request-HasEnded) depth 20

  pub forgot_password-HasEnded : (email : Text) → Keeps (HasEnded sid) (forgot_password p c email)
  unfolding forgot_password
  forgot_password-HasEnded email = search (ended_rules, mail_reset-HasEnded) depth 20

  pub confirm_password_reset-HasEnded :
      (token password : Text) → Keeps (HasEnded sid) (confirm_password_reset p c token password)
  unfolding confirm_password_reset
  confirm_password_reset-HasEnded token password = search ended_rules depth 20

  pub reset_password-HasEnded :
      (email code password : Text)
      → Keeps (HasEnded sid) (reset_password_with_code p c email code password)
  unfolding reset_password_with_code
  reset_password-HasEnded email code password = search ended_rules depth 20

  pub change_own_password-HasEnded :
      (t : Option Token) (current new : Text)
      → Keeps (HasEnded sid) (change_own_password p c t current new)
  unfolding change_own_password Accounts.update_user_credentials
  change_own_password-HasEnded t current new = search ended_rules depth 20

  pub get_profile-HasEnded : (t : Option Token) → Keeps (HasEnded sid) (get_profile p c t)
  unfolding get_profile
  get_profile-HasEnded t = search ended_rules depth 20

  pub check_address-HasEnded :
      (user_id : Text) (o : Option Text) → Keeps (HasEnded sid) (check_address p user_id o)
  check_address-HasEnded user_id none = search ended_rules
  check_address-HasEnded user_id (some email) = search ended_rules depth 20

  pub update_profile-HasEnded :
      (t : Option Token) (r : ProfileUpdate) → Keeps (HasEnded sid) (update_profile p c t r)
  unfolding update_profile
  update_profile-HasEnded t r =
      search (ended_rules, check_address-HasEnded, update_profile_kept) depth 20
