-- ===== src/Auth/Requests.antt =====
-- The requests that app/api/routes/auth.py serves, and sequences of them.
use duka_scraper.Base.{ℕ, Bool, Option, none, some, List, [], ◌∷◌}
use duka_scraper.Base.Text.{Text}
use duka_scraper.Api.{Reply, World, Platform, Call}
use duka_scraper.Auth.Login
use duka_scraper.Auth.Login.{LoginRequest}
use duka_scraper.Auth.Passwords
use duka_scraper.Auth.Passwords.{ProfileUpdate}
use duka_scraper.Auth.Signup
use duka_scraper.Auth.Signup.{Completion}
use duka_scraper.Auth.Admin
use duka_scraper.Auth.Admin.{NewUser, UserUpdate}

-- The routes of app/api/routes/auth.py that ask for an administrator; other files have more.
pub data AdminRequest : Type 0 where
  signup_verify : Text → Text → AdminRequest
  signup_confirm : Text → Text → AdminRequest
  signup_complete : Completion → AdminRequest
  users_list : AdminRequest
  users_create : NewUser → AdminRequest
  users_update : Text → UserUpdate → AdminRequest
  users_reset_password : Text → Text → AdminRequest
  users_delete : Text → AdminRequest
  users_status : Text → Bool → AdminRequest
  users_force_reset : Text → AdminRequest

pub data Request (Token : Type 0) : Type 0 where
  post_login : LoginRequest → Request Token
  post_refresh : Token → Request Token
  post_verify_otp : Text → Text → Request Token
  post_resend_otp : Text → Request Token
  post_logout : Option Token → Request Token
  post_reset_request : Text → Request Token
  post_reset_confirm : Text → Text → Request Token
  post_email_confirm : Text → Text → Request Token
  post_forgot_password : Text → Request Token
  post_reset_password : Text → Text → Text → Request Token
  post_change_password : Option Token → Text → Text → Request Token
  get_me : Option Token → Request Token
  patch_me : Option Token → ProfileUpdate → Request Token
  by_admin : Option Token → AdminRequest → Request Token

-- The status of an error, and what a request leaves.
abbrev pub outcome : {Redis A : Type 0} → Reply A × World Redis → Option ℕ × World Redis
outcome (Reply.ok a, w) = (none, w)
outcome (Reply.refused status detail, w) = (some status, w)

module _ {Redis Token : Type 0} (p : Platform Redis Token) where
  unfoldable pub serve_admin :
      Call → Option Token → AdminRequest → World Redis → Option ℕ × World Redis
  serve_admin c t (AdminRequest.signup_verify email password) w =
      outcome (Signup.send_signup_code p c t email password w)
  serve_admin c t (AdminRequest.signup_confirm email code) w =
      outcome (Signup.confirm_signup_code p c t email code w)
  serve_admin c t (AdminRequest.signup_complete r) w =
      outcome (Signup.complete_user_creation p c t r w)
  serve_admin c t AdminRequest.users_list w = outcome (Admin.list_users p c t w)
  serve_admin c t (AdminRequest.users_create r) w = outcome (Admin.create_user p c t r w)
  serve_admin c t (AdminRequest.users_update user_id r) w =
      outcome (Admin.admin_update_user p c t user_id r w)
  serve_admin c t (AdminRequest.users_reset_password user_id password) w =
      outcome (Admin.admin_reset_user_password p c t user_id password w)
  serve_admin c t (AdminRequest.users_delete identifier) w =
      outcome (Admin.delete_user p c t identifier w)
  serve_admin c t (AdminRequest.users_status username active) w =
      outcome (Admin.set_user_active p c t username active w)
  serve_admin c t (AdminRequest.users_force_reset username) w =
      outcome (Admin.force_user_password_reset p c t username w)

  unfoldable pub serve : Call → Request Token → World Redis → World Redis
  unfolding serve_admin
  serve c (Request.post_login r) w = (Login.login p c r w).1
  serve c (Request.post_refresh token) w = (Login.refresh p c token w).1
  serve c (Request.post_verify_otp user_id code) w = (Login.verify_login_otp p c user_id code w).1
  serve c (Request.post_resend_otp user_id) w = (Login.resend_login_otp p c user_id w).1
  serve c (Request.post_logout t) w = (Login.sign_out p c t w).1
  serve c (Request.post_reset_request email) w = (Passwords.request_password_reset p c email w).1
  serve c (Request.post_reset_confirm token password) w =
      (Passwords.confirm_password_reset p c token password w).1
  serve c (Request.post_email_confirm user_id code) w =
      (Login.confirm_email_verification p c user_id code w).1
  serve c (Request.post_forgot_password email) w = (Passwords.forgot_password p c email w).1
  serve c (Request.post_reset_password email code password) w =
      (Passwords.reset_password_with_code p c email code password w).1
  serve c (Request.post_change_password t current new) w =
      (Passwords.change_own_password p c t current new w).1
  serve c (Request.get_me t) w = (Passwords.get_profile p c t w).1
  serve c (Request.patch_me t r) w = (Passwords.update_profile p c t r w).1
  serve c (Request.by_admin t r) w = (serve_admin c t r w).1

  unfoldable pub run : List (Call × Request Token) → World Redis → World Redis
  unfolding serve
  run [] w = w
  run ((c, r) ∷ rest) w = run rest (serve c r w)
