-- ===== src/Auth/Revocation/AdminHandlers.antt =====
-- The routes of the administrator open no session that has ended (app/api/routes/auth.py).
use duka_scraper.Base.{ℕ, String, ◌≡◌, refl, Bool, true, false, Option, none, some, arith}
use duka_scraper.Base.Text.{Text, text_eq}
use duka_scraper.Accounts.{User, Role, Accounts}
use duka_scraper.Accounts
use duka_scraper.Api.{Reply, World, Platform, Call, Handler, method, attempt}
use duka_scraper.Api.Keeps.{Keeps}
use duka_scraper.Auth.Requests.{AdminRequest, outcome, serve_admin}
use duka_scraper.Auth.Signup.{
  Completion, send_signup_code, confirm_signup_code, complete_user_creation, pending_row, roll_back,
}
use duka_scraper.Auth.Admin
use duka_scraper.Auth.Admin.{NewUser, UserUpdate}
use duka_scraper.Auth.Revocation.{HasEnded, method-HasEnded, attempt-HasEnded}
use duka_scraper.Auth.Revocation.Handlers.{store_rules, update_profile_kept}

module _ {Redis : Type 0} (sid : Text) where
  create_row_kept :
      (user_id full_name username email hash : Text) (role : Role) (verified : Bool) (status : ℕ)
      (detail : String)
      → Keeps (HasEnded sid) (
          attempt {Redis = Redis}
            (Accounts.create_user user_id full_name username email hash role verified)
            status
            detail)
  unfolding Accounts.create_user
  create_row_kept user_id full_name username email hash role verified status detail =
      attempt-HasEnded sid _ status detail λ db a db' e. ground arith

  create_pending_kept :
      (user_id token email hash : Text) (status : ℕ) (detail : String)
      → Keeps (HasEnded sid) (
          attempt {Redis = Redis}
            (Accounts.create_pending_user user_id token email hash)
            status
            detail)
  unfolding Accounts.create_pending_user
  create_pending_kept user_id token email hash status detail =
      attempt-HasEnded sid _ status detail λ db a db' e. ground arith

  finalize_kept :
      (user_id username : Text) (full_name : Option Text) (role : Role) (must : Bool) (status : ℕ)
      (detail : String)
      → Keeps (HasEnded sid) (
          attempt {Redis = Redis}
            (Accounts.finalize_pending_user user_id username full_name role must)
            status
            detail)
  unfolding Accounts.finalize_pending_user
  finalize_kept user_id username full_name role must status detail =
      attempt-HasEnded sid _ status detail λ db a db' e. ground arith

  credentials-HasEnded :
      (user_id : Text) (hash : Option Text) (must : Option Bool)
      → Keeps
          (HasEnded sid)
          (method {Redis = Redis} (Accounts.update_user_credentials user_id hash must))
  unfolding Accounts.update_user_credentials
  credentials-HasEnded user_id hash must = method-HasEnded sid _ λ db. refl

  must_change-HasEnded :
      (user_id : Text) (value : Bool)
      → Keeps
          (HasEnded sid)
          (method {Redis = Redis} (Accounts.set_must_change_password user_id value))
  unfolding Accounts.set_must_change_password
  must_change-HasEnded user_id value = method-HasEnded sid _ λ db. refl

  update_admin-HasEnded :
      (user_id : Text) (full_name : Option Text) (role : Option Role) (active : Option Bool)
      → Keeps
          (HasEnded sid)
          (method {Redis = Redis} (Accounts.update_admin_user user_id full_name role active))
  unfolding Accounts.update_admin_user
  update_admin-HasEnded user_id full_name role active = method-HasEnded sid _ λ db. refl

ruleset user_rules = (
  store_rules, update_profile_kept, create_row_kept, create_pending_kept, finalize_kept,
  credentials-HasEnded, must_change-HasEnded, update_admin-HasEnded,
)

outcome_accounts :
    {Redis A : Type 0} (x : Reply A × World Redis) → (outcome x).1.accounts ≡ x.1.accounts
outcome_accounts (Reply.ok a, w) = refl
outcome_accounts (Reply.refused status detail, w) = refl

module _ {Redis A : Type 0} {P : Accounts → Type 0} where
  pub outcome-Keeps :
      (m : Handler Redis A)
      → Keeps P m
      → (w : World Redis) → P w.accounts
      → P (outcome (m w)).1.accounts
  outcome-Keeps m k w h = rw (outcome_accounts (m w)) (k.kept w h)

module _ {Redis Token : Type 0} (sid : Text) (p : Platform Redis Token) (c : Call) where
  pending_row-HasEnded :
      (email password : Text) (o : Option User)
      → Keeps (HasEnded sid) (pending_row p c email password o)
  pending_row-HasEnded email password none = search user_rules
  pending_row-HasEnded email password (some u) = search user_rules depth 20

  roll_back-HasEnded :
      (user_id : Text) (sent : Bool) → Keeps (HasEnded sid) (roll_back p user_id sent)
  roll_back-HasEnded user_id true = search user_rules
  roll_back-HasEnded user_id false = search user_rules depth 20

  send_signup_code-HasEnded :
      (t : Option Token) (email password : Text)
      → Keeps (HasEnded sid) (send_signup_code p c t email password)
  unfolding send_signup_code
  send_signup_code-HasEnded t email password =
      search (user_rules, pending_row-HasEnded, roll_back-HasEnded) depth 30

  confirm_signup_code-HasEnded :
      (t : Option Token) (email code : Text)
      → Keeps (HasEnded sid) (confirm_signup_code p c t email code)
  unfolding confirm_signup_code
  confirm_signup_code-HasEnded t email code = search (user_rules) depth 30

  complete_user_creation-HasEnded :
      (t : Option Token) (r : Completion) → Keeps (HasEnded sid) (complete_user_creation p c t r)
  unfolding complete_user_creation
  complete_user_creation-HasEnded t r = search (user_rules) depth 30

  list_users-HasEnded : (t : Option Token) → Keeps (HasEnded sid) (Admin.list_users p c t)
  unfolding Admin.list_users
  list_users-HasEnded t = search (user_rules) depth 30

  create_user-HasEnded :
      (t : Option Token) (r : NewUser) → Keeps (HasEnded sid) (Admin.create_user p c t r)
  unfolding Admin.create_user
  create_user-HasEnded t r = search (user_rules, roll_back-HasEnded) depth 30

  admin_update_user-HasEnded :
      (t : Option Token) (user_id : Text) (r : UserUpdate)
      → Keeps (HasEnded sid) (Admin.admin_update_user p c t user_id r)
  unfolding Admin.admin_update_user
  admin_update_user-HasEnded t user_id r = search (user_rules) depth 30

  admin_reset_user_password-HasEnded :
      (t : Option Token) (user_id password : Text)
      → Keeps (HasEnded sid) (Admin.admin_reset_user_password p c t user_id password)
  unfolding Admin.admin_reset_user_password
  admin_reset_user_password-HasEnded t user_id password = search (user_rules) depth 30

  delete_user-HasEnded :
      (t : Option Token) (identifier : Text)
      → Keeps (HasEnded sid) (Admin.delete_user p c t identifier)
  unfolding Admin.delete_user
  delete_user-HasEnded t identifier = search (user_rules) depth 30

  set_user_active-HasEnded :
      (t : Option Token) (username : Text) (active : Bool)
      → Keeps (HasEnded sid) (Admin.set_user_active p c t username active)
  unfolding Admin.set_user_active
  set_user_active-HasEnded t username active = search (user_rules) depth 30

  force_user_password_reset-HasEnded :
      (t : Option Token) (username : Text)
      → Keeps (HasEnded sid) (Admin.force_user_password_reset p c t username)
  unfolding Admin.force_user_password_reset
  force_user_password_reset-HasEnded t username = search (user_rules) depth 30

  pub serve_admin-HasEnded :
      (t : Option Token) (r : AdminRequest) (w : World Redis)
      → HasEnded sid w.accounts
      → HasEnded sid (serve_admin p c t r w).1.accounts
  unfolding serve_admin
  serve_admin-HasEnded t (AdminRequest.signup_verify email password) w h =
      outcome-Keeps _ (send_signup_code-HasEnded t email password) w h
  serve_admin-HasEnded t (AdminRequest.signup_confirm email code) w h =
      outcome-Keeps _ (confirm_signup_code-HasEnded t email code) w h
  serve_admin-HasEnded t (AdminRequest.signup_complete r) w h =
      outcome-Keeps _ (complete_user_creation-HasEnded t r) w h
  serve_admin-HasEnded t AdminRequest.users_list w h = outcome-Keeps _ (list_users-HasEnded t) w h
  serve_admin-HasEnded t (AdminRequest.users_create r) w h =
      outcome-Keeps _ (create_user-HasEnded t r) w h
  serve_admin-HasEnded t (AdminRequest.users_update user_id r) w h =
      outcome-Keeps _ (admin_update_user-HasEnded t user_id r) w h
  serve_admin-HasEnded t (AdminRequest.users_reset_password user_id password) w h =
      outcome-Keeps _ (admin_reset_user_password-HasEnded t user_id password) w h
  serve_admin-HasEnded t (AdminRequest.users_delete identifier) w h =
      outcome-Keeps _ (delete_user-HasEnded t identifier) w h
  serve_admin-HasEnded t (AdminRequest.users_status username active) w h =
      outcome-Keeps _ (set_user_active-HasEnded t username active) w h
  serve_admin-HasEnded t (AdminRequest.users_force_reset username) w h =
      outcome-Keeps _ (force_user_password_reset-HasEnded t username) w h
