-- ===== src/Auth/Admin.antt =====
-- The administrator's management of users (app/api/routes/auth.py).
use duka_scraper.Base.{String, Bool, true, false, not, ◌&&◌, Option, none, some, List, map, ◌==◌}
use duka_scraper.Base.Text.{Text, text_eq, codes, lower}
use duka_scraper.Accounts.{
  User, Role, Accounts, is_none, coalesce, get_user, get_user_by_email, get_user_by_username,
  update_user_profile, update_admin_user, set_must_change_password, user_has_jobs,
}
use duka_scraper.Accounts
use duka_scraper.Accounts.Sessions.{record_audit_event, revoke_all_auth_sessions}
use duka_scraper.Accounts.Tokens.{store_email_verification_token}
use duka_scraper.Api.{
  Platform, Call, Handler, pure, query, method, attempt, demand, exec, check, send, ◌>>=◌, ◌>>◌,
}
use duka_scraper.Auth.{
  PublicUser, public_user, public_user_without_flag, hash_password, require_admin,
}
use duka_scraper.Auth.Login.{resolve_user, login_otp_expire_minutes}
use duka_scraper.Auth.Signup.{roll_back}

pub record NewUser : Type 0 where
  pub full_name : Text
  pub username : Text
  pub email : Text
  pub password : Text
  pub role : Role

pub record UserUpdate : Type 0 where
  pub full_name : Option Text
  pub role : Option Role
  pub is_active : Option Bool

-- `is_active is False`
abbrev pub is_disabling : Option Bool → Bool
is_disabling none = false
is_disabling (some active) = not active

module _ {Redis Token : Type 0} (p : Platform Redis Token) where
  unfoldable pub list_users : Call → Option Token → Handler Redis (List PublicUser)
  unfolding require_admin
  list_users c credentials = do
    require_admin p c credentials
    users ← query Accounts.list_users
    pure (map public_user users)

  -- The last entry of the log of a change by `admin`.
  abbrev pub log_change : User → String → Text → Handler Redis (Unit {0})
  log_change admin action target_id =
      exec (record_audit_event (some admin.user_id) (codes action) (some target_id))

  unfoldable pub create_user : Call → Option Token → NewUser → Handler Redis PublicUser
  unfolding require_admin
  create_user c credentials r = do
    admin ← require_admin p c credentials
    same_email ← query (get_user_by_email (lower r.email))
    check (is_none same_email) 409 "Email is already in use"
    same_name ← query (get_user_by_username (lower r.username))
    check (is_none same_name) 409 "Username is already taken"
    user ←
        attempt
          (Accounts.create_user c.user_id r.full_name (lower r.username) (lower r.email)
            (hash_password p c r.password) r.role false)
          500 "Internal Server Error"
    method (set_must_change_password user.user_id true)
    exec (
        store_email_verification_token c.now c.token_id user.user_id (p.digest c.six_digits)
          login_otp_expire_minutes)
    sent ← send c.is_mail_sent user.email c.six_digits
    roll_back p user.user_id sent
    check sent 503
        "We could not send the welcome email, so the user was not created. Check the mail settings and try again."
    log_change admin "user_created" user.user_id
    refreshed ← query (get_user user.user_id)
    pure (public_user (coalesce refreshed user))

  unfoldable pub admin_update_user :
      Call → Option Token → Text → UserUpdate → Handler Redis PublicUser
  unfolding require_admin
  admin_update_user c credentials user_id r = do
    admin ← require_admin p c credentials
    check (not (user_id == admin.user_id && is_disabling r.is_active)) 400
        "You cannot disable your own admin account"
    updated ← method (update_admin_user user_id r.full_name r.role r.is_active)
    user ← demand updated 404 "User not found"
    log_change admin "user_updated" user_id
    pure (public_user_without_flag user)

  unfoldable pub admin_reset_user_password :
      Call → Option Token → Text → Text → Handler Redis PublicUser
  unfolding require_admin
  admin_reset_user_password c credentials user_id new_password = do
    admin ← require_admin p c credentials
    updated ←
        attempt (update_user_profile user_id none none (some (hash_password p c new_password))) 500
          "Internal Server Error"
    user ← demand updated 404 "User not found"
    exec (revoke_all_auth_sessions c.now user_id)
    log_change admin "admin_password_reset" user_id
    pure (public_user_without_flag user)

  unfoldable pub delete_user : Call → Option Token → Text → Handler Redis (Unit {0})
  unfolding require_admin
  delete_user c credentials identifier = do
    admin ← require_admin p c credentials
    found ← query (resolve_user identifier)
    target ← demand found 404 "User not found"
    check (not (target.user_id == admin.user_id)) 400 "You cannot delete your own admin account"
    busy ← query (user_has_jobs target.user_id)
    check (not busy) 409
        "This user has crawl history. Disable the account instead to preserve audit data."
    gone ← method (Accounts.delete_user target.user_id)
    check gone 404 "User not found"
    log_change admin "user_deleted" target.user_id

  unfoldable pub set_user_active : Call → Option Token → Text → Bool → Handler Redis PublicUser
  unfolding require_admin
  set_user_active c credentials username active = do
    admin ← require_admin p c credentials
    found ← query (get_user_by_username (lower username))
    user ← demand found 404 "User not found"
    check (not (user.user_id == admin.user_id && not active)) 400
        "You cannot disable your own admin account"
    updated ← method (update_admin_user user.user_id none none (some active))
    shown ← demand updated 404 "User not found"
    log_change admin "user_active_toggled" user.user_id
    pure (public_user_without_flag shown)

  unfoldable pub force_user_password_reset : Call → Option Token → Text → Handler Redis PublicUser
  unfolding require_admin
  force_user_password_reset c credentials username = do
    admin ← require_admin p c credentials
    found ← query (get_user_by_username (lower username))
    user ← demand found 404 "User not found"
    updated ← method (set_must_change_password user.user_id true)
    exec (revoke_all_auth_sessions c.now user.user_id)
    log_change admin "force_password_reset" user.user_id
    shown ← demand updated 500 "Internal Server Error"
    pure (public_user shown)
