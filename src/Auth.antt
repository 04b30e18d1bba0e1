-- ===== src/Auth.antt =====
-- Tokens and who the caller is (app/security/auth.py). The sessions are rows of auth_sessions; a
-- token names its session.
pub mod Login
pub mod Passwords
pub mod Signup
pub mod Admin
pub mod Requests
pub mod Revocation
pub mod SignIn
pub mod Gate
pub mod Reset
mod Tests
use duka_scraper.Base.{
  ℕ, ◌+◌, ◌*◌, String, Bool, true, false, not, ◌&&◌, ◌||◌, Option, none, some, ◌==◌, if◌then◌else◌,
}
use duka_scraper.Base.Text.{Text, text_eq, codes, is_empty}
use duka_scraper.Accounts.{Role, User, is_none, get_user}
use duka_scraper.Accounts.Sessions.{
  create_auth_session, is_auth_session_active, revoke_auth_session,
}
use duka_scraper.Api.{
  Claims, Platform, Call, Handler, pure, refuse, query, demand, exec, check, ◌>>=◌, ◌>>◌,
}

pub record TokenPair (Token : Type 0) : Type 0 where
  pub access_token : Token
  pub refresh_token : Token

-- What `public_user` and `admin_user_row` show.
pub record PublicUser : Type 0 where
  pub user_id : Text
  pub username : Text
  pub full_name : Text
  pub email : Text
  pub role : Role
  pub is_active : Bool
  pub email_verified : Bool
  pub must_change_password : Bool

abbrev pub public_user : User → PublicUser
public_user u = record {
  user_id = u.user_id;
  username = u.username;
  full_name = u.full_name;
  email = u.email;
  role = u.role;
  is_active = u.is_active;
  email_verified = u.email_verified;
  must_change_password = u.must_change_password;
}

-- Of a row that a statement returns without `must_change_password` they show `False`.
abbrev pub public_user_without_flag : User → PublicUser
public_user_without_flag u = record (public_user u) { must_change_password = false }

abbrev pub is_admin : Role → Bool
is_admin Role.admin = true
is_admin Role.user = false

-- `not payload.get(…)`
abbrev pub is_missing : Option Text → Bool
is_missing none = true
is_missing (some t) = is_empty t

abbrev pub text_or_empty : Option Text → Text
text_or_empty none = codes ""
text_or_empty (some t) = t

abbrev pub is_type : String → Option Text → Bool
is_type typ none = false
is_type typ (some t) = t == codes typ

-- The checks on a payload: its type, its user and its session.
abbrev pub has_claims : String → Claims → Bool
has_claims typ c = is_type typ c.typ && not (is_missing c.sub) && not (is_missing c.sid)

abbrev pub checked : String → Option Claims → Option Claims
checked typ none = none
checked typ (some c) = if has_claims typ c then some c else none

abbrev pub can_sign_in : User → Bool
can_sign_in u = u.is_active && u.email_verified

abbrev pub usable_account : Option User → Option User
usable_account none = none
usable_account (some u) = if can_sign_in u then some u else none

module _ {Redis Token : Type 0} (p : Platform Redis Token) where
  abbrev pub hash_password : Call → Text → Text
  hash_password c password = p.hash c.salt password

  abbrev pub verify_password : Text → Text → Bool
  verify_password password password_hash = elim (p.verify password password_hash) [
    | none ↦ false
    | some answer ↦ answer
  ]

  abbrev pub token_claims : ℕ → Text → Role → Text → String → ℕ → Claims
  token_claims now user_id role session_id token_type expires = record {
    sub = some user_id;
    role = role;
    sid = some session_id;
    typ = some (codes token_type);
    iat = now;
    exp = now + expires;
  }

  abbrev pub token_pair : Call → Text → Role → TokenPair Token
  token_pair c user_id role = record {
    access_token = p.encode (
        token_claims c.now user_id role c.session_id "access" (p.access_token_expire_minutes * 60));
    refresh_token = p.encode (
        token_claims c.now user_id role c.session_id "refresh"
          (p.refresh_token_expire_days * 86400));
  }

  unfoldable pub create_token_pair : Call → Text → Role → Handler Redis (TokenPair Token)
  create_token_pair c user_id role = do
    exec (create_auth_session c.now user_id c.session_id p.refresh_token_expire_days)
    pure (token_pair c user_id role)

  unfoldable pub refresh_token : Call → Token → Handler Redis (TokenPair Token)
  unfolding create_token_pair
  refresh_token c token = do
    payload ←
        demand (checked "refresh" (p.decode c.now token)) 401 "Invalid or expired refresh token"
    active ← query (is_auth_session_active c.now (text_or_empty payload.sid))
    check active 401 "Session has ended"
    found ← query (get_user (text_or_empty payload.sub))
    user ← demand (usable_account found) 401 "Account is unavailable"
    exec (revoke_auth_session c.now (text_or_empty payload.sid))
    create_token_pair c user.user_id user.role

  -- A token with its checks, for `get_current_user`.
  unfoldable pub user_of_token : Call → Token → Handler Redis User
  user_of_token c token = do
    payload ← demand (checked "access" (p.decode c.now token)) 401 "Invalid or expired token"
    active ← query (is_auth_session_active c.now (text_or_empty payload.sid))
    check active 401 "Session has ended"
    found ← query (get_user (text_or_empty payload.sub))
    demand (usable_account found) 401 "Account is unavailable"

  unfoldable pub get_current_user : Call → Option Token → Handler Redis User
  unfolding user_of_token
  get_current_user c credentials = do
    token ← demand credentials 401 "Authentication required"
    user_of_token c token

  abbrev pub sid_of : Option Claims → Option Text
  sid_of none = none
  sid_of (some c) = if is_missing c.sid then none else c.sid

  abbrev pub revoke_named : Call → Option Text → Handler Redis (Unit {0})
  revoke_named c none = pure tt
  revoke_named c (some session_id) = exec (revoke_auth_session c.now session_id)

  unfoldable pub logout : Call → Option Token → Handler Redis (Unit {0})
  logout c none = pure tt
  logout c (some token) = revoke_named c (sid_of (p.decode c.now token))

  unfoldable pub require_admin : Call → Option Token → Handler Redis User
  unfolding get_current_user
  require_admin c credentials = do
    user ← get_current_user c credentials
    check (is_admin user.role) 403 "Admin permission required"
    pure user

  -- The header first, then the `token` of the query; an empty one is none.
  unfoldable pub get_current_user_flexible : Call → Option Token → Option Token → Handler Redis User
  unfolding get_current_user
  get_current_user_flexible c (some credentials) token = get_current_user c (some credentials)
  get_current_user_flexible c none (some token) = get_current_user c (some token)
  get_current_user_flexible c none none = refuse 401 "Authentication required"

unfoldable pub ensure_owner_or_admin : {Redis : Type 0} → Text → User → Handler Redis (Unit {0})
ensure_owner_or_admin owner_id user =
    check (is_admin user.role || user.user_id == owner_id) 403 "You can access only your own data"
