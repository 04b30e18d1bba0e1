-- ===== src/Auth/Tests.antt =====
-- Two accounts, and the theorems on them.
use duka_scraper.Base.{
  ℕ, ◌≡◌, ◌≤◌, ◌<◌, refl, ◌⊎◌, true, false, none, some, [], ◌∷◌, arith, ap, subst,
}
use duka_scraper.Base.Text.{text_eq, text_beq, codes, is_empty, lower_code, lstrip, rstrip}
use duka_scraper.Fingerprint.{strip, is_space}
use duka_scraper.Accounts.{
  User, Role, TokenType, VerificationToken, AuthSession, coalesce, get_user, get_user_by_email,
  get_user_by_username,
}
use duka_scraper.Accounts.Sessions.{
  create_auth_session, is_auth_session_active, revoke_auth_session,
}
use duka_scraper.Api.{Reply, World, Call, Claims, ◌>>=◌}
use duka_scraper.Api.RateLimit.{enforce_rate_limit, rate_key}
use duka_scraper.Api.Tests.{Keys, local, no_keys, call_at}
use duka_scraper.Auth.{
  TokenPair, public_user, token_pair, get_current_user, refresh_token, create_token_pair,
  can_sign_in, verify_password,
}
use duka_scraper.Auth.Login.{LoginRequest, login, find_login, sign_in}
use duka_scraper.Auth.Requests.{AdminRequest, Request, run, serve_admin}
use duka_scraper.Auth.Revocation.Rotation.{IsTurnedAway, refresh_rotates}
use duka_scraper.Auth.SignIn.{login_round_trip}
use duka_scraper.Auth.Gate.{IsByAdmin, admin_only}

abbrev abebe : User
abebe = record {
  user_id = codes "USR00001";
  full_name = codes "Abebe";
  username = codes "abebe";
  email = codes "abebe@x.et";
  password_hash = codes "old secret";
  role = Role.user;
  is_active = true;
  email_verified = true;
  must_change_password = false;
}

abbrev sara : User
sara = record abebe {
  user_id = codes "USR00002";
  username = codes "sara";
  email = codes "sara@x.et";
  role = Role.admin;
}

abbrev reset_token : VerificationToken
reset_token = record {
  token_id = codes "t0";
  user_id = codes "USR00001";
  token_type = TokenType.password_reset;
  token_hash = codes "123456";
  expires_at = 1900;
  used_at = none;
}

abbrev session : AuthSession
session = record {
  session_id = codes "s0";
  user_id = codes "USR00001";
  expires_at = 600000;
  revoked_at = none;
}

abbrev world : World Keys
world = record {
  accounts = record {
    users = abebe ∷ sara ∷ [];
    tokens = reset_token ∷ [];
    sessions = session ∷ [];
    audit_logs = [];
    job_owners = [];
  };
  redis = no_keys;
  outbox = [];
}

abbrev by_name : LoginRequest
by_name = record { email = none; username = some (codes " Abebe"); password = codes "old secret" }

abbrev signed_pair : TokenPair Claims
signed_pair = token_pair local (call_at 100) (codes "USR00001") Role.user

signed :
    (now : ℕ) (k : Claims) → k.iat ≤ now → now < k.exp → local.decode now (local.encode k) ≡ some k
signed now k issued fresh = ground arith

abbrev Keyed : User → Type 0
Keyed u = (get_user u.user_id world.accounts ≡ some u) × (is_empty u.user_id ≡ false)

login_round_trip_example :
    let after = (login local (call_at 100) by_name world).1 in
    (u : User) × (verify_password local (codes "old secret") u.password_hash ≡ true)
    × (can_sign_in u ≡ true)
    × (public_user abebe ≡ public_user u)
    × (get_current_user local (call_at 1899) (some signed_pair.access_token) after
        ≡ (Reply.ok u, after))
    × ((refresh_token local (call_at 600000) signed_pair.refresh_token after).0
        ≡ Reply.ok (token_pair local (call_at 600000) u.user_id u.role))
unfolding login find_login sign_in create_token_pair enforce_rate_limit strip is_space lstrip rstrip
    lower_code text_beq get_user get_user_by_email get_user_by_username rate_key ◌>>=◌
login_round_trip_example =
    login_round_trip local signed (call_at 100) by_name world _ signed_pair (public_user abebe)
      (call_at 1899) (call_at 600000) refl
      (λ u e. subst Keyed (ap (λ o. coalesce o abebe) e) (refl, refl)) refl (omega arith)
      (omega arith) (omega arith) (omega arith) (omega arith)

-- Later, at another address, with fresh draws.
abbrev later_call : ℕ → Call
later_call now = record (call_at now) { session_id = codes "s2" }

abbrev old_refresh : Claims
old_refresh = record {
  sub = some (codes "USR00001");
  role = Role.user;
  sid = some (codes "s0");
  typ = some (codes "refresh");
  iat = 50;
  exp = 600000;
}

abbrev old_access : Claims
old_access = record old_refresh { typ = some (codes "access") }

abbrev after_refresh : World Keys
after_refresh = (refresh_token local (call_at 100) old_refresh world).1

refresh_rotates_example :
    let v = run local ((later_call 200, Request.post_login by_name) ∷ []) after_refresh in
    IsTurnedAway (get_current_user local (call_at 300) (some old_access)) v
    × IsTurnedAway (refresh_token local (call_at 300) old_access) v
unfolding refresh_token create_token_pair is_auth_session_active create_auth_session
    revoke_auth_session get_user text_beq ◌>>=◌
refresh_rotates_example =
    refresh_rotates local (call_at 100) old_refresh old_refresh (codes "s0")
      (token_pair local (call_at 100) (codes "USR00001") Role.user) world after_refresh
      ((later_call 200, Request.post_login by_name) ∷ []) (call_at 300) old_access old_access refl
      refl refl refl (refl, tt) refl refl

abbrev turn_off_abebe : AdminRequest
turn_off_abebe = AdminRequest.users_status (codes "abebe") false

admin_only_example :
    ((u : User) × IsByAdmin local (call_at 100) (some old_access) world u)
    ⊎ (serve_admin local (call_at 100) (some old_access) turn_off_abebe world ≡ (some 401, world))
    ⊎ (serve_admin local (call_at 100) (some old_access) turn_off_abebe world ≡ (some 403, world))
admin_only_example = admin_only local (call_at 100) (some old_access) turn_off_abebe world
