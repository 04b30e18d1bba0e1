-- ===== src/Auth/Gate.antt =====
-- Who gets past `require_admin` (app/security/auth.py, app/api/routes/auth.py).
use duka_scraper.Base.{
  String, ◌≡◌, refl, ◌⊎◌, inl, inr, true, Option, none, some, arith, Option-cases, Bool-cases,
}
use duka_scraper.Base.Text.{text_eq}
use duka_scraper.Accounts.{User, get_user}
use duka_scraper.Accounts.Sessions.{is_auth_session_active}
use duka_scraper.Api.{Reply, World, Platform, Call, Claims, Handler, ◌>>=◌}
use duka_scraper.Auth.{
  get_current_user, user_of_token, require_admin, is_admin, can_sign_in, has_claims, text_or_empty,
}
use duka_scraper.Auth.Requests.{AdminRequest, outcome, serve_admin}
use duka_scraper.Auth.Signup.{send_signup_code, confirm_signup_code, complete_user_creation}
use duka_scraper.Auth.Admin

module _ {Redis Token : Type 0} (p : Platform Redis Token) where
  -- The call bears an access token that decodes, of a session that is active, of an enabled and
  -- verified administrator.
  pub record IsByAdmin (c : Call) (t : Option Token) (w : World Redis) (u : User) : Type 0 where
    pub token : Token
    pub payload : Claims
    pub borne : t ≡ some token
    pub decoded : p.decode c.now token ≡ some payload
    pub fits : has_claims "access" payload ≡ true
    pub active : is_auth_session_active c.now (text_or_empty payload.sid) w.accounts ≡ true
    pub row : get_user (text_or_empty payload.sub) w.accounts ≡ some u
    pub allowed : can_sign_in u ≡ true
    pub admin : is_admin u.role ≡ true

  abbrev pub IsShut : {A : Type 0} → Handler Redis A → World Redis → Type 0
  IsShut m w = (d : String) × ((m w ≡ (Reply.refused 401 d, w)) ⊎ (m w ≡ (Reply.refused 403 d, w)))

  user_of_token_cases :
      (c : Call) (token : Token) (k : Claims) (w : World Redis)
      → p.decode c.now token ≡ some k
      → ((u : User) × (has_claims "access" k ≡ true)
          × (is_auth_session_active c.now (text_or_empty k.sid) w.accounts ≡ true)
          × (get_user (text_or_empty k.sub) w.accounts ≡ some u)
          × (can_sign_in u ≡ true)
          × (user_of_token p c token w ≡ (Reply.ok u, w)))
        ⊎ ((d : String) × (user_of_token p c token w ≡ (Reply.refused 401 d, w)))
  unfolding user_of_token ◌>>=◌
  user_of_token_cases c token k w decoded = elim (Bool-cases (has_claims "access" k)) [
    | inr unfit ↦ inr ("Invalid or expired token", ground (arith, decoded, unfit))
    | inl fits ↦ elim (Bool-cases (is_auth_session_active c.now (text_or_empty k.sid) w.accounts)) [
      | inr ended ↦ inr ("Session has ended", ground (arith, decoded, fits, ended))
      | inl active ↦ elim (Option-cases (get_user (text_or_empty k.sub) w.accounts)) [
        | inl gone ↦ inr ("Account is unavailable", ground (arith, decoded, fits, active, gone))
        | inr (u, row) ↦ elim (Bool-cases (can_sign_in u)) [
          | inr barred ↦
              inr ("Account is unavailable", ground (arith, decoded, fits, active, row, barred))
          | inl can ↦
              inl (u, fits, active, row, can, ground (arith, decoded, fits, active, row, can))
        ]
      ]
    ]
  ]

  require_admin_cases :
      (c : Call) (t : Option Token) (w : World Redis)
      → ((u : User) × IsByAdmin c t w u × (require_admin p c t w ≡ (Reply.ok u, w)))
        ⊎ IsShut (require_admin p c t) w
  unfolding require_admin get_current_user ◌>>=◌
  require_admin_cases c none w = inr ("Authentication required", inl refl)
  require_admin_cases c (some token) w = elim (Option-cases (p.decode c.now token)) [
    | inl garbled ↦
        inr ("Invalid or expired token", inl (unfold user_of_token in ground (arith, garbled)))
    | inr (k, decoded) ↦ elim (user_of_token_cases c token k w decoded) [
      | inr (d, shut) ↦ inr (d, inl (ground (arith, shut)))
      | inl (u, fits, active, row, can, open_) ↦ elim (Bool-cases (is_admin u.role)) [
        | inr low ↦ inr ("Admin permission required", inr (ground (arith, open_, low)))
        | inl admin ↦ inl (
          u,
          record {
            token = token;
            payload = k;
            borne = refl;
            decoded = decoded;
            fits = fits;
            active = active;
            row = row;
            allowed = can;
            admin = admin;
          },
          ground (arith, open_, admin),
        )
      ]
    ]
  ]

  -- A handler that asks for the administrator first, and is shut, does nothing.
  shut_first :
      {A : Type 0} (c : Call) (t : Option Token) (f : User → Handler Redis A) (w : World Redis)
      → IsShut (require_admin p c t) w
      → (outcome ((require_admin p c t >>= f) w) ≡ (some 401, w))
        ⊎ (outcome ((require_admin p c t >>= f) w) ≡ (some 403, w))
  unfolding ◌>>=◌
  shut_first c t f w (d, inl e) = inl (rw e refl)
  shut_first c t f w (d, inr e) = inr (rw e refl)

  serve_shut :
      (c : Call) (t : Option Token) (r : AdminRequest) (w : World Redis)
      → IsShut (require_admin p c t) w
      → (serve_admin p c t r w ≡ (some 401, w)) ⊎ (serve_admin p c t r w ≡ (some 403, w))
  unfolding serve_admin send_signup_code confirm_signup_code complete_user_creation Admin.list_users
      Admin.create_user Admin.admin_update_user Admin.admin_reset_user_password Admin.delete_user
      Admin.set_user_active Admin.force_user_password_reset
  serve_shut c t (AdminRequest.signup_verify email password) w h = shut_first c t _ w h
  serve_shut c t (AdminRequest.signup_confirm email code) w h = shut_first c t _ w h
  serve_shut c t (AdminRequest.signup_complete r) w h = shut_first c t _ w h
  serve_shut c t AdminRequest.users_list w h = shut_first c t _ w h
  serve_shut c t (AdminRequest.users_create r) w h = shut_first c t _ w h
  serve_shut c t (AdminRequest.users_update user_id r) w h = shut_first c t _ w h
  serve_shut c t (AdminRequest.users_reset_password user_id password) w h = shut_first c t _ w h
  serve_shut c t (AdminRequest.users_delete identifier) w h = shut_first c t _ w h
  serve_shut c t (AdminRequest.users_status username active) w h = shut_first c t _ w h
  serve_shut c t (AdminRequest.users_force_reset username) w h = shut_first c t _ w h

  -- Each of the ten routes of app/api/routes/auth.py for administrators is shut to everybody else:
  -- either the call bears an access token that decodes, of an active session of an enabled and
  -- verified administrator, or the route answers with 401 or 403 and has changed nothing, not even
  -- the counters of its rate limit.
  pub admin_only :
      (c : Call) (t : Option Token) (r : AdminRequest) (w : World Redis)
      → ((u : User) × IsByAdmin c t w u)
        ⊎ (serve_admin p c t r w ≡ (some 401, w))
        ⊎ (serve_admin p c t r w ≡ (some 403, w))
  admin_only c t r w = elim (require_admin_cases c t w) [
    | inl (u, by_admin, open_) ↦ inl (u, by_admin)
    | inr shut ↦ inr (serve_shut c t r w shut)
  ]
