-- ===== src/Auth/Revocation/Rotation.antt =====
-- Refreshing and signing out end a session for good (app/security/auth.py, app/api/routes/auth.py).
use duka_scraper.Base.{
  ℕ, ◌≡◌, refl, false, some, List, [], ◌∷◌, any, ◌==◌, arith, All, Option-cases, inl, inr,
}
use duka_scraper.Base.Text.{Text, text_eq, is_empty}
use duka_scraper.Accounts.{get_user, AuthSession, Accounts, update_where}
use duka_scraper.Accounts.Sessions.{
  is_auth_session_active, create_auth_session, revoke_auth_session, is_live, write_revoked,
}
use duka_scraper.Api.{Reply, World, Platform, Call, Claims, Handler, exec, ◌>>=◌}
use duka_scraper.Auth.{
  TokenPair, get_current_user, logout, refresh_token, create_token_pair, text_or_empty, sid_of,
  revoke_named,
}
use duka_scraper.Auth.Login.{refresh, sign_out}
use duka_scraper.Auth.Requests.{Request, serve, run}
use duka_scraper.Auth.Revocation.{HasEnded, is_open, any-append_one}
use duka_scraper.Auth.Revocation.Handlers.{
  login-HasEnded, refresh_token-HasEnded, verify_login_otp-HasEnded, resend_login_otp-HasEnded,
  sign_out-HasEnded, confirm_email-HasEnded, request_password_reset-HasEnded,
  forgot_password-HasEnded, confirm_password_reset-HasEnded, reset_password-HasEnded,
  change_own_password-HasEnded, get_profile-HasEnded, update_profile-HasEnded,
}
use duka_scraper.Auth.Revocation.AdminHandlers.{serve_admin-HasEnded}

-- A request draws another id for its session.
abbrev pub DrawsOther : {Token : Type 0} → Text → Call × Request Token → Type 0
DrawsOther sid (c, r) = (c.session_id == sid) ≡ false

abbrev pub IsRefused : {A : Type 0} → ℕ → Reply A → Type 0
IsRefused status (Reply.ok a) = ⊥
IsRefused status (Reply.refused s detail) = s ≡ status

-- Refused with 401, with nothing changed.
abbrev pub IsTurnedAway : {Redis A : Type 0} → Handler Redis A → World Redis → Type 0
IsTurnedAway m w = IsRefused 401 (m w).0 × ((m w).1 ≡ w)

any-revoked_self :
    (sid : Text) (now : ℕ) (ss : List AuthSession)
    → any (is_open sid) (update_where (λ s. s.session_id == sid) (write_revoked now) ss) ≡ false
any-revoked_self sid now [] = refl
any-revoked_self sid now (s ∷ ss) = ground (arith, any-revoked_self sid now ss)

ended_not_live :
    (sid : Text) (now : ℕ) (ss : List AuthSession)
    → any (is_open sid) ss ≡ false
    → any (is_live now sid) ss ≡ false
ended_not_live sid now [] h = refl
ended_not_live sid now (s ∷ ss) h = ground (arith, ended_not_live sid now ss)

ended_is_inactive :
    (sid : Text) (now : ℕ) (db : Accounts)
    → HasEnded sid db
    → is_auth_session_active now sid db ≡ false
unfolding is_auth_session_active
ended_is_inactive sid now db h = ended_not_live sid now db.sessions h.closed

refreshed-HasEnded :
    (now days : ℕ) (sid s user_id : Text) (db : Accounts)
    → (s == sid) ≡ false
    → HasEnded sid (create_auth_session now user_id s days (revoke_auth_session now sid db))
unfolding create_auth_session revoke_auth_session
refreshed-HasEnded now days sid s user_id db other = record {
  closed =
      any-append_one (is_open sid) _ _ (any-revoked_self sid now db.sessions)
        (ground (arith, other));
}

module _ {Redis Token : Type 0} (p : Platform Redis Token) where
  serve-HasEnded :
      (sid : Text) (c : Call) (r : Request Token) (w : World Redis)
      → (c.session_id == sid) ≡ false
      → HasEnded sid w.accounts
      → HasEnded sid (serve p c r w).accounts
  unfolding serve
  serve-HasEnded sid c (Request.post_login r) w other h = (login-HasEnded sid p c other r).kept w h
  serve-HasEnded sid c (Request.post_refresh token) w other h =
      unfold refresh in (refresh_token-HasEnded sid p c other token).kept w h
  serve-HasEnded sid c (Request.post_verify_otp user_id code) w other h =
      (verify_login_otp-HasEnded sid p c other user_id code).kept w h
  serve-HasEnded sid c (Request.post_resend_otp user_id) w other h =
      (resend_login_otp-HasEnded sid p c other user_id).kept w h
  serve-HasEnded sid c (Request.post_logout t) w other h =
      (sign_out-HasEnded sid p c other t).kept w h
  serve-HasEnded sid c (Request.post_reset_request email) w other h =
      (request_password_reset-HasEnded sid p c other email).kept w h
  serve-HasEnded sid c (Request.post_reset_confirm token password) w other h =
      (confirm_password_reset-HasEnded sid p c other token password).kept w h
  serve-HasEnded sid c (Request.post_email_confirm user_id code) w other h =
      (confirm_email-HasEnded sid p c other user_id code).kept w h
  serve-HasEnded sid c (Request.post_forgot_password email) w other h =
      (forgot_password-HasEnded sid p c other email).kept w h
  serve-HasEnded sid c (Request.post_reset_password email code password) w other h =
      (reset_password-HasEnded sid p c other email code password).kept w h
  serve-HasEnded sid c (Request.post_change_password t current new) w other h =
      (change_own_password-HasEnded sid p c other t current new).kept w h
  serve-HasEnded sid c (Request.get_me t) w other h =
      (get_profile-HasEnded sid p c other t).kept w h
  serve-HasEnded sid c (Request.patch_me t r) w other h =
      (update_profile-HasEnded sid p c other t r).kept w h
  serve-HasEnded sid c (Request.by_admin t r) w other h = serve_admin-HasEnded sid p c t r w h

  pub run-HasEnded :
      (sid : Text) (later : List (Call × Request Token)) (w : World Redis)
      → All (DrawsOther sid) later
      → HasEnded sid w.accounts
      → HasEnded sid (run p later w).accounts
  unfolding run
  run-HasEnded sid [] w other h = h
  run-HasEnded sid ((c, r) ∷ later) w (one, rest) h =
      run-HasEnded sid later (serve p c r w) rest (serve-HasEnded sid c r w one h)

  refresh_token_ends :
      (c : Call) (token : Token) (k : Claims) (sid : Text) (pair : TokenPair Token)
      (w w' : World Redis)
      → p.decode c.now token ≡ some k
      → k.sid ≡ some sid
      → (c.session_id == sid) ≡ false
      → refresh_token p c token w ≡ (Reply.ok pair, w')
      → HasEnded sid w'.accounts
  unfolding refresh_token create_token_pair ◌>>=◌
  refresh_token_ends c token k sid pair w w' d e other ok =
      elim (Option-cases (get_user (text_or_empty k.sub) w.accounts)) [
        | inl none_found ↦ ground (arith, ok, d, none_found)
        | inr (u, found) ↦
            let ended =
              refreshed-HasEnded c.now p.refresh_token_expire_days sid c.session_id u.user_id
                w.accounts other in
            ground (arith, ok, d, e, found, ended)
      ]

  get_current_user_ended :
      (c : Call) (t : Token) (k : Claims) (sid : Text) (w : World Redis)
      → p.decode c.now t ≡ some k
      → k.sid ≡ some sid
      → HasEnded sid w.accounts
      → IsTurnedAway (get_current_user p c (some t)) w
  unfolding get_current_user ◌>>=◌
  get_current_user_ended c t k sid w d e h =
      ground (arith, d, e, ended_is_inactive sid c.now w.accounts h)

  refresh_token_ended :
      (c : Call) (t : Token) (k : Claims) (sid : Text) (w : World Redis)
      → p.decode c.now t ≡ some k
      → k.sid ≡ some sid
      → HasEnded sid w.accounts
      → IsTurnedAway (refresh_token p c t) w
  unfolding refresh_token ◌>>=◌
  refresh_token_ended c t k sid w d e h =
      ground (arith, d, e, ended_is_inactive sid c.now w.accounts h)

  -- Once a refresh token has been exchanged, and whatever requests follow it, no token that names
  -- its session is accepted any more, neither for access nor for another refresh: each is refused
  -- with 401 and changes nothing, as long as no later session draws the same id.
  pub refresh_rotates :
      (c : Call) (token : Token) (k : Claims) (sid : Text) (pair : TokenPair Token)
      (w w' : World Redis) (later : List (Call × Request Token)) (c' : Call) (t : Token)
      (k' : Claims)
      → p.decode c.now token ≡ some k
      → k.sid ≡ some sid
      → (c.session_id == sid) ≡ false
      → refresh_token p c token w ≡ (Reply.ok pair, w')
      → All (DrawsOther sid) later
      → p.decode c'.now t ≡ some k'
      → k'.sid ≡ some sid
      → let v = run p later w' in
        IsTurnedAway (get_current_user p c' (some t)) v × IsTurnedAway (refresh_token p c' t) v
  refresh_rotates c token k sid pair w w' later c' t k' d e other ok draws d' e' =
      let ended =
        run-HasEnded sid later w' draws (refresh_token_ends c token k sid pair w w' d e other ok) in
      (
        get_current_user_ended c' t k' sid (run p later w') d' e' ended,
        refresh_token_ended c' t k' sid (run p later w') d' e' ended,
      )

  logout_ends :
      (c : Call) (token : Token) (k : Claims) (sid : Text) (w : World Redis)
      → p.decode c.now token ≡ some k
      → k.sid ≡ some sid
      → is_empty sid ≡ false
      → HasEnded sid (sign_out p c (some token) w).1.accounts
  unfolding sign_out logout exec revoke_auth_session
  logout_ends c token k sid w d e named =
      let names : sid_of p (p.decode c.now token) ≡ some sid = ground (arith, d, e, named) in
      rw (names, revoke_named) (record { closed = any-revoked_self sid c.now w.accounts.sessions })

  -- A user who signs out with a token ends its session: whatever requests follow, every token that
  -- names the session is refused with 401 and changes nothing, as long as no later session draws
  -- the same id.
  pub sign_out_lasts :
      (c : Call) (token : Token) (k : Claims) (sid : Text) (w : World Redis)
      (later : List (Call × Request Token)) (c' : Call) (t : Token) (k' : Claims)
      → p.decode c.now token ≡ some k
      → k.sid ≡ some sid
      → is_empty sid ≡ false
      → All (DrawsOther sid) later
      → p.decode c'.now t ≡ some k'
      → k'.sid ≡ some sid
      → let v = run p later (sign_out p c (some token) w).1 in
        IsTurnedAway (get_current_user p c' (some t)) v × IsTurnedAway (refresh_token p c' t) v
  sign_out_lasts c token k sid w later c' t k' d e named draws d' e' =
      let ended = run-HasEnded sid later _ draws (logout_ends c token k sid w d e named) in
      (
        get_current_user_ended c' t k' sid _ d' e' ended,
        refresh_token_ended c' t k' sid _ d' e' ended,
      )
