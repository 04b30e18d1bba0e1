-- ===== src/Auth/SignIn.antt =====
-- Who signs in gets tokens that are accepted until they expire (app/api/routes/auth.py,
-- app/security/auth.py).
use duka_scraper.Base.{
  ℕ, ◌+◌, ◌*◌, ◌≤◌, ◌<◌, ◌≡◌, Bool, true, false, some, List, [], ◌∷◌, ◌++◌, any, arith, ==_refl,
  Option-cases, inl, inr,
}
use duka_scraper.Base.Text.{Text, text_eq, is_empty, codes}
use duka_scraper.Accounts.{User, AuthSession, Accounts, get_user}
use duka_scraper.Accounts.Sessions.{
  create_auth_session, is_auth_session_active, record_audit_event, is_live, new_session,
}
use duka_scraper.Api.{Reply, World, Platform, Call, Claims, ◌>>=◌}
use duka_scraper.Api.RateLimit.{enforce_rate_limit}
use duka_scraper.Auth.{
  TokenPair, PublicUser, public_user, token_pair, token_claims, verify_password, get_current_user,
  create_token_pair, refresh_token, can_sign_in, has_claims, text_or_empty,
}
use duka_scraper.Auth.Login.{
  LoginRequest, LoginReply, login, sign_in, issue_login_otp, find_login, login_identifier,
}

any-append_last :
    (q : AuthSession → Bool) (s : AuthSession) (ss : List AuthSession)
    → q s ≡ true
    → any q (ss ++ s ∷ []) ≡ true
any-append_last q s [] e = ground (arith, e)
any-append_last q s (x ∷ ss) e = ground (arith, any-append_last q s ss e)

created_active :
    (now later days : ℕ) (user_id session_id : Text) (db : Accounts)
    → later < now + days * 86400
    → is_auth_session_active later session_id (create_auth_session now user_id session_id days db)
      ≡ true
unfolding is_auth_session_active create_auth_session
created_active now later days user_id session_id db soon =
    any-append_last (is_live later session_id) (new_session now user_id session_id days) db.sessions
      (ground (arith, ==_refl session_id))

module _ {Redis Token : Type 0} (p : Platform Redis Token) where
  -- What a user has who was signed in by a request, and what the request wrote.
  pub record IsSignedIn (c : Call) (r : LoginRequest) (w : World Redis) (pair : TokenPair Token)
      (shown : PublicUser) (w' : World Redis) (u : User) : Type 0 where
    pub found : find_login (login_identifier r) w.accounts ≡ some u
    pub proved : verify_password p r.password u.password_hash ≡ true
    pub active : u.is_active ≡ true
    pub verified : u.email_verified ≡ true
    pub written :
        w'.accounts
        ≡ create_auth_session c.now u.user_id c.session_id p.refresh_token_expire_days
            (record_audit_event (some u.user_id) (codes "login") (some u.user_id) w.accounts)
    pub tokens : pair ≡ token_pair p c u.user_id u.role
    pub profile : shown ≡ public_user u

  login-IsSignedIn :
      (c : Call) (r : LoginRequest) (w w' : World Redis) (pair : TokenPair Token)
      (shown : PublicUser)
      → login p c r w ≡ (Reply.ok (LoginReply.signed_in pair shown), w')
      → (u : User) × IsSignedIn c r w pair shown w' u
  unfolding login sign_in issue_login_otp enforce_rate_limit create_token_pair ◌>>=◌
  login-IsSignedIn c r w w' pair shown ok =
      elim (Option-cases (find_login (login_identifier r) w.accounts)) [
        | inl missing ↦ ground (arith, ok, missing)
        | inr (u, found) ↦ (u, ground (arith, ok, found))
      ]

  get_current_user_ok :
      (c : Call) (t : Token) (k : Claims) (u : User) (v : World Redis)
      → p.decode c.now t ≡ some k
      → has_claims "access" k ≡ true
      → is_auth_session_active c.now (text_or_empty k.sid) v.accounts ≡ true
      → get_user (text_or_empty k.sub) v.accounts ≡ some u
      → can_sign_in u ≡ true
      → get_current_user p c (some t) v ≡ (Reply.ok u, v)
  unfolding get_current_user ◌>>=◌
  get_current_user_ok c t k u v decoded fits active row can =
      ground (arith, decoded, fits, active, row, can)

  refresh_token_ok :
      (c : Call) (t : Token) (k : Claims) (u : User) (v : World Redis)
      → p.decode c.now t ≡ some k
      → has_claims "refresh" k ≡ true
      → is_auth_session_active c.now (text_or_empty k.sid) v.accounts ≡ true
      → get_user (text_or_empty k.sub) v.accounts ≡ some u
      → can_sign_in u ≡ true
      → (refresh_token p c t v).0 ≡ Reply.ok (token_pair p c u.user_id u.role)
  unfolding refresh_token create_token_pair ◌>>=◌
  refresh_token_ok c t k u v decoded fits active row can =
      ground (arith, decoded, fits, active, row, can)

  module _
      (signed : (now : ℕ) (k : Claims)
        → k.iat ≤ now
        → now < k.exp
        → p.decode now (p.encode k) ≡ some k) where
    accepted :
        (c c' : Call) (u : User) (v : World Redis)
        → is_auth_session_active c'.now c.session_id v.accounts ≡ true
        → get_user u.user_id v.accounts ≡ some u
        → can_sign_in u ≡ true
        → is_empty u.user_id ≡ false
        → is_empty c.session_id ≡ false
        → c.now ≤ c'.now
        → c'.now < c.now + p.access_token_expire_minutes * 60
        → get_current_user p c' (some (token_pair p c u.user_id u.role).access_token) v
          ≡ (Reply.ok u, v)
    accepted c c' u v active row can u_named s_named late soon =
        let k =
          token_claims p c.now u.user_id u.role c.session_id "access"
            (p.access_token_expire_minutes * 60) in
        get_current_user_ok c' (p.encode k) k u v (signed c'.now k late soon)
          (ground (arith, ==_refl (codes "access"), u_named, s_named)) active row can

    exchanged :
        (c c' : Call) (u : User) (v : World Redis)
        → is_auth_session_active c'.now c.session_id v.accounts ≡ true
        → get_user u.user_id v.accounts ≡ some u
        → can_sign_in u ≡ true
        → is_empty u.user_id ≡ false
        → is_empty c.session_id ≡ false
        → c.now ≤ c'.now
        → c'.now < c.now + p.refresh_token_expire_days * 86400
        → (refresh_token p c' (token_pair p c u.user_id u.role).refresh_token v).0
          ≡ Reply.ok (token_pair p c' u.user_id u.role)
    exchanged c c' u v active row can u_named s_named late soon =
        let k =
          token_claims p c.now u.user_id u.role c.session_id "refresh"
            (p.refresh_token_expire_days * 86400) in
        refresh_token_ok c' (p.encode k) k u v (signed c'.now k late soon)
          (ground (arith, ==_refl (codes "refresh"), u_named, s_named)) active row can

    -- Who is signed in has shown the password of an enabled and verified account, and gets tokens
    -- that come back as that account: until it expires, and as long as the session lasts, the
    -- access token is accepted as the user's and changes nothing; and for the days of a session the
    -- refresh token is exchanged for a new pair of the same user. The signature is taken to let
    -- every payload through from its time of issue until it expires, and the id of the row to be
    -- its key and, like that of the session, not empty.
    pub login_round_trip :
        (c : Call) (r : LoginRequest) (w w' : World Redis) (pair : TokenPair Token)
        (shown : PublicUser) (c' c'' : Call)
        → login p c r w ≡ (Reply.ok (LoginReply.signed_in pair shown), w')
        → ((u : User)
            → find_login (login_identifier r) w.accounts ≡ some u
            → (get_user u.user_id w.accounts ≡ some u) × (is_empty u.user_id ≡ false))
        → is_empty c.session_id ≡ false
        → c.now ≤ c'.now
        → c'.now < c.now + p.access_token_expire_minutes * 60
        → c'.now < c.now + p.refresh_token_expire_days * 86400
        → c.now ≤ c''.now
        → c''.now < c.now + p.refresh_token_expire_days * 86400
        → (u : User) × (verify_password p r.password u.password_hash ≡ true)
          × (can_sign_in u ≡ true)
          × (shown ≡ public_user u)
          × (get_current_user p c' (some pair.access_token) w' ≡ (Reply.ok u, w'))
          × ((refresh_token p c'' pair.refresh_token w').0
              ≡ Reply.ok (token_pair p c'' u.user_id u.role))
    unfolding get_user create_auth_session record_audit_event
    login_round_trip c r w w' pair shown c' c'' ok keyed s_named late soon lasts late' lasts' =
        let (u, s) = login-IsSignedIn c r w w' pair shown ok in
        let (row, u_named) = keyed u s.found in
        let db = record_audit_event (some u.user_id) (codes "login") (some u.user_id) w.accounts in
        let active = λ (t : ℕ) (h : t < c.now + p.refresh_token_expire_days * 86400).
          created_active c.now t p.refresh_token_expire_days u.user_id c.session_id db h in
        let can : can_sign_in u ≡ true = ground (arith, s.active, s.verified) in
        let row' : get_user u.user_id w'.accounts ≡ some u = rw s.written row in
        (
          u,
          s.proved,
          can,
          s.profile,
          rw s.tokens (
              accepted c c' u w' (rw s.written (active c'.now lasts)) row' can u_named s_named late
                soon),
          rw s.tokens (
              exchanged c c'' u w' (rw s.written (active c''.now lasts')) row' can u_named s_named
                late' lasts'),
        )
