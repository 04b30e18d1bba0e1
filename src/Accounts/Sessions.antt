-- ===== src/Accounts/Sessions.antt =====
-- The methods of `PostgreSQLClient` on auth_sessions and audit_logs
-- (app/storage/postgres/client.py).
use duka_scraper.Base.{ℕ, ◌+◌, ◌*◌, Bool, ◌&&◌, Option, none, some, [], ◌∷◌, ◌++◌, any, ltb, ◌==◌}
use duka_scraper.Base.Text.{Text, text_eq}
use duka_scraper.Accounts.{AuthSession, Accounts, is_none, update_where}

abbrev pub new_session : ℕ → Text → Text → ℕ → AuthSession
new_session now user_id session_id expires_days = record {
  session_id = session_id;
  user_id = user_id;
  expires_at = now + expires_days * 86400;
  revoked_at = none;
}

unfoldable pub create_auth_session : ℕ → Text → Text → ℕ → Accounts → Accounts
create_auth_session now user_id session_id expires_days db = record db {
  sessions = db.sessions ++ new_session now user_id session_id expires_days ∷ [];
}

abbrev pub is_live : ℕ → Text → AuthSession → Bool
is_live now session_id s =
    s.session_id == session_id && is_none s.revoked_at && ltb now s.expires_at

unfoldable pub is_auth_session_active : ℕ → Text → Accounts → Bool
is_auth_session_active now session_id db = any (is_live now session_id) db.sessions

abbrev pub write_revoked : ℕ → AuthSession → AuthSession
write_revoked now s = record s { revoked_at = some now }

unfoldable pub revoke_auth_session : ℕ → Text → Accounts → Accounts
revoke_auth_session now session_id db = record db {
  sessions = update_where (λ s. s.session_id == session_id) (write_revoked now) db.sessions;
}

unfoldable pub revoke_all_auth_sessions : ℕ → Text → Accounts → Accounts
revoke_all_auth_sessions now user_id db = record db {
  sessions =
      update_where (λ s. s.user_id == user_id && is_none s.revoked_at) (write_revoked now)
        db.sessions;
}

unfoldable pub record_audit_event : Option Text → Text → Option Text → Accounts → Accounts
record_audit_event actor_user_id action target_id db = record db {
  audit_logs =
      db.audit_logs
      ++ record { actor_user_id = actor_user_id; action = action; target_id = target_id } ∷ [];
}
