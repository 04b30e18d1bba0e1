-- ===== src/Accounts/Tokens.antt =====
-- The methods of `PostgreSQLClient` on verification_tokens (app/storage/postgres/client.py). An id
-- that `uuid4` draws is an argument, and taken to be new to the table.
use duka_scraper.Base.{
  ℕ, ◌+◌, ◌*◌, Bool, true, ◌&&◌, ◌||◌, Option, none, some, List, [], ◌∷◌, ◌++◌, any, find, keep,
  ltb, leb, not, ◌==◌, if◌then◌else◌,
}
use duka_scraper.Base.Text.{Text, text_eq}
use duka_scraper.Accounts.{
  TokenType, VerificationToken, User, Accounts, is_none, same_type, update_where, has_id,
  update_user,
}
use duka_scraper.Accounts.Sessions.{revoke_all_auth_sessions}

-- `used_at IS NULL AND expires_at > NOW()`
abbrev pub is_usable : ℕ → VerificationToken → Bool
is_usable now t = is_none t.used_at && ltb now t.expires_at

-- The WHERE clause of a code.
abbrev pub matches_code : ℕ → Text → TokenType → Text → VerificationToken → Bool
matches_code now user_id token_type token_hash t =
    t.user_id == user_id
    && same_type t.token_type token_type
    && t.token_hash == token_hash
    && is_usable now t

abbrev pub write_used : ℕ → VerificationToken → VerificationToken
write_used now t = record t { used_at = some now }

unfoldable pub is_valid_verification_code : ℕ → Text → TokenType → Text → Accounts → Bool
is_valid_verification_code now user_id token_type token_hash db =
    any (matches_code now user_id token_type token_hash) db.tokens

-- Every row that matches is marked.
unfoldable pub consume_verification_code : ℕ → Text → TokenType → Text → Accounts → Bool × Accounts
consume_verification_code now user_id token_type token_hash db = (
  any (matches_code now user_id token_type token_hash) db.tokens,
  record db {
    tokens =
        update_where (matches_code now user_id token_type token_hash) (write_used now) db.tokens;
  },
)

abbrev pub new_token : ℕ → Text → Text → TokenType → Text → ℕ → VerificationToken
new_token now token_id user_id token_type token_hash minutes = record {
  token_id = token_id;
  user_id = user_id;
  token_type = token_type;
  token_hash = token_hash;
  expires_at = now + minutes * 60;
  used_at = none;
}

unfoldable pub store_email_verification_token : ℕ → Text → Text → Text → ℕ → Accounts → Accounts
store_email_verification_token now token_id user_id token_hash minutes db = record db {
  tokens =
      keep (λ t. not (t.user_id == user_id && same_type t.token_type TokenType.email_verification))
        db.tokens
      ++ new_token now token_id user_id TokenType.email_verification token_hash minutes ∷ [];
}

-- `WHERE user_id = … AND token_type = … OR expires_at <= NOW()`: the last test is for all users.
unfoldable pub store_password_reset_token : ℕ → Text → Text → Text → ℕ → Accounts → Accounts
store_password_reset_token now token_id user_id token_hash minutes db = record db {
  tokens =
      keep
        (λ t. not (
          t.user_id == user_id && same_type t.token_type TokenType.password_reset
          || leb t.expires_at now))
        db.tokens
      ++ new_token now token_id user_id TokenType.password_reset token_hash minutes ∷ [];
}

abbrev pub is_redeemable : ℕ → TokenType → Text → VerificationToken → Bool
is_redeemable now token_type token_hash t =
    t.token_hash == token_hash && same_type t.token_type token_type && is_usable now t

-- The first row of the tokens joined with their users.
unfoldable pub redeemable :
    ℕ → TokenType → Text → List User → List VerificationToken → Option (VerificationToken × User)
redeemable now token_type token_hash users [] = none
redeemable now token_type token_hash users (t ∷ ts) =
    let rest = redeemable now token_type token_hash users ts in
    elim (find (has_id t.user_id) users) [
      | none ↦ rest
      | some u ↦ if is_redeemable now token_type token_hash t then some (t, u) else rest
    ]

abbrev pub mark_used : ℕ → Text → Accounts → Accounts
mark_used now token_id db = record db {
  tokens = update_where (λ t. t.token_id == token_id) (write_used now) db.tokens;
}

-- What the transaction of `verify_email_token` does with the row that it selects.
abbrev pub redeem_email : ℕ → Option (VerificationToken × User) → Accounts → Option Text × Accounts
redeem_email now none db = (none, db)
redeem_email now (some (t, u)) db = (
  some u.email,
  mark_used now t.token_id (update_user t.user_id (λ x. record x { email_verified = true }) db).1,
)

unfoldable pub verify_email_token : ℕ → Text → Accounts → Option Text × Accounts
unfolding redeemable
verify_email_token now token_hash db =
    redeem_email now (redeemable now TokenType.email_verification token_hash db.users db.tokens) db

unfoldable pub email_verification_was_completed : Text → Accounts → Bool
email_verification_was_completed token_hash db =
    any
      (λ t.
        t.token_hash == token_hash
        && same_type t.token_type TokenType.email_verification
        && not (is_none t.used_at))
      db.tokens

abbrev pub write_password : Text → User → User
write_password password_hash u = record u { password_hash = password_hash }

abbrev pub redeem_reset :
    ℕ → Text → Option (VerificationToken × User) → Accounts → Option Text × Accounts
redeem_reset now password_hash none db = (none, db)
redeem_reset now password_hash (some (t, u)) db = (
  some u.email,
  revoke_all_auth_sessions now t.user_id
      (mark_used now t.token_id (update_user t.user_id (write_password password_hash) db).1),
)

unfoldable pub consume_password_reset_token : ℕ → Text → Text → Accounts → Option Text × Accounts
unfolding redeemable revoke_all_auth_sessions
consume_password_reset_token now token_hash password_hash db =
    redeem_reset now password_hash
      (redeemable now TokenType.password_reset token_hash db.users db.tokens) db
