-- ===== src/Auth/Reset.antt =====
-- What a reset of a password leaves (app/api/routes/auth.py, app/storage/postgres/client.py).
use duka_scraper.Base.{
  ℕ, ◌≡◌, inl, inr, Bool, true, false, not, ◌&&◌, ◌||◌, Option, none, some, List, [], ◌∷◌, any, all,
  find, keep, ◌==◌, arith, Option-cases, Bool-cases, if◌then◌else◌,
}
use duka_scraper.Base.Text.{Text, text_eq}
use duka_scraper.Accounts.{User, TokenType, VerificationToken, Accounts, is_none, has_id, get_user}
use duka_scraper.Accounts.Tokens.{redeemable, is_redeemable, write_password}

redeemable_sound :
    (now : ℕ) (ty : TokenType) (h : Text) (users : List User) (ts : List VerificationToken)
    (t : VerificationToken) (u : User)
    → redeemable now ty h users ts ≡ some (t, u)
    → (find (has_id t.user_id) users ≡ some u) × (is_redeemable now ty h t ≡ true)
unfolding redeemable
redeemable_sound now ty h users [] t u e = cc
redeemable_sound now ty h users (x ∷ ts) t u e =
    elim (Option-cases (find (has_id x.user_id) users)) [
      | inl gone ↦ redeemable_sound now ty h users ts t u (ground (arith, e, gone))
      | inr (v, row) ↦ elim (Bool-cases (is_redeemable now ty h x)) [
        | inl hit ↦ ground (arith, e, row, hit)
        | inr miss ↦ redeemable_sound now ty h users ts t u (ground (arith, e, row, miss))
      ]
    ]

-- All rows with the digest have the id.
abbrev pub is_only : Text → Text → List VerificationToken → Bool
is_only h token_id ts = all (λ x. not (x.token_hash == h) || x.token_id == token_id) ts

-- What the tables `db'` are after a reset for a user of `db`: that row has the new password, every
-- other row is as it was, no session of the user is open, and the sessions of others are as they
-- were.
pub record IsReset (user_id password_hash : Text) (db db' : Accounts) : Type 0 where
  pub rows :
      (j : Text)
      → get_user j db' ≡ (elim (get_user j db) as (λ _. Option User) [
        | none ↦ none
        | some u ↦ some (if user_id == j then write_password password_hash u else u)
      ])
  pub ended : any (λ s. s.user_id == user_id && is_none s.revoked_at) db'.sessions ≡ false
  pub others :
      keep (λ s. not (s.user_id == user_id)) db'.sessions
      ≡ keep (λ s. not (s.user_id == user_id)) db.sessions
