-- ===== src/Accounts.antt =====
-- The tables `users`, `verification_tokens`, `auth_sessions` and `audit_logs`, and the methods of
-- `PostgreSQLClient` on them (app/storage/postgres/client.py). A method takes the time in seconds
-- where its statement reads `NOW()`; a connected pool is taken for granted.
pub mod Tokens
pub mod Sessions
use duka_scraper.Base.{
  ℕ, ◌+◌, ◌*◌, Bool, true, false, ◌&&◌, ◌||◌, Option, none, some, List, [], ◌∷◌, ◌++◌, map, any,
  find, keep, ltb, leb, not, ◌==◌, if◌then◌else◌, contains,
}
use duka_scraper.Base.Text.{Text, text_eq, codes, is_empty}

pub data Role : Type 0 where
  user admin : Role

pub data TokenType : Type 0 where
  email_verification password_reset : TokenType

pub record User : Type 0 where
  pub user_id : Text
  pub full_name : Text
  pub username : Text
  pub email : Text
  pub password_hash : Text
  pub role : Role
  pub is_active : Bool
  pub email_verified : Bool
  pub must_change_password : Bool

pub record VerificationToken : Type 0 where
  pub token_id : Text
  pub user_id : Text
  pub token_type : TokenType
  pub token_hash : Text
  pub expires_at : ℕ
  pub used_at : Option ℕ

pub record AuthSession : Type 0 where
  pub session_id : Text
  pub user_id : Text
  pub expires_at : ℕ
  pub revoked_at : Option ℕ

pub record AuditLog : Type 0 where
  pub actor_user_id : Option Text
  pub action : Text
  pub target_id : Option Text

-- `job_owners` are the `user_id` of the rows of `jobs`.
pub record Accounts : Type 0 where
  pub users : List User
  pub tokens : List VerificationToken
  pub sessions : List AuthSession
  pub audit_logs : List AuditLog
  pub job_owners : List Text

abbrev pub is_none {ℓ} : {A : Type ℓ} → Option A → Bool
is_none none = true
is_none (some a) = false

abbrev pub coalesce {ℓ} : {A : Type ℓ} → Option A → A → A
coalesce none d = d
coalesce (some a) d = a

abbrev pub same_type : TokenType → TokenType → Bool
same_type TokenType.email_verification TokenType.email_verification = true
same_type TokenType.password_reset TokenType.password_reset = true
same_type _ _ = false

-- `UPDATE … SET f WHERE p`
abbrev pub update_where {ℓ} : {Row : Type ℓ} → (Row → Bool) → (Row → Row) → List Row → List Row
update_where p f = map (λ r. if p r then f r else r)

abbrev pub has_id : Text → User → Bool
has_id user_id u = u.user_id == user_id

unfoldable pub get_user : Text → Accounts → Option User
get_user user_id db = find (has_id user_id) db.users

unfoldable pub get_user_by_username : Text → Accounts → Option User
get_user_by_username username db = find (λ u. u.username == username) db.users

unfoldable pub get_user_by_email : Text → Accounts → Option User
get_user_by_email email db = find (λ u. u.email == email) db.users

-- `none` is the error of a key or a unique column.
unfoldable pub insert_user : User → Accounts → Option (User × Accounts)
insert_user u db =
    if any (λ x. x.user_id == u.user_id || x.username == u.username || x.email == u.email) db.users
    then none
    else some (u, record db { users = db.users ++ u ∷ [] })

-- The id is the one that the column's default gives, if the caller has none.
unfoldable pub create_user :
    Text → Text → Text → Text → Text → Role → Bool → Accounts → Option (User × Accounts)
unfolding insert_user
create_user user_id full_name username email password_hash role email_verified =
    insert_user (record {
      user_id = user_id;
      full_name = full_name;
      username = username;
      email = email;
      password_hash = password_hash;
      role = role;
      is_active = true;
      email_verified = email_verified;
      must_change_password = false;
    })

-- `token` is `secrets.token_hex(6)`.
unfoldable pub create_pending_user : Text → Text → Text → Text → Accounts → Option (User × Accounts)
unfolding create_user
create_pending_user user_id token email password_hash =
    create_user user_id (codes "Pending " ++ email) (codes "pending_" ++ token) email password_hash
      Role.user false

unfoldable pub ensure_initial_admin :
    Text → Text → Text → Text → Text → Accounts → Option (User × Accounts)
unfolding insert_user
ensure_initial_admin user_id username email full_name password_hash db =
    elim (find (λ u. u.username == username || u.email == email) db.users) [
      | some existing ↦
          let promoted : User → User =
            λ u. record u { role = Role.admin; is_active = true; email_verified = true } in
          some (
            promoted existing,
            record db { users = update_where (has_id existing.user_id) promoted db.users },
          )
      | none ↦
          insert_user
            (record {
              user_id = user_id;
              full_name = full_name;
              username = username;
              email = email;
              password_hash = password_hash;
              role = Role.admin;
              is_active = true;
              email_verified = true;
              must_change_password = false;
            })
            db
    ]

-- `UPDATE users SET f WHERE user_id = $1 RETURNING …`
abbrev pub update_user : Text → (User → User) → Accounts → Option User × Accounts
update_user user_id f db =
    let db' = record db { users = update_where (has_id user_id) f db.users } in
    (find (has_id user_id) db'.users, db')

abbrev pub write_profile : Option Text → Option Text → Option Text → User → User
write_profile full_name email password_hash u = record u {
  full_name = coalesce full_name u.full_name;
  email = coalesce email u.email;
  username = coalesce email u.username;
  password_hash = coalesce password_hash u.password_hash;
}

-- The address or the name of somebody else.
abbrev pub clashes : Text → Option Text → List User → Bool
clashes user_id none users = false
clashes user_id (some email) users =
    any (λ u. not (has_id user_id u) && (u.username == email || u.email == email)) users

-- `none` is the error of a unique column.
unfoldable pub update_user_profile :
    Text → Option Text → Option Text → Option Text → Accounts → Option (Option User × Accounts)
update_user_profile user_id full_name email password_hash db =
    if any (has_id user_id) db.users && clashes user_id email db.users
    then none
    else some (update_user user_id (write_profile full_name email password_hash) db)

unfoldable pub update_admin_user :
    Text → Option Text → Option Role → Option Bool → Accounts → Option User × Accounts
update_admin_user user_id full_name role is_active = update_user user_id (λ u. record u {
  full_name = coalesce full_name u.full_name;
  role = coalesce role u.role;
  is_active = coalesce is_active u.is_active;
})

unfoldable pub update_user_credentials :
    Text → Option Text → Option Bool → Accounts → Option User × Accounts
update_user_credentials user_id password_hash must_change = update_user user_id (λ u. record u {
  password_hash = coalesce password_hash u.password_hash;
  must_change_password = coalesce must_change u.must_change_password;
})

unfoldable pub set_must_change_password : Text → Bool → Accounts → Option User × Accounts
set_must_change_password user_id value =
    update_user user_id (λ u. record u { must_change_password = value })

-- `none` is the error of the unique username.
unfoldable pub finalize_pending_user :
    Text → Text → Option Text → Role → Bool → Accounts → Option (Option User × Accounts)
finalize_pending_user user_id username full_name role must_change db =
    if any (has_id user_id) db.users
      && any (λ u. u.username == username && not (has_id user_id u)) db.users
    then none
    else some (
        update_user user_id
          (λ u. record u {
            username = username;
            full_name = (elim full_name as (λ _. Text) [
              | none ↦ u.full_name
              | some name ↦ if is_empty name then u.full_name else name
            ]);
            role = role;
            must_change_password = must_change;
            is_active = true;
            email_verified = true;
          })
          db)

-- The rows that hang off the user go too (`ON DELETE CASCADE`).
unfoldable pub delete_user : Text → Accounts → Bool × Accounts
delete_user user_id db = (
  any (has_id user_id) db.users,
  record db {
    users = keep (λ u. not (has_id user_id u)) db.users;
    tokens = keep (λ t. not (t.user_id == user_id)) db.tokens;
    sessions = keep (λ s. not (s.user_id == user_id)) db.sessions;
    job_owners = keep (λ owner. not (owner == user_id)) db.job_owners;
  },
)

-- `ORDER BY created_at DESC`; the rows stand as they were inserted.
unfoldable pub newest_users : List User → List User
newest_users [] = []
newest_users (u ∷ us) = newest_users us ++ u ∷ []

unfoldable pub list_users : Accounts → List User
unfolding newest_users
list_users db = newest_users db.users

unfoldable pub user_has_jobs : Text → Accounts → Bool
user_has_jobs user_id db = contains db.job_owners user_id

unfoldable pub list_admin_emails : Accounts → List Text
list_admin_emails db =
    map (λ u. u.email)
      (keep
        (λ u.
          (elim u.role as (λ _. Bool) [ user ↦ false | admin ↦ true ])
          && u.is_active
          && u.email_verified
          && not (is_empty u.email))
        db.users)

unfoldable pub mark_email_verified : Text → Accounts → Accounts
mark_email_verified user_id db =
    (update_user user_id (λ u. record u { email_verified = true }) db).1
