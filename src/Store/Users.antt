-- ===== src/Store/Users.antt =====
-- The accounts of the web interface and their sessions (internal/store/users.go). Of the columns
-- of a user created_at, last_login_at and the link to a directory are left out. A handler makes its
-- statements one after the other with no other writer in between. A statement that fails of itself
-- is left out where the handler then returns before anything is written; in DeleteUser, which makes
-- two writes, both failures are inputs.
pub mod Rows
pub mod Admins
pub mod Sessions
mod Examples
use xeron_mx.Prelude.{
  ℕ, Bool, true, false, not, ◌&&◌, ◌||◌, Option, none, some, List, [], ◌∷◌, ◌++◌, ◌+◌, ltb, leb,
  ◌==◌, if◌then◌else◌, is_empty, find, any, select, map, count, is_some,
}
use xeron_mx.Text.{Bytes, bytes_eq, truncate}
use xeron_mx.Unicode.{Unicode}
use xeron_mx.Store.Time.{Time, text_le}

pub data Role : Type 0 where
  admin operator viewer : Role

pub record User : Type 0 where
  pub id : ℕ
  pub email : Bytes
  pub password_hash : Bytes
  pub role : Role
  pub allowed_domains : List Bytes

pub record LoginSession : Type 0 where
  pub token_hash : Bytes
  pub user_id : ℕ
  pub expires_at : Time
  pub user_agent : Bytes

-- The tables users and sessions; `next` is the sequence of the ids of users.
pub record Accounts : Type 0 where
  pub users : List User
  pub sessions : List LoginSession
  pub next : ℕ

abbrev pub is_admin : Role → Bool
is_admin admin = true
is_admin operator = false
is_admin viewer = false

unfoldable pub scoped : User → Bool
scoped u = not (is_admin u.role) && not (is_empty u.allowed_domains)

-- What a statement answers.
pub data Answer : Type 0 where
  ok : Answer
  not_found last_admin already_set_up refused : Answer

abbrev pub is_id : ℕ → User → Bool
is_id k u = u.id == k

abbrev pub has_role_admin : User → Bool
has_role_admin u = is_admin u.role

module _ (uc : Unicode) where
  unfoldable pub can_access_domain : User → Bytes → Bool
  unfolding scoped any
  can_access_domain u name =
      if not (scoped u) then true else any (λ d. uc.eq_fold d name) u.allowed_domains

  unfoldable pub normalize_email : Bytes → Bytes
  normalize_email s = uc.to_lower (uc.trim_space s)

  unfoldable pub new_user : ℕ → Bytes → Bytes → Role → List Bytes → User
  unfolding normalize_email
  new_user k email password_hash role domains = record {
    id = k;
    email = normalize_email email;
    password_hash = password_hash;
    role = role;
    allowed_domains = domains;
  }

  -- email is UNIQUE.
  unfoldable pub create_user : Bytes → Bytes → Role → List Bytes → Accounts → Answer × Accounts
  unfolding new_user normalize_email any bytes_eq
  create_user email password_hash role domains a =
      if any (λ (u : User). bytes_eq u.email (normalize_email email)) a.users
      then (refused, a)
      else (
        ok,
        record a {
          users = a.users ++ new_user a.next email password_hash role domains ∷ [];
          next = a.next + 1;
        },
      )

  unfoldable pub create_first_user : Bytes → Bytes → Role → Accounts → Answer × Accounts
  unfolding new_user
  create_first_user email password_hash role a =
      if is_empty a.users
      then (
        ok,
        record a { users = new_user a.next email password_hash role [] ∷ []; next = a.next + 1 },
      )
      else (already_set_up, a)

  unfoldable pub user_by_email : Bytes → Accounts → Option User
  unfolding find bytes_eq normalize_email
  user_by_email email a = find (λ (u : User). bytes_eq u.email (normalize_email email)) a.users

unfoldable pub user_by_id : ℕ → Accounts → Option User
unfolding find
user_by_id k a = find (is_id k) a.users

unfoldable pub count_admin_users : Accounts → ℕ
unfolding count
count_admin_users a = count has_role_admin a.users

-- The guard of UpdateUserScope and DeleteUser.
abbrev pub is_last_admin : User → Bool → Accounts → Bool
unfolding count_admin_users
is_last_admin u stays a = is_admin u.role && not stays && leb (count_admin_users a) 1

abbrev pub rescoped : ℕ → Role → List Bytes → User → User
rescoped k role domains u =
    if is_id k u then record u { role = role; allowed_domains = domains } else u

unfoldable pub update_user_scope : ℕ → Role → List Bytes → Accounts → Answer × Accounts
unfolding user_by_id
update_user_scope k role domains a = elim (user_by_id k a) [
  | none ↦ (not_found, a)
  | some u ↦
      if is_last_admin u (is_admin role) a
      then (last_admin, a)
      else (ok, record a { users = map (rescoped k role domains) a.users })
]

unfoldable pub update_user_role : ℕ → Role → Accounts → Answer × Accounts
unfolding user_by_id update_user_scope
update_user_role k role a = elim (user_by_id k a) [
  | none ↦ (not_found, a)
  | some u ↦ update_user_scope k role u.allowed_domains a
]

unfoldable pub delete_user_sessions : ℕ → Accounts → Accounts
unfolding select
delete_user_sessions k a = record a {
  sessions = select (λ (s : LoginSession). not (s.user_id == k)) a.sessions;
}

-- Behind the guard: the sessions go first, and stay gone where the second statement fails.
unfoldable pub delete_rows : Bool → Bool → ℕ → Accounts → Answer × Accounts
unfolding delete_user_sessions select
delete_rows sessions_fails user_fails k a =
    if sessions_fails
    then (refused, a)
    else if user_fails
    then (refused, delete_user_sessions k a)
    else (ok, record (delete_user_sessions k a) { users = select (λ u. not (is_id k u)) a.users })

unfoldable pub delete_user : Bool → Bool → ℕ → Accounts → Answer × Accounts
unfolding user_by_id delete_rows
delete_user sessions_fails user_fails k a = elim (user_by_id k a) [
  | none ↦ (not_found, a)
  | some u ↦
      if is_last_admin u false a then (last_admin, a) else delete_rows sessions_fails user_fails k a
]

-- token_hash is the primary key, user_id a reference.
unfoldable pub create_session : Bytes → ℕ → ℕ → Bytes → Time → Accounts → Answer × Accounts
unfolding any bytes_eq truncate
create_session token_hash k ttl user_agent now a =
    if any (λ (s : LoginSession). bytes_eq s.token_hash token_hash) a.sessions
      || not (any (is_id k) a.users)
    then (refused, a)
    else (
      ok,
      record a {
        sessions =
            a.sessions
            ++ record {
              token_hash = token_hash;
              user_id = k;
              expires_at = now + ttl;
              user_agent = truncate user_agent 300;
            }
              ∷ [];
      },
    )

abbrev pub is_live : Bytes → Time → LoginSession → Bool
unfolding bytes_eq text_le
is_live token_hash now s = bytes_eq s.token_hash token_hash && not (text_le s.expires_at now)

unfoldable pub user_by_session_token : Bytes → Time → Accounts → Option User
unfolding find user_by_id
user_by_session_token token_hash now a = elim (find (is_live token_hash now) a.sessions) [
  | none ↦ none
  | some s ↦ user_by_id s.user_id a
]

unfoldable pub delete_session : Bytes → Accounts → Accounts
unfolding select bytes_eq
delete_session token_hash a = record a {
  sessions = select (λ (s : LoginSession). not (bytes_eq s.token_hash token_hash)) a.sessions;
}

unfoldable pub purge_expired_sessions : Time → Accounts → Accounts
unfolding select text_le
purge_expired_sessions now a = record a {
  sessions = select (λ (s : LoginSession). not (text_le s.expires_at now)) a.sessions;
}
