-- ===== src/Store/Users/Examples.antt =====
-- Accounts of the web interface: tests, and the theorems on them at two users.
use xeron_mx.Prelude.{◌≡◌, refl, true, false, none, List, [], ◌∷◌, ◌==◌, arith, any}
use xeron_mx.Text.{bytes_eq, codes}
use xeron_mx.Unicode.{ascii}
use xeron_mx.Store.Users.{
  count_admin_users, User, LoginSession, Accounts, admin, viewer, last_admin, ok, delete_user,
  delete_session, user_by_session_token,
}
use xeron_mx.Store.Users.Admins.{
  Call, set_role, remove, run_all, IsAdministered, run_all-IsAdministered,
}
use xeron_mx.Store.Users.Sessions.{IsDeleted, delete_session_lem, delete_user_lem}

abbrev anna : User
anna = record {
  id = 1;
  email = codes "anna@example.org";
  password_hash = [];
  role = admin;
  allowed_domains = [];
}

abbrev bob : User
bob = record {
  id = 2;
  email = codes "bob@example.org";
  password_hash = [];
  role = viewer;
  allowed_domains = [];
}

abbrev accounts : Accounts
accounts = record {
  users = anna ∷ bob ∷ [];
  sessions =
      record { token_hash = codes "t"; user_id = 1; expires_at = 100; user_agent = [] }
      ∷ record { token_hash = codes "s"; user_id = 2; expires_at = 100; user_agent = [] }
      ∷ [];
  next = 3;
}

abbrev calls : List Call
calls =
    remove false false 1
    ∷ set_role 2 admin
    ∷ remove false true 1
    ∷ remove false false 1
    ∷ remove false false 2
    ∷ []

last_admin_test : (delete_user false false 1 accounts).0 ≡ last_admin
unfolding delete_user xeron_mx.Store.Users.is_last_admin
last_admin_test = refl

run_test : (run_all ascii calls accounts).users ≡ record bob { role = admin } ∷ []
unfolding run_all delete_user xeron_mx.Store.Users.update_user_role
    xeron_mx.Store.Users.is_last_admin
run_test = refl

accounts-IsAdministered : IsAdministered accounts
unfolding count_admin_users any
accounts-IsAdministered = record {
  valid = record { unique = (refl, (refl, tt)); passed = (omega arith, (omega arith, tt)) };
  some_admin = omega arith;
}

run_all-IsAdministered_example : IsAdministered (run_all ascii calls accounts)
run_all-IsAdministered_example = run_all-IsAdministered ascii calls accounts accounts-IsAdministered

delete_session_lem_example :
    (user_by_session_token (codes "t") 50 (delete_session (codes "t") accounts) ≡ none)
    × (user_by_session_token (codes "s") 50 (delete_session (codes "t") accounts)
        ≡ user_by_session_token (codes "s") 50 accounts)
unfolding bytes_eq
delete_session_lem_example = delete_session_lem (codes "t") (codes "s") 50 accounts refl

half_test :
    any (λ (s : LoginSession). s.user_id == 2) (delete_user false true 2 accounts).1.sessions
    ≡ false
unfolding delete_user any xeron_mx.Store.Users.is_last_admin
half_test = refl

delete_user_lem_example : IsDeleted 2 accounts (delete_user false false 2 accounts)
delete_user_lem_example = delete_user_lem 2 false false accounts
