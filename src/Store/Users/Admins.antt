-- ===== src/Store/Users/Admins.antt =====
-- Proofs about the accounts of the web interface (internal/store/users.go) over histories of calls.
use xeron_mx.Prelude.{
  ℕ, ◌+◌, ◌≤◌, ◌<◌, ◌≡◌, refl, true, false, not, ◌||◌, List, [], ◌∷◌, is_empty, Bool-cases,
  Option-cases, inl, inr, arith, find, any, count, select, All-append, Bool, on_if,
}
use xeron_mx.Text.{Bytes, bytes_eq}
use xeron_mx.Unicode.{Unicode}
use xeron_mx.Store.Time.{Time}
use xeron_mx.Store.Users.{
  User, LoginSession, normalize_email, Role, Accounts, is_admin, is_id, has_role_admin,
  is_last_admin, new_user, create_user, create_first_user, user_by_id, count_admin_users,
  update_user_scope, update_user_role, delete_user_sessions, delete_rows, delete_user, Answer,
  create_session, delete_session, purge_expired_sessions,
}
use xeron_mx.Store.Users.Rows.{
  IsValid, count-select, count-rescoped, All-later, IsUnique-snoc, count-append, IsUnique-map,
  All-map, IsUnique-select, All-sub,
}

-- The calls that write the two tables.
pub data Call : Type 0 where
  create : Bytes → Bytes → Role → List Bytes → Call
  create_first : Bytes → Bytes → Role → Call
  rescope : ℕ → Role → List Bytes → Call
  set_role : ℕ → Role → Call
  remove : Bool → Bool → ℕ → Call
  log_in : Bytes → ℕ → ℕ → Bytes → Time → Call
  log_out : Bytes → Call
  log_out_everywhere : ℕ → Call
  purge : Time → Call

module _ (uc : Unicode) where
  unfoldable pub run : Call → Accounts → Accounts
  run (create email hash role domains) a = (create_user uc email hash role domains a).1
  run (create_first email hash role) a = (create_first_user uc email hash role a).1
  run (rescope k role domains) a = (update_user_scope k role domains a).1
  run (set_role k role) a = (update_user_role k role a).1
  run (remove sessions_fails user_fails k) a = (delete_user sessions_fails user_fails k a).1
  run (log_in token k ttl agent now) a = (create_session token k ttl agent now a).1
  run (log_out token) a = delete_session token a
  run (log_out_everywhere k) a = delete_user_sessions k a
  run (purge now) a = purge_expired_sessions now a

  unfoldable pub run_all : List Call → Accounts → Accounts
  unfolding run
  run_all [] a = a
  run_all (c ∷ calls) a = run_all calls (run c a)

-- Somebody administers the instance.
pub record IsAdministered (a : Accounts) : Type 0 where
  pub valid : IsValid a
  pub some_admin : 1 ≤ count_admin_users a

count-empty : (users : List User) → is_empty users ≡ true → count has_role_admin users ≡ 0
unfolding count
count-empty [] h = refl
count-empty (u ∷ users) h = cc

module _ (uc : Unicode) where
  create-IsAdministered :
      (email hash : Bytes) (role : Role) (domains : List Bytes) (a : Accounts)
      → IsAdministered a
      → IsAdministered (create_user uc email hash role domains a).1
  unfolding create_user count_admin_users new_user
  create-IsAdministered email hash role domains a h =
      elim (Bool-cases (any (λ (u : User). bytes_eq u.email (normalize_email uc email)) a.users)) [
        | inl e ↦ rw e h
        | inr e ↦ rw e (record {
          valid = record {
            unique = IsUnique-snoc _ a.users h.valid.unique h.valid.passed;
            passed =
                All-append (λ (u : User). u.id < a.next + 1) a.users _
                  (All-later a.next a.users h.valid.passed) (omega arith, tt);
          };
          some_admin = omega (
            arith,
            count-append a.users (new_user uc a.next email hash role domains ∷ []),
            h.some_admin,
          );
        })
      ]

  first-IsAdministered :
      (email hash : Bytes) (role : Role) (a : Accounts)
      → IsAdministered a
      → IsAdministered (create_first_user uc email hash role a).1
  unfolding create_first_user count_admin_users
  first-IsAdministered email hash role a h = elim (Bool-cases (is_empty a.users)) [
    | inl e ↦ absurd (omega (arith, count-empty a.users e, h.some_admin))
    | inr e ↦ rw e h
  ]

rescope-IsAdministered :
    (k : ℕ) (role : Role) (domains : List Bytes) (a : Accounts)
    → IsAdministered a
    → IsAdministered (update_user_scope k role domains a).1
unfolding update_user_scope user_by_id count_admin_users
rescope-IsAdministered k role domains a h = elim (Option-cases (find (is_id k) a.users)) [
  | inl e ↦ rw (e, update_user_scope) h
  | inr (u, e) ↦
      rw (e, update_user_scope)
        (elim (Bool-cases (is_last_admin u (is_admin role) a)) [
          | inl f ↦ rw f h
          | inr f ↦ rw f (record {
            valid = record {
              unique = IsUnique-map k role domains a.users h.valid.unique;
              passed = All-map a.next k role domains a.users h.valid.passed;
            };
            some_admin =
                ground
                  (arith, count-rescoped k role domains u a.users h.valid.unique e, h.some_admin);
          })
        ])
]

set_role-IsAdministered :
    (k : ℕ) (role : Role) (a : Accounts)
    → IsAdministered a
    → IsAdministered (update_user_role k role a).1
unfolding update_user_role
set_role-IsAdministered k role a h = elim (Option-cases (user_by_id k a)) [
  | inl e ↦ rw (e, update_user_role) h
  | inr (u, e) ↦ rw (e, update_user_role) (rescope-IsAdministered k role u.allowed_domains a h)
]

delete-IsAdministered :
    (sessions_fails user_fails : Bool) (k : ℕ) (a : Accounts)
    → IsAdministered a
    → IsAdministered (delete_user sessions_fails user_fails k a).1
unfolding delete_user delete_rows user_by_id count_admin_users delete_user_sessions
delete-IsAdministered sessions_fails user_fails k a h =
    elim (Option-cases (find (is_id k) a.users)) [
      | inl e ↦ rw (e, delete_user) h
      | inr (u, e) ↦
          rw (e, delete_user)
            (elim (Bool-cases (is_last_admin u false a)) [
              | inl f ↦ rw f h
              | inr f ↦
                  let gone : IsAdministered (record (delete_user_sessions k a) {
                    users = select (λ u. not (is_id k u)) a.users;
                  }) =
                    record {
                      valid = record {
                        unique = IsUnique-select _ a.users h.valid.unique;
                        passed = All-sub a.next _ a.users h.valid.passed;
                      };
                      some_admin =
                          ground (arith, count-select k u a.users h.valid.unique e, h.some_admin);
                    } in
                  let kept : IsAdministered (delete_user_sessions k a) = record {
                    valid = record { unique = h.valid.unique; passed = h.valid.passed };
                    some_admin = h.some_admin;
                  } in
                  rw f (
                    on_if (λ (r : Answer × Accounts). IsAdministered r.1) sessions_fails (λ g. h)
                      λ g.
                        on_if (λ (r : Answer × Accounts). IsAdministered r.1) user_fails (λ m. kept)
                          (λ m. gone))
            ])
    ]

log_in-users :
    (token : Bytes) (k ttl : ℕ) (agent : Bytes) (now : Time) (a : Accounts)
    → IsAdministered a
    → IsAdministered (create_session token k ttl agent now a).1
unfolding create_session count_admin_users
log_in-users token k ttl agent now a h =
    elim (Bool-cases (
      any (λ (s : LoginSession). bytes_eq s.token_hash token) a.sessions
      || not (any (is_id k) a.users))) [
        | inl e ↦ rw e h
        | inr e ↦ rw e (record {
          valid = record { unique = h.valid.unique; passed = h.valid.passed };
          some_admin = h.some_admin;
        })
      ]

module _ (uc : Unicode) where
  run-IsAdministered : (c : Call) (a : Accounts) → IsAdministered a → IsAdministered (run uc c a)
  unfolding run delete_session delete_user_sessions purge_expired_sessions count_admin_users
  run-IsAdministered (create email hash role domains) a h =
      create-IsAdministered uc email hash role domains a h
  run-IsAdministered (create_first email hash role) a h =
      first-IsAdministered uc email hash role a h
  run-IsAdministered (rescope k role domains) a h = rescope-IsAdministered k role domains a h
  run-IsAdministered (set_role k role) a h = set_role-IsAdministered k role a h
  run-IsAdministered (remove sf uf k) a h = delete-IsAdministered sf uf k a h
  run-IsAdministered (log_in token k ttl agent now) a h = log_in-users token k ttl agent now a h
  run-IsAdministered (log_out token) a h = record {
    valid = record { unique = h.valid.unique; passed = h.valid.passed };
    some_admin = h.some_admin;
  }
  run-IsAdministered (log_out_everywhere k) a h = record {
    valid = record { unique = h.valid.unique; passed = h.valid.passed };
    some_admin = h.some_admin;
  }
  run-IsAdministered (purge now) a h = record {
    valid = record { unique = h.valid.unique; passed = h.valid.passed };
    some_admin = h.some_admin;
  }

  -- An instance that has an administrator keeps one through every history of calls on its accounts
  -- that do not overlap, and the ids of its users stay apart and below the next one.
  pub run_all-IsAdministered :
      (calls : List Call) (a : Accounts) → IsAdministered a → IsAdministered (run_all uc calls a)
  unfolding run_all
  run_all-IsAdministered [] a h = h
  run_all-IsAdministered (c ∷ calls) a h =
      run_all-IsAdministered calls (run uc c a) (run-IsAdministered c a h)
