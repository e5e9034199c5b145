-- ===== src/Store/Users/Sessions.antt =====
-- Proofs about the sessions of the web interface (internal/store/users.go).
use xeron_mx.Prelude.{
  ℕ, ◌≡◌, ◌≢◌, refl, ap, ◌⊎◌, Bool, true, false, not, All, All-select, on_if, none, some, List, [],
  ◌∷◌, ◌==◌, if◌then◌else◌, Bool-cases, Option-cases, inl, inr, arith, find, select,
}
use xeron_mx.Text.{Bytes, bytes_eq}
use xeron_mx.Text.Equality.{bytes_eq→≡}
use xeron_mx.Store.Time.{Time}
use xeron_mx.Store.Users.{
  User, LoginSession, Accounts, Answer, ok, delete_rows, is_id, is_live, is_last_admin, user_by_id,
  user_by_session_token, delete_session, delete_user, delete_user_sessions,
}

module _ (token : Bytes) (now : Time) where
  find-gone :
      (sessions : List LoginSession)
      → find (is_live token now) (select (λ s. not (bytes_eq s.token_hash token)) sessions) ≡ none
  unfolding find select is_live
  find-gone [] = refl
  find-gone (s ∷ sessions) = ground (arith, find-gone sessions)

  find-other :
      (gone : Bytes) (sessions : List LoginSession)
      → bytes_eq gone token ≡ false
      → find (is_live token now) (select (λ s. not (bytes_eq s.token_hash gone)) sessions)
        ≡ find (is_live token now) sessions
  unfolding find select is_live
  find-other gone [] h = refl
  find-other gone (s ∷ sessions) h = elim (Bool-cases (bytes_eq s.token_hash gone)) [
    | inl e ↦
        let apart : bytes_eq s.token_hash token ≡ false = rw (bytes_eq→≡ s.token_hash gone e) h in
        rw (e, apart) (find-other gone sessions h)
    | inr e ↦
        rw e
          (ap (λ rest. if is_live token now s then some s else rest) (find-other gone sessions h))
  ]

-- A session that was ended opens no account any more, at any time, and a session of another token
-- opens the account that it opened before.
pub delete_session_lem :
    (token other : Bytes) (now : Time) (a : Accounts)
    → bytes_eq token other ≡ false
    → (user_by_session_token token now (delete_session token a) ≡ none)
      × (user_by_session_token other now (delete_session token a)
          ≡ user_by_session_token other now a)
unfolding user_by_session_token delete_session user_by_id
delete_session_lem token other now a h = (
  rw (find-gone token now a.sessions, user_by_session_token) refl,
  rw (find-other other now token a.sessions h, user_by_session_token) refl,
)

module _ (k : ℕ) where
  -- Of a session that belongs to another user, the account that it opens.
  abbrev pub Keeps : Accounts → Accounts → Type 0
  Keeps a a' =
      (token : Bytes) (now : Time) (u : User)
      → user_by_session_token token now a ≡ some u
      → (u.id == k) ≡ false
      → user_by_session_token token now a' ≡ some u

  -- What delete_user_lem says of an answer and the accounts.
  abbrev pub IsDeleted : Accounts → Answer × Accounts → Type 0
  IsDeleted a r =
      (((r.0 ≡ ok)
          × All (λ (u : User). (u.id == k) ≡ false) r.1.users
          × All (λ (s : LoginSession). (s.user_id == k) ≡ false) r.1.sessions)
        ⊎ ((r.0 ≢ ok) × (r.1.users ≡ a.users)))
      × Keeps a r.1

  find-user_id :
      (j : ℕ) (users : List User) (u : User) → find (is_id j) users ≡ some u → (u.id == j) ≡ true
  unfolding find
  find-user_id j [] u h = cc
  find-user_id j (v ∷ users) u h = elim (Bool-cases (is_id j v)) [
    | inl e ↦ let same : v ≡ u = ground arith in rw (← same) e
    | inr e ↦ find-user_id j users u (rw e at h)
  ]

  find-kept_user :
      (j : ℕ) (users : List User) (u : User)
      → find (is_id j) users ≡ some u
      → (u.id == k) ≡ false
      → find (is_id j) (select (λ v. not (is_id k v)) users) ≡ some u
  unfolding find select
  find-kept_user j [] u h other = cc
  find-kept_user j (v ∷ users) u h other = elim (Bool-cases (is_id j v)) [
    | inl e ↦
        let same : v ≡ u = ground arith in
        let stays : is_id k v ≡ false = rw same other in rw (stays, e) (ap some same)
    | inr e ↦
        let rest = find-kept_user j users u (rw e at h) other in
        on_if (λ vs. find (is_id j) vs ≡ some u) (not (is_id k v)) (λ f. rw e rest) (λ f. rest)
  ]

  find-kept_session :
      (token : Bytes) (now : Time) (sessions : List LoginSession) (s : LoginSession)
      → find (is_live token now) sessions ≡ some s
      → (s.user_id == k) ≡ false
      → find (is_live token now) (select (λ (x : LoginSession). not (x.user_id == k)) sessions)
        ≡ some s
  unfolding find select
  find-kept_session token now [] s h other = cc
  find-kept_session token now (x ∷ sessions) s h other = elim (Bool-cases (is_live token now x)) [
    | inl e ↦
        let same : x ≡ s = ground arith in
        let stays : (x.user_id == k) ≡ false = rw same other in rw (stays, e) (ap some same)
    | inr e ↦
        let rest = find-kept_session token now sessions s (rw e at h) other in
        on_if (λ xs. find (is_live token now) xs ≡ some s) (not (x.user_id == k)) (λ f. rw e rest)
          (λ f. rest)
  ]

  opened_lem :
      (token : Bytes) (now : Time) (a : Accounts) (u : User)
      → user_by_session_token token now a ≡ some u
      → (s : LoginSession) × (find (is_live token now) a.sessions ≡ some s)
        × (find (is_id s.user_id) a.users ≡ some u)
  unfolding user_by_session_token user_by_id
  opened_lem token now a u h = elim (Option-cases (find (is_live token now) a.sessions)) [
    | inl e ↦ let wrong : none ≡ some u = rw (e, user_by_session_token) at h in cc
    | inr (s, e) ↦ (s, e, rw (e, user_by_session_token) at h)
  ]

  others-Keeps :
      (a : Accounts) (users : List User)
      → ((j : ℕ) (u : User)
          → find (is_id j) a.users ≡ some u
          → (u.id == k) ≡ false
          → find (is_id j) users ≡ some u)
      → Keeps a (record (delete_user_sessions k a) { users = users })
  unfolding user_by_session_token user_by_id delete_user_sessions
  others-Keeps a users same token now u h other =
      let (s, live, at) = opened_lem token now a u h in
      let own = find-user_id s.user_id a.users u at in
      rw
        (
          find-kept_session token now a.sessions s live (ground (arith, own, other)),
          user_by_session_token,
        )
        (same s.user_id u at other)

  -- DeleteUser either answers ok, and neither the user nor a session of the user is left; or it
  -- answers an error, and the users are as they were. In both cases every session of another user
  -- opens the account that it opened before.
  pub delete_user_lem :
      (sessions_fails user_fails : Bool) (a : Accounts)
      → IsDeleted a (delete_user sessions_fails user_fails k a)
  unfolding delete_user delete_rows user_by_id delete_user_sessions
  delete_user_lem sessions_fails user_fails a = elim (Option-cases (find (is_id k) a.users)) [
    | inl e ↦ rw (e, delete_user) (inr ((λ w. cc), refl), λ token now u h other. h)
    | inr (v, e) ↦
        rw (e, delete_user)
          (on_if (IsDeleted a) (is_last_admin v false a)
            (λ f. (inr ((λ w. cc), refl), λ token now u h other. h))
            λ f.
              on_if (IsDeleted a) sessions_fails
                (λ g. (inr ((λ w. cc), refl), λ token now u h other. h))
                λ g.
                  on_if (IsDeleted a) user_fails
                    (λ m. (inr ((λ w. cc), refl), others-Keeps a a.users (λ j u at other. at)))
                    λ m. (
                      inl (
                        refl,
                        All-select (λ (u : User). (u.id == k) ≡ false) (λ u. not (is_id k u))
                            a.users (λ u p. ground arith),
                        All-select (λ (s : LoginSession). (s.user_id == k) ≡ false)
                            (λ (s : LoginSession). not (s.user_id == k)) a.sessions
                            (λ s p. ground arith),
                      ),
                      others-Keeps a (select (λ u. not (is_id k u)) a.users)
                          (λ j u. find-kept_user j a.users u),
                    ))
  ]
