-- ===== src/Store/Users/Rows.antt =====
-- Lemmas on the table of users (internal/store/users.go): its ids and the number of administrators
-- among its rows.
use xeron_mx.Prelude.{
  ℕ, ◌+◌, ◌≤◌, ◌<◌, ◌≡◌, refl, ap, ◌∙◌, Bool, true, false, not, some, List, [], ◌∷◌, ◌++◌,
  if◌then◌else◌, Bool-cases, inl, inr, arith, find, any, select, map, count, All,
}
use xeron_mx.Text.{Bytes}
use xeron_mx.Store.Users.{User, Role, Accounts, is_admin, is_id, has_role_admin, rescoped}

abbrev pub IsUnique : List User → Type 0
IsUnique [] = Unit
IsUnique (u ∷ users) = (any (is_id u.id) users ≡ false) × IsUnique users

-- The ids are a primary key that the sequence has passed.
pub record IsValid (a : Accounts) : Type 0 where
  pub unique : IsUnique a.users
  pub passed : All (λ (u : User). u.id < a.next) a.users

abbrev pub one_if : Bool → ℕ
one_if true = 1
one_if false = 0

pub select-fresh :
    (k : ℕ) (users : List User)
    → any (is_id k) users ≡ false
    → select (λ u. not (is_id k u)) users ≡ users
unfolding select any
select-fresh k [] h = refl
select-fresh k (u ∷ users) h = elim (Bool-cases (is_id k u)) [
  | inl e ↦ ground arith
  | inr e ↦ rw e (ap (λ rest. u ∷ rest) (select-fresh k users (ground arith)))
]

pub any_trans :
    (k : ℕ) (u : User) (users : List User)
    → is_id k u ≡ true
    → any (is_id u.id) users ≡ false
    → any (is_id k) users ≡ false
any_trans k u users e h = let same : u.id ≡ k = ground arith in rw (← same) h

pub count-select :
    (k : ℕ) (u : User) (users : List User)
    → IsUnique users
    → find (is_id k) users ≡ some u
    → count has_role_admin (select (λ v. not (is_id k v)) users) + one_if (is_admin u.role)
      ≡ count has_role_admin users
unfolding find count select
count-select k u [] h e = cc
count-select k u (v ∷ users) (fresh, h) e = elim (Bool-cases (is_id k v)) [
  | inr f ↦ let rest = count-select k u users h (rw f at e) in ground arith
  | inl f ↦
      let same : v ≡ u = ground arith in
      let gone = select-fresh k users (any_trans k v users f fresh) in
      rw (← same, f, gone)
        (elim (Bool-cases (is_admin v.role)) [
          | inl g ↦ rw g (omega arith)
          | inr g ↦ rw g (omega arith)
        ])
]

pub count-rescoped_absent :
    (k : ℕ) (role : Role) (domains : List Bytes) (users : List User)
    → any (is_id k) users ≡ false
    → count has_role_admin (map (rescoped k role domains) users) ≡ count has_role_admin users
unfolding count any
count-rescoped_absent k role domains [] h = refl
count-rescoped_absent k role domains (u ∷ users) h = elim (Bool-cases (is_id k u)) [
  | inl e ↦ ground arith
  | inr e ↦ rw e (
      ap (λ n. (if has_role_admin u then 1 else 0) + n)
        (count-rescoped_absent k role domains users (ground arith)))
]

pub count-rescoped :
    (k : ℕ) (role : Role) (domains : List Bytes) (u : User) (users : List User)
    → IsUnique users
    → find (is_id k) users ≡ some u
    → count has_role_admin (map (rescoped k role domains) users) + one_if (is_admin u.role)
      ≡ count has_role_admin users + one_if (is_admin role)
unfolding find count
count-rescoped k role domains u [] h e = cc
count-rescoped k role domains u (v ∷ users) (fresh, h) e = elim (Bool-cases (is_id k v)) [
  | inr f ↦ let rest = count-rescoped k role domains u users h (rw f at e) in rw f (ground arith)
  | inl f ↦
      let same : v ≡ u = ground arith in
      let rest = count-rescoped_absent k role domains users (any_trans k v users f fresh) in
      rw (← same, f, rest)
        (elim (Bool-cases (is_admin v.role)) [
          | inl g ↦ rw g (elim (Bool-cases (is_admin role)) [
            | inl i ↦ rw i (omega arith)
            | inr i ↦ rw i (omega arith)
          ])
          | inr g ↦ rw g (elim (Bool-cases (is_admin role)) [
            | inl i ↦ rw i (omega arith)
            | inr i ↦ rw i (omega arith)
          ])
        ])
]

pub any-passed :
    (k next : ℕ) (users : List User)
    → next ≤ k
    → All (λ (u : User). u.id < next) users
    → any (is_id k) users ≡ false
unfolding any
any-passed k next [] h p = refl
any-passed k next (u ∷ users) h (b, p) = ground (arith, any-passed k next users h p)

pub All-later :
    (next : ℕ) (users : List User)
    → All (λ (u : User). u.id < next) users
    → All (λ (u : User). u.id < next + 1) users
All-later next [] h = tt
All-later next (u ∷ users) (b, h) = (omega arith, All-later next users h)

pub any-snoc :
    (k : ℕ) (u : User) (users : List User)
    → any (is_id k) users ≡ false
    → is_id k u ≡ false
    → any (is_id k) (users ++ u ∷ []) ≡ false
unfolding any
any-snoc k u [] h e = rw e refl
any-snoc k u (v ∷ users) h e = ground (arith, any-snoc k u users)

pub IsUnique-snoc :
    (u : User) (users : List User)
    → IsUnique users
    → All (λ (v : User). v.id < u.id) users
    → IsUnique (users ++ u ∷ [])
unfolding any
IsUnique-snoc u [] h p = (refl, tt)
IsUnique-snoc u (v ∷ users) (fresh, h) (b, p) =
    (any-snoc v.id u users fresh (ground arith), IsUnique-snoc u users h p)

pub count-append :
    (users more : List User)
    → count has_role_admin (users ++ more) ≡ count has_role_admin users + count has_role_admin more
unfolding count
count-append [] more = omega arith
count-append (u ∷ users) more = omega (arith, count-append users more)

pub any-map :
    (k j : ℕ) (role : Role) (domains : List Bytes) (users : List User)
    → any (is_id j) (map (rescoped k role domains) users) ≡ any (is_id j) users
unfolding any
any-map k j role domains [] = refl
any-map k j role domains (u ∷ users) = ground (arith, any-map k j role domains users)

pub IsUnique-map :
    (k : ℕ) (role : Role) (domains : List Bytes) (users : List User)
    → IsUnique users
    → IsUnique (map (rescoped k role domains) users)
IsUnique-map k role domains [] h = tt
IsUnique-map k role domains (u ∷ users) (fresh, h) = elim (Bool-cases (is_id k u)) [
  | inl e ↦ rw e (any-map k u.id role domains users ∙ fresh, IsUnique-map k role domains users h)
  | inr e ↦ rw e (any-map k u.id role domains users ∙ fresh, IsUnique-map k role domains users h)
]

pub All-map :
    (next k : ℕ) (role : Role) (domains : List Bytes) (users : List User)
    → All (λ (u : User). u.id < next) users
    → All (λ (u : User). u.id < next) (map (rescoped k role domains) users)
All-map next k role domains [] h = tt
All-map next k role domains (u ∷ users) (b, h) = elim (Bool-cases (is_id k u)) [
  | inl e ↦ rw e (b, All-map next k role domains users h)
  | inr e ↦ rw e (b, All-map next k role domains users h)
]

pub any-select :
    (j : ℕ) (p : User → Bool) (users : List User)
    → any (is_id j) users ≡ false
    → any (is_id j) (select p users) ≡ false
unfolding any select
any-select j p [] h = refl
any-select j p (u ∷ users) h = ground (arith, any-select j p users)

pub IsUnique-select :
    (p : User → Bool) (users : List User) → IsUnique users → IsUnique (select p users)
unfolding select
IsUnique-select p [] h = tt
IsUnique-select p (u ∷ users) (fresh, h) = elim (Bool-cases (p u)) [
  | inl e ↦ rw e (any-select u.id p users fresh, IsUnique-select p users h)
  | inr e ↦ rw e (IsUnique-select p users h)
]

pub All-sub :
    (next : ℕ) (p : User → Bool) (users : List User)
    → All (λ (u : User). u.id < next) users
    → All (λ (u : User). u.id < next) (select p users)
unfolding select
All-sub next p [] h = tt
All-sub next p (u ∷ users) (b, h) = elim (Bool-cases (p u)) [
  | inl e ↦ rw e (b, All-sub next p users h)
  | inr e ↦ rw e (All-sub next p users h)
]
