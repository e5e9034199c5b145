-- ===== src/Store/SmtpUsers.antt =====
-- The accounts of the submission server (internal/store/users.go). Of the columns created_at is
-- left out. `none` in the answer of a statement is its error: ErrNotFound, or a row that the
-- table's constraints refuse.
use xeron_mx.Prelude.{
  ℕ, Bool, true, false, not, Option, none, some, List, [], ◌∷◌, ◌++◌, ◌==◌, if◌then◌else◌, is_empty,
  find, any, select, map,
}
use xeron_mx.Text.{Bytes, bytes_eq, after_last}
use xeron_mx.Unicode.{Unicode}
use xeron_mx.Store.Time.{Time}

pub record SmtpUser : Type 0 where
  pub id : ℕ
  pub username : Bytes
  pub password_hash : Bytes
  pub allowed_domains : List Bytes
  pub enabled : Bool
  pub last_used_at : Option Time

abbrev is_user : ℕ → SmtpUser → Bool
is_user k u = u.id == k

module _ (uc : Unicode) where
  unfoldable pub may_send : SmtpUser → Bytes → Bool
  unfolding any after_last
  may_send u from =
      if not u.enabled
      then false
      else if is_empty u.allowed_domains
      then true
      else if is_empty from
      then true
      else elim (after_last b'@' from) [
        | none ↦ false
        | some domain ↦ any (λ allowed. uc.eq_fold allowed (uc.to_lower domain)) u.allowed_domains
      ]

  -- `next` is the id that the table's sequence gives.
  unfoldable pub create_smtp_user :
      ℕ → Bytes → Bytes → List Bytes → List SmtpUser → Option (List SmtpUser)
  unfolding any bytes_eq
  create_smtp_user next username password_hash allowed_domains users =
      let name = uc.trim_space username in
      if any (λ (u : SmtpUser). bytes_eq u.username name) users
      then none
      else some (
          users
          ++ record {
            id = next;
            username = name;
            password_hash = password_hash;
            allowed_domains = allowed_domains;
            enabled = true;
            last_used_at = none;
          }
            ∷ [])

  unfoldable pub smtp_user_by_name : Bytes → List SmtpUser → Option SmtpUser
  unfolding find bytes_eq
  smtp_user_by_name username users =
      find (λ (u : SmtpUser). bytes_eq u.username (uc.trim_space username)) users

unfoldable pub delete_smtp_user : ℕ → List SmtpUser → Option (List SmtpUser)
unfolding any select
delete_smtp_user k users =
    if any (is_user k) users then some (select (λ u. not (is_user k u)) users) else none

update_user : ℕ → (SmtpUser → SmtpUser) → List SmtpUser → Option (List SmtpUser)
unfolding any
update_user k f users =
    if any (is_user k) users then some (map (λ u. if is_user k u then f u else u) users) else none

unfoldable pub set_smtp_user_enabled : ℕ → Bool → List SmtpUser → Option (List SmtpUser)
unfolding update_user
set_smtp_user_enabled k enabled = update_user k λ u. record u { enabled = enabled }

unfoldable pub touch_smtp_user : ℕ → Time → List SmtpUser → Option (List SmtpUser)
unfolding update_user
touch_smtp_user k now = update_user k λ u. record u { last_used_at = some now }
