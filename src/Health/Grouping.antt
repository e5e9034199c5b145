-- ===== src/Health/Grouping.antt =====
-- Proofs about the groups of domains that share a primary (checkAll of internal/health/health.go).
use xeron_mx.Prelude.{
  ℕ, ◌+◌, ◌≡◌, refl, ◌∙◌, ap, Bool, true, false, ◌&&◌, List, [], ◌∷◌, ◌++◌, any, count, All,
  All-append, on_if, arith,
}
use xeron_mx.Text.{Bytes, bytes_eq}
use xeron_mx.Text.Equality.{bytes_eq_refl, bytes_eq→≡, bytes_eq_sym}
use xeron_mx.Unicode.{Unicode}
use xeron_mx.Store.Types.{Domain}
use xeron_mx.Health.{Group, add_to, group, primary_key}

-- The domains in the groups that pass a test.
unfoldable pub members : (Domain → Bool) → List Group → ℕ
unfolding count
members p [] = 0
members p (g ∷ groups) = count p g.sharing + members p groups

abbrev has_key : Bytes → Group → Bool
has_key key g = bytes_eq g.key key

-- No two groups have one key.
abbrev pub IsKeyed : List Group → Type 0
IsKeyed [] = Unit
IsKeyed (g ∷ groups) = (any (λ (h : Group). bytes_eq h.key g.key) groups ≡ false) × IsKeyed groups

-- The domains of a group have its key.
abbrev pub IsShared : Unicode → Group → Type 0
IsShared uc g = All (λ (d : Domain). bytes_eq g.key (primary_key uc d) ≡ true) g.sharing

count-append :
    (p : Domain → Bool) (xs ys : List Domain) → count p (xs ++ ys) ≡ count p xs + count p ys
unfolding count
count-append p [] ys = omega arith
count-append p (x ∷ xs) ys = omega (arith, count-append p xs ys)

members-add_to :
    (p : Domain → Bool) (key : Bytes) (d : Domain) (groups : List Group)
    → members p (add_to key d groups) ≡ members p groups + count p (d ∷ [])
unfolding members add_to
members-add_to p key d [] = omega arith
members-add_to p key d (g ∷ groups) =
    on_if
      (λ (gs : List Group). members p gs ≡ count p g.sharing + members p groups + count p (d ∷ []))
      (bytes_eq g.key key) (λ e. omega (arith, count-append p g.sharing (d ∷ [])))
      (λ e. omega (arith, members-add_to p key d groups))

any-add_to :
    (j key : Bytes) (d : Domain) (groups : List Group)
    → any (has_key j) groups ≡ false
    → bytes_eq key j ≡ false
    → any (has_key j) (add_to key d groups) ≡ false
unfolding any add_to
any-add_to j key d [] h ne = ground arith
any-add_to j key d (g ∷ groups) h ne =
    on_if (λ (gs : List Group). any (has_key j) gs ≡ false) (bytes_eq g.key key) (λ e. h)
      (λ e. ground (arith, any-add_to j key d groups))

IsKeyed-add_to :
    (key : Bytes) (d : Domain) (groups : List Group)
    → IsKeyed groups
    → IsKeyed (add_to key d groups)
unfolding add_to any
IsKeyed-add_to key d [] h = (refl, tt)
IsKeyed-add_to key d (g ∷ groups) (fresh, h) =
    on_if IsKeyed (bytes_eq g.key key) (λ e. (fresh, h))
      (λ e. (
        any-add_to g.key key d groups fresh (bytes_eq_sym key g.key ∙ e),
        IsKeyed-add_to key d groups h,
      ))

module _ (uc : Unicode) where
  IsShared-add_to :
      (key : Bytes) (d : Domain) (groups : List Group)
      → bytes_eq key (primary_key uc d) ≡ true
      → All (IsShared uc) groups
      → All (IsShared uc) (add_to key d groups)
  unfolding add_to
  IsShared-add_to key d [] own h = ((own, tt), tt)
  IsShared-add_to key d (g ∷ groups) own (s, h) =
      on_if (All (IsShared uc)) (bytes_eq g.key key)
        (λ e. (
          All-append (λ (c : Domain). bytes_eq g.key (primary_key uc c) ≡ true) g.sharing (d ∷ []) s
              (ap (λ k. bytes_eq k (primary_key uc d)) (bytes_eq→≡ g.key key e) ∙ own, tt),
          h,
        ))
        (λ e. (s, IsShared-add_to key d groups own h))

  -- What group-IsPartition says of the groups of the domains.
  abbrev pub IsPartition : (Domain → Bool) → List Domain → ℕ → List Group → Type 0
  IsPartition p domains before groups =
      (members p groups ≡ before + count (λ d. d.enabled && p d) domains)
      × IsKeyed groups
      × All (IsShared uc) groups

  group_lem :
      (p : Domain → Bool) (domains : List Domain) (groups : List Group)
      → IsKeyed groups
      → All (IsShared uc) groups
      → IsPartition p domains (members p groups) (group uc domains groups)
  unfolding group count
  group_lem p [] groups key own = (omega arith, key, own)
  group_lem p (d ∷ domains) groups key own =
      on_if (IsPartition p (d ∷ domains) (members p groups)) d.enabled
        (λ e.
          let k = primary_key uc d in
          let (n, key', own') =
            group_lem p domains (add_to k d groups) (IsKeyed-add_to k d groups key)
              (IsShared-add_to k d groups (bytes_eq_refl k) own) in
          (ground (arith, n, e, members-add_to p k d groups), key', own'))
        (λ e.
          let (n, key', own') = group_lem p domains groups key own in
          (ground (arith, n, e), key', own'))

  -- Every enabled domain is in the groups as often as it is listed, and no other domain; the domains
  -- of a group have one primary, and no two groups have the same one.
  pub group-IsPartition :
      (p : Domain → Bool) (domains : List Domain) → IsPartition p domains 0 (group uc domains [])
  unfolding members
  group-IsPartition p domains = group_lem p domains [] tt tt
