-- ===== src/Health/Rounds.antt =====
-- Proofs about a round of the health checks (checkAll of internal/health/health.go): what it makes of
-- the row of a primary.
use xeron_mx.Prelude.{ℕ, ◌≡◌, Bool, true, not, ◌&&◌, Option, List, ◌==◌, count}
use xeron_mx.Text.{Bytes, bytes_eq}
use xeron_mx.Unicode.{Unicode}
use xeron_mx.Store.Types.{Domain}
use xeron_mx.World.{World}
use xeron_mx.Health.{Config, Input, primary_key}

module _ (uc : Unicode) (cfg : Config) (inputs : ℕ → Input) (probe : Domain → Option Bytes)
    (k : ℕ) where
  abbrev pub is_own : Domain → Bool
  is_own d = d.id == k

  -- The domain k with another primary than that of d.
  abbrev is_apart : Domain → Domain → Bool
  is_apart d x = is_own x && not (bytes_eq (primary_key uc x) (primary_key uc d))

  -- A domain has the result of the probe of another one with its primary.
  abbrev pub IsOfPrimary : Type 0
  IsOfPrimary =
      (x y : Domain) → bytes_eq (primary_key uc x) (primary_key uc y) ≡ true → probe x ≡ probe y

  -- How often an enabled domain with a property is listed.
  abbrev listed : (Domain → Bool) → List Domain → ℕ
  listed p = count (λ x. x.enabled && p x)
