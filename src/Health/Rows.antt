-- ===== src/Health/Rows.antt =====
-- Proofs about the rows of the primaries behind a probe (apply of internal/health/health.go).
use mathlib.Core.Path.{subst}
use xeron_mx.Prelude.{
  ℕ, ◌≡◌, refl, sym, ◌∙◌, ap, inl, inr, true, false, not, Option, none, some, List, [], ◌∷◌, ◌==◌,
  if◌then◌else◌, is_none, map, find, Bool-cases, Option-cases, on_if, arith,
}
use xeron_mx.Text.{Bytes}
use xeron_mx.Store.Types.{Db, Domain, PrimaryStatus}
use xeron_mx.Store.Domains.{Probe, probe, probed, record_probe}
use xeron_mx.World.{World}
use xeron_mx.Health.{Config, Input, apply, applied, pull_forward, text_of}
use xeron_mx.Health.Recovery.{announce-IsSame, find-id}

abbrev pub row_of : ℕ → World → Option PrimaryStatus
row_of k w = find (λ (s : PrimaryStatus). s.domain_id == k) w.db.primaries

find-other :
    (k j : ℕ) (row : PrimaryStatus) (rows : List PrimaryStatus)
    → (j == k) ≡ false
    → (row.domain_id == j) ≡ true
    → find
        (λ (s : PrimaryStatus). s.domain_id == k)
        (map (λ (s : PrimaryStatus). if s.domain_id == j then row else s) rows)
      ≡ find (λ (s : PrimaryStatus). s.domain_id == k) rows
unfolding find
find-other k j row [] other own = refl
find-other k j row (s ∷ rows) other own =
    let rest = find-other k j row rows other own in
    elim (Bool-cases (s.domain_id == j)) [
      | inl e ↦
          let before : (s.domain_id == k) ≡ false = ground (arith, e, other) in
          let behind : (row.domain_id == k) ≡ false = ground (arith, own, other) in
          rw (e, before, behind) rest
      | inr e ↦ rw e (ap (λ o. if s.domain_id == k then some s else o) rest)
    ]

find-own :
    (k : ℕ) (row s : PrimaryStatus) (rows : List PrimaryStatus)
    → find (λ (s : PrimaryStatus). s.domain_id == k) rows ≡ some s
    → (row.domain_id == k) ≡ true
    → find
        (λ (s : PrimaryStatus). s.domain_id == k)
        (map (λ (s : PrimaryStatus). if s.domain_id == k then row else s) rows)
      ≡ some row
unfolding find
find-own k row s [] at own = cc
find-own k row s (r ∷ rows) at own = elim (Bool-cases (r.domain_id == k)) [
  | inl e ↦ rw (e, own) refl
  | inr e ↦ rw (e, e) (find-own k row s rows (rw e at at) own)
]

-- The row that a probe makes of another one.
abbrev pub checked : Config → Input → Option Bytes → PrimaryStatus → PrimaryStatus
checked cfg i error s =
    probed (is_none error) (text_of error) cfg.failure_threshold cfg.success_threshold i.now s

module _ (cfg : Config) (i : Input) (d : Domain) where
  applied-primaries :
      (db : Db) (p : Probe) (w : World)
      → (applied cfg i d (some (db, p)) w).db.primaries ≡ db.primaries
  unfolding applied pull_forward
  applied-primaries db p w =
      let P = λ (w' : World). w'.db.primaries ≡ db.primaries in
      let (_, _, told) = announce-IsSame cfg i d p.is_up (record w { db = db }) in
      on_if P (not p.flipped) (λ e. refl)
        λ e. on_if P p.is_up (λ f. on_if P i.retry_fails (λ g. told) (λ g. told)) (λ f. told)

  -- The tables that RecordProbe leaves, where it finds the row.
  abbrev recorded : Option Bytes → PrimaryStatus → World → Db
  recorded error s w = record w.db {
    primaries =
        map (λ (r : PrimaryStatus). if r.domain_id == d.id then checked cfg i error s else r)
          w.db.primaries;
  }

  abbrev looked : Option Bytes → PrimaryStatus → Probe
  looked error s = probe (is_none error) cfg.failure_threshold cfg.success_threshold s

  abbrev found : Option Bytes → World → Option (Db × Probe)
  found error w =
      record_probe d.id (is_none error) (text_of error) cfg.failure_threshold cfg.success_threshold
        i.now w.db

  found-row :
      (error : Option Bytes) (w : World) (s : PrimaryStatus)
      → row_of d.id w ≡ some s
      → found error w ≡ some (recorded error s w, looked error s)
  unfolding record_probe
  found-row error w s at = rw (at, record_probe) refl

  found-none : (error : Option Bytes) (w : World) → row_of d.id w ≡ none → found error w ≡ none
  unfolding record_probe
  found-none error w at = rw (at, record_probe) refl

  pub apply-other :
      (k : ℕ) (error : Option Bytes) (w : World)
      → (d.id == k) ≡ false
      → row_of k (apply cfg i d error w) ≡ row_of k w
  unfolding apply applied probed
  apply-other k error w other =
      let P = λ (r : Option (Db × Probe)). row_of k (applied cfg i d r w) ≡ row_of k w in
      on_if P i.record_fails (λ f. refl)
        λ f. elim (Option-cases (row_of d.id w)) [
          | inl e ↦ subst P (sym (found-none error w e)) refl
          | inr (s, e) ↦ subst P (sym (found-row error w s e)) (
              ap (find (λ (s : PrimaryStatus). s.domain_id == k))
                (applied-primaries (recorded error s w) (looked error s) w)
              ∙ find-other k d.id (checked cfg i error s) w.db.primaries other
                  (find-id d.id w.db.primaries s e))
        ]

  pub apply-own :
      (error : Option Bytes) (w : World) (s : PrimaryStatus)
      → row_of d.id w ≡ some s
      → i.record_fails ≡ false
      → row_of d.id (apply cfg i d error w) ≡ some (checked cfg i error s)
  unfolding apply applied probed
  apply-own error w s at records =
      let P = λ (r : Option (Db × Probe)).
        row_of d.id (applied cfg i d r w) ≡ some (checked cfg i error s) in
      on_if P i.record_fails (λ f. absurd cc)
        λ f. subst P (sym (found-row error w s at)) (
          ap (find (λ (s : PrimaryStatus). s.domain_id == d.id))
            (applied-primaries (recorded error s w) (looked error s) w)
          ∙ find-own d.id (checked cfg i error s) s w.db.primaries at
              (find-id d.id w.db.primaries s at))
