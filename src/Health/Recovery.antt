-- ===== src/Health/Recovery.antt =====
-- Proofs about what follows a probe (internal/health/health.go, RetryDomainNow and ClaimBatch).
use mathlib.Core.Path.{subst}
use xeron_mx.Prelude.{
  ℕ, ◌≡◌, refl, sym, ◌∙◌, ap, inl, inr, Bool, true, false, not, ◌&&◌, ◌||◌, Option, none, some,
  List, [], ◌∷◌, ◌==◌, if◌then◌else◌, is_none, any, map, find, All, Bool-cases, Option-cases, on_if,
  arith,
}
use xeron_mx.Text.{Bytes}
use xeron_mx.Store.Time.{Time, text_le, text_le_refl}
use xeron_mx.Store.Types.{
  Message, Db, Domain, PrimaryStatus, Event, EventType, is_queued, is_inbound,
}
use xeron_mx.Store.Queue.{
  deliverable, domain_enabled, primary_is_up, retry_domain_now, update_where,
}
use xeron_mx.Store.Domains.{Probe, probe, probed, record_probe}
use xeron_mx.World.{World, record_event, notify}
use xeron_mx.Health.{Config, Input, apply, applied, announce, pull_forward, text_of}

-- A message that waits for the primary of the domain alone.
abbrev pub awaits : ℕ → Message → Bool
awaits k m =
    m.domain_id == k && (is_queued m.status && (is_none m.quarantined_at && is_inbound m.direction))

-- The tables that a claim reads, but the queue.
abbrev pub IsSame : World → World → Type 0
IsSame w w' =
    (w'.db.queue ≡ w.db.queue) × (w'.db.domains ≡ w.db.domains) × (w'.db.primaries ≡ w.db.primaries)

told-IsSame :
    (set broken : Bool) (t : EventType) (e : Event) (w : World)
    → IsSame w (notify set t (record_event broken e w))
unfolding record_event
told-IsSame false false t e w = (refl, refl, refl)
told-IsSame false true t e w = (refl, refl, refl)
told-IsSame true false t e w = (refl, refl, refl)
told-IsSame true true t e w = (refl, refl, refl)

any-probed :
    (k : ℕ) (row : PrimaryStatus) (rows : List PrimaryStatus) (s : PrimaryStatus)
    → find (λ (p : PrimaryStatus). p.domain_id == k) rows ≡ some s
    → (row.domain_id == k) ≡ true
    → row.is_up ≡ true
    → any
        (λ (p : PrimaryStatus). p.domain_id == k && p.is_up)
        (map (λ (p : PrimaryStatus). if p.domain_id == k then row else p) rows)
      ≡ true
unfolding any find
any-probed k row [] s h e up = cc
any-probed k row (p ∷ rows) s h e up = elim (Bool-cases (p.domain_id == k)) [
  | inl f ↦ rw (f, e, up) refl
  | inr f ↦ rw (f, f) (any-probed k row rows s (rw f at h) e up)
]

module _ (db : Db) (k : ℕ) (now : Time) (on : domain_enabled db k ≡ true)
    (up : primary_is_up db k ≡ true) where
  abbrev IsReady : Message → Type 0
  IsReady m = (not (awaits k m) || deliverable db now m) ≡ true

  deliverable-due :
      (m : Message)
      → awaits k m ≡ true
      → text_le m.next_retry_at now ≡ true
      → deliverable db now m ≡ true
  unfolding deliverable
  deliverable-due m waits due =
      let same : m.domain_id ≡ k = ground arith in
      let on' : domain_enabled db m.domain_id ≡ true = ap (domain_enabled db) same ∙ on in
      let up' : primary_is_up db m.domain_id ≡ true = ap (primary_is_up db) same ∙ up in
      ground arith

  due-IsReady : (m : Message) → (awaits k m ≡ true → text_le m.next_retry_at now ≡ true) → IsReady m
  due-IsReady m due = elim (Bool-cases (awaits k m)) [
    | inl e ↦ rw (deliverable-due m e (due e)) (ground arith)
    | inr e ↦ rw e refl
  ]

  retried-IsReady : (q : List Message) → All IsReady (retry_domain_now k now q)
  unfolding retry_domain_now update_where
  retried-IsReady [] = tt
  retried-IsReady (m ∷ q) = (
    on_if IsReady (m.domain_id == k && (is_queued m.status && not (text_le m.next_retry_at now)))
        (λ e. due-IsReady (record m { next_retry_at = now }) (λ a. text_le_refl now))
        (λ e. due-IsReady m (λ a. ground arith)),
    retried-IsReady q,
  )

domain_enabled-same :
    (db db' : Db) (k : ℕ)
    → db'.domains ≡ db.domains
    → domain_enabled db k ≡ true
    → domain_enabled db' k ≡ true
unfolding domain_enabled
domain_enabled-same db db' k h on = ap (any (λ (d : Domain). d.id == k && d.enabled)) h ∙ on

primary_is_up-same :
    (db db' : Db) (k : ℕ)
    → db'.primaries ≡ db.primaries
    → primary_is_up db k ≡ true
    → primary_is_up db' k ≡ true
unfolding primary_is_up
primary_is_up-same db db' k h up =
    ap (any (λ (p : PrimaryStatus). p.domain_id == k && p.is_up)) h ∙ up

pub find-id :
    (k : ℕ) (rows : List PrimaryStatus) (s : PrimaryStatus)
    → find (λ (p : PrimaryStatus). p.domain_id == k) rows ≡ some s
    → (s.domain_id == k) ≡ true
unfolding find
find-id k [] s h = cc
find-id k (p ∷ rows) s h = elim (Bool-cases (p.domain_id == k)) [
  | inl e ↦ let same : p ≡ s = ground arith in rw (← same) e
  | inr e ↦ find-id k rows s (rw e at h)
]

record_probe-up :
    (k : ℕ) (good : Bool) (error : Bytes) (failures successes : ℕ) (now : Time) (db db' : Db)
    (p : Probe)
    → record_probe k good error failures successes now db ≡ some (db', p)
    → p.is_up ≡ true
    → (db'.domains ≡ db.domains) × (primary_is_up db' k ≡ true)
unfolding record_probe primary_is_up probed
record_probe-up k good error failures successes now db db' p h up =
    elim (Option-cases (find (λ (s : PrimaryStatus). s.domain_id == k) db.primaries)) [
      | inl e ↦ let wrong : none ≡ some (db', p) = rw (e, record_probe) at h in cc
      | inr (s, e) ↦
          let h' = rw (e, record_probe) at h in
          let row = probed good error failures successes now s in
          let same_db : db' ≡ record db {
            primaries =
                map (λ (r : PrimaryStatus). if r.domain_id == k then row else r) db.primaries;
          } =
            cc in
          let same_p : p ≡ probe good failures successes s = cc in
          rw same_db (
            refl,
            any-probed k row db.primaries s e (find-id k db.primaries s e)
                (ap (λ (q : Probe). q.is_up) (sym same_p) ∙ up),
          )
    ]

module _ (cfg : Config) (i : Input) (d : Domain) where
  pub announce-IsSame : (is_up : Bool) (w : World) → IsSame w (announce cfg i d is_up w)
  unfolding announce
  announce-IsSame is_up w = told-IsSame cfg.notifier i.event_fails _ _ w

  -- When a probe brings the primary of an enabled domain back up, every message of the domain that
  -- is queued, inbound and not quarantined can be claimed at once; where the result can be recorded
  -- and the statement that pulls the retries forward runs.
  pub apply-IsReady :
      (error : Option Bytes) (w : World) (db : Db) (p : Probe)
      → i.record_fails ≡ false
      → i.retry_fails ≡ false
      → domain_enabled w.db d.id ≡ true
      → record_probe d.id
          (is_none error)
          (text_of error)
          cfg.failure_threshold
          cfg.success_threshold
          i.now
          w.db
        ≡ some (db, p)
      → p.flipped ≡ true
      → p.is_up ≡ true
      → let w' = apply cfg i d error w in
        All
          (λ (m : Message). (not (awaits d.id m) || deliverable w'.db i.later m) ≡ true)
          w'.db.queue
  unfolding apply pull_forward
  apply-IsReady error w db p records works on recorded flips up =
      let P = λ (w' : World).
        All (λ (m : Message). (not (awaits d.id m) || deliverable w'.db i.later m) ≡ true)
          w'.db.queue in
      let (domains, is_up) =
        record_probe-up d.id (is_none error) (text_of error) cfg.failure_threshold
          cfg.success_threshold i.now w.db db p recorded up in
      let (_, ds, ps) = announce-IsSame p.is_up (record w { db = db }) in
      let told = announce cfg i d p.is_up (record w { db = db }) in
      subst (λ row. P (applied cfg i d row w))
        (sym (on_if (λ row. row ≡ some (db, p)) i.record_fails (λ e. absurd cc) (λ e. recorded)))
        (on_if P (not p.flipped) (λ e. absurd (ground arith))
          λ e.
            on_if P p.is_up
              (λ e.
                on_if P i.retry_fails (λ f. absurd cc)
                  λ f.
                    retried-IsReady _ d.id i.later
                      (domain_enabled-same w.db _ d.id (ds ∙ domains) on)
                      (primary_is_up-same db _ d.id ps is_up) told.db.queue)
              (λ e. absurd cc))
