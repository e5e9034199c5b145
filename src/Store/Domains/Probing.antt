-- ===== src/Store/Domains/Probing.antt =====
-- Runs of probes, and proofs about them (RecordProbe of internal/store/domains.go).
use xeron_mx.Prelude.{ℕ, zero, suc, ◌+◌, ◌≡◌, ◌∙◌, Bool, true, false, ◌&&◌, ◌||◌, ltb, leb, arith}
use xeron_mx.Text.{Bytes}
use xeron_mx.Store.Time.{Time}
use xeron_mx.Store.Types.{PrimaryStatus}
use xeron_mx.Store.Domains.{probe, probed}

-- n probes in a row with one result.
unfoldable pub after : ℕ → Bool → ℕ → ℕ → Time → Bytes → PrimaryStatus → PrimaryStatus
after zero good failures successes now error s = s
after (suc n) good failures successes now error s =
    after n good failures successes now error (probed good error failures successes now s)

module _ (failures successes : ℕ) (now : Time) (error : Bytes) where
  failed-is_up :
      (s : PrimaryStatus)
      → (probed false error failures successes now s).is_up
        ≡ (s.is_up && ltb (suc s.consecutive_failures) failures)
  unfolding probed probe
  failed-is_up s = ground arith

  failed-counts :
      (s : PrimaryStatus)
      → (probed false error failures successes now s).consecutive_failures
        ≡ suc s.consecutive_failures
  unfolding probed probe
  failed-counts s = ground arith

  good-is_up :
      (s : PrimaryStatus)
      → (probed true error failures successes now s).is_up
        ≡ (s.is_up || leb successes (suc s.consecutive_success))
  unfolding probed probe
  good-is_up s = ground arith

  good-counts :
      (s : PrimaryStatus)
      → (probed true error failures successes now s).consecutive_success ≡ suc s.consecutive_success
  unfolding probed probe
  good-counts s = ground arith

  -- After a run of at least one failed probe a primary that was up is still up exactly if the
  -- failures counted so far stay below the threshold, and one that was down is down.
  pub after-failing :
      (n : ℕ) (s : PrimaryStatus)
      → (after (suc n) false failures successes now error s).is_up
        ≡ (s.is_up && ltb (s.consecutive_failures + suc n) failures)
  unfolding after
  after-failing zero s = failed-is_up s ∙ ground arith
  after-failing (suc n) s =
      after-failing n (probed false error failures successes now s)
      ∙ rw (failed-is_up s, failed-counts s) (ground arith)

  -- After a run of at least one good probe a primary is up exactly if it was up before or the
  -- successes counted so far reach the threshold.
  pub after-recovering :
      (n : ℕ) (s : PrimaryStatus)
      → (after (suc n) true failures successes now error s).is_up
        ≡ (s.is_up || leb successes (s.consecutive_success + suc n))
  unfolding after
  after-recovering zero s = good-is_up s ∙ ground arith
  after-recovering (suc n) s =
      after-recovering n (probed true error failures successes now s)
      ∙ rw (good-is_up s, good-counts s) (ground arith)
