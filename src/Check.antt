-- ===== src/Check.antt =====
-- check/check.go: the health state of a check, and the result of a probe that the reap loop waits
-- for. The HTTP and the TCP probe are calls of Go's library.
pub mod New
use gopherd.Prelude.Int.{ℤ, is_zero}
use gopherd.Prelude.{
  ℕ, suc, ◌+◌, ◌<◌, leb, Bool, true, false, ◌&&◌, List, [], ◌∷◌, ◌++◌, if◌then◌else◌, ◌≡◌, refl,
  arith,
}

-- The result of a probe.
pub data Probe : Type 0 where
  passed probe_failed inconclusive : Probe

pub record Checker : Type 0 where
  pub threshold : ℕ
  pub failures : ℕ
  pub healthy : Bool
  -- The calls of metricsFn.
  pub reported : List Bool

-- The state after a probe, and whether the failure callback is to be called.
unfoldable pub observe : Probe → Checker → Checker × Bool
observe inconclusive c = (c, false)
observe probe_failed c =
    let d = record c { failures = suc c.failures; reported = c.reported ++ false ∷ [] } in
    if leb c.threshold (suc c.failures) && c.healthy
    then (record d { healthy = false }, true)
    else (d, false)
observe passed c =
    (record c { failures = 0; healthy = true; reported = c.reported ++ true ∷ [] }, false)

-- The selects of checkExecReaped: a status comes, in time or after the kill at the deadline, or it
-- never comes.
pub data Awaited : Type 0 where
  in_time : (code : ℤ) → Awaited
  after_kill : (code : ℤ) → Awaited
  lost : Awaited

unfoldable pub exec_result : Awaited → Probe
exec_result (in_time code) = if is_zero code then passed else probe_failed
exec_result (after_kill code) = if is_zero code then passed else probe_failed
exec_result lost = inconclusive

-- The probes in turn: how often the callback is called.
unfoldable pub observe_all : List Probe → Checker → Checker × ℕ
unfolding observe
observe_all [] c = (c, 0)
observe_all (p ∷ ps) c =
    let (d, calls) = observe p c in
    let (e, more) = observe_all ps d in (e, (if calls then 1 else 0) + more)

-- Probes without a success among them.
abbrev pub no_success : List Probe → Bool
no_success [] = true
no_success (passed ∷ ps) = false
no_success (_ ∷ ps) = no_success ps

-- The number of probes that count as a failure.
abbrev pub failed_probes : List Probe → ℕ
failed_probes [] = 0
failed_probes (probe_failed ∷ ps) = suc (failed_probes ps)
failed_probes (_ ∷ ps) = failed_probes ps

unhealthy_is_silent :
    (ps : List Probe) (c : Checker)
    → no_success ps ≡ true
    → c.healthy ≡ false
    → ((observe_all ps c).1 ≡ 0) × ((observe_all ps c).0.healthy ≡ false)
unfolding observe_all observe
unhealthy_is_silent [] c n h = (refl, h)
unhealthy_is_silent (passed ∷ ps) c n h = absurd (cc)
unhealthy_is_silent (probe_failed ∷ ps) c n h = ground (
  arith,
  unhealthy_is_silent ps
      (record c { failures = suc c.failures; reported = c.reported ++ false ∷ [] }) n h,
)
unhealthy_is_silent (inconclusive ∷ ps) c n h = ground (arith, unhealthy_is_silent ps c n h)

-- In a run of probes without a success, a healthy check calls its failure callback exactly once if
-- its failures come to the threshold, and never if they stay below it; a probe whose result is lost
-- does not count.
pub threshold_fires_once :
    (ps : List Probe) (c : Checker)
    → no_success ps ≡ true
    → c.healthy ≡ true
    → c.failures < c.threshold
    → (observe_all ps c).1 ≡ (if leb c.threshold (c.failures + failed_probes ps) then 1 else 0)
unfolding observe_all observe
threshold_fires_once [] c n h below = ground arith
threshold_fires_once (passed ∷ ps) c n h below = absurd (cc)
threshold_fires_once (probe_failed ∷ ps) c n h below =
    let d : Checker = record c { failures = suc c.failures; reported = c.reported ++ false ∷ [] } in
    ground (
      arith,
      unhealthy_is_silent ps (record d { healthy = false }) n refl,
      threshold_fires_once ps d n h,
    )
threshold_fires_once (inconclusive ∷ ps) c n h below = ground (arith, threshold_fires_once ps c n h)
