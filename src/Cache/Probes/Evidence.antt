-- ===== src/Cache/Probes/Evidence.antt =====
-- cache/contracts.py: what probe evidence that was accepted says of its two runs.
use schema_guard.Base.{◌≡◌, subst, ℕ, true, ◌<◌, length, arith}
use schema_guard.Cache.Probes.{
  CacheSchedulerConfig, config_is_valid, ProbeRunSummary, cold, resume, mode_is_valid,
  probe_run_is_valid, SchedulerProbeEvidence, probe_evidence_is_valid,
}

-- A run that computed each of n tasks once and observed each.
pub record ComputedAll (n : ℕ) (r : ProbeRunSummary) : Type 0 where
  pub computed : r.executed ≡ n
  pub missed : r.validated_cache_hits ≡ 0
  pub observed : length r.resources ≡ n

-- A run that took each of n tasks from the cache and computed none.
pub record ReusedAll (n : ℕ) (r : ProbeRunSummary) : Type 0 where
  pub idle : r.executed ≡ 0
  pub reused : r.validated_cache_hits ≡ n
  pub unobserved : length r.resources ≡ 0

cold-ComputedAll :
    (r : ProbeRunSummary) → probe_run_is_valid r ≡ true → r.mode ≡ cold → ComputedAll r.planned r
unfolding probe_run_is_valid mode_is_valid
cold-ComputedAll r v m =
    let c : mode_is_valid r.mode r ≡ true = ground arith in
    let d : mode_is_valid cold r ≡ true = rw m at c in
    record { computed = ground arith; missed = ground arith; observed = ground arith }

resume-ReusedAll :
    (r : ProbeRunSummary) → probe_run_is_valid r ≡ true → r.mode ≡ resume → ReusedAll r.planned r
unfolding probe_run_is_valid mode_is_valid
resume-ReusedAll r v m =
    let c : mode_is_valid r.mode r ≡ true = ground arith in
    let d : mode_is_valid resume r ≡ true = rw m at c in
    record { idle = ground arith; reused = ground arith; unobserved = ground arith }

-- In accepted probe evidence whose runs are a cold one and a resumed one, the cold run computed
-- and observed one task for each cache identity, the resumed run took as many from the cache and
-- computed none, and there are as many validated artifacts.
pub probe_evidence_is_valid-ReusedAll :
    (e : SchedulerProbeEvidence)
    → probe_evidence_is_valid e ≡ true
    → e.cold_run.mode ≡ cold
    → e.resume_run.mode ≡ resume
    → ComputedAll (length e.cache_identity_hashes) e.cold_run
      × ReusedAll (length e.cache_identity_hashes) e.resume_run
      × (e.validated_cache_artifact_count ≡ length e.cache_identity_hashes)
unfolding probe_evidence_is_valid
probe_evidence_is_valid-ReusedAll e v c r =
    let computed = cold-ComputedAll e.cold_run (ground arith) c in
    let reused = resume-ReusedAll e.resume_run (ground arith) r in
    let planned : e.cold_run.planned ≡ length e.cache_identity_hashes = ground arith in
    let replanned : e.resume_run.planned ≡ length e.cache_identity_hashes = ground arith in
    (
      subst (λ n. ComputedAll n e.cold_run) planned computed,
      subst (λ n. ReusedAll n e.resume_run) replanned reused,
      ground arith,
    )

pub heartbeat-lt-lease :
    (c : CacheSchedulerConfig)
    → config_is_valid c ≡ true
    → c.heartbeat_interval_seconds < c.abandoned_lease_seconds
unfolding config_is_valid
heartbeat-lt-lease c v = ground arith
