-- ===== src/Api/Permit.antt =====
-- The permits of the detector: which results are committed, and what holds after any calls.
use skai_edge_native.Common.{
  ℕ, ◌+◌, ◌%◌, ◌^◌, ◌<◌, ◌≡◌, refl, List, [], ◌∷◌, Option, none, some, Bool, true, false, not, ◌&&◌,
  ◌||◌, ◌==◌, if◌then◌else◌, arith, Bool-cases, inl, inr,
}
use skai_edge_native.Config.{Config}
use skai_edge_native.Api.Status.{
  RuntimeStatus, clear_detector, set_detector_expected, update_detector, update_inference,
}
use skai_edge_native.Api.{
  ApiState, LatestDetectionsDto, DetectorPermit, synchronized, synchronize_runtime_status,
  bind_runtime_status, configure, detector_permit, is_current, change_status, commit_detections,
  invalidate_detections, set_detector_enabled, set_detector_supported,
}

-- A call of a method that changes the state. What a result does to the status is
-- `update_detector` or `update_inference`, and a failure clears it.
pub data Call (F : Type 0) : Type 0 where
  configures : Config F → Call F
  enables supports : Bool → Call F
  binds : RuntimeStatus F → Call F
  commits : DetectorPermit → LatestDetectionsDto F → ℕ → F → F → Call F
  commits_first : DetectorPermit → LatestDetectionsDto F → ℕ → F → Call F
  invalidates : DetectorPermit → Call F

module _ {F : Type 0} where
  abbrev pub step : Call F → ApiState F → ApiState F
  step (configures config) api = configure config api
  step (enables enabled) api = set_detector_enabled enabled api
  step (supports supported) api = set_detector_supported supported api
  step (binds status) api = bind_runtime_status (some status) api
  step (commits permit found now fps ms) api =
      (commit_detections permit found (update_detector now fps ms) api).1
  step (commits_first permit found now ms) api =
      (commit_detections permit found (update_inference now ms) api).1
  step (invalidates permit) api = (invalidate_detections permit clear_detector api).2

  abbrev pub run : List (Call F) → ApiState F → ApiState F
  run [] api = api
  run (call ∷ calls) api = run calls (step call api)

  -- How many of the calls revoke the permits given before.
  abbrev pub revokes : Call F → ℕ
  revokes (configures config) = 1
  revokes (enables enabled) = 1
  revokes (supports supported) = if supported then 0 else 1
  revokes _ = 0

  abbrev pub revocations : List (Call F) → ℕ
  revocations [] = 0
  revocations (call ∷ calls) = revokes call + revocations calls

  generation-step :
      (call : Call F) (api : ApiState F)
      → api.detector_generation < 2 ^ 64
      → (step call api).detector_generation ≡ (api.detector_generation + revokes call) % 2 ^ 64
  unfolding configure set_detector_enabled set_detector_supported bind_runtime_status
      synchronize_runtime_status commit_detections invalidate_detections
  generation-step (configures config) api h = ground arith
  generation-step (enables enabled) api h = ground arith
  generation-step (supports supported) api h = ground arith
  generation-step (binds status) api h = ground arith
  generation-step (commits permit found now fps ms) api h = ground arith
  generation-step (commits_first permit found now ms) api h = ground arith
  generation-step (invalidates permit) api h = ground arith

  enabled-step :
      (call : Call F) (api : ApiState F)
      → revokes call ≡ 0
      → (step call api).detector_enabled ≡ api.detector_enabled
  unfolding configure set_detector_enabled set_detector_supported bind_runtime_status
      synchronize_runtime_status commit_detections invalidate_detections
  enabled-step (configures config) api h = ground arith
  enabled-step (enables enabled) api h = ground arith
  enabled-step (supports supported) api h = ground arith
  enabled-step (binds status) api h = ground arith
  enabled-step (commits permit found now fps ms) api h = ground arith
  enabled-step (commits_first permit found now ms) api h = ground arith
  enabled-step (invalidates permit) api h = ground arith

  generation-run :
      (calls : List (Call F)) (api : ApiState F)
      → api.detector_generation < 2 ^ 64
      → (run calls api).detector_generation ≡ (api.detector_generation + revocations calls) % 2 ^ 64
  generation-run [] api h = omega arith
  generation-run (call ∷ calls) api h =
      let e = generation-step call api h in
      let more = generation-run calls (step call api) (omega arith) in omega arith

  enabled-run :
      (calls : List (Call F)) (api : ApiState F)
      → revocations calls ≡ 0
      → (run calls api).detector_enabled ≡ api.detector_enabled
  enabled-run [] api h = refl
  enabled-run (call ∷ calls) api h =
      ground (
        arith,
        enabled-step call api (omega arith),
        enabled-run calls (step call api) (omega arith),
      )

  -- Detections found under a permit are committed, after any calls of other threads that are fewer
  -- than 2^64, exactly when the detector was enabled at the permit and no call since then was a
  -- configuration, an enabling or disabling, or a loss of support.
  pub commit_detections-run :
      (calls : List (Call F)) (found : LatestDetectionsDto F)
      (f : RuntimeStatus F → RuntimeStatus F) (api : ApiState F)
      → api.detector_generation < 2 ^ 64
      → revocations calls < 2 ^ 64
      → (commit_detections (detector_permit api) found f (run calls api)).0
        ≡ (api.detector_enabled && revocations calls == 0)
  unfolding commit_detections is_current detector_permit
  commit_detections-run calls found f api h few = elim (Bool-cases (revocations calls == 0)) [
    | inl e ↦
        ground (arith, e, generation-run calls api h, enabled-run calls api (ground (arith, e)))
    | inr e ↦ ground (arith, e, generation-run calls api h)
  ]

  abbrev status_agrees : Bool → Option (RuntimeStatus F) → Bool
  status_agrees enabled none = true
  status_agrees enabled (some s) =
      (if enabled then s.detector_expected else not s.detector_expected)
      && (s.detector_expected || not s.detector_available)

  -- The detector is only enabled when supported, there are detections only while it is enabled, and
  -- the shared status expects it exactly then and has its measurements only then.
  pub record IsConsistent (api : ApiState F) : Type 0 where
    pub supported : api.detector_enabled ≡ true → api.detector_supported ≡ true
    pub fresh : api.latest.available ≡ true → api.detector_enabled ≡ true
    pub told : status_agrees api.detector_enabled api.status ≡ true

  synchronized-agrees :
      (enabled : Bool) (status : Option (RuntimeStatus F))
      → status_agrees enabled (synchronized enabled status) ≡ true
  unfolding synchronized set_detector_expected clear_detector
  synchronized-agrees enabled none = refl
  synchronized-agrees enabled (some s) = ground arith

  change_status-agrees :
      (f : RuntimeStatus F → RuntimeStatus F) (enabled : Bool) (status : Option (RuntimeStatus F))
      → ((s : RuntimeStatus F) → (f s).detector_expected ≡ s.detector_expected)
      → enabled ≡ true
      → status_agrees enabled status ≡ true
      → status_agrees enabled (change_status f status) ≡ true
  unfolding change_status
  change_status-agrees f enabled none kept on h = refl
  change_status-agrees f enabled (some s) kept on h = ground (arith, kept s)

  -- What a result under a permit leaves, when it keeps what the status expects.
  committed-IsConsistent :
      (b : Bool) (permit : DetectorPermit) (found : LatestDetectionsDto F)
      (f : RuntimeStatus F → RuntimeStatus F) (api : ApiState F)
      → ((s : RuntimeStatus F) → (f s).detector_expected ≡ s.detector_expected)
      → IsConsistent api
      → is_current permit api ≡ b
      → IsConsistent (commit_detections permit found f api).1
  unfolding commit_detections is_current
  committed-IsConsistent true permit found f api kept v e =
      let on : api.detector_enabled ≡ true = ground arith in
      ground (arith, change_status-agrees f api.detector_enabled api.status kept on v.told)
  committed-IsConsistent false permit found f api kept v e = ground arith

  invalidated-IsConsistent :
      (b : Bool) (permit : DetectorPermit) (f : RuntimeStatus F → RuntimeStatus F)
      (api : ApiState F)
      → ((s : RuntimeStatus F) → (f s).detector_expected ≡ s.detector_expected)
      → IsConsistent api
      → is_current permit api ≡ b
      → IsConsistent (invalidate_detections permit f api).2
  unfolding invalidate_detections is_current
  invalidated-IsConsistent true permit f api kept v e =
      let on : api.detector_enabled ≡ true = ground arith in
      ground (arith, change_status-agrees f api.detector_enabled api.status kept on v.told)
  invalidated-IsConsistent false permit f api kept v e = ground arith

  step-IsConsistent :
      (call : Call F) (api : ApiState F) → IsConsistent api → IsConsistent (step call api)
  unfolding configure set_detector_enabled set_detector_supported bind_runtime_status
      synchronize_runtime_status commit_detections invalidate_detections is_current update_detector
      update_inference clear_detector
  step-IsConsistent (configures config) api v =
      ground (arith, synchronized-agrees api.detector_supported api.status)
  step-IsConsistent (enables enabled) api v =
      ground (arith, synchronized-agrees (enabled && api.detector_supported) api.status)
  step-IsConsistent (supports true) api v =
      ground (arith, synchronized-agrees api.detector_enabled api.status)
  step-IsConsistent (supports false) api v = ground (arith, synchronized-agrees false api.status)
  step-IsConsistent (binds status) api v =
      ground (arith, synchronized-agrees api.detector_enabled (some status))
  step-IsConsistent (commits permit found now fps ms) api v =
      committed-IsConsistent (is_current permit api) permit found (update_detector now fps ms) api
        (λ s. refl) v refl
  step-IsConsistent (commits_first permit found now ms) api v =
      committed-IsConsistent (is_current permit api) permit found (update_inference now ms) api
        (λ s. refl) v refl
  step-IsConsistent (invalidates permit) api v =
      invalidated-IsConsistent (is_current permit api) permit clear_detector api (λ s. refl) v refl

  -- After any calls on a consistent state: the detector is enabled only when it is supported, there
  -- are latest detections only while it is enabled, and the bound status expects the detector
  -- exactly when it is enabled and has measurements of it only then.
  pub run-IsConsistent_api :
      (calls : List (Call F)) (api : ApiState F) → IsConsistent api → IsConsistent (run calls api)
  run-IsConsistent_api [] api v = v
  run-IsConsistent_api (call ∷ calls) api v =
      run-IsConsistent_api calls (step call api) (step-IsConsistent call api v)
