-- ===== src/RtspSource/Orderly/Runs.antt =====
-- After any events, what the worker gives out is in order.
use skai_edge_native.Common.{
  ℕ, suc, ◌+◌, ◌^◌, ◌<◌, ◌≡◌, refl, List, [], ◌∷◌, Option, none, some, Bool, true, false, not, ◌&&◌,
  ltb, if◌then◌else◌, arith, Bool-cases, inl, inr, inc64, codes,
}
use skai_edge_native.RtspSource.{
  RtspSource, Phase, waiting, capturing, finished, publish_media_status, set_error,
  publish_recovery,
}
use skai_edge_native.RtspRecovery.{Recovery}
use skai_edge_native.RtspSource.Worker.{
  Opening, opens, fails, Poll, reopen, close_pipeline, fail_attempt, opened, attempt, connect_pad,
  Event, attempts, polls, connects, requests_stop, new_jitterbuffer, attempt_in, poll_in, step, run,
}
use skai_edge_native.RtspSource.Orderly.{
  is_waiting, IsOrderly, all_current-none, no_later, upto_later,
}
use skai_edge_native.RtspSource.Orderly.Rounds.{
  publish-IsOrderly, finish-IsOrderly, close-IsOrderly, capturing-IsOrderly,
  poll_pipeline-IsOrderly,
}
use skai_edge_native.RtspRecovery.{retry}

reopen-IsOrderly :
    (limit : ℕ) (s : RtspSource)
    → is_waiting s.phase ≡ true
    → suc limit < 2 ^ 64
    → IsOrderly limit s
    → IsOrderly (suc limit) (reopen s)
unfolding reopen
reopen-IsOrderly limit s w h v =
    let next : inc64 s.pipeline_generation ≡ suc s.pipeline_generation =
      ground (arith, v.bounded) in
    publish-IsOrderly false (codes "RTSP source is reconnecting")
      (record s { first_access_unit = true; pipeline_generation = inc64 s.pipeline_generation })
      (ground (
        arith,
        next,
        no_later s.pipeline_generation s.sent v.below,
        upto_later s.pipeline_generation s.sent v.below,
        all_current-none (suc s.pipeline_generation) s.frames.items (v.emptied w),
      ))

is_waiting-publish :
    (available : Bool) (reason : List ℕ) (s : RtspSource)
    → (publish_media_status available reason s).phase ≡ s.phase
unfolding publish_media_status
is_waiting-publish available reason s = ground arith

phase-reopen : (s : RtspSource) → (reopen s).phase ≡ s.phase
unfolding reopen
phase-reopen s =
    is_waiting-publish false (codes "RTSP source is reconnecting")
      (record s { first_access_unit = true; pipeline_generation = inc64 s.pipeline_generation })

waiting_close :
    (s : RtspSource) → is_waiting s.phase ≡ true → is_waiting (close_pipeline s).phase ≡ true
unfolding close_pipeline
waiting_close s w = w

waiting_begun :
    (r : Recovery) (s : RtspSource)
    → is_waiting s.phase ≡ true
    → is_waiting (publish_recovery (record s { recovery = r; codec = []; decoder = [] })).phase
      ≡ true
unfolding publish_recovery
waiting_begun r s w = w

module _ {limit : ℕ} where
  failed-IsOrderly :
      (message : List ℕ) (now : ℕ) (s : RtspSource)
      → is_waiting s.phase ≡ true
      → IsOrderly limit s
      → IsOrderly limit (fail_attempt message now s)
  unfolding fail_attempt set_error publish_recovery
  failed-IsOrderly message now s w v = ground arith

  opened-IsOrderly :
      (opening : Opening) (s : RtspSource)
      → is_waiting s.phase ≡ true
      → IsOrderly limit s
      → IsOrderly limit (opened opening s)
  unfolding opened
  opened-IsOrderly (opens now) s w v = capturing-IsOrderly now false s v
  opened-IsOrderly (fails true message now) s w v =
      finish-IsOrderly (close_pipeline s) (close-IsOrderly s v)
  opened-IsOrderly (fails false message now) s w v =
      failed-IsOrderly message now (close_pipeline s) (waiting_close s w) (close-IsOrderly s v)

  begun-IsOrderly :
      (r : Recovery) (s : RtspSource)
      → IsOrderly limit s
      → IsOrderly limit (publish_recovery (record s { recovery = r; codec = []; decoder = [] }))
  unfolding publish_recovery
  begun-IsOrderly r s v = ground arith

  later-IsOrderly : (s : RtspSource) → IsOrderly limit s → IsOrderly (suc limit) s
  later-IsOrderly s v = ground arith

module _ {limit : ℕ} where
  attempt-IsOrderly :
      (first : Bool) (now : ℕ) (opening : Opening) (s : RtspSource)
      → is_waiting s.phase ≡ true
      → suc limit < 2 ^ 64
      → IsOrderly limit s
      → IsOrderly (suc limit) (attempt first now opening s)
  unfolding attempt
  attempt-IsOrderly first now opening s w h v =
      let r = if first then s.recovery else retry now s.recovery in
      let begun = publish_recovery (record s { recovery = r; codec = []; decoder = [] }) in
      elim (Bool-cases (not s.running)) [
        | inl e ↦ rw e (finish-IsOrderly s (later-IsOrderly s v))
        | inr e ↦ elim (Bool-cases (not first && ltb now s.recovery.next_retry)) [
          | inl f ↦ rw (e, f) (later-IsOrderly s v)
          | inr f ↦
              rw (e, f)
                (opened-IsOrderly opening (reopen begun)
                  (rw (phase-reopen begun) (waiting_begun r s w))
                  (reopen-IsOrderly limit begun (waiting_begun r s w) h (begun-IsOrderly r s v)))
        ]
      ]

  connect-IsOrderly :
      (codec decoder : List ℕ) (failure : Option (List ℕ)) (s : RtspSource)
      → IsOrderly limit s
      → IsOrderly limit (connect_pad codec decoder failure s)
  unfolding connect_pad set_error publish_media_status
  connect-IsOrderly codec decoder none s v = ground arith
  connect-IsOrderly codec decoder (some message) s v = ground arith

-- Whether an event can start a pipeline.
abbrev pub opening_of : Event → ℕ
opening_of (attempts now opening) = 1
opening_of _ = 0

abbrev pub openings : List Event → ℕ
openings [] = 0
openings (e ∷ es) = opening_of e + openings es

module _ (enqueue : Bool) where
  attempt_in-IsOrderly :
      (phase : Phase) (limit now : ℕ) (opening : Opening) (s : RtspSource)
      → s.phase ≡ phase
      → suc limit < 2 ^ 64
      → IsOrderly limit s
      → IsOrderly (suc limit) (attempt_in enqueue phase now opening s)
  unfolding attempt_in
  attempt_in-IsOrderly (waiting first) limit now opening s e h v =
      attempt-IsOrderly first now opening s (rw e refl) h v
  attempt_in-IsOrderly (capturing started received) limit now opening s e h v = later-IsOrderly s v
  attempt_in-IsOrderly finished limit now opening s e h v = later-IsOrderly s v

  poll_in-IsOrderly :
      (phase : Phase) (limit : ℕ) (p : Poll) (s : RtspSource)
      → s.phase ≡ phase
      → IsOrderly limit s
      → IsOrderly limit (poll_in enqueue phase p s)
  unfolding poll_in
  poll_in-IsOrderly (waiting first) limit p s e v = v
  poll_in-IsOrderly (capturing started received) limit p s e v =
      poll_pipeline-IsOrderly enqueue started received p s (rw e refl) v
  poll_in-IsOrderly finished limit p s e v = v

  stop-IsOrderly :
      (limit : ℕ) (s : RtspSource)
      → IsOrderly limit s
      → IsOrderly limit (record s { running = false })
  stop-IsOrderly limit s v = ground arith

  new_jitterbuffer-IsOrderly :
      (limit : ℕ) (s : RtspSource)
      → IsOrderly limit s
      → IsOrderly limit (record s { lost_high_water = 0; late_high_water = 0 })
  new_jitterbuffer-IsOrderly limit s v = ground arith

  same_limit : (limit : ℕ) (s : RtspSource) → IsOrderly limit s → IsOrderly (0 + limit) s
  same_limit limit s v = let e : 0 + limit ≡ limit = omega arith in rw e v

  step-IsOrderly :
      (e : Event) (limit : ℕ) (s : RtspSource)
      → opening_of e + limit < 2 ^ 64
      → IsOrderly limit s
      → IsOrderly (opening_of e + limit) (step enqueue e s)
  unfolding step
  step-IsOrderly (attempts now opening) limit s h v =
      let e : 1 + limit ≡ suc limit = omega arith in
      rw e (attempt_in-IsOrderly s.phase limit now opening s refl (omega arith) v)
  step-IsOrderly (polls p) limit s h v =
      same_limit limit (poll_in enqueue s.phase p s) (poll_in-IsOrderly s.phase limit p s refl v)
  step-IsOrderly (connects codec decoder failure) limit s h v =
      same_limit limit (connect_pad codec decoder failure s)
        (connect-IsOrderly codec decoder failure s v)
  step-IsOrderly new_jitterbuffer limit s h v =
      same_limit limit (record s { lost_high_water = 0; late_high_water = 0 })
        (new_jitterbuffer-IsOrderly limit s v)
  step-IsOrderly requests_stop limit s h v =
      same_limit limit (record s { running = false }) (stop-IsOrderly limit s v)

  -- After any events with fewer attempts than the generations that are left below 2^64: the first
  -- access unit of each pipeline is marked as a discontinuity, the media status sink knows the last
  -- status and was only told changes, and the queue of frames holds frames of the current pipeline
  -- alone, and none between attempts.
  pub run-IsOrderly :
      (es : List Event) (limit : ℕ) (s : RtspSource)
      → openings es + limit < 2 ^ 64
      → IsOrderly limit s
      → IsOrderly (openings es + limit) (run enqueue es s)
  unfolding run
  run-IsOrderly [] limit s h v = same_limit limit s v
  run-IsOrderly (e ∷ es) limit s h v =
      let all : openings (e ∷ es) + limit ≡ openings es + (opening_of e + limit) = omega arith in
      rw all (
        run-IsOrderly es (opening_of e + limit) (step enqueue e s) (omega arith)
          (step-IsOrderly e limit s (omega arith) v))
