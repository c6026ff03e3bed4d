-- ===== src/RtspSource/Orderly/Rounds.antt =====
-- The rounds of the worker keep the order of what is given out.
use skai_edge_native.Common.{
  ℕ, ◌+◌, ◌≡◌, refl, List, [], ◌∷◌, Option, none, some, Bool, true, false, not, ◌&&◌, ◌||◌, leb,
  arith, Bool-cases, Option-cases, inl, inr, ◌∙◌,
}
use skai_edge_native.RtspSource.{
  RtspSource, capturing, publish_media_status, set_error, publish_recovery, is_error,
}
use skai_edge_native.BoundedQueue.{discard_all}
use skai_edge_native.RtspRecovery.{Recovery, check_stall, ms}
use skai_edge_native.RtspSource.Caps.{incompatibility}
use skai_edge_native.RtspSource.Capture.{
  Buffer, Sample, VideoSample, unit_of, capture_buffer, capture_compatible, capture_access_unit,
  capture_all, capture_sample, frame_of, read_jitter_stats,
}
use skai_edge_native.RtspSource.Worker.{
  Poll, close_pipeline, finish, fail_attempt, end_attempt, capture_video, frame_timeout,
  no_fresh_frames, check_round, capture_round, poll_pipeline,
}
use skai_edge_native.RtspSource.Orderly.{is_waiting, IsOrderly, all_current-push}

phase-capture_compatible :
    (reason : Option (List ℕ)) (b : Option Buffer) (s : RtspSource)
    → (capture_compatible reason b s).phase ≡ s.phase
unfolding capture_compatible capture_buffer publish_media_status
phase-capture_compatible none none s = ground arith
phase-capture_compatible none (some b) s = ground arith
phase-capture_compatible (some reason) b s = ground arith

phase-capture_all :
    (samples : List Sample) (s : RtspSource) → (capture_all samples s).phase ≡ s.phase
unfolding capture_all capture_access_unit
phase-capture_all [] s = refl
phase-capture_all (sample ∷ samples) s =
    phase-capture_all samples (capture_compatible (incompatibility sample.caps) sample.buffer s)
    ∙ phase-capture_compatible (incompatibility sample.caps) sample.buffer s

-- Every part of the worker but the start of a pipeline keeps this.
module _ {limit : ℕ} where
  pub publish-IsOrderly :
      (available : Bool) (reason : List ℕ) (s : RtspSource)
      → IsOrderly limit s
      → IsOrderly limit (publish_media_status available reason s)
  unfolding publish_media_status
  publish-IsOrderly available reason s v = ground arith

  pub capture_buffer-IsOrderly :
      (b : Option Buffer) (s : RtspSource)
      → IsOrderly limit s
      → IsOrderly limit (capture_buffer b s)
  unfolding capture_buffer unit_of
  capture_buffer-IsOrderly none s v = v
  capture_buffer-IsOrderly (some b) s v = ground arith

  pub capture_compatible-IsOrderly :
      (reason : Option (List ℕ)) (b : Option Buffer) (s : RtspSource)
      → IsOrderly limit s
      → IsOrderly limit (capture_compatible reason b s)
  unfolding capture_compatible
  capture_compatible-IsOrderly none b s v =
      capture_buffer-IsOrderly b (publish_media_status true [] s) (publish-IsOrderly true [] s v)
  capture_compatible-IsOrderly (some reason) b s v = publish-IsOrderly false reason s v

  pub capture_all-IsOrderly :
      (samples : List Sample) (s : RtspSource)
      → IsOrderly limit s
      → IsOrderly limit (capture_all samples s)
  unfolding capture_all capture_access_unit
  capture_all-IsOrderly [] s v = v
  capture_all-IsOrderly (sample ∷ samples) s v =
      capture_all-IsOrderly samples
        (capture_compatible (incompatibility sample.caps) sample.buffer s)
        (capture_compatible-IsOrderly (incompatibility sample.caps) sample.buffer s v)

  pub capture_video-IsOrderly :
      (enqueue : Bool) (video : Option VideoSample) (s : RtspSource)
      → is_waiting s.phase ≡ false
      → IsOrderly limit s
      → IsOrderly limit (capture_video enqueue video s).1
  unfolding capture_video capture_sample publish_recovery frame_of
  capture_video-IsOrderly enqueue none s w v = v
  capture_video-IsOrderly enqueue (some video) s w v =
      ground
        (arith, all_current-push s.pipeline_generation (frame_of video s) s.frames v.current refl)

  pub read_jitter-IsOrderly :
      (now : ℕ) (stats : Option (ℕ × ℕ × ℕ)) (s : RtspSource)
      → IsOrderly limit s
      → IsOrderly limit (read_jitter_stats now stats s)
  unfolding read_jitter_stats publish_recovery
  read_jitter-IsOrderly now none s v = v
  read_jitter-IsOrderly now (some (lost, late, jitter)) s v = ground arith

  pub finish-IsOrderly : (s : RtspSource) → IsOrderly limit s → IsOrderly limit (finish s)
  unfolding finish close_pipeline publish_recovery
  finish-IsOrderly s v = ground arith

  pub end_attempt-IsOrderly :
      (interrupted : Bool) (message : List ℕ) (now : ℕ) (s : RtspSource)
      → IsOrderly limit s
      → IsOrderly limit (end_attempt interrupted message now s)
  unfolding end_attempt fail_attempt set_error discard_all finish close_pipeline publish_recovery
  end_attempt-IsOrderly interrupted message now s v = ground arith

  pub recovery-IsOrderly :
      (r : Recovery) (s : RtspSource)
      → IsOrderly limit s
      → IsOrderly limit (publish_recovery (record s { recovery = r }))
  unfolding publish_recovery
  recovery-IsOrderly r s v = ground arith

  pub capturing-IsOrderly :
      (started : ℕ) (received : Bool) (s : RtspSource)
      → IsOrderly limit s
      → IsOrderly limit (record s { phase = capturing started received })
  capturing-IsOrderly started received s v = ground arith

  pub check_round-IsOrderly :
      (started : ℕ) (received : Bool) (p : Poll) (s : RtspSource)
      → IsOrderly limit s
      → IsOrderly limit (check_round started received p s)
  unfolding check_round
  check_round-IsOrderly started received p s v =
      let stalled = publish_recovery (record s { recovery = (check_stall p.now s.recovery).1 }) in
      elim (Bool-cases (not received && leb (started + ms s.first_frame_timeout) p.now)) [
        | inl e ↦ rw e (end_attempt-IsOrderly p.interrupted frame_timeout p.ended s v)
        | inr e ↦ elim (Bool-cases (check_stall p.now s.recovery).0) [
          | inl f ↦
              rw (e, f)
                (end_attempt-IsOrderly p.interrupted no_fresh_frames p.ended stalled
                  (recovery-IsOrderly (check_stall p.now s.recovery).1 s v))
          | inr f ↦ rw (e, f) (capturing-IsOrderly started received s v)
        ]
      ]

  pub capture_round-IsOrderly :
      (enqueue : Bool) (started : ℕ) (received : Bool) (p : Poll) (s : RtspSource)
      → is_waiting s.phase ≡ false
      → IsOrderly limit s
      → IsOrderly limit (capture_round enqueue started received p s)
  unfolding capture_round
  capture_round-IsOrderly enqueue started received p s w v =
      let earlier = capture_all p.earlier s in
      let shown = capture_video enqueue p.video earlier in
      check_round-IsOrderly started (shown.0 || received) p
        (read_jitter_stats p.now p.stats (capture_all p.later shown.1))
        (read_jitter-IsOrderly p.now p.stats (capture_all p.later shown.1) (
          capture_all-IsOrderly p.later shown.1 (
            capture_video-IsOrderly enqueue p.video earlier (rw (phase-capture_all p.earlier s) w)
              (capture_all-IsOrderly p.earlier s v))))

  pub close-IsOrderly : (s : RtspSource) → IsOrderly limit s → IsOrderly limit (close_pipeline s)
  unfolding close_pipeline
  close-IsOrderly s v = ground arith

  pub poll_pipeline-IsOrderly :
      (enqueue : Bool) (started : ℕ) (received : Bool) (p : Poll) (s : RtspSource)
      → is_waiting s.phase ≡ false
      → IsOrderly limit s
      → IsOrderly limit (poll_pipeline enqueue started received p s)
  unfolding poll_pipeline
  poll_pipeline-IsOrderly enqueue started received p s w v = elim (Bool-cases (not s.running)) [
    | inl e ↦ rw e (finish-IsOrderly (close_pipeline s) (close-IsOrderly s v))
    | inr e ↦ elim (Bool-cases (is_error s.health)) [
      | inl f ↦ rw (e, f) (end_attempt-IsOrderly p.interrupted s.last_error p.ended s v)
      | inr f ↦ elim (Option-cases p.bus) [
        | inl g ↦ rw (e, f, g) (capture_round-IsOrderly enqueue started received p s w v)
        | inr (detail, g) ↦ rw (e, f, g) (end_attempt-IsOrderly p.interrupted detail p.ended s v)
      ]
    ]
  ]
