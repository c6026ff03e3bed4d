-- ===== src/Alerts/Rule/Spacing.antt =====
-- When a rule raises an alert: after enough matching results in a row, and not within its cooldown.
use skai_edge_native.Common.{
  ℕ, suc, ◌+◌, ◌*◌, ◌≤◌, ◌≡◌, refl, arith, min, List, [], ◌∷◌, Option, none, some, Bool, true,
  false, not, ◌&&◌, leb, if◌then◌else◌, pos,
}
use skai_edge_native.Config.{AlertRuleConfig}
use skai_edge_native.Alerts.Rule.{
  RuleState, reset_rule, Verdict, quiet, not_kept, raised, advance, cools_down, is_within,
}

-- One call of `process`, for one rule.
pub record Look : Type 0 where
  pub is_reset : Bool
  pub has_match : Bool
  pub now : ℕ
  pub is_kept : Bool

-- The rule, the matching results in a row with no alert or new generation among them, and the
-- times of its alerts, the latest first.
pub record Trace (F : Type 0) : Type 0 where
  pub state : RuleState F
  pub streak : ℕ
  pub alerts : List ℕ

abbrev pub fresh_trace : {F : Type 0} → AlertRuleConfig F → Trace F
fresh_trace rule = record {
  state = record { rule = rule; consecutive = pos 0; last_alert = none };
  streak = 0;
  alerts = [];
}

abbrev pub prepare : {F : Type 0} → Bool → RuleState F → RuleState F
prepare true state = reset_rule state
prepare false state = state

abbrev pub note_verdict : {F : Type 0} → Look → ℕ → Verdict × RuleState F → List ℕ → Trace F
note_verdict look streak (raised, state) alerts = record {
  state = state;
  streak = 0;
  alerts = look.now ∷ alerts;
}
note_verdict look streak (quiet, state) alerts = record {
  state = state;
  streak = if look.has_match then suc streak else 0;
  alerts = alerts;
}
note_verdict look streak (not_kept, state) alerts = record {
  state = state;
  streak = if look.has_match then suc streak else 0;
  alerts = alerts;
}

pub see : {F : Type 0} → Look → Trace F → Trace F
see look t =
    note_verdict look (if look.is_reset then 0 else t.streak)
      (advance look.has_match look.now look.is_kept (prepare look.is_reset t.state)) t.alerts

pub watch : {F : Type 0} → List Look → Trace F → Trace F
watch [] t = t
watch (look ∷ looks) t = watch looks (see look t)

abbrev pub latest : List ℕ → Option ℕ
latest [] = none
latest (time ∷ times) = some time

-- Each time is at least the gap after the one before it.
abbrev pub are_spaced : ℕ → List ℕ → Bool
are_spaced gap [] = true
are_spaced gap (time ∷ []) = true
are_spaced gap (time ∷ last ∷ times) = leb (last + gap) time && are_spaced gap (last ∷ times)

pub record IsTracked {F : Type 0} (frames seconds : ℕ) (t : Trace F) : Type 0 where
  frames_of : t.state.rule.consecutive_frames ≡ pos frames
  seconds_of : t.state.rule.cooldown_seconds ≡ pos seconds
  counted : t.state.consecutive ≡ pos (min t.streak frames)
  timed : t.state.last_alert ≡ latest t.alerts
  spaced : are_spaced (seconds * 1_000_000_000) t.alerts ≡ true

-- The new generation is seen, without the detections.
abbrev prepared : {F : Type 0} → Bool → Trace F → Trace F
prepared is_reset t = record t {
  state = prepare is_reset t.state;
  streak = if is_reset then 0 else t.streak;
}

prepared-IsTracked :
    {F : Type 0} (frames seconds : ℕ) (is_reset : Bool) (t : Trace F)
    → IsTracked frames seconds t
    → IsTracked frames seconds (prepared is_reset t)
unfolding reset_rule
prepared-IsTracked frames seconds true t v = ground arith
prepared-IsTracked frames seconds false t v = v

cools_down-pos :
    (now seconds : ℕ) (alerts : List ℕ)
    → cools_down now (pos seconds) (latest alerts) ≡ false
    → are_spaced (seconds * 1_000_000_000) alerts ≡ true
    → are_spaced (seconds * 1_000_000_000) (now ∷ alerts) ≡ true
unfolding cools_down is_within
cools_down-pos now seconds [] c s = refl
cools_down-pos now seconds (time ∷ alerts) c s = ground arith

advance-IsTracked :
    {F : Type 0} (frames seconds : ℕ) (look : Look) (t : Trace F)
    → 1 ≤ frames
    → IsTracked frames seconds t
    → IsTracked frames seconds
        (note_verdict look t.streak (advance look.has_match look.now look.is_kept t.state) t.alerts)
unfolding advance
advance-IsTracked frames seconds look t positive v =
    ground (arith, cools_down-pos look.now seconds t.alerts)

watch-IsTracked :
    {F : Type 0} (frames seconds : ℕ) (looks : List Look) (t : Trace F)
    → 1 ≤ frames
    → IsTracked frames seconds t
    → IsTracked frames seconds (watch looks t)
unfolding watch see
watch-IsTracked frames seconds [] t positive v = v
watch-IsTracked frames seconds (look ∷ looks) t positive v =
    watch-IsTracked frames seconds looks (see look t) positive (
      advance-IsTracked frames seconds look (prepared look.is_reset t) positive
        (prepared-IsTracked frames seconds look.is_reset t v))

fresh-IsTracked :
    {F : Type 0} (rule : AlertRuleConfig F) (frames seconds : ℕ)
    → rule.consecutive_frames ≡ pos frames
    → rule.cooldown_seconds ≡ pos seconds
    → IsTracked frames seconds (fresh_trace rule)
fresh-IsTracked rule frames seconds f s = ground arith

-- A rule with a positive number of frames and a cooldown, whatever the results, the times and the
-- snapshots: each of its alerts comes at least the cooldown after the one before it.
pub are_spaced-watch :
    {F : Type 0} (rule : AlertRuleConfig F) (frames seconds : ℕ) (looks : List Look)
    → 1 ≤ frames
    → rule.consecutive_frames ≡ pos frames
    → rule.cooldown_seconds ≡ pos seconds
    → are_spaced (seconds * 1_000_000_000) (watch looks (fresh_trace rule)).alerts ≡ true
are_spaced-watch rule frames seconds looks positive f s =
    (watch-IsTracked frames seconds looks (fresh_trace rule) positive
      (fresh-IsTracked rule frames seconds f s)).spaced

abbrev pub is_raised : {F : Type 0} → Verdict × RuleState F → Bool
is_raised (raised, state) = true
is_raised (quiet, state) = false
is_raised (not_kept, state) = false

-- There is no alert within the gap.
abbrev pub has_cooled : ℕ → ℕ → List ℕ → Bool
has_cooled gap now [] = true
has_cooled gap now (time ∷ times) = leb (time + gap) now

has_cooled-cools_down :
    (now seconds : ℕ) (alerts : List ℕ)
    → has_cooled (seconds * 1_000_000_000) now alerts
      ≡ not (cools_down now (pos seconds) (latest alerts))
unfolding cools_down is_within
has_cooled-cools_down now seconds [] = refl
has_cooled-cools_down now seconds (time ∷ alerts) = ground arith

is_raised-advance :
    {F : Type 0} (frames seconds : ℕ) (has_match is_kept : Bool) (now : ℕ) (t : Trace F)
    → 1 ≤ frames
    → IsTracked frames seconds t
    → is_raised (advance has_match now is_kept t.state)
      ≡ has_match
        && (leb frames (suc t.streak)
            && (has_cooled (seconds * 1_000_000_000) now t.alerts && is_kept))
unfolding advance
is_raised-advance frames seconds has_match is_kept now t positive v =
    ground (arith, has_cooled-cools_down now seconds t.alerts)

-- After any results, a rule with a positive number of frames and a cooldown raises an alert exactly
-- when the result matches, it ends a row of as many matching results with no alert or new
-- generation among them, the cooldown since the last alert is over, and the alert can be kept.
pub is_raised-watch :
    {F : Type 0} (rule : AlertRuleConfig F) (frames seconds : ℕ) (looks : List Look)
    (has_match is_kept : Bool) (now : ℕ)
    → 1 ≤ frames
    → rule.consecutive_frames ≡ pos frames
    → rule.cooldown_seconds ≡ pos seconds
    → is_raised (advance has_match now is_kept (watch looks (fresh_trace rule)).state)
      ≡ has_match
        && (leb frames (suc (watch looks (fresh_trace rule)).streak)
            && (has_cooled (seconds * 1_000_000_000) now (watch looks (fresh_trace rule)).alerts
                && is_kept))
is_raised-watch rule frames seconds looks has_match is_kept now positive f s =
    is_raised-advance frames seconds has_match is_kept now (watch looks (fresh_trace rule)) positive
      (watch-IsTracked frames seconds looks (fresh_trace rule) positive
        (fresh-IsTracked rule frames seconds f s))
