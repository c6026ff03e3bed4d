-- ===== src/Alerts/Rule.antt =====
-- The state of one alert rule, and the part of `AlertManager::process` of src/alerts/alert_manager.cpp
-- that decides whether it raises an alert. Times are nanoseconds of the steady clock.
pub mod Spacing
use skai_edge_native.Common.{
  ℕ, zero, suc, ◌+◌, ◌*◌, Option, none, some, Bool, true, false, not, ltb, if◌then◌else◌, ℤ, pos,
  negsuc, ltb_ℤ,
}
use skai_edge_native.Config.{AlertRuleConfig}

pub record RuleState (F : Type 0) : Type 0 where
  pub rule : AlertRuleConfig F
  pub consecutive : ℤ
  pub last_alert : Option ℕ

pub fresh_rule : {F : Type 0} → AlertRuleConfig F → RuleState F
fresh_rule rule = record { rule = rule; consecutive = pos 0; last_alert = none }

-- The new detector generation.
pub reset_rule : {F : Type 0} → RuleState F → RuleState F
reset_rule state = record state { consecutive = pos 0 }

abbrev pub inc_ℤ : ℤ → ℤ
inc_ℤ (pos n) = pos (suc n)
inc_ℤ (negsuc zero) = pos 0
inc_ℤ (negsuc (suc n)) = negsuc n

-- `std::min`.
abbrev pub min_ℤ : ℤ → ℤ → ℤ
min_ℤ a b = if ltb_ℤ b a then b else a

-- `now - last < std::chrono::seconds(cooldown)`.
pub is_within : ℕ → ℤ → ℕ → Bool
is_within now (pos seconds) last = ltb now (last + seconds * 1_000_000_000)
is_within now (negsuc n) last = ltb (now + suc n * 1_000_000_000) last

pub cools_down : ℕ → ℤ → Option ℕ → Bool
unfolding is_within
cools_down now cooldown none = false
cools_down now cooldown (some last) = is_within now cooldown last

-- No alert, an alert that could not be kept, or an alert.
pub data Verdict : Type 0 where
  quiet not_kept raised : Verdict

-- The rest of the round, from the test whether detections match; `is_kept` is for the snapshot.
pub advance : {F : Type 0} → Bool → ℕ → Bool → RuleState F → Verdict × RuleState F
unfolding cools_down
advance has_match now is_kept state =
    let counted = record state {
      consecutive = min_ℤ (inc_ℤ state.consecutive) state.rule.consecutive_frames;
    } in
    if not has_match
    then (quiet, record state { consecutive = pos 0 })
    else if ltb_ℤ counted.consecutive state.rule.consecutive_frames
    then (quiet, counted)
    else if cools_down now state.rule.cooldown_seconds state.last_alert
    then (quiet, counted)
    else if is_kept
    then (raised, record counted { consecutive = pos 0; last_alert = some now })
    else (not_kept, counted)
