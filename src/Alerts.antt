-- ===== src/Alerts.antt =====
-- `AlertManager` of src/alerts/alert_manager.cpp: `configure` and `process`, with `persist` in Snapshot.
-- `F` is the type of floating-point numbers and `G` that of a GPS fix.
pub mod Rule
pub mod Snapshot
mod Tests
use skai_edge_native.Common.{
  ℕ, suc, ◌+◌, List, [], ◌∷◌, ◌++◌, Option, none, some, is_some, Bool, true, false, not, ◌&&◌, ◌||◌,
  eqb, ◌==◌, if◌then◌else◌, codes, get_elem?, ℤ, pos, negsuc, leb_ℤ, inc64,
}
use skai_edge_native.Config.{Library, AlertRoi, AlertRuleConfig}
use skai_edge_native.Sei.Json.{decimal}
use skai_edge_native.Alerts.Rule.{
  RuleState, fresh_rule, reset_rule, Verdict, quiet, not_kept, raised, advance,
}
use skai_edge_native.Alerts.Snapshot.{Frame, Files, persist}

pub record Detection (F : Type 0) : Type 0 where
  pub class_id : ℤ
  pub confidence : F
  pub x1 : F
  pub y1 : F
  pub x2 : F
  pub y2 : F

pub record AlertDetection (F : Type 0) : Type 0 where
  pub class_id : ℤ
  pub class_name : List ℕ
  pub confidence : F
  pub x1 : F
  pub y1 : F
  pub x2 : F
  pub y2 : F

-- `AlertEvent`; the time stamp is of a time after the epoch.
pub record AlertEvent (F G : Type 0) : Type 0 where
  pub id : List ℕ
  pub timestamp_ms : ℕ
  pub gps : Option G
  pub snapshot_path : List ℕ
  pub frame_sequence : ℕ
  pub model_version : Option (List ℕ)
  pub detections : List (AlertDetection F)

pub record AlertManager (F : Type 0) : Type 0 where
  pub snapshot_directory : List ℕ
  pub model_version : List ℕ
  pub rules : List (RuleState F)
  pub detector_generation : Option ℕ
  pub next_id : ℕ
  pub has_repository : Bool

-- The arguments of `process`, the latest GPS fix, and what the files answer for the rule of an index.
pub record Request (F G : Type 0) : Type 0 where
  pub frame_sequence : ℕ
  pub detections : List (Detection F)
  pub frame_width : ℤ
  pub frame_height : ℤ
  pub class_names : List (List ℕ)
  pub generation : ℕ
  pub snapshot_frame : Option Frame
  pub timestamp_ms : ℕ
  pub monotonic_time : ℕ
  pub gps : Option G
  pub files : ℕ → Files

text_of : ℤ → List ℕ
text_of (pos n) = decimal n
text_of (negsuc n) = 45 ∷ decimal (n + 1)

named : ℤ → Option (List ℕ) → List ℕ
unfolding text_of
named class_id (some name) = name
named class_id none = codes "class_" ++ text_of class_id

pub class_name : ℤ → List (List ℕ) → List ℕ
unfolding named
class_name (pos n) names = named (pos n) (get_elem? names n)
class_name (negsuc n) names = named (negsuc n) none

-- `configure`, but for the reconciliation of the files.
pub configure :
    {F : Type 0} → List (AlertRuleConfig F) → List ℕ → List ℕ → AlertManager F → AlertManager F
configure rules directory version m = record m {
  rules = fresh_rules rules;
  detector_generation = none;
  snapshot_directory = directory;
  model_version = version;
}
  where
    fresh_rules : {F : Type 0} → List (AlertRuleConfig F) → List (RuleState F)
    fresh_rules [] = []
    fresh_rules (rule ∷ rules) = fresh_rule rule ∷ fresh_rules rules

reset_all : {F : Type 0} → List (RuleState F) → List (RuleState F)
reset_all [] = []
reset_all (state ∷ states) = reset_rule state ∷ reset_all states

abbrev is_empty : {A : Type 0} → List A → Bool
is_empty [] = true
is_empty (x ∷ xs) = false

-- `!detector_generation_ || *detector_generation_ != detector_generation`.
is_new : Option ℕ → ℕ → Bool
is_new none generation = true
is_new (some known) generation = not (known == generation)

-- `(a + b) * 0.5 / size` is the parameter `center`.
module _ {F : Type 0} (library : Library F) (center : F → F → ℤ → F) where
  pub in_roi : Detection F → ℤ → ℤ → Option (AlertRoi F) → Bool
  in_roi detection width height none = true
  in_roi detection width height (some roi) =
      let x = center detection.x1 detection.x2 width in
      let y = center detection.y1 detection.y2 height in
      if leb_ℤ width (pos 0) || leb_ℤ height (pos 0)
      then false
      else library.float_leb roi.x1 x
        && (library.float_leb x roi.x2
            && (library.float_leb roi.y1 y && library.float_leb y roi.y2))

  -- The negation of the test that goes on with the next detection.
  pub is_match : {G : Type 0} → Request F G → AlertRuleConfig F → Detection F → Bool
  is_match request rule detection =
      library.is_finite detection.confidence
      && (library.is_finite detection.x1
          && (library.is_finite detection.y1
              && (library.is_finite detection.x2
                  && (library.is_finite detection.y2
                      && (eqb (class_name detection.class_id request.class_names) rule.class_name
                          && (not (library.float_ltb detection.confidence rule.confidence)
                              && in_roi detection request.frame_width request.frame_height
                                  rule.roi))))))

  pub matching :
      {G : Type 0} → Request F G → AlertRuleConfig F → List (Detection F) → List (AlertDetection F)
  matching request rule [] = []
  matching request rule (detection ∷ detections) =
      let rest = matching request rule detections in
      if is_match request rule detection
      then record {
        class_id = detection.class_id;
        class_name = class_name detection.class_id request.class_names;
        confidence = detection.confidence;
        x1 = detection.x1;
        y1 = detection.y1;
        x2 = detection.x2;
        y2 = detection.y2;
      }
        ∷ rest
      else rest

  -- The path of the snapshot; none when it is to be kept and cannot be.
  kept_path : {G : Type 0} → AlertManager F → Request F G → ℕ → Option (List ℕ)
  kept_path m request index =
      if m.has_repository
      then elim request.snapshot_frame [
        | none ↦ none
        | some frame ↦ (persist m.snapshot_directory frame (request.files index)).0
      ]
      else some []

  alert_id : {G : Type 0} → Request F G → ℕ → ℕ → List ℕ
  alert_id request index next_id =
      codes "alert-"
      ++ decimal request.timestamp_ms
      ++ 45 ∷ decimal request.frame_sequence
      ++ 45 ∷ decimal index
      ++ 45 ∷ decimal next_id

  event_of :
      {G : Type 0}
      → AlertManager F
      → Request F G
      → ℕ
      → ℕ
      → Option (List ℕ)
      → List (AlertDetection F)
      → List (AlertEvent F G)
  unfolding alert_id
  event_of m request index next_id none found = []
  event_of m request index next_id (some path) found =
      record {
        id = alert_id request index next_id;
        timestamp_ms = request.timestamp_ms;
        gps = request.gps;
        snapshot_path = path;
        frame_sequence = request.frame_sequence;
        model_version = if is_empty m.model_version then none else some m.model_version;
        detections = found;
      }
      ∷ []

  -- One round of the loop over the rules: the rule's state, the next id and the alert.
  pub process_rule :
      {G : Type 0}
      → AlertManager F
      → Request F G
      → ℕ
      → ℕ
      → RuleState F
      → RuleState F × ℕ × List (AlertEvent F G)
  unfolding kept_path event_of
  process_rule m request index next_id state =
      let found = matching request state.rule request.detections in
      let path = kept_path m request index in
      let result = advance (not (is_empty found)) request.monotonic_time (is_some path) state in
      elim result.0 [
        | quiet ↦ (result.1, next_id, [])
        | not_kept ↦ (result.1, inc64 next_id, [])
        | raised ↦ (result.1, inc64 next_id, event_of m request index next_id path found)
      ]

  pub process_rules :
      {G : Type 0}
      → AlertManager F
      → Request F G
      → ℕ
      → ℕ
      → List (RuleState F)
      → List (RuleState F) × ℕ × List (AlertEvent F G)
  process_rules m request index next_id [] = ([], next_id, [])
  process_rules m request index next_id (state ∷ states) =
      let (done, id, alerts) = process_rule m request index next_id state in
      let (rest, last_id, later) = process_rules m request (suc index) id states in
      (done ∷ rest, last_id, alerts ++ later)

  -- The alerts are published in this order.
  pub process : {G : Type 0} → Request F G → AlertManager F → AlertManager F × List (AlertEvent F G)
  unfolding reset_all is_new
  process request m =
      let states =
        if is_new m.detector_generation request.generation then reset_all m.rules else m.rules in
      let (rules, next_id, alerts) = process_rules m request 0 m.next_id states in
      (
        record m {
          rules = rules;
          detector_generation = some request.generation;
          next_id = next_id;
        },
        alerts,
      )
