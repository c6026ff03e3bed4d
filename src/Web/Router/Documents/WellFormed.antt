-- ===== src/Web/Router/Documents/WellFormed.antt =====
-- The bodies on health and on alerts are JSON, whatever texts are in them.
use skai_edge_native.Common.{ℕ, ◌≡◌, refl, List, [], ◌∷◌, some, true, arith}
use skai_edge_native.Health.{
  HealthSnapshot, HealthComponent, video_source, detector, encoder, recorder, gps, web, webrtc,
  database, all_health_components, health_component_name,
}
use skai_edge_native.Alerts.{AlertEvent, AlertDetection}
use skai_edge_native.Api.Gps.{GpsFix}
use skai_edge_native.Web.Json.{value, literal, text}
use skai_edge_native.Web.Json.Reader.{read, plain, plain_text, clean, size}
use skai_edge_native.Web.Router.Documents.{
  health_components, health_document, health_json, alert_detection_document, alert_gps_document,
  alert_document, alerts_document, full_number,
}
use skai_edge_native.Web.Router.Documents.Streamed.{alerts_json, alerts_json-line}
use skai_edge_native.Web.Json.Plain.{
  plain-natural, plain-signed, plain-json_bool, plain-optional, plain-items_of, read-line,
}

plain-name : (c : HealthComponent) → plain_text (health_component_name c) ≡ true
unfolding health_component_name
plain-name video_source = refl
plain-name detector = refl
plain-name encoder = refl
plain-name recorder = refl
plain-name gps = refl
plain-name web = refl
plain-name webrtc = refl
plain-name database = refl

plain-health_components :
    (health : HealthSnapshot) (cs : List HealthComponent)
    → plain (health_components health cs) ≡ true
unfolding health_components
plain-health_components health [] = refl
plain-health_components health (c ∷ cs) =
    ground (arith, plain-name c, plain-health_components health cs)

plain-health : (health : HealthSnapshot) → plain (health_document health) ≡ true
unfolding health_document
plain-health health = ground (arith, plain-health_components health all_health_components)

-- The body of the health route is read back as the document of the snapshot, with the state and the
-- detail of every component, whatever bytes the details have.
pub read-health_json :
    (health : HealthSnapshot)
    → read value (size (health_document health)) true (health_json health)
      ≡ some (clean (health_document health), 10 ∷ [])
unfolding health_json
read-health_json health = read-line (health_document health) (plain-health health)

module _ {F : Type 0} (number : ℕ → F → List ℕ)
    (is_plain : (p : ℕ) (x : F) → plain (literal (number p x)) ≡ true) where
  plain-detection : (d : AlertDetection F) → plain (alert_detection_document number d) ≡ true
  unfolding alert_detection_document
  plain-detection d = ground (
    arith,
    is_plain 17 d.confidence,
    plain-signed d.class_id,
    plain-items_of (full_number number) (d.x1 ∷ d.y1 ∷ d.x2 ∷ d.y2 ∷ []) (is_plain 17),
  )

  plain-gps : (fix : GpsFix F) → plain (alert_gps_document number fix) ≡ true
  unfolding alert_gps_document
  plain-gps fix = ground (
    arith,
    is_plain 17 fix.latitude,
    is_plain 17 fix.longitude,
    is_plain 17 fix.altitude_m,
    plain-json_bool fix.valid,
  )

  plain-alert : (alert : AlertEvent F (GpsFix F)) → plain (alert_document number alert) ≡ true
  unfolding alert_document
  plain-alert alert = ground (
    arith,
    plain-natural alert.timestamp_ms,
    plain-natural alert.frame_sequence,
    plain-optional (alert_gps_document number) alert.gps plain-gps,
    plain-optional text alert.model_version (λ t. refl),
    plain-items_of (alert_detection_document number) alert.detections plain-detection,
  )

  plain-alerts :
      (alerts : List (AlertEvent F (GpsFix F))) → plain (alerts_document number alerts) ≡ true
  unfolding alerts_document
  plain-alerts alerts =
      ground
        (arith, plain-json_bool true, plain-items_of (alert_document number) alerts plain-alert)

  -- The bytes of the list of alerts, which are written piece after piece, are read by a JSON reader
  -- as the tree with the members of each alert, its fix and its detections, whatever bytes the ids,
  -- paths, class names and versions have but for control characters without a short escape, if the
  -- numbers are printed without structure of JSON.
  pub read-alerts_json :
      (alerts : List (AlertEvent F (GpsFix F)))
      → read value (size (alerts_document number alerts)) true (alerts_json number alerts)
        ≡ some (clean (alerts_document number alerts), 10 ∷ [])
  read-alerts_json alerts =
      rw (alerts_json-line number alerts)
        (read-line (alerts_document number alerts) (plain-alerts alerts))
