-- ===== src/Web/Router/Documents/Streamed.antt =====
-- `alert_json` and `alerts_json` of src/web/router.cpp as they are written, piece after piece, before
-- the given bytes.
use skai_edge_native.Common.{
  ℕ, List, [], ◌∷◌, ◌++◌, ◌≡◌, refl, ◌∙◌, ap, Option, none, some, Bool, true, false, if◌then◌else◌,
  codes, ℤ, pos, negsuc, suc,
}
use skai_edge_native.Sei.Json.{decimal}
use skai_edge_native.Events.{json_string}
use skai_edge_native.Alerts.{AlertEvent, AlertDetection}
use skai_edge_native.Api.Gps.{GpsFix}
use skai_edge_native.Web.Json.{
  print, items_of, signed, json_bool, optional, null, text, natural, line,
}
use skai_edge_native.Web.Router.Documents.{
  alert_detection_document, alert_gps_document, alert_document, alerts_document,
}

abbrev bool_text : Bool → List ℕ
bool_text b = if b then codes "true" else codes "false"

abbrev signed_text : ℤ → List ℕ
signed_text (pos n) = decimal n
signed_text (negsuc n) = codes "-" ++ decimal (suc n)

pub version_text : Option (List ℕ) → List ℕ → List ℕ
version_text none rest = codes "null" ++ rest
version_text (some version) rest = json_string version ++ rest

module _ {F : Type 0} (number : ℕ → F → List ℕ) where
  -- One detection of the loop.
  pub detection_text : AlertDetection F → List ℕ → List ℕ
  detection_text d rest =
      codes "{\"class_id\":"
      ++ (signed_text d.class_id
          ++ (codes ",\"class_name\":"
              ++ (json_string d.class_name
                  ++ (codes ",\"confidence\":"
                      ++ (number 17 d.confidence
                          ++ (codes ",\"box\":["
                              ++ (number 17 d.x1
                                  ++ (codes ","
                                      ++ (number 17 d.y1
                                          ++ (codes ","
                                              ++ (number 17 d.x2
                                                  ++ (codes ","
                                                      ++ (number 17 d.y2
                                                          ++ (codes "]}" ++ rest))))))))))))))

  pub detection_texts : Bool → List (AlertDetection F) → List ℕ → List ℕ
  detection_texts first [] rest = rest
  detection_texts first (d ∷ ds) rest =
      (if first then [] else codes ",") ++ detection_text d (detection_texts false ds rest)

  pub gps_text : Option (GpsFix F) → List ℕ → List ℕ
  gps_text none rest = codes "null" ++ rest
  gps_text (some fix) rest =
      codes "{\"valid\":"
      ++ (bool_text fix.valid
          ++ (codes ",\"source\":"
              ++ (json_string fix.source
                  ++ (codes ",\"latitude\":"
                      ++ (number 17 fix.latitude
                          ++ (codes ",\"longitude\":"
                              ++ (number 17 fix.longitude
                                  ++ (codes ",\"altitude_m\":"
                                      ++ (number 17 fix.altitude_m ++ (codes "}" ++ rest))))))))))

  pub alert_json : AlertEvent F (GpsFix F) → List ℕ → List ℕ
  unfolding detection_texts gps_text version_text
  alert_json alert rest =
      codes "{\"id\":"
      ++ (json_string alert.id
          ++ (codes ",\"timestamp_ms\":"
              ++ (decimal alert.timestamp_ms
                  ++ (codes ",\"gps\":"
                      ++ gps_text alert.gps (
                          codes ",\"snapshot_path\":"
                          ++ (json_string alert.snapshot_path
                              ++ (codes ",\"frame_sequence\":"
                                  ++ (decimal alert.frame_sequence
                                      ++ (codes ",\"model_version\":"
                                          ++ version_text alert.model_version (
                                              codes ",\"detections\":["
                                              ++ detection_texts true alert.detections
                                                  (codes "]}" ++ rest)))))))))))

  pub alert_texts : Bool → List (AlertEvent F (GpsFix F)) → List ℕ → List ℕ
  unfolding alert_json
  alert_texts first [] rest = rest
  alert_texts first (alert ∷ alerts) rest =
      (if first then [] else codes ",") ++ alert_json alert (alert_texts false alerts rest)

  pub alerts_json : List (AlertEvent F (GpsFix F)) → List ℕ
  unfolding alert_texts
  alerts_json alerts =
      codes "{\"available\":true,\"items\":[" ++ alert_texts true alerts (codes "]}\n")

module _ {F : Type 0} (number : ℕ → F → List ℕ) where
  signed_text-print : (n : ℤ) (rest : List ℕ) → signed_text n ++ rest ≡ print true (signed n) rest
  unfolding print signed
  signed_text-print (pos n) rest = refl
  signed_text-print (negsuc n) rest = refl

  bool_text-print : (b : Bool) (rest : List ℕ) → bool_text b ++ rest ≡ print true (json_bool b) rest
  unfolding print json_bool
  bool_text-print true rest = refl
  bool_text-print false rest = refl

  detection_text-print :
      (d : AlertDetection F) (rest : List ℕ)
      → detection_text number d rest ≡ print true (alert_detection_document number d) rest
  unfolding detection_text print alert_detection_document items_of
  detection_text-print d rest =
      ap (λ x. codes "{\"class_id\":" ++ x) (signed_text-print d.class_id _)

  gps_text-print :
      (fix : Option (GpsFix F)) (rest : List ℕ)
      → gps_text number fix rest ≡ print true (optional (alert_gps_document number) fix) rest
  unfolding gps_text print alert_gps_document optional null
  gps_text-print none rest = refl
  gps_text-print (some fix) rest = ap (λ x. codes "{\"valid\":" ++ x) (bool_text-print fix.valid _)

  version_text-print :
      (version : Option (List ℕ)) (rest : List ℕ)
      → version_text version rest ≡ print true (optional text version) rest
  unfolding version_text print optional null
  version_text-print none rest = refl
  version_text-print (some version) rest = refl

  detection_texts-print :
      (first : Bool) (ds : List (AlertDetection F)) (rest : List ℕ)
      → detection_texts number first ds (codes "]" ++ rest)
        ≡ print first (items_of (alert_detection_document number) ds) rest
  unfolding detection_texts print items_of
  detection_texts-print first [] rest = refl
  detection_texts-print true (d ∷ ds) rest =
      detection_text-print d (detection_texts number false ds (codes "]" ++ rest))
      ∙ ap (λ x. print true (alert_detection_document number d) x)
          (detection_texts-print false ds rest)
  detection_texts-print false (d ∷ ds) rest =
      ap (λ x. codes "," ++ x)
        (detection_text-print d (detection_texts number false ds (codes "]" ++ rest))
          ∙ ap (λ x. print true (alert_detection_document number d) x)
              (detection_texts-print false ds rest))

  -- The pieces of an alert up to its fix, and those between this and its model version.
  abbrev head_text : AlertEvent F (GpsFix F) → List ℕ → List ℕ
  head_text alert rest =
      codes "{\"id\":"
      ++ (json_string alert.id
          ++ (codes ",\"timestamp_ms\":"
              ++ (decimal alert.timestamp_ms ++ (codes ",\"gps\":" ++ rest))))

  abbrev middle_text : AlertEvent F (GpsFix F) → List ℕ → List ℕ
  middle_text alert rest =
      codes ",\"snapshot_path\":"
      ++ (json_string alert.snapshot_path
          ++ (codes ",\"frame_sequence\":"
              ++ (decimal alert.frame_sequence ++ (codes ",\"model_version\":" ++ rest))))

  alert_json-print :
      (alert : AlertEvent F (GpsFix F)) (rest : List ℕ)
      → alert_json number alert rest ≡ print true (alert_document number alert) rest
  unfolding alert_json print alert_document natural
  alert_json-print alert rest =
      ap
        (λ x. head_text alert (
          gps_text number alert.gps (
            middle_text alert (version_text alert.model_version (codes ",\"detections\":[" ++ x)))))
        (detection_texts-print true alert.detections (125 ∷ rest))
      ∙ ap (λ x. head_text alert (gps_text number alert.gps (middle_text alert x)))
          (version_text-print alert.model_version _)
      ∙ ap (λ x. head_text alert x) (gps_text-print alert.gps _)

  alert_texts-print :
      (first : Bool) (alerts : List (AlertEvent F (GpsFix F))) (rest : List ℕ)
      → alert_texts number first alerts (codes "]" ++ rest)
        ≡ print first (items_of (alert_document number) alerts) rest
  unfolding alert_texts print items_of
  alert_texts-print first [] rest = refl
  alert_texts-print true (alert ∷ alerts) rest =
      alert_json-print alert (alert_texts number false alerts (codes "]" ++ rest))
      ∙ ap (λ x. print true (alert_document number alert) x) (alert_texts-print false alerts rest)
  alert_texts-print false (alert ∷ alerts) rest =
      ap (λ x. codes "," ++ x)
        (alert_json-print alert (alert_texts number false alerts (codes "]" ++ rest))
          ∙ ap (λ x. print true (alert_document number alert) x)
              (alert_texts-print false alerts rest))

  pub alerts_json-line :
      (alerts : List (AlertEvent F (GpsFix F)))
      → alerts_json number alerts ≡ line (alerts_document number alerts)
  unfolding alerts_json print alerts_document line items_of json_bool
  alerts_json-line alerts =
      ap (λ x. codes "{\"available\":true,\"items\":[" ++ x)
        (alert_texts-print true alerts (125 ∷ 10 ∷ []))
