-- ===== src/Sei/Json/Tests.antt =====
-- The payload of concrete results.
use skai_edge_native.Common.{◌≡◌, refl, ℤ, pos, negsuc, [], ◌∷◌, codes}
use skai_edge_native.Sei.Json.{
  SeiBox, decimal_loop, decimal, strip_zeros, padded, append_scaled, append_number, string_char,
  string_chars, append_string, joined, box_json, boxes_json, result_json, results_json,
  detection_sei_json,
}

abbrev person : SeiBox ℤ
person = record {
  x = pos 1234;
  y = pos 5000;
  w = pos 10000;
  h = pos 50;
  class_name = codes "a\"b";
  score = negsuc 12999;
}

one_result_text :
    detection_sei_json
      (λ n. n)
      (record { dt = 90; boxes = person ∷ person ∷ [] } ∷ record { dt = 0; boxes = [] } ∷ [])
    ≡ codes
        "{\"v\":1,\"r\":[{\"dt\":90,\"b\":[[0.1234,0.5,1,0.005,\"a\\\"b\",-1.3],[0.1234,0.5,1,0.005,\"a\\\"b\",-1.3]]},{\"dt\":0,\"b\":[]}]}"
unfolding detection_sei_json results_json result_json boxes_json box_json joined append_string
    string_chars string_char append_number append_scaled padded strip_zeros decimal decimal_loop
one_result_text = refl
