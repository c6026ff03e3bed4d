-- ===== src/Config/Tests.antt =====
-- A concrete configuration file, and instances of the theorems on it. `double` is a number of
-- thousandths here, and addresses are never numeric.
use Prim.Native.String.{String}
use skai_edge_native.Common.{
  ℕ, ◌*◌, ◌≡◌, refl, List, [], ◌∷◌, none, some, true, false, ltb, leb, eqb, if◌then◌else◌, codes,
  pos, find, find_last, starts_with,
}
use skai_edge_native.Config.{Library, default_rule, default_config}
use skai_edge_native.Config.Outcome.{fine, throws, text}
use skai_edge_native.Config.Hosts.{
  read_digits, from_chars, valid_port, one_of, find_first_of, all_of, label_bytes, last_alnum,
  valid_label, labels_loop, valid_hostname, named, host_port_valid, only_at, valid_rtsp_authority,
}
use skai_edge_native.Config.Hosts.Labels.{all_valid, split_dots, valid_hostname_lem}
use skai_edge_native.Config.Document.{
  Node, null, scalar, sequence, mapping, no_node, node, Entries, no_entry, entry, is_among,
  field_name, check_entries, check_keys, find_entry, lookup, converted, read_field, read_scalar,
}
use skai_edge_native.Config.Validate.{
  authority, valid_rtsp_url, validate_video, validate_parts, validate_roi, validate_alert,
  validate_alerts, validate_gps, validate_interfaces, validate_webrtc, validate_whip, validate,
}
use skai_edge_native.Config.Validate.Usable.{IsUsable}
use skai_edge_native.Config.Parse.{video_section, parse_sections, parse, result_of, parse_config}
use skai_edge_native.Config.Parse.Accepted.{parse_config-IsUsable}
use skai_edge_native.Config.Parse.Sections.{
  optional, parse_video, parse_rule, parse_rules, parse_alerts, parse_webrtc,
}

abbrev value_of : List ℕ → ℕ
value_of digits = elim (from_chars digits) [ none ↦ 0 | some (n, rest) ↦ n ]

abbrev thousandths : Library ℕ
thousandths = record {
  is_finite = λ a. true;
  float_leb = leb;
  float_ltb = ltb;
  float_abs = λ a. a;
  literal = λ s. if eqb (codes s) (codes "1") then 1000 else 0;
  as_int = λ bytes. some (pos (value_of bytes));
  as_bool = λ bytes. some (eqb bytes (codes "true"));
  as_double = λ bytes. some (value_of bytes * 1000);
  as_uint64 = λ bytes. some (value_of bytes);
  inet_pton4 = λ bytes. false;
  inet_pton6 = λ bytes. false;
  default_root = codes "web";
}

abbrev pair : String → Node → Entries → Entries
pair key value rest = entry (scalar (codes key)) value rest

abbrev words : String → Node
words s = scalar (codes s)

abbrev document : Node
document = mapping (
    pair "video" (mapping (pair "rtsp_url" (words "rtsp://cam.local:8554/main") no_entry)) (
      pair "webrtc" (mapping (pair "max_peers" (words "4") no_entry)) (
        pair "alerts" (sequence (node (mapping (pair "class" (words "person") no_entry)) no_node))
          no_entry)))

accepts : (parse_config thousandths (fine document)).is_ok ≡ true
unfolding parse_config parse parse_sections check_keys check_entries is_among eqb lookup parse_video
    read_scalar optional parse_alerts parse_rule parse_webrtc validate validate_video valid_rtsp_url
    find find_last starts_with converted find_entry read_field all_of find_first_of from_chars
    read_digits host_port_valid named one_of only_at label_bytes last_alnum valid_label labels_loop
    valid_hostname valid_port valid_rtsp_authority parse_rules result_of video_section authority
    validate_alert validate_alerts validate_gps validate_interfaces validate_parts validate_roi
    validate_webrtc validate_whip default_config default_rule
accepts = refl

twice :
    check_keys
      (mapping (pair "url" null (pair "url" null no_entry)))
      (codes "whip")
      (codes "url" ∷ [])
    ≡ throws (codes "whip.url is duplicated")
unfolding check_keys check_entries is_among eqb field_name text
twice = refl

parse_config-IsUsable_example : IsUsable (parse_config thousandths (fine document)).config
parse_config-IsUsable_example = parse_config-IsUsable thousandths (fine document) accepts

valid_hostname_lem_example :
    valid_hostname thousandths.inet_pton4 (codes "cam-1.local")
    ≡ all_valid (split_dots (codes "cam-1.local"))
unfolding find all_of one_of
valid_hostname_lem_example = valid_hostname_lem thousandths.inet_pton4 (codes "cam-1.local")
