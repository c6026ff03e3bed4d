-- ===== src/Web/Router/Alerts.antt =====
-- The routes of src/web/router.cpp under /api/v1/alerts, and the replies that all routes share.
pub mod Limit
use skai_edge_native.Common.{
  ℕ, zero, List, [], ◌∷◌, ◌++◌, Option, none, some, is_some, Bool, true, false, not, ◌&&◌, ◌||◌,
  eqb, ltb, ◌==◌, if◌then◌else◌, codes, find_at, drop, length, starts_with, ℤ,
}
use skai_edge_native.Alerts.{AlertEvent}
use skai_edge_native.Api.Gps.{GpsFix}
use skai_edge_native.Web.Json.{Node, value, text, array, object, line, json_bool, no_items}
use skai_edge_native.Web.Router.Query.{
  Parameters, lookup, query_parameters, parse_size, parse_int64,
}
use skai_edge_native.Web.Router.Documents.{members_of}
use skai_edge_native.Web.Router.Documents.Streamed.{alert_json, alerts_json}

-- A response: its status, the `Content-Type`, `Cache-Control`, `Allow` and `Location` that are set,
-- and the body.
pub record Reply : Type 0 where
  pub status : ℕ
  pub content_type : List ℕ
  pub cache_control : List ℕ
  pub allow : List ℕ
  pub location : List ℕ
  pub body : List ℕ

-- `json_response`.
unfoldable pub json_reply : ℕ → List ℕ → Reply
json_reply status body = record {
  status = status;
  content_type = codes "application/json";
  cache_control = codes "no-store";
  allow = [];
  location = [];
  body = body;
}

-- A response with the body `{"error":...}`.
unfoldable pub error_reply : ℕ → List ℕ → Reply
unfolding json_reply
error_reply status message =
    json_reply status (line (object (members_of (("error", text message) ∷ []))))

-- The queries of `AlertRepository`; the text is the error, which is empty when there is none.
pub record AlertRepository (F : Type 0) : Type 0 where
  pub find_by_id : List ℕ → Option (AlertEvent F (GpsFix F)) × List ℕ
  pub find_recent : ℕ → List (AlertEvent F (GpsFix F)) × List ℕ
  pub find_by_time_range : ℤ → ℤ → ℕ → List (AlertEvent F (GpsFix F)) × List ℕ
  pub find_by_class : List ℕ → ℕ → List (AlertEvent F (GpsFix F)) × List ℕ

-- Whether a text is not empty.
abbrev pub has_text : List ℕ → Bool
has_text [] = false
has_text (c ∷ cs) = true

abbrev list_path : List ℕ
list_path = codes "/api/v1/alerts"

abbrev item_prefix : List ℕ
item_prefix = codes "/api/v1/alerts/"

unfoldable pub alert_route : List ℕ → Bool
alert_route path =
    eqb path list_path
    || (starts_with item_prefix path
        && (ltb (length item_prefix) (length path)
            && not (is_some (find_at 47 (length item_prefix) path))))

-- The query of a list, with its limit, or the text of a bad request.
pub data Query : Type 0 where
  recent : ℕ → Query
  by_class : List ℕ → ℕ → Query
  by_range : ℤ → ℤ → ℕ → Query
  refused : List ℕ → Query

abbrev in_range : ℕ → Option ℕ
in_range limit = if limit == 0 || ltb 1000 limit then none else some limit

abbrev checked : Option ℕ → Option ℕ
checked none = none
checked (some limit) = in_range limit

-- The limit, by the parameter; `none` is a bad one.
pub limit_of : Option (List ℕ) → Option ℕ
limit_of none = some 100
limit_of (some digits) = checked (parse_size digits)

-- The time range.
abbrev range_query : Option ℤ → Option ℤ → ℕ → Query
range_query (some low) (some high) limit = by_range low high limit
range_query (some low) none limit = refused (codes "invalid time range")
range_query none high limit = refused (codes "invalid time range")

-- The filters `from`, `to` and `class`.
pub filtered : Option (List ℕ) → Option (List ℕ) → Option (List ℕ) → ℕ → Query
filtered none none none limit = recent limit
filtered none none (some name) limit = by_class name limit
filtered (some low) (some high) none limit = range_query (parse_int64 low) (parse_int64 high) limit
filtered (some low) (some high) (some name) limit = refused (codes "invalid alert filters")
filtered (some low) none name limit = refused (codes "invalid alert filters")
filtered none (some high) name limit = refused (codes "invalid alert filters")

abbrev with_limit : Option ℕ → Parameters → Query
with_limit none parameters = refused (codes "invalid limit")
with_limit (some limit) parameters =
    filtered (lookup (codes "from") parameters) (lookup (codes "to") parameters)
      (lookup (codes "class") parameters) limit

pub query_of : Option Parameters → Query
unfolding limit_of filtered
query_of none = refused (codes "invalid query encoding")
query_of (some parameters) = with_limit (limit_of (lookup (codes "limit") parameters)) parameters

-- The route of the list up to the call of the repository.
pub alert_query : List ℕ → Query
unfolding query_of
alert_query target = query_of (query_parameters target)

module _ {F : Type 0} (number : ℕ → F → List ℕ) where
  -- The answer of a list, by the error text.
  pub list_reply : List (AlertEvent F (GpsFix F)) × List ℕ → Reply
  unfolding json_reply error_reply
  list_reply (found, e) =
      if has_text e then error_reply 500 e else json_reply 200 (alerts_json number found)

  pub run_query : AlertRepository F → Query → Reply
  unfolding list_reply error_reply
  run_query repository (recent limit) = list_reply (repository.find_recent limit)
  run_query repository (by_class name limit) = list_reply (repository.find_by_class name limit)
  run_query repository (by_range low high limit) =
      list_reply (repository.find_by_time_range low high limit)
  run_query repository (refused message) = error_reply 400 message

  pub item_reply : Option (AlertEvent F (GpsFix F)) × List ℕ → Reply
  unfolding json_reply error_reply
  item_reply (none, e) =
      if has_text e then error_reply 500 e else error_reply 404 (codes "alert not found")
  item_reply (some alert, e) =
      if has_text e then error_reply 500 e else json_reply 200 (alert_json number alert (10 ∷ []))

  -- The branch of the alert routes.
  pub alert_reply : Option (AlertRepository F) → List ℕ → List ℕ → Reply
  unfolding json_reply item_reply run_query alert_query
  alert_reply none path target =
      json_reply 503 (
        line
          (object (members_of (("available", json_bool false) ∷ ("items", array no_items) ∷ []))))
  alert_reply (some repository) path target =
      if eqb path list_path
      then run_query repository (alert_query target)
      else item_reply (repository.find_by_id (drop 15 path))
