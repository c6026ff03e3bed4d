-- ===== src/Web/Router/Alerts/Limit.antt =====
-- The limit of a list of alerts.
use skai_edge_native.Common.{
  ℕ, ◌≡◌, refl, List, Option, none, some, Bool, true, arith, codes, leb, ◌&&◌, Option-cases, inl,
  inr, ℤ,
}
use skai_edge_native.Web.Router.Query.{
  Parameters, query_parameters, lookup, parse_size, parse_int64,
}
use skai_edge_native.Web.Router.Alerts.{
  Query, recent, by_class, by_range, refused, limit_of, filtered, query_of, alert_query,
  range_query,
}

-- What a query that reaches the repository asks for: between 1 and 1000 alerts.
abbrev pub is_limited : Query → Bool
is_limited (recent limit) = leb 1 limit && leb limit 1000
is_limited (by_class name limit) = leb 1 limit && leb limit 1000
is_limited (by_range low high limit) = leb 1 limit && leb limit 1000
is_limited (refused message) = true

limit_of-bounds :
    (text : Option (List ℕ)) (limit : ℕ)
    → limit_of text ≡ some limit
    → (leb 1 limit && leb limit 1000) ≡ true
unfolding limit_of
limit_of-bounds none limit h = ground arith
limit_of-bounds (some digits) limit h = elim (Option-cases (parse_size digits)) [
  | inl e ↦ ground (arith, e)
  | inr (n, e) ↦ ground (arith, e)
]

is_limited-range :
    (low high : Option ℤ) (limit : ℕ)
    → (leb 1 limit && leb limit 1000) ≡ true
    → is_limited (range_query low high limit) ≡ true
is_limited-range none high limit h = refl
is_limited-range (some low) none limit h = refl
is_limited-range (some low) (some high) limit h = h

is_limited-filtered :
    (low high name : Option (List ℕ)) (limit : ℕ)
    → (leb 1 limit && leb limit 1000) ≡ true
    → is_limited (filtered low high name limit) ≡ true
unfolding filtered
is_limited-filtered none none none limit h = h
is_limited-filtered none none (some name) limit h = h
is_limited-filtered none (some high) name limit h = refl
is_limited-filtered (some low) none name limit h = refl
is_limited-filtered (some low) (some high) none limit h =
    is_limited-range (parse_int64 low) (parse_int64 high) limit h
is_limited-filtered (some low) (some high) (some name) limit h = refl

is_limited-query_of : (values : Option Parameters) → is_limited (query_of values) ≡ true
unfolding query_of
is_limited-query_of none = refl
is_limited-query_of (some values) = elim (Option-cases (limit_of (lookup (codes "limit") values))) [
  | inl e ↦ rw e refl
  | inr (limit, e) ↦ rw e (
      is_limited-filtered (lookup (codes "from") values) (lookup (codes "to") values)
        (lookup (codes "class") values) limit
        (limit_of-bounds (lookup (codes "limit") values) limit e))
]

-- Whatever the target of a request is, the query of the alerts that it makes asks the repository
-- for at least 1 and at most 1000 alerts, or is refused before the repository is asked.
pub is_limited-alert_query : (target : List ℕ) → is_limited (alert_query target) ≡ true
unfolding alert_query
is_limited-alert_query target = is_limited-query_of (query_parameters target)
