-- ===== src/Whip/ResourceUrl.antt =====
-- `whip_resource_url` of src/webrtc/whip_policy.cpp: the URL that a 201 answer names for the later
-- DELETE, which carries the token. A string is the list of its bytes.
use skai_edge_native.Common.{
  ℕ, suc, ◌+◌, ◌≡◌, ap, subst, ◌≢◌, sym, ◌∙◌, List, [], ◌∷◌, ◌++◌, Option, none, some, Bool, true,
  false, not, ◌&&◌, arith, ◌==◌, if◌then◌else◌, Bool-cases, Option-cases, inl, inr, take, drop,
  codes, find, find_at, find_last, starts_with, starts_with-append, find-prefix, find_last-none,
  find-split, append_assoc, take-append-drop, take-add, is_some,
}

-- The two messages of `UnrecoverableWhipError`.
pub data UrlError : Type 0 where
  omitted_location : UrlError
  different_origin : UrlError

pub data UrlResult : Type 0 where
  ok : List ℕ → UrlResult
  failed : UrlError → UrlResult

-- `s.substr(0, n)`, where `n` may be `npos`.
abbrev prefix_to : Option ℕ → List ℕ → List ℕ
prefix_to none s = s
prefix_to (some n) s = take n s

-- `s.substr(0, n + 1)`, where `npos + 1` is 0.
abbrev prefix_through : Option ℕ → List ℕ → List ℕ
prefix_through none s = []
prefix_through (some n) s = take (suc n) s

abbrev slash_first : List ℕ → Bool
slash_first [] = false
slash_first (c ∷ s) = c == b'/'

-- `endpoint.substr(0, endpoint.find('/', 8))`.
unfoldable pub origin_of : List ℕ → List ℕ
origin_of endpoint = prefix_to (find_at b'/' 8 endpoint) endpoint

absolute_or_relative : List ℕ → ℕ → List ℕ → UrlResult
absolute_or_relative endpoint c rest =
    if c == b'/' && not (slash_first rest)
    then ok (origin_of endpoint ++ c ∷ rest)
    else if starts_with (origin_of endpoint ++ b'/' ∷ []) (c ∷ rest)
    then ok (c ∷ rest)
    else if not (is_some (find b':' (c ∷ rest))) && not (c == b'/')
    then ok (prefix_through (find_last b'/' endpoint) endpoint ++ c ∷ rest)
    else failed different_origin

unfoldable pub whip_resource_url : List ℕ → List ℕ → UrlResult
unfolding absolute_or_relative
whip_resource_url endpoint [] = failed omitted_location
whip_resource_url endpoint (c ∷ rest) = absolute_or_relative endpoint c rest

-- A URL below an origin.
abbrev pub IsWithin : List ℕ → List ℕ → Type 0
IsWithin origin url = starts_with (origin ++ b'/' ∷ []) url ≡ true

within : (o m : List ℕ) → IsWithin o (o ++ b'/' ∷ m)
within o m = rw (← append_assoc o (b'/' ∷ []) m) (starts_with-append (o ++ b'/' ∷ []) m)

nil-ne-append : (c : ℕ) (o m : List ℕ) → [] ≡ o ++ c ∷ m → ⊥
nil-ne-append c [] m e = cc
nil-ne-append c (x ∷ o) m e = cc

last_slash :
    (c : ℕ) (o rest : List ℕ)
    → (m : List ℕ) × (prefix_through (find_last c (o ++ c ∷ rest)) (o ++ c ∷ rest) ≡ o ++ c ∷ m)
unfolding find_last
last_slash c [] rest = elim (Option-cases (find_last c rest)) [
  | inl e ↦ ([], ground (arith, e))
  | inr (i, e) ↦ (take (suc i) rest, rw e)
]
last_slash c (x ∷ o) rest =
    let (m, h) = last_slash c o rest in
    elim (Option-cases (find_last c (o ++ c ∷ rest))) [
      | inl e ↦ absurd (nil-ne-append c o m (rw e at h))
      | inr (i, e) ↦ (m, rw e (ap (◌∷◌ x) (rw e at h)))
    ]

-- The endpoint as its origin, a slash, and what follows, when it has a slash from byte 8 on.
origin-split :
    (endpoint : List ℕ) (n : ℕ)
    → find_at b'/' 8 endpoint ≡ some n
    → (rest : List ℕ) × (endpoint ≡ origin_of endpoint ++ b'/' ∷ rest)
unfolding find_at origin_of
origin-split endpoint n h = elim (Option-cases (find b'/' (drop 8 endpoint))) [
  | inl e ↦ absurd (ground (arith, e))
  | inr (i, e) ↦
      (drop (suc i) (drop 8 endpoint), rw e (split i (find-split b'/' (drop 8 endpoint) i e)))
]
  where
    split :
        (i : ℕ)
        → drop 8 endpoint ≡ take i (drop 8 endpoint) ++ b'/' ∷ drop (suc i) (drop 8 endpoint)
        → endpoint ≡ take (8 + i) endpoint ++ b'/' ∷ drop (suc i) (drop 8 endpoint)
    split i e = rw (take-add 8 i endpoint, append_assoc, ← e) (sym (take-append-drop 8 endpoint))

-- For an endpoint with a path (a slash after "https://" and the authority), every URL that is
-- accepted lies below the endpoint's own origin, whatever Location the server answers.
pub whip_resource_url-IsWithin :
    (endpoint location url : List ℕ) (n : ℕ)
    → find_at b'/' 8 endpoint ≡ some n
    → whip_resource_url endpoint location ≡ ok url
    → IsWithin (origin_of endpoint) url
unfolding whip_resource_url
whip_resource_url-IsWithin endpoint [] url n h e = ground (arith, e)
whip_resource_url-IsWithin endpoint (c ∷ rest) url n h e =
    let (tail, whole) = origin-split endpoint n h in
    elim (Bool-cases (c == b'/' && not (slash_first rest))) [
      | inl rooted ↦
          subst (IsWithin origin) (ok-injective (rw rooted at e)) (
            subst (λ b. IsWithin origin (origin ++ b ∷ rest)) (slash c rooted) (within origin rest))
      | inr not_rooted ↦ elim (Bool-cases (starts_with (origin ++ b'/' ∷ []) (c ∷ rest))) [
        | inl full ↦ subst (IsWithin origin) (ok-injective (rw (not_rooted, full) at e)) full
        | inr foreign ↦
            elim (Bool-cases (not (is_some (find b':' (c ∷ rest))) && not (c == b'/'))) [
              | inl relative ↦
                  subst (IsWithin origin) (ok-injective (rw (not_rooted, foreign, relative) at e))
                    (sibling tail whole)
              | inr refused ↦ absurd (not_ok (rw (not_rooted, foreign, refused) at e))
            ]
      ]
    ]
  where
    origin : List ℕ
    origin = origin_of endpoint

    slash : (b : ℕ) → (b == b'/' && not (slash_first rest)) ≡ true → b'/' ≡ b
    slash b t = ground arith

    ok-injective : {a b : List ℕ} → ok a ≡ ok b → a ≡ b
    ok-injective t = cc

    not_ok : failed different_origin ≡ ok url → ⊥
    not_ok t = cc

    sibling :
        (tail : List ℕ)
        → endpoint ≡ origin ++ b'/' ∷ tail
        → IsWithin origin (prefix_through (find_last b'/' endpoint) endpoint ++ c ∷ rest)
    sibling tail whole =
        let (m, last) = last_slash b'/' origin tail in
        rw (ap (λ s. prefix_through (find_last b'/' s) s) whole ∙ last, append_assoc)
          (within origin (m ++ c ∷ rest))

-- An endpoint "https://" followed by an authority and no path passes the configuration's checks,
-- and then a relative Location replaces the authority: the accepted URL is "https://" followed by
-- the server's own text, outside the endpoint's origin.
pub whip_resource_url-pathless :
    (authority : List ℕ) (c : ℕ) (rest : List ℕ)
    → find b'/' authority ≡ none
    → find b':' (c ∷ rest) ≡ none
    → c ≢ b'/'
    → whip_resource_url (codes "https://" ++ authority) (c ∷ rest)
      ≡ ok (codes "https://" ++ c ∷ rest)
unfolding whip_resource_url
whip_resource_url-pathless authority c rest h colon slash =
    elim (Bool-cases (starts_with (origin_of endpoint ++ b'/' ∷ []) (c ∷ rest))) [
      | inl full ↦ absurd (scheme (find-prefix b':' _ (c ∷ rest) full colon))
      | inr foreign ↦ rw (foreign, colon, find_last_scheme) (ground arith)
    ]
  where
    endpoint : List ℕ
    endpoint = codes "https://" ++ authority

    origin-endpoint : origin_of endpoint ≡ endpoint
    origin-endpoint = unfold origin_of find_at in rw h

    scheme_in : find b':' (endpoint ++ b'/' ∷ []) ≡ none → ⊥
    scheme_in e = unfold find in cc

    scheme : find b':' (origin_of endpoint ++ b'/' ∷ []) ≡ none → ⊥
    scheme e = scheme_in (rw origin-endpoint at e)

    find_last_scheme : find_last b'/' endpoint ≡ some 7
    find_last_scheme = unfold find_last in rw (find_last-none b'/' authority h)
