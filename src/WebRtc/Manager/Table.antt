-- ===== src/WebRtc/Manager/Table.antt =====
-- `WebRtcManager::sessions_` of src/webrtc/webrtc_manager.cpp: the hash map is a list of its values,
-- each of which has its key in `id`; the order is the model's.
pub mod Distinct
use skai_edge_native.Common.{
  ℕ, List, [], ◌∷◌, Option, none, some, Bool, false, ◌||◌, eqb, if◌then◌else◌,
}
use skai_edge_native.Media.{EncodedAccessUnit}
use skai_edge_native.WebRtc.Session.{WebRtcSession, is_empty, enqueue, stale_reason}

-- `sessions_.count(id) != 0`.
pub has_id : List ℕ → List WebRtcSession → Bool
has_id id [] = false
has_id id (s ∷ ss) = eqb s.id id || has_id id ss

-- `sessions_.find(id)`.
pub find_session : List ℕ → List WebRtcSession → Option WebRtcSession
find_session id [] = none
find_session id (s ∷ ss) = let rest = find_session id ss in if eqb s.id id then some s else rest

-- `sessions_.erase(found)`.
pub erase_session : List ℕ → List WebRtcSession → List WebRtcSession
erase_session id [] = []
erase_session id (s ∷ ss) = let rest = erase_session id ss in if eqb s.id id then ss else s ∷ rest

-- A change of the object of a session.
pub update_session :
    (WebRtcSession → WebRtcSession) → List ℕ → List WebRtcSession → List WebRtcSession
update_session f id [] = []
update_session f id (s ∷ ss) =
    let rest = update_session f id ss in if eqb s.id id then f s ∷ ss else s ∷ rest

pub with_reason : List ℕ → List WebRtcSession → List (WebRtcSession × List ℕ)
with_reason reason [] = []
with_reason reason (s ∷ ss) = (s, reason) ∷ with_reason reason ss

-- The loop of `cleanup_stale_sessions`: the sessions kept, and the stale ones with their reasons.
pub split_stale : ℕ → ℕ → List WebRtcSession → List WebRtcSession × List (WebRtcSession × List ℕ)
split_stale now timeout [] = ([], [])
split_stale now timeout (s ∷ ss) =
    let (kept, stale) = split_stale now timeout ss in
    let reason = stale_reason now timeout s in
    if is_empty reason then (s ∷ kept, stale) else (kept, (s, reason) ∷ stale)

abbrev pub last_reason : List ℕ → List (WebRtcSession × List ℕ) → List ℕ
last_reason reason [] = reason
last_reason reason ((s, next) ∷ rest) = last_reason next rest

-- `do id = make_session_id(); while (...)`, over the ids that the random device gives.
pub pick_id : List (List ℕ) → List WebRtcSession → Option (List ℕ)
pick_id [] ss = none
pick_id (id ∷ ids) ss = let next = pick_id ids ss in if has_id id ss then next else some id

-- The loop of `publish_access_unit`.
pub enqueue_all : EncodedAccessUnit → List WebRtcSession → List WebRtcSession
enqueue_all unit [] = []
enqueue_all unit (s ∷ ss) = enqueue unit s ∷ enqueue_all unit ss
