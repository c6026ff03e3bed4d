-- ===== src/WebRtc/Manager/Table/Distinct.antt =====
-- The operations on the table of sessions keep its ids distinct, and count.
use skai_edge_native.Common.{
  ℕ, ◌+◌, suc, ◌≡◌, refl, arith, List, [], ◌∷◌, some, Bool, true, false, not, ◌&&◌, length,
}
use skai_edge_native.Media.{EncodedAccessUnit}
use skai_edge_native.WebRtc.Session.{WebRtcSession}
use skai_edge_native.WebRtc.Session.Identity.{id-enqueue}
use skai_edge_native.WebRtc.Manager.Table.{
  has_id, find_session, erase_session, update_session, split_stale, pick_id, enqueue_all,
}

abbrev pub are_distinct : List WebRtcSession → Bool
are_distinct [] = true
are_distinct (s ∷ ss) = not (has_id s.id ss) && are_distinct ss

pub length-erase_session :
    (id : List ℕ) (ss : List WebRtcSession) (s : WebRtcSession)
    → find_session id ss ≡ some s
    → length ss ≡ suc (length (erase_session id ss))
unfolding find_session erase_session
length-erase_session id [] s h = ground arith
length-erase_session id (t ∷ ts) s h = ground (arith, length-erase_session id ts s)

has_id-erase_session :
    (i id : List ℕ) (ss : List WebRtcSession)
    → has_id i ss ≡ false
    → has_id i (erase_session id ss) ≡ false
unfolding has_id erase_session
has_id-erase_session i id [] h = refl
has_id-erase_session i id (t ∷ ts) h = ground (arith, has_id-erase_session i id ts)

pub are_distinct-erase_session :
    (id : List ℕ) (ss : List WebRtcSession)
    → are_distinct ss ≡ true
    → are_distinct (erase_session id ss) ≡ true
unfolding erase_session
are_distinct-erase_session id [] h = refl
are_distinct-erase_session id (t ∷ ts) h =
    ground (arith, has_id-erase_session t.id id ts, are_distinct-erase_session id ts)

module _ (f : WebRtcSession → WebRtcSession) (keeps : (s : WebRtcSession) → (f s).id ≡ s.id) where
  pub length-update_session :
      (id : List ℕ) (ss : List WebRtcSession) → length (update_session f id ss) ≡ length ss
  unfolding update_session
  length-update_session id [] = refl
  length-update_session id (t ∷ ts) = ground (arith, length-update_session id ts)

  has_id-update_session :
      (i id : List ℕ) (ss : List WebRtcSession) → has_id i (update_session f id ss) ≡ has_id i ss
  unfolding has_id update_session
  has_id-update_session i id [] = refl
  has_id-update_session i id (t ∷ ts) = ground (arith, keeps t, has_id-update_session i id ts)

  pub are_distinct-update_session :
      (id : List ℕ) (ss : List WebRtcSession)
      → are_distinct (update_session f id ss) ≡ are_distinct ss
  unfolding update_session
  are_distinct-update_session id [] = refl
  are_distinct-update_session id (t ∷ ts) =
      ground (arith, keeps t, has_id-update_session t.id id ts, are_distinct-update_session id ts)

pub length-split_stale :
    (now timeout : ℕ) (ss : List WebRtcSession)
    → length ss ≡ length (split_stale now timeout ss).0 + length (split_stale now timeout ss).1
unfolding split_stale
length-split_stale now timeout [] = omega arith
length-split_stale now timeout (t ∷ ts) = ground (arith, length-split_stale now timeout ts)

has_id-split_stale :
    (i : List ℕ) (now timeout : ℕ) (ss : List WebRtcSession)
    → has_id i ss ≡ false
    → has_id i (split_stale now timeout ss).0 ≡ false
unfolding has_id split_stale
has_id-split_stale i now timeout [] h = refl
has_id-split_stale i now timeout (t ∷ ts) h = ground (arith, has_id-split_stale i now timeout ts)

pub are_distinct-split_stale :
    (now timeout : ℕ) (ss : List WebRtcSession)
    → are_distinct ss ≡ true
    → are_distinct (split_stale now timeout ss).0 ≡ true
unfolding split_stale
are_distinct-split_stale now timeout [] h = refl
are_distinct-split_stale now timeout (t ∷ ts) h =
    ground (arith, has_id-split_stale t.id now timeout ts, are_distinct-split_stale now timeout ts)

pub has_id-pick_id :
    (ids : List (List ℕ)) (ss : List WebRtcSession) (id : List ℕ)
    → pick_id ids ss ≡ some id
    → has_id id ss ≡ false
unfolding pick_id
has_id-pick_id [] ss id h = ground arith
has_id-pick_id (i ∷ ids) ss id h = ground (arith, has_id-pick_id ids ss id)

pub length-enqueue_all :
    (unit : EncodedAccessUnit) (ss : List WebRtcSession) → length (enqueue_all unit ss) ≡ length ss
unfolding enqueue_all
length-enqueue_all unit [] = refl
length-enqueue_all unit (t ∷ ts) = ground (arith, length-enqueue_all unit ts)

has_id-enqueue_all :
    (i : List ℕ) (unit : EncodedAccessUnit) (ss : List WebRtcSession)
    → has_id i (enqueue_all unit ss) ≡ has_id i ss
unfolding has_id enqueue_all
has_id-enqueue_all i unit [] = refl
has_id-enqueue_all i unit (t ∷ ts) = ground (arith, id-enqueue unit t, has_id-enqueue_all i unit ts)

pub are_distinct-enqueue_all :
    (unit : EncodedAccessUnit) (ss : List WebRtcSession)
    → are_distinct (enqueue_all unit ss) ≡ are_distinct ss
unfolding enqueue_all
are_distinct-enqueue_all unit [] = refl
are_distinct-enqueue_all unit (t ∷ ts) =
    ground
      (arith, id-enqueue unit t, has_id-enqueue_all t.id unit ts, are_distinct-enqueue_all unit ts)

-- The operations on an empty table leave it empty.
pub erase_session-nil : (id : List ℕ) → erase_session id [] ≡ []
unfolding erase_session
erase_session-nil id = refl

pub update_session-nil :
    (f : WebRtcSession → WebRtcSession) (id : List ℕ) → update_session f id [] ≡ []
unfolding update_session
update_session-nil f id = refl

pub split_stale-nil : (now timeout : ℕ) → split_stale now timeout [] ≡ ([], [])
unfolding split_stale
split_stale-nil now timeout = refl

pub enqueue_all-nil : (unit : EncodedAccessUnit) → enqueue_all unit [] ≡ []
unfolding enqueue_all
enqueue_all-nil unit = refl
