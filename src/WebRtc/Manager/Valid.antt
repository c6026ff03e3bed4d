-- ===== src/WebRtc/Manager/Valid.antt =====
-- Each operation of the manager keeps its state coherent.
use skai_edge_native.Common.{
  ℕ, ◌+◌, ◌%◌, ◌^◌, ◌≤◌, ◌≡◌, refl, arith, List, Option, none, some, Bool, true, false, not, ◌&&◌,
  codes, inc64, suc, length,
}
use skai_edge_native.Media.{EncodedAccessUnit}
use skai_edge_native.WebRtc.Session.{WebRtcSession, close_with_reason, activate_media}
use skai_edge_native.WebRtc.Session.Identity.{
  id-new_session, id-close_with_reason, id-activate_media,
}
use skai_edge_native.WebRtc.Manager.State.{WebRtcManager}
use skai_edge_native.WebRtc.Manager.State.Valid.{
  IsCoherent, remember_closed-IsCoherent, remember_all-IsCoherent, enabled-remember_all,
}
use skai_edge_native.WebRtc.Manager.Table.{
  has_id, find_session, erase_session, update_session, with_reason, split_stale, pick_id,
}
use skai_edge_native.WebRtc.Manager.Table.Distinct.{
  length-erase_session, are_distinct-erase_session, length-update_session,
  are_distinct-update_session, length-split_stale, are_distinct-split_stale, has_id-pick_id,
  length-enqueue_all, are_distinct-enqueue_all, erase_session-nil, update_session-nil,
  split_stale-nil,
}
use skai_edge_native.WebRtc.Manager.{
  close_all, shutdown, configure, cleanup_stale_sessions, close_session, Creation, creates,
  creates_nothing, reserve, reject, insert_new, close_found, reject_found, admit_found,
  activate_found, publish_access_unit, set_media_available,
}

close_all-IsCoherent :
    (reason : List ℕ) (m : WebRtcManager)
    → m.stopping ≡ not m.enabled
    → length m.recently_closed ≤ 16
    → m.sessions_created ≡ (m.sessions_closed + length m.sessions) % 2 ^ 64
    → IsCoherent (close_all reason m)
unfolding close_all
close_all-IsCoherent reason m stopped recent balance =
    remember_all-IsCoherent (with_reason reason m.sessions) _ (ground arith)

pub shutdown-IsCoherent : (m : WebRtcManager) → IsCoherent m → IsCoherent (shutdown m)
unfolding shutdown
shutdown-IsCoherent m v = close_all-IsCoherent _ _ refl v.recent v.balance

enabled-shutdown : (m : WebRtcManager) → (shutdown m).enabled ≡ false
unfolding shutdown close_all
enabled-shutdown m = enabled-remember_all _ _

pub configure-IsCoherent :
    (enabled : Bool) (max_peers queue_capacity timeout : ℕ) (m : WebRtcManager)
    → IsCoherent m
    → IsCoherent (configure enabled max_peers queue_capacity timeout m)
unfolding configure
configure-IsCoherent enabled max_peers queue_capacity timeout m v =
    ground (arith, shutdown-IsCoherent m v, enabled-shutdown m)

pub set_media_available-IsCoherent :
    (available : Bool) (reason : List ℕ) (m : WebRtcManager)
    → IsCoherent m
    → IsCoherent (set_media_available available reason m)
unfolding set_media_available
set_media_available-IsCoherent true reason m v = ground arith
set_media_available-IsCoherent false reason m v =
    let off = record m { media_available = false; media_unavailable_reason = reason } in
    ground (
      arith,
      close_all-IsCoherent (codes "source_media_unavailable") off v.stopped v.recent v.balance,
    )

pub cleanup-IsCoherent :
    (now : ℕ) (m : WebRtcManager) → IsCoherent m → IsCoherent (cleanup_stale_sessions now m).1
unfolding cleanup_stale_sessions
cleanup-IsCoherent now m v =
    remember_all-IsCoherent (split_stale now m.connection_timeout m.sessions).1 _ (
      ground (
        arith,
        split_stale-nil now m.connection_timeout,
        length-split_stale now m.connection_timeout m.sessions,
        are_distinct-split_stale now m.connection_timeout m.sessions,
      ))

-- One session leaves the table.
erase-IsCoherent :
    (id reason : List ℕ) (s : WebRtcSession) (m : WebRtcManager)
    → find_session id m.sessions ≡ some s
    → IsCoherent m
    → IsCoherent (record m {
      sessions = erase_session id m.sessions;
      sessions_closed = inc64 m.sessions_closed;
      last_close_reason = reason;
    })
erase-IsCoherent id reason s m found v = ground (
  arith,
  erase_session-nil id,
  length-erase_session id m.sessions s found,
  are_distinct-erase_session id m.sessions,
)

close_found-IsCoherent :
    (id : List ℕ) (o : Option WebRtcSession) (reason : List ℕ) (m : WebRtcManager)
    → find_session id m.sessions ≡ o
    → IsCoherent m
    → IsCoherent (close_found id o reason m).1
unfolding close_found
close_found-IsCoherent id none reason m found v = v
close_found-IsCoherent id (some s) reason m found v =
    remember_closed-IsCoherent reason s _ (erase-IsCoherent id reason s m found v)

pub close_session-IsCoherent :
    (id : List ℕ) (m : WebRtcManager) → IsCoherent m → IsCoherent (close_session id m).1
unfolding close_session
close_session-IsCoherent id m v = close_found-IsCoherent id _ _ m refl v

reject_found-IsCoherent :
    (o : Option WebRtcSession) (id message : List ℕ) (m : WebRtcManager)
    → find_session id m.sessions ≡ o
    → IsCoherent m
    → IsCoherent (reject_found o id message m)
unfolding reject_found
reject_found-IsCoherent none id message m found v = v
reject_found-IsCoherent (some s) id message m found v =
    remember_closed-IsCoherent _ _ _ (erase-IsCoherent id (codes "signaling_failure") s m found v)

pub reject-IsCoherent :
    (id message : List ℕ) (m : WebRtcManager) → IsCoherent m → IsCoherent (reject id message m)
unfolding reject
reject-IsCoherent id message m v = reject_found-IsCoherent _ id message _ refl (ground arith)

-- A session changes, not its id.
pub update-IsCoherent :
    (f : WebRtcSession → WebRtcSession) (keeps : (s : WebRtcSession) → (f s).id ≡ s.id)
    (id : List ℕ) (m : WebRtcManager)
    → IsCoherent m
    → IsCoherent (record m { sessions = update_session f id m.sessions })
update-IsCoherent f keeps id m v = ground (
  arith,
  update_session-nil f id,
  length-update_session f keeps id m.sessions,
  are_distinct-update_session f keeps id m.sessions,
)

pub admit_found-IsCoherent :
    (o : Option WebRtcSession) (serial : ℕ) (id : List ℕ) (m : WebRtcManager)
    → IsCoherent m
    → IsCoherent (admit_found o serial id m).1
unfolding admit_found
admit_found-IsCoherent none serial id m v = v
admit_found-IsCoherent (some s) serial id m v = ground (
  arith,
  update-IsCoherent (close_with_reason (codes "session_closed"))
      (id-close_with_reason (codes "session_closed")) id m v,
)

pub activate_found-IsCoherent :
    (o : Option WebRtcSession) (serial : ℕ) (id : List ℕ) (initial : Option EncodedAccessUnit)
    (launches : Bool) (m : WebRtcManager)
    → IsCoherent m
    → IsCoherent (activate_found o serial id initial launches m).1
unfolding activate_found
activate_found-IsCoherent none serial id initial launches m v = close_session-IsCoherent id m v
activate_found-IsCoherent (some s) serial id initial launches m v = ground (
  arith,
  close_session-IsCoherent id m v,
  update-IsCoherent (λ t. (activate_media launches initial t).1)
      (id-activate_media launches initial) id m v,
)

insert_new-IsCoherent :
    (o : Option (List ℕ)) (creation : Creation) (now : ℕ) (m : WebRtcManager)
    → ((id : List ℕ) → o ≡ some id → has_id id m.sessions ≡ false)
    → suc (length m.sessions) ≤ m.max_peers
    → m.enabled && m.media_available ≡ true
    → IsCoherent m
    → IsCoherent (insert_new o creation now m).1
unfolding insert_new
insert_new-IsCoherent none creation now m fresh room on v = v
insert_new-IsCoherent (some id) creates_nothing now m fresh room on v = ground arith
insert_new-IsCoherent (some id) (creates serial queue) now m fresh room on v =
    ground (arith, fresh id refl, id-new_session serial id queue now)

pub reserve-IsCoherent :
    (offer_is_empty : Bool) (ids : List (List ℕ)) (creation : Creation) (now : ℕ)
    (m : WebRtcManager)
    → IsCoherent m
    → IsCoherent (reserve offer_is_empty ids creation now m).1
unfolding reserve
reserve-IsCoherent offer_is_empty ids creation now m v =
    let clean = (cleanup_stale_sessions now m).1 in
    ground (
      arith,
      cleanup-IsCoherent now m v,
      insert_new-IsCoherent (pick_id ids clean.sessions) creation now clean
          (has_id-pick_id ids clean.sessions),
    )

pub publish-IsCoherent :
    (unit : EncodedAccessUnit) (m : WebRtcManager)
    → IsCoherent m
    → IsCoherent (publish_access_unit unit m)
unfolding publish_access_unit
publish-IsCoherent unit m v =
    ground (arith, length-enqueue_all unit m.sessions, are_distinct-enqueue_all unit m.sessions)
