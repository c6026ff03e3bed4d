-- ===== src/Web/HttpSession/Tests.antt =====
-- Concrete runs, and instances of the theorems on them.
use skai_edge_native.Common.{◌≡◌, refl, [], ◌∷◌, none, some, true, false, ◌&&◌, if◌then◌else◌}
use skai_edge_native.WebRtc.Manager.{close_session}
use skai_edge_native.WebRtc.Manager.State.{WebRtcManager, no_error}
use skai_edge_native.Web.Router.Replies.{CreateSessionResult, session_reply}
use skai_edge_native.Web.HttpSession.{Signaling, make_signaling, enter, pending_session_id, on_sent}
use skai_edge_native.Web.HttpSession.Jobs.{begins, follows, enters, IsLimited, Reached-IsLimited}
use skai_edge_native.Web.HttpSession.Handover.{is_created, on_sent-session_reply}

-- With one viewer the second request is refused.
abbrev first : Signaling
first = (enter (make_signaling 1)).1

second_refused : (enter first).0 ≡ false
unfolding enter make_signaling
second_refused = refl

first_free : (make_signaling 1).refusing ≡ 0
unfolding make_signaling
first_free = refl

second_free : first.refusing ≡ 0
unfolding enter make_signaling
second_free = refl

Reached-IsLimited_example : IsLimited (enter first).1
Reached-IsLimited_example = Reached-IsLimited 1 (enter first).1 (
    follows first (enter first).1
      (follows (make_signaling 1) first begins (enters (make_signaling 1) first_free))
      (enters first second_free))

abbrev manager : WebRtcManager
manager = record {
  connection_timeout = 0;
  timeout_overridden = false;
  sessions = [];
  recently_closed = [];
  latest_keyframe = none;
  max_peers = 1;
  media_queue_capacity = 4;
  sessions_created = 0;
  sessions_closed = 0;
  signaling_errors = 0;
  last_close_reason = [];
  media_unavailable_reason = [];
  enabled = true;
  media_available = true;
  stopping = false;
}

abbrev created : CreateSessionResult
created = record { outcome = no_error; session_id = 97 ∷ 98 ∷ []; answer_sdp = []; message = [] }

on_sent-session_reply_example :
    on_sent true (pending_session_id (session_reply created)) (some manager)
    ≡ some (
        if true && is_created created.outcome
        then (close_session created.session_id manager).1
        else manager)
on_sent-session_reply_example = on_sent-session_reply true created 97 (98 ∷ []) manager refl
