-- ===== src/Web/HttpSession/Handover.antt =====
-- A new WebRTC session whose answer does not reach the client is closed.
use skai_edge_native.Common.{
  ℕ, ◌≡◌, refl, arith, List, ◌∷◌, some, Bool, true, false, ◌&&◌, if◌then◌else◌, starts_with-append,
  drop-append_length,
}
use skai_edge_native.WebRtc.Manager.State.{
  WebRtcManager, CreateSessionError, no_error, disabled, capacity, invalid_offer, gathering_timeout,
  internal,
}
use skai_edge_native.WebRtc.Manager.{close_session}
use skai_edge_native.Web.Router.Requests.{session_prefix}
use skai_edge_native.Web.Router.Alerts.{error_reply, json_reply}
use skai_edge_native.Web.Router.Replies.{
  CreateSessionResult, created_reply, session_reply, reply_by, error_status,
}
use skai_edge_native.Web.HttpSession.{pending_session_id, on_sent}

pending_session_id-created :
    (result : CreateSessionResult) → pending_session_id (created_reply result) ≡ result.session_id
unfolding pending_session_id created_reply
pending_session_id-created result =
    rw
      (
        starts_with-append session_prefix result.session_id,
        drop-append_length session_prefix result.session_id,
      )
      refl

abbrev pub is_created : CreateSessionError → Bool
is_created no_error = true
is_created _ = false

on_sent-reply_by :
    (outcome : CreateSessionError) (failed : Bool) (result : CreateSessionResult) (c : ℕ)
    (id : List ℕ) (m : WebRtcManager)
    → result.session_id ≡ c ∷ id
    → on_sent failed (pending_session_id (reply_by outcome result)) (some m)
      ≡ some (if failed && is_created outcome then (close_session result.session_id m).1 else m)
unfolding on_sent
on_sent-reply_by no_error failed result c id m e =
    rw (pending_session_id-created result) (ground (arith, e))
on_sent-reply_by disabled failed result c id m e =
    unfold pending_session_id error_reply json_reply error_status in ground arith
on_sent-reply_by capacity failed result c id m e =
    unfold pending_session_id error_reply json_reply error_status in ground arith
on_sent-reply_by invalid_offer failed result c id m e =
    unfold pending_session_id error_reply json_reply error_status in ground arith
on_sent-reply_by gathering_timeout failed result c id m e =
    unfold pending_session_id error_reply json_reply error_status in ground arith
on_sent-reply_by internal failed result c id m e =
    unfold pending_session_id error_reply json_reply error_status in ground arith

-- When the response with a new session cannot be written, exactly that session is closed, with the
-- id that the `Location` has; when it is written, and when there is no new session, none is.
pub on_sent-session_reply :
    (failed : Bool) (result : CreateSessionResult) (c : ℕ) (id : List ℕ) (m : WebRtcManager)
    → result.session_id ≡ c ∷ id
    → on_sent failed (pending_session_id (session_reply result)) (some m)
      ≡ some
          (if failed && is_created result.outcome then (close_session result.session_id m).1 else m)
unfolding session_reply
on_sent-session_reply failed result c id m e =
    on_sent-reply_by result.outcome failed result c id m e
