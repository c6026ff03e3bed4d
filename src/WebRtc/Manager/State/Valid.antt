-- ===== src/WebRtc/Manager/State/Valid.antt =====
-- The invariant of the manager's state; remembering closed sessions keeps it.
use skai_edge_native.Common.{
  ℕ, ◌+◌, ◌-◌, ◌%◌, ◌^◌, ◌≤◌, ◌≡◌, refl, arith, List, [], ◌∷◌, ◌++◌, none, true, false, not, ◌&&◌,
  length, length-drop,
}
use skai_edge_native.WebRtc.Session.{WebRtcSession, close_with_reason}
use skai_edge_native.WebRtc.Manager.State.{
  WebRtcManager, diagnostics, remember_closed, remember_all,
}
use skai_edge_native.WebRtc.Manager.Table.Distinct.{are_distinct}

pub record IsCoherent (m : WebRtcManager) : Type 0 where
  pub room : length m.sessions ≤ m.max_peers
  pub balance : m.sessions_created ≡ (m.sessions_closed + length m.sessions) % 2 ^ 64
  pub distinct : are_distinct m.sessions ≡ true
  pub recent : length m.recently_closed ≤ 16
  pub stopped : m.stopping ≡ not m.enabled
  pub idle : m.enabled && m.media_available ≡ false → m.sessions ≡ []
  pub keyless : m.enabled && m.media_available ≡ false → m.latest_keyframe ≡ none

pub remember_closed-IsCoherent :
    (reason : List ℕ) (s : WebRtcSession) (m : WebRtcManager)
    → IsCoherent m
    → IsCoherent (remember_closed reason s m)
unfolding remember_closed
remember_closed-IsCoherent reason s m v =
    let xs = m.recently_closed ++ diagnostics (close_with_reason reason s) ∷ [] in
    ground (arith, length-drop (length xs - 16) xs)

pub remember_all-IsCoherent :
    (gone : List (WebRtcSession × List ℕ)) (m : WebRtcManager)
    → IsCoherent m
    → IsCoherent (remember_all gone m)
unfolding remember_all
remember_all-IsCoherent [] m v = v
remember_all-IsCoherent ((s, reason) ∷ gone) m v =
    remember_all-IsCoherent gone (remember_closed reason s m)
      (remember_closed-IsCoherent reason s m v)

pub enabled-remember_all :
    (gone : List (WebRtcSession × List ℕ)) (m : WebRtcManager)
    → (remember_all gone m).enabled ≡ m.enabled
unfolding remember_all remember_closed
enabled-remember_all [] m = refl
enabled-remember_all ((s, reason) ∷ gone) m = enabled-remember_all gone (remember_closed reason s m)
