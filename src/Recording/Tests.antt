-- ===== src/Recording/Tests.antt =====
-- Concrete calls on the controller, and instances of its theorems.
use skai_edge_native.Common.{◌≡◌, refl, List, [], ◌∷◌, true, false, codes, arith}
use skai_edge_native.Recording.{
  RecordingController, fresh_controller, configure, start, stop, stopping, set_active,
}
use skai_edge_native.Recording.Status.{
  Call, configures, starts, stops, activates, fails, switches, run, IsConsistent, run-IsConsistent,
}

abbrev calls : List Call
calls =
    configures true
    ∷ activates (codes "a.mp4")
    ∷ switches false (codes "lost")
    ∷ switches true []
    ∷ fails (codes "disk")
    ∷ []

fresh_controller-IsConsistent : IsConsistent fresh_controller
fresh_controller-IsConsistent = ground arith

run-IsConsistent_example : IsConsistent (run calls fresh_controller)
run-IsConsistent_example = run-IsConsistent calls fresh_controller fresh_controller-IsConsistent

abbrev configured : RecordingController
configured = configure false fresh_controller

configured-IsConsistent : IsConsistent configured
unfolding configure
configured-IsConsistent = ground arith

-- A start while a stopped recording is still active leaves the state at `stopping`.
restarted :
    (run
      (configures true ∷ activates (codes "a.mp4") ∷ stops ∷ starts ∷ [])
      fresh_controller).c_status.state
    ≡ stopping
unfolding configure start stop set_active
restarted = refl
