-- ===== src/Whip/Peer/Tests.antt =====
-- Concrete callbacks and waits, and an instance of the theorem on peers.
use skai_edge_native.Common.{
  ℕ, ◌*◌, ◌≤◌, ◌≡◌, refl, List, [], ◌∷◌, some, true, false, ◌&&◌, not, ◌==◌, if◌then◌else◌, arith,
}
use skai_edge_native.Whip.Peer.{
  should_reconnect, connected, disconnected, gathered, wait_loop, wait_for_gathering,
}
use skai_edge_native.Whip.Peer.History.{
  Callback, gathers, connects, disconnects, state_after, any_gathering, any_failure,
}
use skai_edge_native.Whip.Peer.Gathering.{
  Glance, look_at, calls_by, no_news, has_news, wait_for_gathering-ends,
}

-- Disconnected at 7 and again at 9, after a connection.
abbrev callbacks : List Callback
callbacks = disconnects 9 ∷ gathers ∷ disconnects 7 ∷ connects ∷ disconnects 1 ∷ []

too_early : should_reconnect 11 5 (state_after callbacks) ≡ false
unfolding should_reconnect connected disconnected gathered
too_early = refl

-- Gathering is complete in the second round.
abbrev arriving : ℕ → List Callback
arriving k = if k == 1 then gathers ∷ [] else []

abbrev glances : ℕ → Glance
glances k = record { stops = false; stops_at_return = false; now = 50 * k; now_after = 50 * k }

waits_one_round : wait_for_gathering 0 100 (look_at arriving glances) 5 ≡ some true
unfolding wait_for_gathering wait_loop gathered
waits_one_round = refl

wait_for_gathering-ends_example :
    (m : ℕ) × (m ≤ 2)
    × (no_news 100 arriving glances m ≡ true)
    × (has_news 100 arriving glances m ≡ true)
    × (wait_for_gathering 0 100 (look_at arriving glances) 5
        ≡ some (
            any_gathering (calls_by arriving m)
            && (not (any_failure (calls_by arriving m)) && not (glances m).stops_at_return)))
wait_for_gathering-ends_example =
    wait_for_gathering-ends arriving glances 0 100 2 5 (omega arith) (omega arith)
