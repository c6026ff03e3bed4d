-- ===== src/Whip/Peer/History.antt =====
-- When a peer is given up, in terms of the callbacks that came.
use skai_edge_native.Common.{
  ℕ, ◌≡◌, refl, List, [], ◌∷◌, Option, none, some, Bool, true, false, ◌||◌, arith,
}
use skai_edge_native.Whip.Peer.{
  PeerState, initial, gathered, connected, disconnected, failed, should_reconnect, has_lasted,
}

pub data Callback : Type 0 where
  gathers connects fails : Callback
  disconnects : ℕ → Callback

abbrev pub apply : Callback → PeerState → PeerState
apply gathers s = gathered s
apply connects s = connected s
apply fails s = failed s
apply (disconnects now) s = disconnected now s

-- The state after the callbacks, the latest first.
abbrev pub state_after : List Callback → PeerState
state_after [] = initial
state_after (c ∷ cs) = apply c (state_after cs)

-- The first disconnection behind the latest connection; the callbacks are the latest first.
abbrev pub outage : List Callback → Option ℕ → Option ℕ
outage [] seen = seen
outage (connects ∷ cs) seen = seen
outage (disconnects now ∷ cs) seen = outage cs (some now)
outage (gathers ∷ cs) seen = outage cs seen
outage (fails ∷ cs) seen = outage cs seen

abbrev pub any_failure : List Callback → Bool
any_failure [] = false
any_failure (fails ∷ cs) = true
any_failure (connects ∷ cs) = any_failure cs
any_failure (disconnects now ∷ cs) = any_failure cs
any_failure (gathers ∷ cs) = any_failure cs

abbrev or_else : Option ℕ → Option ℕ → Option ℕ
or_else none b = b
or_else (some a) b = some a

disconnected_at-state_after :
    (cs : List Callback) (seen : Option ℕ)
    → or_else (state_after cs).disconnected_at seen ≡ outage cs seen
unfolding gathered connected disconnected failed
disconnected_at-state_after [] seen = refl
disconnected_at-state_after (gathers ∷ cs) seen = disconnected_at-state_after cs seen
disconnected_at-state_after (fails ∷ cs) seen = disconnected_at-state_after cs seen
disconnected_at-state_after (connects ∷ cs) seen = refl
disconnected_at-state_after (disconnects now ∷ cs) seen =
    ground (arith, disconnected_at-state_after cs (some now))

pub has_failed-state_after : (cs : List Callback) → (state_after cs).has_failed ≡ any_failure cs
unfolding gathered connected disconnected failed
has_failed-state_after [] = refl
has_failed-state_after (gathers ∷ cs) = has_failed-state_after cs
has_failed-state_after (fails ∷ cs) = refl
has_failed-state_after (connects ∷ cs) = has_failed-state_after cs
has_failed-state_after (disconnects now ∷ cs) = has_failed-state_after cs

abbrev pub any_gathering : List Callback → Bool
any_gathering [] = false
any_gathering (gathers ∷ cs) = true
any_gathering (fails ∷ cs) = any_gathering cs
any_gathering (connects ∷ cs) = any_gathering cs
any_gathering (disconnects now ∷ cs) = any_gathering cs

pub has_gathered-state_after :
    (cs : List Callback) → (state_after cs).has_gathered ≡ any_gathering cs
unfolding gathered connected disconnected failed
has_gathered-state_after [] = refl
has_gathered-state_after (gathers ∷ cs) = refl
has_gathered-state_after (fails ∷ cs) = has_gathered-state_after cs
has_gathered-state_after (connects ∷ cs) = has_gathered-state_after cs
has_gathered-state_after (disconnects now ∷ cs) = has_gathered-state_after cs

-- After any callbacks, the publisher reconnects exactly when one of them was a failure, or the
-- first disconnection since the latest connection is at least the grace period old.
pub should_reconnect-state_after :
    (cs : List Callback) (now grace : ℕ)
    → should_reconnect now grace (state_after cs)
      ≡ (any_failure cs || has_lasted (outage cs none) now grace)
unfolding should_reconnect
should_reconnect-state_after cs now grace =
    ground (arith, has_failed-state_after cs, disconnected_at-state_after cs none)
