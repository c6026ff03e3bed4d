-- ===== src/Whip/Publisher/Gate.antt =====
-- The units that the uplink sends are those that pass a keyframe gate.
use skai_edge_native.Common.{
  ℕ, ◌+◌, ◌<◌, ◌^◌, ltb, ◌==◌, ◌&&◌, add64, true, ◌≡◌, refl, arith, List, [], ◌∷◌, Option, none,
  some, Bool, false, not, ◌||◌, if◌then◌else◌, ℤ,
}
use skai_edge_native.Media.{EncodedAccessUnit}
use skai_edge_native.Sei.Selector.{SeiResultSelector}
use skai_edge_native.Whip.Publisher.{
  Round, Input, gap, offers, Packet, Uplink, initial, Ending, goes_on, throws, disconnected_round,
  resume, add_all, pop_unit, observe, send, offer, take_unit, round, after, run,
}

-- Nothing breaks the stream at a unit.
abbrev pub is_unbroken : ℕ → ℕ → EncodedAccessUnit → Bool
is_unbroken missed missed_late unit = not unit.discontinuity && (missed == 0 && missed_late == 0)

-- A keyframe opens the gate; a pause, and any other unit at which the stream is broken, closes it.
abbrev pub is_passable : List Input → Bool
is_passable [] = false
is_passable (gap ∷ inputs) = false
is_passable (offers missed missed_late unit ∷ inputs) =
    unit.keyframe || (is_unbroken missed missed_late unit && is_passable inputs)

-- The units behind which the gate is open, the latest first.
abbrev pub passed : List Input → List EncodedAccessUnit
passed [] = []
passed (gap ∷ inputs) = passed inputs
passed (offers missed missed_late unit ∷ inputs) =
    if unit.keyframe || (is_unbroken missed missed_late unit && is_passable inputs)
    then unit ∷ passed inputs
    else passed inputs

abbrev pub sources : List Packet → List EncodedAccessUnit
sources [] = []
sources (packet ∷ packets) = packet.source ∷ sources packets

-- The variables of the loop against the gate.
record IsGated {D : Type 0} (u : Uplink D) : Type 0 where
  agrees : is_passable u.inputs ≡ not (u.waiting_for_keyframe || u.awaiting_resume)
  sent : sources u.packets ≡ passed u.inputs
  counted : u.observed_drops ≡ u.queue_drops
  bounded : u.queue_drops < 2 ^ 64

-- The same after a round that may have thrown.
record IsGatedAfter {D : Type 0} (result : Ending × Uplink D) : Type 0 where
  agrees_on :
      result.0 ≡ goes_on
      → is_passable result.1.inputs
        ≡ not (result.1.waiting_for_keyframe || result.1.awaiting_resume)
  sent_on : sources result.1.packets ≡ passed result.1.inputs
  counted_on : result.0 ≡ goes_on → result.1.observed_drops ≡ result.1.queue_drops
  bounded_on : result.0 ≡ goes_on → result.1.queue_drops < 2 ^ 64

-- The queue drops fewer than 2 ^ 64 units in a round, which its counter tells apart.
abbrev pub are_few : {D : Type 0} → List (Round D) → Bool
are_few [] = true
are_few (r ∷ rs) = ltb (r.missed + r.missed_late) (2 ^ 64) && are_few rs

same_count :
    (count added : ℕ)
    → count < 2 ^ 64
    → added < 2 ^ 64
    → (add64 count added == count) ≡ (added == 0)
same_count count added c a = ground arith

module _ {D : Type 0} (scaled : D → ℤ) (greater : D → D → Bool) where
  -- The loop behind the reading of the counter; the unit is in the inputs.
  record IsOffered (unit : EncodedAccessUnit) (u : Uplink D) : Type 0 where
    admits :
        is_passable u.inputs ≡ (unit.keyframe || not (u.waiting_for_keyframe || u.awaiting_resume))
    offered :
        passed u.inputs
        ≡ (if is_passable u.inputs then unit ∷ sources u.packets else sources u.packets)
    seen : u.observed_drops ≡ u.queue_drops
    small : u.queue_drops < 2 ^ 64

  observe-IsOffered :
      (unit : EncodedAccessUnit) (r : Round D) (u : Uplink D)
      → r.missed + r.missed_late < 2 ^ 64
      → u.awaiting_resume ≡ false
      → IsGated u
      → IsOffered unit (observe unit (pop_unit unit r u))
  observe-IsOffered unit r u few a v =
      ground (arith, same_count u.queue_drops (r.missed + r.missed_late))

  offer-IsGated :
      (unit : EncodedAccessUnit) (accepts : Bool) (u : Uplink D)
      → u.awaiting_resume ≡ false
      → IsOffered unit u
      → IsGatedAfter (offer scaled greater unit accepts u)
  unfolding offer send
  offer-IsGated unit accepts u a v = ground arith

  take_unit-IsGated :
      (unit : Option EncodedAccessUnit) (r : Round D) (u : Uplink D)
      → r.missed + r.missed_late < 2 ^ 64
      → u.awaiting_resume ≡ false
      → IsGated u
      → IsGatedAfter (take_unit scaled greater unit r u)
  unfolding take_unit
  take_unit-IsGated none r u few a v = ground arith
  take_unit-IsGated (some unit) r u few a v =
      offer-IsGated unit r.accepts (observe unit (pop_unit unit r u)) (ground arith)
        (observe-IsOffered unit r u few a v)

  disconnected-IsGated :
      (r : Round D) (u : Uplink D) → IsGated u → IsGatedAfter (disconnected_round r u)
  unfolding disconnected_round
  disconnected-IsGated r u v = ground arith

  round-IsGated :
      (r : Round D) (u : Uplink D)
      → r.missed + r.missed_late < 2 ^ 64
      → IsGated u
      → IsGatedAfter (round scaled greater r u)
  unfolding round
  round-IsGated r u few v =
      let resumed = resume u in
      let ready = record resumed { detections = add_all r.results resumed.detections } in
      ground (
        arith,
        disconnected-IsGated r u v,
        take_unit-IsGated r.unit r ready few (ground arith) (ground arith),
      )

  after-IsGated :
      (result : Ending × Uplink D) (rs : List (Round D))
      → IsGatedAfter result
      → ((u : Uplink D) → IsGated u → IsGatedAfter (run scaled greater rs u))
      → IsGatedAfter (after result.0 result.1 (run scaled greater rs))
  unfolding after
  after-IsGated (goes_on, u) rs v rest = rest u (record {
    agrees = v.agrees_on refl;
    sent = v.sent_on;
    counted = v.counted_on refl;
    bounded = v.bounded_on refl;
  })
  after-IsGated (throws error, u) rs v rest = v

  run-IsGated :
      (rs : List (Round D)) (u : Uplink D)
      → are_few rs ≡ true
      → IsGated u
      → IsGatedAfter (run scaled greater rs u)
  unfolding run
  run-IsGated [] u few v = ground arith
  run-IsGated (r ∷ rs) u few v =
      after-IsGated (round scaled greater r u) rs (round-IsGated r u (ground arith) v)
        (λ w. run-IsGated rs w (ground arith))

  -- Whatever the connection, the track, the queues and the detections do, so long as the queue drops
  -- fewer than 2^64 units in a round, and whether the loop ends by an exception or not: the units
  -- that are given to the track are exactly those that pass a gate. A keyframe opens it and passes;
  -- it closes in a pause, and at any other unit that is marked as a discontinuity, has units missing
  -- in front of it, or behind it before the loop has read the counter of drops.
  pub sources-run :
      (start_timestamp now drops : ℕ) (detections : SeiResultSelector D) (rs : List (Round D))
      → drops < 2 ^ 64
      → are_few rs ≡ true
      → let last = (run scaled greater rs (initial start_timestamp now drops detections)).1 in
        sources last.packets ≡ passed last.inputs
  unfolding initial
  sources-run start_timestamp now drops detections rs small few =
      (run-IsGated rs (initial start_timestamp now drops detections) few
        (record { agrees = refl; sent = refl; counted = refl; bounded = small })).sent_on
