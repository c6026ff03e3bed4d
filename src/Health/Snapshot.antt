-- ===== src/Health/Snapshot.antt =====
-- The overall state of a snapshot against its meaning for the components.
use skai_edge_native.Common.{
  ℕ, ◌+◌, ◌≤◌, ◌≡◌, refl, ap, ◌∙◌, ◌==◌, List, [], ◌∷◌, Bool, true, false, not, ◌&&◌, ◌||◌, ltb,
  if◌then◌else◌, arith,
}
use skai_edge_native.Health.{
  HealthState, starting, running, degraded, stopping, failed, HealthComponent,
  all_health_components, Entry, HealthWatchdog, Answer, reports, throws, throws_other, Flags, note,
  collect, snapshot, tick, shown, is_stale, is_running, poll, two_seconds,
}

abbrev pub any_of : (HealthComponent → Bool) → List HealthComponent → Bool
any_of p [] = false
any_of p (c ∷ cs) = p c || any_of p cs

abbrev pub all_of : (HealthComponent → Bool) → List HealthComponent → Bool
all_of p [] = true
all_of p (c ∷ cs) = p c && all_of p cs

abbrev pub is_failed : HealthState → Bool
is_failed failed = true
is_failed _ = false

abbrev pub is_degraded : HealthState → Bool
is_degraded degraded = true
is_degraded _ = false

abbrev pub is_starting : HealthState → Bool
is_starting starting = true
is_starting _ = false

module _ (stale : Bool) (entries : HealthComponent → Entry) where
  abbrev state_of : HealthComponent → HealthState
  state_of c = (shown stale (entries c)).state

  -- A critical component has failed.
  abbrev pub fatal : HealthComponent → Bool
  fatal c = is_failed (state_of c) && (entries c).critical

  -- A component is degraded, or one that is not critical has failed.
  abbrev pub impaired : HealthComponent → Bool
  impaired c = is_degraded (state_of c) || (is_failed (state_of c) && not (entries c).critical)

  abbrev pub waits : HealthComponent → Bool
  waits c = is_starting (state_of c)

  note_lem :
      (s : HealthState) (critical : Bool) (f : Flags)
      → note s critical f ≡ record {
        any_starting = f.any_starting || is_starting s;
        any_degraded = f.any_degraded || (is_degraded s || (is_failed s && not critical));
        any_failed = f.any_failed || (is_failed s && critical);
      }
  note_lem starting critical f = ground arith
  note_lem running critical f = ground arith
  note_lem degraded critical f = ground arith
  note_lem stopping critical f = ground arith
  note_lem failed true f = ground arith
  note_lem failed false f = ground arith

  or_assoc : (a b c : Bool) → ((a || b) || c) ≡ (a || (b || c))
  or_assoc a b c = ground arith

  collect_lem :
      (cs : List HealthComponent) (f : Flags)
      → collect stale entries cs f ≡ record {
        any_starting = f.any_starting || any_of waits cs;
        any_degraded = f.any_degraded || any_of impaired cs;
        any_failed = f.any_failed || any_of fatal cs;
      }
  unfolding collect
  collect_lem [] f = ground arith
  collect_lem (c ∷ cs) f =
      collect_lem cs (note (state_of c) (entries c).critical f) ∙ rw note_lem (simp or_assoc)

-- While the service is running, the overall state is FAILED exactly when the last poll is stale or
-- a critical component has failed, otherwise DEGRADED when some component is degraded or failed,
-- otherwise STARTING when some component is starting, and RUNNING in the other cases; outside that
-- it is the lifecycle state.
pub overall-snapshot :
    (now : ℕ) (w : HealthWatchdog)
    → let stale = is_stale now w in
      (snapshot now w).overall ≡ (
        if is_running w.lifecycle
        then (if stale || any_of (fatal stale w.entries) all_health_components
            then failed
            else if any_of (impaired stale w.entries) all_health_components
            then degraded
            else if any_of (waits stale w.entries) all_health_components
            then starting
            else running)
        else w.lifecycle)
unfolding snapshot
overall-snapshot now w = ground (
  arith,
  collect_lem (is_stale now w) w.entries all_health_components
      (record { any_starting = false; any_degraded = false; any_failed = is_stale now w }),
)

-- A probe that answers in time and is content.
abbrev pub content : Bool → Answer → Bool
content registered (reports h) =
    registered && not (is_failed h.state || (is_degraded h.state || is_starting h.state))
content registered (throws message) = false
content registered throws_other = false

-- The entry of a component after a poll.
abbrev polled_entry : Answer → Entry → Entry
polled_entry answer entry = record entry { health = poll entry.registered answer }

abbrev settled : HealthState → Bool → Bool
settled s critical = not (
    (is_failed s && critical)
    || ((is_degraded s || (is_failed s && not critical)) || is_starting s))

settled_lem :
    (s : HealthState) (critical : Bool)
    → settled s critical ≡ not (is_failed s || (is_degraded s || is_starting s))
settled_lem starting critical = ground arith
settled_lem running critical = refl
settled_lem degraded critical = ground arith
settled_lem stopping critical = refl
settled_lem failed true = refl
settled_lem failed false = refl

content_lem :
    (answer : Answer) (registered critical : Bool)
    → settled (poll registered answer).state critical ≡ content registered answer
content_lem (reports h) true critical = settled_lem h.state critical
content_lem (reports h) false critical = settled_lem starting critical
content_lem (throws message) true critical = settled_lem failed critical
content_lem (throws message) false critical = settled_lem starting critical
content_lem throws_other true critical = settled_lem failed critical
content_lem throws_other false critical = settled_lem starting critical

shuffle :
    (a b c x y z : Bool)
    → not ((a || x) || ((b || y) || (c || z))) ≡ not (a || (b || c)) && not (x || (y || z))
shuffle a b c x y z = ground arith

-- A poll at most two seconds old is not stale.
fresh_lem :
    (polled now : ℕ)
    → now ≤ polled + two_seconds
    → not (polled == 0) && ltb (polled + two_seconds) now ≡ false
fresh_lem polled now h = ground arith

module _ (answers : HealthComponent → Answer) (entries : HealthComponent → Entry) where
  after : HealthComponent → Entry
  after c = polled_entry (answers c) (entries c)

  all_of-content :
      (cs : List HealthComponent)
      → not (
          any_of (fatal false after) cs
          || (any_of (impaired false after) cs || any_of (waits false after) cs))
        ≡ all_of (λ c. content (entries c).registered (answers c)) cs
  unfolding after
  all_of-content [] = refl
  all_of-content (c ∷ cs) =
      shuffle (fatal false after c) (impaired false after c) (waits false after c)
        (any_of (fatal false after) cs) (any_of (impaired false after) cs)
        (any_of (waits false after) cs)
      ∙ rw (content_lem (answers c) (entries c).registered (entries c).critical, all_of-content cs)
          refl

is_running-verdict :
    (a b c : Bool)
    → is_running (if a then failed else if b then degraded else if c then starting else running)
      ≡ not (a || (b || c))
is_running-verdict a b c = ground arith

-- A snapshot at most two seconds after a poll of a running service is RUNNING exactly when every
-- component has a probe, and none of them throws or reports FAILED, DEGRADED or STARTING.
pub snapshot-tick :
    (polled now : ℕ) (answers : HealthComponent → Answer) (w : HealthWatchdog)
    → now ≤ polled + two_seconds
    → w.lifecycle ≡ running
    → is_running (snapshot now (tick polled answers w)).overall
      ≡ all_of (λ c. content (w.entries c).registered (answers c)) all_health_components
unfolding tick after
snapshot-tick polled now answers w h r =
    ap is_running (overall-snapshot now (tick polled answers w))
    ∙ rw (r, fresh_lem polled now h)
        (is_running-verdict (any_of (fatal false (after answers w.entries)) all_health_components)
            (any_of (impaired false (after answers w.entries)) all_health_components)
            (any_of (waits false (after answers w.entries)) all_health_components)
          ∙ all_of-content answers w.entries all_health_components)
