-- ===== src/Daemon/Watcher.antt =====
-- internal/daemon/watcher.go: the watcher that polls the library fingerprints.
-- A map is a `Dict`, so a clone is the map itself. The prober, the callback and the clock are the
-- inputs of a tick; what the callback is called with is part of a tick's result. Log lines are
-- left out. The mutex is left out: `Status` reads what the last tick left.
pub mod Diff
pub mod Run
pub mod Applied
use rbln_container_toolkit.Prelude.{
  ℕ, String, Bool, true, false, not, ◌||◌, Option, none, some, List, [], ◌∷◌, ◌++◌, length, ◌==◌,
  nat_eq, string_eq, if◌then◌else◌,
}
use rbln_container_toolkit.Prelude.Dict.{Dict, lookup}
use rbln_container_toolkit.Prelude.Int.{ℤ, pos, leb_ℤ}

-- Go's `m[k]` gives "" for a missing key.
abbrev pub or_empty : Option String → String
or_empty none = ""
or_empty (some v) = v

pub any_changed : Dict String → Dict String → Bool
any_changed b [] = false
any_changed b ((k, v) ∷ a) =
    let rest = any_changed b a in if or_empty (lookup k b) == v then rest else true

-- `versionsDiffer`
unfoldable pub versions_differ : Dict String → Dict String → Bool
unfolding any_changed lookup
versions_differ a b = if length a == length b then any_changed b a else true

pub record RefreshTrigger : Type 0 where
  pub versions : Dict String
  pub prev_versions : Dict String
  pub errors : Dict String

-- The result of a call is `none` for success, or the error's text.
abbrev pub RefreshCallback : Type 0
RefreshCallback = RefreshTrigger → Option String

pub record WatcherStatus : Type 0 where
  pub last_run : ℕ
  pub versions : Dict String
  pub last_err : Option String

-- `WatcherOptions`, without the callbacks themselves: whether each of them is given.
pub record WatcherOptions : Type 0 where
  pub interval : ℤ
  pub has_probe : Bool
  pub has_on_change : Bool
  pub has_status_hook : Bool

-- `published` holds what the status hook was called with, the last call at the end.
pub record Watcher : Type 0 where
  pub interval : ℤ
  pub has_on_change : Bool
  pub has_status_hook : Bool
  pub last : Dict String
  pub last_run : ℕ
  pub last_err : Option String
  pub published : List WatcherStatus

unfoldable pub new_watcher : WatcherOptions → Option Watcher
new_watcher o =
    if leb_ℤ o.interval (pos 0) || not o.has_probe
    then none
    else some (record {
      interval = o.interval;
      has_on_change = o.has_on_change;
      has_status_hook = o.has_status_hook;
      last = [];
      last_run = 0;
      last_err = none;
      published = [];
    })

unfoldable pub status : Watcher → WatcherStatus
status w = record { last_run = w.last_run; versions = w.last; last_err = w.last_err }

unfoldable pub publish_status : Watcher → Watcher
unfolding status
publish_status w =
    if w.has_status_hook then record w { published = w.published ++ (status w ∷ []) } else w

-- What one probe and the calls around it give: the snapshot with its errors, the time, whether the
-- context is done when the probe returns, and the callback as it behaves in this tick.
pub record Observation : Type 0 where
  pub versions : Dict String
  pub errors : Dict String
  pub now : ℕ
  pub cancelled : Bool
  pub on_change : RefreshCallback

unfoldable pub baseline : Watcher → Observation → Watcher
unfolding publish_status
baseline w o = publish_status (record w { last = o.versions; last_run = o.now })

-- One call of the callback: its trigger and its result.
abbrev pub Call : Type 0
Call = RefreshTrigger × Option String

-- The end of `tick`: on an error the baseline is rolled back.
settle : Watcher → Dict String → Option String → Watcher
unfolding publish_status
settle w prev none = publish_status (record w { last_err = none })
settle w prev (some e) = publish_status (record w { last_err = some e; last = prev })

-- The new state, and the call of the callback if there is one.
unfoldable pub tick : Watcher → Observation → Watcher × Option Call
unfolding publish_status settle versions_differ
tick w o =
    let prev = w.last in
    let seen : Watcher = record w { last = o.versions; last_run = o.now } in
    let trigger : RefreshTrigger = record {
      versions = o.versions;
      prev_versions = prev;
      errors = o.errors;
    } in
    let err = o.on_change trigger in
    if o.cancelled
    then (seen, none)
    else if not (versions_differ prev o.versions)
    then (publish_status seen, none)
    else if not w.has_on_change
    then (publish_status seen, none)
    else (settle seen prev err, some (trigger, err))

-- What the `select` of `Run` chooses: the context is done, or the ticker fires, and then the
-- context may turn out to be done after all.
pub data Event : Type 0 where
  done : Event
  ticked : Bool → Observation → Event

abbrev add_call : Option Call → List Call → List Call
add_call none calls = calls
add_call (some c) calls = c ∷ calls

-- The loop of `Run`: the state, the calls made, and whether the loop has returned.
unfoldable pub loop : Watcher → List Event → Watcher × List Call × Bool
unfolding tick
loop w [] = (w, [], false)
loop w (done ∷ events) = (w, [], true)
loop w (ticked true o ∷ events) = (w, [], true)
loop w (ticked false o ∷ events) =
    let (w', call) = tick w o in
    let (w'', calls, returned) = loop w' events in (w'', add_call call calls, returned)

-- `Run`: nothing happens where the context is done at the start.
unfoldable pub run : Bool → Observation → List Event → Watcher → Watcher × List Call × Bool
unfolding baseline loop
run true o events w = (w, [], true)
run false o events w = loop (baseline w o) events
