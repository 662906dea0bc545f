-- ===== src/Daemon/Watcher/Run.antt =====
-- When the watcher's loop calls its callback, and how it ends.
use rbln_container_toolkit.Prelude.{
  String, ◌≡◌, refl, true, false, Option, none, some, List, [], ◌∷◌, ◌++◌, arith, All,
}
use rbln_container_toolkit.Daemon.Watcher.{
  Watcher, Observation, RefreshTrigger, Call, Event, done, ticked, versions_differ, tick, loop,
  add_call,
}

-- A call that the code is right to make: the two snapshots differ.
abbrev pub IsDue : Call → Type 0
IsDue (t, r) = versions_differ t.prev_versions t.versions ≡ true

tick_due :
    (w : Watcher) (o : Observation) (t : RefreshTrigger) (r : Option String)
    → (tick w o).1 ≡ some (t, r)
    → versions_differ t.prev_versions t.versions ≡ true
unfolding tick
tick_due w o t r e = ground arith

All-add_call :
    (w : Watcher) (o : Observation) (c : Option Call) (calls : List Call)
    → (tick w o).1 ≡ c
    → All IsDue calls
    → All IsDue (add_call c calls)
All-add_call w o none calls e h = h
All-add_call w o (some (t, r)) calls e h = (tick_due w o t r e, h)

-- The callback is called only where the two snapshots that it is handed differ, whatever the
-- events, and whatever the prober returns.
pub loop-IsDue : (w : Watcher) (events : List Event) → All IsDue (loop w events).1
unfolding loop
loop-IsDue w [] = tt
loop-IsDue w (done ∷ events) = tt
loop-IsDue w (ticked true o ∷ events) = tt
loop-IsDue w (ticked false o ∷ events) =
    All-add_call w o (tick w o).1 (loop (tick w o).0 events).1 refl (loop-IsDue (tick w o).0 events)

-- The events that end the loop.
abbrev pub Ends : Event → Type 0
Ends done = Unit
Ends (ticked late o) = late ≡ true

-- Once the context is done, seen by `select` or right after the ticker fired, the loop returns:
-- what follows has no effect on the state or on the calls.
pub loop-Ends :
    (w : Watcher) (before after : List Event) (e : Event)
    → Ends e
    → loop w (before ++ e ∷ after) ≡ ((loop w before).0, (loop w before).1, true)
unfolding loop
loop-Ends w [] after done h = refl
loop-Ends w [] after (ticked late o) h = rw h
loop-Ends w (done ∷ before) after e h = refl
loop-Ends w (ticked true o ∷ before) after e h = refl
loop-Ends w (ticked false o ∷ before) after e h = rw (loop-Ends (tick w o).0 before after e h)
