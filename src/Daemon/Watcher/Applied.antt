-- ===== src/Daemon/Watcher/Applied.antt =====
-- The watcher's baseline against the snapshot for which the last regeneration succeeded.
use rbln_container_toolkit.Prelude.{
  String, ◌≡◌, refl, sym, ◌∙◌, ap, true, false, inl, inr, Option, none, some, List, [], ◌∷◌,
  Bool-cases, arith, All,
}
use rbln_container_toolkit.Prelude.Dict.{Dict, NodupKeys}
use rbln_container_toolkit.Daemon.Watcher.{
  Watcher, Observation, RefreshTrigger, Call, Event, done, ticked, versions_differ, tick, loop,
  add_call,
}
use rbln_container_toolkit.Daemon.Watcher.Diff.{IsSnapshot, SameMap, versions_differ_iff}

-- The snapshot of the last call that succeeded; `base` where none did.
pub last_applied : Dict String → List Call → Dict String
last_applied base [] = base
last_applied base ((t, none) ∷ calls) = last_applied t.versions calls
last_applied base ((t, some e) ∷ calls) = last_applied base calls

-- The result of the last call; `err` where there was none.
pub last_result : Option String → List Call → Option String
last_result err [] = err
last_result err ((t, r) ∷ calls) = last_result r calls

-- A tick of a watcher with a callback, in time, over a snapshot.
pub record IsLive (o : Observation) : Type 0 where
  pub in_time : o.cancelled ≡ false
  pub snapshot : IsSnapshot o.versions

abbrev pub IsLiveEvent : Event → Type 0
IsLiveEvent done = Unit
IsLiveEvent (ticked late o) = IsLive o

abbrev trigger_of : Watcher → Observation → RefreshTrigger
trigger_of w o = record { versions = o.versions; prev_versions = w.last; errors = o.errors }

module _ (w : Watcher) (o : Observation) (in_time : o.cancelled ≡ false)
    (has : w.has_on_change ≡ true) where
  keeps_callback : (tick w o).0.has_on_change ≡ true
  unfolding tick
  keeps_callback = ground arith

  called :
      (t : RefreshTrigger) (r : Option String)
      → (tick w o).1 ≡ some (t, r)
      → (versions_differ w.last o.versions ≡ true)
        × (t.versions ≡ o.versions)
        × (t.prev_versions ≡ w.last)
  unfolding tick
  called t r e = ground arith

  fires :
      versions_differ w.last o.versions ≡ true
      → (tick w o).1 ≡ some (trigger_of w o, o.on_change (trigger_of w o))
  unfolding tick
  fires d = ground arith

  quiet :
      (tick w o).1 ≡ none
      → (versions_differ w.last o.versions ≡ false)
        × ((tick w o).0.last ≡ o.versions)
        × ((tick w o).0.last_err ≡ w.last_err)
  unfolding tick
  quiet e = ground arith

  applied :
      (t : RefreshTrigger)
      → (tick w o).1 ≡ some (t, none)
      → (t.versions ≡ o.versions)
        × ((tick w o).0.last ≡ o.versions)
        × ((tick w o).0.last_err ≡ none)
  unfolding tick
  applied t e = ground arith

  failed :
      (t : RefreshTrigger) (x : String)
      → (tick w o).1 ≡ some (t, some x)
      → ((tick w o).0.last ≡ w.last) × ((tick w o).0.last_err ≡ some x)
  unfolding tick
  failed t x e = ground arith

-- One tick keeps the baseline equal, as a map, to the snapshot that was applied last.
tick_tracks :
    (w : Watcher) (o : Observation) (base : Dict String)
    → IsLive o
    → w.has_on_change ≡ true
    → IsSnapshot w.last
    → SameMap w.last base
    → (c : Option Call) → (tick w o).1 ≡ c
    → SameMap (tick w o).0.last (last_applied base (add_call c []))
unfolding last_applied
tick_tracks w o base live has s same none e k =
    let (agree, at, _) = quiet w o live.in_time has e in
    rw at (sym ((versions_differ_iff w.last o.versions s live.snapshot.0).0 agree k) ∙ same k)
tick_tracks w o base live has s same (some (t, none)) e k =
    let (seen, at, _) = applied w o live.in_time has t e in rw (at, seen)
tick_tracks w o base live has s same (some (t, some x)) e k =
    rw ((failed w o live.in_time has t x e).0) (same k)

tick-IsSnapshot :
    (w : Watcher) (o : Observation)
    → IsLive o
    → w.has_on_change ≡ true
    → IsSnapshot w.last
    → IsSnapshot (tick w o).0.last
unfolding tick
tick-IsSnapshot w o live has s = ground (arith, live.snapshot)

last_applied-add_call :
    (base : Dict String) (c : Option Call) (calls : List Call)
    → last_applied base (add_call c calls) ≡ last_applied (last_applied base (add_call c [])) calls
unfolding last_applied
last_applied-add_call base none calls = refl
last_applied-add_call base (some (t, none)) calls = refl
last_applied-add_call base (some (t, some e)) calls = refl

last_result-add_call :
    (err : Option String) (c : Option Call) (calls : List Call)
    → last_result err (add_call c calls) ≡ last_result (last_result err (add_call c [])) calls
unfolding last_result
last_result-add_call err none calls = refl
last_result-add_call err (some (t, r)) calls = refl

-- Through any run of ticks over snapshots, none of them overtaken by a shutdown, the watcher's
-- baseline stays equal, as a map, to the snapshot of the last callback that succeeded, or to the
-- first baseline where none has: a failed regeneration is never taken for done.
pub loop-tracks_applied :
    (w : Watcher) (events : List Event) (base : Dict String)
    → w.has_on_change ≡ true
    → IsSnapshot w.last
    → SameMap w.last base
    → All IsLiveEvent events
    → SameMap (loop w events).0.last (last_applied base (loop w events).1)
unfolding loop last_applied
loop-tracks_applied w [] base has s same live = same
loop-tracks_applied w (done ∷ events) base has s same live = same
loop-tracks_applied w (ticked true o ∷ events) base has s same live = same
loop-tracks_applied w (ticked false o ∷ events) base has s same live =
    rw (last_applied-add_call base (tick w o).1 (loop (tick w o).0 events).1) (
      loop-tracks_applied (tick w o).0 events (last_applied base (add_call (tick w o).1 []))
        (keeps_callback w o live.0.in_time has) (tick-IsSnapshot w o live.0 has s)
        (tick_tracks w o base live.0 has s same (tick w o).1 refl) live.1)

tick_err :
    (w : Watcher) (o : Observation) (c : Option Call)
    → (tick w o).1 ≡ c
    → (tick w o).0.last_err ≡ last_result w.last_err (add_call c [])
unfolding tick last_result
tick_err w o none e = ground arith
tick_err w o (some (t, none)) e = ground arith
tick_err w o (some (t, some x)) e = ground arith

-- After any events the error that `Status` shows is the result of the last callback that was
-- called; quiet ticks and ticks overtaken by a shutdown leave it as it is.
pub loop-last_err :
    (w : Watcher) (events : List Event)
    → (loop w events).0.last_err ≡ last_result w.last_err (loop w events).1
unfolding loop last_result
loop-last_err w [] = refl
loop-last_err w (done ∷ events) = refl
loop-last_err w (ticked true o ∷ events) = refl
loop-last_err w (ticked false o ∷ events) =
    loop-last_err (tick w o).0 events
    ∙ (ap (λ e. last_result e (loop (tick w o).0 events).1) (tick_err w o (tick w o).1 refl)
        ∙ sym (last_result-add_call w.last_err (tick w o).1 (loop (tick w o).0 events).1))

differ_SameMap :
    (a b b' : Dict String)
    → IsSnapshot a
    → NodupKeys b
    → NodupKeys b'
    → SameMap b' b
    → versions_differ a b ≡ true
    → versions_differ a b' ≡ true
differ_SameMap a b b' s n n' same d = elim (Bool-cases (versions_differ a b')) [
  | inl e ↦ e
  | inr e ↦
      cc (d, (versions_differ_iff a b s n).1 (λ k. (versions_differ_iff a b' s n').0 e k ∙ same k))
]

-- After a failed callback, a tick in time that sees the same libraries calls it again, with the
-- same two snapshots up to the order of entries.
pub tick_retries :
    (w : Watcher) (o o' : Observation) (t : RefreshTrigger) (x : String)
    → IsLive o
    → IsLive o'
    → w.has_on_change ≡ true
    → IsSnapshot w.last
    → (tick w o).1 ≡ some (t, some x)
    → SameMap o'.versions o.versions
    → (t' : RefreshTrigger) × ((tick (tick w o).0 o').1 ≡ some (t', o'.on_change t'))
      × SameMap t'.versions t.versions
      × (t'.prev_versions ≡ t.prev_versions)
tick_retries w o o' t x live live' has s e same =
    let w' = (tick w o).0 in
    let (differs, seen, before) = called w o live.in_time has t (some x) e in
    let back : w'.last ≡ w.last = (failed w o live.in_time has t x e).0 in
    (
      trigger_of w' o',
      fires w' o' live'.in_time (keeps_callback w o live.in_time has) (
          rw back (
            differ_SameMap w.last o.versions o'.versions s live.snapshot.0 live'.snapshot.0 same
              differs)),
      λ k. rw seen (same k),
      back ∙ sym before,
    )
