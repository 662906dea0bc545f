-- ===== src/Command/Daemon/Ended.antt =====
-- What the next daemon finds: cmd/rbln-ctk-daemon/root.go with internal/runtime.
use rbln_container_toolkit.Prelude.{
  String, ◌≡◌, refl, sym, ap, subst, ◌∙◌, Option, none, some, string_eq, arith,
}
use rbln_container_toolkit.Prelude.Results.{Result, ok, err}
use rbln_container_toolkit.Daemon.Config.{Config}
use rbln_container_toolkit.Runtime.Document.{IsToml, IsJson}
use rbln_container_toolkit.Command.Setup.{Arguments, Machine, setup}
use rbln_container_toolkit.Command.Setup.Again.{DecidesFor, setup_again}
use rbln_container_toolkit.Command.Daemon.{
  DaemonFlags, Circumstances, Ran, daemon_config, arguments_of, run_to_end, run_if, with_lock,
  with_config, run_daemon,
}

-- Without the calls of an early return.
run_if-fine :
    (c : Circumstances) (cfg : Config) (a : Arguments) (m : Machine) (error : Option String)
    → (run_if c cfg a m error).error ≡ none
    → (error ≡ none) × (run_if c cfg a m error ≡ run_to_end c cfg a m)
run_if-fine c cfg a m none fine = (refl, refl)
run_if-fine c cfg a m (some e) fine = ground (arith, fine)

with_lock-fine :
    (c : Circumstances) (cfg : Config) (a : Arguments) (m : Machine) (error : Option String)
    → (with_lock c cfg a m error).error ≡ none
    → ((setup c.world a m).error ≡ none)
      × (with_lock c cfg a m error ≡ run_to_end c cfg a (setup c.world a m).machine)
with_lock-fine c cfg a m (some e) fine = ground (arith, fine)
with_lock-fine c cfg a m none fine =
    run_if-fine c cfg a (setup c.world a m).machine (setup c.world a m).error fine

module _ (c : Circumstances) (flags : DaemonFlags) where
  -- A daemon that runs to its end has been set up.
  abbrev pub SetUp : Machine → Ran → Type 0
  SetUp m result =
      (cfg : Config) × (daemon_config c flags ≡ ok cfg)
      × ((setup c.world (arguments_of flags cfg) m).error ≡ none)
      × (result
          ≡ run_to_end c cfg (arguments_of flags cfg)
              (setup c.world (arguments_of flags cfg) m).machine)

  with_config-SetUp :
      (m : Machine) (r : Result Config)
      → daemon_config c flags ≡ r
      → (with_config c flags m r).error ≡ none
      → SetUp m (with_config c flags m r)
  with_config-SetUp m (err e) checked fine = ground (arith, fine)
  with_config-SetUp m (ok cfg) checked fine =
      let (well, same) = with_lock-fine c cfg (arguments_of flags cfg) m c.lock_error fine in
      (cfg, checked, well, same)

  pub run_daemon-SetUp :
      (m : Machine) → (run_daemon c flags m).error ≡ none → SetUp m (run_daemon c flags m)
  unfolding run_daemon
  run_daemon-SetUp m fine = with_config-SetUp m (daemon_config c flags) refl fine

  -- The runtime's part of a run that does not fail, and of one that does.
  run_to_end-runtime :
      (cfg : Config) (a : Arguments) (m : Machine)
      → ((run_to_end c cfg a m).machine.disk ≡ m.disk)
        × ((run_to_end c cfg a m).machine.restarts ≡ m.restarts)
  unfolding run_to_end
  run_to_end-runtime cfg a m = (refl, refl)

  with_lock-still :
      (cfg : Config) (a : Arguments) (m : Machine) (error : Option String)
      → ((setup c.world a m).machine.disk ≡ m.disk)
        × ((setup c.world a m).machine.restarts ≡ m.restarts)
      → ((with_lock c cfg a m error).machine.disk ≡ m.disk)
        × ((with_lock c cfg a m error).machine.restarts ≡ m.restarts)
  with_lock-still cfg a m (some e) still = (refl, refl)
  with_lock-still cfg a m none still =
      elim (setup c.world a m).error
        as (λ e.
          ((run_if c cfg a (setup c.world a m).machine e).machine.disk ≡ m.disk)
          × ((run_if c cfg a (setup c.world a m).machine e).machine.restarts ≡ m.restarts)) [
            | some e ↦ still
            | none ↦
                let (disk, restarts) = run_to_end-runtime cfg a (setup c.world a m).machine in
                (disk ∙ still.0, restarts ∙ still.1)
          ]

  -- After a daemon that has run to its end, a daemon with the same flags and in the same circumstances,
  -- on the files that the first left to the runtime, neither touches these nor restarts the runtime,
  -- whatever became of the specs in between and whether it succeeds or not. The codecs decode what they
  -- encode, and for CRI-O no file of a higher precedence sets the directories. It holds also where the
  -- restart of the first daemon has failed.
  pub run_daemon_again :
      IsToml c.world.toml
      → IsJson c.world.json
      → (m later : Machine)
      → ((cfg : Config)
          → daemon_config c flags ≡ ok cfg
          → DecidesFor c.world (arguments_of flags cfg) m.disk)
      → (run_daemon c flags m).error ≡ none
      → later.disk ≡ (run_daemon c flags m).machine.disk
      → ((run_daemon c flags later).machine.disk ≡ later.disk)
        × ((run_daemon c flags later).machine.restarts ≡ later.restarts)
  unfolding run_daemon
  run_daemon_again is_toml is_json m later decides fine kept =
      let (cfg, checked, well, same) = run_daemon-SetUp m fine in
      let a = arguments_of flags cfg in
      let left =
        ap (λ t. t.machine.disk) same ∙ (run_to_end-runtime cfg a (setup c.world a m).machine).0 in
      let still =
        setup_again c.world a is_toml is_json m later (decides cfg checked) well (kept ∙ left) in
      subst
        (λ r.
          ((with_config c flags later r).machine.disk ≡ later.disk)
          × ((with_config c flags later r).machine.restarts ≡ later.restarts))
        (sym checked) (with_lock-still cfg a later c.lock_error still)
