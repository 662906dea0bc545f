-- ===== src/Command/Daemon/Removed.antt =====
-- What a daemon leaves behind: cmd/rbln-ctk-daemon/root.go with internal/daemon.
use rbln_container_toolkit.Prelude.{
  ℕ, String, ◌<>◌, ◌≡◌, refl, sym, ap, subst, ◌∙◌, true, false, not, ◌&&◌, Option, none, some,
  if◌then◌else◌, ◌==◌, string_eq, arith, eq_iff,
}
use rbln_container_toolkit.Prelude.Texts.{is_abs}
use rbln_container_toolkit.Prelude.Int.{pos_part}
use rbln_container_toolkit.Prelude.Dict.{Dict, lookup, erase, lookup-erase}
use rbln_container_toolkit.Prelude.Results.{Result, ok, err, ok-injective}
use rbln_container_toolkit.Daemon.Config.{Config}
use rbln_container_toolkit.Daemon.State.{stopped}
use rbln_container_toolkit.Daemon.Lifecycle.{Host, Daemon, late, new_daemon, run}
use rbln_container_toolkit.Daemon.Lifecycle.Shutdown.{run_complete, run_watcher}
use rbln_container_toolkit.Command.Setup.{
  Arguments, Machine, spec_path, rds_spec_path, setup, try_remove, do_cleanup,
}
use rbln_container_toolkit.Command.Daemon.{
  DaemonFlags, Circumstances, valid_or, config_for, daemon_runtime, daemon_config, arguments_of,
  host_of, is_quiet, locked_daemon, refreshed, specs_at_end, run_to_end, run_daemon,
}
use rbln_container_toolkit.Command.Daemon.Ended.{run_daemon-SetUp}

-- A daemon that has the lock runs as one that gets it.
run_locked :
    (h : Host) (port : ℕ)
    → h.lock_error ≡ none
    → run h (record (new_daemon port) { pid_locked = true }) ≡ run h (new_daemon port)
unfolding run new_daemon
run_locked h port e = ground arith

valid_or-same :
    (error : Option String) (cfg made : Config) → valid_or error cfg ≡ ok made → cfg ≡ made
valid_or-same none cfg made h = ok-injective cfg made h
valid_or-same (some e) cfg made h = ground (arith, h)

config_for-no_cleanup :
    (c : Circumstances) (flags : DaemonFlags) (runtime : Result String) (cfg : Config)
    → config_for c flags runtime ≡ ok cfg
    → cfg.no_cleanup_on_exit ≡ flags.config.no_cleanup_on_exit
config_for-no_cleanup c flags (err e) cfg made = ground (arith, made)
config_for-no_cleanup c flags (ok runtime) cfg made =
    ap (λ t. t.no_cleanup_on_exit) (sym (valid_or-same _ _ cfg made))

daemon_config-no_cleanup :
    (c : Circumstances) (flags : DaemonFlags) (cfg : Config)
    → daemon_config c flags ≡ ok cfg
    → cfg.no_cleanup_on_exit ≡ flags.config.no_cleanup_on_exit
unfolding daemon_config
daemon_config-no_cleanup c flags cfg =
    elim (not (flags.config_path == "") && not (is_abs flags.config_path))
      as (λ b.
        (if b
            then err ("config path override must be absolute: " <> c.quoted flags.config_path)
            else config_for c flags (daemon_runtime c flags.config))
          ≡ ok cfg
        → cfg.no_cleanup_on_exit ≡ flags.config.no_cleanup_on_exit) [
          | true ↦ λ made. ground (arith, made)
          | false ↦ config_for-no_cleanup c flags (daemon_runtime c flags.config) cfg
        ]

is_quiet-run :
    (h : Host) (port : ℕ)
    → h.lock_error ≡ none
    → h.signal ≡ late
    → h.watcher_stops ≡ true
    → is_quiet (run h (new_daemon port)).0.watcher ≡ true
is_quiet-run h port unlocked behind stops =
    ap is_quiet (run_watcher h port unlocked behind) ∙ ground (arith, stops)

run_cleanups :
    (h : Host) (port : ℕ)
    → h.lock_error ≡ none
    → h.no_cleanup_on_exit ≡ false
    → h.has_cleanup ≡ true
    → h.watcher_stops ≡ true
    → h.cleanup_ends ≡ true
    → h.signal ≡ late
    → let (d, e) = run h (record (new_daemon port) { pid_locked = true }) in
      (d.cleanups ≡ 1)
      × (d.cleaned ≡ 1)
      × (is_quiet d.watcher ≡ true)
      × (d.state ≡ stopped)
      × (d.health.ready ≡ false)
run_cleanups h port unlocked cleans has stops ends behind =
    let whole = run_complete h port unlocked behind in
    let same = ap (λ r. r.0) (run_locked h port unlocked) in
    (
      ap (λ d. d.cleanups) same ∙ (whole.5 ∙ ground (arith, cleans, has)),
      ap (λ d. d.cleaned) same ∙ (whole.6 ∙ ground (arith, cleans, has, ends)),
      ap (λ d. is_quiet d.watcher) same ∙ is_quiet-run h port unlocked behind stops,
      ap (λ d. d.state) same ∙ whole.1,
      ap (λ d. d.health.ready) same ∙ whole.2,
    )

specs_at_end-orderly :
    (c : Circumstances) (a : Arguments) (d : Daemon) (specs : Dict String)
    → is_quiet d.watcher ≡ true
    → d.cleanups ≡ 1
    → d.cleaned ≡ 1
    → specs_at_end c a d specs ≡ (do_cleanup c.spec_error c.rds_error a.cdi_dir specs).files
unfolding specs_at_end
specs_at_end-orderly c a d specs quiet once cleaned = rw (quiet, once, cleaned) refl

-- Neither spec is left, and nothing else is removed.
abbrev pub AreRemoved : String → Dict String → Dict String → Type 0
AreRemoved cdi_dir before after =
    (lookup (spec_path cdi_dir) after ≡ none)
    × (lookup (rds_spec_path cdi_dir) after ≡ none)
    × ((p : String)
        → (spec_path cdi_dir == p) ≡ false
        → (rds_spec_path cdi_dir == p) ≡ false
        → lookup p after ≡ lookup p before)

do_cleanup-AreRemoved :
    (cdi_dir : String) (specs : Dict String)
    → AreRemoved cdi_dir specs (do_cleanup none none cdi_dir specs).files
unfolding do_cleanup try_remove
do_cleanup-AreRemoved cdi_dir specs =
    let npu = spec_path cdi_dir in
    let rds = rds_spec_path cdi_dir in
    let one = erase npu specs in
    (
      lookup-erase rds npu one ∙ ground (arith, lookup-erase npu npu specs, eq_iff npu npu),
      lookup-erase rds rds one ∙ ground (arith, eq_iff rds rds),
      λ p other different.
          lookup-erase rds p one ∙ ground (arith, lookup-erase npu p specs, other, different),
    )

module _ (c : Circumstances) (flags : DaemonFlags) where
  -- A daemon that runs to its end, with its cleanup on and the removals working, has been set up and has
  -- stopped, and of what the setup and the watcher wrote neither spec is left, and all else is. The
  -- signal comes behind the startup, and the watcher and the cleanup end before the shutdown timeout.
  pub run_daemon-AreRemoved :
      (m : Machine)
      → flags.config.no_cleanup_on_exit ≡ false
      → c.spec_error ≡ none
      → c.rds_error ≡ none
      → c.watcher_stops ≡ true
      → c.cleanup_ends ≡ true
      → c.signal ≡ late
      → (run_daemon c flags m).error ≡ none
      → (cfg : Config) × (d : Daemon) × (daemon_config c flags ≡ ok cfg)
        × ((run_daemon c flags m).daemon ≡ some d)
        × (d.state ≡ stopped)
        × (d.health.ready ≡ false)
        × AreRemoved cfg.cdi_spec_dir
            (refreshed
              (arguments_of flags cfg)
              c.refreshes
              (setup c.world (arguments_of flags cfg) m).machine.specs)
            (run_daemon c flags m).machine.specs
  unfolding run_to_end
  run_daemon-AreRemoved m cleans npu rds stops ends behind fine =
      let (cfg, checked, well, same) = run_daemon-SetUp c flags m fine in
      let a = arguments_of flags cfg in
      let before = refreshed a c.refreshes (setup c.world a m).machine.specs in
      let on : cfg.no_cleanup_on_exit ≡ false =
        daemon_config-no_cleanup c flags cfg checked ∙ cleans in
      let (once, cleaned, quiet, state, ready) =
        run_cleanups (host_of c cfg) (pos_part cfg.health_port) refl on refl stops ends behind in
      let left : (run_daemon c flags m).machine.specs
          ≡ (do_cleanup none none cfg.cdi_spec_dir before).files =
        ap (λ t. t.machine.specs) same
        ∙ specs_at_end-orderly c a (run (host_of c cfg) (locked_daemon cfg)).0 before quiet once
            cleaned
        ∙ ap (λ e. (do_cleanup e c.rds_error cfg.cdi_spec_dir before).files) npu
        ∙ ap (λ e. (do_cleanup none e cfg.cdi_spec_dir before).files) rds in
      (
        cfg,
        _,
        checked,
        ap (λ t. t.daemon) same,
        state,
        ready,
        subst (AreRemoved cfg.cdi_spec_dir before) (sym left)
            (do_cleanup-AreRemoved cfg.cdi_spec_dir before),
      )
