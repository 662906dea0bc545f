-- ===== src/Command/Setup/Again.antt =====
-- A daemon that was set up finds its runtime ready the next time: cmd/rbln-ctk-daemon/root.go with
-- internal/runtime.
use rbln_container_toolkit.Prelude.{
  String, ◌≡◌, refl, sym, ap, subst, ◌∙◌, Bool, true, false, not, ◌&&◌, Option, none, some,
  if◌then◌else◌, ◌==◌, string_eq, arith,
}
use rbln_container_toolkit.Prelude.Results.{Result, ok, err}
use rbln_container_toolkit.Restart.{new_restarter}
use rbln_container_toolkit.Runtime.Disk.{Disk}
use rbln_container_toolkit.Runtime.Document.{IsToml, IsJson}
use rbln_container_toolkit.Runtime.Configurator.{
  Kind, Configurator, kind_of, cdi_ready, new_configurator, configure,
}
use rbln_container_toolkit.Runtime.Configurator.Ready.{
  Decides, configure-ready, new_configurator-kind,
}
use rbln_container_toolkit.Command.Paths.{resolve_config_path}
use rbln_container_toolkit.Command.Setup.{
  World, Arguments, Machine, restart_options, restarted, restart_runtime, restart_if, configured,
  install_hook_binary, configure_runtime, unless_ready, enable_cdi_for, with_hook, enable_if, setup,
}

module _ (w : World) (a : Arguments) where
  -- The path of the runtime's configuration.
  abbrev pub config_of : String
  config_of = resolve_config_path a.runtime a.host_root a.config_path

  -- `CDIReady` answers true.
  abbrev pub IsReady : Disk → Type 0
  IsReady d = cdi_ready w.toml w.json w.runs a.runtime d config_of a.host_root ≡ ok true

  restart_runtime-disk : (m : Machine) → (restart_runtime w a m).machine.disk ≡ m.disk
  unfolding restart_runtime
  restart_runtime-disk m =
      elim (new_restarter (restart_options a)) as (λ r. (restarted w a m r).machine.disk ≡ m.disk) [
        | ok restarter ↦ refl
        | err e ↦ refl
      ]

  restart_if-disk :
      (m : Machine) (disk : Disk) (error : Option String)
      → (restart_if w a m disk error).error ≡ none
      → (error ≡ none) × ((restart_if w a m disk error).machine.disk ≡ disk)
  restart_if-disk m disk (some e) fine = ground (arith, fine)
  restart_if-disk m disk none fine = (refl, restart_runtime-disk (record m { disk = disk }))

  -- What CRI-O needs of the files around its own.
  abbrev pub DecidesFor : Disk → Type 0
  DecidesFor d = (kind : Kind) → kind_of a.runtime ≡ some kind → Decides w.toml kind d config_of

  module _ (is_toml : IsToml w.toml) (is_json : IsJson w.json) where
    configured-IsReady :
        (m : Machine) (r : Result Configurator)
        → DecidesFor m.disk
        → new_configurator a.runtime config_of none ≡ r
        → (configured w a m r).error ≡ none
        → IsReady (configured w a m r).machine.disk
    configured-IsReady m (err e) decides made fine = ground (arith, fine)
    configured-IsReady m (ok c) decides made fine =
        let done = configure w.toml w.json c m.disk in
        let (well, same) = restart_if-disk m done.disk done.error fine in
        let known =
          new_configurator-kind w.toml w.json is_toml is_json w.runs a.runtime config_of none c
            made in
        subst IsReady (sym same) (
          configure-ready w.toml w.json is_toml is_json w.runs a.runtime config_of a.host_root none
            c m.disk made (decides c.kind known.0) well)

    unless_ready-IsReady :
        (m : Machine) (r : Result Bool)
        → DecidesFor m.disk
        → cdi_ready w.toml w.json w.runs a.runtime m.disk config_of a.host_root ≡ r
        → (unless_ready w a config_of m r).error ≡ none
        → IsReady (unless_ready w a config_of m r).machine.disk
    unfolding configure_runtime
    unless_ready-IsReady m (ok true) decides answer fine = answer
    unless_ready-IsReady m (ok false) decides answer fine =
        configured-IsReady m (new_configurator a.runtime config_of none) decides refl fine
    unless_ready-IsReady m (err e) decides answer fine =
        configured-IsReady m (new_configurator a.runtime config_of none) decides refl fine

    enable_if-IsReady :
        (m : Machine) (error : Option String)
        → DecidesFor m.disk
        → (enable_if w a m error).error ≡ none
        → IsReady (enable_if w a m error).machine.disk
    unfolding enable_cdi_for
    enable_if-IsReady m (some e) decides fine = ground (arith, fine)
    enable_if-IsReady m none decides fine = unless_ready-IsReady m _ decides refl fine

    with_hook-same :
        (m : Machine)
        → ((with_hook w a m).disk ≡ m.disk) × ((with_hook w a m).restarts ≡ m.restarts)
    unfolding with_hook
    with_hook-same m =
        elim (not (a.host_root == "/") && not (a.host_root == ""))
          as (λ b.
            let hooked =
              if b
              then record m { binaries = (install_hook_binary w a.host_root m.binaries).disk }
              else m in
            (hooked.disk ≡ m.disk) × (hooked.restarts ≡ m.restarts)) [
              | true ↦ (refl, refl)
              | false ↦ (refl, refl)
            ]

    setup-IsReady :
        (m : Machine)
        → DecidesFor m.disk
        → (setup w a m).error ≡ none
        → IsReady (setup w a m).machine.disk
    unfolding setup
    setup-IsReady m decides fine =
        enable_if-IsReady _ _ (subst DecidesFor (sym (with_hook-same m).0) decides) fine

    -- On a disk that is ready the runtime is left alone.
    enable_if-same :
        (m : Machine) (error : Option String)
        → IsReady m.disk
        → ((enable_if w a m error).machine.disk ≡ m.disk)
          × ((enable_if w a m error).machine.restarts ≡ m.restarts)
    unfolding enable_cdi_for
    enable_if-same m (some e) ready = (refl, refl)
    enable_if-same m none ready =
        let same = ap (unless_ready w a config_of m) ready in
        (ap (λ t. t.machine.disk) same, ap (λ t. t.machine.restarts) same)

    -- After a setup that succeeds, a setup with the same arguments leaves the runtime's files as they are
    -- and does not restart the runtime, whatever became of the specs in between and whether it succeeds
    -- or not. That holds also where the restart of the first setup has failed.
    pub setup_again :
        (m later : Machine)
        → DecidesFor m.disk
        → (setup w a m).error ≡ none
        → later.disk ≡ (setup w a m).machine.disk
        → ((setup w a later).machine.disk ≡ later.disk)
          × ((setup w a later).machine.restarts ≡ later.restarts)
    unfolding setup
    setup_again m later decides fine kept =
        let hooked = with_hook w a later in
        let same = with_hook-same later in
        let ready : IsReady hooked.disk =
          subst IsReady (sym (same.0 ∙ kept)) (setup-IsReady m decides fine) in
        let (disk, restarts) = enable_if-same _ _ ready in (disk ∙ same.0, restarts ∙ same.1)
