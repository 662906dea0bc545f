-- ===== src/Command/Configure/Consent.antt =====
-- What `rbln-ctk runtime configure` changes, and what it leaves: cmd/rbln-ctk/runtime.go with
-- internal/runtime.
use rbln_container_toolkit.Prelude.{
  String, ◌<>◌, ◌≡◌, refl, sym, ap, ◌∙◌, inl, inr, Bool, true, false, not, ◌&&◌, ◌||◌, Option, none,
  some, List, Bool-cases, if◌then◌else◌, arith,
}
use rbln_container_toolkit.Prelude.Results.{Result, ok, err}
use rbln_container_toolkit.Runtime.Disk.{Disk}
use rbln_container_toolkit.Runtime.Document.{IsToml, IsJson}
use rbln_container_toolkit.Runtime.Configurator.{
  Kind, Configurator, kind_of, cdi_ready, new_configurator, configure, dry_run,
}
use rbln_container_toolkit.Runtime.Configurator.Ready.{
  Decides, configure-ready, new_configurator-kind,
}
use rbln_container_toolkit.Command.Configure.{
  Request, Terminal, ran, chosen_runtime, chosen_path, says_yes, answered, configured_as,
  configure_now, ask_first, preview, with_configurator, configure_chosen, execute_runtime_configure,
  dry_run,
}

-- The answer that was read.
abbrev pub answers_yes : Terminal → Result String → Bool
answers_yes t (err e) = false
answers_yes t (ok line) = says_yes t line

-- The change is asked for: no preview, and the question is skipped or answered by yes.
abbrev pub consents : Terminal → Request → Bool
consents t r = not r.dry_run && (r.skip_confirm || (r.quiet || answers_yes t t.answer))

module _ (t : Terminal) (r : Request) where
  answered-kept :
      (runtime path asked : String) (c : Configurator) (d : Disk) (answer : Result String)
      → answers_yes t answer ≡ false
      → (answered t r runtime path asked c d answer).disk ≡ d
  answered-kept runtime path asked c d (err e) h = refl
  answered-kept runtime path asked c d (ok line) h =
      ap
        (λ b.
          (if b
            then configure_now t r runtime path asked c d
            else ran d (asked <> "Aborted.\n") none).disk)
        h

  preview-kept :
      (d : Disk) (printed : String) (diff : Result String) → (preview d printed diff).disk ≡ d
  preview-kept d printed (ok text) = refl
  preview-kept d printed (err e) = refl

  ask_first-kept :
      (runtime path printed : String) (c : Configurator) (d : Disk)
      → (r.skip_confirm || (r.quiet || answers_yes t t.answer)) ≡ false
      → (ask_first t r runtime path printed c d).disk ≡ d
  unfolding ask_first
  ask_first-kept runtime path printed c d refused =
      let asked = printed <> ("This will modify " <> (path <> ". Continue? [y/N] ")) in
      let skips : (r.skip_confirm || r.quiet) ≡ false = ground (arith, refused) in
      ap
        (λ b.
          (if b
            then configure_now t r runtime path printed c d
            else answered t r runtime path asked c d t.answer).disk)
        skips
      ∙ answered-kept runtime path asked c d t.answer (ground (arith, refused))

  with_configurator-kept :
      (runtime path printed : String) (d : Disk) (made : Result Configurator)
      → consents t r ≡ false
      → (with_configurator t r runtime path printed d made).disk ≡ d
  with_configurator-kept runtime path printed d (err e) refused = refl
  with_configurator-kept runtime path printed d (ok c) refused =
      (elim r.dry_run
          as (λ b.
            (not b && (r.skip_confirm || (r.quiet || answers_yes t t.answer))) ≡ false
            → (if b
                then preview d printed (dry_run t.toml t.json c d)
                else ask_first t r runtime path printed c d).disk
              ≡ d) [
                | true ↦ λ h. preview-kept d printed (dry_run t.toml t.json c d)
                | false ↦ λ h. ask_first-kept runtime path printed c d h
              ])
        refused

  configure_chosen-kept :
      (d : Disk) (chosen : Result (String × String))
      → consents t r ≡ false
      → (configure_chosen t r d chosen).disk ≡ d
  unfolding configure_chosen
  configure_chosen-kept d (err e) refused = refl
  configure_chosen-kept d (ok (runtime, printed)) refused =
      with_configurator-kept runtime _ printed d _ refused

  -- A preview, and a run whose question is answered by anything but yes, or by nothing that can be read,
  -- leave every file as it is.
  pub execute_runtime_configure-kept :
      (d : Disk) → consents t r ≡ false → (execute_runtime_configure t r d).disk ≡ d
  unfolding execute_runtime_configure
  execute_runtime_configure-kept d refused = configure_chosen-kept d (chosen_runtime t r) refused

  configured_as-fine :
      (runtime path printed : String) (disk : Disk) (error : Option String)
      → (configured_as r runtime path printed disk error).error ≡ none
      → (error ≡ none) × ((configured_as r runtime path printed disk error).disk ≡ disk)
  configured_as-fine runtime path printed disk none fine = (refl, refl)
  configured_as-fine runtime path printed disk (some e) fine = ground (arith, fine)

  answered-yes :
      (runtime path asked : String) (c : Configurator) (d : Disk) (answer : Result String)
      → answers_yes t answer ≡ true
      → answered t r runtime path asked c d answer ≡ configure_now t r runtime path asked c d
  answered-yes runtime path asked c d (err e) h = ground (arith, h)
  answered-yes runtime path asked c d (ok line) h =
      ap
        (λ b.
          if b
          then configure_now t r runtime path asked c d
          else ran d (asked <> "Aborted.\n") none)
        h

  ask_first-goes :
      (runtime path printed : String) (c : Configurator) (d : Disk)
      → (r.skip_confirm || (r.quiet || answers_yes t t.answer)) ≡ true
      → (before : String) × (ask_first t r runtime path printed c d
          ≡ configure_now t r runtime path before c d)
  unfolding ask_first
  ask_first-goes runtime path printed c d given =
      let asked = printed <> ("This will modify " <> (path <> ". Continue? [y/N] ")) in
      let choose = λ (b : Bool).
        if b
        then configure_now t r runtime path printed c d
        else answered t r runtime path asked c d t.answer in
      elim (Bool-cases (r.skip_confirm || r.quiet)) [
        | inl skips ↦ (printed, ap choose skips)
        | inr asks ↦ (
          asked,
          ap choose asks
              ∙ answered-yes runtime path asked c d t.answer (ground (arith, given, asks)),
        )
      ]

  configure_now-ready :
      (is_toml : IsToml t.toml) (is_json : IsJson t.json)
      (runs : String × List String → Result String) (runtime path printed host_root : String)
      (c : Configurator) (d : Disk)
      → new_configurator runtime path (some r.cdi_enabled) ≡ ok c
      → Decides t.toml c.kind d path
      → (configure_now t r runtime path printed c d).error ≡ none
      → cdi_ready t.toml t.json runs runtime
          (configure_now t r runtime path printed c d).disk
          path
          host_root
        ≡ ok true
  unfolding configure_now
  configure_now-ready is_toml is_json runs runtime path printed host_root c d made decides fine =
      let done = configure t.toml t.json c d in
      let (well, same) = configured_as-fine runtime path printed done.disk done.error fine in
      ap (λ e. cdi_ready t.toml t.json runs runtime e path host_root) same
      ∙ configure-ready t.toml t.json is_toml is_json runs runtime path host_root
          (some r.cdi_enabled) c d made decides well

  with_configurator-ready :
      (is_toml : IsToml t.toml) (is_json : IsJson t.json)
      (runs : String × List String → Result String) (runtime path printed host_root : String)
      (d : Disk) (made : Result Configurator)
      → consents t r ≡ true
      → new_configurator runtime path (some r.cdi_enabled) ≡ made
      → ((kind : Kind) → kind_of runtime ≡ some kind → Decides t.toml kind d path)
      → (with_configurator t r runtime path printed d made).error ≡ none
      → cdi_ready t.toml t.json runs runtime
          (with_configurator t r runtime path printed d made).disk
          path
          host_root
        ≡ ok true
  with_configurator-ready is_toml is_json runs runtime path printed host_root d (err e) given made
        decides fine =
      ground (arith, fine)
  with_configurator-ready is_toml is_json runs runtime path printed host_root d (ok c) given made
        decides fine =
      let real : r.dry_run ≡ false = ground (arith, given) in
      let known =
        new_configurator-kind t.toml t.json is_toml is_json runs runtime path (some r.cdi_enabled) c
          made in
      let (before, goes) = ask_first-goes runtime path printed c d (ground (arith, given)) in
      let same =
        ap
          (λ b.
            if b
            then preview d printed (dry_run t.toml t.json c d)
            else ask_first t r runtime path printed c d)
          real
        ∙ goes in
      ap (λ e. cdi_ready t.toml t.json runs runtime e.disk path host_root) same
      ∙ configure_now-ready is_toml is_json runs runtime path before host_root c d made
          (decides c.kind known.0) (sym (ap (λ e. e.error) same) ∙ fine)

  -- A run that is asked for and succeeds leaves the runtime ready.
  pub execute_runtime_configure-ready :
      (is_toml : IsToml t.toml) (is_json : IsJson t.json)
      (runs : String × List String → Result String) (runtime printed host_root : String) (d : Disk)
      → consents t r ≡ true
      → chosen_runtime t r ≡ ok (runtime, printed)
      → ((kind : Kind)
          → kind_of runtime ≡ some kind
          → Decides t.toml kind d (chosen_path r runtime))
      → (execute_runtime_configure t r d).error ≡ none
      → cdi_ready t.toml t.json runs runtime
          (execute_runtime_configure t r d).disk
          (chosen_path r runtime)
          host_root
        ≡ ok true
  unfolding execute_runtime_configure configure_chosen
  execute_runtime_configure-ready is_toml is_json runs runtime printed host_root d given chosen
        decides fine =
      let same = ap (configure_chosen t r d) chosen in
      ap (λ e. cdi_ready t.toml t.json runs runtime e.disk (chosen_path r runtime) host_root) same
      ∙ with_configurator-ready is_toml is_json runs runtime (chosen_path r runtime) printed
          host_root d (new_configurator runtime (chosen_path r runtime) (some r.cdi_enabled)) given
          refl decides (sym (ap (λ e. e.error) same) ∙ fine)
