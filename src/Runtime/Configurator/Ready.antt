-- ===== src/Runtime/Configurator/Ready.antt =====
-- The runtimes are ready after `Configure`, whichever they are.
use rbln_container_toolkit.Prelude.{
  String, ◌≡◌, refl, sym, ap, ◌∙◌, Bool, true, Option, none, some, List, ◌∷◌, ◌++◌, arith,
}
use rbln_container_toolkit.Prelude.Results.{Result, ok}
use rbln_container_toolkit.Runtime.Disk.{Disk}
use rbln_container_toolkit.Runtime.Document.{Codec, IsToml, IsJson}
use rbln_container_toolkit.Runtime.Containerd.Ready.{configure_containerd-ready}
use rbln_container_toolkit.Runtime.Docker.Ready.{configure_docker-ready}
use rbln_container_toolkit.Runtime.Crio.{configure_crio, files_beside}
use rbln_container_toolkit.Runtime.Crio.Precedence.{AllSilent}
use rbln_container_toolkit.Runtime.Crio.DropIn.{ReadsDropIn, configure_crio-ready}
use rbln_container_toolkit.Runtime.Configurator.{
  Kind, containerd, crio, docker, Configurator, kind_of, new_configurator, configure,
  configure_kind, kind_ready, cdi_ready,
}

-- What CRI-O needs beside the drop-in: it is read, and no file of a higher precedence sets the
-- directories. The other runtimes have one file.
abbrev pub Decides : Codec → Kind → Disk → String → Type 0
Decides toml containerd d path = Unit
Decides toml docker d path = Unit
Decides toml crio d path =
    ReadsDropIn toml
    × (d.read_error path ≡ none)
    × ((lower : List String) × (higher : List String) × (files_beside (configure_crio d path).disk
            path
          ≡ ok (lower ++ (path ∷ higher)))
        × AllSilent toml (configure_crio d path).disk higher)

module _ (toml json : Codec) (is_toml : IsToml toml) (is_json : IsJson json)
    (runs : String × List String → Result String) where
  configure_kind-ready :
      (kind : Kind) (d : Disk) (path host_root : String)
      → Decides toml kind d path
      → (configure_kind toml json kind d path).error ≡ none
      → kind_ready toml json runs kind (configure_kind toml json kind d path).disk path host_root
        ≡ ok true
  unfolding configure_kind kind_ready
  configure_kind-ready containerd d path host_root decides fine =
      configure_containerd-ready toml is_toml runs d path host_root fine
  configure_kind-ready docker d path host_root decides fine =
      configure_docker-ready json is_json runs d path host_root fine
  configure_kind-ready crio d path host_root (reads, readable, (lower, higher, listed, silent))
        fine =
      configure_crio-ready toml d path lower higher reads readable fine listed silent

  pub new_configurator-kind :
      (runtime path : String) (opts : Option Bool) (c : Configurator)
      → new_configurator runtime path opts ≡ ok c
      → (kind_of runtime ≡ some c.kind) × (c.config_path ≡ path)
  unfolding new_configurator
  new_configurator-kind runtime path opts c made = ground arith

  -- After a `Configure` that succeeds, for containerd and for Docker and with any option, `CDIReady`
  -- answers true, so that the runtime is not configured and restarted again. For CRI-O that holds where
  -- the drop-in can be read, the decoder reads what was written to it, and no file of a higher
  -- precedence sets the directories. The codecs decode what they encode.
  pub configure-ready :
      (runtime path host_root : String) (opts : Option Bool) (c : Configurator) (d : Disk)
      → new_configurator runtime path opts ≡ ok c
      → Decides toml c.kind d path
      → (configure toml json c d).error ≡ none
      → cdi_ready toml json runs runtime (configure toml json c d).disk path host_root ≡ ok true
  unfolding configure cdi_ready
  configure-ready runtime path host_root opts c d made decides fine =
      let (kind, same) = new_configurator-kind runtime path opts c made in
      let moved : configure_kind toml json c.kind d c.config_path
          ≡ configure_kind toml json c.kind d path =
        ap (configure_kind toml json c.kind d) same in
      let chosen : cdi_ready toml json runs runtime (configure toml json c d).disk path host_root
          ≡ kind_ready toml json runs c.kind (configure toml json c d).disk path host_root =
        rw (cdi_ready, kind) refl in
      chosen
      ∙ (ap (λ e. kind_ready toml json runs c.kind e.disk path host_root) moved
          ∙ configure_kind-ready c.kind d path host_root decides
              (sym (ap (λ e. e.error) moved) ∙ fine))
