-- ===== src/Hook/LdCache.antt =====
-- cmd/rbln-cdi-hook/update_ldcache.go: the hook that has the linker's cache of a container updated.
use rbln_container_toolkit.Prelude.{String, ◌<>◌, Option, none, some, List}
use rbln_container_toolkit.Prelude.Results.{ok, err, wrap, ◌>>=◌}
use rbln_container_toolkit.Ldconfig.{new_runner}
use rbln_container_toolkit.Hook.{Input, load_container_state, get_container_root}

-- `executeUpdateLdcache`; `run` runs a command line and tells its error.
unfoldable pub execute_update_ldcache :
    Input → (List String → Option String) → List String → String → String → Option String
unfolding load_container_state get_container_root new_runner
execute_update_ldcache input run folders ldconfig_path container_spec =
    elim (do
      state ← wrap "failed to load container state: " (load_container_state input container_spec)
      root ← wrap "failed to determine container root: " (get_container_root input state)
      wrap "failed to create ldconfig runner: " (new_runner ldconfig_path root folders)) [
        | err e ↦ some e
        | ok command ↦ elim (run command) [
          | none ↦ none
          | some e ↦ some ("ldconfig execution failed: " <> e)
        ]
      ]
