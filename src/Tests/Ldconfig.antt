-- ===== src/Tests/Ldconfig.antt =====
-- The theorems about internal/ldconfig at concrete inputs.
use rbln_container_toolkit.Prelude.{String, ◌≡◌, ◌≢◌, refl, List, [], ◌∷◌, string_eq, arith, eq_iff}
use rbln_container_toolkit.Prelude.Texts.{has_prefix}
use rbln_container_toolkit.Prelude.Results.{ok}
use rbln_container_toolkit.Ldconfig.{new_runner, parse_update}
use rbln_container_toolkit.Ldconfig.Arguments.{IsPlain, new_runner-parse_update}

abbrev two_dirs : List String
two_dirs = "/usr/lib64" ∷ "/usr/local/lib" ∷ []

abbrev arguments : List String
arguments =
    "rbln-update-ldcache" ∷ "--ldconfig-path" ∷ "/sbin/ldconfig" ∷ "--container-root" ∷ "/c/rootfs"
    ∷ two_dirs

made_runner : new_runner "/sbin/ldconfig" "/c/rootfs" two_dirs ≡ ok arguments
unfolding new_runner
made_runner = refl

IsPlain-dirs : IsPlain "/usr/lib64" × IsPlain "/usr/local/lib"
unfolding has_prefix
IsPlain-dirs = (refl, refl)

abbrev ldconfig : String
ldconfig = "/sbin/ldconfig"

path_given : ldconfig ≢ ""
path_given e = ground (arith, eq_iff ldconfig "")

new_runner-parse_update_example :
    parse_update (λ args. "") arguments
    ≡ ok (record {
      ldconfig_path = "/sbin/ldconfig";
      container_root = "/c/rootfs";
      directories = two_dirs;
    })
new_runner-parse_update_example =
    new_runner-parse_update (λ args. "") "/sbin/ldconfig" "/c/rootfs" two_dirs arguments path_given
      (IsPlain-dirs.0, (IsPlain-dirs.1, tt)) made_runner

abbrev three_dirs : List String
three_dirs = "/usr/lib64" ∷ "/usr/local/lib" ∷ "/usr/lib64" ∷ []
