-- ===== src/Topology.antt =====
-- internal/topology/resolver.go: which RSD group an NPU belongs to.
-- A resolver is known by its answers.
use rbln_container_toolkit.Prelude.{
  ℕ, ◌≡◌, refl, Option, none, some, List, [], ◌∷◌, ◌==◌, nat_eq, if◌then◌else◌,
}

abbrev pub RsdResolver : Type 0
RsdResolver = ℕ → Option ℕ

abbrev pub noop_resolver : RsdResolver
noop_resolver npu = none

-- A Go map from NPU to RSD index, with one entry for each key.
abbrev pub Mapping : Type 0
Mapping = List (ℕ × ℕ)

unfoldable pub resolve_cached : Mapping → RsdResolver
resolve_cached [] npu = none
resolve_cached ((k, v) ∷ m) npu =
    let rest = resolve_cached m npu in if k == npu then some v else rest

unfoldable pub new_cached_resolver : Mapping → RsdResolver
unfolding resolve_cached
new_cached_resolver [] = noop_resolver
new_cached_resolver (e ∷ m) = resolve_cached (e ∷ m)

-- A mapping of no devices answers as the resolver that knows nothing.
new_cached_resolver-resolve_cached :
    (m : Mapping) (npu : ℕ) → new_cached_resolver m npu ≡ resolve_cached m npu
unfolding new_cached_resolver
new_cached_resolver-resolve_cached [] npu = refl
new_cached_resolver-resolve_cached (e ∷ m) npu = refl
