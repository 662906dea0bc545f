-- ===== src/Daemon/Watcher/Diff.antt =====
-- `versionsDiffer` against equality of maps.
use text.Mathlib.TextPositions.{eq_refl}
use rbln_container_toolkit.Prelude.{
  String, ◌≡◌, ◌≢◌, ◌↔◌, refl, sym, ◌∙◌, true, false, none, some, [], ◌∷◌, length, ◌==◌, nat_eq,
  string_eq, eq_iff, arith,
}
use rbln_container_toolkit.Prelude.Dict.{
  Dict, lookup, erase, NodupKeys, lookup-erase, length-erase, erase-NodupKeys,
}
use rbln_container_toolkit.Daemon.Watcher.{or_empty, any_changed, versions_differ}

-- No fingerprint is empty.
abbrev pub NoEmpty : Dict String → Type 0
NoEmpty [] = Unit
NoEmpty ((k, v) ∷ a) = (v ≢ "") × NoEmpty a

-- A snapshot as the prober makes it: a map with no empty fingerprint.
abbrev pub IsSnapshot : Dict String → Type 0
IsSnapshot a = NodupKeys a × NoEmpty a

-- The same map, whatever the order of its entries.
abbrev pub SameMap : Dict String → Dict String → Type 0
SameMap a b = (k : String) → lookup k a ≡ lookup k b

any_changed-erase :
    (k : String) (b a : Dict String)
    → lookup k a ≡ none
    → any_changed (erase k b) a ≡ any_changed b a
unfolding any_changed lookup
any_changed-erase k b [] h = refl
any_changed-erase k b ((j, v) ∷ a) h =
    ground (arith, eq_iff j k, eq_iff k j, lookup-erase k j b, any_changed-erase k b a)

-- An entry that is not changed is an entry of the other map.
found :
    (k v : String) (b : Dict String)
    → v ≢ ""
    → (or_empty (lookup k b) == v) ≡ true
    → lookup k b ≡ some v
found k v b h e = ground (arith, eq_iff (or_empty (lookup k b)) v)

same_of_unchanged :
    (a b : Dict String)
    → IsSnapshot a
    → NodupKeys b
    → length a ≡ length b
    → any_changed b a ≡ false
    → SameMap a b
unfolding any_changed lookup
same_of_unchanged [] [] s n l h j = refl
same_of_unchanged [] (x ∷ b) s n l h j = absurd (omega arith)
same_of_unchanged ((k, v) ∷ a) b s n l h j =
    let here : lookup k b ≡ some v = found k v b s.1.0 (first_same h) in
    let below : lookup j a ≡ lookup j (erase k b) =
      same_of_unchanged a (erase k b) (s.0.1, s.1.1) (erase-NodupKeys k b n)
        (omega (arith, length-erase k b n here, l)) (any_changed-erase k b a s.0.0 ∙ rest_same h)
        j in
    ground (arith, here, below, lookup-erase k j b, eq_iff k j)
  where
    first_same : any_changed b ((k, v) ∷ a) ≡ false → (or_empty (lookup k b) == v) ≡ true
    first_same e = ground arith

    rest_same : any_changed b ((k, v) ∷ a) ≡ false → any_changed b a ≡ false
    rest_same e = ground arith

lookup_first : (k v : String) (a : Dict String) → lookup k ((k, v) ∷ a) ≡ some v
unfolding lookup
lookup_first k v a = simp eq_refl

-- Every entry of `a` stands in `b`.
abbrev Within : Dict String → Dict String → Type 0
Within a b = (k v : String) → lookup k a ≡ some v → lookup k b ≡ some v

Within-tail :
    (k v : String) (a b : Dict String) → NodupKeys ((k, v) ∷ a) → Within ((k, v) ∷ a) b → Within a b
unfolding lookup
Within-tail k v a b n w j u h = w j u (ground (arith, eq_iff k j))

unchanged_of_Within : (a b : Dict String) → NodupKeys a → Within a b → any_changed b a ≡ false
unfolding any_changed
unchanged_of_Within [] b n w = refl
unchanged_of_Within ((k, v) ∷ a) b n w = ground (
  arith,
  unchanged_of_Within a b n.1 (Within-tail k v a b n w),
  w k v (lookup_first k v a),
  eq_refl v,
)

length_of_same : (a b : Dict String) → NodupKeys a → NodupKeys b → SameMap a b → length a ≡ length b
unfolding lookup
length_of_same [] [] na nb h = refl
length_of_same [] ((k, v) ∷ b) na nb h = absurd (not_none (h k ∙ lookup_first k v b))
  where
    not_none : lookup k [] ≡ some v → ⊥
    not_none e = cc
length_of_same ((k, v) ∷ a) b na nb h = omega (
  arith,
  length_of_same a (erase k b) na.1 (erase-NodupKeys k b nb) tail_same,
  length-erase k b nb (sym (h k) ∙ lookup_first k v a),
)
  where
    tail_same : SameMap a (erase k b)
    tail_same j = ground (arith, h j, lookup-erase k j b, eq_iff k j, na.0)

-- Two snapshots, as maps, are taken for the same exactly when they are: a difference is reported
-- for every library that came, went or changed, and for nothing else.
pub versions_differ_iff :
    (a b : Dict String) → IsSnapshot a → NodupKeys b → (versions_differ a b ≡ false) ↔ SameMap a b
unfolding versions_differ
versions_differ_iff a b s n = (
  λ h. same_of_unchanged a b s n (ground arith) (ground arith),
  λ h.
      ground
        (arith, length_of_same a b s.0 n h, unchanged_of_Within a b s.0 (λ k v e. sym (h k) ∙ e)),
)
