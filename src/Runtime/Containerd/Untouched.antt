-- ===== src/Runtime/Containerd/Untouched.antt =====
-- What enabling CDI leaves as it is in the document of containerd.
use rbln_container_toolkit.Prelude.{
  String, ◌≡◌, refl, sym, ◌∙◌, Bool, true, false, Option, none, some, List, ◌==◌, string_eq, arith,
  eq_iff,
}
use rbln_container_toolkit.Prelude.Int.{pos}
use rbln_container_toolkit.Runtime.Document.{
  Table, flag, number, items, table, get, put, as_table, or_empty_table, in_table, of_texts, get_in,
  get-put,
}
use rbln_container_toolkit.Runtime.Containerd.{
  cri_plugin_key, in_cri_section, enable_cdi, spec_dirs, new_spec_dirs, put_dirs, enabled,
}
use rbln_container_toolkit.Runtime.Containerd.Enable.{
  cri_path, cri_of, get_in-cri_of, get_in-enabled, dirs_after, enable_cdi-enabled,
  spec_dirs-enabled,
}

get-in_cri_section :
    (change : Table → Table) (t : Table) (k : String)
    → (k == "plugins") ≡ false
    → get k (in_cri_section change t) ≡ get k t
unfolding in_cri_section in_table
get-in_cri_section change t k beside =
    let cri = in_table cri_plugin_key change (or_empty_table (as_table (get "plugins" t))) in
    ground (arith, get-put "plugins" k (table cri) t, eq_iff "plugins" k, eq_iff k "plugins")

get-enabled :
    (fresh : Bool) (root : Table) (k : String)
    → (k == "plugins") ≡ false
    → (k == "version") ≡ false
    → get k (enabled fresh root) ≡ get k root
unfolding enabled
get-enabled fresh root k beside below =
    let switched = in_cri_section (put "enable_cdi" (flag true)) root in
    let change = put_dirs (new_spec_dirs (spec_dirs switched)) in
    ground (
      arith,
      get-put "version" k (number (pos 2)) (in_cri_section change switched),
      get-in_cri_section change switched k beside,
      get-in_cri_section (put "enable_cdi" (flag true)) root k beside,
      eq_iff "version" k,
      eq_iff k "version",
    )

get-put_dirs :
    (n : Option (List String)) (k : String) (t : Table)
    → (k == "cdi_spec_dirs") ≡ false
    → get k (put_dirs n t) ≡ get k t
get-put_dirs none k t other = refl
get-put_dirs (some dirs) k t other = ground (
  arith,
  get-put "cdi_spec_dirs" k (items (of_texts dirs)) t,
  eq_iff "cdi_spec_dirs" k,
  eq_iff k "cdi_spec_dirs",
)

get_in-enabled_other :
    (fresh : Bool) (root : Table) (k : String)
    → (k == "enable_cdi") ≡ false
    → (k == "cdi_spec_dirs") ≡ false
    → get_in cri_path k (enabled fresh root) ≡ get_in cri_path k root
get_in-enabled_other fresh root k switch dirs =
    let untouched : get k (put "enable_cdi" (flag true) (cri_of root)) ≡ get k (cri_of root) =
      ground (
        arith,
        get-put "enable_cdi" k (flag true) (cri_of root),
        eq_iff "enable_cdi" k,
        eq_iff k "enable_cdi",
      ) in
    get_in-enabled fresh root k
    ∙ (get-put_dirs (new_spec_dirs (spec_dirs root)) k (put "enable_cdi" (flag true) (cri_of root))
          dirs
        ∙ (untouched ∙ sym (get_in-cri_of k root)))

-- Enabling switches CDI on, keeps the operator's directories with the default one added where it is
-- not among them, and keeps the other settings: those at the top of the document beside the plugins
-- and the version, and those of the CRI section beside the two that it writes.
pub enabled_document :
    (fresh : Bool) (root : Table) (k j : String)
    → (k == "plugins") ≡ false
    → (k == "version") ≡ false
    → (j == "enable_cdi") ≡ false
    → (j == "cdi_spec_dirs") ≡ false
    → (enable_cdi (enabled fresh root) ≡ some true)
      × (spec_dirs (enabled fresh root) ≡ some (dirs_after (spec_dirs root)))
      × (get k (enabled fresh root) ≡ get k root)
      × (get_in cri_path j (enabled fresh root) ≡ get_in cri_path j root)
enabled_document fresh root k j beside below switch dirs = (
  enable_cdi-enabled fresh root,
  spec_dirs-enabled fresh root,
  get-enabled fresh root k beside below,
  get_in-enabled_other fresh root j switch dirs,
)
