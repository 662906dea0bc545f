-- ===== src/Runtime/Containerd/Enable.antt =====
-- The document that enabling writes, and the readiness of what is read back.
use rbln_container_toolkit.Prelude.{
  String, ◌≡◌, refl, sym, ap, ◌∙◌, inl, inr, Bool, true, false, Option, none, some, List, [], ◌∷◌,
  ◌++◌, Bool-cases, if◌then◌else◌, string_eq, arith,
}
use rbln_container_toolkit.Prelude.Int.{pos}
use rbln_container_toolkit.Runtime.Document.{
  Value, Table, flag, number, items, get, put, as_table, as_flag, as_texts, or_empty_table,
  in_table, of_texts, get_in, Agrees, get-put, texts-of_texts, get_in-in_table,
}
use rbln_container_toolkit.Runtime.SpecDir.{
  default_cdi_spec_dir, contains_clean_path, contains_clean_path-added,
}
use rbln_container_toolkit.Runtime.Version.{Version}
use rbln_container_toolkit.Runtime.Containerd.{
  cri_plugin_key, in_cri_section, enable_cdi, spec_dirs, scans_default_spec_dir, new_spec_dirs,
  put_dirs, enabled, document_ready,
}

abbrev pub cri_path : List String
cri_path = "plugins" ∷ cri_plugin_key ∷ []

enable_cdi-get_in : (t : Table) → enable_cdi t ≡ as_flag (get_in cri_path "enable_cdi" t)
unfolding enable_cdi get_in
enable_cdi-get_in t = ground arith

spec_dirs-get_in : (t : Table) → spec_dirs t ≡ as_texts (get_in cri_path "cdi_spec_dirs" t)
unfolding spec_dirs get_in
spec_dirs-get_in t = ground arith

-- The readiness of a document depends on its values only.
pub document_ready-Agrees :
    (version : Option Version) (t u : Table)
    → Agrees t u
    → document_ready version u ≡ document_ready version t
unfolding document_ready scans_default_spec_dir
document_ready-Agrees version t u same = ground (
  arith,
  enable_cdi-get_in t,
  enable_cdi-get_in u,
  spec_dirs-get_in t,
  spec_dirs-get_in u,
  same.flags cri_path "enable_cdi",
  same.lists cri_path "cdi_spec_dirs",
)

-- The CRI table, which is empty where there is none.
abbrev pub cri_of : Table → Table
cri_of t =
    or_empty_table (as_table (get cri_plugin_key (or_empty_table (as_table (get "plugins" t)))))

get_in-in_cri_section :
    (k : String) (change : Table → Table) (t : Table)
    → get_in cri_path k (in_cri_section change t) ≡ get k (change (cri_of t))
unfolding in_cri_section
get_in-in_cri_section k change t =
    get_in-in_table "plugins" (cri_plugin_key ∷ []) k (in_table cri_plugin_key change) t
    ∙ (get_in-in_table cri_plugin_key [] k change (or_empty_table (as_table (get "plugins" t)))
        ∙ (unfold get_in in refl))

pub get_in-cri_of : (k : String) (t : Table) → get_in cri_path k t ≡ get k (cri_of t)
unfolding get_in get
get_in-cri_of k t = ground arith

cri_of-in_cri_section :
    (change : Table → Table) (k : String) (t : Table)
    → get k (cri_of (in_cri_section change t)) ≡ get k (change (cri_of t))
cri_of-in_cri_section change k t =
    sym (get_in-cri_of k (in_cri_section change t)) ∙ get_in-in_cri_section k change t

spec_dirs-switched :
    (root : Table) → spec_dirs (in_cri_section (put "enable_cdi" (flag true)) root) ≡ spec_dirs root
spec_dirs-switched root =
    let switched = in_cri_section (put "enable_cdi" (flag true)) root in
    spec_dirs-get_in switched
    ∙ (ap as_texts (
          get_in-in_cri_section "cdi_spec_dirs" (put "enable_cdi" (flag true)) root
          ∙ (get-put "enable_cdi" "cdi_spec_dirs" (flag true) (cri_of root)
              ∙ sym (get_in-cri_of "cdi_spec_dirs" root)))
        ∙ sym (spec_dirs-get_in root))

put_dirs-same :
    (n : Option (List String)) (k : String) (s t : Table)
    → get k s ≡ get k t
    → get k (put_dirs n s) ≡ get k (put_dirs n t)
put_dirs-same none k s t same = same
put_dirs-same (some dirs) k s t same = ground (
  arith,
  get-put "cdi_spec_dirs" k (items (of_texts dirs)) s,
  get-put "cdi_spec_dirs" k (items (of_texts dirs)) t,
)

-- A setting above the plugins is not seen in the CRI section.
get_in-version :
    (k : String) (v : Value) (t : Table)
    → get_in cri_path k (put "version" v t) ≡ get_in cri_path k t
unfolding get_in
get_in-version k v t = rw (get_in, get-put "version" "plugins" v t) refl

-- The CRI section that enabling writes.
pub get_in-enabled :
    (fresh : Bool) (root : Table) (k : String)
    → get_in cri_path k (enabled fresh root)
      ≡ get k
          (put_dirs (new_spec_dirs (spec_dirs root)) (put "enable_cdi" (flag true) (cri_of root)))
unfolding enabled
get_in-enabled fresh root k =
    let switched = in_cri_section (put "enable_cdi" (flag true)) root in
    let dirs = new_spec_dirs (spec_dirs switched) in
    let covered = in_cri_section (put_dirs dirs) switched in
    let version : get_in cri_path k (enabled fresh root) ≡ get_in cri_path k covered =
      elim fresh as (λ f. get_in cri_path k (enabled f root) ≡ get_in cri_path k covered) [
        | true ↦ get_in-version k (number (pos 2)) covered
        | false ↦ refl
      ] in
    version
    ∙ (get_in-in_cri_section k (put_dirs dirs) switched
        ∙ (put_dirs-same dirs k (cri_of switched) (put "enable_cdi" (flag true) (cri_of root))
              (cri_of-in_cri_section (put "enable_cdi" (flag true)) k root)
            ∙ ap
                (λ ds.
                  get k (put_dirs (new_spec_dirs ds) (put "enable_cdi" (flag true) (cri_of root))))
                (spec_dirs-switched root)))

-- Enabling switches CDI on.
pub enable_cdi-enabled : (fresh : Bool) (root : Table) → enable_cdi (enabled fresh root) ≡ some true
enable_cdi-enabled fresh root =
    enable_cdi-get_in (enabled fresh root)
    ∙ (ap as_flag (get_in-enabled fresh root "enable_cdi")
        ∙ switched_on (new_spec_dirs (spec_dirs root)) (cri_of root))
  where
    switched_on :
        (n : Option (List String)) (cri : Table)
        → as_flag (get "enable_cdi" (put_dirs n (put "enable_cdi" (flag true) cri))) ≡ some true
    switched_on none cri = ap as_flag (get-put "enable_cdi" "enable_cdi" (flag true) cri)
    switched_on (some dirs) cri = ap as_flag (
        get-put "cdi_spec_dirs" "enable_cdi" (items (of_texts dirs))
          (put "enable_cdi" (flag true) cri)
        ∙ get-put "enable_cdi" "enable_cdi" (flag true) cri)

-- The directories after enabling: the operator's, with the default one behind them unless it is
-- there already; the two standard ones where none are set.
abbrev pub dirs_after : Option (List String) → List String
dirs_after none = "/etc/cdi" ∷ default_cdi_spec_dir ∷ []
dirs_after (some dirs) =
    if contains_clean_path dirs default_cdi_spec_dir
    then dirs
    else dirs ++ (default_cdi_spec_dir ∷ [])

pub spec_dirs-enabled :
    (fresh : Bool) (root : Table)
    → spec_dirs (enabled fresh root) ≡ some (dirs_after (spec_dirs root))
unfolding new_spec_dirs put
spec_dirs-enabled fresh root =
    spec_dirs-get_in (enabled fresh root)
    ∙ (ap as_texts (get_in-enabled fresh root "cdi_spec_dirs")
        ∙ covered (spec_dirs root)
            (sym (ap as_texts (get_in-cri_of "cdi_spec_dirs" root)) ∙ sym (spec_dirs-get_in root)))
  where
    put_found :
        (dirs : List String) (cri : Table)
        → as_texts (get "cdi_spec_dirs" (put "cdi_spec_dirs" (items (of_texts dirs)) cri))
          ≡ some dirs
    put_found dirs cri =
        ap as_texts (get-put "cdi_spec_dirs" "cdi_spec_dirs" (items (of_texts dirs)) cri)
        ∙ ap some (texts-of_texts dirs)

    covered :
        (old : Option (List String))
        → as_texts (get "cdi_spec_dirs" (cri_of root)) ≡ old
        → as_texts (
            get "cdi_spec_dirs"
              (put_dirs (new_spec_dirs old) (put "enable_cdi" (flag true) (cri_of root))))
          ≡ some (dirs_after old)
    covered none found =
        unfold new_spec_dirs in
        put_found ("/etc/cdi" ∷ default_cdi_spec_dir ∷ [])
          (put "enable_cdi" (flag true) (cri_of root))
    covered (some dirs) found = elim (Bool-cases (contains_clean_path dirs default_cdi_spec_dir)) [
      | inl there ↦
          rw (new_spec_dirs, there)
            (ap as_texts (get-put "enable_cdi" "cdi_spec_dirs" (flag true) (cri_of root)) ∙ found)
      | inr lacking ↦
          rw (new_spec_dirs, lacking)
            (put_found (dirs ++ (default_cdi_spec_dir ∷ []))
              (put "enable_cdi" (flag true) (cri_of root)))
    ]

contains_clean_path-dirs_after :
    (old : Option (List String)) → contains_clean_path (dirs_after old) default_cdi_spec_dir ≡ true
contains_clean_path-dirs_after none = contains_clean_path-added ("/etc/cdi" ∷ [])
contains_clean_path-dirs_after (some dirs) = ground (arith, contains_clean_path-added dirs)

-- What enabling writes is ready, whatever the version of containerd is.
pub document_ready-enabled :
    (version : Option Version) (fresh : Bool) (root : Table)
    → document_ready version (enabled fresh root) ≡ true
unfolding document_ready scans_default_spec_dir
document_ready-enabled version fresh root =
    rw
      (
        document_ready,
        scans_default_spec_dir,
        spec_dirs-enabled fresh root,
        contains_clean_path-dirs_after (spec_dirs root),
        enable_cdi-enabled fresh root,
      )
      refl
