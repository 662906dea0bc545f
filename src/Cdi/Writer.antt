-- ===== src/Cdi/Writer.antt =====
-- internal/cdi/writer.go: how a spec becomes a file. The YAML and JSON encoders are parameters, and so
-- are the errors of the system calls.
pub mod Watched
pub mod Atomic
pub mod Outcome
use rbln_container_toolkit.Prelude.{
  String, ◌<>◌, Bool, true, false, Option, none, some, List, [], ◌∷◌, map, ◌==◌, string_eq,
  if◌then◌else◌,
}
use rbln_container_toolkit.Prelude.Texts.{dir}
use rbln_container_toolkit.Prelude.Dict.{Dict, lookup, insert, erase}
use rbln_container_toolkit.Prelude.Results.{Result, ok, err}
use rbln_container_toolkit.Cdi.Spec.{DeviceNode, Mount, Hook, ContainerEdits, Entry, Spec}

-- `yamlContainerEdits`: without `IntelRdt` and `AdditionalGIDs`. The wrappers of a node and a mount have
-- the fields of what they wrap.
pub record YamlEdits : Type 0 where
  pub env : List String
  pub device_nodes : List DeviceNode
  pub hooks : List Hook
  pub mounts : List Mount

-- `yamlDevice`
pub record YamlDevice : Type 0 where
  pub name : String
  pub edits : YamlEdits

-- `yamlSpec`
pub record YamlSpec : Type 0 where
  pub cdi_version : String
  pub kind : String
  pub devices : List YamlDevice
  pub edits : YamlEdits

-- `toYAMLContainerEdits`
unfoldable pub to_yaml_edits : ContainerEdits → YamlEdits
to_yaml_edits e = record {
  env = e.env;
  device_nodes = e.device_nodes;
  hooks = e.hooks;
  mounts = e.mounts;
}

unfoldable pub to_yaml_device : Entry → YamlDevice
unfolding to_yaml_edits
to_yaml_device d = record { name = d.name; edits = to_yaml_edits d.edits }

-- `toYAMLSpec`
unfoldable pub to_yaml_spec : Spec → YamlSpec
unfolding to_yaml_device to_yaml_edits
to_yaml_spec spec = record {
  cdi_version = spec.version;
  kind = spec.kind;
  devices = map to_yaml_device spec.devices;
  edits = to_yaml_edits spec.edits;
}

-- `yaml.Marshal` and `json.MarshalIndent`
pub record Encoders : Type 0 where
  pub yaml : YamlSpec → Result String
  pub json : Spec → Result String

abbrev pub marshalled : Result String → Result String
marshalled (err e) = err ("marshal spec: " <> e)
marshalled (ok text) = ok text

abbrev pub nil_spec : String
nil_spec = "spec is nil: invalid CDI specification"

abbrev pub unsupported_format : String → String
unsupported_format format =
    "unsupported format: " <> (format <> " (expected yaml or json): failed to write file")

-- `WriteToWriter`, up to the write of its text.
unfoldable pub write_to_writer : Encoders → Option Spec → String → Result String
unfolding to_yaml_spec
write_to_writer codecs none format = err nil_spec
write_to_writer codecs (some spec) format =
    if format == "yaml"
    then marshalled (codecs.yaml (to_yaml_spec spec))
    else if format == "json"
    then marshalled (codecs.json spec)
    else err (unsupported_format format)

-- The name that `os.CreateTemp` chooses, and the errors of the calls on the temporary file, its
-- directory and its target. A write that fails has written a part.
pub record Calls : Type 0 where
  pub temp_path : String
  pub written_part : String
  pub mkdir_error : Option String
  pub create_error : Option String
  pub write_error : Option String
  pub chmod_error : Option String
  pub sync_error : Option String
  pub close_error : Option String
  pub rename_error : Option String
  pub remove_error : Option String

-- The calls that change or flush a file, in the order in which they are made.
pub data Call : Type 0 where
  create : Call
  fill : String → Call
  chmod : Call
  sync : Call
  close : Call
  rename : Call
  unlink : Call
  sync_dir : Call

-- The calls that succeeded, and the error of a write.
pub record Wrote : Type 0 where
  pub calls : List Call
  pub error : Option String

-- The deferred cleanup where the file was not renamed.
unfoldable pub clean_up : Calls → String → Wrote
clean_up host e = record {
  calls = close ∷ elim (host.remove_error) [ none ↦ unlink ∷ [] | some _ ↦ [] ];
  error = some e;
}

-- Makes a call, and goes on where it succeeds.
unfoldable pub attempt : Calls → Option String → String → Call → Wrote → Wrote
unfolding clean_up
attempt host none what call rest = record { calls = call ∷ rest.calls; error = rest.error }
attempt host (some e) what call rest = clean_up host (what <> (": " <> e))

-- The calls behind `os.CreateTemp`.
unfoldable pub publish : Calls → String → Wrote
unfolding attempt clean_up
publish host path = attempt host host.chmod_error ("chmod temp file " <> host.temp_path) chmod (
    attempt host host.sync_error ("sync temp file " <> host.temp_path) sync (
      attempt host host.close_error ("close temp file " <> host.temp_path) close (
        attempt host host.rename_error ("rename " <> (host.temp_path <> (" to " <> path))) rename
          record { calls = sync_dir ∷ []; error = none })))

unfoldable pub fill_temp : Calls → String → String → Wrote
unfolding publish clean_up
fill_temp host path text = elim (host.write_error) [
  | none ↦
      let rest = publish host path in
      record { calls = create ∷ fill text ∷ rest.calls; error = rest.error }
  | some e ↦
      let rest = clean_up host ("write temp file " <> (host.temp_path <> (": " <> e))) in
      record { calls = create ∷ fill host.written_part ∷ rest.calls; error = rest.error }
]

abbrev pub refused : String → Wrote
refused e = record { calls = []; error = some e }

-- `Write` with the text of the spec.
unfoldable pub write_text : Calls → String → String → Wrote
unfolding fill_temp dir
write_text host path text = elim (host.mkdir_error) [
  | some e ↦ refused ("create directory " <> (dir path <> (": " <> e)))
  | none ↦ elim (host.create_error) [
    | some e ↦ refused ("create temp file in " <> (dir path <> (": " <> e)))
    | none ↦ fill_temp host path text
  ]
]

-- `Write`. The two checks in front are those of `WriteToWriter`, with the same errors.
unfoldable pub write : Encoders → Calls → Option Spec → String → String → Wrote
unfolding write_to_writer write_text
write codecs host spec path format = elim (write_to_writer codecs spec format) [
  | err e ↦ refused e
  | ok text ↦ write_text host path text
]

-- The files after a call on the temporary file of a target.
unfoldable pub after_call : String → String → Call → Dict String → Dict String
unfolding lookup insert erase
after_call temp path create files = insert temp "" files
after_call temp path (fill text) files = insert temp text files
after_call temp path rename files = elim (lookup temp files) [
  | none ↦ files
  | some text ↦ insert path text (erase temp files)
]
after_call temp path unlink files = erase temp files
after_call temp path chmod files = files
after_call temp path sync files = files
after_call temp path close files = files
after_call temp path sync_dir files = files

unfoldable pub after_calls : String → String → List Call → Dict String → Dict String
unfolding after_call
after_calls temp path [] files = files
after_calls temp path (c ∷ cs) files = after_calls temp path cs (after_call temp path c files)
