-- ===== src/Cdi/Spec.antt =====
-- The part of the CDI specification's types (specs-go) that the toolkit fills in. `IntelRdt` and
-- `AdditionalGIDs` are kept only because `isContainerEditsEmpty` looks at them.
use rbln_container_toolkit.Prelude.{ℕ, String, Bool, false, ◌&&◌, not, List, [], is_empty}

pub record DeviceNode : Type 0 where
  pub path : String
  pub host_path : String
  pub permissions : String

pub record Mount : Type 0 where
  pub host_path : String
  pub container_path : String
  pub options : List String

pub record Hook : Type 0 where
  pub hook_name : String
  pub path : String
  pub args : List String
  pub env : List String

pub record ContainerEdits : Type 0 where
  pub env : List String
  pub device_nodes : List DeviceNode
  pub hooks : List Hook
  pub mounts : List Mount
  pub intel_rdt : Bool
  pub additional_gids : List ℕ

-- A named device entry of a spec.
pub record Entry : Type 0 where
  pub name : String
  pub edits : ContainerEdits

pub record Spec : Type 0 where
  pub version : String
  pub kind : String
  pub devices : List Entry
  pub edits : ContainerEdits

abbrev pub no_edits : ContainerEdits
no_edits = record {
  env = [];
  device_nodes = [];
  hooks = [];
  mounts = [];
  intel_rdt = false;
  additional_gids = [];
}

-- `specs.ContainerEdits{DeviceNodes: nodes}`
abbrev pub node_edits : List DeviceNode → ContainerEdits
node_edits nodes = record no_edits { device_nodes = nodes }

-- `isContainerEditsEmpty`
unfoldable pub is_container_edits_empty : ContainerEdits → Bool
is_container_edits_empty e =
    is_empty e.env
    && (is_empty e.device_nodes
        && (is_empty e.hooks
            && (is_empty e.mounts && (not e.intel_rdt && is_empty e.additional_gids))))
