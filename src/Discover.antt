-- ===== src/Discover.antt =====
-- internal/discover/types.go: what the discoverers find.
pub mod SoLink
pub mod BuildId
pub mod Fingerprint
pub mod FirstWins
pub mod HostFiles
pub mod Elf
pub mod Roots
pub mod Distribution
pub mod Libraries
pub mod Nodes
use rbln_container_toolkit.Prelude.{String, List, []}

pub data LibraryType : Type 0 where
  rbln dependency plugin : LibraryType

pub record Library : Type 0 where
  pub name : String
  pub path : String
  pub container_path : String
  pub real_path : String
  pub kind : LibraryType

pub record Tool : Type 0 where
  pub name : String
  pub path : String
  pub container_path : String

pub record RdmaProvider : Type 0 where
  pub name : String
  pub path : String
  pub container_path : String
  pub driver_path : String

pub record Device : Type 0 where
  pub path : String
  pub container_path : String

pub record DiscoveryResult : Type 0 where
  pub libraries : List Library
  pub rdma_providers : List RdmaProvider
  pub tools : List Tool
  pub devices : List Device

abbrev pub no_result : DiscoveryResult
no_result = record { libraries = []; rdma_providers = []; tools = []; devices = [] }
