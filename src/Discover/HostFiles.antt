-- ===== src/Discover/HostFiles.antt =====
-- What the discoverers read of a host: its files, the dependencies of an ELF file, and the patterns of
-- `filepath.Match`. The answers are a parameter.
use rbln_container_toolkit.Prelude.{
  String, Bool, true, false, Option, none, some, List, [], ◌∷◌, ◌++◌, map, All, All-append,
}

-- What `os.Lstat` or `os.Stat` tells of a path, as far as it is asked; `special` is a device node, a
-- socket and the like.
pub data Mode : Type 0 where
  directory : Mode
  symlink : Mode
  regular : Bool → Mode
  special : Bool → Mode

-- `none` is an error. A file of a directory is listed with whether it is a directory.
pub record HostFiles : Type 0 where
  pub glob : String → Option (List String)
  pub lstat : String → Option Mode
  pub stat : String → Option Mode
  pub eval_symlinks : String → Option String
  pub read_dir : String → Option (List (String × Bool))
  pub dependencies : String → Option (List String)
  pub matches_name : String → String → Bool

abbrev pub or_nothing {ℓ} : {A : Type ℓ} → Option (List A) → List A
or_nothing none = []
or_nothing (some found) = found

-- The outputs of the turns of a loop, in order.
abbrev pub flat {ℓ κ} : {A : Type ℓ} {B : Type κ} → (A → List B) → List A → List B
flat turn [] = []
flat turn (a ∷ more) = turn a ++ flat turn more

pub flat-All {ℓ κ μ} :
    {A : Type ℓ} {B : Type κ} (P : B → Type μ) (turn : A → List B) (xs : List A)
    → ((a : A) → All P (turn a))
    → All P (flat turn xs)
flat-All P turn [] each = tt
flat-All P turn (a ∷ more) each =
    All-append P (turn a) (flat turn more) (each a) (flat-All P turn more each)

pub every-All {ℓ κ μ} :
    {A : Type ℓ} {B : Type κ} (P : B → Type μ) (f : A → B) (xs : List A)
    → ((a : A) → P (f a))
    → All P (map f xs)
every-All P f [] each = tt
every-All P f (a ∷ more) each = (each a, every-All P f more each)

-- A regular file, also through links.
abbrev pub is_regular : Option Mode → Bool
is_regular (some (regular x)) = true
is_regular _ = false

-- Neither an error nor a directory nor a link.
abbrev pub is_plain : Option Mode → Bool
is_plain none = false
is_plain (some directory) = false
is_plain (some symlink) = false
is_plain (some (regular x)) = true
is_plain (some (special x)) = true

-- Neither an error nor a directory.
abbrev pub is_node : Option Mode → Bool
is_node none = false
is_node (some directory) = false
is_node (some symlink) = true
is_node (some (regular x)) = true
is_node (some (special x)) = true

-- A mode with a bit for execution, and no directory.
abbrev pub is_executable : Option Mode → Bool
is_executable (some (regular x)) = x
is_executable (some (special x)) = x
is_executable _ = false

abbrev pub or_itself : Option String → String → String
or_itself none path = path
or_itself (some real) path = real

-- How `os.Lstat` ends, for `LinkExists`, which tells a missing path from an error.
pub data LstatEnd : Type 0 where
  missing : LstatEnd
  failed : String → LstatEnd
  seen : Mode → LstatEnd

-- `LinkExists` of internal/discover/symlink.go
abbrev pub link_exists : LstatEnd → Bool × Option String
link_exists missing = (false, none)
link_exists (failed e) = (false, some e)
link_exists (seen symlink) = (true, none)
link_exists (seen _) = (false, none)
