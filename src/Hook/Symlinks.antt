-- ===== src/Hook/Symlinks.antt =====
-- cmd/rbln-cdi-hook/create_symlinks.go: the links that the hook makes in a container.
pub mod Folders
pub mod Created
use rbln_container_toolkit.Prelude.{
  String, ◌<>◌, ◌≡◌, refl, Bool, true, false, not, ◌&&◌, ◌||◌, map, Option, none, some, List, [],
  ◌∷◌, contains, ◌==◌, string_eq, if◌then◌else◌,
}
use rbln_container_toolkit.Prelude.Texts.{cut_prefix, path_join, dir}
use rbln_container_toolkit.Prelude.Dict.{Dict, lookup, insert, erase}
use rbln_container_toolkit.Prelude.Results.{Result, ok, err, wrap, ◌>>=◌}
use rbln_container_toolkit.Hook.{Input, load_container_state, get_container_root}

-- What stands at a path: a link with its target, a directory, or something else.
pub data Node : Type 0 where
  link : String → Node
  folder : Node
  other : Node

-- The nodes by path, and the errors of the calls on a path.
pub record Tree : Type 0 where
  pub nodes : Dict Node
  pub readlink_error : String → Option String
  pub mkdir_error : String → Option String
  pub lstat_error : String → Option String
  pub remove_error : String → Option String
  pub symlink_error : String → Option String

pub record Step : Type 0 where
  pub tree : Tree
  pub error : Option String

abbrev pub step : Tree → Option String → Step
step tree error = record { tree = tree; error = error }

-- The rest of a function, unless the last call has failed.
abbrev pub next_if : Tree → Option String → (Tree → Step) → Step
next_if tree (some e) next = step tree (some e)
next_if tree none next = next tree

abbrev pub behind : String → Option String → Option String
behind what none = none
behind what (some e) = some (what <> e)

-- `os.Symlink` at a path that is free.
abbrev pub symlink_at : String → String → Tree → Step
symlink_at target path tree =
    next_if tree (tree.symlink_error path)
      λ t. step (record t { nodes = insert path (link target) t.nodes }) none

-- A path with the directories above it, from the top.
unfoldable pub above : String → List String
unfolding cut_prefix
above String.[] = "" ∷ []
above (String.◌∷◌ c s) =
    let rest = map (λ t. String.◌∷◌ c t) (above s) in
    elim (cut_prefix (String.◌∷◌ c s) "/") [ some behind ↦ "" ∷ rest | none ↦ rest ]

-- A directory that is not there is made. A link counts as one to a directory.
abbrev pub mkdir_found : String → Tree → Option Node → Step
mkdir_found path tree none =
    next_if tree (tree.mkdir_error path)
      λ t. step (record t { nodes = insert path folder t.nodes }) none
mkdir_found path tree (some (link target)) = step tree none
mkdir_found path tree (some folder) = step tree none
mkdir_found path tree (some other) = step tree (some ("mkdir " <> (path <> ": not a directory")))

unfoldable pub mkdir_each : List String → Tree → Step
unfolding lookup insert
mkdir_each [] tree = step tree none
mkdir_each (path ∷ paths) tree =
    if path == ""
    then mkdir_each paths tree
    else let first = mkdir_found path tree (lookup path tree.nodes) in
      next_if first.tree first.error (mkdir_each paths)

-- `os.MkdirAll`
unfoldable pub mkdir_all : String → Tree → Step
unfolding above mkdir_each
mkdir_all path = mkdir_each (above path)

unfoldable pub has_child : String → Dict Node → Bool
unfolding dir
has_child path [] = false
has_child path ((k, node) ∷ nodes) = (dir k == path && not (k == path)) || has_child path nodes

-- The error of `os.Remove` on what stands at the path.
abbrev pub removal : Tree → String → Node → Option String
removal tree path folder =
    if has_child path tree.nodes then some "directory not empty" else tree.remove_error path
removal tree path (link target) = tree.remove_error path
removal tree path other = tree.remove_error path

-- What `os.Lstat` has found is removed; `os.IsNotExist` is `none`.
abbrev pub removed_first : String → String → Tree → Option Node → Step
removed_first target path tree none = symlink_at target path tree
removed_first target path tree (some node) =
    next_if tree (behind "failed to remove existing file: " (removal tree path node))
      λ t. symlink_at target path (record t { nodes = erase path t.nodes })

-- `forceCreateSymlink`
unfoldable pub force_create_symlink : String → String → Tree → Step
unfolding lookup insert erase has_child
force_create_symlink target path tree =
    next_if tree (behind "failed to stat link path: " (tree.lstat_error path))
      λ t. removed_first target path t (lookup path t.nodes)

abbrev pub is_link_to : Option Node → String → Bool
is_link_to none target = false
is_link_to (some (link current)) target = current == target
is_link_to (some folder) target = false
is_link_to (some other) target = false

-- `os.Readlink` gives the target.
unfoldable pub points_to : Tree → String → String → Bool
unfolding lookup
points_to tree path target = elim (tree.readlink_error path) [
  | some e ↦ false
  | none ↦ is_link_to (lookup path tree.nodes) target
]

-- `createSymlinkInContainer`, at the path of the link.
unfoldable pub create_symlink_at : String → String → Tree → Step
unfolding points_to dir mkdir_all force_create_symlink
create_symlink_at path target tree =
    if points_to tree path target
    then step tree none
    else let made = mkdir_all (dir path) tree in
      next_if made.tree (behind "failed to create parent directory: " made.error)
        (force_create_symlink target path)

-- `strings.SplitN(l, "::", 2)` with two parts.
unfoldable pub cut_link : String → Option (String × String)
unfolding cut_prefix
cut_link String.[] = none
cut_link (String.◌∷◌ c s) =
    let rest = cut_link s in
    elim (cut_prefix (String.◌∷◌ c s) "::") [
      | some behind ↦ some ("", behind)
      | none ↦ elim rest [ none ↦ none | some (target, path) ↦ some (String.◌∷◌ c target, path) ]
    ]

abbrev pub described : String → String → Option String → Option String
described path target none = none
described path target (some e) =
    some ("failed to create symlink " <> (path <> (" -> " <> (target <> (": " <> e)))))

-- One link, unless it was created.
abbrev pub create_cut : Input → String → String → Tree → Option (String × String) → Step
create_cut input root spec tree none = step tree (
    some
      ("invalid symlink specification " <> (input.quoted spec <> ": expected target::link format")))
create_cut input root spec tree (some (target, path)) =
    let created = create_symlink_at (path_join (root ∷ path ∷ [])) target tree in
    step created.tree (described path target created.error)

unfoldable pub create_one : Input → String → String → Tree → Step
unfolding cut_link create_symlink_at path_join
create_one input root spec tree = create_cut input root spec tree (cut_link spec)

-- The loop over the links.
unfoldable pub create_links : Input → String → List String → List String → Tree → Step
unfolding create_one
create_links input root created [] tree = step tree none
create_links input root created (spec ∷ specs) tree =
    if contains created spec
    then create_links input root created specs tree
    else let first = create_one input root spec tree in
      next_if first.tree first.error (create_links input root (spec ∷ created) specs)

-- `executeCreateSymlinks`
unfoldable pub execute_create_symlinks : Input → String → List String → Tree → Step
unfolding load_container_state get_container_root create_links
execute_create_symlinks input container_spec [] tree = step tree none
execute_create_symlinks input container_spec (spec ∷ specs) tree =
    elim (wrap "failed to load container state: " (load_container_state input container_spec)
      >>= λ state. wrap "failed to determine container root: " (get_container_root input state)) [
        | err e ↦ step tree (some e)
        | ok root ↦ create_links input root [] (spec ∷ specs) tree
      ]
