-- ===== src/Hook/Symlinks/Created.antt =====
-- The links that cmd/rbln-cdi-hook/create_symlinks.go leaves behind.
use rbln_container_toolkit.Prelude.{
  String, ◌≡◌, refl, sym, ap, subst, ◌∙◌, ◌||◌, inl, inr, Bool, true, false, Option, none, some,
  List, [], ◌∷◌, contains, ◌==◌, string_eq, if◌then◌else◌, arith, eq_iff,
}
use rbln_container_toolkit.Prelude.Texts.{path_join, dir}
use rbln_container_toolkit.Prelude.Dict.{lookup, erase, lookup-insert, lookup-erase}
use rbln_container_toolkit.Hook.{Input}
use rbln_container_toolkit.Hook.Symlinks.{
  Node, link, folder, other, above, mkdir_each, mkdir_all, removal, Tree, Step, step, next_if,
  symlink_at, removed_first, force_create_symlink, points_to, is_link_to, behind, described,
  create_symlink_at, cut_link, create_cut, create_one, create_links,
}
use rbln_container_toolkit.Hook.Symlinks.Folders.{Kept, Kept-twice, Kept-wider, mkdir_each-Kept}

-- A step that ends well has gone on.
next_if-fine :
    (tree : Tree) (error : Option String) (next : Tree → Step)
    → (next_if tree error next).error ≡ none
    → next_if tree error next ≡ next tree
next_if-fine tree none next fine = refl
next_if-fine tree (some e) next fine = ground (arith, fine)

next_if-well :
    (tree : Tree) (error : Option String) (next : Tree → Step)
    → (next_if tree error next).error ≡ none
    → error ≡ none
next_if-well tree none next fine = refl
next_if-well tree (some e) next fine = ground (arith, fine)

-- What holds at a path after a step that goes on.
next_if-lookup :
    (tree : Tree) (error : Option String) (next : Tree → Step) (p : String) (result : Option Node)
    → ((next tree).error ≡ none → lookup p (next tree).tree.nodes ≡ result)
    → (next_if tree error next).error ≡ none
    → lookup p (next_if tree error next).tree.nodes ≡ result
next_if-lookup tree error next p result rest fine =
    let same = next_if-fine tree error next fine in
    ap (λ s. lookup p s.tree.nodes) same ∙ rest (sym (ap (λ s. s.error) same) ∙ fine)

symlink_at-lem :
    (target path p : String) (tree : Tree)
    → (symlink_at target path tree).error ≡ none
    → lookup p (symlink_at target path tree).tree.nodes
      ≡ (if path == p then some (link target) else lookup p tree.nodes)
symlink_at-lem target path p tree fine =
    ground (arith, fine, lookup-insert path p (link target) tree.nodes)

removed_first-lem :
    (target path p : String) (tree : Tree) (found : Option Node)
    → (removed_first target path tree found).error ≡ none
    → lookup p (removed_first target path tree found).tree.nodes
      ≡ (if path == p then some (link target) else lookup p tree.nodes)
removed_first-lem target path p tree none fine = symlink_at-lem target path p tree fine
removed_first-lem target path p tree (some node) fine =
    next_if-lookup tree (behind "failed to remove existing file: " (removal tree path node))
      (λ t. symlink_at target path (record t { nodes = erase path t.nodes })) p
      (if path == p then some (link target) else lookup p tree.nodes)
      (λ well.
        symlink_at-lem target path p (record tree { nodes = erase path tree.nodes }) well ∙ erased)
      fine
  where
    erased :
        (if path == p then some (link target) else lookup p (erase path tree.nodes))
        ≡ (if path == p then some (link target) else lookup p tree.nodes)
    erased = ground (arith, lookup-erase path p tree.nodes)

force_create_symlink-lem :
    (target path p : String) (tree : Tree)
    → (force_create_symlink target path tree).error ≡ none
    → lookup p (force_create_symlink target path tree).tree.nodes
      ≡ (if path == p then some (link target) else lookup p tree.nodes)
unfolding force_create_symlink
force_create_symlink-lem target path p tree fine =
    next_if-lookup tree (behind "failed to stat link path: " (tree.lstat_error path))
      (λ t. removed_first target path t (lookup path t.nodes)) p
      (if path == p then some (link target) else lookup p tree.nodes)
      (removed_first-lem target path p tree (lookup path tree.nodes)) fine

is_link_to-eq :
    (found : Option Node) (target : String)
    → is_link_to found target ≡ true
    → found ≡ some (link target)
is_link_to-eq none target h = ground (arith, h)
is_link_to-eq (some (link current)) target h = ap (λ t. some (link t)) ((eq_iff current target).0 h)
is_link_to-eq (some folder) target h = ground (arith, h)
is_link_to-eq (some other) target h = ground (arith, h)

points_to-lookup :
    (tree : Tree) (path target : String)
    → points_to tree path target ≡ true
    → lookup path tree.nodes ≡ some (link target)
unfolding points_to
points_to-lookup tree path target h =
    is_link_to-eq (lookup path tree.nodes) target (ground (arith, h))

-- What a link that is asked for at a path leaves there; beside it a directory may be made.
abbrev pub Leaves : Option String → Bool → Option Node → Option Node → Type 0
Leaves none may before after = Kept may before after
Leaves (some target) may before after = after ≡ some (link target)

Leaves-if :
    (b may : Bool) (target : String) (before mid after : Option Node)
    → Kept may before mid
    → after ≡ (if b then some (link target) else mid)
    → Leaves (if b then some target else none) may before after
Leaves-if true may target before mid after kept same = same
Leaves-if false may target before mid after kept same = subst (Kept may before) (sym same) kept

create_symlink_at-Leaves :
    (path target p : String) (tree : Tree)
    → (create_symlink_at path target tree).error ≡ none
    → Leaves
        (if path == p then some target else none)
        (contains (above (dir path)) p)
        (lookup p tree.nodes)
        (lookup p (create_symlink_at path target tree).tree.nodes)
unfolding create_symlink_at mkdir_all
create_symlink_at-Leaves path target p tree =
    (elim (points_to tree path target)
        as (λ b.
          points_to tree path target ≡ b
          → (made_unless b).error ≡ none
          → Leaves (if path == p then some target else none) (contains (above (dir path)) p)
              (lookup p tree.nodes) (lookup p (made_unless b).tree.nodes)) [
                | true ↦ λ there fine.
                    Leaves-if (path == p) _ target _ (lookup p tree.nodes) _ (inl refl)
                      (kept (points_to-lookup tree path target there))
                | false ↦ λ gone fine.
                    Leaves-if (path == p) _ target _ (lookup p made.tree.nodes) _
                      (mkdir_each-Kept (above (dir path)) p tree)
                      (next_if-lookup made.tree
                        (behind "failed to create parent directory: " made.error)
                        (force_create_symlink target path) p
                        (if path == p then some (link target) else lookup p made.tree.nodes)
                        (force_create_symlink-lem target path p made.tree) fine)
              ])
      refl
  where
    made : Step
    made = mkdir_each (above (dir path)) tree

    made_unless : Bool → Step
    made_unless b =
        if b
        then step tree none
        else next_if made.tree (behind "failed to create parent directory: " made.error)
            (force_create_symlink target path)

    kept :
        lookup path tree.nodes ≡ some (link target)
        → lookup p tree.nodes ≡ (if path == p then some (link target) else lookup p tree.nodes)
    kept there = ground (arith, eq_iff path p, there)

-- The target of a link at a path.
abbrev target_of : String → String → Option (String × String) → Option String
target_of root p none = none
target_of root p (some (target, path)) =
    if path_join (root ∷ path ∷ []) == p then some target else none

-- The path is a directory above a link.
abbrev is_above : String → String → Option (String × String) → Bool
is_above root p none = false
is_above root p (some (target, path)) = contains (above (dir (path_join (root ∷ path ∷ [])))) p

abbrev or_else : Option String → Option String → Option String
or_else (some target) earlier = some target
or_else none earlier = earlier

-- The target that the links ask for at a path: of links that differ the last counts.
abbrev pub wanted : String → String → List String → List String → Option String
wanted root p created [] = none
wanted root p created (spec ∷ specs) =
    let rest = wanted root p (if contains created spec then created else spec ∷ created) specs in
    if contains created spec then rest else or_else rest (target_of root p (cut_link spec))

-- The path is a directory above one of the links.
abbrev pub is_parent : String → String → List String → Bool
is_parent root p [] = false
is_parent root p (spec ∷ specs) = is_above root p (cut_link spec) || is_parent root p specs

described-none :
    (path target : String) (error : Option String)
    → described path target error ≡ none
    → error ≡ none
described-none path target none h = refl
described-none path target (some e) h = ground (arith, h)

create_cut-Leaves :
    (input : Input) (root spec p : String) (tree : Tree) (cut : Option (String × String))
    → (create_cut input root spec tree cut).error ≡ none
    → Leaves
        (target_of root p cut)
        (is_above root p cut)
        (lookup p tree.nodes)
        (lookup p (create_cut input root spec tree cut).tree.nodes)
create_cut-Leaves input root spec p tree none fine = ground (arith, fine)
create_cut-Leaves input root spec p tree (some (target, path)) fine =
    let made = create_symlink_at (path_join (root ∷ path ∷ [])) target tree in
    create_symlink_at-Leaves (path_join (root ∷ path ∷ [])) target p tree
      (described-none path target made.error fine)

Leaves-twice :
    (earlier later : Option String) (m n : Bool) (a b c : Option Node)
    → Leaves earlier m a b
    → Leaves later n b c
    → Leaves (or_else later earlier) (m || n) a c
Leaves-twice earlier (some target) m n a b c first second = second
Leaves-twice none none m n a b c first second = Kept-twice m n a b c first second
Leaves-twice (some target) none m n a b c first (inl same) = same ∙ first
Leaves-twice (some target) none m n a b c first (inr (gone, _, _)) =
    absurd (let bad : some (link target) ≡ none = sym first ∙ gone in ground (arith, bad))

Leaves-wider :
    (asked : Option String) (m n : Bool) (a b : Option Node)
    → Leaves asked n a b
    → Leaves asked (m || n) a b
Leaves-wider none m n a b kept = Kept-wider m n a b kept
Leaves-wider (some target) m n a b same = same

-- When the links are made without an error, at every path stands the link that was asked for there,
-- whatever stood there before. At every other path stands what stood there, or a directory, where there
-- was nothing and the path is above a link that was asked for. Of two links for one path the later
-- one stands; a specification that was created before counts once, at its first place.
pub create_links-wanted :
    (input : Input) (root p : String) (created specs : List String) (tree : Tree)
    → (create_links input root created specs tree).error ≡ none
    → Leaves
        (wanted root p created specs)
        (is_parent root p specs)
        (lookup p tree.nodes)
        (lookup p (create_links input root created specs tree).tree.nodes)
unfolding create_links create_one
create_links-wanted input root p created [] tree = λ fine. inl refl
create_links-wanted input root p created (spec ∷ specs) tree =
    elim (contains created spec)
      as (λ b.
        (looped b).error ≡ none
        → Leaves (asked b) (is_parent root p (spec ∷ specs)) (lookup p tree.nodes)
            (lookup p (looped b).tree.nodes)) [
              | true ↦ λ fine.
                  Leaves-wider _ (is_above root p (cut_link spec)) (is_parent root p specs) _ _
                    (create_links-wanted input root p created specs tree fine)
              | false ↦ λ fine.
                  let same =
                    next_if-fine first.tree first.error
                      (create_links input root (spec ∷ created) specs) fine in
                  subst
                    (λ s.
                      Leaves (asked false) (is_parent root p (spec ∷ specs)) (lookup p tree.nodes)
                        (lookup p s.tree.nodes))
                    (sym same)
                    (Leaves-twice (target_of root p (cut_link spec))
                      (wanted root p (spec ∷ created) specs) _ (is_parent root p specs) _ _ _
                      (create_cut-Leaves input root spec p tree (cut_link spec)
                        (next_if-well first.tree first.error _ fine))
                      (create_links-wanted input root p (spec ∷ created) specs first.tree
                        (sym (ap (λ s. s.error) same) ∙ fine)))
            ]
  where
    first : Step
    first = create_cut input root spec tree (cut_link spec)

    looped : Bool → Step
    looped b =
        if b
        then create_links input root created specs tree
        else next_if first.tree first.error (create_links input root (spec ∷ created) specs)

    asked : Bool → Option String
    asked b =
        let rest = wanted root p (if b then created else spec ∷ created) specs in
        if b then rest else or_else rest (target_of root p (cut_link spec))
