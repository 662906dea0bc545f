-- ===== src/Hook/Symlinks/Folders.antt =====
-- The directories that `os.MkdirAll` makes for cmd/rbln-cdi-hook/create_symlinks.go.
use rbln_container_toolkit.Prelude.{
  String, ◌≡◌, refl, sym, ap, ◌∙◌, ◌⊎◌, inl, inr, Bool, true, false, ◌||◌, Option, none, some, List,
  [], ◌∷◌, contains, Bool-cases, ◌==◌, string_eq, if◌then◌else◌, arith, eq_iff,
}
use rbln_container_toolkit.Prelude.Dict.{lookup, insert, lookup-insert}
use rbln_container_toolkit.Hook.Symlinks.{
  Node, link, folder, other, Tree, Step, step, next_if, mkdir_found, mkdir_each,
}

-- What stands at a path is as before, or is a directory, where there was nothing and one may be made.
abbrev pub Kept : Bool → Option Node → Option Node → Type 0
Kept may before after = (after ≡ before) ⊎ ((before ≡ none) × (after ≡ some folder) × (may ≡ true))

pub Kept-twice : (m n : Bool) (a b c : Option Node) → Kept m a b → Kept n b c → Kept (m || n) a c
Kept-twice m n a b c (inl first) (inl second) = inl (second ∙ first)
Kept-twice m n a b c (inr (gone, made, may)) (inl second) =
    inr (gone, second ∙ made, ground (arith, may))
Kept-twice m n a b c (inl first) (inr (gone, made, may)) =
    inr (sym first ∙ gone, made, ground (arith, may))
Kept-twice m n a b c (inr (_, made, _)) (inr (gone, _, _)) =
    absurd (let bad : some folder ≡ none = sym made ∙ gone in ground (arith, bad))

pub Kept-wider : (m n : Bool) (a b : Option Node) → Kept n a b → Kept (m || n) a b
Kept-wider m n a b kept = Kept-twice m n a a b (inl refl) kept

inserted-Kept :
    (path p : String) (tree : Tree)
    → lookup path tree.nodes ≡ none
    → Kept (path == p) (lookup p tree.nodes) (lookup p (insert path folder tree.nodes))
inserted-Kept path p tree gone = elim (Bool-cases (path == p)) [
  | inl same ↦
      let e = (eq_iff path p).0 same in
      inr (
        ap (λ t. lookup t tree.nodes) (sym e) ∙ gone,
        lookup-insert path p folder tree.nodes ∙ rw same refl,
        same,
      )
  | inr differs ↦ inl (lookup-insert path p folder tree.nodes ∙ rw differs refl)
]

mkdir_found-Kept :
    (path p : String) (tree : Tree) (found : Option Node)
    → lookup path tree.nodes ≡ found
    → Kept (path == p) (lookup p tree.nodes) (lookup p (mkdir_found path tree found).tree.nodes)
mkdir_found-Kept path p tree none gone =
    elim (tree.mkdir_error path)
      as (λ e. Kept (path == p) (lookup p tree.nodes) (
        lookup p
          (next_if tree e
            (λ t. step (record t { nodes = insert path folder t.nodes }) none)).tree.nodes)) [
              | some e ↦ inl refl
              | none ↦ inserted-Kept path p tree gone
            ]
mkdir_found-Kept path p tree (some (link target)) there = inl refl
mkdir_found-Kept path p tree (some folder) there = inl refl
mkdir_found-Kept path p tree (some other) there = inl refl

pub mkdir_each-Kept :
    (paths : List String) (p : String) (tree : Tree)
    → Kept (contains paths p) (lookup p tree.nodes) (lookup p (mkdir_each paths tree).tree.nodes)
unfolding mkdir_each
mkdir_each-Kept [] p tree = inl refl
mkdir_each-Kept (path ∷ paths) p tree =
    elim (path == "")
      as (λ b.
        Kept (contains (path ∷ paths) p) (lookup p tree.nodes) (lookup p (made b).tree.nodes)) [
          | true ↦ Kept-wider (path == p) (contains paths p) _ _ (mkdir_each-Kept paths p tree)
          | false ↦
              elim first.error
                as (λ e.
                  Kept (contains (path ∷ paths) p) (lookup p tree.nodes)
                    (lookup p (next_if first.tree e (mkdir_each paths)).tree.nodes)) [
                      | none ↦
                          Kept-twice (path == p) (contains paths p) _ _ _ one
                            (mkdir_each-Kept paths p first.tree)
                      | some e ↦ Kept-twice (path == p) (contains paths p) _ _ _ one (inl refl)
                    ]
        ]
  where
    first : Step
    first = mkdir_found path tree (lookup path tree.nodes)

    made : Bool → Step
    made b = if b then mkdir_each paths tree else next_if first.tree first.error (mkdir_each paths)

    one : Kept (path == p) (lookup p tree.nodes) (lookup p first.tree.nodes)
    one = mkdir_found-Kept path p tree (lookup path tree.nodes) refl
