-- ===== src/Prelude/Cleaned.antt =====
-- What `filepath.Clean` and `filepath.Join` make of a path with an empty component.
use Prim.Native.Char.{Char, code}
use Prim.Native.String.{String, ◌++◌ as ◌<>◌}
use mathlib.Core.Path.{◌≡◌, refl, sym, ap, ◌∙◌}
use mathlib.Core.Logic.{inl, inr}
use mathlib.Core.Bool.{Bool, true, false}
use mathlib.Core.List.{List, [], ◌∷◌, ◌++◌}
use native.Mathlib.Omega.{arith}
use Prim.Native.String.compare.{cons-nil}
use text.Mathlib.Text.{is_eq}
use text.Mathlib.TextLemmas.{cons-append, nil-append}
use rbln_container_toolkit.Prelude.Tests.{nat_beq, ◌==◌, string_eq, if◌then◌else◌, Bool-cases}
use rbln_container_toolkit.Prelude.Texts.{
  cons_first, split, slash, clean_parts, clean, is_abs, has_prefix, cut_prefix, join, path_join,
}

split-cons : (s : String) → (first : String) × (more : List String) × (split slash s ≡ first ∷ more)
unfolding split
split-cons String.[] = ("", [], refl)
split-cons (String.◌∷◌ c s) = elim (Bool-cases (nat_beq (code c) slash)) [
  | inl here ↦ ("", split slash s, rw here refl)
  | inr other ↦
      let (first, more, e) = split-cons s in
      (String.◌∷◌ c first, more, rw other (ap (cons_first c) e))
]

cons_first-append :
    (c : Char) (s : String) (ys : List String)
    → cons_first c (split slash s ++ ys) ≡ cons_first c (split slash s) ++ ys
cons_first-append c s ys =
    let (first, more, e) = split-cons s in
    ap (λ t. cons_first c (t ++ ys)) e ∙ ap (λ t. cons_first c t ++ ys) (sym e)

abbrev pub slash_char : Char
slash_char = "/"

pub slash_cons : (b : String) → "/" <> b ≡ String.◌∷◌ slash_char b
slash_cons b = cons-append slash_char "" b ∙ ap (String.◌∷◌ slash_char) (nil-append b)

split-slash : (b : String) → split slash ("/" <> b) ≡ "" ∷ split slash b
unfolding split
split-slash b = ap (split slash) (slash_cons b)

-- A path is split at a slash.
split-append : (a b : String) → split slash (a <> ("/" <> b)) ≡ split slash a ++ split slash b
unfolding split
split-append String.[] b = ap (split slash) (nil-append ("/" <> b)) ∙ split-slash b
split-append (String.◌∷◌ c a) b =
    ap (split slash) (cons-append c a ("/" <> b))
    ∙ (elim (nat_beq (code c) slash)
        as (λ t.
          (if t
            then "" ∷ split slash (a <> ("/" <> b))
            else cons_first c (split slash (a <> ("/" <> b))))
          ≡ (if t then "" ∷ split slash a else cons_first c (split slash a)) ++ split slash b) [
            | true ↦ ap (λ t. "" ∷ t) (split-append a b)
            | false ↦ ap (cons_first c) (split-append a b) ∙ cons_first-append c a (split slash b)
          ])

-- An empty component is passed over.
clean_parts_empty :
    (rooted : Bool) (xs stack ys : List String)
    → clean_parts rooted stack (xs ++ "" ∷ ys) ≡ clean_parts rooted stack (xs ++ ys)
unfolding clean_parts
clean_parts_empty rooted [] stack ys = refl
clean_parts_empty rooted (x ∷ xs) stack ys = clean_parts_empty rooted xs _ ys

is_abs-append : (p a b : String) → is_abs (p <> ("/" <> a)) ≡ is_abs (p <> ("/" <> b))
unfolding is_abs has_prefix cut_prefix
is_abs-append String.[] a b =
    ap is_abs (nil-append ("/" <> a) ∙ slash_cons a)
    ∙ sym (ap is_abs (nil-append ("/" <> b) ∙ slash_cons b))
is_abs-append (String.◌∷◌ c p) a b =
    ap is_abs (cons-append c p ("/" <> a))
    ∙ (ground arith ∙ sym (ap is_abs (cons-append c p ("/" <> b))))

abbrev as_path : Bool → List String → String
as_path rooted parts =
    let body = join "/" (clean_parts rooted [] parts) in
    if rooted then "/" <> body else if body == "" then "." else body

-- A slash behind a slash is passed over.
clean_twice : (p q : String) → clean (p <> ("/" <> ("/" <> q))) ≡ clean (p <> ("/" <> q))
unfolding clean
clean_twice p q =
    ap (λ r. as_path r (split slash (p <> ("/" <> ("/" <> q))))) (is_abs-append p ("/" <> q) q)
    ∙ ap (as_path (is_abs (p <> ("/" <> q))))
        (split-append p ("/" <> q) ∙ ap (λ t. split slash p ++ t) (split-slash q))
    ∙ ap
        (λ t.
          let body = join "/" t in
          if is_abs (p <> ("/" <> q)) then "/" <> body else if body == "" then "." else body)
        (clean_parts_empty (is_abs (p <> ("/" <> q))) (split slash p) [] (split slash q))
    ∙ ap (as_path (is_abs (p <> ("/" <> q)))) (sym (split-append p q))

-- A slash in front of the second part of a join does not matter.
pub path_join_slash :
    (p q : String) → (p == "") ≡ false → path_join (p ∷ ("/" <> q) ∷ []) ≡ path_join (p ∷ q ∷ [])
unfolding path_join join
path_join_slash p q h = rw h (clean_twice p q)

pub slash_given : (b : String) → ("/" <> b == "") ≡ false
slash_given b = ap (λ t. t == "") (slash_cons b) ∙ ap is_eq (cons-nil slash_char b)

as_path_given :
    (rooted : Bool) (body : String)
    → ((if rooted then "/" <> body else if body == "" then "." else body) == "") ≡ false
as_path_given true body = slash_given body
as_path_given false body = elim (Bool-cases (body == "")) [
  | inl blank ↦ rw blank refl
  | inr given ↦ rw given given
]

pub clean_given : (p : String) → (clean p == "") ≡ false
unfolding clean
clean_given p = as_path_given (is_abs p) (join "/" (clean_parts (is_abs p) [] (split slash p)))

-- A join with the root cleans a path.
pub path_join_root : (q : String) → path_join ("/" ∷ ("/" <> q) ∷ []) ≡ clean ("/" <> q)
unfolding path_join join
path_join_root q =
    path_join_slash "/" q refl
    ∙ (sym (ap clean (nil-append ("/" <> ("/" <> q))))
        ∙ (clean_twice "" q ∙ ap clean (nil-append ("/" <> q))))

-- A join behind a component that is not empty gives a path.
pub path_join_given : (p q : String) → (p == "") ≡ false → (path_join (p ∷ q ∷ []) == "") ≡ false
unfolding path_join
path_join_given p q h = rw h (clean_given (join "/" (p ∷ q ∷ [])))
