-- ===== src/Tests/Hook.antt =====
-- The theorem about cmd/rbln-cdi-hook at a concrete tree.
use rbln_container_toolkit.Prelude.{String, ◌≡◌, refl, none, some, List, [], ◌∷◌, string_eq}
use rbln_container_toolkit.Prelude.Texts.{path_join}
use rbln_container_toolkit.Prelude.Dict.{lookup}
use rbln_container_toolkit.Prelude.Results.{err}
use rbln_container_toolkit.Hook.{Input}
use rbln_container_toolkit.Hook.Symlinks.{folder, other, Tree, cut_link, create_links}
use rbln_container_toolkit.Hook.Symlinks.Created.{wanted, is_parent, Leaves, create_links-wanted}

-- A file stands where a link is asked for; two links ask for one path.
abbrev hook_input : Input
hook_input = record {
  stdin = err "closed";
  open_file = λ path. err "not there";
  decode_state = λ text. err "no JSON";
  decode_spec = λ text. err "no JSON";
  quoted = λ s. s;
}

abbrev tree : Tree
tree = record {
  nodes = ("/root/usr/lib/a.so", other) ∷ ("/root/etc/hosts", other) ∷ [];
  readlink_error = λ path. none;
  mkdir_error = λ path. none;
  lstat_error = λ path. none;
  remove_error = λ path. none;
  symlink_error = λ path. none;
}

abbrev links : List String
links = "a.so.1::/usr/lib/a.so" ∷ "a.so.2::/usr/lib/a.so" ∷ "a.so.1::/usr/lib/a.so" ∷ []

links_fine : (create_links hook_input "/root" [] links tree).error ≡ none
unfolding create_links
links_fine = refl

create_links-wanted_example :
    Leaves
      (wanted "/root" "/root/usr/lib/a.so" [] links)
      (is_parent "/root" "/root/usr/lib/a.so" links)
      (lookup "/root/usr/lib/a.so" tree.nodes)
      (lookup "/root/usr/lib/a.so" (create_links hook_input "/root" [] links tree).tree.nodes)
create_links-wanted_example =
    create_links-wanted hook_input "/root" "/root/usr/lib/a.so" [] links tree links_fine

-- The last link that differs from those before it.
last_link : wanted "/root" "/root/usr/lib/a.so" [] links ≡ some "a.so.2"
unfolding cut_link path_join
last_link = refl

-- The directory above a link is made where there is none.
folder_made :
    lookup "/root/usr/lib" (create_links hook_input "/root" [] links tree).tree.nodes ≡ some folder
unfolding create_links
folder_made = refl
