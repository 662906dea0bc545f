-- ===== src/Ldconfig/Arguments.antt =====
-- The arguments that `NewRunner` writes, read back by `runLdconfigUpdate`.
use mathlib.Core.List.{append-nil, append_assoc}
use rbln_container_toolkit.Prelude.{
  String, ◌≡◌, ◌≢◌, refl, sym, ◌∙◌, ap, inl, inr, true, false, List, [], ◌∷◌, ◌++◌, length, ltb,
  All, Bool-cases, ◌==◌, string_eq, eq_iff, arith, subst,
}
use rbln_container_toolkit.Prelude.Results.{ok, err}
use rbln_container_toolkit.Prelude.Texts.{has_prefix}
use rbln_container_toolkit.Ldconfig.{
  Ldconfig, reexec_command_name, is_no_root, new_runner, directory, arg_of, parse_args,
  nothing_parsed, check_parsed, parse_update,
}

-- A directory that is not taken for a flag.
abbrev pub IsPlain : String → Type 0
IsPlain dir = has_prefix dir "--" ≡ false

arg_of-plain : (dir : String) → IsPlain dir → arg_of dir ≡ directory
unfolding arg_of has_prefix
arg_of-plain dir h = elim (Bool-cases (dir == "--ldconfig-path")) [
  | inl same ↦ absurd (no_flag "--ldconfig-path" refl ((eq_iff dir "--ldconfig-path").0 same))
  | inr other ↦ elim (Bool-cases (dir == "--container-root")) [
    | inl same ↦ absurd (no_flag "--container-root" refl ((eq_iff dir "--container-root").0 same))
    | inr another ↦ rw (arg_of, other, another, h) refl
  ]
]
  where
    no_flag : (flag : String) → has_prefix flag "--" ≡ true → dir ≢ flag
    no_flag flag dashes e =
        let bad : false ≡ true = sym h ∙ (ap (λ s. has_prefix s "--") e ∙ dashes) in ground arith

parse_args-plain :
    (dirs : List String) (l : Ldconfig)
    → All IsPlain dirs
    → parse_args dirs l ≡ ok (record l { directories = l.directories ++ dirs })
unfolding parse_args
parse_args-plain [] l h =
    ap (λ ds. ok (record l { directories = ds })) (sym (append-nil l.directories))
parse_args-plain (d ∷ []) l h = rw (parse_args, arg_of-plain d h.0) refl
parse_args-plain (d ∷ e ∷ dirs) l h =
    rw (parse_args, arg_of-plain d h.0)
      (parse_args-plain (e ∷ dirs) (record l { directories = l.directories ++ (d ∷ []) }) h.1
        ∙ ap (λ ds. ok (record l { directories = ds }))
            (append_assoc l.directories (d ∷ []) (e ∷ dirs)))

flags_read :
    (path root : String) (dirs : List String)
    → All IsPlain dirs
    → parse_args ("--ldconfig-path" ∷ path ∷ "--container-root" ∷ root ∷ dirs) nothing_parsed
      ≡ ok (record { ldconfig_path = path; container_root = root; directories = dirs })
unfolding parse_args arg_of has_prefix
flags_read path root dirs plain =
    parse_args-plain dirs (record { ldconfig_path = path; container_root = root; directories = [] })
      plain

-- What the runner is told it hands on: the arguments of a command that `NewRunner` makes, read in
-- the new process, give the path of ldconfig, the container root and the directories, as long as
-- the path is not empty and no directory begins with two dashes.
pub new_runner-parse_update :
    (show : List String → String) (path root : String) (dirs args : List String)
    → path ≢ ""
    → All IsPlain dirs
    → new_runner path root dirs ≡ ok args
    → parse_update show args
      ≡ ok (record { ldconfig_path = path; container_root = root; directories = dirs })
unfolding new_runner parse_update check_parsed
new_runner-parse_update show path root dirs args given plain made =
    elim (Bool-cases (is_no_root root)) [
      | inl bad ↦ (let failed : err _ ≡ ok args = rw (new_runner, bad) at made in ground arith)
      | inr good ↦
          let written : reexec_command_name ∷ "--ldconfig-path" ∷ path ∷ "--container-root" ∷ root
                ∷ dirs
              ≡ args =
            ap (λ r. elim r [ ok xs ↦ xs | err e ↦ [] ]) (rw (new_runner, good) at made) in
          subst
            (λ xs.
              parse_update show xs
              ≡ ok (record { ldconfig_path = path; container_root = root; directories = dirs }))
            written (reads good)
    ]
  where
    reads :
        is_no_root root ≡ false
        → parse_update show
            (reexec_command_name ∷ "--ldconfig-path" ∷ path ∷ "--container-root" ∷ root ∷ dirs)
          ≡ ok (record { ldconfig_path = path; container_root = root; directories = dirs })
    reads good =
        let xs =
          reexec_command_name ∷ "--ldconfig-path" ∷ path ∷ "--container-root" ∷ root ∷ dirs in
        let enough : ltb (length xs) 5 ≡ false = ground arith in
        let path_given : (path == "") ≡ false = ground (arith, eq_iff path "", given) in
        rw (parse_update, enough, flags_read path root dirs plain)
          (rw (check_parsed, path_given, good) refl)
