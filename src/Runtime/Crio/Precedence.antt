-- ===== src/Runtime/Crio/Precedence.antt =====
-- The file of the highest precedence decides: `crioEffectiveSpecDirs`.
use rbln_container_toolkit.Prelude.{
  String, ◌≡◌, refl, ap, ◌∙◌, Option, none, some, List, [], ◌∷◌, ◌++◌, All,
}
use rbln_container_toolkit.Prelude.Dict.{or_else}
use rbln_container_toolkit.Runtime.Disk.{Disk}
use rbln_container_toolkit.Runtime.Document.{Codec}
use rbln_container_toolkit.Runtime.Crio.{said_by, effective_from, crio_effective_spec_dirs}

module _ (codec : Codec) (d : Disk) where
  -- The files that say nothing.
  abbrev pub AllSilent : List String → Type 0
  AllSilent = All (λ f. said_by codec d f ≡ none)

  effective_from-append :
      (dirs : Option (List String)) (lower higher : List String)
      → effective_from codec d dirs (lower ++ higher)
        ≡ effective_from codec d (effective_from codec d dirs lower) higher
  unfolding effective_from
  effective_from-append dirs [] higher = refl
  effective_from-append dirs (f ∷ lower) higher =
      effective_from-append (or_else (said_by codec d f) dirs) lower higher

  effective_from-silent :
      (dirs : Option (List String)) (files : List String)
      → AllSilent files
      → effective_from codec d dirs files ≡ dirs
  unfolding effective_from
  effective_from-silent dirs [] silent = refl
  effective_from-silent dirs (f ∷ files) silent =
      ap (λ s. effective_from codec d (or_else s dirs) files) (silent.0)
      ∙ effective_from-silent dirs files silent.1

  -- The effective directories are those of the last file that sets them.
  pub crio_effective_spec_dirs-last :
      (lower higher : List String) (f : String) (dirs : List String)
      → said_by codec d f ≡ some dirs
      → AllSilent higher
      → crio_effective_spec_dirs codec d (lower ++ (f ∷ higher)) ≡ some dirs
  unfolding crio_effective_spec_dirs effective_from
  crio_effective_spec_dirs-last lower higher f dirs says silent =
      effective_from-append none lower (f ∷ higher)
      ∙ (ap (λ s. effective_from codec d (or_else s (effective_from codec d none lower)) higher)
            says
          ∙ effective_from-silent (some dirs) higher silent)

  pub crio_effective_spec_dirs-silent :
      (files : List String) → AllSilent files → crio_effective_spec_dirs codec d files ≡ none
  unfolding crio_effective_spec_dirs
  crio_effective_spec_dirs-silent files silent = effective_from-silent none files silent
