-- ===== src/Installer/Steps.antt =====
-- Which steps `Setup` and `Cleanup` take, in which order, and with what result.
use rbln_container_toolkit.Prelude.{
  String, ◌<>◌, ◌≡◌, ◌≢◌, refl, sym, ◌∙◌, ap, ◌⊎◌, inl, inr, Bool, true, false, ◌||◌, none, some,
  Option, List, [], ◌∷◌, ◌++◌, Bool-cases, Option-cases, ◌==◌, eq_iff, string_eq, arith,
}
use rbln_container_toolkit.Prelude.Results.{Result-cases}
use rbln_container_toolkit.Restart.{
  Restarter, signal, systemd, skip, ok, restart_mode_none, new_restarter, new_signal_restarter,
  get_runtime_defaults, restart,
}
use rbln_container_toolkit.Installer.{
  restart_options, text, restart_failed, InstallOptions, Step, lock, unlock, configure,
  generate_specs, restarts, Site, InstallError, Plan, Planned, refused, planned, fill, make_plan,
  Done, restart_step, configure_runtime, configured, setup_locked, cleanup_locked, with_lock,
  guarded, setup, cleanup, is_supported,
}

-- A run takes no step, with an error or as a dry run, or takes the steps of its body between the lock and its release.
abbrev IsBracketed : Site → InstallOptions → (Plan → Done) → Done → Type 0
IsBracketed site o body d =
    ((d.steps ≡ []) × ((d.error ≢ none) ⊎ (o.dry_run ≡ true)))
    ⊎ ((p : Plan) × (make_plan o ≡ planned p)
        × (site.lock_error ≡ none)
        × (o.dry_run ≡ false)
        × (d.error ≡ (body p).error)
        × (d.steps ≡ lock o.pid_file ∷ ((body p).steps ++ (unlock o.pid_file ∷ []))))

Planned-cases :
    (x : Planned) → ((e : InstallError) × (x ≡ refused e)) ⊎ ((p : Plan) × (x ≡ planned p))
Planned-cases (refused e) = inl (e, refl)
Planned-cases (planned p) = inr (p, refl)

guarded-IsBracketed :
    (site : Site) (o : InstallOptions) (body : Plan → Done)
    → IsBracketed site o body (guarded site o body)
unfolding guarded with_lock
guarded-IsBracketed site o body = elim (Planned-cases (make_plan o)) [
  | inl (e, bad) ↦ rw (guarded, bad) (inl (refl, inl (λ h. ground arith)))
  | inr (p, good) ↦ elim (Bool-cases o.dry_run) [
    | inl dry ↦ rw (guarded, good, dry) (inl (refl, inr refl))
    | inr wet ↦ elim (Option-cases site.lock_error) [
      | inr (e, held) ↦
          rw (guarded, good, wet, with_lock, held) (inl (refl, inl (λ h. ground arith)))
      | inl free ↦ rw (guarded, good, wet, with_lock, free) (inr (p, refl, refl, refl, refl, refl))
    ]
  ]
]

-- A restart in the list.
pub has_restart : List Step → Bool
has_restart [] = false
has_restart (restarts r runtime ∷ steps) = true
has_restart (s ∷ steps) = has_restart steps

has_restart-append :
    (xs ys : List Step) → has_restart (xs ++ ys) ≡ (has_restart xs || has_restart ys)
unfolding has_restart
has_restart-append [] ys = refl
has_restart-append (restarts r runtime ∷ xs) ys = refl
has_restart-append (s ∷ xs) ys = has_restart-append xs ys

configured-quiet : (runtime path : String) → has_restart (configured runtime path) ≡ false
unfolding configured has_restart
configured-quiet runtime path = elim (Bool-cases (is_supported runtime)) [
  | inl known ↦ rw known refl
  | inr unknown ↦ rw unknown refl
]

setup_locked-restart :
    (site : Site) (o : InstallOptions) (p : Plan)
    → has_restart (setup_locked site o p).steps ≡ true
    → (configure_runtime site o.runtime p.config_path ≡ none)
      × (site.generate_error p.cdi_spec_dir o.host_root_mount ≡ none)
unfolding setup_locked has_restart
setup_locked-restart site o p h =
    elim (Option-cases (configure_runtime site o.runtime p.config_path)) [
      | inr (e, bad) ↦
          (let quiet : false ≡ true =
              sym (configured-quiet o.runtime p.config_path) ∙ rw (setup_locked, bad) at h in
            ground arith)
      | inl fine ↦ elim (Option-cases (site.generate_error p.cdi_spec_dir o.host_root_mount)) [
        | inr (e, bad) ↦
            (let quiet : false ≡ true =
                sym (
                  has_restart-append (configured o.runtime p.config_path) _
                  ∙ rw (configured-quiet o.runtime p.config_path) refl)
                ∙ rw (setup_locked, fine, bad) at h in
              ground arith)
        | inl made ↦ (fine, made)
      ]
    ]

-- The restarter does what the mode says.
abbrev pub Does : String → Restarter → Type 0
Does mode (signal r) = mode ≡ "signal"
Does mode (systemd r) = mode ≡ "systemd"
Does mode skip = ⊥

new_restarter-Does :
    (o : InstallOptions) (p : Plan) (r : Restarter)
    → (p.mode == restart_mode_none) ≡ false
    → new_restarter (restart_options o p) ≡ ok r
    → Does p.mode r
unfolding new_restarter new_signal_restarter
new_restarter-Does o p (signal r) other made = ground (arith, other, made, eq_iff p.mode "signal")
new_restarter-Does o p (systemd r) other made = ground (arith, other, made, eq_iff p.mode "systemd")
new_restarter-Does o p skip other made = ground (arith, other, made)

-- The last step of `Setup`: none in the mode `none`, and otherwise a restart, by the signal or by
-- systemd as the mode says, that has succeeded.
abbrev pub IsRestarted : Site → InstallOptions → Plan → List Step → Type 0
IsRestarted site o p steps =
    ((p.mode ≡ "none") × (steps ≡ []))
    ⊎ ((r : Restarter) × (new_restarter (restart_options o p) ≡ ok r)
        × (Does p.mode r)
        × ((restart site.outside r o.runtime).error ≡ none)
        × (steps ≡ restarts r o.runtime ∷ []))

-- What a run of `Setup` that returns no error has done.
pub record IsSetUp (site : Site) (o : InstallOptions) (p : Plan) : Type 0 where
  pub plan : make_plan (fill o) ≡ planned p
  pub lock_taken : site.lock_error ≡ none
  pub configured_runtime : configure_runtime site o.runtime p.config_path ≡ none
  pub generated : site.generate_error p.cdi_spec_dir o.host_root_mount ≡ none
  pub last : List Step
  pub restarted : IsRestarted site (fill o) p last
  pub in_order :
      (setup site o).steps
      ≡ lock o.pid_file
        ∷ (configure o.runtime p.config_path
              ∷ generate_specs p.cdi_spec_dir o.host_root_mount
              ∷ last
            ++ (unlock o.pid_file ∷ []))

configured-known :
    (site : Site) (runtime path : String)
    → configure_runtime site runtime path ≡ none
    → configured runtime path ≡ configure runtime path ∷ []
unfolding configured configure_runtime
configured-known site runtime path h = elim (Bool-cases (is_supported runtime)) [
  | inl known ↦ rw known refl
  | inr unknown ↦
      (let bad : some ("unsupported runtime: " <> runtime) ≡ none = rw unknown at h in ground arith)
]

restart_step-IsRestarted :
    (site : Site) (o : InstallOptions) (p : Plan)
    → (restart_step site o p).error ≡ none
    → IsRestarted site o p (restart_step site o p).steps
unfolding restart_step
restart_step-IsRestarted site o p fine = elim (Bool-cases (p.mode == restart_mode_none)) [
  | inl left_out ↦ inl ((eq_iff p.mode "none").0 left_out, rw (restart_step, left_out) refl)
  | inr asked ↦ elim (Result-cases (new_restarter (restart_options o p))) [
    | inr (e, bad) ↦ absurd (
        let no : some (text ("failed to create restarter: " <> e)) ≡ none =
          rw (restart_step, asked, bad) at fine in
        ground (arith, no))
    | inl (r, made) ↦ inr (
      r,
      made,
      new_restarter-Does o p r asked made,
      done (restart site.outside r o.runtime).error (rw (restart_step, asked, made) at fine),
      rw (restart_step, asked, made) refl,
    )
  ]
]
  where
    done :
        (error : Option String)
        → elim error [
          | none ↦ none
          | some e ↦ some (restart_failed o.runtime (get_runtime_defaults o.runtime).service e)
        ]
          ≡ none
        → error ≡ none
    done none h = refl
    done (some e) h = ground (arith, h)

setup_locked-success :
    (site : Site) (o : InstallOptions) (p : Plan)
    → (setup_locked site o p).error ≡ none
    → (configure_runtime site o.runtime p.config_path ≡ none)
      × (site.generate_error p.cdi_spec_dir o.host_root_mount ≡ none)
      × ((restart_step site o p).error ≡ none)
      × ((setup_locked site o p).steps
          ≡ configure o.runtime p.config_path
            ∷ generate_specs p.cdi_spec_dir o.host_root_mount
            ∷ (restart_step site o p).steps)
unfolding setup_locked
setup_locked-success site o p h =
    elim (Option-cases (configure_runtime site o.runtime p.config_path)) [
      | inr (e, bad) ↦ ground arith
      | inl fine ↦ elim (Option-cases (site.generate_error p.cdi_spec_dir o.host_root_mount)) [
        | inr (e, bad) ↦ ground arith
        | inl made ↦
            rw (setup_locked, fine, made, configured-known site o.runtime p.config_path fine)
              (refl, refl, rw (setup_locked, fine, made) at h, refl)
      ]
    ]

-- If `Setup`, not as a dry run, returns no error, then it has had the lock, configured the runtime,
-- generated the specs and restarted the runtime, all with success, in this order and inside the
-- lock, and nothing else. The restart is by a signal or by systemd as the mode says, and is left out
-- in the mode `none` alone.
pub setup-IsSetUp :
    (site : Site) (o : InstallOptions)
    → o.dry_run ≡ false
    → (setup site o).error ≡ none
    → (p : Plan) × IsSetUp site o p
unfolding setup
setup-IsSetUp site o wet fine =
    elim (guarded-IsBracketed site (fill o) (setup_locked site (fill o))) [
      | inl (e, inl bad) ↦ absurd (bad fine)
      | inl (e, inr dry) ↦ (let no : true ≡ false = sym dry ∙ wet in ground arith)
      | inr (p, plan, free, not_dry, same, steps) ↦
          let (set, made, restarted, order) =
            setup_locked-success site (fill o) p (sym same ∙ fine) in
          (
            p,
            record {
              plan = plan;
              lock_taken = free;
              configured_runtime = set;
              generated = made;
              last = (restart_step site (fill o) p).steps;
              restarted = restart_step-IsRestarted site (fill o) p restarted;
              in_order =
                  steps ∙ ap (λ ss. lock o.pid_file ∷ (ss ++ (unlock o.pid_file ∷ []))) order;
            },
          )
    ]

-- Whatever fails, `Setup` and `Cleanup` leave no lock behind: a run takes no step at all, or its
-- first step is the lock and its last one the release.
pub setup-cleanup-unlock :
    (site : Site) (o : InstallOptions) (d : Done)
    → (d ≡ setup site o) ⊎ (d ≡ cleanup site o)
    → (d.steps ≡ [])
      ⊎ ((inner : List Step) × (d.steps ≡ lock o.pid_file ∷ (inner ++ (unlock o.pid_file ∷ []))))
unfolding setup cleanup
setup-cleanup-unlock site o d which = elim which [
  | inl e ↦ rw e (inner_of (setup_locked site (fill o)))
  | inr e ↦ rw e (inner_of (cleanup_locked site (fill o)))
]
  where
    inner_of :
        (body : Plan → Done)
        → ((guarded site (fill o) body).steps ≡ [])
          ⊎ ((inner : List Step) × ((guarded site (fill o) body).steps
                ≡ lock o.pid_file ∷ (inner ++ (unlock o.pid_file ∷ []))))
    inner_of body = elim (guarded-IsBracketed site (fill o) body) [
      | inl (none_taken, why) ↦ inl none_taken
      | inr (p, plan, free, wet, same, steps) ↦ inr ((body p).steps, steps)
    ]
