-- ===== src/Installer/Plans.antt =====
-- What `Setup` and `Cleanup` make of their options.
use rbln_container_toolkit.Prelude.{
  String, ◌≡◌, ◌≢◌, refl, sym, ◌∙◌, ap, inl, inr, true, false, ◌&&◌, not, [], ◌∷◌, Bool-cases,
  Option-cases, ◌==◌, string_eq, eq_iff, arith, if◌then◌else◌,
}
use rbln_container_toolkit.Prelude.Texts.{path_join}
use rbln_container_toolkit.Restart.{
  Options, ok, signal, SignalRestarter, restart_mode_signal, new_restarter, new_signal_restarter,
  new_systemd_restarter, get_runtime_defaults,
}
use rbln_container_toolkit.Installer.{
  InstallOptions, Plan, refused, planned, fill, plan_of, make_plan, restart_options, is_supported,
  validate_config_path_override,
}

planned_of : (o : InstallOptions) (p : Plan) → make_plan o ≡ planned p → plan_of o ≡ p
unfolding make_plan
planned_of o p h =
    elim (Bool-cases (o.runtime == "crio" && o.restart_mode == restart_mode_signal)) [
      | inl refuses ↦
          (let bad : refused _ ≡ planned p = rw (make_plan, refuses) at h in ground arith)
      | inr allows ↦ elim (Option-cases (validate_config_path_override o.config_path)) [
        | inr (e, relative) ↦
            (let bad : refused e ≡ planned p = rw (make_plan, allows, relative) at h in
              ground arith)
        | inl fine ↦
            ap (λ x. elim x [ refused e ↦ plan_of o | planned q ↦ q ])
              (rw (make_plan, allows, fine) at h)
      ]
    ]

not_crio_signal :
    (o : InstallOptions) (p : Plan)
    → make_plan o ≡ planned p
    → (o.runtime == "crio" && o.restart_mode == restart_mode_signal) ≡ false
unfolding make_plan
not_crio_signal o p h =
    elim (Bool-cases (o.runtime == "crio" && o.restart_mode == restart_mode_signal)) [
      | inl refuses ↦
          (let bad : refused _ ≡ planned p = rw (make_plan, refuses) at h in ground arith)
      | inr allows ↦ allows
    ]

signal_mode :
    (o : Options) (r : SignalRestarter)
    → new_restarter o ≡ ok (signal r)
    → (o.mode == restart_mode_signal) ≡ true
unfolding new_restarter new_signal_restarter new_systemd_restarter
signal_mode o r h = ground arith

-- CRI-O is never restarted by a signal: for no options does the plan lead to a restarter by signal.
pub make_plan-crio :
    (o : InstallOptions) (p : Plan) (r : SignalRestarter)
    → o.runtime ≡ "crio"
    → make_plan (fill o) ≡ planned p
    → new_restarter (restart_options (fill o) p) ≢ ok (signal r)
make_plan-crio o p r crio plan made =
    let is_plan = planned_of (fill o) p plan in
    let by_signal = signal_mode (restart_options (fill o) p) r made in
    let allowed = not_crio_signal (fill o) p plan in
    let same : (fill o).restart_mode ≡ p.mode = ap (λ (q : Plan). q.mode) is_plan in
    let first : (o.runtime == "crio") ≡ true = (eq_iff o.runtime "crio").1 crio in
    let second : ((fill o).restart_mode == restart_mode_signal) ≡ true =
      (eq_iff (fill o).restart_mode restart_mode_signal).1
        (same ∙ (eq_iff p.mode restart_mode_signal).0 by_signal) in
    ground (arith, first, second, allowed)

filled :
    (o : InstallOptions) → o.socket ≡ "" → (fill o).socket ≡ (get_runtime_defaults o.runtime).socket
filled o unset =
    ap (λ b. if b then (get_runtime_defaults o.runtime).socket else o.socket)
      ((eq_iff o.socket "").1 unset)

default_given :
    (runtime : String)
    → is_supported runtime ≡ true
    → ((get_runtime_defaults runtime).socket == "") ≡ false
unfolding get_runtime_defaults
default_given runtime known = elim (Bool-cases (runtime == "containerd")) [
  | inl a ↦ rw (get_runtime_defaults, a) refl
  | inr a ↦ elim (Bool-cases (runtime == "docker")) [
    | inl b ↦ rw (get_runtime_defaults, a, b) refl
    | inr b ↦ elim (Bool-cases (runtime == "crio")) [
      | inl c ↦ rw (get_runtime_defaults, a, b, c) refl
      | inr c ↦ (let bad : false ≡ true = rw (a, b, c) at known in ground arith)
    ]
  ]
]

filled_given :
    (o : InstallOptions)
    → is_supported o.runtime ≡ true
    → o.socket ≡ ""
    → ((fill o).socket == "") ≡ false
filled_given o known unset = ap (λ s. s == "") (filled o unset) ∙ default_given o.runtime known

-- For a runtime that the installer knows, and that has no socket given, the socket of the plan is
-- the runtime's default on the host, also where a host root is mounted: the mount is never put in
-- front of it.
pub make_plan-socket :
    (o : InstallOptions) (p : Plan)
    → is_supported o.runtime ≡ true
    → o.socket ≡ ""
    → make_plan (fill o) ≡ planned p
    → p.socket_path ≡ (get_runtime_defaults o.runtime).socket
make_plan-socket o p known unset plan =
    let is_plan = planned_of (fill o) p plan in
    let same : (plan_of (fill o)).socket_path ≡ p.socket_path =
      ap (λ (q : Plan). q.socket_path) is_plan in
    sym same
    ∙ (ap
          (λ b.
            if not (o.host_root_mount == "") && b
            then path_join (o.host_root_mount ∷ (fill o).socket ∷ [])
            else (fill o).socket)
          (filled_given o known unset)
        ∙ (ground (arith) ∙ filled o unset))
