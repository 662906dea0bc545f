-- ===== src/Daemon/Config/Validation.antt =====
-- What `Validate` accepts.
use rbln_container_toolkit.Prelude.{
  ◌*◌, String, ◌≡◌, ◌≢◌, ◌↔◌, ◌⊎◌, inl, inr, refl, Bool-cases, ◌==◌, true, none, string_eq, eq_iff,
  arith,
}
use rbln_container_toolkit.Prelude.Int.{pos, ◌≤ℤ◌}
use rbln_container_toolkit.Daemon.Config.{Config, validate, is_valid_runtime, second}

-- One of the three runtimes, or none, which is detected.
abbrev pub IsKnown : String → Type 0
IsKnown runtime =
    (runtime ≡ "containerd") ⊎ (runtime ≡ "crio") ⊎ (runtime ≡ "docker") ⊎ (runtime ≡ "")

is_valid_runtime-IsKnown : (runtime : String) → is_valid_runtime runtime ≡ true → IsKnown runtime
unfolding is_valid_runtime
is_valid_runtime-IsKnown runtime h = elim (Bool-cases (runtime == "containerd")) [
  | inl e ↦ inl ((eq_iff runtime "containerd").0 e)
  | inr a ↦ elim (Bool-cases (runtime == "crio")) [
    | inl e ↦ inr (inl ((eq_iff runtime "crio").0 e))
    | inr b ↦ elim (Bool-cases (runtime == "docker")) [
      | inl e ↦ inr (inr (inl ((eq_iff runtime "docker").0 e)))
      | inr c ↦ inr (inr (inr ((eq_iff runtime "").0 (ground (arith, h, a, b, c)))))
    ]
  ]
]

IsKnown-is_valid : (runtime : String) → IsKnown runtime → is_valid_runtime runtime ≡ true
unfolding is_valid_runtime
IsKnown-is_valid runtime (inl e) = rw e refl
IsKnown-is_valid runtime (inr (inl e)) = rw e refl
IsKnown-is_valid runtime (inr (inr (inl e))) = rw e refl
IsKnown-is_valid runtime (inr (inr (inr e))) = rw e refl

pub record IsUsable (c : Config) : Type 0 where
  pub timeout_positive : pos 1 ≤ℤ c.shutdown_timeout
  pub timeout_capped : c.shutdown_timeout ≤ℤ pos (300 * second)
  pub port_positive : pos 1 ≤ℤ c.health_port
  pub port_capped : c.health_port ≤ℤ pos 65535
  pub runtime_known : IsKnown c.runtime
  pub pid_file_given : c.pid_file ≢ ""
  pub interval_nonneg : pos 0 ≤ℤ c.refresh_interval

validate_sound : (c : Config) → validate c ≡ none → IsUsable c
unfolding validate
validate_sound c h =
    let valid : is_valid_runtime c.runtime ≡ true = ground (arith, h) in
    record {
      timeout_positive = ground (arith, h);
      timeout_capped = ground (arith, h);
      port_positive = ground (arith, h);
      port_capped = ground (arith, h);
      runtime_known = is_valid_runtime-IsKnown c.runtime valid;
      pid_file_given = ground (arith, h, eq_iff c.pid_file "");
      interval_nonneg = ground (arith, h);
    }

validate_complete : (c : Config) → IsUsable c → validate c ≡ none
unfolding validate
validate_complete c u =
    ground (arith, eq_iff c.pid_file "", IsKnown-is_valid c.runtime u.runtime_known, u)

-- `Validate` returns no error exactly if the shutdown timeout is in 1ns .. 300s, the port in
-- 1 .. 65535, the runtime containerd, crio, docker or empty, the PID file named, and the interval not negative.
pub validate_iff : (c : Config) → (validate c ≡ none) ↔ IsUsable c
validate_iff c = (validate_sound c, validate_complete c)
