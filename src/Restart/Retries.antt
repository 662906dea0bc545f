-- ===== src/Restart/Retries.antt =====
-- The retries of the signal mode.
use rbln_container_toolkit.Prelude.{
  ℕ, zero, suc, ◌+◌, ◌-◌, ◌≤◌, ◌<◌, String, ◌≡◌, ◌≢◌, refl, ◌⊎◌, inl, inr, none, Option-cases,
  arith,
}
use rbln_container_toolkit.Restart.{
  Outside, Options, ok, signal, SignalRestarter, new_restarter, new_signal_restarter, attempt,
  sleep_before, signal_loop, restart,
}

-- Of the `n` attempts from `i` on, `k` is the first that succeeds.
pub record IsFirst (w : Outside) (i n k : ℕ) : Type 0 where
  pub not_before : i ≤ k
  pub in_time : k < i + n
  pub succeeds : attempt w k ≡ none
  pub first : (j : ℕ) → i ≤ j → j < k → attempt w j ≢ none

-- None of these attempts succeeds.
abbrev pub Outlasted : Outside → ℕ → ℕ → Type 0
Outlasted w i n = (j : ℕ) → i ≤ j → j < i + n → attempt w j ≢ none

-- The sleeps before `n` attempts from `i` on.
abbrev sleeps_through : ℕ → ℕ → ℕ
sleeps_through i zero = 0
sleeps_through i (suc n) = sleep_before i + n

through_next : (i n : ℕ) → sleeps_through (suc i) n ≡ n
through_next i zero = refl
through_next i (suc n) = omega arith

signal_loop-ends :
    (w : Outside) (runtime last : String) (max n i : ℕ)
    → let o = signal_loop w runtime max n i last in
      ((k : ℕ) × IsFirst w i n k × (o.error ≡ none) × (o.sleeps ≡ sleep_before i + (k - i)))
      ⊎ (Outlasted w i n × (o.error ≢ none) × (o.sleeps ≡ sleeps_through i n))
unfolding signal_loop
signal_loop-ends w runtime last max zero i =
    inr (λ j le lt. absurd (omega arith), λ e. ground arith, refl)
signal_loop-ends w runtime last max (suc n) i = elim (Option-cases (attempt w i)) [
  | inl good ↦
      rw (signal_loop, good)
        (inl (
          i,
          record {
            not_before = omega arith;
            in_time = omega arith;
            succeeds = good;
            first = λ j le lt. absurd (omega arith);
          },
          refl,
          omega arith,
        ))
  | inr (e, bad) ↦
      let o = signal_loop w runtime max n (suc i) e in
      rw (signal_loop, bad)
        (elim (signal_loop-ends w runtime e max n (suc i)) [
          | inl (k, is, fine, slept) ↦
              let le = is.not_before in
              inl (
                k,
                record {
                  not_before = omega arith;
                  in_time = omega (arith, is.in_time);
                  succeeds = is.succeeds;
                  first = λ j from lt. ground (arith, is.first j, bad);
                },
                fine,
                omega (arith, slept),
              )
          | inr (all, error, slept) ↦ inr (
            λ j from lt. ground (arith, all j, bad),
            error,
            omega (arith, slept, through_next i n),
          )
        ])
]

-- Every restarter by signal that `NewRestarter` makes has attempts to make.
new_restarter-attempts :
    (o : Options) (r : SignalRestarter) → new_restarter o ≡ ok (signal r) → 0 < r.max_retries
unfolding new_restarter new_signal_restarter
new_restarter-attempts o r h = ground arith

-- A restarter by signal, as `NewRestarter` makes it, retries until an attempt succeeds, and no further: it ends without error at
-- the first attempt in which the runtime's process is found and takes the signal, having slept once
-- before each attempt but the first; if all its attempts fail, it ends with an error.
pub restart-retries :
    (w : Outside) (opts : Options) (r : SignalRestarter) (runtime : String)
    → new_restarter opts ≡ ok (signal r)
    → let o = restart w (signal r) runtime in
      ((k : ℕ) × IsFirst w 0 r.max_retries k × (o.error ≡ none) × (o.sleeps ≡ k))
      ⊎ (Outlasted w 0 r.max_retries × (o.error ≢ none) × (o.sleeps + 1 ≡ r.max_retries))
unfolding restart
restart-retries w opts r runtime made =
    elim (signal_loop-ends w runtime "%!w(<nil>)" r.max_retries r.max_retries 0) [
      | inl (k, is, fine, slept) ↦ inl (k, is, fine, omega (arith, slept))
      | inr (all, error, slept) ↦ inr (
        all,
        error,
        omega (arith, slept, through_first r.max_retries (new_restarter-attempts opts r made)),
      )
    ]
  where
    through_first : (n : ℕ) → 0 < n → sleeps_through 0 n + 1 ≡ n
    through_first zero h = omega arith
    through_first (suc n) h = omega arith
