-- ===== src/Daemon/Health/Answers.antt =====
-- What the endpoints answer after any calls that set the server's state.
use rbln_container_toolkit.Prelude.{
  String, ◌≡◌, ◌↔◌, refl, ◌∙◌, ap, Bool, true, Option, none, some, List, [], ◌∷◌, ◌==◌, string_eq,
  arith, if◌then◌else◌,
}
use rbln_container_toolkit.Prelude.Dict.{lookup, lookup-insert, lookup-erase}
use rbln_container_toolkit.Daemon.Health.{
  HealthServer, CheckResult, Call, started, ready, add, remove, call, calls, status_ok,
  ready_handler,
}

-- The value of the last call that sets the flag, or the value at the start.
pub last_ready : Bool → List Call → Bool
last_ready b [] = b
last_ready b (ready c ∷ cs) = last_ready c cs
last_ready b (_ ∷ cs) = last_ready b cs

-- The result of the last call about the check of this name.
pub last_check : String → Option CheckResult → List Call → Option CheckResult
last_check name r [] = r
last_check name r (add n result ∷ cs) = last_check name (if n == name then some result else r) cs
last_check name r (remove n ∷ cs) = last_check name (if n == name then none else r) cs
last_check name r (_ ∷ cs) = last_check name r cs

calls-ready : (hs : HealthServer) (cs : List Call) → (calls hs cs).ready ≡ last_ready hs.ready cs
unfolding calls last_ready
calls-ready hs [] = refl
calls-ready hs (ready c ∷ cs) = calls-ready (call hs (ready c)) cs
calls-ready hs (started c ∷ cs) = calls-ready (call hs (started c)) cs
calls-ready hs (add n r ∷ cs) = calls-ready (call hs (add n r)) cs
calls-ready hs (remove n ∷ cs) = calls-ready (call hs (remove n)) cs

calls-checks :
    (name : String) (hs : HealthServer) (cs : List Call)
    → lookup name (calls hs cs).checks ≡ last_check name (lookup name hs.checks) cs
unfolding calls last_check
calls-checks name hs [] = refl
calls-checks name hs (add n r ∷ cs) =
    calls-checks name (call hs (add n r)) cs
    ∙ ap (λ o. last_check name o cs) (lookup-insert n name r hs.checks)
calls-checks name hs (remove n ∷ cs) =
    calls-checks name (call hs (remove n)) cs
    ∙ ap (λ o. last_check name o cs) (lookup-erase n name hs.checks)
calls-checks name hs (started c ∷ cs) = calls-checks name (call hs (started c)) cs
calls-checks name hs (ready c ∷ cs) = calls-checks name (call hs (ready c)) cs

ready_code :
    (hs : HealthServer) (now : String) → ((ready_handler hs now).0 ≡ status_ok) ↔ (hs.ready ≡ true)
unfolding ready_handler
ready_code hs now = (λ h. ground arith, λ h. ground arith)

ready_checks : (hs : HealthServer) (now : String) → (ready_handler hs now).1.checks ≡ hs.checks
unfolding ready_handler
ready_checks hs now = ground arith

-- After any calls, `/ready` answers 200 exactly if the last `SetReady` said so, and in both cases
-- shows of each check the result added last, unless it was removed since.
pub ready_handler-calls :
    (hs : HealthServer) (cs : List Call) (now name : String)
    → (((ready_handler (calls hs cs) now).0 ≡ status_ok) ↔ (last_ready hs.ready cs ≡ true))
      × (lookup name (ready_handler (calls hs cs) now).1.checks
          ≡ last_check name (lookup name hs.checks) cs)
ready_handler-calls hs cs now name = (
  rw (← calls-ready hs cs) (ready_code (calls hs cs) now),
  rw ready_checks (calls-checks name hs cs),
)
