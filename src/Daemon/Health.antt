-- ===== src/Daemon/Health.antt =====
-- internal/daemon/health.go: the state behind the health endpoints, and their answers.
-- The HTTP server itself and the JSON encoding are not modelled: a handler gives its status code
-- and the response. The time is an argument of a handler, as the text of the timestamp.
pub mod Answers
use rbln_container_toolkit.Prelude.{
  ℕ, String, Bool, true, false, Option, none, some, List, [], ◌∷◌, if◌then◌else◌,
}
use rbln_container_toolkit.Prelude.Dict.{Dict, insert, erase}

pub record CheckResult : Type 0 where
  pub status : String
  pub message : String

-- `Reason` and `Checks` are left out of the JSON where they are empty.
pub record HealthResponse : Type 0 where
  pub status : String
  pub reason : String
  pub checks : Dict CheckResult
  pub timestamp : String

pub record HealthServer : Type 0 where
  pub port : ℕ
  pub started : Bool
  pub ready : Bool
  pub checks : Dict CheckResult

unfoldable pub new_health_server : ℕ → HealthServer
new_health_server port = record { port = port; started = false; ready = false; checks = [] }

unfoldable pub set_started : HealthServer → Bool → HealthServer
set_started hs started = record hs { started = started }

unfoldable pub set_ready : HealthServer → Bool → HealthServer
set_ready hs ready = record hs { ready = ready }

unfoldable pub add_check : HealthServer → String → CheckResult → HealthServer
unfolding insert
add_check hs name result = record hs { checks = insert name result hs.checks }

unfoldable pub remove_check : HealthServer → String → HealthServer
unfolding erase
remove_check hs name = record hs { checks = erase name hs.checks }

abbrev pub status_ok : ℕ
status_ok = 200

abbrev pub status_service_unavailable : ℕ
status_service_unavailable = 503

unfoldable pub live_handler : HealthServer → String → ℕ × HealthResponse
live_handler hs now =
    (status_ok, record { status = "alive"; reason = ""; checks = []; timestamp = now })

unfoldable pub ready_handler : HealthServer → String → ℕ × HealthResponse
ready_handler hs now =
    if hs.ready
    then (status_ok, record { status = "ready"; reason = ""; checks = hs.checks; timestamp = now })
    else (
      status_service_unavailable,
      record {
        status = "not_ready";
        reason = "Setup in progress";
        checks = hs.checks;
        timestamp = now;
      },
    )

unfoldable pub startup_handler : HealthServer → String → ℕ × HealthResponse
startup_handler hs now =
    if hs.started
    then (status_ok, record { status = "started"; reason = ""; checks = []; timestamp = now })
    else (
      status_service_unavailable,
      record {
        status = "starting";
        reason = "Initialization in progress";
        checks = [];
        timestamp = now;
      },
    )

-- The calls that change the server's state.
pub data Call : Type 0 where
  started ready : Bool → Call
  add : String → CheckResult → Call
  remove : String → Call

unfoldable pub call : HealthServer → Call → HealthServer
unfolding set_started set_ready add_check remove_check
call hs (started b) = set_started hs b
call hs (ready b) = set_ready hs b
call hs (add name result) = add_check hs name result
call hs (remove name) = remove_check hs name

unfoldable pub calls : HealthServer → List Call → HealthServer
unfolding call
calls hs [] = hs
calls hs (c ∷ cs) = calls (call hs c) cs
