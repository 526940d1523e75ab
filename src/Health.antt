-- ===== src/Health.antt =====
-- internal/health/server.go: the liveness and readiness probes.
use raider_worker.Time.{Time}
use raider_worker.Event.Errors.{GoError, error_text}
use raider_worker.Event.Types.{Context}
use raider_worker.Base.{
  Text, Bool, Map, Option, [], bool_eq, if◌then◌else◌, insert, int_eq, is_some, list_eq, nat_eq,
  none, not, pos, some, text, true, unit_eq, ℕ, ◌&&◌, ◌++◌, ◌==◌, ◌∷◌,
}
pub mod Ready
mod Tests
use raider_worker.Middleware.{with_timeout}

-- The interface `Checker`: what its `Ping` returns under a context.
abbrev pub Checker : Type 0
Checker = Context → Option GoError

-- `healthResponse` with the status code that is written before it.
pub record Response : Type 0 where
  pub code : ℕ
  pub status : Text
  pub timestamp : Time
  pub checks : Map Text Text

-- The entry of `checks` for a ping's error.
abbrev pub verdict : Option GoError → Text
verdict none = text "ok"
verdict (some x) = text "unhealthy: " ++ error_text x

-- The loop over the checkers, with `checks` and `allOK`.
unfoldable pub run_checks : Context → Map Text Checker → Map Text Text → Bool → Map Text Text × Bool
run_checks ctx [] checks all_ok = (checks, all_ok)
run_checks ctx ((name, ping) ∷ rest) checks all_ok =
    run_checks ctx rest (insert name (verdict (ping ctx)) checks)
      (all_ok && not (is_some (ping ctx)))

-- `handleHealth`.
unfoldable pub handle_health : Time → Response
handle_health now = record { code = 200; status = text "ok"; timestamp = now; checks = [] }

-- `handleReady`, for the context of a request that comes at `now` and is answered at `later`.
unfoldable pub handle_ready : Map Text Checker → Context → Time → Time → Response
handle_ready checkers ctx now later =
    let (checks, all_ok) = run_checks (with_timeout ctx (pos 3000000000) now) checkers [] true in
    record {
      code = if all_ok then 200 else 503;
      status = if all_ok then text "ok" else text "degraded";
      timestamp = later;
      checks = checks;
    }

-- The handlers that `NewServer` registers; no answer of theirs at another path.
unfoldable pub serve : Map Text Checker → Text → Context → Time → Time → Option Response
serve checkers path ctx now later =
    if path == text "/health"
    then some (handle_health later)
    else if path == text "/ready"
    then some (handle_ready checkers ctx now later)
    else none
