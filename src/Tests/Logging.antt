-- ===== src/Tests/Logging.antt =====
-- pkg/observability/slog: an engine that has the sink.
use postgres_sqlguard.Common.{ℕ, true, false, [], Bool, none}
use postgres_sqlguard.Statement.{Statement}
use postgres_sqlguard.Runtime.{returned, State}
use postgres_sqlguard.Contracts.{Call}
use postgres_sqlguard.Slog.{Level, level_debug, Handler, HandlerCall}
use postgres_sqlguard.Slog.Logged.{Logged}

-- Everything but the level for debugging.
abbrev info_and_above : Level → Bool
info_and_above level_debug = false
info_and_above _ = true

abbrev handler : Handler (Unit {0}) ℕ
handler = record {
  enabled = λ level w. (returned (info_and_above level), w);
  handle = λ entry w. (returned none, w);
}

abbrev clock : Unit {0} → ℕ × Unit {0}
clock w = (7, w)

abbrev silent : State (State (Unit {0}) (HandlerCall ℕ)) Call
silent = record { world = record { world = tt; trace = [] }; trace = [] }
