-- ===== src/Tests/Guarding.antt =====
-- example/pgx: a wrapper of an engine that serves a request.
use postgres_sqlguard.Common.{false, ◌≡◌, List, [], ◌∷◌, none}
use postgres_sqlguard.Runtime.{returned}
use postgres_sqlguard.Interface.{Interface, holds, pointer_kind}
use postgres_sqlguard.PgxPrepared.{Setting, Executor}
use postgres_sqlguard.Pgx.{GuardedDb, DbCall}
use postgres_sqlguard.Pgx.Protocol.{serve_all}
use postgres_sqlguard.PgxPrepared.Runs.{Request, exec_request, query_row_request}
use postgres_sqlguard.Pgx.EndToEnd.{setting, engine_db, EngineRuns, serve_all-EngineRuns}
use postgres_sqlguard.Tests.Samples.{backend, good_text, live_context, truncate_engine, start}

abbrev pgx_setting : Setting
pgx_setting = setting truncate_engine backend (Unit {0}) (Unit {0}) (Unit {0}) tt

abbrev pgx_executor : Interface (Executor pgx_setting)
pgx_executor = holds pointer_kind false (record {
  exec = λ ctx sql arguments s. (returned (tt, none), s);
  query = λ ctx sql args s. (returned (none, none), s);
  query_row = λ ctx sql args s. (returned tt, s);
})

abbrev pgx_db : GuardedDb pgx_setting
pgx_db = engine_db truncate_engine backend (Unit {0}) (Unit {0}) (Unit {0}) tt pgx_executor

abbrev pgx_requests : List (Request pgx_setting)
pgx_requests =
    exec_request live_context good_text [] ∷ query_row_request live_context good_text [] ∷ []

serve_all-EngineRuns_example :
    (calls : List DbCall) × ((serve_all pgx_db
        (record { world = start; trace = [] })
        pgx_requests).trace
      ≡ calls)
    × EngineRuns truncate_engine backend
        (Unit {0})
        (Unit {0})
        (Unit {0})
        tt
        pgx_executor
        start
        pgx_requests
        calls
        (serve_all pgx_db (record { world = start; trace = [] }) pgx_requests).world
serve_all-EngineRuns_example =
    serve_all-EngineRuns truncate_engine backend (Unit {0}) (Unit {0}) (Unit {0}) tt pgx_executor
      start pgx_requests
