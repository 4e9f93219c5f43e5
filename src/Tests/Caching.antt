-- ===== src/Tests/Caching.antt =====
-- example/pgx-prepared: a cache of one entry, and a wrapper of an engine.
use postgres_sqlguard.Common.{
  ascii, str_eq, str_eq_iff, ◌≡◌, refl, inl, inr, false, Bool-cases, List, [], ◌∷◌, Option, none,
  some, GoString, In, here, there, ℤ, pos, if◌then◌else◌,
}
use postgres_sqlguard.Parser.Node.{size, kind, to_list, from_list, get_field, as_node, as_list}
use postgres_sqlguard.Parser.Convert.{
  parse, has_nul, convert_statements, convert_value, convert_pg_node,
}
use postgres_sqlguard.Parser.Traversal.{statement_sequence}
use postgres_sqlguard.Statement.{statement_kind}
use postgres_sqlguard.Rule.{rejected, allow}
use postgres_sqlguard.Rules.Ddl.{evaluate_truncate}
use postgres_sqlguard.Runtime.{returned, State}
use postgres_sqlguard.Interface.{nilable, Interface, holds, pointer_kind, invoke}
use postgres_sqlguard.Contracts.{Prepared, Call}
use postgres_sqlguard.Engine.{prepare, validate_prepared, emit_metrics}
use postgres_sqlguard.PgxPrepared.{
  is_nil, Setting, Executor, CacheOptions, GuardedDb, Held, DbCall, executed,
  contains_query_rewriter, is_positive, fits, is_cacheable_validation_outcome,
}
use postgres_sqlguard.PgxPrepared.LruCache.{Lru}
use postgres_sqlguard.PgxPrepared.Db.{built, new_guarded_db, with_cache, exec}
use postgres_sqlguard.PgxPrepared.Guards.{serve_all-Coherent}
use postgres_sqlguard.PgxPrepared.Follows.{ServesAll, serve_all-RequestRuns}
use postgres_sqlguard.PgxPrepared.Runs.{Request, exec_request}
use postgres_sqlguard.PgxPrepared.History.{serve_all}
use postgres_sqlguard.PgxPrepared.EndToEnd.{
  engine_setting, engine_db, CachedRuns, serve_all-CachedRuns,
}
use postgres_sqlguard.PgxPrepared.Transparency.{validate_cached-validate}
use postgres_sqlguard.Rules.Builtin.{truncate}
use postgres_sqlguard.Rules.Guarantee.{rejects_at, decides}
use postgres_sqlguard.Engine.{validate}
use postgres_sqlguard.PgxPrepared.Db.{validate_cached}
use postgres_sqlguard.Tests.Samples.{backend, good_text, live_context, truncate_engine, start}

-- Keeps the last entry added.
abbrev One : Type 0
One = Option (GoString × Prepared)

abbrev one_get : One → GoString → Option Prepared
one_get none k = none
one_get (some (k', p)) k = if str_eq k' k then some p else none

some-eq : (p q : Prepared) → Path (Option Prepared) (some p) (some q) → p ≡ q
some-eq p q h = cc

pub one_get-some :
    (k' : GoString) (p : Prepared) (k : GoString) (q : Prepared)
    → one_get (some (k', p)) k ≡ some q
    → (k' ≡ k) × (p ≡ q)
one_get-some k' p k q h = elim (Bool-cases (str_eq k' k)) [
  | inl same ↦ ((str_eq_iff k' k).0 same, some-eq p q (rw same at h))
  | inr other ↦ let absent : Path (Option Prepared) none (some q) = rw other at h in absurd (cc)
]

pub one_get-new :
    (n : ℤ) (c : One) (k : GoString) → Path (Option One) (some none) (some c) → one_get c k ≡ none
one_get-new n none k h = refl
one_get-new n (some x) k h = absurd (cc)

abbrev pub one_entry : Lru
one_entry = record {
  Cache = One;
  new = λ n. some none;
  get = λ c k. (one_get c k, c);
  add = λ c k p. some (k, p);
  new-empty = one_get-new;
  get-get = λ c k k' p h. h;
  get-add = λ c k k' p q h. inl (one_get-some k p k' q h);
}

abbrev pub setting : Setting
setting = engine_setting truncate_engine backend (Unit {0}) (Unit {0}) (Unit {0}) tt

abbrev pub executor : Interface (Executor setting)
executor = holds pointer_kind false (record {
  exec = λ ctx sql arguments s. (returned (tt, none), s);
  query = λ ctx sql args s. (returned (none, none), s);
  query_row = λ ctx sql args s. (returned tt, s);
})

abbrev pub options : CacheOptions
options = record { capacity = pos 1; max_sql_bytes = pos 100 }

abbrev pub db : GuardedDb setting
db =
    engine_db truncate_engine backend (Unit {0}) (Unit {0}) (Unit {0}) tt one_entry executor
      (pos 100)

pub builds : new_guarded_db one_entry setting db.validator executor options ≡ built db none
unfolding new_guarded_db is_nil nilable is_positive with_cache
builds = refl

abbrev pub requests : List (Request setting)
requests = exec_request live_context good_text [] ∷ exec_request live_context good_text [] ∷ []

abbrev pub fresh : State (Held (State (Unit {0}) Call) One) DbCall
fresh = record { world = record { outer = start; cache = none }; trace = [] }

serve_all-RequestRuns_example :
    ServesAll one_entry db [] fresh requests (serve_all one_entry db fresh requests)
serve_all-RequestRuns_example =
    serve_all-RequestRuns one_entry db db.validator executor options none builds start requests

serve_all-CachedRuns_example :
    (calls : List DbCall) × ((serve_all one_entry db fresh requests).trace ≡ calls)
    × CachedRuns truncate_engine backend
        (Unit {0})
        (Unit {0})
        (Unit {0})
        tt
        one_entry
        executor
        (pos 100)
        []
        fresh.world
        requests
        calls
        (serve_all one_entry db fresh requests).world
serve_all-CachedRuns_example =
    serve_all-CachedRuns truncate_engine backend (Unit {0}) (Unit {0}) (Unit {0}) tt one_entry
      executor (pos 100) options none builds start requests

-- The second request hits the cache: one preparation, two validations, two executions.
called : In (executed good_text []) (serve_all one_entry db fresh requests).trace
unfolding exec invoke parse has_nul ascii str_eq convert_statements size convert_value to_list
    from_list convert_pg_node statement_sequence get_field as_node as_list evaluate_truncate
    rejected emit_metrics statement_kind kind allow contains_query_rewriter prepare
    validate_prepared fits is_cacheable_validation_outcome
called = there (there (here refl))

-- The state after both requests, with the text in the cache.
abbrev warm : State (Held (State (Unit {0}) Call) One) DbCall
warm = serve_all one_entry db fresh requests

validate_cached-validate_example :
    (validate_cached one_entry setting db live_context good_text warm).0
    ≡ (validate backend truncate_engine live_context good_text start).0
validate_cached-validate_example =
    validate_cached-validate truncate_engine backend (Unit {0}) (Unit {0}) (Unit {0}) tt one_entry
      executor (pos 100) live_context good_text (rejects_at live_context tt)
      (decides live_context (λ w. (w, refl)) tt (truncate ∷ [])) warm start
      (serve_all-Coherent db one_entry db.validator executor options none builds start requests)
