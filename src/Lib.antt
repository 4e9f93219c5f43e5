-- ===== src/Lib.antt =====
-- postgres-sqlguard: validation of SQL texts by rules over PostgreSQL's syntax tree.
--
-- An engine (engine.go) is built once from an ordered list of rules and two optional sinks.
-- `Prepare` reads the caller's context, parses the whole text (internal/parser), and reads the
-- context again; `ValidatePrepared` takes the statements of the parsed result with those that
-- their WITH clauses declare, and asks every rule about every statement, until a rule rejects or
-- the context ends; `Validate` is the one after the other. A terminal result (not a successful
-- preparation) is told to each sink as an event; the errors and panics of a sink are dropped. A
-- rule sees a statement through the read-only facade of statement.go; pkg/rules has six rules.
--
-- Files:
-- - Parser/Node, Parser/Result: internal/parser/node.go and internal/parser/parser.go. A node is a
--   kind and its fields; `nil_node` is a value of kind `ValueNode` with a nil pointer, and a
--   `*Node` is an `Option Node`.
-- - Parser/Protobuf: the protobuf reflection and the parser backend that
--   internal/parser/pgquery.go calls, as records of parameters. Parser/Convert:
--   internal/parser/pgquery.go.
-- - Parser/Traversal: internal/parser/traversal.go. Below has the statements that a WITH clause
--   declares; Preorder and Reach say what the sequence is.
-- - Statement: the accessors of statement.go; Statement/Walk: `Walk`, over any visitor with a
--   state. Statement/Fields and Statement/Children say when an accessor finds something.
-- - Rule, Errors, Observability: rule.go, errors.go, observability.go.
-- - Runtime: how Go code runs in the model. Code outside (a context, a rule, a sink) is an action
--   over a world that is a parameter; it returns or panics, and may change the world, so a context
--   may end at any look. `Go` adds a trace of the calls. Interface: interface values, nil and
--   typed nil.
-- - Contracts: the interfaces and the values of engine.go, observability.go and prepared.go.
-- - Engine: engine.go, and Engine/Construct: `NewEngine`. The loops are structural recursion; what
--   follows a call in a Go function is a function of its result. Schedule and Session say what a
--   call is to do, Policy what it is to return; Runs, Refines, Events, Evaluations, Verdicts,
--   Guarantee, Preparation and Messages are proofs.
-- - Rules: pkg/rules. Builtin has what each rule is to forbid.
-- - PgxPrepared: example/pgx-prepared/guarded.go, an executor behind an engine with a cache of
--   prepared values; PgxPrepared/LruCache: the cache of golang-lru as a parameter with laws; the
--   pointer to it is a part of the state. Runs has what a request is to do, call by call and from
--   the world that it finds; Decisions, Looks and Follows compare the methods with it over any
--   number of requests (History), EndToEnd takes an engine for the validator, Guards says what the cache holds, and
--   Transparency compares a request with and without the cache.
-- - Pgx: example/pgx/guarded.go, the executor behind a validator, without a cache; Pgx/Protocol
--   has what a request is to do and follows any number of requests, and Pgx/EndToEnd takes an engine for the validator.
-- - Prometheus: pkg/observability/prometheus/prometheus.go, over the client library as a parameter,
--   whose calls a trace notes: Construct has `New`, Labels the label values, Counted an engine with
--   this sink. Slog: pkg/observability/slog/slog.go, over a handler and a clock; Logged has an
--   engine with that sink. Both stand on Engine/Observed, which follows the part of the world that
--   only the sinks of an engine change.
-- - SizeProbe: internal/testutil/cmd/sizeprobe/main.go.
-- - BenchCharts: internal/testutil/cmd/benchcharts/main.go. Float: float64 as bits, and its
--   arithmetic as a parameter; Dataset: the data set and its `validate`, with Valid, Header and
--   Checked; Order: `slices.SortFunc` and its comparison on ints that wrap around, with Reordered
--   and Sorted; Bars and Render: the texts of the charts, over the formatting of fmt and the
--   escaping of encoding/xml; Deterministic and Ordered: the charts of a valid data set; Main: `main` and
--   `loadDataset` over the file system and the decoder of encoding/json, with Written and Files.
-- - Common: notation, lists, strings as lists of bytes, and integers.
-- - Tests: tests, and the theorems at concrete inputs.
--
-- Bounds: `appendStatement` and `convertMessage` recurse through the tree, in the model with fuel.
-- The fuel is the size of the statement, and the depth of the message, which the record of the
-- reflection has as a parameter with the law that what a field holds lies less deep: messages are
-- finite. A nested statement is smaller than the one around it, so neither can run out. Numbers of
-- the tree are only copied, so they have no width here, and a float is its bits.
--
-- Not modelled: the parser itself and the choice of its backend by a build tag (the backend is a
-- parameter); slices as memory (the code copies them where they could be shared); calls
-- that run at the same time (an engine has no state that changes, and the cache is safe for
-- concurrent use; the requests to both wrappers are followed one after another); the counters
-- inside the Prometheus client and what a log handler writes; what a float64 operation rounds to, and the
-- texts that the chart generator prints before it exits.
mod Common
pub mod Parser
pub mod Statement
pub mod Rule
pub mod Errors
pub mod Observability
pub mod Runtime
pub mod Interface
pub mod Contracts
pub mod Engine
pub mod Rules
pub mod PgxPrepared
pub mod Pgx
pub mod Prometheus
pub mod Slog
pub mod SizeProbe
pub mod BenchCharts
mod Tests
