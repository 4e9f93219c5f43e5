-- ===== src/PgxPrepared/Transparency.antt =====
-- example/pgx-prepared/guarded.go: a request of a wrapper of an engine, with and without the cache.
use postgres_sqlguard.Common.{
  ◌≡◌, refl, sym, ap, ◌∙◌, subst, Bool, ◌&&◌, Option, none, some, GoString, ℤ, Bool-cases, inl, inr,
}
use postgres_sqlguard.Parser.Result.{Result}
use postgres_sqlguard.Parser.Protobuf.{Backend}
use postgres_sqlguard.Parser.Convert.{parsed, parse}
use postgres_sqlguard.Statement.{Statement}
use postgres_sqlguard.Errors.{GoError}
use postgres_sqlguard.Runtime.{Outcome, returned, panicked, State, continue, perform}
use postgres_sqlguard.Interface.{Interface, invoke}
use postgres_sqlguard.Contracts.{Call, Context, RegisteredRule, Engine, Prepared}
use postgres_sqlguard.Engine.{prepare, validate_prepared, validate_after, validate}
use postgres_sqlguard.Engine.Session.{PreparedRun}
use postgres_sqlguard.Engine.Refines.{validate_prepared-PreparedRun}
use postgres_sqlguard.Engine.Verdicts.{PreparedRun-verdict}
use postgres_sqlguard.Engine.Policy.{Decides, policy, after_parse-policy, validate-policy}
use postgres_sqlguard.Engine.Preparation.{prepare-parsed}
use postgres_sqlguard.PgxPrepared.{
  Setting, GuardedDb, Executor, Held, DbCall, fits, is_cacheable_validation_outcome,
}
use postgres_sqlguard.PgxPrepared.LruCache.{Lru}
use postgres_sqlguard.PgxPrepared.Db.{
  retain, cache_get, cache_add, after_prepare, after_get, validate_cached,
}
use postgres_sqlguard.PgxPrepared.Guards.{PreparedFor, Coherent}
use postgres_sqlguard.PgxPrepared.EndToEnd.{engine_setting, engine_db}

module _ {W : Type 0} (e : Engine W) (ctx : Context W)
    (rejects : RegisteredRule W → Statement → Bool) (d : Decides ctx e.rules rejects) where
  validate_prepared-policy :
      (p : Prepared) (r : Result) (s : State W Call)
      → p.result ≡ some r
      → (validate_prepared e ctx p s).0 ≡ returned (policy rejects e.rules (parsed r))
  validate_prepared-policy p r s eq =
      let (calls, _, run) = validate_prepared-PreparedRun e ctx p s in
      PreparedRun-verdict e ctx r
        (subst (λ x. PreparedRun e ctx x s.world calls (validate_prepared e ctx p s).0) eq run)
      ∙ after_parse-policy rejects ctx e.rules d (parsed r) s.world

module _ {W : Type 0} (e : Engine W) (backend : Backend) (Tag Rows Row : Type 0) (zero_tag : Tag)
    (L : Lru) (executor : Interface (Executor (engine_setting e backend Tag Rows Row zero_tag)))
    (limit : ℤ) (ctx : Context W) (sql : GoString) where
  abbrev setting : Setting
  setting = engine_setting e backend Tag Rows Row zero_tag

  abbrev db : GuardedDb setting
  db = engine_db e backend Tag Rows Row zero_tag L executor limit

  retain-returned :
      (p : Prepared) (err : Option GoError) (s : State (Held (State W Call) L.Cache) DbCall)
      → (retain L setting db sql p err s).0 ≡ returned err
  unfolding retain cache_add
  retain-returned p err s =
      elim (Bool-cases (fits sql limit && is_cacheable_validation_outcome err)) [
        | inl kept ↦ rw kept refl
        | inr dropped ↦ rw dropped refl
      ]

  retained :
      (p : Prepared) (q : Outcome (Option GoError)) (s : State (Held (State W Call) L.Cache) DbCall)
      → (continue (q, s) (retain L setting db sql p)).0 ≡ q
  retained p (returned err) s = retain-returned p err s
  retained p panicked s = refl

  miss-validate :
      (q : Outcome (Prepared × Option GoError)) (s : State (Held (State W Call) L.Cache) DbCall)
      → (continue (q, s) (after_prepare L setting db ctx sql)).0
        ≡ (continue (q, s.world.outer) (validate_after e ctx)).0
  unfolding after_prepare validate_after perform invoke
  miss-validate panicked s = refl
  miss-validate (returned (p, some err)) s = refl
  miss-validate (returned (p, none)) s = retained p (validate_prepared e ctx p s.world.outer).0 _

  module _ (rejects : RegisteredRule W → Statement → Bool) (d : Decides ctx e.rules rejects) where
    after_get-policy :
        (hit : Option Prepared) (s : State (Held (State W Call) L.Cache) DbCall)
        → ((p : Prepared) → hit ≡ some p → PreparedFor db sql p)
        → (after_get L setting db ctx sql hit s).0
          ≡ returned (policy rejects e.rules (parse backend sql))
    unfolding after_get perform invoke validate
    after_get-policy (some p) s origin =
        let h = origin p refl in
        let (r, parsing, eq) =
          prepare-parsed e h.ctx backend sql p h.before (ap (λ q. q.0) h.prepares) in
        validate_prepared-policy e ctx rejects d p r s.world.outer eq
        ∙ ap (λ o. returned (policy rejects e.rules o)) (sym parsing)
    after_get-policy none s origin =
        miss-validate (prepare backend e ctx sql s.world.outer).0 _
        ∙ validate-policy backend e ctx sql s.world.outer rejects d

    -- Under a context that never ends and rules that decide by the statement alone, a wrapper
    -- whose cache holds under each text only what some call of the engine prepared for it returns the result that the
    -- engine's `Validate` returns for the text, whether the cache has the text or not.
    pub validate_cached-validate :
        (s : State (Held (State W Call) L.Cache) DbCall) (t : State W Call)
        → Coherent db L s.world.cache
        → (validate_cached L setting db ctx sql s).0 ≡ (validate backend e ctx sql t).0
    unfolding validate_cached cache_get
    validate_cached-validate s t coherent =
        after_get-policy (L.get s.world.cache sql).0 _ (λ p hit. (coherent sql p hit).0)
        ∙ sym (validate-policy backend e ctx sql t rejects d)
