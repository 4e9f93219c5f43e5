-- ===== src/PgxPrepared/Looks.antt =====
-- The validation of a text by a wrapper of example/pgx-prepared/guarded.go, with its cache.
use postgres_sqlguard.Common.{
  ◌≡◌, refl, sym, ap, ◌∙◌, Bool-cases, inl, inr, List, [], ◌∷◌, ◌++◌, append_assoc, Option, none,
  some, GoString, In, here, there,
}
use postgres_sqlguard.Errors.{GoError}
use postgres_sqlguard.Runtime.{Outcome, returned, panicked, State, continue, perform}
use postgres_sqlguard.Contracts.{Prepared}
use postgres_sqlguard.PgxPrepared.{
  Setting, GuardedDb, Held, DbCall, prepared_text, validated_value, fits,
  is_cacheable_validation_outcome,
}
use postgres_sqlguard.PgxPrepared.LruCache.{Lru}
use postgres_sqlguard.PgxPrepared.Db.{
  cache_get, cache_add, retain, after_prepare, after_get, validate_cached,
}
use postgres_sqlguard.PgxPrepared.Runs.{
  Known, prepares, validates, Kept, added, left, left_panic, Validation, hit, unprepared,
  prepare_panic, miss,
}
use postgres_sqlguard.PgxPrepared.Decisions.{
  fits-SmallEnough, SmallEnough-fits, cacheable-IsDecision, IsDecision-cacheable,
}

module _ (L : Lru) {T : Setting} (db : GuardedDb T) where
  open T use {World, Ctx}

  abbrev pub Shared : Type 0
  Shared = State (Held World L.Cache) DbCall

  -- What a lookup finds was prepared before.
  abbrev pub Covers : L.Cache → Known → Type 0
  Covers cache known = (k : GoString) (p : Prepared) → (L.get cache k).0 ≡ some p → In (k, p) known

  abbrev pub Looks : Ctx → GoString → Known → Shared → Outcome (Option GoError) × Shared → Type 0
  Looks ctx sql known s r =
      (calls : List DbCall) × (known' : Known) × (r.1.trace ≡ s.trace ++ calls)
      × Validation L db ctx sql known s.world calls r.0 known' r.1.world
      × Covers r.1.world.cache known'

  module _ (ctx : Ctx) (sql : GoString) where
    Covers-add :
        (cache : L.Cache) (known : Known) (p : Prepared)
        → Covers cache known
        → Covers (L.add cache sql p) ((sql, p) ∷ known)
    Covers-add cache known p covers k q h = elim (L.get-add cache sql k p q h) [
      | inl (same, e) ↦ here (ap (λ k. (k, q)) (sym same) ∙ ap (λ q. (sql, q)) (sym e))
      | inr old ↦ there (covers k q old)
    ]

    -- `retain` returns the result, and adds the value only where it is to be kept.
    abbrev Retains :
        Known → Prepared → Option GoError → Shared → Outcome (Option GoError) × Shared → Type 0
    Retains known p err s r =
        (cache : L.Cache) × (r ≡ (
          returned err,
          record { world = record { outer = s.world.outer; cache = cache }; trace = s.trace },
        ))
        × Kept L db sql p s.world.cache (returned err) cache
        × Covers cache ((sql, p) ∷ known)

    retain-Retains :
        (known : Known) (p : Prepared) (err : Option GoError) (s : Shared)
        → Covers s.world.cache known
        → Retains known p err s (retain L T db sql p err s)
    unfolding retain cache_add
    retain-Retains known p err s covers = elim (Bool-cases (fits sql db.max_sql_bytes)) [
      | inr large ↦ rw large (
        s.world.cache,
        refl,
        left (λ h. cc (large, SmallEnough-fits sql db.max_sql_bytes h.0)),
        λ k q h. there (covers k q h),
      )
      | inl small ↦ elim (Bool-cases (is_cacheable_validation_outcome err)) [
        | inr other ↦
            rw (small, other)
              (
                s.world.cache,
                refl,
                left (λ h. cc (other, IsDecision-cacheable err h.1)),
                λ k q h. there (covers k q h),
              )
        | inl kept ↦
            rw (small, kept)
              (
                L.add s.world.cache sql p,
                refl,
                added (fits-SmallEnough sql db.max_sql_bytes small) (cacheable-IsDecision err kept),
                Covers-add s.world.cache known p covers,
              )
      ]
    ]

    -- The end of a miss, from the state before it.
    missed :
        (known : Known) (s : Shared) (p : Prepared) (cache : L.Cache) (w : World)
        → L.get s.world.cache sql ≡ (none, cache)
        → Covers cache known
        → prepares L db ctx sql s.world.outer ≡ (returned (p, none), w)
        → (q : Outcome (Option GoError) × World) → validates L db ctx p w ≡ q
        → Looks ctx sql known s (
            continue
              (
                q.0,
                record {
                  world = record { outer = q.1; cache = cache };
                  trace = (s.trace ++ prepared_text sql ∷ []) ++ validated_value p ∷ [];
                },
              )
              (retain L T db sql p))
    missed known s p cache w got covers prep (panicked, w') val = (
      prepared_text sql ∷ validated_value p ∷ [],
      (sql, p) ∷ known,
      append_assoc s.trace _ _,
      miss got prep val left_panic,
      λ k q h. there (covers k q h),
    )
    missed known s p cache w got covers prep (returned err, w') val =
        let t : Shared = record {
          world = record { outer = w'; cache = cache };
          trace = (s.trace ++ prepared_text sql ∷ []) ++ validated_value p ∷ [];
        } in
        let (cache', same, kept, covers') = retain-Retains known p err t covers in
        rw same (
          prepared_text sql ∷ validated_value p ∷ [],
          (sql, p) ∷ known,
          append_assoc s.trace _ _,
          miss got prep val kept,
          covers',
        )

    unprepared_lem :
        (known : Known) (s : Shared) (cache : L.Cache)
        → L.get s.world.cache sql ≡ (none, cache)
        → Covers cache known
        → (q : Outcome (Prepared × Option GoError) × World)
        → prepares L db ctx sql s.world.outer ≡ q
        → Looks ctx sql known s (
            continue
              (
                q.0,
                record {
                  world = record { outer = q.1; cache = cache };
                  trace = s.trace ++ prepared_text sql ∷ [];
                },
              )
              (after_prepare L T db ctx sql))
    unfolding after_prepare perform
    unprepared_lem known s cache got covers (panicked, w) prep =
        (_, known, refl, prepare_panic got prep, covers)
    unprepared_lem known s cache got covers (returned (p, some err), w) prep =
        (_, known, refl, unprepared got prep, covers)
    unprepared_lem known s cache got covers (returned (p, none), w) prep =
        missed known s p cache w got covers prep (validates L db ctx p w) refl

    after_get-Looks :
        (known : Known) (s : Shared) (found : Option Prepared) (cache : L.Cache)
        → L.get s.world.cache sql ≡ (found, cache)
        → Covers s.world.cache known
        → Covers cache known
        → Looks ctx sql known s (
            after_get L T db ctx sql found
              (record { world = record { outer = s.world.outer; cache = cache }; trace = s.trace }))
    unfolding after_get perform
    after_get-Looks known s (some p) cache got covers covers' =
        (_, known, refl, hit got (covers sql p (ap (λ r. r.0) got)) refl, covers')
    after_get-Looks known s none cache got covers covers' =
        unprepared_lem known s cache got covers' _ refl

    pub validate_cached-Looks :
        (known : Known) (s : Shared)
        → Covers s.world.cache known
        → Looks ctx sql known s (validate_cached L T db ctx sql s)
    unfolding validate_cached cache_get
    validate_cached-Looks known s covers =
        after_get-Looks known s (L.get s.world.cache sql).0 (L.get s.world.cache sql).1 refl covers
          (λ k p h. covers k p (L.get-get s.world.cache sql k p h))
