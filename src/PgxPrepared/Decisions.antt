-- ===== src/PgxPrepared/Decisions.antt =====
-- The tests of example/pgx-prepared/guarded.go that decide what a wrapper does, said without them.
use postgres_sqlguard.Common.{
  ℕ, ◌≡◌, refl, ap, ◌∙◌, arith, true, false, inl, inr, List, [], ◌∷◌, Option, none, some,
  Option-cases, GoString, ℤ, pos, negsuc, In, here, there,
}
use postgres_sqlguard.Errors.{GoError, as_violation}
use postgres_sqlguard.PgxPrepared.{
  Argument, query_rewriter, plain, fits, is_cacheable_validation_outcome, contains_query_rewriter,
}
use postgres_sqlguard.PgxPrepared.Runs.{NoRewriter, SmallEnough, IsDecision}

pub rewriter_found :
    (arguments : List Argument)
    → contains_query_rewriter arguments ≡ true
    → (n : ℕ) × In (query_rewriter n) arguments
unfolding contains_query_rewriter
rewriter_found [] h = absurd (cc)
rewriter_found (query_rewriter n ∷ arguments) h = (n, here refl)
rewriter_found (plain n ∷ arguments) h = let (m, at) = rewriter_found arguments h in (m, there at)

pub contains-NoRewriter :
    (arguments : List Argument) → contains_query_rewriter arguments ≡ false → NoRewriter arguments
unfolding contains_query_rewriter
contains-NoRewriter [] h n at = elim at [ ]
contains-NoRewriter (query_rewriter m ∷ arguments) h n at = cc
contains-NoRewriter (plain m ∷ arguments) h n (here e) = cc
contains-NoRewriter (plain m ∷ arguments) h n (there at) = contains-NoRewriter arguments h n at

pub fits-SmallEnough : (sql : GoString) (limit : ℤ) → fits sql limit ≡ true → SmallEnough sql limit
unfolding fits
fits-SmallEnough sql (pos n) h = (n, refl, ground arith)
fits-SmallEnough sql (negsuc n) h = absurd (cc)

pub SmallEnough-fits : (sql : GoString) (limit : ℤ) → SmallEnough sql limit → fits sql limit ≡ true
unfolding fits
SmallEnough-fits sql (pos n) (m, e, h) = let same : n ≡ m = cc (e) in ground (arith, same, h)
SmallEnough-fits sql (negsuc n) (m, e, h) = absurd (cc)

pub cacheable-IsDecision :
    (err : Option GoError) → is_cacheable_validation_outcome err ≡ true → IsDecision err
unfolding is_cacheable_validation_outcome
cacheable-IsDecision none h = inl refl
cacheable-IsDecision (some x) h = elim (Option-cases (as_violation x)) [
  | inl e ↦
      let bad : false ≡ true = rw (e, is_cacheable_validation_outcome) at h in absurd (cc (bad))
  | inr (v, e) ↦ inr (x, v, refl, e)
]

pub IsDecision-cacheable :
    (err : Option GoError) → IsDecision err → is_cacheable_validation_outcome err ≡ true
unfolding is_cacheable_validation_outcome
IsDecision-cacheable none h = refl
IsDecision-cacheable (some x) (inl e) = absurd (cc)
IsDecision-cacheable (some x) (inr (y, v, e, h)) =
    let same : x ≡ y = cc (e) in
    let at_x : as_violation x ≡ some v = ap as_violation same ∙ h in
    rw (at_x, is_cacheable_validation_outcome) refl
