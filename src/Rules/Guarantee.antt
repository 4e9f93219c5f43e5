-- ===== src/Rules/Guarantee.antt =====
-- An engine of built-in rules, from the SQL text to the result.
use postgres_sqlguard.Common.{
  ◌≡◌, ◌↔◌, refl, sym, ◌∙◌, ap, subst, Bool, true, false, List, [], ◌∷◌, none, some, GoString,
  Bool-cases, inl, inr, In, here, there,
}
use postgres_sqlguard.Parser.Node.{Node}
use postgres_sqlguard.Parser.Result.{Result}
use postgres_sqlguard.Parser.Protobuf.{Backend}
use postgres_sqlguard.Parser.Convert.{parsed, parse}
use postgres_sqlguard.Parser.Traversal.Reach.{Reaches}
use postgres_sqlguard.Statement.{Statement, new_statement}
use postgres_sqlguard.Rule.{RuleResult, rejected}
use postgres_sqlguard.Runtime.{Outcome, returned, panicked, State}
use postgres_sqlguard.Interface.{invoke}
use postgres_sqlguard.Contracts.{Call, Context, RegisteredRule, Engine}
use postgres_sqlguard.Engine.{validate}
use postgres_sqlguard.Engine.Schedule.{answer_of}
use postgres_sqlguard.Engine.Policy.{Decides}
use postgres_sqlguard.Engine.Guarantee.{Clean, validate_allowed_iff}
use postgres_sqlguard.Rules.Builtin.{
  Builtin, update_where, delete_where, insert_columns, truncate, drop_table, alter_table, rule_of,
  id_of, evaluate_builtin, Forbidden,
}
use postgres_sqlguard.Rules.Exact.{builtin-Forbidden}

-- What `NewEngine` registers for a list of built-in rules.
abbrev pub registered : {W : Type 0} → Builtin → RegisteredRule W
registered b = record { rule_id = id_of b; rule = rule_of b }

abbrev pub registered_all : {W : Type 0} → List Builtin → List (RegisteredRule W)
registered_all [] = []
registered_all (b ∷ bs) = registered b ∷ registered_all bs

-- No listed rule forbids a statement that a top-level statement reaches.
abbrev pub NoneForbidden : List Builtin → Result → Type 0
NoneForbidden bs r =
    (b : Builtin) (n m : Node)
    → In b bs
    → In (some n) r.statements
    → Reaches n m
    → ¬ (Forbidden b (some m))

abbrev denies : Outcome RuleResult → Bool
denies (returned a) = rejected a
denies panicked = true

module _ {W : Type 0} (ctx : Context W) where
  answer-builtin :
      (b : Builtin) (st : Statement) (w : W)
      → answer_of ctx (registered b, st) w ≡ (returned (evaluate_builtin b st), w)
  unfolding invoke
  answer-builtin update_where st w = refl
  answer-builtin delete_where st w = refl
  answer-builtin insert_columns st w = refl
  answer-builtin truncate st w = refl
  answer-builtin drop_table st w = refl
  answer-builtin alter_table st w = refl

  -- The decision of a rule, read at some world.
  abbrev pub rejects_at : W → RegisteredRule W → Statement → Bool
  rejects_at w reg st = denies (answer_of ctx (reg, st) w).0

  rejects_at-registered :
      (w : W) (b : Builtin) (st : Statement)
      → rejects_at w (registered b) st ≡ rejected (evaluate_builtin b st)
  rejects_at-registered w b st = ap (λ p. denies p.0) (answer-builtin b st w)

  In-registered_all :
      (bs : List Builtin) (reg : RegisteredRule W)
      → In reg (registered_all bs)
      → (b : Builtin) × In b bs × (registered b ≡ reg)
  In-registered_all [] reg at = elim at [ ]
  In-registered_all (b ∷ bs) reg (here e) = (b, here refl, sym e)
  In-registered_all (b ∷ bs) reg (there at) =
      let (c, m, e) = In-registered_all bs reg at in (c, there m, e)

  registered-In :
      (bs : List Builtin) (b : Builtin)
      → In b bs
      → In {A = RegisteredRule W} (registered b) (registered_all bs)
  registered-In (c ∷ bs) b (here e) = here (ap registered e)
  registered-In (c ∷ bs) b (there at) = there (registered-In bs b at)
  registered-In [] b at = elim at [ ]

  abbrev Live : Type 0
  Live = (w : W) → (w' : W) × (ctx.err w ≡ (returned none, w'))

  module _ (live : Live) (origin : W) (bs : List Builtin) where
    pub decides : Decides ctx (registered_all bs) (rejects_at origin)
    decides = record {
      live = live;
      answers = λ reg at st w.
          let (b, _, e) = In-registered_all bs reg at in
          (
            evaluate_builtin b st,
            w,
            ap (λ x. answer_of ctx (x, st) w) (sym e) ∙ answer-builtin b st w,
            sym (ap (λ x. rejects_at origin x st) (sym e) ∙ rejects_at-registered origin b st),
          );
    }

    Clean-NoneForbidden :
        (r : Result) → Clean (rejects_at origin) (registered_all bs) r → NoneForbidden bs r
    Clean-NoneForbidden r clean b n m listed top reaches forbidden =
        let passes = clean (registered b) n m (registered-In bs b listed) top reaches in
        let denied = (builtin-Forbidden (new_statement (some m)) b).1 forbidden in
        cc (passes, denied, rejects_at-registered origin b (new_statement (some m)))

    NoneForbidden-Clean :
        (r : Result) → NoneForbidden bs r → Clean (rejects_at origin) (registered_all bs) r
    NoneForbidden-Clean r none_forbidden reg n m at top reaches =
        let (b, listed, e) = In-registered_all bs reg at in
        let st = new_statement (some m) in
        ap (λ x. rejects_at origin x st) (sym e)
        ∙ rejects_at-registered origin b st
        ∙ allowed b listed
      where
        allowed :
            (b : Builtin) → In b bs → rejected (evaluate_builtin b (new_statement (some m))) ≡ false
        allowed b listed =
            elim (Bool-cases (rejected (evaluate_builtin b (new_statement (some m))))) [
              | inl denied ↦ absurd (
                  none_forbidden b n m listed top reaches
                    ((builtin-Forbidden (new_statement (some m)) b).0 denied))
              | inr passes ↦ passes
            ]

-- Under a context that never ends, an engine with built-in rules registered under their
-- identifiers returns no error for a text exactly when the text parses and no listed rule
-- forbids any statement that a top-level statement reaches through WITH clauses, itself included.
pub validate_builtins_iff :
    {W : Type 0} (backend : Backend) (e : Engine W) (ctx : Context W) (sql : GoString)
    (s : State W Call) (bs : List Builtin)
    → ((w : W) → (w' : W) × (ctx.err w ≡ (returned none, w')))
    → e.rules ≡ registered_all bs
    → ((validate backend e ctx sql s).0 ≡ returned none)
      ↔ ((r : Result) × (parse backend sql ≡ parsed r) × NoneForbidden bs r)
validate_builtins_iff backend e ctx sql s bs live has_rules =
    let rejects = rejects_at ctx s.world in
    let d = decides ctx live s.world bs in
    let both =
      validate_allowed_iff backend e ctx sql s rejects
        (subst (λ rules. Decides ctx rules rejects) (sym has_rules) d) in
    (
      λ h.
          let (r, parsing, clean) = both.0 h in
          (
            r,
            parsing,
            Clean-NoneForbidden ctx live s.world bs r
                (subst (λ rules. Clean rejects rules r) has_rules clean),
          ),
      λ (r, parsing, none_forbidden). both.1 (
        r,
        parsing,
        subst (λ rules. Clean rejects rules r) (sym has_rules)
            (NoneForbidden-Clean ctx live s.world bs r none_forbidden),
      ),
    )
