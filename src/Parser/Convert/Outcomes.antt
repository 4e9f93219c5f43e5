-- ===== src/Parser/Convert/Outcomes.antt =====
-- What `Parse` of pgquery.go returns.
use postgres_sqlguard.Common.{
  ◌≡◌, refl, sym, ◌∙◌, ap, true, false, List, [], ◌∷◌, ◌++◌, map, Option, none, some, GoString,
  ◌==◌, ==_iff, ||-eq-true, Bool-cases, Option-cases, inl, inr, In, here, there, concat_map, arith,
}
use postgres_sqlguard.Parser.Node.{Node}
use postgres_sqlguard.Parser.Protobuf.{Protobuf, Backend, tree, refused}
use postgres_sqlguard.Parser.Convert.{
  convert_pg_node, convert_statements, has_nul, parsed, syntax_failure, parse,
}

has_nul-In : (s : GoString) → In 0 s → has_nul s ≡ true
unfolding has_nul
has_nul-In [] at = elim at [ ]
has_nul-In (c ∷ s) (here e) = ground (arith, (==_iff c 0).1 (sym e))
has_nul-In (c ∷ s) (there at) = ground (arith, has_nul-In s at)

In-has_nul : (s : GoString) → has_nul s ≡ true → In 0 s
unfolding has_nul
In-has_nul [] h = absurd (cc)
In-has_nul (c ∷ s) h = elim (||-eq-true (c == 0) _ h) [
  | inl e ↦ here (sym ((==_iff c 0).0 e))
  | inr more ↦ there (In-has_nul s more)
]

-- The converted statements that are not nil.
abbrev pub present : Option Node → List Node
present none = []
present (some n) = n ∷ []

module _ (P : Protobuf) where
  skip :
      (raw : Option P.Message) (raws : List (Option P.Message))
      → convert_pg_node P raw ≡ none
      → convert_statements P (raw ∷ raws) ≡ convert_statements P raws
  unfolding convert_statements
  skip raw raws e = rw (e, convert_statements) refl

  keep :
      (raw : Option P.Message) (raws : List (Option P.Message)) (n : Node)
      → convert_pg_node P raw ≡ some n
      → convert_statements P (raw ∷ raws) ≡ some n ∷ convert_statements P raws
  unfolding convert_statements
  keep raw raws n e = rw (e, convert_statements) refl

  convert_statements-eq :
      (raws : List (Option P.Message))
      → convert_statements P raws
        ≡ map some (concat_map (λ raw. present (convert_pg_node P raw)) raws)
  unfolding convert_statements concat_map
  convert_statements-eq [] = refl
  convert_statements-eq (raw ∷ raws) = elim (Option-cases (convert_pg_node P raw)) [
    | inl e ↦
        skip raw raws e
        ∙ convert_statements-eq raws
        ∙ ap (λ o. map some (present o ++ concat_map (λ raw. present (convert_pg_node P raw)) raws))
            (sym e)
    | inr (n, e) ↦
        keep raw raws n e
        ∙ ap (◌∷◌ (some n)) (convert_statements-eq raws)
        ∙ ap (λ o. map some (present o ++ concat_map (λ raw. present (convert_pg_node P raw)) raws))
            (sym e)
  ]

module _ (backend : Backend) (sql : GoString) where
  parse-nul : has_nul sql ≡ true → parse backend sql ≡ syntax_failure
  unfolding parse
  parse-nul h = rw h refl

  parse-refused :
      (d : GoString) → backend.parse_backend sql ≡ refused d → parse backend sql ≡ syntax_failure
  unfolding parse
  parse-refused d e = elim (Bool-cases (has_nul sql)) [ inl h ↦ rw h refl | inr h ↦ rw (h, e) refl ]

  parse-tree :
      (raws : List (Option backend.proto.Message))
      → has_nul sql ≡ false
      → backend.parse_backend sql ≡ tree raws
      → parse backend sql ≡ parsed (record { statements = convert_statements backend.proto raws })
  unfolding parse
  parse-tree raws h e = rw (h, e) refl

-- The outcome of a parse, case by case.
pub record Outcomes (backend : Backend) (sql : GoString) : Type 0 where
  -- A NUL byte anywhere is a syntax failure, whatever the backend would say.
  pub nul : In 0 sql → parse backend sql ≡ syntax_failure
  -- So is a refusal of the backend, whatever its diagnostic.
  pub diagnostic :
      (d : GoString) → backend.parse_backend sql ≡ refused d → parse backend sql ≡ syntax_failure
  -- Otherwise the statements are the conversions of the raw statements, in order, without the
  -- nil ones.
  pub statements :
      (raws : List (Option backend.proto.Message))
      → ¬ In 0 sql
      → backend.parse_backend sql ≡ tree raws
      → parse backend sql
        ≡ parsed (record {
          statements =
              map some (concat_map (λ raw. present (convert_pg_node backend.proto raw)) raws);
        })

-- On every text: one with a NUL byte is a syntax failure even if the backend accepts it; a refusal of the backend
-- becomes the same failure, with nothing of the diagnostic; and otherwise the result holds the
-- conversions of the raw statements, in order, without the nil ones.
pub parse-Outcomes : (backend : Backend) (sql : GoString) → Outcomes backend sql
parse-Outcomes backend sql = record {
  nul = λ at. parse-nul backend sql (has_nul-In sql at);
  diagnostic = parse-refused backend sql;
  statements = λ raws clean e. elim (Bool-cases (has_nul sql)) [
    | inl h ↦ absurd (clean (In-has_nul sql h))
    | inr h ↦
        parse-tree backend sql raws h e
        ∙ ap (λ l. parsed (record { statements = l })) (convert_statements-eq backend.proto raws)
  ];
}
