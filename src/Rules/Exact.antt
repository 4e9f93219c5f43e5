-- ===== src/Rules/Exact.antt =====
-- pkg/rules: each built-in rule rejects exactly what it forbids.
use postgres_sqlguard.Common.{
  ◌≡◌, ◌↔◌, inl, inr, refl, subst, Bool, true, false, GoString, str_eq, str_eq_iff, arith,
  Bool-cases, Option-cases,
}
use postgres_sqlguard.Parser.Node.{kind}
use postgres_sqlguard.Statement.{Statement, statement_kind, child, enum_field}
use postgres_sqlguard.Statement.Fields.{child-eq-none_iff, enum_field_iff}
use postgres_sqlguard.Statement.Children.{HoldsNode, children-eq-nil_iff}
use postgres_sqlguard.Rule.{rejected, allow, reject}
use postgres_sqlguard.Rules.Mutation.{
  update_statement_kind, delete_statement_kind, where_clause_field, require_where_clause,
}
use postgres_sqlguard.Rules.Insert.{insert_statement_kind, insert_columns_field, require_columns}
use postgres_sqlguard.Rules.Ddl.{
  truncate_statement_kind, drop_statement_kind, alter_table_statement_kind,
  alter_table_move_all_kind, drop_object_type_field, alter_object_type_field, table_object_type,
  evaluate_truncate, evaluate_object_type, evaluate_drop_table, evaluate_alter_table,
}
use postgres_sqlguard.Rules.Builtin.{
  Builtin, update_where, delete_where, insert_columns, truncate, drop_table, alter_table,
  evaluate_builtin, LacksWhere, MayBeTable, Forbidden,
}

-- The test on the object type.
rejects_symbol :
    (s : GoString) → rejected (evaluate_object_type (s, true)) ≡ true → s ≡ table_object_type
unfolding rejected evaluate_object_type allow reject
rejects_symbol s h = (str_eq_iff s table_object_type).0 (ground arith)

rejects_object :
    (q : GoString × Bool)
    → ((s : GoString) → q ≡ (s, true) → s ≡ table_object_type)
    → rejected (evaluate_object_type q) ≡ true
unfolding rejected evaluate_object_type allow reject
rejects_object (s, true) h = ground (arith, (str_eq_iff s table_object_type).1 (h s refl))
rejects_object (s, false) h = refl

module _ (st : Statement) where
  where_sound : (k : GoString) → rejected (require_where_clause st k) ≡ true → LacksWhere k st.root
  unfolding require_where_clause rejected allow reject statement_kind
  where_sound k h = elim (Bool-cases (str_eq (kind st.root) k)) [
    | inl same ↦ elim (Option-cases (child st.root where_clause_field)) [
      | inl e ↦ ((str_eq_iff _ _).0 same, (child-eq-none_iff st.root where_clause_field).0 e)
      | inr (c, e) ↦ absurd (ground arith)
    ]
    | inr other ↦ absurd (ground arith)
  ]

  where_complete :
      (k : GoString) → LacksWhere k st.root → rejected (require_where_clause st k) ≡ true
  unfolding require_where_clause rejected allow reject statement_kind
  where_complete k (is_kind, lacks) =
      ground
        (arith, (str_eq_iff _ _).1 is_kind, (child-eq-none_iff st.root where_clause_field).1 lacks)

  columns_sound :
      rejected (require_columns st) ≡ true
      → (kind st.root ≡ insert_statement_kind) × (¬ HoldsNode st.root insert_columns_field)
  unfolding require_columns rejected allow reject statement_kind
  columns_sound h = elim (Bool-cases (str_eq (kind st.root) insert_statement_kind)) [
    | inl same ↦ (
      (str_eq_iff _ _).0 same,
      (children-eq-nil_iff st.root insert_columns_field).0 (ground arith),
    )
    | inr other ↦ absurd (ground arith)
  ]

  columns_complete :
      (kind st.root ≡ insert_statement_kind) × (¬ HoldsNode st.root insert_columns_field)
      → rejected (require_columns st) ≡ true
  unfolding require_columns rejected allow reject statement_kind
  columns_complete (is_kind, lacks) = ground (
    arith,
    (str_eq_iff _ _).1 is_kind,
    (children-eq-nil_iff st.root insert_columns_field).1 lacks,
  )

  object_sound :
      (name : GoString)
      → rejected (evaluate_object_type (enum_field st.root name)) ≡ true
      → MayBeTable name st.root
  object_sound name h s held = rejects_symbol s (
      subst (λ q. rejected (evaluate_object_type q) ≡ true) ((enum_field_iff st.root name s).1 held)
        h)

  object_complete :
      (name : GoString)
      → MayBeTable name st.root
      → rejected (evaluate_object_type (enum_field st.root name)) ≡ true
  object_complete name h =
      rejects_object (enum_field st.root name)
        (λ s read. h s ((enum_field_iff st.root name s).0 read))

  drop_sound : rejected (evaluate_drop_table st) ≡ true → Forbidden drop_table st.root
  unfolding evaluate_drop_table statement_kind rejected allow
  drop_sound h = elim (Bool-cases (str_eq (kind st.root) drop_statement_kind)) [
    | inl same ↦ ((str_eq_iff _ _).0 same, object_sound drop_object_type_field (ground arith))
    | inr other ↦ absurd (ground arith)
  ]

  drop_complete : Forbidden drop_table st.root → rejected (evaluate_drop_table st) ≡ true
  unfolding evaluate_drop_table statement_kind
  drop_complete (is_kind, table) =
      ground (arith, (str_eq_iff _ _).1 is_kind, object_complete drop_object_type_field table)

  alter_sound : rejected (evaluate_alter_table st) ≡ true → Forbidden alter_table st.root
  unfolding evaluate_alter_table statement_kind rejected allow
  alter_sound h = elim (Bool-cases (str_eq (kind st.root) alter_table_statement_kind)) [
    | inl same ↦
        (inl ((str_eq_iff _ _).0 same), object_sound alter_object_type_field (ground arith))
    | inr other ↦ elim (Bool-cases (str_eq (kind st.root) alter_table_move_all_kind)) [
      | inl same ↦
          (inr ((str_eq_iff _ _).0 same), object_sound alter_object_type_field (ground arith))
      | inr neither ↦ absurd (ground arith)
    ]
  ]

  alter_complete : Forbidden alter_table st.root → rejected (evaluate_alter_table st) ≡ true
  unfolding evaluate_alter_table statement_kind
  alter_complete (inl is_kind, table) =
      ground (arith, (str_eq_iff _ _).1 is_kind, object_complete alter_object_type_field table)
  alter_complete (inr is_kind, table) =
      ground (arith, (str_eq_iff _ _).1 is_kind, object_complete alter_object_type_field table)

  truncate_sound : rejected (evaluate_truncate st) ≡ true → Forbidden truncate st.root
  unfolding evaluate_truncate statement_kind rejected allow
  truncate_sound h = (str_eq_iff _ truncate_statement_kind).0 (ground arith)

  truncate_complete : Forbidden truncate st.root → rejected (evaluate_truncate st) ≡ true
  unfolding evaluate_truncate statement_kind rejected reject
  truncate_complete is_kind = ground (arith, (str_eq_iff _ truncate_statement_kind).1 is_kind)

  -- Each built-in rule rejects a statement exactly when it is of the rule's kind and the parsed
  -- tree lacks what the rule requires: an UPDATE or DELETE with no node in its `where_clause` field, an INSERT
  -- with no node in a list in its `cols` field, every TRUNCATE, and a DROP or ALTER TABLE statement kind whose object type is not
  -- an enum symbol other than `OBJECT_TABLE`.
  pub builtin-Forbidden :
      (b : Builtin) → (rejected (evaluate_builtin b st) ≡ true) ↔ Forbidden b st.root
  builtin-Forbidden update_where =
      (where_sound update_statement_kind, where_complete update_statement_kind)
  builtin-Forbidden delete_where =
      (where_sound delete_statement_kind, where_complete delete_statement_kind)
  builtin-Forbidden insert_columns = (columns_sound, columns_complete)
  builtin-Forbidden truncate = (truncate_sound, truncate_complete)
  builtin-Forbidden drop_table = (drop_sound, drop_complete)
  builtin-Forbidden alter_table = (alter_sound, alter_complete)
