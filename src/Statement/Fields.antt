-- ===== src/Statement/Fields.antt =====
-- The accessors of statement.go against the fields of the tree.
use mathlib.Core.Option.{some-injective}
use postgres_sqlguard.Common.{
  ◌≡◌, ◌≢◌, ◌↔◌, refl, sym, ap, ◌∙◌, subst, Bool, true, false, [], Option, none, some, GoString,
  str_eq, str_eq_iff, Bool-cases, Option-cases, inl, inr,
}
use postgres_sqlguard.Parser.Node.{
  Node, node, Fields, end, field, Value, node_value, nil_node, enum, get_field, find_field, as_node,
  as_enum,
}
use postgres_sqlguard.Statement.{value, child, enum_field}

-- The first field of that name holds `v`.
pub data FieldIs (name : GoString) (v : Value) : Fields → Type 0 where
  first : {n : GoString} {fs : Fields} → n ≡ name → FieldIs name v (field n v fs)
  later :
      {n : GoString} {w : Value} {fs : Fields}
      → n ≢ name
      → FieldIs name v fs
      → FieldIs name v (field n w fs)

-- A node has such a field; nil has none.
abbrev pub FieldOf : Option Node → GoString → Value → Type 0
FieldOf none name v = ⊥
FieldOf (some (node k fs)) name v = FieldIs name v fs

FieldIs-find_field :
    (name : GoString) (fs : Fields) (v : Value) → find_field name fs ≡ some v → FieldIs name v fs
unfolding find_field
FieldIs-find_field name end v h = cc
FieldIs-find_field name (field n w fs) v h = elim (Bool-cases (str_eq n name)) [
  | inl same ↦
      let e : some w ≡ some v = rw same at h in
      subst (λ x. FieldIs name x (field n w fs)) (some-injective w v e)
        (first ((str_eq_iff n name).0 same))
  | inr other ↦
      later (λ e. cc (other, (str_eq_iff n name).1 e))
        (FieldIs-find_field name fs v (rw other at h))
]

find_field-FieldIs :
    (name : GoString) (fs : Fields) (v : Value) → FieldIs name v fs → find_field name fs ≡ some v
unfolding find_field
find_field-FieldIs name end v f = elim f [ ]
find_field-FieldIs name (field n v' fs) v (first e) = rw ((str_eq_iff n name).1 e) refl
find_field-FieldIs name (field n w fs) v (later ne f) = elim (Bool-cases (str_eq n name)) [
  | inl same ↦ absurd (ne ((str_eq_iff n name).0 same))
  | inr other ↦ rw other (find_field-FieldIs name fs v f)
]

pub value-FieldOf :
    (p : Option Node) (name : GoString) (v : Value) → value p name ≡ some v → FieldOf p name v
unfolding value get_field
value-FieldOf none name v h = absurd (cc)
value-FieldOf (some (node k fs)) name v h = FieldIs-find_field name fs v h

pub FieldOf-value :
    (p : Option Node) (name : GoString) (v : Value) → FieldOf p name v → value p name ≡ some v
unfolding value get_field
FieldOf-value none name v f = absurd f
FieldOf-value (some (node k fs)) name v f = find_field-FieldIs name fs v f

-- Only an enum reads as an enum.
enum_of : (v : Value) (s : GoString) → as_enum v ≡ (s, true) → v ≡ enum s
unfolding as_enum
enum_of (enum t) s h = ap enum (ap (λ (x : GoString × Bool). x.0) h)
enum_of _ s h = absurd (cc (ap (λ (x : GoString × Bool). x.1) h))

-- A value of kind `ValueNode`, its pointer nil or not.
abbrev pub IsNode : Value → Type 0
IsNode (node_value n) = Unit
IsNode nil_node = Unit
IsNode _ = ⊥

pub IsNode-as_node : (v : Value) → IsNode v → as_node v ≢ none
unfolding as_node
IsNode-as_node (node_value n) h e = cc
IsNode-as_node nil_node h e = cc
IsNode-as_node _ h e = h

pub as_node-IsNode : (v : Value) (c : Option Node) → as_node v ≡ some c → IsNode v
unfolding as_node
as_node-IsNode (node_value n) c e = tt
as_node-IsNode nil_node c e = tt
as_node-IsNode _ c e = absurd (cc)

module _ (p : Option Node) (name : GoString) where
  child-absent : value p name ≡ none → child p name ≡ none
  unfolding child
  child-absent e = rw (e, child)

  child-value : (v : Value) → value p name ≡ some v → child p name ≡ as_node v
  unfolding child
  child-value v e = rw (e, child)

  child-found :
      (c : Option Node) → child p name ≡ some c → (v : Value) × FieldOf p name v × IsNode v
  child-found c h = elim (Option-cases (value p name)) [
    | inl absent ↦ absurd (cc (child-absent absent))
    | inr (v, held) ↦
        (v, value-FieldOf p name v held, as_node-IsNode v c (sym (child-value v held) ∙ h))
  ]

  -- `Child` finds nothing exactly where no node, and no nil pointer of one, stands in the first
  -- field of that name.
  pub child-eq-none_iff : (child p name ≡ none) ↔ (¬ ((v : Value) × FieldOf p name v × IsNode v))
  child-eq-none_iff = (
    λ e (v, f, n). IsNode-as_node v n (sym (child-value v (FieldOf-value p name v f)) ∙ e),
    λ none_held. elim (Option-cases (child p name)) [
      | inl e ↦ e
      | inr (c, e) ↦ absurd (none_held (child-found c e))
    ],
  )

  enum-absent : value p name ≡ none → enum_field p name ≡ ([], false)
  unfolding enum_field
  enum-absent e = rw (e, enum_field)

  enum-value : (v : Value) → value p name ≡ some v → enum_field p name ≡ as_enum v
  unfolding enum_field
  enum-value v e = rw (e, enum_field)

  enum-found : (s : GoString) → enum_field p name ≡ (s, true) → FieldOf p name (enum s)
  enum-found s h = elim (Option-cases (value p name)) [
    | inl absent ↦ absurd (cc (ap (λ (x : GoString × Bool). x.1) (sym (enum-absent absent) ∙ h)))
    | inr (v, held) ↦
        subst (FieldOf p name) (enum_of v s (sym (enum-value v held) ∙ h))
          (value-FieldOf p name v held)
  ]

  -- `Enum` returns a symbol with `true` exactly where the first field of that name holds it.
  pub enum_field_iff : (s : GoString) → (enum_field p name ≡ (s, true)) ↔ FieldOf p name (enum s)
  enum_field_iff s = (
    enum-found s,
    λ f. enum-value (enum s) (FieldOf-value p name (enum s) f) ∙ unfold as_enum in refl,
  )
