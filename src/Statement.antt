-- ===== src/Statement.antt =====
-- statement.go: the public, read-only view of a parsed statement.
-- A `Node` of this package wraps a `*parser.Node`, and is an `Option Node` here.
pub mod Walk
pub mod Fields
pub mod Children
use postgres_sqlguard.Common.{
  ℕ, Bool, true, false, List, [], ◌∷◌, Option, none, some, GoString, ℤ, pos,
}
use postgres_sqlguard.Parser.Node.{
  Node, Value, Kind, get_field, as_bool, as_int, as_uint, as_float, as_string, as_bytes, as_enum,
  as_node, as_list, kind,
}

pub record Statement : Type 0 where
  pub root : Option Node

-- `newStatement`
abbrev pub new_statement : Option Node → Statement
new_statement n = record { root = n }

-- `Node.value`
unfoldable pub value : Option Node → GoString → Option Value
value none name = none
value (some n) name = get_field (some n) name

-- `Statement.Kind`
unfoldable pub statement_kind : Statement → Kind
statement_kind s = kind s.root

-- `Node.Child`; `some none` wraps a nil node.
unfoldable pub child : Option Node → GoString → Option (Option Node)
child n name = elim (value n name) [ none ↦ none | some v ↦ as_node v ]

-- The loop of `Node.Children`.
unfoldable pub keep_nodes : List Value → List (Option Node)
keep_nodes [] = []
keep_nodes (item ∷ items) =
    let rest = keep_nodes items in elim (as_node item) [ none ↦ rest | some n ↦ n ∷ rest ]

-- `Node.Children`
unfoldable pub children : Option Node → GoString → List (Option Node)
children n name = elim (value n name) [
  | none ↦ []
  | some v ↦ elim (as_list v) [ none ↦ [] | some values ↦ keep_nodes values ]
]

-- `Node.Bool` to `Node.Enum`: a missing field and one of another kind give `false`.
abbrev scalar : {A : Type 0} → A → (Value → A × Bool) → Option Value → A × Bool
scalar zero_value read none = (zero_value, false)
scalar zero_value read (some v) = read v

unfoldable pub bool_field : Option Node → GoString → Bool × Bool
bool_field n name = scalar false as_bool (value n name)

unfoldable pub int_field : Option Node → GoString → ℤ × Bool
int_field n name = scalar (pos 0) as_int (value n name)

unfoldable pub uint_field : Option Node → GoString → ℕ × Bool
uint_field n name = scalar 0 as_uint (value n name)

unfoldable pub float_field : Option Node → GoString → ℕ × Bool
float_field n name = scalar 0 as_float (value n name)

unfoldable pub string_field : Option Node → GoString → GoString × Bool
string_field n name = scalar [] as_string (value n name)

unfoldable pub bytes_field : Option Node → GoString → Option (List ℕ)
bytes_field n name = elim (value n name) [ none ↦ none | some v ↦ as_bytes v ]

unfoldable pub enum_field : Option Node → GoString → GoString × Bool
enum_field n name = scalar [] as_enum (value n name)
