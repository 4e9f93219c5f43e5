-- ===== src/Parser/Node.antt =====
-- internal/parser/node.go: the immutable, parser-neutral syntax tree.
-- A `*Node` is an `Option Node`; a slice inside a node is a list of the block. A float64 is its
-- 64-bit pattern, which the code only copies. A `Value` holds the one slot that its kind selects.
use postgres_sqlguard.Common.{
  ℕ, suc, ◌+◌, Bool, true, false, List, [], ◌∷◌, Option, none, some, if◌then◌else◌, GoString,
  str_eq, ℤ, pos,
}

abbrev pub Kind : Type 0
Kind = GoString

mutual
  pub data Node : Type 0 where
    node : Kind → Fields → Node

  -- `[]Field`; a field has a name and a value.
  pub data Fields : Type 0 where
    end : Fields
    field : GoString → Value → Fields → Fields

  -- `nil_node` is a value of kind `ValueNode` whose pointer is nil.
  pub data Value : Type 0 where
    invalid : Value
    bool : Bool → Value
    int : ℤ → Value
    uint : ℕ → Value
    float : ℕ → Value
    string : GoString → Value
    bytes : List ℕ → Value
    enum : GoString → Value
    node_value : Node → Value
    nil_node : Value
    list : Values → Value

  pub data Values : Type 0 where
    nil : Values
    cons : Value → Values → Values

-- `(*Node).Kind`
unfoldable pub kind : Option Node → Kind
kind none = []
kind (some (node k fs)) = k

unfoldable pub find_field : GoString → Fields → Option Value
find_field name end = none
find_field name (field n v fs) = if str_eq n name then some v else find_field name fs

-- `(*Node).Field`; `none` is the zero value with `false`.
unfoldable pub get_field : Option Node → GoString → Option Value
unfolding find_field
get_field none name = none
get_field (some (node k fs)) name = find_field name fs

unfoldable pub to_list_fields : Fields → List (GoString × Value)
to_list_fields end = []
to_list_fields (field n v fs) = (n, v) ∷ to_list_fields fs

-- `(*Node).Fields`
unfoldable pub fields : Option Node → List (GoString × Value)
unfolding to_list_fields
fields none = []
fields (some (node k fs)) = to_list_fields fs

unfoldable pub to_list : Values → List Value
to_list nil = []
to_list (cons v vs) = v ∷ to_list vs

unfoldable pub from_list : List Value → Values
from_list [] = nil
from_list (v ∷ vs) = cons v (from_list vs)

-- `ValueKind`
pub data ValueKind : Type 0 where
  value_invalid value_bool value_int value_uint value_float value_string value_bytes value_enum :
      ValueKind
  value_node value_list : ValueKind

-- `Value.Kind`
unfoldable pub value_kind : Value → ValueKind
value_kind invalid = value_invalid
value_kind (bool b) = value_bool
value_kind (int i) = value_int
value_kind (uint n) = value_uint
value_kind (float x) = value_float
value_kind (string s) = value_string
value_kind (bytes s) = value_bytes
value_kind (enum s) = value_enum
value_kind (node_value n) = value_node
value_kind nil_node = value_node
value_kind (list vs) = value_list

-- The scalar accessors return the slot and whether the kind is right. `String` and `Enum` read
-- the same slot.
unfoldable pub as_bool : Value → Bool × Bool
as_bool (bool b) = (b, true)
as_bool _ = (false, false)

unfoldable pub as_int : Value → ℤ × Bool
as_int (int i) = (i, true)
as_int _ = (pos 0, false)

unfoldable pub as_uint : Value → ℕ × Bool
as_uint (uint n) = (n, true)
as_uint _ = (0, false)

unfoldable pub as_float : Value → ℕ × Bool
as_float (float x) = (x, true)
as_float _ = (0, false)

unfoldable pub as_string : Value → GoString × Bool
as_string (string s) = (s, true)
as_string (enum s) = (s, false)
as_string _ = ([], false)

unfoldable pub as_bytes : Value → Option (List ℕ)
as_bytes (bytes s) = some s
as_bytes _ = none

unfoldable pub as_enum : Value → GoString × Bool
as_enum (enum s) = (s, true)
as_enum (string s) = (s, false)
as_enum _ = ([], false)

-- `Value.Node`: `some none` is a nil pointer with `true`.
unfoldable pub as_node : Value → Option (Option Node)
as_node (node_value n) = some (some n)
as_node nil_node = some none
as_node _ = none

-- `Value.List`
unfoldable pub as_list : Value → Option (List Value)
unfolding to_list
as_list (list vs) = some (to_list vs)
as_list _ = none

-- Measures for the recursions that follow fields by name.
unfoldable mutual
  pub size : Node → ℕ
  size (node k fs) = suc (size_fields fs)

  pub size_fields : Fields → ℕ
  size_fields end = 0
  size_fields (field n v fs) = size_value v + size_fields fs

  pub size_value : Value → ℕ
  size_value (node_value n) = size n
  size_value (list vs) = size_values vs
  size_value _ = 0

  pub size_values : Values → ℕ
  size_values nil = 0
  size_values (cons v vs) = size_value v + size_values vs
