-- ===== src/Tests/Messages.antt =====
-- A protobuf reflection whose messages mirror the parser-neutral tree.
use postgres_sqlguard.Common.{
  ℕ, zero, suc, ◌≤◌, ◌<◌, ◌≡◌, refl, Bool, true, false, List, [], ◌∷◌, Option, none, some, GoString,
  pos, In, here, there, arith,
}
use postgres_sqlguard.Parser.Node.{
  Node, node, Fields, end, field, Value, invalid, bool, int, uint, float, string, bytes, enum,
  node_value, nil_node, list, Values, nil, cons, to_list, size, size_fields, size_value,
  size_values,
}
use postgres_sqlguard.Parser.Protobuf.{
  Protobuf, FieldKind, bool_kind, int64_kind, uint64_kind, double_kind, string_kind, bytes_kind,
  enum_kind, message_kind, other_kind,
}

-- A message is a node of the tree, or not valid.
abbrev pub Message : Type 0
Message = Option Node

-- A field of a descriptor: a name and its place, with a value that shows its kind.
pub record Slot : Type 0 where
  pub name : GoString
  pub place : ℕ
  pub shape : Value

abbrev slots_from : ℕ → Fields → List Slot
slots_from i end = []
slots_from i (field n v fs) = record { name = n; place = i; shape = v } ∷ slots_from (suc i) fs

abbrev slots : Message → List Slot
slots none = []
slots (some (node k fs)) = slots_from 0 fs

abbrev nth : Fields → ℕ → Value
nth end i = invalid
nth (field n v fs) zero = v
nth (field n v fs) (suc i) = nth fs i

abbrev get : Message → Slot → Value
get none f = invalid
get (some (node k fs)) f = nth fs f.place

abbrev is_set : Message → Bool
is_set none = false
is_set (some n) = true

abbrev is_list : Value → Bool
is_list (list vs) = true
is_list _ = false

abbrev first_of : Values → Value
first_of nil = invalid
first_of (cons v vs) = v

abbrev scalar_kind : Value → FieldKind
scalar_kind (bool b) = bool_kind
scalar_kind (int i) = int64_kind
scalar_kind (uint n) = uint64_kind
scalar_kind (float x) = double_kind
scalar_kind (string s) = string_kind
scalar_kind (bytes s) = bytes_kind
scalar_kind (enum s) = enum_kind
scalar_kind (node_value n) = message_kind
scalar_kind nil_node = message_kind
scalar_kind _ = other_kind

abbrev kind_of : Value → FieldKind
kind_of (list vs) = scalar_kind (first_of vs)
kind_of v = scalar_kind v

abbrev symbol_of : Value → Option GoString
symbol_of (enum s) = some s
symbol_of _ = none

abbrev to_message : Value → Message
to_message (node_value n) = some n
to_message _ = none

abbrev to_values : Value → List Value
to_values (list vs) = to_list vs
to_values _ = []

abbrev kind_name : Message → GoString
kind_name none = []
kind_name (some (node k fs)) = k

abbrev depth : Message → ℕ
depth none = 1
depth (some n) = suc (size n)

size_node : (k : GoString) (fs : Fields) → size (node k fs) ≡ suc (size_fields fs)
unfolding size
size_node k fs = refl

size_value-le_nth : (fs : Fields) (i : ℕ) → size_value (nth fs i) ≤ size_fields fs
unfolding size
size_value-le_nth end i = omega arith
size_value-le_nth (field n v fs) zero = omega arith
size_value-le_nth (field n v fs) (suc i) = omega (arith, size_value-le_nth fs i)

depth-le : (v : Value) → depth (to_message v) ≤ suc (size_value v)
unfolding size
depth-le (node_value n) = omega arith
depth-le _ = omega arith

In-size : (v : Value) (vs : Values) → In v (to_list vs) → size_value v ≤ size_values vs
unfolding to_list size
In-size v nil m = elim m [ ]
In-size v (cons w vs) (here e) = rw e (omega arith)
In-size v (cons w vs) (there m) = omega (arith, In-size v vs m)

In-values : (v w : Value) → In w (to_values v) → size_value w ≤ size_value v
unfolding size
In-values (list vs) w at = In-size w vs at
In-values _ w at = elim at [ ]

pub sample-singular :
    (m : Message) (f : Slot) → is_set m ≡ true → depth (to_message (get m f)) < depth m
sample-singular none f h = absurd (cc)
sample-singular (some (node k fs)) f h =
    omega (arith, depth-le (nth fs f.place), size_value-le_nth fs f.place, size_node k fs)

pub sample-repeated :
    (m : Message) (f : Slot) (v : Value)
    → is_set m ≡ true
    → In v (to_values (get m f))
    → depth (to_message v) < depth m
sample-repeated none f v h at = absurd (cc)
sample-repeated (some (node k fs)) f v h at = omega (
  arith,
  depth-le v,
  In-values (nth fs f.place) v at,
  size_value-le_nth fs f.place,
  size_node k fs,
)

pub sample_depth_pos : (m : Message) → 0 < depth m
sample_depth_pos none = omega arith
sample_depth_pos (some n) = omega arith

abbrev pub no_oneof : Message → Option Slot
no_oneof m = none

pub sample-oneof :
    (m : Message) (f : Slot) → no_oneof m ≡ some f → depth (to_message (get m f)) < depth m
sample-oneof m f e = absurd (cc)

abbrev pub proto : Protobuf
proto = record {
  Message = Message;
  MessageDescriptor = Message;
  FieldDescriptor = Slot;
  Dynamic = Value;
  is_valid = is_set;
  descriptor = λ m. m;
  full_name = kind_name;
  name = kind_name;
  descriptor_fields = slots;
  has = λ m f. is_set m;
  get = get;
  which_oneof = no_oneof;
  field_name = λ f. f.name;
  is_list = λ f. is_list f.shape;
  field_kind = λ f. kind_of f.shape;
  enum_name = λ f n. symbol_of f.shape;
  to_bool = λ v. elim v [ bool b ↦ b | _ ↦ false ];
  to_int = λ v. elim v [ int i ↦ i | _ ↦ pos 0 ];
  to_uint = λ v. elim v [ uint n ↦ n | _ ↦ 0 ];
  to_float = λ v. elim v [ float x ↦ x | _ ↦ 0 ];
  to_string = λ v. elim v [ string s ↦ s | _ ↦ [] ];
  to_bytes = λ v. elim v [ bytes s ↦ s | _ ↦ [] ];
  to_enum = λ v. pos 0;
  to_message = to_message;
  to_list = to_values;
  depth = depth;
  depth_pos = sample_depth_pos;
  depth-oneof = sample-oneof;
  depth-singular = λ m f h k l. sample-singular m f h;
  depth-repeated = λ m f v h k l at. sample-repeated m f v h at;
}
