-- ===== src/Parser/Protobuf.antt =====
-- What internal/parser/pgquery.go uses of google.golang.org/protobuf/reflect/protoreflect and of
-- pg_query_go, which are not part of this repository: parameters, with the documented laws.
use postgres_sqlguard.Common.{ℕ, ◌<◌, ◌≡◌, Bool, true, false, List, Option, some, GoString, ℤ, In}

-- `protoreflect.Kind`; `other_kind` stands for values outside the enumeration.
pub data FieldKind : Type 0 where
  bool_kind : FieldKind
  int32_kind sint32_kind sfixed32_kind int64_kind sint64_kind sfixed64_kind : FieldKind
  uint32_kind fixed32_kind uint64_kind fixed64_kind : FieldKind
  float_kind double_kind string_kind bytes_kind enum_kind message_kind group_kind : FieldKind
  other_kind : FieldKind

-- The kinds whose values are messages.
abbrev pub is_message : FieldKind → Bool
is_message message_kind = true
is_message group_kind = true
is_message _ = false

-- Messages, descriptors and values by reflection. The messages of pg_query_go have no map fields. The accessors of a value are used only where
-- the descriptor's kind says that they apply.
pub record Protobuf : Type 1 where
  pub Message : Type 0
  pub MessageDescriptor : Type 0
  pub FieldDescriptor : Type 0
  pub Dynamic : Type 0
  pub is_valid : Message → Bool
  pub descriptor : Message → MessageDescriptor
  pub full_name : MessageDescriptor → GoString
  pub name : MessageDescriptor → GoString
  -- `Fields().Get(0)`, `Fields().Get(1)`, …
  pub descriptor_fields : MessageDescriptor → List FieldDescriptor
  pub has : Message → FieldDescriptor → Bool
  pub get : Message → FieldDescriptor → Dynamic
  -- `WhichOneof(Oneofs().Get(0))`
  pub which_oneof : Message → Option FieldDescriptor
  pub field_name : FieldDescriptor → GoString
  pub is_list : FieldDescriptor → Bool
  pub field_kind : FieldDescriptor → FieldKind
  -- `Enum().Values().ByNumber(n)` and its `Name()`
  pub enum_name : FieldDescriptor → ℤ → Option GoString
  pub to_bool : Dynamic → Bool
  pub to_int : Dynamic → ℤ
  pub to_uint : Dynamic → ℕ
  pub to_float : Dynamic → ℕ
  pub to_string : Dynamic → GoString
  pub to_bytes : Dynamic → List ℕ
  pub to_enum : Dynamic → ℤ
  pub to_message : Dynamic → Message
  pub to_list : Dynamic → List Dynamic
  -- A message is a finite tree: what a field holds lies less deep.
  pub depth : Message → ℕ
  pub depth_pos : (m : Message) → 0 < depth m
  pub depth-oneof :
      (m : Message) (f : FieldDescriptor)
      → which_oneof m ≡ some f
      → depth (to_message (get m f)) < depth m
  pub depth-singular :
      (m : Message) (f : FieldDescriptor)
      → has m f ≡ true
      → is_message (field_kind f) ≡ true
      → is_list f ≡ false
      → depth (to_message (get m f)) < depth m
  pub depth-repeated :
      (m : Message) (f : FieldDescriptor) (v : Dynamic)
      → has m f ≡ true
      → is_message (field_kind f) ≡ true
      → is_list f ≡ true
      → In v (to_list (get m f))
      → depth (to_message v) < depth m

-- What `parseBackend` returns: the `Stmt` of each raw statement (nil or a message), or an error
-- with a diagnostic.
pub data BackendOutcome (Message : Type 0) : Type 0 where
  tree : List (Option Message) → BackendOutcome Message
  refused : GoString → BackendOutcome Message

pub record Backend : Type 1 where
  pub proto : Protobuf
  pub parse_backend : GoString → BackendOutcome proto.Message
