-- ===== src/Parser/Convert.antt =====
-- internal/parser/pgquery.go: from the backend's messages to the parser-neutral tree.
pub mod Fuel
pub mod Outcomes
pub mod Lookup
use postgres_sqlguard.Common.{
  ℕ, zero, suc, ◌≡◌, Bool, true, false, not, ◌||◌, List, [], ◌∷◌, map, Option, none, some, GoString,
  ascii, str_eq, if◌then◌else◌, ◌==◌,
}
use postgres_sqlguard.Parser.Node.{
  Node, node, Fields, end, field, Value, invalid, bool, int, uint, float, string, bytes, enum,
  node_value, nil_node, list, from_list,
}
use postgres_sqlguard.Parser.Result.{Result, ParserError, failure_syntax}
use postgres_sqlguard.Parser.Protobuf.{
  FieldKind, Protobuf, Backend, BackendOutcome, tree, refused, bool_kind, int32_kind, sint32_kind,
  sfixed32_kind, int64_kind, sint64_kind, sfixed64_kind, uint32_kind, fixed32_kind, uint64_kind,
  fixed64_kind, float_kind, double_kind, string_kind, bytes_kind, enum_kind, message_kind,
  group_kind, other_kind,
}

-- `pgQueryNodeName`
abbrev pub pg_query_node_name : GoString
pg_query_node_name = ascii "pg_query.Node"

-- `Value{kind: ValueNode, nodeValue: n}`
unfoldable pub pointer_value : Option Node → Value
pointer_value none = nil_node
pointer_value (some n) = node_value n

unfoldable pub enum_value : Option GoString → Value
enum_value none = enum []
enum_value (some n) = enum n

module _ (P : Protobuf) where
  open P use {Message, FieldDescriptor, Dynamic}

  -- `convertSingularValue`, over the conversion of messages, by the descriptor's kind.
  unfoldable pub convert_kind :
      (Message → Option Node) → FieldDescriptor → Dynamic → FieldKind → Value
  unfolding pointer_value enum_value
  convert_kind convert f source bool_kind = bool (P.to_bool source)
  convert_kind convert f source int32_kind = int (P.to_int source)
  convert_kind convert f source sint32_kind = int (P.to_int source)
  convert_kind convert f source sfixed32_kind = int (P.to_int source)
  convert_kind convert f source int64_kind = int (P.to_int source)
  convert_kind convert f source sint64_kind = int (P.to_int source)
  convert_kind convert f source sfixed64_kind = int (P.to_int source)
  convert_kind convert f source uint32_kind = uint (P.to_uint source)
  convert_kind convert f source fixed32_kind = uint (P.to_uint source)
  convert_kind convert f source uint64_kind = uint (P.to_uint source)
  convert_kind convert f source fixed64_kind = uint (P.to_uint source)
  convert_kind convert f source float_kind = float (P.to_float source)
  convert_kind convert f source double_kind = float (P.to_float source)
  convert_kind convert f source string_kind = string (P.to_string source)
  convert_kind convert f source bytes_kind = bytes (P.to_bytes source)
  convert_kind convert f source enum_kind = enum_value (P.enum_name f (P.to_enum source))
  convert_kind convert f source message_kind = pointer_value (convert (P.to_message source))
  convert_kind convert f source group_kind = pointer_value (convert (P.to_message source))
  convert_kind convert f source other_kind = invalid

  abbrev pub convert_singular_value : (Message → Option Node) → FieldDescriptor → Dynamic → Value
  convert_singular_value convert f source = convert_kind convert f source (P.field_kind f)

  -- `convertValue`
  unfoldable pub convert_value : (Message → Option Node) → FieldDescriptor → Dynamic → Value
  unfolding convert_kind
  convert_value convert f source =
      if P.is_list f
      then list (from_list (map (convert_singular_value convert f) (P.to_list source)))
      else convert_singular_value convert f source

  -- The loop of `convertMessage` over the descriptor's fields.
  unfoldable pub convert_fields : (Message → Option Node) → Message → List FieldDescriptor → Fields
  unfolding convert_value
  convert_fields convert source [] = end
  convert_fields convert source (f ∷ fs) =
      let rest = convert_fields convert source fs in
      if P.has source f
      then field (P.field_name f) (convert_value convert f (P.get source f)) rest
      else rest

  -- `convertMessage` on a `pg_query.Node`: the member of the oneof that is set, if any.
  unfoldable pub convert_oneof :
      (Message → Option Node) → Message → Option FieldDescriptor → Option Node
  convert_oneof convert source none = none
  convert_oneof convert source (some f) = convert (P.to_message (P.get source f))

  -- The body of `convertMessage`, over the recursive call.
  unfoldable pub convert_body : (Message → Option Node) → Message → Option Node
  convert_body convert source = elim (P.is_valid source) [
    | false ↦ none
    | true ↦ elim (str_eq (P.full_name (P.descriptor source)) pg_query_node_name) [
      | true ↦ convert_oneof convert source (P.which_oneof source)
      | false ↦
          let descriptor = P.descriptor source in
          some (
            node (P.name descriptor)
              (convert_fields convert source (P.descriptor_fields descriptor)))
    ]
  ]

  -- `convertMessage` with fuel for the depth of the nesting.
  unfoldable pub convert_message_from : ℕ → Message → Option Node
  convert_message_from zero source = none
  convert_message_from (suc fuel) source = convert_body (convert_message_from fuel) source

  -- `convertMessage`
  unfoldable pub convert_message : Message → Option Node
  unfolding convert_message_from convert_body convert_oneof convert_fields
  convert_message source = convert_message_from (P.depth source) source

  -- `convertPGNode`
  unfoldable pub convert_pg_node : Option Message → Option Node
  unfolding convert_message
  convert_pg_node none = none
  convert_pg_node (some source) = convert_message source

  -- The loop of `Parse` over the raw statements.
  unfoldable pub convert_statements : List (Option Message) → List (Option Node)
  convert_statements [] = []
  convert_statements (raw ∷ raws) =
      let rest = convert_statements raws in
      elim (convert_pg_node raw) [ none ↦ rest | some statement ↦ some statement ∷ rest ]

-- `strings.IndexByte(sql, 0) >= 0`
unfoldable pub has_nul : GoString → Bool
has_nul [] = false
has_nul (c ∷ s) = c == 0 || has_nul s

-- The results of `Parse`: `(result, nil)` or `(nil, err)`.
pub data ParseOutcome : Type 0 where
  parsed : Result → ParseOutcome
  failed : ParserError → ParseOutcome

abbrev pub syntax_failure : ParseOutcome
syntax_failure = failed (record { category = failure_syntax })

-- `Parse`
unfoldable pub parse : Backend → GoString → ParseOutcome
parse backend sql = if has_nul sql then syntax_failure else elim (backend.parse_backend sql) [
  | refused diagnostic ↦ syntax_failure
  | tree raws ↦ parsed (record { statements = convert_statements backend.proto raws })
]
