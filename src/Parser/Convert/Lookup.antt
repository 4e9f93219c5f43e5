-- ===== src/Parser/Convert/Lookup.antt =====
-- The fields of a converted message, in pgquery.go.
use postgres_sqlguard.Common.{◌≡◌, ◌≢◌, List, [], ◌∷◌, Option, none, some, In, if◌then◌else◌}
use postgres_sqlguard.Parser.Node.{Node, find_field}
use postgres_sqlguard.Parser.Protobuf.{Protobuf}
use postgres_sqlguard.Parser.Convert.{convert_value, convert_fields}

module _ (P : Protobuf) where
  open P use {Message, FieldDescriptor}

  -- No two fields of a descriptor share a name.
  abbrev pub DistinctNames : List FieldDescriptor → Type 0
  DistinctNames [] = Unit
  DistinctNames (f ∷ fs) =
      ((g : FieldDescriptor) → In g fs → P.field_name g ≢ P.field_name f) × DistinctNames fs

  module _ (convert : Message → Option Node) (m : Message) where
    -- What the converted fields say of a descriptor's field.
    abbrev Looks : List FieldDescriptor → FieldDescriptor → Type 0
    Looks fs f =
        find_field (P.field_name f) (convert_fields P convert m fs)
        ≡ (if P.has m f then some (convert_value P convert f (P.get m f)) else none)
