-- ===== src/Interface.antt =====
-- Interface values, and the nil tests by reflection of engine.go.
use postgres_sqlguard.Common.{Bool, true, false}
use postgres_sqlguard.Runtime.{Action, panicked}

-- `reflect.Kind`
pub data ReflectKind : Type 0 where
  bool_kind int_kind int8_kind int16_kind int32_kind int64_kind : ReflectKind
  uint_kind uint8_kind uint16_kind uint32_kind uint64_kind uintptr_kind : ReflectKind
  float32_kind float64_kind complex64_kind complex128_kind : ReflectKind
  array_kind chan_kind func_kind interface_kind map_kind pointer_kind slice_kind : ReflectKind
  string_kind struct_kind unsafe_pointer_kind : ReflectKind

-- A nil interface, or a dynamic value: its kind, whether it is nil, and its methods.
pub data Interface (A : Type 0) : Type 0 where
  nil_interface : Interface A
  holds : ReflectKind → Bool → A → Interface A

-- The kinds for which the code asks `IsNil`.
unfoldable pub nilable : ReflectKind → Bool
nilable chan_kind = true
nilable func_kind = true
nilable interface_kind = true
nilable map_kind = true
nilable pointer_kind = true
nilable slice_kind = true
nilable _ = false

-- `isTypedNil`
unfoldable pub is_typed_nil : {A : Type 0} → Interface A → Bool
unfolding nilable
is_typed_nil nil_interface = false
is_typed_nil (holds kind is_nil value) = elim (nilable kind) [ true ↦ is_nil | false ↦ false ]

-- `isNilRule`: a nil interface or a typed nil.
unfoldable pub is_nil_interface : {A : Type 0} → Interface A → Bool
unfolding is_typed_nil
is_nil_interface nil_interface = true
is_nil_interface (holds kind is_nil value) = is_typed_nil (holds kind is_nil value)

-- A method call. On a nil interface it panics; on a typed nil the method runs.
unfoldable pub invoke : {W I A : Type 0} → Interface I → (I → Action W A) → Action W A
invoke nil_interface method world = (panicked, world)
invoke (holds kind is_nil value) method world = method value world
