-- ===== src/Parser/Convert/Fuel.antt =====
-- `convertMessage` of pgquery.go ends on every message, and satisfies its own equation.
use postgres_sqlguard.Common.{
  ℕ, zero, suc, ◌≤◌, ◌<◌, ◌≡◌, refl, sym, ◌∙◌, ap, true, false, List, [], ◌∷◌, map, Option, none,
  some, arith, In, here, there, Bool-cases, inl, inr,
}
use postgres_sqlguard.Parser.Node.{Node, end, field}
use postgres_sqlguard.Parser.Protobuf.{
  Protobuf, FieldKind, is_message, bool_kind, message_kind, group_kind,
}
use postgres_sqlguard.Parser.Convert.{
  convert_kind, convert_singular_value, convert_value, convert_fields, convert_oneof, convert_body,
  convert_message_from, convert_message, pointer_value,
}

module _ (P : Protobuf) where
  open P use {Message, FieldDescriptor, Dynamic}

  fields-none : (c : Message → Option Node) (m : Message) → convert_fields P c m [] ≡ end
  unfolding convert_fields
  fields-none c m = refl

  module _ (c : Message → Option Node) (m : Message) (f : FieldDescriptor)
      (fs : List FieldDescriptor) where
    pub fields-some :
        P.has m f ≡ true
        → convert_fields P c m (f ∷ fs)
          ≡ field (P.field_name f) (convert_value P c f (P.get m f)) (convert_fields P c m fs)
    unfolding convert_fields
    fields-some present = rw present

    pub fields-skip : P.has m f ≡ false → convert_fields P c m (f ∷ fs) ≡ convert_fields P c m fs
    unfolding convert_fields
    fields-skip absent = rw absent

  -- Two conversions agree below a depth.
  abbrev Agree : ℕ → (Message → Option Node) → (Message → Option Node) → Type 0
  Agree bound c d = (m : Message) → P.depth m < bound → c m ≡ d m

  module _ (c d : Message → Option Node) where
    convert_kind-congruence :
        (f : FieldDescriptor) (v : Dynamic) (k : FieldKind)
        → (is_message k ≡ true → c (P.to_message v) ≡ d (P.to_message v))
        → convert_kind P c f v k ≡ convert_kind P d f v k
    unfolding convert_kind
    convert_kind-congruence f v bool_kind e = refl
    convert_kind-congruence f v message_kind e = ap pointer_value (e refl)
    convert_kind-congruence f v group_kind e = ap pointer_value (e refl)
    convert_kind-congruence f v _ e = refl

    map-congruence :
        (f : FieldDescriptor) (vs : List Dynamic)
        → (is_message (P.field_kind f) ≡ true
            → (v : Dynamic) → In v vs
            → c (P.to_message v) ≡ d (P.to_message v))
        → map (convert_singular_value P c f) vs ≡ map (convert_singular_value P d f) vs
    map-congruence f [] h = refl
    map-congruence f (v ∷ vs) h = rw (
      convert_kind-congruence f v (P.field_kind f) (λ msg. h msg v (here refl)),
      map-congruence f vs (λ msg w at. h msg w (there at)),
    )

    convert_value-congruence :
        (m : Message) (f : FieldDescriptor)
        → P.has m f ≡ true
        → Agree (P.depth m) c d
        → convert_value P c f (P.get m f) ≡ convert_value P d f (P.get m f)
    unfolding convert_value
    convert_value-congruence m f present h = elim (Bool-cases (P.is_list f)) [
      | inl many ↦ rw (
        many,
        map-congruence f (P.to_list (P.get m f))
            (λ msg v at. h _ (P.depth-repeated m f v present msg many at)),
      )
      | inr one ↦ rw one (
          convert_kind-congruence f (P.get m f) (P.field_kind f)
            (λ msg. h _ (P.depth-singular m f present msg one)))
    ]

    convert_fields-congruence :
        (m : Message) (fs : List FieldDescriptor)
        → Agree (P.depth m) c d
        → convert_fields P c m fs ≡ convert_fields P d m fs
    convert_fields-congruence m [] h = fields-none c m ∙ sym (fields-none d m)
    convert_fields-congruence m (f ∷ fs) h = elim (Bool-cases (P.has m f)) [
      | inl present ↦ rw (
        fields-some c m f fs present,
        fields-some d m f fs present,
        convert_value-congruence m f present h,
        convert_fields-congruence m fs h,
      )
      | inr absent ↦
          rw (fields-skip c m f fs absent, fields-skip d m f fs absent)
            (convert_fields-congruence m fs h)
    ]

    convert_oneof-congruence :
        (m : Message) (o : Option FieldDescriptor)
        → P.which_oneof m ≡ o
        → Agree (P.depth m) c d
        → convert_oneof P c m o ≡ convert_oneof P d m o
    unfolding convert_oneof
    convert_oneof-congruence m none e h = refl
    convert_oneof-congruence m (some f) e h = h _ (P.depth-oneof m f e)

    convert_body-congruence :
        (m : Message) → Agree (P.depth m) c d → convert_body P c m ≡ convert_body P d m
    unfolding convert_body
    convert_body-congruence m h = ground (
      arith,
      convert_fields-congruence m (P.descriptor_fields (P.descriptor m)) h,
      convert_oneof-congruence m (P.which_oneof m) refl h,
    )

  -- Once the fuel covers the message, more of it changes nothing.
  convert_message_from-enough :
      (f g : ℕ) (m : Message)
      → P.depth m ≤ f
      → P.depth m ≤ g
      → convert_message_from P f m ≡ convert_message_from P g m
  unfolding convert_message_from
  convert_message_from-enough zero g m p q = absurd (omega (arith, P.depth_pos m))
  convert_message_from-enough (suc f) zero m p q = absurd (omega (arith, P.depth_pos m))
  convert_message_from-enough (suc f) (suc g) m p q =
      convert_body-congruence (convert_message_from P f) (convert_message_from P g) m
        (λ k lt. convert_message_from-enough f g k (omega arith) (omega arith))

  -- The fuel is enough for every message.
  pub convert_message-body :
      (m : Message) → convert_message P m ≡ convert_body P (convert_message P) m
  unfolding convert_message convert_message_from
  convert_message-body m =
      convert_message_from-enough (P.depth m) (suc (P.depth m)) m (omega arith) (omega arith)
      ∙ convert_body-congruence (convert_message_from P (P.depth m)) (convert_message P) m (λ k lt.
        convert_message_from-enough (P.depth m) (P.depth k) k (omega arith) (omega arith))
