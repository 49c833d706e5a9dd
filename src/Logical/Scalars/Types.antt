-- ===== src/Logical/Scalars/Types.antt =====
-- The conversions between a data type and the type of a scalar, in to_proto.rs and from_proto.rs
-- of rust/core/src/serde/logical_plan. A list type is written as the names of its nested fields,
-- from the outermost on, and the type at the bottom.
pub mod RoundTrip
use mathlib.Core.List.{reverse}
use ballista.Prelude.{
  ℤ, Bool, true, false, not, List, [], ◌∷◌, ◌++◌, Option, none, some, ◌==◌, if◌then◌else◌, length,
}
use ballista.Text.{Text, codes}
use ballista.Text.Decimal.{signed_decimal}
use ballista.Error.{general, Result, ok, err, panicked, required, ◌>>=◌}
use ballista.Logical.Arrow.{DataType, Field, TimeUnit, field, new_field, name, data_type}
use ballista.Logical.Messages.{from_i32}
use ballista.Logical.Scalars.{
  Debug, PrimitiveScalarType, primitive_scalar_types, primitive_number, ScalarListType, Datatype,
  ScalarType,
}

unfoldable pub is_valid_scalar_type_no_list_check : DataType → Bool
is_valid_scalar_type_no_list_check DataType.boolean = true
is_valid_scalar_type_no_list_check DataType.int8 = true
is_valid_scalar_type_no_list_check DataType.int16 = true
is_valid_scalar_type_no_list_check DataType.int32 = true
is_valid_scalar_type_no_list_check DataType.int64 = true
is_valid_scalar_type_no_list_check DataType.uint8 = true
is_valid_scalar_type_no_list_check DataType.uint16 = true
is_valid_scalar_type_no_list_check DataType.uint32 = true
is_valid_scalar_type_no_list_check DataType.uint64 = true
is_valid_scalar_type_no_list_check DataType.float32 = true
is_valid_scalar_type_no_list_check DataType.float64 = true
is_valid_scalar_type_no_list_check DataType.large_utf8 = true
is_valid_scalar_type_no_list_check DataType.utf8 = true
is_valid_scalar_type_no_list_check DataType.date32 = true
is_valid_scalar_type_no_list_check (DataType.time64 TimeUnit.microsecond) = true
is_valid_scalar_type_no_list_check (DataType.time64 TimeUnit.nanosecond) = true
is_valid_scalar_type_no_list_check (DataType.list f) = true
is_valid_scalar_type_no_list_check _ = false

abbrev pub refuse_unless : Bool → Text → Result {0} Unit
refuse_unless true message = ok tt
refuse_unless false message = err (general message)

module _ (debug : Debug) where
  -- The match on a leaf type, which stands twice in the code; `val` is the type that an error names.
  unfoldable pub leaf_scalar_type : DataType → DataType → Result PrimitiveScalarType
  leaf_scalar_type val DataType.boolean = ok PrimitiveScalarType.bool
  leaf_scalar_type val DataType.int8 = ok PrimitiveScalarType.int8
  leaf_scalar_type val DataType.int16 = ok PrimitiveScalarType.int16
  leaf_scalar_type val DataType.int32 = ok PrimitiveScalarType.int32
  leaf_scalar_type val DataType.int64 = ok PrimitiveScalarType.int64
  leaf_scalar_type val DataType.uint8 = ok PrimitiveScalarType.uint8
  leaf_scalar_type val DataType.uint16 = ok PrimitiveScalarType.uint16
  leaf_scalar_type val DataType.uint32 = ok PrimitiveScalarType.uint32
  leaf_scalar_type val DataType.uint64 = ok PrimitiveScalarType.uint64
  leaf_scalar_type val DataType.float32 = ok PrimitiveScalarType.float32
  leaf_scalar_type val DataType.float64 = ok PrimitiveScalarType.float64
  leaf_scalar_type val DataType.date32 = ok PrimitiveScalarType.date32
  leaf_scalar_type val (DataType.time64 TimeUnit.microsecond) =
      ok PrimitiveScalarType.time_microsecond
  leaf_scalar_type val (DataType.time64 TimeUnit.nanosecond) =
      ok PrimitiveScalarType.time_nanosecond
  leaf_scalar_type val (DataType.time64 unit) = err (
      general (
        codes
          "Found invalid time unit for scalar value, only TimeUnit::Microsecond and TimeUnit::Nanosecond are valid time units: "
        ++ debug.time_unit unit))
  leaf_scalar_type val DataType.utf8 = ok PrimitiveScalarType.utf8
  leaf_scalar_type val DataType.large_utf8 = ok PrimitiveScalarType.large_utf8
  leaf_scalar_type val _ = err (
      general (
        codes "Error converting to Datatype to scalar type, "
        ++ debug.data_type val
        ++ codes " is invalid as a datafusion scalar."))

  -- The loop over nested lists: the innermost field, and the names that were pushed.
  unfoldable pub nested_field : Field → List Text → Result (Field × List Text)
  unfolding is_valid_scalar_type_no_list_check
  nested_field (field n (DataType.list f) nullable id ordered) names = do
    checked ←
        refuse_unless (is_valid_scalar_type_no_list_check (data_type f))
          (debug.field f ++ codes " is an invalid scalar type")
    nested_field f (names ++ name f ∷ [])
  nested_field f names = ok (f, names)

  unfoldable pub Datatype_try_from : DataType → Result Datatype
  unfolding leaf_scalar_type nested_field is_valid_scalar_type_no_list_check
  Datatype_try_from (DataType.list f) = do
    (deepest, field_names) ← nested_field f (name f ∷ [])
    checked ←
        refuse_unless (is_valid_scalar_type_no_list_check (data_type deepest)) (
          codes "The list nested type "
          ++ debug.field deepest
          ++ codes " is an invalid scalar type")
    leaf ← leaf_scalar_type (DataType.list f) (data_type deepest)
    ok (Datatype.list (record { field_names = field_names; deepest_type = primitive_number leaf }))
  Datatype_try_from t = do leaf ← leaf_scalar_type t t; ok (Datatype.scalar (primitive_number leaf))

  unfoldable pub ScalarType_try_from : DataType → Result ScalarType
  unfolding Datatype_try_from
  ScalarType_try_from t = do
    datatype ← Datatype_try_from t
    ok (record { datatype = some datatype })

unfoldable pub PrimitiveScalarType_into : PrimitiveScalarType → DataType
PrimitiveScalarType_into PrimitiveScalarType.bool = DataType.boolean
PrimitiveScalarType_into PrimitiveScalarType.uint8 = DataType.uint8
PrimitiveScalarType_into PrimitiveScalarType.int8 = DataType.int8
PrimitiveScalarType_into PrimitiveScalarType.uint16 = DataType.uint16
PrimitiveScalarType_into PrimitiveScalarType.int16 = DataType.int16
PrimitiveScalarType_into PrimitiveScalarType.uint32 = DataType.uint32
PrimitiveScalarType_into PrimitiveScalarType.int32 = DataType.int32
PrimitiveScalarType_into PrimitiveScalarType.uint64 = DataType.uint64
PrimitiveScalarType_into PrimitiveScalarType.int64 = DataType.int64
PrimitiveScalarType_into PrimitiveScalarType.float32 = DataType.float32
PrimitiveScalarType_into PrimitiveScalarType.float64 = DataType.float64
PrimitiveScalarType_into PrimitiveScalarType.utf8 = DataType.utf8
PrimitiveScalarType_into PrimitiveScalarType.large_utf8 = DataType.large_utf8
PrimitiveScalarType_into PrimitiveScalarType.date32 = DataType.date32
PrimitiveScalarType_into PrimitiveScalarType.time_microsecond = DataType.time64 TimeUnit.microsecond
PrimitiveScalarType_into PrimitiveScalarType.time_nanosecond = DataType.time64 TimeUnit.nanosecond
PrimitiveScalarType_into PrimitiveScalarType.null = DataType.null

abbrev pub is_empty {ℓ} : {A : Type ℓ} → List A → Bool
is_empty [] = true
is_empty (x ∷ xs) = false

-- The loop of the readers over the names, in reverse order.
abbrev pub wrap_lists : List Text → DataType → DataType
wrap_lists [] t = t
wrap_lists (n ∷ names) t = wrap_lists names (DataType.list (new_field n t true))

-- `last().unwrap()` and the loop over the other names.
abbrev pub nested_type : List Text → DataType → Result DataType
nested_type [] t = panicked
nested_type (last ∷ others) t = ok (wrap_lists others (DataType.list (new_field last t true)))

unfoldable pub Datatype_try_into : Datatype → Result DataType
unfolding PrimitiveScalarType_into
Datatype_try_into (Datatype.scalar n) = do
  primitive ← required (from_i32 primitive_scalar_types n) (
      codes
        "Protobuf deserialization error, scalar_type::Datatype missing was provided invalid enum variant: "
      ++ signed_decimal n)
  ok (PrimitiveScalarType_into primitive)
Datatype_try_into (Datatype.list l) = do
  checked ← refuse_unless (not (is_empty l.field_names)) (
      codes
        "Protobuf deserialization error: found no field names in ScalarListType message which requires at least one")
  primitive ← required (from_i32 primitive_scalar_types l.deepest_type) (
      codes "Protobuf deserialization error: invalid i32 for scalar enum: "
      ++ signed_decimal l.deepest_type)
  nested_type (reverse l.field_names) (PrimitiveScalarType_into primitive)

unfoldable pub ScalarType_try_into : ScalarType → Result DataType
unfolding Datatype_try_into
ScalarType_try_into t = do
  datatype ← required t.datatype (codes "ScalarType message missing required field 'datatype'")
  Datatype_try_into datatype

unfoldable pub ScalarListType_try_into : ScalarListType → Result DataType
unfolding PrimitiveScalarType_into
ScalarListType_try_into l = do
  checked ← refuse_unless (not (length l.field_names == 0)) (
      codes
        "Protobuf deserialization error: Found a ScalarListType message with no field names, at least one is required")
  primitive ←
      required (from_i32 primitive_scalar_types l.deepest_type)
        (codes "Could not convert to datafusion scalar type")
  nested_type (reverse l.field_names) (PrimitiveScalarType_into primitive)
