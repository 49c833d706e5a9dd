-- ===== src/Logical/Scalars/Checked.antt =====
-- The second reading of scalar values, in from_proto.rs of rust/core/src/serde/logical_plan:
-- `TryInto<ScalarValue>` for `scalar_value::Value` and for `ScalarListValue`, which checks the
-- values of a list against the list's type.
use ballista.Prelude.{
  ℕ, zero, suc, ℤ, pos, negsuc, Bool, false, ◌++◌, Option, some, i8, i16, ◌==◌, length,
}
use ballista.Text.{Text, codes}
use ballista.Text.Decimal.{signed_decimal}
use ballista.Error.{general, Result, ok, err, panicked, required, ◌>>=◌}
use ballista.Serde.{u16}
use ballista.Logical.Messages.{from_i32}
use ballista.Logical.Scalars.{
  ScalarValue, ScalarValues, OptionalScalarValues, PrimitiveScalarType, primitive_scalar_types,
  primitive_number, ScalarType, Datatype, Value, Values, boolean, float32, float64, int8, int16,
  int32, int64, uint8, uint16, uint32, uint64, utf8, large_utf8, list, date32, time_microsecond,
  time_nanosecond, some_values, null_values, bool_value, utf8_value, large_utf8_value, int8_value,
  int16_value, int32_value, int64_value, uint8_value, uint16_value, uint32_value, uint64_value,
  float32_value, float64_value, date32_value, time_microsecond_value, time_nanosecond_value,
  list_value, null_list_value, null_value, some_value, no_value,
}
use ballista.Logical.Scalars.Types.{
  ScalarType_try_into, ScalarListType_try_into, PrimitiveScalarType_into, refuse_unless,
}
use ballista.Logical.Scalars.Reading.{u8, null_scalar}

abbrev pub same_number : ℤ → ℤ → Bool
same_number (pos m) (pos n) = m == n
same_number (negsuc m) (negsuc n) = m == n
same_number _ _ = false

abbrev pub null_or_error : Result ScalarValue → Result ScalarValue
null_or_error (ok v) = ok v
null_or_error (err e) = err (general (codes "Untyped scalar null is not a valid scalar value"))
null_or_error panicked = panicked

unfoldable pub typechecked_scalar_value_conversion :
    Value → PrimitiveScalarType → Result ScalarValue
unfolding null_scalar
typechecked_scalar_value_conversion (bool_value v) PrimitiveScalarType.bool = ok (boolean (some v))
typechecked_scalar_value_conversion (int8_value v) PrimitiveScalarType.int8 =
    ok (int8 (some (i8 v)))
typechecked_scalar_value_conversion (int16_value v) PrimitiveScalarType.int16 =
    ok (int16 (some (i16 v)))
typechecked_scalar_value_conversion (int32_value v) PrimitiveScalarType.int32 = ok (int32 (some v))
typechecked_scalar_value_conversion (int64_value v) PrimitiveScalarType.int64 = ok (int64 (some v))
typechecked_scalar_value_conversion (uint8_value v) PrimitiveScalarType.uint8 =
    ok (uint8 (some (u8 v)))
typechecked_scalar_value_conversion (uint16_value v) PrimitiveScalarType.uint16 =
    ok (uint16 (some (u16 v)))
typechecked_scalar_value_conversion (uint32_value v) PrimitiveScalarType.uint32 =
    ok (uint32 (some v))
typechecked_scalar_value_conversion (uint64_value v) PrimitiveScalarType.uint64 =
    ok (uint64 (some v))
typechecked_scalar_value_conversion (float32_value v) PrimitiveScalarType.float32 =
    ok (float32 (some v))
typechecked_scalar_value_conversion (float64_value v) PrimitiveScalarType.float64 =
    ok (float64 (some v))
typechecked_scalar_value_conversion (date32_value v) PrimitiveScalarType.date32 =
    ok (date32 (some v))
typechecked_scalar_value_conversion (time_microsecond_value v)
      PrimitiveScalarType.time_microsecond =
    ok (time_microsecond (some v))
typechecked_scalar_value_conversion (time_nanosecond_value v) PrimitiveScalarType.time_microsecond =
    ok (time_nanosecond (some v))
typechecked_scalar_value_conversion (utf8_value v) PrimitiveScalarType.utf8 = ok (utf8 (some v))
typechecked_scalar_value_conversion (large_utf8_value v) PrimitiveScalarType.large_utf8 =
    ok (large_utf8 (some v))
typechecked_scalar_value_conversion (null_value n) required_type = do
  checked ←
      refuse_unless (same_number n (primitive_number required_type))
        (codes "Could not convert to the proper type")
  null_type ← required (from_i32 primitive_scalar_types n) (
      codes "Invalid i32_enum="
      ++ signed_decimal n
      ++ codes " when converting with PrimitiveScalarType::from_i32()")
  null_or_error (null_scalar null_type)
typechecked_scalar_value_conversion v required_type =
    err (general (codes "Could not convert to the proper type"))

abbrev missing_value : Text
missing_value = codes "Protobuf deserialization error: missing required field 'value'"

unfoldable pub leaf_values : PrimitiveScalarType → Values → Result ScalarValues
unfolding typechecked_scalar_value_conversion
leaf_values leaf_type Values.no_values = ok ScalarValues.no_values
leaf_values leaf_type (Values.values no_value vs) = err (general missing_value)
leaf_values leaf_type (Values.values (some_value v) vs) = do
  first ← typechecked_scalar_value_conversion v leaf_type
  rest ← leaf_values leaf_type vs
  ok (ScalarValues.values first rest)

-- `match typechecked_values.len()`
abbrev pub none_if_empty : ScalarValues → OptionalScalarValues
none_if_empty ScalarValues.no_values = null_values
none_if_empty (ScalarValues.values v vs) = some_values (ScalarValues.values v vs)

-- The values below a list of lists are `nested`, the ones below a list of leaves are checked.
abbrev pub values_at : ℕ → PrimitiveScalarType → Values → Result ScalarValues → Result ScalarValues
values_at zero leaf_type vs nested = err (
    general (
      codes
        "Protobuf deserialization error, ScalarListType had no field names, requires at least one"))
values_at (suc zero) leaf_type vs nested = leaf_values leaf_type vs
values_at (suc (suc depth)) leaf_type vs nested = nested

-- `TryInto<ScalarValue>` for `ScalarListValue`; `nested` is what reading its values gives when they
-- are read with no type.
unfoldable pub list_of : Option ScalarType → Values → Result ScalarValues → Result ScalarValue
unfolding leaf_values ScalarListType_try_into PrimitiveScalarType_into
list_of datatype vs nested = do
  pb_scalar_type ← required datatype (
      codes
        "Protobuf deserialization error: ScalarListValue messsage missing required field 'datatype'")
  scalar_type ← required pb_scalar_type.datatype (
      codes
        "Protobuf deserialization error: ScalarListValue.Datatype messsage missing required field 'datatype'")
  of_type scalar_type
  where
    of_type : Datatype → Result ScalarValue
    of_type (Datatype.scalar n) = do
      leaf_type ←
          required (from_i32 primitive_scalar_types n)
            (codes "Error converting i32 to basic scalar type")
      typechecked_values ← leaf_values leaf_type vs
      ok (list (some_values typechecked_values) (PrimitiveScalarType_into leaf_type))
    of_type (Datatype.list l) = do
      leaf_type ←
          required (from_i32 primitive_scalar_types l.deepest_type)
            (codes "Error converting i32 to basic scalar type")
      typechecked_values ← values_at (length l.field_names) leaf_type vs nested
      datatype ← ScalarListType_try_into l
      ok (list (none_if_empty typechecked_values) datatype)

unfoldable mutual
  unfolding list_of null_scalar typechecked_scalar_value_conversion ScalarType_try_into

  pub Value_try_into : Value → Result ScalarValue
  Value_try_into (bool_value v) = ok (boolean (some v))
  Value_try_into (int8_value v) = ok (int8 (some (i8 v)))
  Value_try_into (int16_value v) = ok (int16 (some (i16 v)))
  Value_try_into (int32_value v) = ok (int32 (some v))
  Value_try_into (int64_value v) = ok (int64 (some v))
  Value_try_into (uint8_value v) = ok (uint8 (some (u8 v)))
  Value_try_into (uint16_value v) = ok (uint16 (some (u16 v)))
  Value_try_into (uint32_value v) = ok (uint32 (some v))
  Value_try_into (uint64_value v) = ok (uint64 (some v))
  Value_try_into (float32_value v) = ok (float32 (some v))
  Value_try_into (float64_value v) = ok (float64 (some v))
  Value_try_into (date32_value v) = ok (date32 (some v))
  Value_try_into (time_microsecond_value v) = ok (time_microsecond (some v))
  Value_try_into (time_nanosecond_value v) = ok (time_nanosecond (some v))
  Value_try_into (utf8_value v) = ok (utf8 (some v))
  Value_try_into (large_utf8_value v) = ok (large_utf8 (some v))
  Value_try_into (list_value datatype vs) = list_of datatype vs (nested_values vs)
  Value_try_into (null_list_value t) = do
    datatype ← ScalarType_try_into t
    ok (list null_values datatype)
  Value_try_into (null_value n) = do
    null_type ← required (from_i32 primitive_scalar_types n) (codes "Invalid scalar type")
    null_scalar null_type

  pub nested_values : Values → Result ScalarValues
  nested_values Values.no_values = ok ScalarValues.no_values
  nested_values (Values.values no_value vs) = err (general missing_value)
  nested_values (Values.values (some_value v) vs) = do
    first ← Value_try_into v
    rest ← nested_values vs
    ok (ScalarValues.values first rest)
