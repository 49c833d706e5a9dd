-- ===== src/Logical/Scalars/Reading.antt =====
-- The reading of scalar values from their messages, in from_proto.rs of
-- rust/core/src/serde/logical_plan: `TryInto<ScalarValue>` for `protobuf::ScalarValue`.
use ballista.Prelude.{ℕ, ◌%◌, ◌^◌, none, some, i8, i16}
use ballista.Text.{codes}
use ballista.Error.{general, Result, ok, err, required, ◌>>=◌}
use ballista.Serde.{u16}
use ballista.Logical.Messages.{from_i32}
use ballista.Logical.Scalars.{
  ScalarValue, ScalarValues, PrimitiveScalarType, primitive_scalar_types, Value, Values,
  OptionalValue, boolean, float32, float64, int8, int16, int32, int64, uint8, uint16, uint32,
  uint64, utf8, large_utf8, list, date32, time_microsecond, time_nanosecond, some_values,
  null_values, bool_value, utf8_value, large_utf8_value, int8_value, int16_value, int32_value,
  int64_value, uint8_value, uint16_value, uint32_value, uint64_value, float32_value, float64_value,
  date32_value, time_microsecond_value, time_nanosecond_value, list_value, null_list_value,
  null_value, some_value, no_value,
}
use ballista.Logical.Scalars.Types.{ScalarType_try_into, Datatype_try_into}

-- `as u8`
abbrev pub u8 : ℕ → ℕ
u8 n = n % 2 ^ 8

-- The null value of each type.
unfoldable pub null_scalar : PrimitiveScalarType → Result ScalarValue
null_scalar PrimitiveScalarType.null =
    err (general (codes "Untyped null is an invalid scalar value"))
null_scalar PrimitiveScalarType.bool = ok (boolean none)
null_scalar PrimitiveScalarType.uint8 = ok (uint8 none)
null_scalar PrimitiveScalarType.int8 = ok (int8 none)
null_scalar PrimitiveScalarType.uint16 = ok (uint16 none)
null_scalar PrimitiveScalarType.int16 = ok (int16 none)
null_scalar PrimitiveScalarType.uint32 = ok (uint32 none)
null_scalar PrimitiveScalarType.int32 = ok (int32 none)
null_scalar PrimitiveScalarType.uint64 = ok (uint64 none)
null_scalar PrimitiveScalarType.int64 = ok (int64 none)
null_scalar PrimitiveScalarType.float32 = ok (float32 none)
null_scalar PrimitiveScalarType.float64 = ok (float64 none)
null_scalar PrimitiveScalarType.utf8 = ok (utf8 none)
null_scalar PrimitiveScalarType.large_utf8 = ok (large_utf8 none)
null_scalar PrimitiveScalarType.date32 = ok (date32 none)
null_scalar PrimitiveScalarType.time_microsecond = ok (time_microsecond none)
null_scalar PrimitiveScalarType.time_nanosecond = ok (time_nanosecond none)

unfoldable mutual
  unfolding null_scalar ScalarType_try_into Datatype_try_into

  pub ScalarValue_try_into : OptionalValue → Result ScalarValue
  ScalarValue_try_into no_value =
      err (general (codes "Protobuf deserialization error: missing required field 'value'"))
  ScalarValue_try_into (some_value v) = scalar_of v

  pub scalar_of : Value → Result ScalarValue
  scalar_of (bool_value v) = ok (boolean (some v))
  scalar_of (utf8_value v) = ok (utf8 (some v))
  scalar_of (large_utf8_value v) = ok (large_utf8 (some v))
  scalar_of (int8_value v) = ok (int8 (some (i8 v)))
  scalar_of (int16_value v) = ok (int16 (some (i16 v)))
  scalar_of (int32_value v) = ok (int32 (some v))
  scalar_of (int64_value v) = ok (int64 (some v))
  scalar_of (uint8_value v) = ok (uint8 (some (u8 v)))
  scalar_of (uint16_value v) = ok (uint16 (some (u16 v)))
  scalar_of (uint32_value v) = ok (uint32 (some v))
  scalar_of (uint64_value v) = ok (uint64 (some v))
  scalar_of (float32_value v) = ok (float32 (some v))
  scalar_of (float64_value v) = ok (float64 (some v))
  scalar_of (date32_value v) = ok (date32 (some v))
  scalar_of (time_microsecond_value v) = ok (time_microsecond (some v))
  scalar_of (time_nanosecond_value v) = ok (time_nanosecond (some v))
  scalar_of (list_value datatype vs) = do
    pb_scalar_type ←
        required datatype
          (codes "Protobuf deserialization err: ScalaListValue missing required field 'datatype'")
    typechecked_values ← scalars_of vs
    scalar_type ← ScalarType_try_into pb_scalar_type
    ok (list (some_values typechecked_values) scalar_type)
  scalar_of (null_list_value t) = do
    pb_datatype ← required t.datatype (
        codes
          "Protobuf deserialization error: NullListValue message missing required field 'datatyp'")
    datatype ← Datatype_try_into pb_datatype
    ok (list null_values datatype)
  scalar_of (null_value n) = do
    null_type ←
        required (from_i32 primitive_scalar_types n)
          (codes "Protobuf deserialization error found invalid enum variant for DatafusionScalar")
    null_scalar null_type

  pub scalars_of : Values → Result ScalarValues
  scalars_of Values.no_values = ok ScalarValues.no_values
  scalars_of (Values.values v vs) = do
    first ← ScalarValue_try_into v
    rest ← scalars_of vs
    ok (ScalarValues.values first rest)
