-- ===== src/Examples/Types.antt =====
-- Concrete runs of the conversions of data types and scalar values.
use ballista.Prelude.{ℤ, pos, negsuc, i8, true, false, none, some, [], ◌∷◌, ◌≡◌, ◌⊎◌, refl}
use ballista.Text.{codes}
use ballista.Error.{ok, value_of}
use ballista.Logical.Arrow.{DataType, TimeUnit, field, new_field, fields, no_fields}
use ballista.Logical.Messages
use ballista.Logical.Messages.{ArrowTypeEnum, arrow_type}
use ballista.Logical.Types.{ArrowType_from}
use ballista.Logical.Types.Reading.{ArrowType_try_into}
use ballista.Logical.Types.Enums.{ArrowTypeEnum_try_into, ArrowTypeEnum_try_into-agrees}
use ballista.Logical.Types.RoundTrip.{known_type, ArrowType_round_trip}
use ballista.Logical.Scalars.{
  Debug, ScalarValue, ScalarValues, PrimitiveScalarType, ScalarListType, Datatype, Value, Values,
  OptionalValue, some_values, null_values, some_value, int8_value, list_value,
  time_nanosecond_value,
}
use ballista.Logical.Scalars.Types.{PrimitiveScalarType_into, ScalarListType_try_into}
use ballista.Logical.Scalars.Types.RoundTrip.{nullable_lists}
use ballista.Logical.Scalars.Reading.{ScalarValue_try_into}
use ballista.Logical.Scalars.Checked.{typechecked_scalar_value_conversion, Value_try_into}
use ballista.Logical.Scalars.Agreement.{
  leaf_type_of, typechecked_scalar_value_conversion-agrees,
  typechecked_scalar_value_conversion-typed,
}
use ballista.Logical.Scalars.EmptyLists.{empty_list_readings}

-- Debug texts that name no value.
abbrev pub plain_debug : Debug
plain_debug = record {
  time_unit = λ u. codes "unit";
  data_type = λ t. codes "type";
  field = λ f. codes "field";
  scalar_value = λ v. codes "value";
}

-- A time stamp with an empty time zone, beside a list.
abbrev timed : DataType
timed = DataType.struct (
    fields (new_field (codes "at") (DataType.timestamp TimeUnit.millisecond (some [])) true) (
      fields
        (field (codes "tags") (DataType.list (new_field (codes "item") DataType.utf8 false)) false
          (pos 7) true)
        no_fields))

ArrowType_round_trip_example : ArrowType_try_into (ArrowType_from timed) ≡ ok (known_type timed)
ArrowType_round_trip_example = ArrowType_round_trip timed

abbrev zoned : ArrowTypeEnum
zoned = Messages.timestamp (record { time_unit = pos 2; timezone = codes "UTC" })

ArrowTypeEnum_try_into-agrees_example :
    value_of (ArrowTypeEnum_try_into zoned) ≡ value_of (ArrowType_try_into (arrow_type zoned))
ArrowTypeEnum_try_into-agrees_example = ArrowTypeEnum_try_into-agrees zoned

-- A list of lists of bytes, none of which may be null.
abbrev lists_of_bytes : DataType
lists_of_bytes = DataType.list (
    new_field (codes "outer") (DataType.list (new_field (codes "inner") DataType.int8 false)) false)

abbrev list_type : ScalarListType
list_type = record { field_names = codes "outer" ∷ codes "inner" ∷ []; deepest_type = pos 2 }

-- The list of -5 and a null.
abbrev two_bytes : ScalarValue
two_bytes =
    ScalarValue.list
      (some_values (
        ScalarValues.values (ScalarValue.int8 (some (negsuc 4)))
          (ScalarValues.values (ScalarValue.int8 none) ScalarValues.no_values)))
      (DataType.list (new_field (codes "item") DataType.int8 false))

abbrev two_bytes_message : OptionalValue
two_bytes_message = some_value (
    list_value
      (some (record {
        datatype =
            some (Datatype.list (record { field_names = codes "item" ∷ []; deepest_type = pos 2 }));
      }))
      (Values.values (some_value (int8_value (negsuc 4)))
        (Values.values (some_value (Value.null_value (pos 2))) Values.no_values)))

-- 200 is no 8-bit number: it is read as -56.
wrapped_read :
    ScalarValue_try_into (some_value (int8_value (pos 200)))
    ≡ ok (ScalarValue.int8 (some (negsuc 55)))
unfolding ScalarValue_try_into i8
wrapped_read = refl

byte_checked :
    typechecked_scalar_value_conversion (int8_value (pos 7)) PrimitiveScalarType.int8
    ≡ ok (ScalarValue.int8 (some (pos 7)))
unfolding typechecked_scalar_value_conversion i8
byte_checked = refl

typechecked_scalar_value_conversion-agrees_example :
    ScalarValue_try_into (some_value (int8_value (pos 7))) ≡ ok (ScalarValue.int8 (some (pos 7)))
typechecked_scalar_value_conversion-agrees_example =
    typechecked_scalar_value_conversion-agrees (int8_value (pos 7)) PrimitiveScalarType.int8
      (ScalarValue.int8 (some (pos 7))) byte_checked

nanoseconds_checked :
    typechecked_scalar_value_conversion
      (time_nanosecond_value (pos 9))
      PrimitiveScalarType.time_microsecond
    ≡ ok (ScalarValue.time_nanosecond (some (pos 9)))
unfolding typechecked_scalar_value_conversion
nanoseconds_checked = refl

typechecked_scalar_value_conversion-typed_example :
    (leaf_type_of (ScalarValue.time_nanosecond (some (pos 9)))
      ≡ some (PrimitiveScalarType_into PrimitiveScalarType.time_microsecond))
    ⊎ ((n : ℤ) × (time_nanosecond_value (pos 9) ≡ time_nanosecond_value n)
        × (PrimitiveScalarType.time_microsecond ≡ PrimitiveScalarType.time_microsecond)
        × (ScalarValue.time_nanosecond (some (pos 9)) ≡ ScalarValue.time_nanosecond (some n)))
typechecked_scalar_value_conversion-typed_example =
    typechecked_scalar_value_conversion-typed (time_nanosecond_value (pos 9))
      PrimitiveScalarType.time_microsecond (ScalarValue.time_nanosecond (some (pos 9)))
      nanoseconds_checked

list_type_read : ScalarListType_try_into list_type ≡ ok (nullable_lists lists_of_bytes)
unfolding ScalarListType_try_into nullable_lists
list_type_read = refl

abbrev empty_list : Value
empty_list =
    list_value (some (record { datatype = some (Datatype.list list_type) })) Values.no_values

empty_list_readings_example :
    (Value_try_into empty_list ≡ ok (ScalarValue.list null_values (nullable_lists lists_of_bytes)))
    × (ScalarValue_try_into (some_value empty_list)
        ≡ ok
            (ScalarValue.list (some_values ScalarValues.no_values) (nullable_lists lists_of_bytes)))
empty_list_readings_example =
    empty_list_readings list_type (nullable_lists lists_of_bytes) list_type_read
