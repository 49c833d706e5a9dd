-- ===== src/Logical/Types/Enums.antt =====
-- The second reading of a data type's message: `TryInto<DataType>` for `ArrowTypeEnum` in
-- from_proto.rs of rust/core/src/serde/logical_plan, which reads nested fields as the first does.
use ballista.Prelude.{[], ◌∷◌, Option, none, some, ◌==◌, if◌then◌else◌, length, ◌≡◌, refl, arith}
use ballista.Text.{Text, codes}
use ballista.Error.{general, Result, ok, err, ◌>>=◌, value_of}
use ballista.Logical.Arrow.{
  DataType, Field, null, boolean, int8, int16, int32, int64, uint8, uint16, uint32, uint64, float16,
  float32, float64, timestamp, date32, date64, time32, time64, duration, interval, binary,
  fixed_size_binary, large_binary, utf8, large_utf8, list, fixed_size_list, large_list, struct,
  union, dictionary, decimal,
}
use ballista.Logical.Types.Reading.{
  some_unless_empty, ArrowType_try_into, Field_try_into, Fields_try_into,
  TimeUnit_from_i32_to_arrow, IntervalUnit_from_i32_to_arrow,
}
use ballista.Logical.Messages
use ballista.Logical.Messages.{
  ArrowTypeEnum, ArrowType, OptionalArrowType, OptionalField, arrow_type, no_arrow_type_enum,
  some_type, no_type, some_field, no_field, from_i32, time_units, interval_units, time_unit_number,
  interval_unit_number,
}

abbrev some_unless_length_zero : Text → Option Text
some_unless_length_zero text = if length text == 0 then none else some text

abbrev field_type_of : OptionalField → Text → Result Field
field_type_of no_field message = err (general message)
field_type_of (some_field f) message = Field_try_into f

unfoldable pub ArrowTypeEnum_try_into : ArrowTypeEnum → Result DataType
unfolding Field_try_into ArrowType_try_into TimeUnit_from_i32_to_arrow
    IntervalUnit_from_i32_to_arrow
ArrowTypeEnum_try_into ArrowTypeEnum.none = ok null
ArrowTypeEnum_try_into Messages.bool = ok boolean
ArrowTypeEnum_try_into Messages.uint8 = ok uint8
ArrowTypeEnum_try_into Messages.int8 = ok int8
ArrowTypeEnum_try_into Messages.uint16 = ok uint16
ArrowTypeEnum_try_into Messages.int16 = ok int16
ArrowTypeEnum_try_into Messages.uint32 = ok uint32
ArrowTypeEnum_try_into Messages.int32 = ok int32
ArrowTypeEnum_try_into Messages.uint64 = ok uint64
ArrowTypeEnum_try_into Messages.int64 = ok int64
ArrowTypeEnum_try_into Messages.float16 = ok float16
ArrowTypeEnum_try_into Messages.float32 = ok float32
ArrowTypeEnum_try_into Messages.float64 = ok float64
ArrowTypeEnum_try_into Messages.utf8 = ok utf8
ArrowTypeEnum_try_into Messages.large_utf8 = ok large_utf8
ArrowTypeEnum_try_into Messages.binary = ok binary
ArrowTypeEnum_try_into (Messages.fixed_size_binary size) = ok (fixed_size_binary size)
ArrowTypeEnum_try_into Messages.large_binary = ok large_binary
ArrowTypeEnum_try_into Messages.date32 = ok date32
ArrowTypeEnum_try_into Messages.date64 = ok date64
ArrowTypeEnum_try_into (Messages.duration n) = do
  unit ← TimeUnit_from_i32_to_arrow n
  ok (duration unit)
ArrowTypeEnum_try_into (Messages.timestamp t) = do
  unit ← TimeUnit_from_i32_to_arrow t.time_unit
  ok (timestamp unit (some_unless_length_zero t.timezone))
ArrowTypeEnum_try_into (Messages.time32 n) = do
  unit ← TimeUnit_from_i32_to_arrow n
  ok (time32 unit)
ArrowTypeEnum_try_into (Messages.time64 n) = do
  unit ← TimeUnit_from_i32_to_arrow n
  ok (time64 unit)
ArrowTypeEnum_try_into (Messages.interval n) = do
  unit ← IntervalUnit_from_i32_to_arrow n
  ok (interval unit)
ArrowTypeEnum_try_into (Messages.decimal d) = ok (decimal d.whole d.fractional)
ArrowTypeEnum_try_into (Messages.list f) = do
  item ←
      field_type_of f
        (codes "Protobuf deserialization error: List message missing required field 'field_type'")
  ok (list item)
ArrowTypeEnum_try_into (Messages.large_list f) = do
  item ←
      field_type_of f
        (codes "Protobuf deserialization error: List message missing required field 'field_type'")
  ok (large_list item)
ArrowTypeEnum_try_into (Messages.fixed_size_list f size) = do
  item ←
      field_type_of f
        (codes "Protobuf deserialization error: List message missing required field 'field_type'")
  ok (fixed_size_list item size)
ArrowTypeEnum_try_into (Messages.struct fs) = do members ← Fields_try_into fs; ok (struct members)
ArrowTypeEnum_try_into (Messages.union fs) = do members ← Fields_try_into fs; ok (union members)
ArrowTypeEnum_try_into (Messages.dictionary no_type value) = err (
    general
      (codes "Protobuf deserialization error: Dictionary message missing required field 'key'"))
ArrowTypeEnum_try_into (Messages.dictionary (some_type key) no_type) = err (
    general
      (codes "Protobuf deserialization error: Dictionary message missing required field 'key'"))
ArrowTypeEnum_try_into (Messages.dictionary (some_type key) (some_type value)) = do
  k ← ArrowType_try_into key
  v ← ArrowType_try_into value
  ok (dictionary k v)

-- `TryInto<DataType>` for `Box<protobuf::List>`
unfoldable pub List_try_into : OptionalField → Result DataType
unfolding Field_try_into
List_try_into no_field = err (general (codes "List message missing required field 'field_type'"))
List_try_into (some_field f) = do item ← Field_try_into f; ok (list item)

same_timezone : (text : Text) → some_unless_length_zero text ≡ some_unless_empty text
same_timezone [] = refl
same_timezone (c ∷ text) = ground arith

-- The two readings of a type's message read the same type, or both fail.
pub ArrowTypeEnum_try_into-agrees :
    (t : ArrowTypeEnum)
    → value_of (ArrowTypeEnum_try_into t) ≡ value_of (ArrowType_try_into (arrow_type t))
unfolding ArrowTypeEnum_try_into ArrowType_try_into
ArrowTypeEnum_try_into-agrees (Messages.timestamp t) = rw (same_timezone t.timezone)
ArrowTypeEnum_try_into-agrees (Messages.list no_field) = refl
ArrowTypeEnum_try_into-agrees (Messages.list (some_field f)) = refl
ArrowTypeEnum_try_into-agrees (Messages.large_list no_field) = refl
ArrowTypeEnum_try_into-agrees (Messages.large_list (some_field f)) = refl
ArrowTypeEnum_try_into-agrees (Messages.fixed_size_list no_field size) = refl
ArrowTypeEnum_try_into-agrees (Messages.fixed_size_list (some_field f) size) = refl
ArrowTypeEnum_try_into-agrees (Messages.dictionary no_type value) = refl
ArrowTypeEnum_try_into-agrees (Messages.dictionary (some_type key) no_type) = refl
ArrowTypeEnum_try_into-agrees _ = refl
