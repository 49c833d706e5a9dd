-- ===== src/Logical/Types/Reading.antt =====
-- The reading of data types, fields and schemas from their messages: `TryInto<DataType>` for
-- `ArrowType` in to_proto.rs of rust/core/src/serde/logical_plan, and what it reads with.
use ballista.Prelude.{ℤ, [], ◌∷◌, Option, none, some}
use ballista.Text.{Text, codes}
use ballista.Error.{general, Result, ok, err, required, ◌>>=◌, collect}
use ballista.Logical.Arrow.{
  TimeUnit, IntervalUnit, DataType, Field, Fields, Schema, null, boolean, int8, int16, int32, int64,
  uint8, uint16, uint32, uint64, float16, float32, float64, timestamp, date32, date64, time32,
  time64, duration, interval, binary, fixed_size_binary, large_binary, utf8, large_utf8, list,
  fixed_size_list, large_list, struct, union, dictionary, decimal, new_field, no_fields, fields,
}
use ballista.Logical.Messages
use ballista.Logical.Messages.{
  ArrowTypeEnum, ArrowType, OptionalArrowType, OptionalField, arrow_type, no_arrow_type_enum,
  some_type, no_type, some_field, no_field, from_i32, time_units, interval_units, time_unit_number,
  interval_unit_number,
}

abbrev arrow_interval_unit : Messages.IntervalUnit → IntervalUnit
arrow_interval_unit Messages.year_month = IntervalUnit.year_month
arrow_interval_unit Messages.day_time = IntervalUnit.day_time

unfoldable pub IntervalUnit_from_i32_to_arrow : ℤ → Result IntervalUnit
IntervalUnit_from_i32_to_arrow n = do
  unit ←
      required (from_i32 interval_units n)
        (codes "Error converting i32 to DateUnit: Passed invalid variant")
  ok (arrow_interval_unit unit)

abbrev arrow_time_unit : Messages.TimeUnit → TimeUnit
arrow_time_unit Messages.second = TimeUnit.second
arrow_time_unit Messages.time_millisecond = TimeUnit.millisecond
arrow_time_unit Messages.microsecond = TimeUnit.microsecond
arrow_time_unit Messages.nanosecond = TimeUnit.nanosecond

unfoldable pub TimeUnit_from_i32_to_arrow : ℤ → Result TimeUnit
TimeUnit_from_i32_to_arrow n = do
  unit ←
      required (from_i32 time_units n)
        (codes "Error converting i32 to TimeUnit: Passed invalid variant")
  ok (arrow_time_unit unit)

abbrev pub some_unless_empty : Text → Option Text
some_unless_empty [] = none
some_unless_empty (c ∷ text) = some (c ∷ text)

unfoldable mutual
  unfolding TimeUnit_from_i32_to_arrow IntervalUnit_from_i32_to_arrow

  -- to_proto.rs reads a type by this function, and a field by `Field_try_into`.
  pub ArrowType_try_into : ArrowType → Result DataType
  ArrowType_try_into no_arrow_type_enum = err (
      general
        (codes "Protobuf deserialization error: ArrowType missing required field 'data_type'"))
  ArrowType_try_into (arrow_type t) = type_of t

  type_of : ArrowTypeEnum → Result DataType
  type_of ArrowTypeEnum.none = ok null
  type_of Messages.bool = ok boolean
  type_of Messages.uint8 = ok uint8
  type_of Messages.int8 = ok int8
  type_of Messages.uint16 = ok uint16
  type_of Messages.int16 = ok int16
  type_of Messages.uint32 = ok uint32
  type_of Messages.int32 = ok int32
  type_of Messages.uint64 = ok uint64
  type_of Messages.int64 = ok int64
  type_of Messages.float16 = ok float16
  type_of Messages.float32 = ok float32
  type_of Messages.float64 = ok float64
  type_of Messages.utf8 = ok utf8
  type_of Messages.large_utf8 = ok large_utf8
  type_of Messages.binary = ok binary
  type_of (Messages.fixed_size_binary size) = ok (fixed_size_binary size)
  type_of Messages.large_binary = ok large_binary
  type_of Messages.date32 = ok date32
  type_of Messages.date64 = ok date64
  type_of (Messages.duration n) = do unit ← TimeUnit_from_i32_to_arrow n; ok (duration unit)
  type_of (Messages.timestamp t) = do
    unit ← TimeUnit_from_i32_to_arrow t.time_unit
    ok (timestamp unit (some_unless_empty t.timezone))
  type_of (Messages.time32 n) = do unit ← TimeUnit_from_i32_to_arrow n; ok (time32 unit)
  type_of (Messages.time64 n) = do unit ← TimeUnit_from_i32_to_arrow n; ok (time64 unit)
  type_of (Messages.interval n) = do unit ← IntervalUnit_from_i32_to_arrow n; ok (interval unit)
  type_of (Messages.decimal d) = ok (decimal d.whole d.fractional)
  type_of (Messages.list f) = do
    item ← field_of f (
        codes
          "Protobuf deserialization error: List message was missing required field 'field_type'")
    ok (list item)
  type_of (Messages.large_list f) = do
    item ← field_of f (
        codes
          "Protobuf deserialization error: List message was missing required field 'field_type'")
    ok (large_list item)
  type_of (Messages.fixed_size_list f size) = do
    item ← field_of f (
        codes
          "Protobuf deserialization error: FixedSizeList message was missing required field 'field_type'")
    ok (fixed_size_list item size)
  type_of (Messages.struct fs) = do members ← Fields_try_into fs; ok (struct members)
  type_of (Messages.union fs) = do members ← Fields_try_into fs; ok (union members)
  type_of (Messages.dictionary no_type value) = err (
      general (
        codes
          "Protobuf deserialization error: Dictionary message was missing required field 'key'"))
  type_of (Messages.dictionary (some_type key) no_type) = err (
      general (
        codes
          "Protobuf deserialization error: Dictionary message was missing required field 'value'"))
  type_of (Messages.dictionary (some_type key) (some_type value)) = do
    k ← ArrowType_try_into key
    v ← ArrowType_try_into value
    ok (dictionary k v)

  field_of : OptionalField → Text → Result Field
  field_of no_field message = err (general message)
  field_of (some_field f) message = Field_try_into f

  pub Field_try_into : Messages.Field → Result Field
  Field_try_into (Messages.field name no_type nullable children) = err (
      general
        (codes "Protobuf deserialization error: Field message missing required field 'arrow_type'"))
  Field_try_into (Messages.field name (some_type t) nullable children) = do
    data_type ← ArrowType_try_into t
    ok (new_field name data_type nullable)

  pub Fields_try_into : Messages.Fields → Result Fields
  Fields_try_into Messages.no_fields = ok no_fields
  Fields_try_into (Messages.fields f fs) = do
    first ← Field_try_into f
    rest ← Fields_try_into fs
    ok (fields first rest)

unfoldable pub column_try_into : Messages.Field → Result Field
unfolding ArrowType_try_into
column_try_into (Messages.field name no_type nullable children) = err (
    general (
      codes
        "Protobuf deserialization error: Field message was missing required field 'arrow_type'"))
column_try_into (Messages.field name (some_type t) nullable children) = do
  data_type ← ArrowType_try_into t
  ok (new_field name data_type nullable)

unfoldable pub Schema_try_into : Messages.Schema → Result Schema
unfolding column_try_into
Schema_try_into message = do
  columns ← collect column_try_into message.columns
  ok (record { fields = columns; metadata = [] })
