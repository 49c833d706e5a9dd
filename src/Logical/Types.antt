-- ===== src/Logical/Types.antt =====
-- The conversions of data types, fields and schemas in rust/core/src/serde/logical_plan: here the
-- writing of messages, in to_proto.rs.
pub mod Reading
pub mod Enums
pub mod RoundTrip
use ballista.Prelude.{ℤ, Bool, List, [], ◌∷◌, map, Option, none, some}
use ballista.Text.{Text, codes}
use ballista.Error.{general, Result, ok, err, required, ◌>>=◌, collect}
use ballista.Logical.Arrow.{
  TimeUnit, IntervalUnit, DataType, Field, Fields, Schema, second, millisecond, microsecond,
  nanosecond, year_month, day_time, null, boolean, int8, int16, int32, int64, uint8, uint16, uint32,
  uint64, float16, float32, float64, timestamp, date32, date64, time32, time64, duration, interval,
  binary, fixed_size_binary, large_binary, utf8, large_utf8, list, fixed_size_list, large_list,
  struct, union, dictionary, decimal, field, no_fields, fields,
}
use ballista.Logical.Messages
use ballista.Logical.Messages.{
  ArrowTypeEnum, ArrowType, OptionalArrowType, OptionalField, arrow_type, no_arrow_type_enum,
  some_type, no_type, some_field, no_field, from_i32, time_units, interval_units, time_unit_number,
  interval_unit_number,
}

unfoldable pub from_arrow_interval_unit : IntervalUnit → Messages.IntervalUnit
from_arrow_interval_unit year_month = Messages.year_month
from_arrow_interval_unit day_time = Messages.day_time

unfoldable pub from_arrow_time_unit : TimeUnit → Messages.TimeUnit
from_arrow_time_unit second = Messages.second
from_arrow_time_unit millisecond = Messages.time_millisecond
from_arrow_time_unit microsecond = Messages.microsecond
from_arrow_time_unit nanosecond = Messages.nanosecond

abbrev unwrap_or_empty : Option Text → Text
unwrap_or_empty none = []
unwrap_or_empty (some text) = text

unfoldable mutual
  unfolding from_arrow_time_unit from_arrow_interval_unit

  pub ArrowTypeEnum_from : DataType → ArrowTypeEnum
  ArrowTypeEnum_from null = ArrowTypeEnum.none
  ArrowTypeEnum_from boolean = ArrowTypeEnum.bool
  ArrowTypeEnum_from int8 = ArrowTypeEnum.int8
  ArrowTypeEnum_from int16 = ArrowTypeEnum.int16
  ArrowTypeEnum_from int32 = ArrowTypeEnum.int32
  ArrowTypeEnum_from int64 = ArrowTypeEnum.int64
  ArrowTypeEnum_from uint8 = ArrowTypeEnum.uint8
  ArrowTypeEnum_from uint16 = ArrowTypeEnum.uint16
  ArrowTypeEnum_from uint32 = ArrowTypeEnum.uint32
  ArrowTypeEnum_from uint64 = ArrowTypeEnum.uint64
  ArrowTypeEnum_from float16 = ArrowTypeEnum.float16
  ArrowTypeEnum_from float32 = ArrowTypeEnum.float32
  ArrowTypeEnum_from float64 = ArrowTypeEnum.float64
  ArrowTypeEnum_from (timestamp unit timezone) = ArrowTypeEnum.timestamp (record {
    time_unit = time_unit_number (from_arrow_time_unit unit);
    timezone = unwrap_or_empty timezone;
  })
  ArrowTypeEnum_from date32 = ArrowTypeEnum.date32
  ArrowTypeEnum_from date64 = ArrowTypeEnum.date64
  ArrowTypeEnum_from (time32 unit) =
      ArrowTypeEnum.time32 (time_unit_number (from_arrow_time_unit unit))
  ArrowTypeEnum_from (time64 unit) =
      ArrowTypeEnum.time64 (time_unit_number (from_arrow_time_unit unit))
  ArrowTypeEnum_from (duration unit) =
      ArrowTypeEnum.duration (time_unit_number (from_arrow_time_unit unit))
  ArrowTypeEnum_from (interval unit) =
      ArrowTypeEnum.interval (interval_unit_number (from_arrow_interval_unit unit))
  ArrowTypeEnum_from binary = ArrowTypeEnum.binary
  ArrowTypeEnum_from (fixed_size_binary size) = ArrowTypeEnum.fixed_size_binary size
  ArrowTypeEnum_from large_binary = ArrowTypeEnum.large_binary
  ArrowTypeEnum_from utf8 = ArrowTypeEnum.utf8
  ArrowTypeEnum_from large_utf8 = ArrowTypeEnum.large_utf8
  ArrowTypeEnum_from (list f) = ArrowTypeEnum.list (some_field (Field_from f))
  ArrowTypeEnum_from (fixed_size_list f size) =
      ArrowTypeEnum.fixed_size_list (some_field (Field_from f)) size
  ArrowTypeEnum_from (large_list f) = ArrowTypeEnum.large_list (some_field (Field_from f))
  ArrowTypeEnum_from (struct fs) = ArrowTypeEnum.struct (Fields_from fs)
  ArrowTypeEnum_from (union fs) = ArrowTypeEnum.union (Fields_from fs)
  ArrowTypeEnum_from (dictionary key value) =
      ArrowTypeEnum.dictionary (some_type (arrow_type (ArrowTypeEnum_from key)))
        (some_type (arrow_type (ArrowTypeEnum_from value)))
  ArrowTypeEnum_from (decimal whole fractional) =
      ArrowTypeEnum.decimal (record { whole = whole; fractional = fractional })

  pub Field_from : Field → Messages.Field
  Field_from (field name t nullable id ordered) =
      Messages.field name (some_type (arrow_type (ArrowTypeEnum_from t))) nullable
        Messages.no_fields

  pub Fields_from : Fields → Messages.Fields
  Fields_from no_fields = Messages.no_fields
  Fields_from (fields f fs) = Messages.fields (Field_from f) (Fields_from fs)

unfoldable pub ArrowType_from : DataType → ArrowType
unfolding ArrowTypeEnum_from
ArrowType_from t = arrow_type (ArrowTypeEnum_from t)

unfoldable pub Schema_into : Schema → Messages.Schema
unfolding Field_from
Schema_into schema = record { columns = map Field_from schema.fields }
