-- ===== src/Logical/Types/RoundTrip.antt =====
-- What survives the writing and reading of data types, fields and schemas.
use ballista.Prelude.{List, [], ◌∷◌, map, Option, none, some, ◌≡◌, refl}
use ballista.Text.{Text}
use ballista.Error.{ok, collect}
use ballista.Logical.Arrow.{
  TimeUnit, IntervalUnit, DataType, Field, Fields, Schema, second, millisecond, microsecond,
  nanosecond, year_month, day_time, timestamp, time32, time64, duration, interval, list,
  fixed_size_list, large_list, struct, union, dictionary, field, new_field, no_fields, fields,
}
use ballista.Logical.Messages.{time_unit_number, interval_unit_number}
use ballista.Logical.Types.{
  ArrowTypeEnum_from, ArrowType_from, Field_from, Fields_from, Schema_into, from_arrow_time_unit,
  from_arrow_interval_unit, unwrap_or_empty,
}
use ballista.Logical.Types.Reading.{
  ArrowType_try_into, Field_try_into, Fields_try_into, Schema_try_into, column_try_into,
  TimeUnit_from_i32_to_arrow, IntervalUnit_from_i32_to_arrow, some_unless_empty,
}

-- A message does not tell a time zone that is the empty text from no time zone, and leaves out the
-- dictionary's id and order of a field.
abbrev pub known_timezone : Option Text → Option Text
known_timezone none = none
known_timezone (some []) = none
known_timezone (some (c ∷ text)) = some (c ∷ text)

unfoldable mutual
  pub known_type : DataType → DataType
  known_type (timestamp unit timezone) = timestamp unit (known_timezone timezone)
  known_type (list f) = list (known_field f)
  known_type (fixed_size_list f size) = fixed_size_list (known_field f) size
  known_type (large_list f) = large_list (known_field f)
  known_type (struct fs) = struct (known_fields fs)
  known_type (union fs) = union (known_fields fs)
  known_type (dictionary key value) = dictionary (known_type key) (known_type value)
  known_type t = t

  pub known_field : Field → Field
  known_field (field name t nullable id ordered) = new_field name (known_type t) nullable

  pub known_fields : Fields → Fields
  known_fields no_fields = no_fields
  known_fields (fields f fs) = fields (known_field f) (known_fields fs)

TimeUnit_round_trip :
    (u : TimeUnit) → TimeUnit_from_i32_to_arrow (time_unit_number (from_arrow_time_unit u)) ≡ ok u
unfolding TimeUnit_from_i32_to_arrow from_arrow_time_unit
TimeUnit_round_trip second = refl
TimeUnit_round_trip millisecond = refl
TimeUnit_round_trip microsecond = refl
TimeUnit_round_trip nanosecond = refl

IntervalUnit_round_trip :
    (u : IntervalUnit)
    → IntervalUnit_from_i32_to_arrow (interval_unit_number (from_arrow_interval_unit u)) ≡ ok u
unfolding IntervalUnit_from_i32_to_arrow from_arrow_interval_unit
IntervalUnit_round_trip year_month = refl
IntervalUnit_round_trip day_time = refl

timezone_round_trip : (z : Option Text) → some_unless_empty (unwrap_or_empty z) ≡ known_timezone z
timezone_round_trip none = refl
timezone_round_trip (some []) = refl
timezone_round_trip (some (c ∷ text)) = refl

mutual
  unfolding ArrowTypeEnum_from ArrowType_try_into ArrowType_from known_type Field_from
      Field_try_into Fields_from Fields_try_into known_field known_fields

  type_round_trip : (t : DataType) → ArrowType_try_into (ArrowType_from t) ≡ ok (known_type t)
  type_round_trip (timestamp unit timezone) =
      rw (TimeUnit_round_trip unit, timezone_round_trip timezone)
  type_round_trip (time32 unit) = rw (TimeUnit_round_trip unit)
  type_round_trip (time64 unit) = rw (TimeUnit_round_trip unit)
  type_round_trip (duration unit) = rw (TimeUnit_round_trip unit)
  type_round_trip (interval unit) = rw (IntervalUnit_round_trip unit)
  type_round_trip (list f) = rw (field_round_trip f)
  type_round_trip (fixed_size_list f size) = rw (field_round_trip f)
  type_round_trip (large_list f) = rw (field_round_trip f)
  type_round_trip (struct fs) = rw (fields_round_trip fs)
  type_round_trip (union fs) = rw (fields_round_trip fs)
  type_round_trip (dictionary key value) = rw (type_round_trip key, type_round_trip value)
  type_round_trip _ = refl

  field_round_trip : (f : Field) → Field_try_into (Field_from f) ≡ ok (known_field f)
  field_round_trip (field name t nullable id ordered) = rw (type_round_trip t)

  fields_round_trip : (fs : Fields) → Fields_try_into (Fields_from fs) ≡ ok (known_fields fs)
  fields_round_trip no_fields = refl
  fields_round_trip (fields f fs) = rw (field_round_trip f, fields_round_trip fs)

-- A data type, through its message, is the same type, save that an empty time zone of a timestamp
-- becomes no time zone, and that the fields of nested types lose the id and the order of their
-- dictionaries.
pub ArrowType_round_trip :
    (t : DataType) → ArrowType_try_into (ArrowType_from t) ≡ ok (known_type t)
ArrowType_round_trip t = type_round_trip t

columns_round_trip :
    (fs : List Field) → collect column_try_into (map Field_from fs) ≡ ok (map known_field fs)
unfolding column_try_into Field_from known_field ArrowType_from
columns_round_trip [] = refl
columns_round_trip (field name t nullable id ordered ∷ fs) =
    rw (type_round_trip t, columns_round_trip fs)

-- A schema, through its message, keeps its fields in order, each as a field survives, and loses its
-- metadata.
pub Schema_round_trip :
    (s : Schema)
    → Schema_try_into (Schema_into s)
      ≡ ok (record { fields = map known_field s.fields; metadata = [] })
unfolding Schema_try_into Schema_into
Schema_round_trip s = rw (columns_round_trip s.fields)
