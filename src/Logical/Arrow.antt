-- ===== src/Logical/Arrow.antt =====
-- The data types, fields and schemas of Arrow, with the variants that the conversions of
-- rust/core/src/serde/logical_plan name, and what they read of a field.
use ballista.Prelude.{ℕ, ℤ, pos, Bool, false, List, Option}
use ballista.Text.{Text}

pub data TimeUnit : Type 0 where
  second millisecond microsecond nanosecond : TimeUnit

pub data IntervalUnit : Type 0 where
  year_month day_time : IntervalUnit

mutual
  pub data DataType : Type 0 where
    null boolean : DataType
    int8 int16 int32 int64 uint8 uint16 uint32 uint64 : DataType
    float16 float32 float64 : DataType
    timestamp : TimeUnit → Option Text → DataType
    date32 date64 : DataType
    time32 time64 duration : TimeUnit → DataType
    interval : IntervalUnit → DataType
    binary : DataType
    fixed_size_binary : ℤ → DataType
    large_binary utf8 large_utf8 : DataType
    list : Field → DataType
    fixed_size_list : Field → ℤ → DataType
    large_list : Field → DataType
    struct union : Fields → DataType
    dictionary : DataType → DataType → DataType
    decimal : ℕ → ℕ → DataType

  pub data Field : Type 0 where
    field :
        (name : Text) (data_type : DataType) (nullable : Bool) (dict_id : ℤ)
        (dict_is_ordered : Bool)
        → Field

  pub data Fields : Type 0 where
    no_fields : Fields
    fields : Field → Fields → Fields

-- `Field::new(name, data_type, nullable)`
abbrev pub new_field : Text → DataType → Bool → Field
new_field name t nullable = field name t nullable (pos 0) false

abbrev pub name : Field → Text
name (field n t nullable id ordered) = n

abbrev pub data_type : Field → DataType
data_type (field n t nullable id ordered) = t

-- `Schema::new(fields)` has no metadata.
pub record Schema : Type 0 where
  pub fields : List Field
  pub metadata : List (Text × Text)
