-- ===== src/Logical/Messages.antt =====
-- Messages of rust/core/proto/ballista.proto for data types and scalars. A field of an enum type
-- is a number, which `from_i32` reads; a boxed message may be missing.
use ballista.Prelude.{ℕ, ℤ, pos, negsuc, Bool, List, [], ◌∷◌, Option, get_elem?}
use ballista.Text.{Text}

pub data TimeUnit : Type 0 where
  second time_millisecond microsecond nanosecond : TimeUnit

pub data IntervalUnit : Type 0 where
  year_month day_time : IntervalUnit

abbrev pub from_i32 {ℓ} : {A : Type ℓ} → List A → ℤ → Option A
from_i32 variants (pos n) = get_elem? variants n
from_i32 variants (negsuc n) = Option.none

abbrev pub time_units : List TimeUnit
time_units =
    TimeUnit.second ∷ TimeUnit.time_millisecond ∷ TimeUnit.microsecond ∷ TimeUnit.nanosecond ∷ []

abbrev pub interval_units : List IntervalUnit
interval_units = IntervalUnit.year_month ∷ IntervalUnit.day_time ∷ []

abbrev pub time_unit_number : TimeUnit → ℤ
time_unit_number second = pos 0
time_unit_number time_millisecond = pos 1
time_unit_number microsecond = pos 2
time_unit_number nanosecond = pos 3

abbrev pub interval_unit_number : IntervalUnit → ℤ
interval_unit_number year_month = pos 0
interval_unit_number day_time = pos 1

pub record Timestamp : Type 0 where
  pub time_unit : ℤ
  pub timezone : Text

pub record Decimal : Type 0 where
  pub whole : ℕ
  pub fractional : ℕ

-- `list`, `struct`, `union` and `dictionary` hold the fields of the messages of these names.
mutual
  pub data ArrowTypeEnum : Type 0 where
    none bool : ArrowTypeEnum
    uint8 int8 uint16 int16 uint32 int32 uint64 int64 : ArrowTypeEnum
    float16 float32 float64 : ArrowTypeEnum
    utf8 large_utf8 binary : ArrowTypeEnum
    fixed_size_binary : ℤ → ArrowTypeEnum
    large_binary date32 date64 : ArrowTypeEnum
    duration : ℤ → ArrowTypeEnum
    timestamp : Timestamp → ArrowTypeEnum
    time32 time64 interval : ℤ → ArrowTypeEnum
    decimal : Decimal → ArrowTypeEnum
    list large_list : (field_type : OptionalField) → ArrowTypeEnum
    fixed_size_list : (field_type : OptionalField) (list_size : ℤ) → ArrowTypeEnum
    struct : (sub_field_types : Fields) → ArrowTypeEnum
    union : (union_types : Fields) → ArrowTypeEnum
    dictionary : (key value : OptionalArrowType) → ArrowTypeEnum

  -- `ArrowType` with its `arrow_type_enum`, which may be missing.
  pub data ArrowType : Type 0 where
    arrow_type : ArrowTypeEnum → ArrowType
    no_arrow_type_enum : ArrowType

  pub data OptionalArrowType : Type 0 where
    some_type : ArrowType → OptionalArrowType
    no_type : OptionalArrowType

  pub data Field : Type 0 where
    field :
        (name : Text) (arrow_type : OptionalArrowType) (nullable : Bool) (children : Fields) → Field

  pub data OptionalField : Type 0 where
    some_field : Field → OptionalField
    no_field : OptionalField

  pub data Fields : Type 0 where
    no_fields : Fields
    fields : Field → Fields → Fields

pub record Schema : Type 0 where
  pub columns : List Field
