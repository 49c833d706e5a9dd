-- ===== src/Logical/Scalars.antt =====
-- Scalar values of rust/core/src/serde/logical_plan, their messages, and the text that an error
-- renders of them.
pub mod Types
pub mod Writing
pub mod Reading
pub mod Checked
pub mod RoundTrip
pub mod Agreement
pub mod EmptyLists
use ballista.Prelude.{ℕ, ℤ, pos, Bool, List, [], ◌∷◌, Option}
use ballista.Text.{Text}
use ballista.Logical.Arrow.{TimeUnit, DataType, Field}

-- DataFusion's scalar values, as far as the conversions name them; a floating point number is its
-- bits. `unsupported` is a value of another kind.
mutual
  pub data ScalarValue : Type 0 where
    boolean : Option Bool → ScalarValue
    float32 float64 : Option ℕ → ScalarValue
    int8 int16 int32 int64 : Option ℤ → ScalarValue
    uint8 uint16 uint32 uint64 : Option ℕ → ScalarValue
    utf8 large_utf8 : Option Text → ScalarValue
    list : OptionalScalarValues → DataType → ScalarValue
    date32 time_microsecond time_nanosecond : Option ℤ → ScalarValue
    unsupported : Text → ScalarValue

  pub data ScalarValues : Type 0 where
    no_values : ScalarValues
    values : ScalarValue → ScalarValues → ScalarValues

  pub data OptionalScalarValues : Type 0 where
    some_values : ScalarValues → OptionalScalarValues
    null_values : OptionalScalarValues

-- `{:?}` of the other libraries' types.
pub record Debug : Type 0 where
  pub time_unit : TimeUnit → Text
  pub data_type : DataType → Text
  pub field : Field → Text
  pub scalar_value : ScalarValue → Text

pub data PrimitiveScalarType : Type 0 where
  bool uint8 int8 uint16 int16 uint32 int32 uint64 int64 float32 float64 : PrimitiveScalarType
  utf8 large_utf8 date32 time_microsecond time_nanosecond null : PrimitiveScalarType

abbrev pub primitive_scalar_types : List PrimitiveScalarType
primitive_scalar_types =
    bool ∷ uint8 ∷ int8 ∷ uint16 ∷ int16 ∷ uint32 ∷ int32 ∷ uint64 ∷ int64 ∷ float32 ∷ float64
    ∷ utf8 ∷ large_utf8 ∷ date32 ∷ time_microsecond ∷ time_nanosecond ∷ null ∷ []

-- `as i32`
abbrev pub primitive_number : PrimitiveScalarType → ℤ
primitive_number bool = pos 0
primitive_number uint8 = pos 1
primitive_number int8 = pos 2
primitive_number uint16 = pos 3
primitive_number int16 = pos 4
primitive_number uint32 = pos 5
primitive_number int32 = pos 6
primitive_number uint64 = pos 7
primitive_number int64 = pos 8
primitive_number float32 = pos 9
primitive_number float64 = pos 10
primitive_number utf8 = pos 11
primitive_number large_utf8 = pos 12
primitive_number date32 = pos 13
primitive_number time_microsecond = pos 14
primitive_number time_nanosecond = pos 15
primitive_number null = pos 16

pub record ScalarListType : Type 0 where
  pub field_names : List Text
  pub deepest_type : ℤ

-- `scalar_type::Datatype`
pub data Datatype : Type 0 where
  scalar : ℤ → Datatype
  list : ScalarListType → Datatype

pub record ScalarType : Type 0 where
  pub datatype : Option Datatype

-- The message of a scalar value is its `value`, which may be missing.
mutual
  pub data Value : Type 0 where
    bool_value : Bool → Value
    utf8_value large_utf8_value : Text → Value
    int8_value int16_value int32_value int64_value : ℤ → Value
    uint8_value uint16_value uint32_value uint64_value : ℕ → Value
    float32_value float64_value : ℕ → Value
    date32_value time_microsecond_value time_nanosecond_value : ℤ → Value
    list_value : (datatype : Option ScalarType) (values : Values) → Value
    null_list_value : ScalarType → Value
    null_value : ℤ → Value

  pub data OptionalValue : Type 0 where
    some_value : Value → OptionalValue
    no_value : OptionalValue

  pub data Values : Type 0 where
    no_values : Values
    values : OptionalValue → Values → Values
