-- ===== src/Logical/Functions.antt =====
-- The operators and functions of expressions in rust/core/src/serde/logical_plan, and their
-- conversions. An operator is written as its `Debug` text; a function as the number of a message's
-- variant.
pub mod Laws
use ballista.Prelude.{ℤ, pos, List, [], ◌∷◌, ◌++◌, Option, none, some, if◌then◌else◌}
use ballista.Text.{Text, codes, text_eq}
use ballista.Text.Decimal.{signed_decimal}
use ballista.Error.{general, Result, ok, err, required, ◌>>=◌}
use ballista.Logical.Messages.{from_i32}
use ballista.Logical.Scalars.{Debug}

-- DataFusion's operators that the code names; `unnamed` is another one, by its name.
pub data Operator : Type 0 where
  and or eq not_eq lt_eq lt gt gt_eq plus minus multiply divide like : Operator
  unnamed : Text → Operator

pub data AggregateFunction : Type 0 where
  min max sum avg count : AggregateFunction

-- DataFusion's functions that the code names or calls; `unnamed` is another one, by its name.
pub data BuiltinScalarFunction : Type 0 where
  sqrt sin cos tan asin acos atan exp log log2 log10 floor ceil round trunc abs signum length :
      BuiltinScalarFunction
  concat lower upper trim ltrim rtrim to_timestamp array null_if date_trunc md5 sha224 sha256 :
      BuiltinScalarFunction
  sha384 sha512 : BuiltinScalarFunction
  unnamed : Text → BuiltinScalarFunction

-- The variants of the message `ScalarFunction`, in the order of their numbers.
pub data ScalarFunction : Type 0 where
  sqrt sin cos tan asin acos atan exp log log2 log10 floor ceil round trunc abs signum length :
      ScalarFunction
  concat lower upper trim ltrim rtrim totimestamp array nullif datetrunc md5 sha224 sha256 :
      ScalarFunction
  sha384 sha512 : ScalarFunction

abbrev pub scalar_functions : List ScalarFunction
scalar_functions =
    ScalarFunction.sqrt ∷ ScalarFunction.sin ∷ ScalarFunction.cos ∷ ScalarFunction.tan
    ∷ ScalarFunction.asin ∷ ScalarFunction.acos ∷ ScalarFunction.atan ∷ ScalarFunction.exp
    ∷ ScalarFunction.log ∷ ScalarFunction.log2 ∷ ScalarFunction.log10 ∷ ScalarFunction.floor
    ∷ ScalarFunction.ceil ∷ ScalarFunction.round ∷ ScalarFunction.trunc ∷ ScalarFunction.abs
    ∷ ScalarFunction.signum ∷ ScalarFunction.length ∷ ScalarFunction.concat ∷ ScalarFunction.lower
    ∷ ScalarFunction.upper ∷ ScalarFunction.trim ∷ ScalarFunction.ltrim ∷ ScalarFunction.rtrim
    ∷ ScalarFunction.totimestamp ∷ ScalarFunction.array ∷ ScalarFunction.nullif
    ∷ ScalarFunction.datetrunc ∷ ScalarFunction.md5 ∷ ScalarFunction.sha224 ∷ ScalarFunction.sha256
    ∷ ScalarFunction.sha384 ∷ ScalarFunction.sha512 ∷ []

abbrev pub aggregate_functions : List AggregateFunction
aggregate_functions = AggregateFunction.min ∷ AggregateFunction.max ∷ sum ∷ avg ∷ count ∷ []

-- `{:?}` of the other libraries' types in errors and, for an operator, in the message itself.
pub record ExprDebug : Type 0 where
  pub scalars : Debug
  pub operator : Operator → Text
  pub text : Text → Text
  pub function : BuiltinScalarFunction → Text

-- `as i32`
abbrev pub scalar_function_number : ScalarFunction → ℤ
scalar_function_number ScalarFunction.sqrt = pos 0
scalar_function_number ScalarFunction.sin = pos 1
scalar_function_number ScalarFunction.cos = pos 2
scalar_function_number ScalarFunction.tan = pos 3
scalar_function_number ScalarFunction.asin = pos 4
scalar_function_number ScalarFunction.acos = pos 5
scalar_function_number ScalarFunction.atan = pos 6
scalar_function_number ScalarFunction.exp = pos 7
scalar_function_number ScalarFunction.log = pos 8
scalar_function_number ScalarFunction.log2 = pos 9
scalar_function_number ScalarFunction.log10 = pos 10
scalar_function_number ScalarFunction.floor = pos 11
scalar_function_number ScalarFunction.ceil = pos 12
scalar_function_number ScalarFunction.round = pos 13
scalar_function_number ScalarFunction.trunc = pos 14
scalar_function_number ScalarFunction.abs = pos 15
scalar_function_number ScalarFunction.signum = pos 16
scalar_function_number ScalarFunction.length = pos 17
scalar_function_number ScalarFunction.concat = pos 18
scalar_function_number ScalarFunction.lower = pos 19
scalar_function_number ScalarFunction.upper = pos 20
scalar_function_number ScalarFunction.trim = pos 21
scalar_function_number ScalarFunction.ltrim = pos 22
scalar_function_number ScalarFunction.rtrim = pos 23
scalar_function_number ScalarFunction.totimestamp = pos 24
scalar_function_number ScalarFunction.array = pos 25
scalar_function_number ScalarFunction.nullif = pos 26
scalar_function_number ScalarFunction.datetrunc = pos 27
scalar_function_number ScalarFunction.md5 = pos 28
scalar_function_number ScalarFunction.sha224 = pos 29
scalar_function_number ScalarFunction.sha256 = pos 30
scalar_function_number ScalarFunction.sha384 = pos 31
scalar_function_number ScalarFunction.sha512 = pos 32

-- `into`: the variants of the message have the names and the order of DataFusion's.
abbrev pub aggregate_function_number : AggregateFunction → ℤ
aggregate_function_number AggregateFunction.min = pos 0
aggregate_function_number AggregateFunction.max = pos 1
aggregate_function_number AggregateFunction.sum = pos 2
aggregate_function_number AggregateFunction.avg = pos 3
aggregate_function_number AggregateFunction.count = pos 4

unfoldable pub ScalarFunction_try_from : ExprDebug → BuiltinScalarFunction → Result ScalarFunction
ScalarFunction_try_from debug BuiltinScalarFunction.sqrt = ok ScalarFunction.sqrt
ScalarFunction_try_from debug BuiltinScalarFunction.sin = ok ScalarFunction.sin
ScalarFunction_try_from debug BuiltinScalarFunction.cos = ok ScalarFunction.cos
ScalarFunction_try_from debug BuiltinScalarFunction.tan = ok ScalarFunction.tan
ScalarFunction_try_from debug BuiltinScalarFunction.asin = ok ScalarFunction.asin
ScalarFunction_try_from debug BuiltinScalarFunction.acos = ok ScalarFunction.acos
ScalarFunction_try_from debug BuiltinScalarFunction.atan = ok ScalarFunction.atan
ScalarFunction_try_from debug BuiltinScalarFunction.exp = ok ScalarFunction.exp
ScalarFunction_try_from debug BuiltinScalarFunction.log = ok ScalarFunction.log
ScalarFunction_try_from debug BuiltinScalarFunction.log10 = ok ScalarFunction.log10
ScalarFunction_try_from debug BuiltinScalarFunction.floor = ok ScalarFunction.floor
ScalarFunction_try_from debug BuiltinScalarFunction.ceil = ok ScalarFunction.ceil
ScalarFunction_try_from debug BuiltinScalarFunction.round = ok ScalarFunction.round
ScalarFunction_try_from debug BuiltinScalarFunction.trunc = ok ScalarFunction.trunc
ScalarFunction_try_from debug BuiltinScalarFunction.abs = ok ScalarFunction.abs
ScalarFunction_try_from debug BuiltinScalarFunction.length = ok ScalarFunction.length
ScalarFunction_try_from debug BuiltinScalarFunction.concat = ok ScalarFunction.concat
ScalarFunction_try_from debug BuiltinScalarFunction.lower = ok ScalarFunction.lower
ScalarFunction_try_from debug BuiltinScalarFunction.upper = ok ScalarFunction.upper
ScalarFunction_try_from debug BuiltinScalarFunction.trim = ok ScalarFunction.trim
ScalarFunction_try_from debug BuiltinScalarFunction.ltrim = ok ScalarFunction.ltrim
ScalarFunction_try_from debug BuiltinScalarFunction.rtrim = ok ScalarFunction.rtrim
ScalarFunction_try_from debug BuiltinScalarFunction.to_timestamp = ok ScalarFunction.totimestamp
ScalarFunction_try_from debug BuiltinScalarFunction.array = ok ScalarFunction.array
ScalarFunction_try_from debug BuiltinScalarFunction.null_if = ok ScalarFunction.nullif
ScalarFunction_try_from debug BuiltinScalarFunction.date_trunc = ok ScalarFunction.datetrunc
ScalarFunction_try_from debug BuiltinScalarFunction.md5 = ok ScalarFunction.md5
ScalarFunction_try_from debug BuiltinScalarFunction.sha224 = ok ScalarFunction.sha224
ScalarFunction_try_from debug BuiltinScalarFunction.sha256 = ok ScalarFunction.sha256
ScalarFunction_try_from debug BuiltinScalarFunction.sha384 = ok ScalarFunction.sha384
ScalarFunction_try_from debug BuiltinScalarFunction.sha512 = ok ScalarFunction.sha512
ScalarFunction_try_from debug f =
    err
      (general (codes "logical_plan::to_proto() unsupported scalar function " ++ debug.function f))

-- The functions that the reader of expressions calls to build a function's expression.
unfoldable pub function_read : ScalarFunction → Result BuiltinScalarFunction
function_read ScalarFunction.sqrt = ok BuiltinScalarFunction.sqrt
function_read ScalarFunction.sin = ok BuiltinScalarFunction.sin
function_read ScalarFunction.cos = ok BuiltinScalarFunction.cos
function_read ScalarFunction.tan = ok BuiltinScalarFunction.tan
function_read ScalarFunction.atan = ok BuiltinScalarFunction.atan
function_read ScalarFunction.exp = ok BuiltinScalarFunction.exp
function_read ScalarFunction.log2 = ok BuiltinScalarFunction.log2
function_read ScalarFunction.log10 = ok BuiltinScalarFunction.log10
function_read ScalarFunction.floor = ok BuiltinScalarFunction.floor
function_read ScalarFunction.ceil = ok BuiltinScalarFunction.ceil
function_read ScalarFunction.round = ok BuiltinScalarFunction.round
function_read ScalarFunction.trunc = ok BuiltinScalarFunction.trunc
function_read ScalarFunction.abs = ok BuiltinScalarFunction.abs
function_read ScalarFunction.signum = ok BuiltinScalarFunction.signum
function_read ScalarFunction.length = ok BuiltinScalarFunction.length
function_read ScalarFunction.lower = ok BuiltinScalarFunction.lower
function_read ScalarFunction.upper = ok BuiltinScalarFunction.upper
function_read ScalarFunction.trim = ok BuiltinScalarFunction.trim
function_read ScalarFunction.ltrim = ok BuiltinScalarFunction.ltrim
function_read ScalarFunction.rtrim = ok BuiltinScalarFunction.rtrim
function_read ScalarFunction.sha224 = ok BuiltinScalarFunction.sha224
function_read ScalarFunction.sha256 = ok BuiltinScalarFunction.sha256
function_read ScalarFunction.sha384 = ok BuiltinScalarFunction.sha384
function_read ScalarFunction.sha512 = ok BuiltinScalarFunction.sha512
function_read f =
    err (general (codes "Protobuf deserialization error: Unsupported scalar function"))

-- The arms of the match on an operator's text.
unfoldable pub operators : List (Text × Operator)
operators =
    (codes "And", Operator.and)
    ∷ (codes "Or", Operator.or)
    ∷ (codes "Eq", Operator.eq)
    ∷ (codes "NotEq", Operator.not_eq)
    ∷ (codes "LtEq", Operator.lt_eq)
    ∷ (codes "Lt", Operator.lt)
    ∷ (codes "Gt", Operator.gt)
    ∷ (codes "GtEq", Operator.gt_eq)
    ∷ (codes "Plus", Operator.plus)
    ∷ (codes "Minus", Operator.minus)
    ∷ (codes "Multiply", Operator.multiply)
    ∷ (codes "Divide", Operator.divide)
    ∷ (codes "Like", Operator.like)
    ∷ []

unfoldable pub first_match {ℓ} : {A : Type ℓ} → Text → List (Text × A) → Option A
unfolding text_eq
first_match text [] = none
first_match text ((pattern_text, a) ∷ arms) =
    let rest = first_match text arms in if text_eq text pattern_text then some a else rest

unfoldable pub from_proto_binary_op : ExprDebug → Text → Result Operator
unfolding first_match operators
from_proto_binary_op debug op =
    required (first_match op operators)
      (codes "Unsupported binary operator '" ++ debug.text op ++ codes "'")
