-- ===== src/Logical/Functions/Laws.antt =====
-- What survives the conversions of operators and functions.
use ballista.Prelude.{some, ◌≡◌, refl, arith, subst}
use ballista.Text.{Text, codes, text_eq}
use ballista.Error.{general, ok, err, ok-injective}
use ballista.Logical.Messages.{from_i32}
use ballista.Logical.Functions.{
  Operator, AggregateFunction, BuiltinScalarFunction, ScalarFunction, ExprDebug, scalar_functions,
  aggregate_functions, scalar_function_number, aggregate_function_number, from_proto_binary_op,
  ScalarFunction_try_from, function_read, first_match, operators,
}

-- The name of an operator, which a derived `Debug` renders.
abbrev pub operator_name : Operator → Text
operator_name Operator.and = codes "And"
operator_name Operator.or = codes "Or"
operator_name Operator.eq = codes "Eq"
operator_name Operator.not_eq = codes "NotEq"
operator_name Operator.lt_eq = codes "LtEq"
operator_name Operator.lt = codes "Lt"
operator_name Operator.gt = codes "Gt"
operator_name Operator.gt_eq = codes "GtEq"
operator_name Operator.plus = codes "Plus"
operator_name Operator.minus = codes "Minus"
operator_name Operator.multiply = codes "Multiply"
operator_name Operator.divide = codes "Divide"
operator_name Operator.like = codes "Like"
operator_name (Operator.unnamed name) = name

-- The operator is one that the reader names.
abbrev pub IsNamed : Operator → Type 0
IsNamed (Operator.unnamed name) = ⊥
IsNamed _ = Unit

pub scalar_function_read :
    (f : ScalarFunction) → from_i32 scalar_functions (scalar_function_number f) ≡ some f
scalar_function_read ScalarFunction.sqrt = refl
scalar_function_read _ = refl

pub aggregate_function_read :
    (f : AggregateFunction) → from_i32 aggregate_functions (aggregate_function_number f) ≡ some f
aggregate_function_read AggregateFunction.min = refl
aggregate_function_read _ = refl

pub from_proto_binary_op-operator_name :
    (debug : ExprDebug) (op : Operator)
    → IsNamed op
    → from_proto_binary_op debug (operator_name op) ≡ ok op
unfolding from_proto_binary_op first_match operators text_eq
from_proto_binary_op-operator_name debug (Operator.unnamed name) h = absurd h
from_proto_binary_op-operator_name debug _ h = refl

-- A function that is written and that the reader can build.
abbrev pub IsReadable : BuiltinScalarFunction → Type 0
IsReadable BuiltinScalarFunction.sqrt = Unit
IsReadable BuiltinScalarFunction.sin = Unit
IsReadable BuiltinScalarFunction.cos = Unit
IsReadable BuiltinScalarFunction.tan = Unit
IsReadable BuiltinScalarFunction.atan = Unit
IsReadable BuiltinScalarFunction.exp = Unit
IsReadable BuiltinScalarFunction.log10 = Unit
IsReadable BuiltinScalarFunction.floor = Unit
IsReadable BuiltinScalarFunction.ceil = Unit
IsReadable BuiltinScalarFunction.round = Unit
IsReadable BuiltinScalarFunction.trunc = Unit
IsReadable BuiltinScalarFunction.abs = Unit
IsReadable BuiltinScalarFunction.length = Unit
IsReadable BuiltinScalarFunction.lower = Unit
IsReadable BuiltinScalarFunction.upper = Unit
IsReadable BuiltinScalarFunction.trim = Unit
IsReadable BuiltinScalarFunction.ltrim = Unit
IsReadable BuiltinScalarFunction.rtrim = Unit
IsReadable BuiltinScalarFunction.sha224 = Unit
IsReadable BuiltinScalarFunction.sha256 = Unit
IsReadable BuiltinScalarFunction.sha384 = Unit
IsReadable BuiltinScalarFunction.sha512 = Unit
IsReadable _ = ⊥

pub function_survives :
    (debug : ExprDebug) (f : BuiltinScalarFunction)
    → IsReadable f
    → (m : ScalarFunction) × (ScalarFunction_try_from debug f ≡ ok m) × (function_read m ≡ ok f)
unfolding ScalarFunction_try_from function_read
function_survives debug BuiltinScalarFunction.sqrt r = (ScalarFunction.sqrt, refl, refl)
function_survives debug BuiltinScalarFunction.sin r = (ScalarFunction.sin, refl, refl)
function_survives debug BuiltinScalarFunction.cos r = (ScalarFunction.cos, refl, refl)
function_survives debug BuiltinScalarFunction.tan r = (ScalarFunction.tan, refl, refl)
function_survives debug BuiltinScalarFunction.atan r = (ScalarFunction.atan, refl, refl)
function_survives debug BuiltinScalarFunction.exp r = (ScalarFunction.exp, refl, refl)
function_survives debug BuiltinScalarFunction.log10 r = (ScalarFunction.log10, refl, refl)
function_survives debug BuiltinScalarFunction.floor r = (ScalarFunction.floor, refl, refl)
function_survives debug BuiltinScalarFunction.ceil r = (ScalarFunction.ceil, refl, refl)
function_survives debug BuiltinScalarFunction.round r = (ScalarFunction.round, refl, refl)
function_survives debug BuiltinScalarFunction.trunc r = (ScalarFunction.trunc, refl, refl)
function_survives debug BuiltinScalarFunction.abs r = (ScalarFunction.abs, refl, refl)
function_survives debug BuiltinScalarFunction.length r = (ScalarFunction.length, refl, refl)
function_survives debug BuiltinScalarFunction.lower r = (ScalarFunction.lower, refl, refl)
function_survives debug BuiltinScalarFunction.upper r = (ScalarFunction.upper, refl, refl)
function_survives debug BuiltinScalarFunction.trim r = (ScalarFunction.trim, refl, refl)
function_survives debug BuiltinScalarFunction.ltrim r = (ScalarFunction.ltrim, refl, refl)
function_survives debug BuiltinScalarFunction.rtrim r = (ScalarFunction.rtrim, refl, refl)
function_survives debug BuiltinScalarFunction.sha224 r = (ScalarFunction.sha224, refl, refl)
function_survives debug BuiltinScalarFunction.sha256 r = (ScalarFunction.sha256, refl, refl)
function_survives debug BuiltinScalarFunction.sha384 r = (ScalarFunction.sha384, refl, refl)
function_survives debug BuiltinScalarFunction.sha512 r = (ScalarFunction.sha512, refl, refl)
function_survives debug _ r = absurd r

-- A function that is written and that the reader cannot build is refused.
pub function_read-refuses :
    (debug : ExprDebug) (f : BuiltinScalarFunction) (m : ScalarFunction)
    → ¬ IsReadable f
    → ScalarFunction_try_from debug f ≡ ok m
    → function_read m
      ≡ err (general (codes "Protobuf deserialization error: Unsupported scalar function"))
unfolding ScalarFunction_try_from function_read
function_read-refuses debug BuiltinScalarFunction.sqrt m r h = absurd (r tt)
function_read-refuses debug BuiltinScalarFunction.sin m r h = absurd (r tt)
function_read-refuses debug BuiltinScalarFunction.cos m r h = absurd (r tt)
function_read-refuses debug BuiltinScalarFunction.tan m r h = absurd (r tt)
function_read-refuses debug BuiltinScalarFunction.atan m r h = absurd (r tt)
function_read-refuses debug BuiltinScalarFunction.exp m r h = absurd (r tt)
function_read-refuses debug BuiltinScalarFunction.log10 m r h = absurd (r tt)
function_read-refuses debug BuiltinScalarFunction.floor m r h = absurd (r tt)
function_read-refuses debug BuiltinScalarFunction.ceil m r h = absurd (r tt)
function_read-refuses debug BuiltinScalarFunction.round m r h = absurd (r tt)
function_read-refuses debug BuiltinScalarFunction.trunc m r h = absurd (r tt)
function_read-refuses debug BuiltinScalarFunction.abs m r h = absurd (r tt)
function_read-refuses debug BuiltinScalarFunction.length m r h = absurd (r tt)
function_read-refuses debug BuiltinScalarFunction.lower m r h = absurd (r tt)
function_read-refuses debug BuiltinScalarFunction.upper m r h = absurd (r tt)
function_read-refuses debug BuiltinScalarFunction.trim m r h = absurd (r tt)
function_read-refuses debug BuiltinScalarFunction.ltrim m r h = absurd (r tt)
function_read-refuses debug BuiltinScalarFunction.rtrim m r h = absurd (r tt)
function_read-refuses debug BuiltinScalarFunction.sha224 m r h = absurd (r tt)
function_read-refuses debug BuiltinScalarFunction.sha256 m r h = absurd (r tt)
function_read-refuses debug BuiltinScalarFunction.sha384 m r h = absurd (r tt)
function_read-refuses debug BuiltinScalarFunction.sha512 m r h = absurd (r tt)
function_read-refuses debug BuiltinScalarFunction.log2 m r h = absurd (ground arith)
function_read-refuses debug BuiltinScalarFunction.signum m r h = absurd (ground arith)
function_read-refuses debug (BuiltinScalarFunction.unnamed name) m r h = absurd (ground arith)
function_read-refuses debug _ m r h =
    subst
      (λ m.
        function_read m
        ≡ err (general (codes "Protobuf deserialization error: Unsupported scalar function")))
      (ok-injective h) refl
