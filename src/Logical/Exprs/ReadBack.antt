-- ===== src/Logical/Exprs/ReadBack.antt =====
-- The expressions that survive their nodes, and what is read back of them.
use ballista.Prelude.{false, ◌≡◌}
use ballista.Error.{ok}
use ballista.Logical.Types.RoundTrip.{known_type}
use ballista.Logical.Scalars.{OptionalValue}
use ballista.Logical.Scalars.Writing.{ScalarValue_try_from}
use ballista.Logical.Scalars.RoundTrip.{ScalarFits, nullable_scalar}
use ballista.Logical.Functions.{ExprDebug, Operator}
use ballista.Logical.Functions.Laws.{IsNamed, IsReadable, operator_name}
use ballista.Logical.Exprs.{
  Expr, Exprs, OptionalExpr, WhenThens, scalar_variable, scalar_udf, aggregate_udf, not, is_null,
  is_not_null, no_exprs, exprs, some_expr, no_expr, aggregate_function,
}

-- `Debug` of an operator that the reader names is its name.
abbrev pub RendersNames : ExprDebug → Type 0
RendersNames debug = (op : Operator) → IsNamed op → debug.operator op ≡ operator_name op

-- What is read back: literals and types up to what their messages leave out, a function or an
-- aggregate function of its first argument alone, an aggregate function that is not distinct.
unfoldable mutual
  pub read_back : Expr → Expr
  read_back (Expr.alias e alias) = Expr.alias (read_back e) alias
  read_back (Expr.literal v) = Expr.literal (nullable_scalar v)
  read_back (Expr.binary_expr l op r) = Expr.binary_expr (read_back l) op (read_back r)
  read_back (aggregate_function fun args distinct) =
      aggregate_function fun (read_back_first args) false
  read_back (Expr.scalar_function fun args) = Expr.scalar_function fun (read_back_first args)
  read_back (not e) = not (read_back e)
  read_back (is_null e) = is_null (read_back e)
  read_back (is_not_null e) = is_not_null (read_back e)
  read_back (Expr.between e negated low high) =
      Expr.between (read_back e) negated (read_back low) (read_back high)
  read_back (Expr.case e whens otherwise) =
      Expr.case (read_back_optional e) (read_back_whens whens) (read_back_optional otherwise)
  read_back (Expr.cast e t) = Expr.cast (read_back e) (known_type t)
  read_back (Expr.sort e asc nulls_first) = Expr.sort (read_back e) asc nulls_first
  read_back (Expr.negative e) = Expr.negative (read_back e)
  read_back (Expr.in_list e list negated) = Expr.in_list (read_back e) (read_back_all list) negated
  read_back e = e

  pub read_back_first : Exprs → Exprs
  read_back_first no_exprs = no_exprs
  read_back_first (exprs e es) = exprs (read_back e) no_exprs

  pub read_back_all : Exprs → Exprs
  read_back_all no_exprs = no_exprs
  read_back_all (exprs e es) = exprs (read_back e) (read_back_all es)

  pub read_back_optional : OptionalExpr → OptionalExpr
  read_back_optional (some_expr e) = some_expr (read_back e)
  read_back_optional no_expr = no_expr

  pub read_back_whens : WhenThens → WhenThens
  read_back_whens WhenThens.no_whens = WhenThens.no_whens
  read_back_whens (WhenThens.when_then w t whens) =
      WhenThens.when_then (read_back w) (read_back t) (read_back_whens whens)

-- The reader names the operators and builds the functions, on an argument at least, and the
-- literals fit and are written; the writer has no node for variables and a user's functions.
module _ (debug : ExprDebug) where
  unfoldable mutual
    pub IsSupported : Expr → Type 0
    IsSupported (Expr.alias e alias) = IsSupported e
    IsSupported (Expr.literal v) =
        ScalarFits v × ((m : OptionalValue) × (ScalarValue_try_from debug.scalars v ≡ ok m))
    IsSupported (Expr.binary_expr l op r) = IsNamed op × IsSupported l × IsSupported r
    IsSupported (aggregate_function fun args distinct) = FirstSupported args
    IsSupported (Expr.scalar_function fun args) =
        IsReadable fun × FirstSupported args × AllSupported args
    IsSupported (not e) = IsSupported e
    IsSupported (is_null e) = IsSupported e
    IsSupported (is_not_null e) = IsSupported e
    IsSupported (Expr.between e negated low high) =
        IsSupported e × IsSupported low × IsSupported high
    IsSupported (Expr.case e whens otherwise) =
        OptionalSupported e × WhensSupported whens × OptionalSupported otherwise
    IsSupported (Expr.cast e t) = IsSupported e
    IsSupported (Expr.sort e asc nulls_first) = IsSupported e
    IsSupported (Expr.negative e) = IsSupported e
    IsSupported (Expr.in_list e list negated) = IsSupported e × AllSupported list
    IsSupported (scalar_variable names) = ⊥
    IsSupported (scalar_udf fun args) = ⊥
    IsSupported (aggregate_udf fun args) = ⊥
    IsSupported e = Unit

    pub FirstSupported : Exprs → Type 0
    FirstSupported no_exprs = ⊥
    FirstSupported (exprs e es) = IsSupported e

    pub AllSupported : Exprs → Type 0
    AllSupported no_exprs = Unit
    AllSupported (exprs e es) = IsSupported e × AllSupported es

    pub OptionalSupported : OptionalExpr → Type 0
    OptionalSupported (some_expr e) = IsSupported e
    OptionalSupported no_expr = Unit

    pub WhensSupported : WhenThens → Type 0
    WhensSupported WhenThens.no_whens = Unit
    WhensSupported (WhenThens.when_then w t whens) =
        IsSupported w × IsSupported t × WhensSupported whens
