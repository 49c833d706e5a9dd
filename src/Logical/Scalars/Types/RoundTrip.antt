-- ===== src/Logical/Scalars/Types/RoundTrip.antt =====
-- What survives the writing and reading of the types of scalars.
use mathlib.Core.List.{reverse, reverse-cons}
use ballista.Prelude.{
  Bool, true, false, not, ◌==◌, length, Option, none, List, [], ◌∷◌, ◌++◌, append_assoc, append-nil,
  some, ◌≡◌, refl, subst, arith,
}
use ballista.Text.{Text}
use ballista.Error.{Result, ok, bind, bind-eq-ok, ok-injective, required, value_of}
use ballista.Logical.Arrow.{DataType, Field, TimeUnit, field, new_field, name, data_type}
use ballista.Logical.Messages.{from_i32}
use ballista.Logical.Scalars.{
  Debug, ScalarListType, PrimitiveScalarType, primitive_scalar_types, primitive_number, Datatype,
}
use ballista.Logical.Scalars.Types.{
  ScalarListType_try_into, leaf_scalar_type, nested_field, Datatype_try_from, Datatype_try_into,
  PrimitiveScalarType_into, wrap_lists, nested_type, is_empty, refuse_unless,
  is_valid_scalar_type_no_list_check,
}

-- The type with every field of its nested lists allowed to be null.
unfoldable pub nullable_lists : DataType → DataType
nullable_lists (DataType.list (field n t nullable id ordered)) =
    DataType.list (new_field n (nullable_lists t) true)
nullable_lists t = t

abbrev lists_of : List Text → DataType → DataType
lists_of [] t = t
lists_of (n ∷ names) t = DataType.list (new_field n (lists_of names t) true)

pub from_i32-primitive_number :
    (p : PrimitiveScalarType) → from_i32 primitive_scalar_types (primitive_number p) ≡ some p
from_i32-primitive_number PrimitiveScalarType.bool = refl
from_i32-primitive_number _ = refl

wrap_lists-append :
    (xs : List Text) (n : Text) (t : DataType)
    → wrap_lists (xs ++ n ∷ []) t ≡ DataType.list (new_field n (wrap_lists xs t) true)
wrap_lists-append [] n t = refl
wrap_lists-append (x ∷ xs) n t = wrap_lists-append xs n (DataType.list (new_field x t true))

wrap_lists-reverse :
    (names : List Text) (t : DataType) → wrap_lists (reverse names) t ≡ lists_of names t
wrap_lists-reverse [] t = refl
wrap_lists-reverse (n ∷ names) t =
    rw (reverse-cons n names, wrap_lists-append (reverse names) n t, wrap_lists-reverse names t)

nested_type-append :
    (xs : List Text) (n : Text) (t : DataType)
    → nested_type (xs ++ n ∷ []) t ≡ ok (wrap_lists (xs ++ n ∷ []) t)
nested_type-append [] n t = refl
nested_type-append (x ∷ xs) n t = refl

nested_type-reverse :
    (n : Text) (names : List Text) (t : DataType)
    → nested_type (reverse (n ∷ names)) t ≡ ok (lists_of (n ∷ names) t)
nested_type-reverse n names t = rw (
  reverse-cons n names,
  nested_type-append (reverse names) n t,
  wrap_lists-append (reverse names) n t,
  wrap_lists-reverse names t,
)

pub refuse_unless-ok {ℓ} :
    {B : Type ℓ} (b : Bool) (message : Text) (k : Unit → Result B) {x : B}
    → bind (refuse_unless b message) k ≡ ok x
    → k tt ≡ ok x
refuse_unless-ok true message k h = h
refuse_unless-ok false message k h = absurd (ground arith)

module _ (debug : Debug) where
  leaf_scalar_type_lem :
      (val t : DataType) (p : PrimitiveScalarType)
      → leaf_scalar_type debug val t ≡ ok p
      → (PrimitiveScalarType_into p ≡ t) × (nullable_lists t ≡ t)
  unfolding leaf_scalar_type PrimitiveScalarType_into nullable_lists
  leaf_scalar_type_lem val DataType.boolean p h = ground arith
  leaf_scalar_type_lem val (DataType.time64 TimeUnit.second) p h = ground arith
  leaf_scalar_type_lem val (DataType.time64 _) p h = ground arith
  leaf_scalar_type_lem val _ p h = ground arith

  nested_field_lem :
      (f : Field) (names : List Text) (deepest : Field) (out : List Text)
      → nested_field debug f names ≡ ok (deepest, out)
      → (rest : List Text) × (out ≡ names ++ rest)
        × (nullable_lists (data_type f) ≡ lists_of rest (nullable_lists (data_type deepest)))
  unfolding nested_field nullable_lists
  nested_field_lem (field n (DataType.list (field m t b id ordered)) nullable id' ordered') names
        deepest out h =
      let checked = refuse_unless-ok (is_valid_scalar_type_no_list_check t) _ _ h in
      let (rest, parts, same) =
        nested_field_lem (field m t b id ordered) (names ++ m ∷ []) deepest out checked in
      (m ∷ rest, cc (parts, append_assoc names (m ∷ []) rest), rw same)
  nested_field_lem _ names deepest out h = ([], rw append-nil (ground arith), ground arith)

scalar_read :
    (p : PrimitiveScalarType)
    → Datatype_try_into (Datatype.scalar (primitive_number p)) ≡ ok (PrimitiveScalarType_into p)
unfolding Datatype_try_into
scalar_read p = rw (from_i32-primitive_number p)

list_read :
    (n : Text) (names : List Text) (p : PrimitiveScalarType)
    → Datatype_try_into
        (Datatype.list (record { field_names = n ∷ names; deepest_type = primitive_number p }))
      ≡ ok (lists_of (n ∷ names) (PrimitiveScalarType_into p))
unfolding Datatype_try_into
list_read n names p =
    rw (from_i32-primitive_number p) (nested_type-reverse n names (PrimitiveScalarType_into p))

module _ (debug : Debug) where
  leaf_round_trip :
      (t : DataType) (d : Datatype)
      → bind (leaf_scalar_type debug t t) (λ p. ok (Datatype.scalar (primitive_number p))) ≡ ok d
      → Datatype_try_into d ≡ ok (nullable_lists t)
  leaf_round_trip t d h =
      let (p, is_leaf, made) = bind-eq-ok (leaf_scalar_type debug t t) _ h in
      let (same, kept) = leaf_scalar_type_lem debug t t p is_leaf in
      cc (ok-injective made, scalar_read p, same, kept)

  list_round_trip :
      (f deepest : Field) (names : List Text) (p : PrimitiveScalarType)
      → nested_field debug f (name f ∷ []) ≡ ok (deepest, names)
      → leaf_scalar_type debug (DataType.list f) (data_type deepest) ≡ ok p
      → Datatype_try_into
          (Datatype.list (record { field_names = names; deepest_type = primitive_number p }))
        ≡ ok (nullable_lists (DataType.list f))
  unfolding nullable_lists
  list_round_trip (field n t b id ordered) deepest names p found is_leaf =
      let f = field n t b id ordered in
      let (rest, parts, nested) = nested_field_lem debug f (n ∷ []) deepest names found in
      let (same, kept) =
        leaf_scalar_type_lem debug (DataType.list f) (data_type deepest) p is_leaf in
      rw (parts, list_read n rest p, nested, kept, same)

  pub Datatype_round_trip :
      (t : DataType) (d : Datatype)
      → Datatype_try_from debug t ≡ ok d
      → Datatype_try_into d ≡ ok (nullable_lists t)
  unfolding Datatype_try_from
  Datatype_round_trip (DataType.list f) d h =
      let ((deepest, names), found, rest) = bind-eq-ok (nested_field debug f (name f ∷ [])) _ h in
      let (p, is_leaf, made) =
        bind-eq-ok (leaf_scalar_type debug (DataType.list f) (data_type deepest)) _
          (refuse_unless-ok (is_valid_scalar_type_no_list_check (data_type deepest)) _ _ rest) in
      subst (λ d. Datatype_try_into d ≡ ok (nullable_lists (DataType.list f))) (ok-injective made)
        (list_round_trip f deepest names p found is_leaf)
  Datatype_round_trip DataType.null d h = leaf_round_trip DataType.null d h
  Datatype_round_trip t d h = leaf_round_trip t d h

same_list :
    (names : List Text) (leaf : Option PrimitiveScalarType) (m n p q : Text)
    → value_of (
        bind
          (refuse_unless (not (length names == 0)) m)
          λ u. bind (required leaf n) λ t. nested_type (reverse names) (PrimitiveScalarType_into t))
      ≡ value_of (
          bind (refuse_unless (not (is_empty names)) p) λ u.
            bind (required leaf q) λ t. nested_type (reverse names) (PrimitiveScalarType_into t))
same_list [] leaf m n p q = refl
same_list (x ∷ names) none m n p q = ground arith
same_list (x ∷ names) (some t) m n p q = ground arith

-- The two readings of a list type's message read the same type, or both fail.
pub ScalarListType_try_into-agrees :
    (l : ScalarListType)
    → value_of (ScalarListType_try_into l) ≡ value_of (Datatype_try_into (Datatype.list l))
unfolding ScalarListType_try_into Datatype_try_into
ScalarListType_try_into-agrees l =
    same_list l.field_names (from_i32 primitive_scalar_types l.deepest_type) _ _ _ _
