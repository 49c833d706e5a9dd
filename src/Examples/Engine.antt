-- ===== src/Examples/Engine.antt =====
-- A small stand-in for DataFusion: an operator is its kind and its partition count, a schema is a
-- name, and new children are always taken.
use ballista.Prelude.{ℕ, [], ◌∷◌}
use ballista.Text.{Text, codes}
use ballista.Error.{ok}
use ballista.Plan.{
  ExecutionPlan, operator, unresolved_shuffle, Plans, nil, cons, DataFusion, OpKind, merge, other,
  hash_aggregate, partial, final,
}
use ballista.Serde.{ExecutorMeta}

abbrev pub Op : Type 0
Op = OpKind × ℕ

abbrev pub Plan : Type 0
Plan = ExecutionPlan Op Text

abbrev pub engine : DataFusion Op Text
engine = record {
  kind = λ op. op.0;
  op_schema = λ op inputs. codes "rows";
  op_partition_count = λ op inputs. op.1;
  rebuild = λ op inputs. ok op;
}

abbrev pub one : Plan → Plans Op Text
one p = cons p nil

-- A scan of two partitions, and a total over it, which is merged.
abbrev pub scan : Plan
scan = operator (other, 2) nil

abbrev pub total : Plan
total = operator (hash_aggregate final, 1) (one (operator (hash_aggregate partial, 2) (one scan)))

abbrev pub merged_total : Plan
merged_total = operator (merge, 1) (one total)

-- The total with its input replaced by the output of stage 1.
abbrev pub shuffled_total : Plan
shuffled_total =
    operator (hash_aggregate final, 1) (one (unresolved_shuffle (1 ∷ []) (codes "rows") 2))

abbrev pub worker : ExecutorMeta
worker = record { id = codes "w"; host = codes "h"; port = 80 }
