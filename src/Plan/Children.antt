-- ===== src/Plan/Children.antt =====
-- `with_new_children` puts the given children under the plan, as far as its leaves are concerned.
use ballista.Prelude.{ℕ, List, ◌≡◌, arith}
use ballista.Error.{ok, bind-eq-ok}
use ballista.Serde.{PartitionLocation}
use ballista.Plan.{
  ExecutionPlan, query_stage, shuffle_reader, unresolved_shuffle, operator, Plans, nil, cons,
  DataFusion, with_new_children, find_unresolved_shuffles, find_in_children,
}

module _ {Op Schema : Type 0} (df : DataFusion Op Schema) where
  pub find-with_new_children :
      (plan : ExecutionPlan Op Schema) (ps : Plans Op Schema) (p : ExecutionPlan Op Schema)
      → with_new_children df plan ps ≡ ok p
      → find_unresolved_shuffles p ≡ find_in_children ps
  unfolding with_new_children find_unresolved_shuffles
  find-with_new_children (query_stage j i c) nil p h = absurd (ground arith)
  find-with_new_children (query_stage j i c) (cons q nil) p h = ground arith
  find-with_new_children (query_stage j i c) (cons q (cons q' qs)) p h = absurd (ground arith)
  find-with_new_children (shuffle_reader l sc) ps p h = absurd (ground arith)
  find-with_new_children (unresolved_shuffle ids sc n) ps p h = absurd (ground arith)
  find-with_new_children (operator op inputs) ps p h =
      let (op', made, e) = bind-eq-ok (df.rebuild op ps) (λ o. ok (operator o ps)) h in ground arith

  pub with_new_children-reader :
      (l : List PartitionLocation) (sc : Schema) (ps : Plans Op Schema)
      (p : ExecutionPlan Op Schema)
      → with_new_children df (shuffle_reader l sc) ps ≡ ok p
      → ⊥
  unfolding with_new_children
  with_new_children-reader l sc ps p h = ground arith

  pub with_new_children-unresolved :
      (ids : List ℕ) (sc : Schema) (n : ℕ) (ps : Plans Op Schema) (p : ExecutionPlan Op Schema)
      → with_new_children df (unresolved_shuffle ids sc n) ps ≡ ok p
      → ⊥
  unfolding with_new_children
  with_new_children-unresolved ids sc n ps p h = ground arith
