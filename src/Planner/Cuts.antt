-- ===== src/Planner/Cuts.antt =====
-- The cases of `plan_query_stages_internal` of rust/scheduler/src/planner.rs, and its recursion.
use ballista.Prelude.{◌+◌, List, [], ◌∷◌, ◌++◌, append-nil, inl, inr, All-split, Bool-cases, ◌==◌}
use ballista.Text.{Text}
use ballista.Error.Ensures.{Ensures, Ensures-ok, Ensures-panicked, Ensures-bind, Ensures-lift}
use ballista.Plan.{
  ExecutionPlan, query_stage, shuffle_reader, unresolved_shuffle, operator, Plans, nil, cons,
  DataFusion, OpKind, merge, hash_join, other, hash_aggregate, partial, final, partition_count,
  with_new_children, UnresolvedShuffle, find_unresolved_shuffles, find_in_children,
}
use ballista.Plan.Children.{find-with_new_children}
use ballista.Planner.{
  QueryStage, DistributedPlanner, shuffle_of, stage_children, repartition, merge_stage,
  keep_children, cut, plan_query_stages_internal, plan_children,
}
use ballista.Planner.Order.{DependsOn, DependsOn-append}
use ballista.Planner.Stages.{
  IsPlanned, IsPlanned-none, IsPlanned-append, IsPlanned-one, stage_children-IsPlanned,
}

module _ {Op Schema : Type 0} (df : DataFusion Op Schema) (job_id : Text) where
  -- What each case of the planner ensures of its plan and its stages.
  abbrev pub Cut :
      List (QueryStage Op Schema)
      → DistributedPlanner
      → ExecutionPlan Op Schema × List (QueryStage Op Schema)
      → DistributedPlanner
      → Type 0
  Cut before s r t = IsPlanned df before r.1 s t (find_unresolved_shuffles r.0)

  module _ (before stages : List (QueryStage Op Schema)) (s t : DistributedPlanner)
      (plan : ExecutionPlan Op Schema) where
    keep_children_planned :
        (inputs : Plans Op Schema)
        → IsPlanned df before stages s t (find_in_children inputs)
        → Ensures (Cut before s) (keep_children df job_id plan inputs stages t)
    unfolding keep_children
    keep_children_planned inputs h =
        Ensures-lift (with_new_children df plan inputs) _ t
          λ p made. Ensures-ok _ _ (rw (find-with_new_children df plan inputs p made) h)

    IsPlanned-forget :
        (found : List (UnresolvedShuffle Schema))
        → IsPlanned df before stages s t found
        → IsPlanned df before stages s t []
    IsPlanned-forget found h = record { numbered = h.numbered; ordered = h.ordered; depends = tt }

    repartition_planned :
        (inputs : Plans Op Schema)
        → IsPlanned df before stages s t (find_in_children inputs)
        → Ensures (Cut before s) (repartition df job_id plan inputs stages t)
    unfolding repartition
    repartition_planned inputs h =
        Ensures-bind (stage_children df job_id inputs) _ t
          (stage_children-IsPlanned df job_id (before ++ stages) inputs t h.depends)
          λ r u k. Ensures-lift (with_new_children df plan r.0) _ u λ p made. Ensures-ok _ _ (
            rw (find-with_new_children df plan r.0 p made) (
              IsPlanned-append df before stages r.1 [] (find_in_children r.0) (IsPlanned-forget _ h)
                k))

    merge_stage_planned :
        (child : ExecutionPlan Op Schema) (found : List (UnresolvedShuffle Schema))
        → IsPlanned df before stages s t found
        → DependsOn df before (find_unresolved_shuffles child)
        → Ensures (Cut before s) (merge_stage df job_id plan child stages t)
    unfolding merge_stage find_unresolved_shuffles
    merge_stage_planned child found h d =
        let stage : QueryStage Op Schema = record {
          job_id = job_id;
          stage_id = t.next_stage_id + 1;
          child = child;
        } in
        let shuffle = cons (shuffle_of df job_id stage) nil in
        Ensures-lift (with_new_children df plan shuffle) _
          (record t { next_stage_id = t.next_stage_id + 1 })
          λ p made. Ensures-ok _ _ (
            rw (find-with_new_children df plan shuffle p made) (
              IsPlanned-append df before stages (stage ∷ []) [] (find_in_children shuffle)
                (IsPlanned-forget found h)
                (IsPlanned-one df job_id (before ++ stages) child t
                  (DependsOn-append df before stages _ d))))

    -- Every case, given what the loop over the children ensures.
    cut_planned :
        (kind : OpKind) (old inputs : Plans Op Schema)
        → IsPlanned df before stages s t (find_in_children inputs)
        → DependsOn df before (find_in_children old)
        → Ensures (Cut before s) (cut df job_id kind plan old inputs stages t)
    unfolding cut find_unresolved_shuffles
    cut_planned merge nil inputs h d = Ensures-panicked _
    cut_planned merge (cons child rest) inputs h d =
        merge_stage_planned child (find_in_children inputs) h
          (All-split _ (find_unresolved_shuffles child) (find_in_children rest) d).0
    cut_planned hash_join old inputs h d = keep_children_planned inputs h
    cut_planned (hash_aggregate final) old inputs h d = repartition_planned inputs h
    cut_planned (hash_aggregate partial) old inputs h d = keep_children_planned inputs h
    cut_planned other old nil h d = Ensures-panicked _
    cut_planned other old (cons child rest) h d =
        elim (Bool-cases (partition_count df plan == partition_count df child)) [
          | inl same ↦ rw same (keep_children_planned (cons child rest) h)
          | inr differs ↦ rw differs (repartition_planned (cons child rest) h)
        ]

  mutual
    unfolding plan_query_stages_internal find_unresolved_shuffles

    pub plan_query_stages_internal_planned :
        (plan : ExecutionPlan Op Schema) (before : List (QueryStage Op Schema))
        (s : DistributedPlanner)
        → DependsOn df before (find_unresolved_shuffles plan)
        → Ensures (Cut before s) (plan_query_stages_internal df job_id plan s)
    plan_query_stages_internal_planned (query_stage job i child) before s h =
        Ensures-bind (plan_query_stages_internal df job_id child) _ s
          (plan_query_stages_internal_planned child before s
            (All-split _ (find_unresolved_shuffles child) [] h).0)
          λ r t k.
            cut_planned before r.1 s t (query_stage job i child) other (cons child nil)
              (cons r.0 nil) (rw append-nil k) h
    plan_query_stages_internal_planned (shuffle_reader l sc) before s h =
        Ensures-ok _ _ (IsPlanned-none df before s [] tt)
    plan_query_stages_internal_planned (unresolved_shuffle ids sc n) before s h =
        Ensures-ok _ _ (IsPlanned-none df before s _ h)
    plan_query_stages_internal_planned (operator op nil) before s h =
        Ensures-ok _ _ (IsPlanned-none df before s [] tt)
    plan_query_stages_internal_planned (operator op (cons child rest)) before s h =
        Ensures-bind (plan_children df job_id (cons child rest)) _ s
          (plan_children-IsPlanned (cons child rest) before s h)
          λ r t k.
            cut_planned before r.1 s t (operator op (cons child rest)) (df.kind op)
              (cons child rest) r.0 k h

    pub plan_children-IsPlanned :
        (inputs : Plans Op Schema) (before : List (QueryStage Op Schema)) (s : DistributedPlanner)
        → DependsOn df before (find_in_children inputs)
        → Ensures
            (λ r t. IsPlanned df before r.1 s t (find_in_children r.0))
            (plan_children df job_id inputs s)
    plan_children-IsPlanned nil before s h = Ensures-ok _ _ (IsPlanned-none df before s [] tt)
    plan_children-IsPlanned (cons child rest) before s h =
        let (first, others) =
          All-split _ (find_unresolved_shuffles child) (find_in_children rest) h in
        Ensures-bind (plan_query_stages_internal df job_id child) _ s
          (plan_query_stages_internal_planned child before s first)
          λ r t k.
            Ensures-bind (plan_children df job_id rest) _ t
              (plan_children-IsPlanned rest (before ++ r.1) t
                (DependsOn-append df before r.1 _ others))
              λ r' u k'. Ensures-ok _ _ (
                IsPlanned-append df before r.1 r'.1 (find_unresolved_shuffles r.0)
                  (find_in_children r'.0) k k')
