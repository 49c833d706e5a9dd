-- ===== src/Planner/Total.antt =====
-- The planner of rust/scheduler/src/planner.rs returns stages for every plan whose operators take
-- new children.
use ballista.Prelude.{
  ap, ◌∙◌, ℕ, ◌+◌, ◌≤◌, ◌<◌, List, [], ◌∷◌, ◌++◌, ◌==◌, ◌≡◌, refl, arith, inl, inr, Bool-cases,
}
use ballista.Text.{Text}
use ballista.Error.{ok}
use ballista.Error.Returns.{Returns, Returns-ok, Returns-bind}
use ballista.Plan.{
  ExecutionPlan, query_stage, shuffle_reader, unresolved_shuffle, operator, Plans, nil, cons,
  schema, DataFusion, OpKind, merge, hash_join, other, hash_aggregate, partial, final, length_plans,
  partition_count, with_new_children,
}
use ballista.Planner.{
  QueryStage, DistributedPlanner, shuffle_of, stage_children, repartition, merge_stage,
  keep_children, cut, plan_query_stages_internal, plan_children, plan_query_stages,
}

module _ {Op Schema : Type 0} (df : DataFusion Op Schema) where
  abbrev pub schemas : Plans Op Schema → List Schema
  schemas nil = []
  schemas (cons p ps) = schema df p ∷ schemas ps

  -- A plan takes new children with the schemas of those it has, and keeps its schema.
  abbrev TakesChildren : ExecutionPlan Op Schema → Plans Op Schema → Type 0
  TakesChildren plan old =
      (ps : Plans Op Schema)
      → schemas ps ≡ schemas old
      → (p : ExecutionPlan Op Schema) × (with_new_children df plan ps ≡ ok p)
        × (schema df p ≡ schema df plan)

  -- Every operator of the plan takes new children with the schemas of those it has, and keeps its
  -- schema, and a merge has one child.
  unfoldable mutual
    pub TakesNewChildren : ExecutionPlan Op Schema → Type 0
    TakesNewChildren (query_stage job i child) = TakesNewChildren child
    TakesNewChildren (shuffle_reader locations s) = Unit
    TakesNewChildren (unresolved_shuffle ids s count) = Unit
    TakesNewChildren (operator op inputs) =
        ((ps : Plans Op Schema)
          → schemas ps ≡ schemas inputs
          → (op' : Op) × (df.rebuild op ps ≡ ok op')
            × (df.op_schema op' ps ≡ df.op_schema op inputs))
        × (df.kind op ≡ merge → length_plans inputs ≤ 1)
        × TakesNewChildrenIn inputs

    pub TakesNewChildrenIn : Plans Op Schema → Type 0
    TakesNewChildrenIn nil = Unit
    TakesNewChildrenIn (cons p ps) = TakesNewChildren p × TakesNewChildrenIn ps

  module _ (job_id : Text) where
    stage_children-Returns :
        (inputs : Plans Op Schema) (s : DistributedPlanner)
        → Returns (λ r t. schemas r.0 ≡ schemas inputs) (stage_children df job_id inputs s)
    unfolding stage_children shuffle_of schema
    stage_children-Returns nil s = Returns-ok _ _ refl
    stage_children-Returns (cons child rest) s =
        Returns-bind (stage_children df job_id rest) _ _ (stage_children-Returns rest _)
          λ r t h. Returns-ok _ _ (ap (◌∷◌ (schema df child)) h)

    -- The plan that is returned has the schema of the plan.
    abbrev KeepsSchema :
        ExecutionPlan Op Schema
        → ExecutionPlan Op Schema × List (QueryStage Op Schema)
        → DistributedPlanner
        → Type 0
    KeepsSchema plan r t = schema df r.0 ≡ schema df plan

    module _ (plan : ExecutionPlan Op Schema) (old : Plans Op Schema)
        (takes : TakesChildren plan old) (stages : List (QueryStage Op Schema))
        (s : DistributedPlanner) where
      keep_children-Returns :
          (inputs : Plans Op Schema)
          → schemas inputs ≡ schemas old
          → Returns (KeepsSchema plan) (keep_children df job_id plan inputs stages s)
      unfolding keep_children
      keep_children-Returns inputs e =
          let (p, made, same) = takes inputs e in rw made (Returns-ok _ _ same)

      repartition-Returns :
          (inputs : Plans Op Schema)
          → schemas inputs ≡ schemas old
          → Returns (KeepsSchema plan) (repartition df job_id plan inputs stages s)
      unfolding repartition
      repartition-Returns inputs e =
          Returns-bind (stage_children df job_id inputs) _ s (stage_children-Returns inputs s)
            λ r t h. let (p, made, same) = takes r.0 (h ∙ e) in rw made (Returns-ok _ _ same)

      merge_stage-Returns :
          (child : ExecutionPlan Op Schema)
          → schemas (cons child nil) ≡ schemas old
          → Returns (KeepsSchema plan) (merge_stage df job_id plan child stages s)
      unfolding merge_stage shuffle_of schema
      merge_stage-Returns child e =
          let stage : QueryStage Op Schema = record {
            job_id = job_id;
            stage_id = s.next_stage_id + 1;
            child = child;
          } in
          let (p, made, same) = takes (cons (shuffle_of df job_id stage) nil) e in
          rw made (Returns-ok _ _ same)

    cut-Returns :
        (kind : OpKind) (plan : ExecutionPlan Op Schema) (old inputs : Plans Op Schema)
        (stages : List (QueryStage Op Schema)) (s : DistributedPlanner)
        → TakesChildren plan old
        → schemas inputs ≡ schemas old
        → 0 < length_plans old
        → (kind ≡ merge → length_plans old ≤ 1)
        → Returns (KeepsSchema plan) (cut df job_id kind plan old inputs stages s)
    unfolding cut
    cut-Returns merge plan nil inputs stages s takes e z m = absurd (omega (arith, z))
    cut-Returns merge plan (cons child nil) inputs stages s takes e z m =
        merge_stage-Returns plan (cons child nil) takes stages s child refl
    cut-Returns merge plan (cons child (cons p ps)) inputs stages s takes e z m =
        absurd (omega (arith, m refl))
    cut-Returns hash_join plan old inputs stages s takes e z m =
        keep_children-Returns plan old takes stages s inputs e
    cut-Returns (hash_aggregate final) plan old inputs stages s takes e z m =
        repartition-Returns plan old takes stages s inputs e
    cut-Returns (hash_aggregate partial) plan old inputs stages s takes e z m =
        keep_children-Returns plan old takes stages s inputs e
    cut-Returns other plan nil nil stages s takes e z m = absurd (omega (arith, z))
    cut-Returns other plan (cons p ps) nil stages s takes e z m = absurd (ground (arith, e))
    cut-Returns other plan old (cons child rest) stages s takes e z m =
        elim (Bool-cases (partition_count df plan == partition_count df child)) [
          | inl same ↦ rw same (keep_children-Returns plan old takes stages s (cons child rest) e)
          | inr differs ↦
              rw differs (repartition-Returns plan old takes stages s (cons child rest) e)
        ]

    TakesChildren-operator :
        (op : Op) (inputs : Plans Op Schema)
        → TakesNewChildren (operator op inputs)
        → TakesChildren (operator op inputs) inputs
    unfolding with_new_children TakesNewChildren schema
    TakesChildren-operator op inputs h ps e =
        let (op', made, same) = h.0 ps e in (operator op' ps, rw made, same)

    TakesChildren-query_stage :
        (job : Text) (i : ℕ) (child : ExecutionPlan Op Schema)
        → TakesChildren (query_stage job i child) (cons child nil)
    unfolding with_new_children schema
    TakesChildren-query_stage job i child nil e = absurd (ground (arith, e))
    TakesChildren-query_stage job i child (cons p nil) e = (query_stage job i p, refl, cc)
    TakesChildren-query_stage job i child (cons p (cons q ps)) e = absurd (ground (arith, e))

    mutual
      unfolding plan_query_stages_internal TakesNewChildren

      plan_query_stages_internal-Returns :
          (plan : ExecutionPlan Op Schema) (s : DistributedPlanner)
          → TakesNewChildren plan
          → Returns (KeepsSchema plan) (plan_query_stages_internal df job_id plan s)
      plan_query_stages_internal-Returns (query_stage job i child) s h =
          Returns-bind (plan_query_stages_internal df job_id child) _ s
            (plan_query_stages_internal-Returns child s h)
            λ r t k.
              cut-Returns other (query_stage job i child) (cons child nil) (cons r.0 nil) r.1 t
                (TakesChildren-query_stage job i child) (ap (λ sc. sc ∷ []) k) (omega arith)
                (λ e. omega arith)
      plan_query_stages_internal-Returns (shuffle_reader locations sc) s h = Returns-ok _ _ refl
      plan_query_stages_internal-Returns (unresolved_shuffle ids sc n) s h = Returns-ok _ _ refl
      plan_query_stages_internal-Returns (operator op nil) s h = Returns-ok _ _ refl
      plan_query_stages_internal-Returns (operator op (cons child rest)) s h =
          Returns-bind (plan_children df job_id (cons child rest)) _ s
            (plan_children-Returns (cons child rest) s h.2)
            λ r t k.
              cut-Returns (df.kind op) (operator op (cons child rest)) (cons child rest) r.0 r.1 t
                (TakesChildren-operator op (cons child rest) h) k (omega arith) h.1

      plan_children-Returns :
          (inputs : Plans Op Schema) (s : DistributedPlanner)
          → TakesNewChildrenIn inputs
          → Returns (λ r t. schemas r.0 ≡ schemas inputs) (plan_children df job_id inputs s)
      plan_children-Returns nil s h = Returns-ok _ _ refl
      plan_children-Returns (cons child rest) s h =
          Returns-bind (plan_query_stages_internal df job_id child) _ s
            (plan_query_stages_internal-Returns child s h.0)
            λ r t k.
              Returns-bind (plan_children df job_id rest) _ t (plan_children-Returns rest t h.1)
                λ r' u k'. Returns-ok _ _ (rw (k, k') refl)

    -- Stages of which the last has the schema of the plan.
    abbrev pub EndsWithSchema :
        ExecutionPlan Op Schema → List (QueryStage Op Schema) → DistributedPlanner → Type 0
    EndsWithSchema plan stages t =
        (before : List (QueryStage Op Schema)) × (last : QueryStage Op Schema) × (stages
          ≡ before ++ last ∷ [])
        × (schema df last.child ≡ schema df plan)

    -- A plan whose operators take new children with the schemas of those they have, and keep their
    -- own schema then, with at most one child below a merge, is cut into stages: the planner
    -- returns stages, at least one, and no error, and the last of them has the schema of the plan.
    pub plan_query_stages-Returns :
        (plan : ExecutionPlan Op Schema) (s : DistributedPlanner)
        → TakesNewChildren plan
        → Returns (EndsWithSchema plan) (plan_query_stages df job_id plan s)
    unfolding plan_query_stages
    plan_query_stages-Returns plan s h =
        Returns-bind (plan_query_stages_internal df job_id plan) _ s
          (plan_query_stages_internal-Returns plan s h) λ r t k. Returns-ok _ _ (r.1, _, refl, k)
