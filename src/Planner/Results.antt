-- ===== src/Planner/Results.antt =====
-- What the planner of rust/scheduler/src/planner.rs returns.
use ballista.Prelude.{
  ℕ, zero, suc, ◌+◌, ◌<◌, List, [], ◌∷◌, ◌++◌, map, length, append-nil, range_from, All, All-map,
  ◌≡◌, ◌≢◌, refl, ap, arith,
}
use ballista.Text.{Text}
use ballista.Error.{Result, ok}
use ballista.Error.Ensures.{
  Ensures, Ensures-ok, Ensures-bind, Ensures-lift, Ensures-use, Ensures-outcome,
}
use ballista.Plan.{
  ExecutionPlan, operator, nil, cons, DataFusion, merge, with_new_children, UnresolvedShuffle,
  find_unresolved_shuffles,
}
use ballista.Planner.{
  QueryStage, DistributedPlanner, shuffle_of, plan_query_stages_internal, plan_children,
  plan_query_stages,
}
use ballista.Planner.Order.{IsOrdered, IsNumbered}
use ballista.Plan.Children.{find-with_new_children}
use ballista.Planner.Stages.{IsPlanned-append, IsPlanned-one}
use ballista.Planner.Cuts.{plan_query_stages_internal_planned}

module _ {Op Schema : Type 0} (df : DataFusion Op Schema) (job_id : Text) where
  plan_query_stages_planned :
      (plan : ExecutionPlan Op Schema) (s : DistributedPlanner)
      → find_unresolved_shuffles plan ≡ []
      → Ensures
          (λ stages t. IsNumbered s t stages × IsOrdered df [] stages)
          (plan_query_stages df job_id plan s)
  unfolding plan_query_stages
  plan_query_stages_planned plan s h =
      Ensures-bind (plan_query_stages_internal df job_id plan) _ s
        (plan_query_stages_internal_planned df job_id plan [] s (rw h tt))
        λ r t k.
          let one = IsPlanned-one df job_id r.1 r.0 t k.depends in
          let all =
            IsPlanned-append df [] r.1 _ [] _
              (record { numbered = k.numbered; ordered = k.ordered; depends = tt }) one in
          Ensures-ok _ _ (all.numbered, all.ordered)

  -- When the planner returns stages for a plan without unresolved shuffles, the stages bear
  -- consecutive ids after the planner's last one, the planner keeps its executors, and each
  -- unresolved shuffle in a stage names stages that stand before it in the list, with their
  -- partition counts.
  pub plan_query_stages-IsOrdered :
      (plan : ExecutionPlan Op Schema) (s t : DistributedPlanner)
      (stages : List (QueryStage Op Schema))
      → find_unresolved_shuffles plan ≡ []
      → plan_query_stages df job_id plan s ≡ (ok stages, t)
      → IsNumbered s t stages × IsOrdered df [] stages
  plan_query_stages-IsOrdered plan s t stages h e =
      Ensures-use _ stages t (plan_query_stages_planned plan s h) e

-- No shuffle names the stage.
abbrev pub IsUnread : {Schema : Type 0} → ℕ → List (UnresolvedShuffle Schema) → Type 0
IsUnread id = All (λ u. All (λ j. j ≢ id) u.query_stage_ids)

-- What the planner makes of a `MergeExec` over one child, from the planner's state `s`: the stages
-- that it cut below the merge, and a last stage. That stage holds the child as it was, not the
-- child that the loop over the children has cut, and neither it nor the new plan reads a stage that
-- was cut.
pub record IsMergeOf {Op Schema : Type 0} (df : DataFusion Op Schema) (job_id : Text)
    (child : ExecutionPlan Op Schema) (s : DistributedPlanner)
    (r : ExecutionPlan Op Schema × List (QueryStage Op Schema)) : Type 0 where
  pub new_child : ExecutionPlan Op Schema
  pub cut_stages : List (QueryStage Op Schema)
  pub cut_below : (plan_query_stages_internal df job_id child s).0 ≡ ok (new_child, cut_stages)
  pub last : QueryStage Op Schema
  pub returned : r.1 ≡ cut_stages ++ last ∷ []
  pub original : last.child ≡ child
  pub reads_last :
      find_unresolved_shuffles r.0 ≡ find_unresolved_shuffles (shuffle_of df job_id last)
  pub unread :
      All
        (λ (c : QueryStage Op Schema).
          IsUnread c.stage_id (find_unresolved_shuffles last.child)
          × IsUnread c.stage_id (find_unresolved_shuffles r.0))
        cut_stages

ids-below :
    {Op Schema : Type 0} (stages : List (QueryStage Op Schema)) (start n : ℕ)
    → map (λ (q : QueryStage Op Schema). q.stage_id) stages ≡ range_from start n
    → All (λ (q : QueryStage Op Schema). q.stage_id < start + n) stages
ids-below [] start n h = tt
ids-below (q ∷ qs) start zero h = absurd (ground (arith, h))
ids-below {Op} {Schema} (q ∷ qs) start (suc n) h =
    let first : q.stage_id ≡ start = cc in
    let rest = ids-below qs (suc start) n cc in
    (
      omega (arith, first),
      All-map (λ (q : QueryStage Op Schema). q.stage_id < suc start + n)
          (λ (q : QueryStage Op Schema). q.stage_id < start + suc n) qs
          (λ q below. omega (arith, below)) rest,
    )

module _ {Op Schema : Type 0} (df : DataFusion Op Schema) (job_id : Text) where
  -- The loop over the children, for one child.
  one_child-Ensures :
      (child : ExecutionPlan Op Schema) (s : DistributedPlanner)
      → find_unresolved_shuffles child ≡ []
      → Ensures
          (λ r t.
            ((c : ExecutionPlan Op Schema) × ((plan_query_stages_internal df job_id child s).0
                ≡ ok (c, r.1)))
            × IsNumbered s t r.1)
          (plan_children df job_id (cons child nil) s)
  unfolding plan_query_stages_internal
  one_child-Ensures child s h =
      Ensures-bind {Q = λ r t. plan_query_stages_internal df job_id child s ≡ (ok r, t)}
        (plan_query_stages_internal df job_id child) _ s (Ensures-outcome _ λ r t e. e)
        λ r t e.
          let made = ap (λ (x : Result _ × DistributedPlanner). x.0) e in
          let planned =
            Ensures-use _ r t (plan_query_stages_internal_planned df job_id child [] s (rw h tt))
              e in
          Ensures-ok _ _ (rw (append-nil r.1) ((r.0, made), planned.numbered))

  merge_ends :
      (op : Op) (child : ExecutionPlan Op Schema) (s : DistributedPlanner)
      → df.kind op ≡ merge
      → find_unresolved_shuffles child ≡ []
      → Ensures
          (λ r t. IsMergeOf df job_id child s r)
          (plan_query_stages_internal df job_id (operator op (cons child nil)) s)
  unfolding plan_query_stages_internal find_unresolved_shuffles
  merge_ends op child s k h =
      Ensures-bind (plan_children df job_id (cons child nil)) _ s (one_child-Ensures child s h)
        λ r t ((c, made), numbered). rw k (
          Ensures-lift (with_new_children df (operator op (cons child nil)) _) _ _ λ p rebuilt.
            let found = find-with_new_children df (operator op (cons child nil)) _ p rebuilt in
            let next : t.next_stage_id ≡ s.next_stage_id + length r.1 = numbered.next in
            Ensures-ok _ _ (record {
              new_child = c;
              cut_stages = r.1;
              cut_below = made;
              last = _;
              returned = refl;
              original = refl;
              reads_last = found;
              unread =
                  All-map _ _ r.1
                    (λ q below. (rw h tt, rw found ((λ e. omega (arith, e, below, next), tt), tt)))
                    (ids-below r.1 (suc s.next_stage_id) (length r.1) numbered.ids);
            }))

  -- When the planner returns for a merge over one child without unresolved shuffles, the stages
  -- that it cut below the merge are those that planning the child returns, and a last stage follows
  -- them. That stage holds the child as it was before planning, the new plan reads that stage
  -- alone, and no stage that was cut is read by either.
  pub merge_keeps_original :
      (op : Op) (child : ExecutionPlan Op Schema) (s t : DistributedPlanner)
      (r : ExecutionPlan Op Schema × List (QueryStage Op Schema))
      → df.kind op ≡ merge
      → find_unresolved_shuffles child ≡ []
      → plan_query_stages_internal df job_id (operator op (cons child nil)) s ≡ (ok r, t)
      → IsMergeOf df job_id child s r
  merge_keeps_original op child s t r k h e = Ensures-use _ r t (merge_ends op child s k h) e
