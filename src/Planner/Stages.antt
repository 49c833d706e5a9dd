-- ===== src/Planner/Stages.antt =====
-- Stages made one after another by rust/scheduler/src/planner.rs: what holds of them together,
-- and of the loop that makes a stage for each child.
use ballista.Prelude.{
  suc, ◌+◌, List, [], ◌∷◌, ◌++◌, map, append-nil, append_assoc, refl, ap, ◌∙◌, arith, All-append,
  All-split, length, length-append, range_from-append,
}
use mathlib.Core.List.{map-append}
use native.Mathlib.Nat.{suc-add}
use ballista.Text.{Text}
use ballista.Error.Ensures.{Ensures, Ensures-ok, Ensures-bind}
use ballista.Plan.{
  ExecutionPlan, Plans, nil, cons, DataFusion, UnresolvedShuffle, find_unresolved_shuffles,
  find_in_children,
}
use ballista.Planner.{QueryStage, DistributedPlanner, shuffle_of, stage_children}
use ballista.Planner.Order.{
  Produces-last, DependsOn, DependsOn-append, IsOrdered, IsOrdered-append, IsNumbered,
}

module _ {Op Schema : Type 0} where
  pub IsNumbered-none : (s : DistributedPlanner) → IsNumbered {Op = Op} {Schema = Schema} s s []
  IsNumbered-none s = record { executors = refl; next = omega arith; ids = refl }

  pub IsNumbered-append :
      {s t u : DistributedPlanner} (xs ys : List (QueryStage Op Schema))
      → IsNumbered s t xs
      → IsNumbered t u ys
      → IsNumbered s u (xs ++ ys)
  IsNumbered-append {s} {t} {u} xs ys h k = record {
    executors = cc;
    next = omega (arith, length-append xs ys, h.next, k.next);
    ids =
        map-append (λ (q : QueryStage Op Schema). q.stage_id) xs ys
        ∙ ap (λ l. l ++ map (λ (q : QueryStage Op Schema). q.stage_id) ys) h.ids
        ∙ rw (k.ids, h.next, length-append xs ys)
            (rw suc-add at (range_from-append (suc s.next_stage_id) (length xs) (length ys)));
  }

-- What the stages made from one state to the next satisfy, and the shuffles that they leave.
pub record IsPlanned {Op Schema : Type 0} (df : DataFusion Op Schema)
    (before stages : List (QueryStage Op Schema)) (s t : DistributedPlanner)
    (found : List (UnresolvedShuffle Schema)) : Type 0 where
  pub numbered : IsNumbered s t stages
  pub ordered : IsOrdered df before stages
  pub depends : DependsOn df (before ++ stages) found

module _ {Op Schema : Type 0} (df : DataFusion Op Schema) where
  pub IsPlanned-none :
      (before : List (QueryStage Op Schema)) (s : DistributedPlanner)
      (found : List (UnresolvedShuffle Schema))
      → DependsOn df before found
      → IsPlanned df before [] s s found
  IsPlanned-none before s found h = record {
    numbered = IsNumbered-none s;
    ordered = tt;
    depends = rw append-nil h;
  }

  -- Stages made after others, over plans whose shuffles stand side by side.
  pub IsPlanned-append :
      {s t u : DistributedPlanner} (before xs ys : List (QueryStage Op Schema))
      (left right : List (UnresolvedShuffle Schema))
      → IsPlanned df before xs s t left
      → IsPlanned df (before ++ xs) ys t u right
      → IsPlanned df before (xs ++ ys) s u (left ++ right)
  IsPlanned-append {s} {t} {u} before xs ys left right h k = record {
    numbered = IsNumbered-append xs ys h.numbered k.numbered;
    ordered = IsOrdered-append df before xs ys h.ordered k.ordered;
    depends =
        rw (← append_assoc before xs ys) (
          All-append _ left right (DependsOn-append df (before ++ xs) ys left h.depends) k.depends);
  }

module _ {Op Schema : Type 0} (df : DataFusion Op Schema) (job_id : Text) where
  -- One new stage, numbered next, over a plan that needs only what there is.
  pub IsPlanned-one :
      (before : List (QueryStage Op Schema)) (child : ExecutionPlan Op Schema)
      (s : DistributedPlanner)
      → DependsOn df before (find_unresolved_shuffles child)
      → let stage : QueryStage Op Schema = record {
        job_id = job_id;
        stage_id = s.next_stage_id + 1;
        child = child;
      } in
        IsPlanned df before
          (stage ∷ [])
          s
          (record s { next_stage_id = s.next_stage_id + 1 })
          (find_unresolved_shuffles (shuffle_of df job_id stage))
  unfolding shuffle_of find_unresolved_shuffles
  IsPlanned-one before child s h = record {
    numbered = record { executors = refl; next = refl; ids = ground arith };
    ordered = (h, tt);
    depends = ((Produces-last df before _, tt), tt);
  }

  pub stage_children-IsPlanned :
      (before : List (QueryStage Op Schema)) (inputs : Plans Op Schema) (s : DistributedPlanner)
      → DependsOn df before (find_in_children inputs)
      → Ensures
          (λ r t. IsPlanned df before r.1 s t (find_in_children r.0))
          (stage_children df job_id inputs s)
  unfolding stage_children find_unresolved_shuffles
  stage_children-IsPlanned before nil s h = Ensures-ok _ _ (IsPlanned-none df before s [] tt)
  stage_children-IsPlanned before (cons child rest) s h =
      let (first, others) =
        All-split _ (find_unresolved_shuffles child) (find_in_children rest) h in
      let stage : QueryStage Op Schema = record {
        job_id = job_id;
        stage_id = s.next_stage_id + 1;
        child = child;
      } in
      let u : DistributedPlanner = record s { next_stage_id = s.next_stage_id + 1 } in
      Ensures-bind (stage_children df job_id rest) _ u
        (stage_children-IsPlanned (before ++ stage ∷ []) rest u
          (DependsOn-append df before (stage ∷ []) _ others))
        λ r t k. Ensures-ok _ _ (
          IsPlanned-append df before (stage ∷ []) r.1
            (find_unresolved_shuffles (shuffle_of df job_id stage)) (find_in_children r.0)
            (IsPlanned-one before child s first) k)
