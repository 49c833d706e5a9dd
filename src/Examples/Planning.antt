-- ===== src/Examples/Planning.antt =====
-- Runs of the planner.
use ballista.Prelude.{ℕ, List, [], ◌∷◌, map, ◌≡◌, refl, arith, All, range_from}
use ballista.Text.{Text, codes}
use ballista.Error.{ok}
use ballista.Error.Returns.{Returns}
use ballista.Plan.{
  operator, shuffle_reader, unresolved_shuffle, nil, cons, merge, other, hash_aggregate, partial,
  final, find_unresolved_shuffles,
}
use ballista.Plan
use ballista.Serde.{PartitionLocation}
use ballista.Planner.{QueryStage, DistributedPlanner, plan_query_stages, plan_query_stages_internal}
use ballista.Planner.Order.{IsNumbered, IsOrdered}
use ballista.Planner.Shuffles.{locations_of, reader_locations, remove_unresolved_shuffles}
use ballista.Planner.Resolved.{AllRead, remove_unresolved_shuffles_lem}
use ballista.Planner.Chunks.{stage_locations, stage_locations_lem, partition_of, IsAt, location}
use ballista.Planner.Results.{plan_query_stages-IsOrdered, merge_keeps_original, IsMergeOf}
use ballista.Planner.Total.{plan_query_stages-Returns, TakesNewChildren, EndsWithSchema}
use ballista.Examples.Engine.{
  Op, Plan, engine, one, scan, total, merged_total, shuffled_total, worker,
}

abbrev job : Text
job = codes "j"

abbrev planner_at : ℕ → DistributedPlanner
planner_at n = record { executors = worker ∷ []; next_stage_id = n }

abbrev stage_of : ℕ → Plan → QueryStage Op Text
stage_of id plan = record { job_id = job; stage_id = id; child = plan }

abbrev partial_total : Plan
partial_total = operator (hash_aggregate partial, 2) (one scan)

-- The stages of a total: its partial totals, and the total of what they left.
abbrev total_stages : List (QueryStage Op Text)
total_stages = stage_of 1 partial_total ∷ stage_of 2 shuffled_total ∷ []

plan_query_stages-IsOrdered_example :
    IsNumbered (planner_at 0) (planner_at 2) total_stages × IsOrdered engine [] total_stages
unfolding plan_query_stages find_unresolved_shuffles Plan.with_new_children Plan.schema
    Plan.partition_count
plan_query_stages-IsOrdered_example =
    plan_query_stages-IsOrdered engine job total (planner_at 0) (planner_at 2) total_stages refl
      refl

-- The stand-in takes new children, whatever they are.
merged_total-TakesNewChildren : TakesNewChildren engine merged_total
unfolding TakesNewChildren
merged_total-TakesNewChildren = (
  λ ps e. ((merge, 1), refl, refl),
  λ k. omega arith,
  (
    (
      λ ps e. ((hash_aggregate final, 1), refl, refl),
      λ k. omega arith,
      (
        (
          λ ps e. ((hash_aggregate partial, 2), refl, refl),
          λ k. omega arith,
          ((λ ps e. ((other, 2), refl, refl), λ k. omega arith, tt), tt),
        ),
        tt,
      ),
    ),
    tt,
  ),
)

plan_query_stages-Returns_example :
    Returns
      (EndsWithSchema engine job merged_total)
      (plan_query_stages engine job merged_total (planner_at 0))
plan_query_stages-Returns_example =
    plan_query_stages-Returns engine job merged_total (planner_at 0) merged_total-TakesNewChildren

abbrev shuffled_merge : Plan
shuffled_merge = operator (merge, 1) (one (unresolved_shuffle (3 ∷ []) (codes "rows") 1))

-- The stages of the partial total and of the total below a merge are numbered 1 and 2, and the
-- stage that the merge reads is 2 again from the plan as it was.
merge_keeps_original_example : IsMergeOf engine job total (planner_at 0) (
  operator (merge, 1) (one (unresolved_shuffle (2 ∷ []) (codes "rows") 1)),
  stage_of 1 partial_total ∷ stage_of 2 total ∷ [],
)
unfolding plan_query_stages_internal Plan.with_new_children Plan.schema Plan.partition_count
    find_unresolved_shuffles
merge_keeps_original_example =
    merge_keeps_original engine job (merge, 1) total (planner_at 0) (planner_at 2)
      (
        operator (merge, 1) (one (unresolved_shuffle (2 ∷ []) (codes "rows") 1)),
        stage_of 1 partial_total ∷ stage_of 2 total ∷ [],
      )
      refl refl refl

abbrev outputs : List PartitionLocation
outputs = location job 1 worker 0 ∷ location job 1 worker 1 ∷ []

abbrev resolved_total : Plan
resolved_total = operator (hash_aggregate final, 1) (one (shuffle_reader outputs (codes "rows")))

remove_unresolved_shuffles_lem_example :
    (find_unresolved_shuffles resolved_total ≡ [])
    × AllRead
        ((1, outputs) ∷ [])
        (find_unresolved_shuffles shuffled_total)
        (reader_locations resolved_total)
unfolding remove_unresolved_shuffles locations_of Plan.with_new_children
remove_unresolved_shuffles_lem_example =
    remove_unresolved_shuffles_lem engine shuffled_total ((1, outputs) ∷ []) resolved_total refl

stage_locations_lem_example :
    (ls : List PartitionLocation) × (stage_locations job 1 5 (worker ∷ worker ∷ []) ≡ ok ls)
    × (map partition_of ls ≡ range_from 0 5)
    × All (IsAt (worker ∷ worker ∷ [])) ls
stage_locations_lem_example = stage_locations_lem job 1 worker (worker ∷ []) 5
