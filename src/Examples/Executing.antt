-- ===== src/Examples/Executing.antt =====
-- Runs of stages on executors.
use ballista.Prelude.{true, List, [], ◌∷◌, map, ◌≡◌, refl, arith}
use ballista.Text.{Text, codes}
use ballista.Error.{ok, panicked}
use ballista.Error.Returns.{Returns}
use ballista.Plan.{operator, nil, hash_aggregate, partial, other}
use ballista.Planner.{QueryStage}
use ballista.Format.{PlanTexts, OperatorText}
use ballista.Format.Prints.{Prints}
use ballista.Planner.Panics.{execute_query_stage-panics}
use ballista.Planner.Execute.{execute_query_stage, Call, finished, JoinAll}
use ballista.Examples.Engine.{Op, Plan, engine, one, scan, shuffled_total, worker}

-- Executors on which every call finishes; they count the calls.
abbrev working : JoinAll (List (Call Op Text)) Op Text
working calls s = (ok (map (λ c. finished) calls), calls)

abbrev partial_total : Plan
partial_total = operator (hash_aggregate partial, 2) (one scan)

abbrev first : QueryStage Op Text
first = record { job_id = codes "j"; stage_id = 1; child = partial_total }

abbrev second : QueryStage Op Text
second = record { job_id = codes "j"; stage_id = 2; child = shuffled_total }

-- 120 bytes.
abbrev debug_text : Text
debug_text =
    codes
      "Exec { schema: Schema { fields: [Field { name, data_type, nullable, dict_id, dict_is_ordered }], metadata: {} }, partiti"

-- All logs are on, and operators are printed by `{:?}`.
abbrev texts : PlanTexts Op Text
texts = record {
  operator_text = λ op inputs. OperatorText.other debug_text;
  reader = λ ls s. debug_text;
  stage = λ job_id stage_id child. debug_text;
  strings = λ ts. codes "[]";
  info = true;
  debug = true;
}

-- An operator whose `Debug` text is short.
abbrev short_texts : PlanTexts Op Text
short_texts = record texts { operator_text = λ op inputs. OperatorText.other (codes "EmptyExec") }

execute_query_stage-panics_example :
    execute_query_stage engine short_texts working (codes "j") 1 scan (worker ∷ []) []
    ≡ (panicked, [])
execute_query_stage-panics_example =
    execute_query_stage-panics engine short_texts working (codes "j") 1 (other, 2) nil (worker ∷ [])
      (codes "EmptyExec") [] refl refl (omega arith)
