-- ===== src/Planner/Panics.antt =====
-- Logs of rust/scheduler/src/planner.rs that end the planner.
use ballista.Prelude.{ℕ, zero, suc, ◌<◌, true, List, [], ◌∷◌, length, ◌≡◌, refl, arith}
use ballista.Text.{Text}
use ballista.Error.{panicked}
use ballista.Serde.{ExecutorMeta}
use ballista.Plan.{Plans, operator, DataFusion}
use ballista.Format.{PlanTexts, OperatorText, slice, format_operator, format_plan}
use ballista.Planner.Execute.{JoinAll, execute_query_stage}

slice-panics : (n : ℕ) (text : Text) → length text < n → slice n text ≡ panicked
unfolding slice
slice-panics zero text h = absurd (omega (arith, h))
slice-panics (suc n) [] h = refl
slice-panics (suc n) (c ∷ text) h = rw (slice-panics n text (omega (arith, h)))

-- With the info log on, the execution of a stage whose root is an operator that `format_plan`
-- prints by its `Debug` text, when that is shorter than 120 bytes, panics before any executor is
-- called.
pub execute_query_stage-panics :
    {S Op Schema : Type 0} (df : DataFusion Op Schema) (texts : PlanTexts Op Schema)
    (join_all : JoinAll S Op Schema) (job_id : Text) (stage_id : ℕ) (op : Op)
    (inputs : Plans Op Schema) (executors : List ExecutorMeta) (text : Text) (s : S)
    → texts.info ≡ true
    → texts.operator_text op inputs ≡ OperatorText.other text
    → length text < 120
    → execute_query_stage df texts join_all job_id stage_id (operator op inputs) executors s
      ≡ (panicked, s)
unfolding execute_query_stage format_plan format_operator
execute_query_stage-panics df texts join_all job_id stage_id op inputs executors text s on e short =
    rw (on, e, slice-panics 120 text short)
