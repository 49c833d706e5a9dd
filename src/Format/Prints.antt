-- ===== src/Format/Prints.antt =====
-- When logging a plan does not fail.
use ballista.Prelude.{ℕ, ◌+◌, Bool, true, false, List, ◌≡◌, refl}
use ballista.Text.{Text}
use ballista.Error.{Result, ok, bind}
use ballista.Serde.{PartitionLocation}
use ballista.Plan.{
  ExecutionPlan, query_stage, shuffle_reader, unresolved_shuffle, operator, Plans, nil, cons,
  DataFusion,
}
use ballista.Format.{PlanTexts, slice, format_operator, format_plan, format_children, logged}

abbrev pub Succeeds : Result Text → Type 0
Succeeds r = (t : Text) × (r ≡ ok t)

-- The logs that are on can be printed: each operator has its line, and the texts that are sliced
-- are long enough.
pub record Prints {Op Schema : Type 0} (df : DataFusion Op Schema) (texts : PlanTexts Op Schema)
    : Type 0 where
  pub operators :
      (op : Op) (inputs : Plans Op Schema)
      → texts.info ≡ true
      → Succeeds (
          format_operator df texts
            (texts.operator_text op inputs)
            (df.op_partition_count op inputs))
  pub readers :
      (ls : List PartitionLocation) (s : Schema)
      → texts.info ≡ true
      → Succeeds (slice 120 (texts.reader ls s))
  pub stages :
      (job_id : Text) (stage_id : ℕ) (child : ExecutionPlan Op Schema)
      → texts.debug ≡ true
      → Succeeds (slice 60 (texts.stage job_id stage_id child))

pub logged_ok :
    (on : Bool) (text : Result Text) → (on ≡ true → Succeeds text) → logged on text ≡ ok tt
logged_ok false text h = refl
logged_ok true text h = rw (h refl).1

bind-ok :
    {A B : Type 0} {m : Result A} {a : A} (f : A → Result B)
    → m ≡ ok a
    → (b : B) × (f a ≡ ok b)
    → (b : B) × (bind m f ≡ ok b)
bind-ok f e (b, h) = (b, rw e h)

module _ {Op Schema : Type 0} (df : DataFusion Op Schema) (texts : PlanTexts Op Schema)
    (prints : Prints df texts) (on : texts.info ≡ true) where
  mutual
    unfolding format_plan format_children

    pub format_plan_ok :
        (p : ExecutionPlan Op Schema) (indent : ℕ) → Succeeds (format_plan df texts p indent)
    format_plan_ok (query_stage job i child) indent =
        bind-ok _ (format_plan_ok child (indent + 1)).1 (_, refl)
    format_plan_ok (shuffle_reader ls s) indent = bind-ok _ (prints.readers ls s on).1 (_, refl)
    format_plan_ok (unresolved_shuffle ids s count) indent = (_, refl)
    format_plan_ok (operator op inputs) indent =
        bind-ok _ (prints.operators op inputs on).1
          (bind-ok _ (format_children_ok inputs (indent + 1)).1 (_, refl))

    format_children_ok :
        (ps : Plans Op Schema) (indent : ℕ)
        → (ts : List Text) × (format_children df texts ps indent ≡ ok ts)
    format_children_ok nil indent = (_, refl)
    format_children_ok (cons p ps) indent =
        bind-ok _ (format_plan_ok p indent).1 (bind-ok _ (format_children_ok ps indent).1 (_, refl))
