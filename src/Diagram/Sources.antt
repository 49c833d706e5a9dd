-- ===== src/Diagram/Sources.antt =====
-- The stages that a diagram draws edges from.
use ballista.Prelude.{ℕ, suc, false, List, [], ◌∷◌, ◌++◌, append-nil, append_assoc, ◌≡◌, refl}
use ballista.Plan.{
  ExecutionPlan, query_stage, shuffle_reader, unresolved_shuffle, operator, Plans, nil, cons,
  UnresolvedShuffle, find_unresolved_shuffles, find_in_children,
}
use ballista.Diagram.{
  DiagramKind, Line, entity, inner_edge, shuffle_edge, shuffle_lines, build_exec_plan_diagram,
  draw_child, draw_children,
}

-- The stages that lines come from.
abbrev pub sources : List Line → List ℕ
sources [] = []
sources (entity stage_id node_id name ∷ ls) = sources ls
sources (inner_edge stage_id child_id node_id ∷ ls) = sources ls
sources (shuffle_edge from_stage stage_id node_id ∷ ls) = from_stage ∷ sources ls

-- The stages that shuffles name.
abbrev pub named_stages : {Schema : Type 0} → List (UnresolvedShuffle Schema) → List ℕ
named_stages [] = []
named_stages (u ∷ us) = u.query_stage_ids ++ named_stages us

-- A plan that is not an unresolved shuffle itself.
abbrev pub IsDrawable : {Op Schema : Type 0} → ExecutionPlan Op Schema → Type 0
IsDrawable (unresolved_shuffle ids s count) = ⊥
IsDrawable _ = Unit

sources-append : (xs ys : List Line) → sources (xs ++ ys) ≡ sources xs ++ sources ys
sources-append [] ys = refl
sources-append (entity s n name ∷ xs) ys = sources-append xs ys
sources-append (inner_edge s c n ∷ xs) ys = sources-append xs ys
sources-append (shuffle_edge f s n ∷ xs) ys = rw (sources-append xs ys)

named_stages-append :
    {Schema : Type 0} (us vs : List (UnresolvedShuffle Schema))
    → named_stages (us ++ vs) ≡ named_stages us ++ named_stages vs
named_stages-append [] vs = refl
named_stages-append (u ∷ us) vs =
    rw (
      named_stages-append us vs,
      append_assoc u.query_stage_ids (named_stages us) (named_stages vs),
    )

sources-shuffle_lines :
    (stage_id node : ℕ) (ids : List ℕ) → sources (shuffle_lines false stage_id node ids) ≡ ids
sources-shuffle_lines stage_id node [] = refl
sources-shuffle_lines stage_id node (y ∷ ids) = rw (sources-shuffle_lines stage_id node ids)

module _ {Op Schema : Type 0} (kind : Op → DiagramKind) (stage_id : ℕ) where
  sources-draw_child :
      (node id : ℕ) (p : ExecutionPlan Op Schema) (built : List Line × ℕ × ℕ)
      → (IsDrawable p → sources built.0 ≡ named_stages (find_unresolved_shuffles p))
      → sources (draw_child kind false stage_id node p built id).0
        ≡ named_stages (find_unresolved_shuffles p)
  unfolding draw_child find_unresolved_shuffles
  sources-draw_child node id (unresolved_shuffle ids s count) built h =
      rw (append-nil ids) (sources-shuffle_lines stage_id node ids)
  sources-draw_child node id (query_stage job stage child) built h = rw (append-nil built.0) (h tt)
  sources-draw_child node id (shuffle_reader locations s) built h = rw (append-nil built.0) (h tt)
  sources-draw_child node id (operator op inputs) built h = rw (append-nil built.0) (h tt)

  mutual
    unfolding build_exec_plan_diagram draw_children find_unresolved_shuffles find_in_children

    build-sources :
        (p : ExecutionPlan Op Schema) (id : ℕ)
        → IsDrawable p
        → sources (build_exec_plan_diagram kind false stage_id p id).0
          ≡ named_stages (find_unresolved_shuffles p)
    build-sources (query_stage job stage child) id d =
        rw (append-nil (find_unresolved_shuffles child))
          (sources-draw_child id (suc id) child _ (build-sources child (suc id)))
    build-sources (shuffle_reader locations s) id d = refl
    build-sources (unresolved_shuffle ids s count) id d = absurd d
    build-sources (operator op inputs) id d = children-sources id inputs (suc id)

    children-sources :
        (node : ℕ) (ps : Plans Op Schema) (id : ℕ)
        → sources (draw_children kind false stage_id node ps id).0
          ≡ named_stages (find_in_children ps)
    children-sources node nil id = refl
    children-sources node (cons p ps) id =
        let built = build_exec_plan_diagram kind false stage_id p id in
        let drawn = draw_child kind false stage_id node p built id in
        let first = sources-draw_child node id p built (build-sources p id) in
        let rest = children-sources node ps drawn.1 in
        rw (
          sources-append drawn.0 (draw_children kind false stage_id node ps drawn.1).0,
          first,
          rest,
          named_stages-append (find_unresolved_shuffles p) (find_in_children ps),
        )

-- The second pass over a plan that is not itself an unresolved shuffle draws its edges from the
-- stages that the plan's unresolved shuffles name, from left to right, and from no others.
pub relationships_lem :
    {Op Schema : Type 0} (kind : Op → DiagramKind) (stage_id id : ℕ)
    (plan : ExecutionPlan Op Schema)
    → IsDrawable plan
    → sources (build_exec_plan_diagram kind false stage_id plan id).0
      ≡ named_stages (find_unresolved_shuffles plan)
relationships_lem kind stage_id id plan d = build-sources kind stage_id plan id d
