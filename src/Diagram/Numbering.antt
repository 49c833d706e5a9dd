-- ===== src/Diagram/Numbering.antt =====
-- The numbers of the nodes in a diagram.
use ballista.Prelude.{
  ℕ, suc, ◌+◌, ◌<◌, ◌≤◌, Bool, true, false, List, [], ◌∷◌, ◌++◌, All, All-append, range_from,
  range_from-append, append-nil, ◌≡◌, refl, arith,
}
use ballista.Text.{Text}
use ballista.Plan.{
  ExecutionPlan, query_stage, shuffle_reader, unresolved_shuffle, operator, Plans, nil, cons,
}
use ballista.Diagram.{
  DiagramKind, Line, entity, inner_edge, shuffle_edge, entity_lines, inner_lines, shuffle_lines,
  build_exec_plan_diagram, draw_child, draw_children,
}

-- The operators of a plan that are drawn: all but the shuffles below others.
abbrev pub unless_shuffle : {Op Schema : Type 0} → ExecutionPlan Op Schema → ℕ → ℕ
unless_shuffle (unresolved_shuffle ids s count) n = 0
unless_shuffle p n = n

unfoldable mutual
  pub node_count : {Op Schema : Type 0} → ExecutionPlan Op Schema → ℕ
  node_count (query_stage job stage child) = suc (unless_shuffle child (node_count child))
  node_count (shuffle_reader locations s) = 1
  node_count (unresolved_shuffle ids s count) = 1
  node_count (operator op inputs) = suc (children_count inputs)

  pub children_count : {Op Schema : Type 0} → Plans Op Schema → ℕ
  children_count nil = 0
  children_count (cons p ps) = unless_shuffle p (node_count p) + children_count ps

-- The ids that lines declare.
abbrev pub entity_ids : List Line → List ℕ
entity_ids [] = []
entity_ids (entity stage_id node_id name ∷ ls) = node_id ∷ entity_ids ls
entity_ids (inner_edge stage_id child_id node_id ∷ ls) = entity_ids ls
entity_ids (shuffle_edge from_stage stage_id node_id ∷ ls) = entity_ids ls

entity_ids-append : (xs ys : List Line) → entity_ids (xs ++ ys) ≡ entity_ids xs ++ entity_ids ys
entity_ids-append [] ys = refl
entity_ids-append (entity s n name ∷ xs) ys = rw (entity_ids-append xs ys)
entity_ids-append (inner_edge s c n ∷ xs) ys = entity_ids-append xs ys
entity_ids-append (shuffle_edge f s n ∷ xs) ys = entity_ids-append xs ys

-- A line is about nodes with ids from `lo` on and below `hi`.
abbrev pub InRange : ℕ → ℕ → ℕ → Type 0
InRange lo hi n = (lo ≤ n) × (n < hi)

abbrev pub LineInRange : ℕ → ℕ → Line → Type 0
LineInRange lo hi (entity stage_id node_id name) = InRange lo hi node_id
LineInRange lo hi (inner_edge stage_id child_id node_id) =
    InRange lo hi child_id × InRange lo hi node_id
LineInRange lo hi (shuffle_edge from_stage stage_id node_id) = InRange lo hi node_id

-- The nodes that a pass declares: `n` from `id` on in the first pass.
abbrev pub declared : Bool → ℕ → ℕ → List ℕ
declared true id n = range_from id n
declared false id n = []

declared-none : (draw : Bool) (id : ℕ) → [] ≡ declared draw id 0
declared-none true id = refl
declared-none false id = refl

-- What is drawn with `n` nodes from the counter `id` on: the counter grows by `n`, the nodes are
-- declared in order, and the lines are in any range that has `node` and those nodes.
abbrev IsDrawn : Bool → ℕ → ℕ → ℕ → List Line → ℕ → Type 0
IsDrawn draw node id n ls next =
    (next ≡ id + n)
    × (entity_ids ls ≡ declared draw id n)
    × ((lo hi : ℕ) → InRange lo hi node → lo ≤ id → id + n ≤ hi → All (LineInRange lo hi) ls)

IsDrawn-append :
    (draw : Bool) (node id n k : ℕ) (xs ys : List Line) (next last : ℕ)
    → IsDrawn draw node id n xs next
    → IsDrawn draw node next k ys last
    → IsDrawn draw node id (n + k) (xs ++ ys) last
IsDrawn-append draw node id n k xs ys next last (grown, ids, lines) (grown', ids', lines') = (
  omega (arith, grown, grown'),
  rw (entity_ids-append xs ys, ids, ids', grown) (joined draw),
  λ lo hi inside low high.
      All-append (LineInRange lo hi) xs ys (lines lo hi inside low (omega (arith, high)))
        (lines' lo hi inside (omega (arith, low, grown)) (omega (arith, high, grown))),
)
  where
    joined :
        (draw : Bool) → declared draw id n ++ declared draw (id + n) k ≡ declared draw id (n + k)
    joined true = range_from-append id n k
    joined false = refl

leaf-IsDrawn :
    (draw : Bool) (stage_id id : ℕ) (name : Text)
    → IsDrawn draw id id 1 (entity_lines draw stage_id id name) (suc id)
leaf-IsDrawn true stage_id id name = (omega arith, refl, λ lo hi inside low high. (inside, tt))
leaf-IsDrawn false stage_id id name = (omega arith, refl, λ lo hi inside low high. tt)

-- The node of a plan before what is drawn below it.
node-IsDrawn :
    (draw : Bool) (stage_id id n : ℕ) (name : Text) (ls : List Line) (next : ℕ)
    → IsDrawn draw id (suc id) n ls next
    → IsDrawn draw id id (suc n) (entity_lines draw stage_id id name ++ ls) next
node-IsDrawn true stage_id id n name ls next (grown, ids, lines) = (
  omega (arith, grown),
  rw ids,
  λ lo hi inside low high. (inside, lines lo hi inside (omega (arith, low)) (omega (arith, high))),
)
node-IsDrawn false stage_id id n name ls next (grown, ids, lines) = (
  omega (arith, grown),
  ids,
  λ lo hi inside low high. lines lo hi inside (omega (arith, low)) (omega (arith, high)),
)

shuffle-IsDrawn :
    (draw : Bool) (stage_id node id : ℕ) (ids : List ℕ)
    → IsDrawn draw node id 0 (shuffle_lines draw stage_id node ids) id
shuffle-IsDrawn true stage_id node id ids = (omega arith, refl, λ lo hi inside low high. tt)
shuffle-IsDrawn false stage_id node id [] = (omega arith, refl, λ lo hi inside low high. tt)
shuffle-IsDrawn false stage_id node id (y ∷ ids) =
    let (grown, none_declared, lines) = shuffle-IsDrawn false stage_id node id ids in
    (grown, none_declared, λ lo hi inside low high. (inside, lines lo hi inside low high))

-- A child with a node at least, and the edge to its parent.
edge-IsDrawn :
    (draw : Bool) (stage_id node id child_id n : ℕ) (ls : List Line) (next : ℕ)
    → child_id ≡ id
    → IsDrawn draw id id (suc n) ls next
    → IsDrawn draw node id (suc n) (ls ++ inner_lines draw stage_id child_id node) next
edge-IsDrawn draw stage_id node id child_id n ls next own (grown, ids, lines) = (
  grown,
  rw (entity_ids-append ls (inner_lines draw stage_id child_id node), ids) (none_declared draw),
  λ lo hi inside low high.
      All-append (LineInRange lo hi) ls (inner_lines draw stage_id child_id node)
        (lines lo hi (low, omega (arith, high)) low high)
        (edge draw lo hi inside (omega (arith, own, low), omega (arith, own, high))),
)
  where
    none_declared :
        (draw : Bool)
        → declared draw id (suc n) ++ entity_ids (inner_lines draw stage_id child_id node)
          ≡ declared draw id (suc n)
    none_declared true = append-nil (range_from id (suc n))
    none_declared false = refl

    edge :
        (draw : Bool) (lo hi : ℕ)
        → InRange lo hi node
        → InRange lo hi child_id
        → All (LineInRange lo hi) (inner_lines draw stage_id child_id node)
    edge true lo hi inside own = ((own, inside), tt)
    edge false lo hi inside own = tt

module _ {Op Schema : Type 0} (kind : Op → DiagramKind) (draw : Bool) (stage_id : ℕ) where
  child-IsDrawn :
      (node id : ℕ) (p : ExecutionPlan Op Schema) (built : List Line × ℕ × ℕ)
      → built.1 ≡ id
      → IsDrawn draw id id (node_count p) built.0 built.2
      → IsDrawn draw node id
          (unless_shuffle p (node_count p))
          (draw_child kind draw stage_id node p built id).0
          (draw_child kind draw stage_id node p built id).1
  unfolding draw_child node_count
  child-IsDrawn node id (unresolved_shuffle ids s count) built own h =
      shuffle-IsDrawn draw stage_id node id ids
  child-IsDrawn node id (query_stage job stage child) built own h =
      edge-IsDrawn draw stage_id node id _ _ _ _ own h
  child-IsDrawn node id (shuffle_reader locations s) built own h =
      edge-IsDrawn draw stage_id node id _ _ _ _ own h
  child-IsDrawn node id (operator op inputs) built own h =
      edge-IsDrawn draw stage_id node id _ _ _ _ own h

  mutual
    unfolding build_exec_plan_diagram draw_children node_count children_count

    pub build-IsDrawn :
        (p : ExecutionPlan Op Schema) (id : ℕ)
        → ((build_exec_plan_diagram kind draw stage_id p id).1 ≡ id)
          × IsDrawn draw id id
              (node_count p)
              (build_exec_plan_diagram kind draw stage_id p id).0
              (build_exec_plan_diagram kind draw stage_id p id).2
    build-IsDrawn (query_stage job stage child) id =
        let (own, h) = build-IsDrawn child (suc id) in
        (refl, node-IsDrawn draw stage_id id _ _ _ _ (child-IsDrawn id (suc id) child _ own h))
    build-IsDrawn (shuffle_reader locations s) id = (refl, leaf-IsDrawn draw stage_id id _)
    build-IsDrawn (unresolved_shuffle ids s count) id = (refl, leaf-IsDrawn draw stage_id id _)
    build-IsDrawn (operator op inputs) id =
        (refl, node-IsDrawn draw stage_id id _ _ _ _ (children-IsDrawn id inputs (suc id)))

    children-IsDrawn :
        (node : ℕ) (ps : Plans Op Schema) (id : ℕ)
        → IsDrawn draw node id
            (children_count ps)
            (draw_children kind draw stage_id node ps id).0
            (draw_children kind draw stage_id node ps id).1
    children-IsDrawn node nil id = (omega arith, declared-none draw id, λ lo hi inside low high. tt)
    children-IsDrawn node (cons p ps) id =
        let (own, h) = build-IsDrawn p id in
        IsDrawn-append draw node id _ _ _ _ _ _ (child-IsDrawn node id p _ own h)
          (children-IsDrawn node ps _)

node_count-positive : {Op Schema : Type 0} (p : ExecutionPlan Op Schema) → 0 < node_count p
unfolding node_count
node_count-positive (query_stage job stage child) = omega arith
node_count-positive (shuffle_reader locations s) = omega arith
node_count-positive (unresolved_shuffle ids s count) = omega arith
node_count-positive (operator op inputs) = omega arith

-- Both passes over a plan number its nodes alike, from the counter's value on, one for each
-- operator that is not a shuffle below another: the first pass declares those ids in order, the
-- second none, and the edges of either are at those nodes.
pub build_exec_plan_diagram_lem :
    {Op Schema : Type 0} (kind : Op → DiagramKind) (draw_entity : Bool) (stage_id : ℕ)
    (plan : ExecutionPlan Op Schema) (id : ℕ)
    → ((build_exec_plan_diagram kind draw_entity stage_id plan id).1 ≡ id)
      × ((build_exec_plan_diagram kind draw_entity stage_id plan id).2 ≡ id + node_count plan)
      × (entity_ids (build_exec_plan_diagram kind draw_entity stage_id plan id).0
          ≡ declared draw_entity id (node_count plan))
      × All
          (LineInRange id (id + node_count plan))
          (build_exec_plan_diagram kind draw_entity stage_id plan id).0
build_exec_plan_diagram_lem kind draw_entity stage_id plan id =
    let (own, (grown, ids, lines)) = build-IsDrawn kind draw_entity stage_id plan id in
    (
      own,
      grown,
      ids,
      lines id (id + node_count plan) (omega arith, omega (arith, node_count-positive plan))
          (omega arith) (omega arith),
    )
