-- ===== src/Graph/Operations/Integrity/Serving.antt =====
-- apply_graph_operation keeps the constraints of the graph tables.
use proofgraph.Base.{
  ℕ, ◌+◌, ◌≡◌, refl, true, Option, none, some, List, [], ◌∷◌, map, str_eq, any, All, All-append,
  All-keep, arith, Bool-cases, inl, inr, ==_iff, &&_true, committed,
}
use proofgraph.Base.Checks.{Holds, >>=-Holds, Holds-ok, committed-Holds}
use proofgraph.Json.{Fields}
use proofgraph.Graph.Ids.{member}
use proofgraph.Graph.Tables.{Node, NodeStalenessCause, OriginType, Canvas}
use proofgraph.Graph.Queries.{GraphStore, find_node}
use proofgraph.Graph.Staleness.{InvalidationCapture}
use proofgraph.Graph.Staleness.Marking.{
  node_ids, eligible_nodes, is_selected, is_eligible, mark_nodes, marked, cause_of, apply_staleness,
}
use proofgraph.Graph.Staleness.Marking.Members.{UniqueNodes}
use proofgraph.Graph.Staleness.Marking.Consistency.{apply_staleness-Consistent}
use proofgraph.Graph.Operations.Rows.{Platform, Supply, has_node}
use proofgraph.Graph.Operations.Apply.{GraphTables, Request, settled, perform_operation}
use proofgraph.Graph.Operations.Settling.{mark_stale, stamp_review}
use proofgraph.Graph.Operations.Effects.{Brief, Pointwise, none_left, row, nodes_rewritten}
use proofgraph.Graph.Operations.Effects.Claims.{Own, rows-Own, All-order_by_id}
use proofgraph.Graph.Operations.Effects.Writes.{stamp_nodes-Pointwise}
use proofgraph.Graph.Operations.Effects.Handlers.{Changed}
use proofgraph.Graph.Operations.Effects.Handling.{handle-Changed}
use proofgraph.Graph.Operations.Integrity.{Sound}
use proofgraph.Graph.Operations.Integrity.Rows.{SameRow}
use proofgraph.Graph.Operations.Integrity.Preserving.{rows-Sound, Change-Sound}
use proofgraph.Graph.Operations.Calls.{Call, call, serve, call-Holds}

find_node-has_node :
    (canvas id : ℕ) (nodes : List Node) (n : Node)
    → find_node canvas id nodes ≡ some n
    → has_node canvas id nodes ≡ true
unfolding find_node has_node any
find_node-has_node canvas id [] n h = ground arith
find_node-has_node canvas id (m ∷ nodes) n h = ground (arith, find_node-has_node canvas id nodes n)

eligible_nodes-has_node :
    (canvas : ℕ) (ids : List ℕ) (nodes : List Node)
    → UniqueNodes nodes
    → All (λ (n : Node). has_node canvas n.id nodes ≡ true) (eligible_nodes canvas ids nodes)
unfolding eligible_nodes is_selected
eligible_nodes-has_node canvas ids nodes u =
    let Here = λ (n : Node). has_node canvas n.id nodes ≡ true in
    All-keep Here Here is_eligible _ (λ n k h. h)
      (All-order_by_id Here _ (
        All-keep (Own canvas nodes) Here (is_selected canvas ids) nodes
          (λ (n : Node) k own.
            find_node-has_node canvas n.id nodes n
              (own ((==_iff n.canvas_id canvas).0 (&&_true _ _ k).0)))
          (rows-Own canvas nodes u)))

causes_owned :
    (canvas operation : ℕ) (origin : OriginType) (origin_id now : ℕ) (nodes eligible : List Node)
    → All (λ (n : Node). has_node canvas n.id nodes ≡ true) eligible
    → All
        (λ (c : NodeStalenessCause). has_node c.canvas_id c.node_id nodes ≡ true)
        (map (cause_of canvas operation origin origin_id now) eligible)
unfolding cause_of
causes_owned canvas operation origin origin_id now nodes [] h = tt
causes_owned canvas operation origin origin_id now nodes (n ∷ eligible) h =
    (h.0, causes_owned canvas operation origin origin_id now nodes eligible h.1)

mark_nodes-SameRow :
    (revision now : ℕ) (newly : List ℕ) (nodes xs : List Node)
    → Pointwise (SameRow nodes) xs (mark_nodes revision now newly xs)
unfolding mark_nodes marked
mark_nodes-SameRow revision now newly nodes [] = none_left
mark_nodes-SameRow revision now newly nodes (n ∷ xs) =
    row
      (elim (Bool-cases (member n.id newly)) [
        | inl e ↦ rw e (refl, refl, refl, inl refl)
        | inr e ↦ rw e (refl, refl, refl, inl refl)
      ])
      (mark_nodes-SameRow revision now newly nodes xs)

mark_nodes-Brief :
    (revision now : ℕ) (newly : List ℕ) (xs : List Node)
    → All Brief xs
    → All Brief (mark_nodes revision now newly xs)
unfolding mark_nodes marked
mark_nodes-Brief revision now newly [] h = tt
mark_nodes-Brief revision now newly (n ∷ xs) h = (
  (elim (Bool-cases (member n.id newly)) [ inl e ↦ rw e h.0 | inr e ↦ rw e h.0 ]),
  mark_nodes-Brief revision now newly xs h.1,
)

apply_staleness-Sound :
    (canvas : ℕ) (ids : List ℕ) (operation : ℕ) (origin : OriginType) (origin_id revision now : ℕ)
    (g : GraphStore)
    → Sound g
    → Sound (apply_staleness canvas ids operation origin origin_id revision now g).1
unfolding apply_staleness
apply_staleness-Sound canvas ids operation origin origin_id revision now g s =
    rows-Sound g _ _ s (mark_nodes-SameRow revision now _ g.nodes g.nodes)
      (All-append _ _ _
        (causes_owned canvas operation origin origin_id now g.nodes
          (eligible_nodes canvas ids g.nodes)
          (eligible_nodes-has_node canvas ids g.nodes s.unique_nodes))
        s.owned)
      (apply_staleness-Consistent canvas ids operation origin origin_id revision now g
        s.unique_nodes s.consistent)
      (mark_nodes-Brief revision now _ g.nodes s.brief)

mark_stale-Sound :
    (supply : Supply) (canvas revision : ℕ) (capture : Option InvalidationCapture)
    (eligible : List Node) (g : GraphStore)
    → Sound g
    → Sound (mark_stale supply canvas revision capture eligible g)
unfolding mark_stale
mark_stale-Sound supply canvas revision none eligible g s = s
mark_stale-Sound supply canvas revision (some capture) [] g s = s
mark_stale-Sound supply canvas revision (some capture) (n ∷ eligible) g s =
    apply_staleness-Sound canvas (node_ids (n ∷ eligible)) supply.operation_id
      capture.origin_entity_type capture.origin_entity_id revision supply.now g s

stamp_review-Sound :
    (p : Platform) (canvas operation now : ℕ) (result : Fields) (g : GraphStore)
    → Sound g
    → Sound (stamp_review p canvas operation now result g)
unfolding stamp_review
stamp_review-Sound p canvas operation now result g =
    Change-Sound canvas 0 g _
      (nodes_rewritten _ (stamp_nodes-Pointwise canvas operation now _ _ g.nodes g.nodes))

settled-Sound :
    (p : Platform) (supply : Supply) (canvas : Canvas) (r : Request)
    (capture : Option InvalidationCapture) (eligible : List Node) (result : Fields) (g : GraphStore)
    → Sound g
    → Sound (settled p supply canvas r capture eligible result g)
unfolding settled
settled-Sound p supply canvas r capture eligible result g s =
    mark_stale-Sound supply canvas.id (canvas.revision + 1) capture eligible _
      (elim (Bool-cases (str_eq r.op "REJECT_EVIDENCE")) [
        | inl e ↦ rw e (stamp_review-Sound p canvas.id supply.operation_id supply.now result g s)
        | inr e ↦ rw e s
      ])

pub call-Sound :
    (p : Platform) (c : Call) (t : GraphTables)
    → Sound t.graph
    → Holds (λ (out : Fields × GraphTables). Sound out.1.graph) (call p c t)
unfolding perform_operation
call-Sound p c t s =
    call-Holds p c t _ (λ r canvas old e1 e2 e3 e4. s)
      λ r canvas e1 e2 e3. >>=-Holds _ _ _ λ capture e. >>=-Holds _ _ _ λ answer handled.
        >>=-Holds _ _ _ λ invalidated e.
          settled-Sound p c.supply canvas r capture _ answer.0 answer.1 (
            Change-Sound canvas.id c.supply.fresh_id t.graph answer.1
              (Holds-ok (Changed canvas.id c.supply.fresh_id t.graph) _ answer
                (handle-Changed r.op p c.supply canvas.id t.graph r.canonical s.unique_nodes
                  s.unique_edges)
                handled)
              s)

-- If the graph tables satisfy their constraints, they do after any sequence of calls with any
-- payloads, clocks and fresh ids, successful or not: ids are unique, edges connect nodes of their
-- canvas, only constraints have a branch root and it is a strategy, claim or opportunity of their
-- canvas, causes belong to nodes of their canvas, a node is stale exactly while it has a cause
-- that is not cleared, and the title and the body of a source are at most 500 characters long.
pub serve-Sound :
    (p : Platform) (calls : List Call) (t : GraphTables)
    → Sound t.graph
    → Sound (serve p calls t).graph
unfolding serve
serve-Sound p [] t s = s
serve-Sound p (c ∷ calls) t s =
    serve-Sound p calls (committed t (call p c t))
      (committed-Holds (λ (u : GraphTables). Sound u.graph) t (call p c t) s (call-Sound p c t s))
