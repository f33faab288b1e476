-- ===== src/Graph/Operations/Versions/Locking.antt =====
-- apply_graph_operation: of two operations that expect one version of a node only one is applied.
use proofgraph.Base.{
  ℕ, ◌+◌, ◌≡◌, ◌∙◌, refl, sym, subst, false, none, some, List, [], ◌∷◌, ◌==◌, arith, ok, All,
  committed,
}
use proofgraph.Base.Checks.{Holds, >>=-Holds, Holds-map, Holds-ok, committed-Holds}
use proofgraph.Json.{Fields}
use proofgraph.Graph.Tables.{Canvas}
use proofgraph.Graph.Queries.{GraphStore, find_node}
use proofgraph.Graph.Operations.Rows.{Platform}
use proofgraph.Graph.Operations.Apply.{
  GraphTables, Request, canonical_request, find_operation, handle, perform_operation,
}
use proofgraph.Graph.Operations.Calls.{Call, call, serve, call-Holds, find_canvas_id}
use proofgraph.Graph.Operations.Effects.Handlers.{Changed}
use proofgraph.Graph.Operations.Effects.Handling.{handle-Changed}
use proofgraph.Graph.Operations.Integrity.{Sound}
use proofgraph.Graph.Operations.Integrity.Serving.{call-Sound}
use proofgraph.Graph.Operations.Versions.{Passed, Change-Passed, settled-Passed}
use proofgraph.Graph.Operations.Versions.Revising.{Revising, Targets, Revised, handle-Revised}

-- What an operation that is performed leaves of a version, if its handler leaves it.
perform_operation-Passed :
    (p : Platform) (c : Call) (r : Request) (here : Canvas) (t : GraphTables)
    (canvas id version : ℕ)
    → Holds
        (λ (out : Fields × GraphStore). Passed canvas id version out.1.nodes)
        (handle r.op p c.supply here.id t.graph r.canonical)
    → Holds
        (λ (out : Fields × GraphTables). Passed canvas id version out.1.graph.nodes)
        (perform_operation p c.supply here c.actor_type c.actor_id r t)
unfolding perform_operation
perform_operation-Passed p c r here t canvas id version h = >>=-Holds _ _ _ λ capture e.
    >>=-Holds _ _ _ λ answer handled. >>=-Holds _ _ _ λ invalidated e.
      settled-Passed p c.supply here r capture _ answer.0 answer.1 canvas id version (
        Holds-ok (λ (out : Fields × GraphStore). Passed canvas id version out.1.nodes) _ answer h
          handled)

-- A call with another fresh id keeps a version passed, on every canvas.
call-Passed :
    (p : Platform) (c : Call) (t : GraphTables) (canvas id version : ℕ)
    → Sound t.graph
    → (c.supply.fresh_id == id) ≡ false
    → Passed canvas id version t.graph.nodes
    → Holds
        (λ (out : Fields × GraphTables). Passed canvas id version out.1.graph.nodes)
        (call p c t)
call-Passed p c t canvas id version s other h =
    call-Holds p c t _ (λ r d old e1 e2 e3 e4. h)
      λ r d e1 e2 e3. perform_operation-Passed p c r d t canvas id version (
        Holds-map (Changed d.id c.supply.fresh_id t.graph)
          (λ (out : Fields × GraphStore). Passed canvas id version out.1.nodes) _
          (λ out k change.
            Change-Passed d.id c.supply.fresh_id canvas id version t.graph out.1 change other h)
          (handle-Changed r.op p c.supply d.id t.graph r.canonical s.unique_nodes s.unique_edges))

-- No call draws the id.
abbrev pub NotDrawn : ℕ → List Call → Type 0
NotDrawn id calls = All (λ (c : Call). (c.supply.fresh_id == id) ≡ false) calls

serve-Passed :
    (p : Platform) (calls : List Call) (t : GraphTables) (canvas id version : ℕ)
    → Sound t.graph
    → NotDrawn id calls
    → Passed canvas id version t.graph.nodes
    → Passed canvas id version (serve p calls t).graph.nodes
unfolding serve
serve-Passed p [] t canvas id version s drawn h = h
serve-Passed p (c ∷ calls) t canvas id version s drawn h =
    serve-Passed p calls (committed t (call p c t)) canvas id version
      (committed-Holds (λ (u : GraphTables). Sound u.graph) t (call p c t) s (call-Sound p c t s))
      drawn.1
      (committed-Holds (λ (u : GraphTables). Passed canvas id version u.graph.nodes) t (call p c t)
        h (call-Passed p c t canvas id version s drawn.0 h))

-- A request to revise a node that expects a version of it.
abbrev pub Wants : Platform → Call → ℕ → ℕ → Type 0
Wants p c id version =
    (r : Request) × (canonical_request p c.payload ≡ ok r)
    × Revising r.op
    × Targets p r.canonical id version

-- A call under a key that is not used yet passes the version that it expects.
revising-Passed :
    (p : Platform) (c : Call) (t : GraphTables) (id version : ℕ) (w : Wants p c id version)
    → find_operation c.canvas_id c.actor_type (w.0).operation_key t.operations ≡ none
    → Holds
        (λ (out : Fields × GraphTables). Passed c.canvas_id id (version + 1) out.1.graph.nodes)
        (call p c t)
revising-Passed p c t id version (wanted, e, revising, target) new =
    call-Holds p c t _
      (λ r d old e1 e2 e3 e4.
        let same : r ≡ wanted = cc in
        let here = find_canvas_id c.canvas_id t.canvases d e2 in
        let k =
          subst (λ i. find_operation i c.actor_type r.operation_key t.operations ≡ some old) here
            e3 in
        let k' =
          subst
            (λ (q : Request).
              find_operation c.canvas_id c.actor_type q.operation_key t.operations ≡ some old)
            same k in
        let both : some old ≡ none = sym k' ∙ new in λ n f. ground arith)
      λ r d e1 e2 e3.
        let same : wanted ≡ r = cc in
        let here = find_canvas_id c.canvas_id t.canvases d e2 in
        perform_operation-Passed p c r d t c.canvas_id id (version + 1) (
          Holds-map (λ (out : Fields × GraphStore). Revised d.id id version t.graph out.1)
            (λ (out : Fields × GraphStore). Passed c.canvas_id id (version + 1) out.1.nodes) _
            (λ out k (n, found, current, passed).
              subst (λ i. Passed i id (version + 1) out.1.nodes) here passed)
            (handle-Revised p c.supply d.id t.graph r.canonical id version
              (subst (λ (q : Request). Targets p q.canonical id version) same target) r.op
              (subst (λ (q : Request). Revising q.op) same revising)))

-- The tables satisfy their constraints. A call under a new key revises a node, expecting a version
-- of it, and commits. Whatever is called afterwards, as long as no call draws the node's id as its
-- fresh id, a call on the same canvas that revises the node and expects the same version changes
-- nothing: it is refused, or it repeats an earlier request under its key.
pub expected_version_used_once :
    (p : Platform) (c d : Call) (t after : GraphTables) (result : Fields) (calls : List Call)
    (id version : ℕ) (w : Wants p c id version)
    → Sound t.graph
    → find_operation c.canvas_id c.actor_type (w.0).operation_key t.operations ≡ none
    → call p c t ≡ ok (result, after)
    → NotDrawn id calls
    → d.canvas_id ≡ c.canvas_id
    → Wants p d id version
    → Holds
        (λ (out : Fields × GraphTables). out.1 ≡ serve p calls after)
        (call p d (serve p calls after))
unfolding perform_operation
expected_version_used_once p c d t after result calls id version w s new e drawn there
      (wanted, f, revising, target) =
    let later = serve p calls after in
    let passed =
      serve-Passed p calls after c.canvas_id id (version + 1)
        (Holds-ok (λ (out : Fields × GraphTables). Sound out.1.graph) (call p c t) (result, after)
          (call-Sound p c t s) e)
        drawn
        (Holds-ok
          (λ (out : Fields × GraphTables). Passed c.canvas_id id (version + 1) out.1.graph.nodes)
          (call p c t) (result, after) (revising-Passed p c t id version w new) e) in
    call-Holds p d later (λ (out : Fields × GraphTables). out.1 ≡ later)
      (λ r k old e1 e2 e3 e4. refl)
      λ r k e1 e2 e3. >>=-Holds _ _ _ λ capture g. >>=-Holds _ _ _ λ answer handled.
        let same : wanted ≡ r = cc in
        let here = find_canvas_id d.canvas_id later.canvases k e2 ∙ there in
        let (n, found, current, next) =
          Holds-ok (λ (out : Fields × GraphStore). Revised k.id id version later.graph out.1) _
            answer
            (handle-Revised p d.supply k.id later.graph r.canonical id version
              (subst (λ (q : Request). Targets p q.canonical id version) same target) r.op
              (subst (λ (q : Request). Revising q.op) same revising))
            handled in
        let at_least =
          passed n (subst (λ i. find_node i id later.graph.nodes ≡ some n) here found) in
        let absurd : ⊥ = omega (arith, at_least, current) in elim absurd [ ]
