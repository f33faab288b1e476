-- ===== src/Services/Suitable.antt =====
-- proofgraph/generation/services.py: a new run works on a selection that was checked.
use proofgraph.Base.{
  ℕ, ◌≡◌, refl, ap, String, Bool, true, false, not, Option, some, List, [], ◌∷◌, ◌==◌, keep, length,
  ok, Option-cases, inl, inr, arith, All, ==_iff, ||_false,
}
use proofgraph.Base.Checks.{Holds, >>=-Holds, Holds-ok, Holds-map, refuse}
use proofgraph.Graph.Tables.{Canvas, Node}
use proofgraph.Graph.Staleness.Marking.{order_by_id, is_selected}
use proofgraph.Graph.Operations.Effects.Roots.{refuse-passed}
use proofgraph.Demo.{DemoSession}
use proofgraph.Services.Selection.{
  GenerationRunRequest, suits, expected_version, mismatches, validate_explicit_selection,
}
use proofgraph.Services.Creation.{
  Composition, ServiceTables, RunCreated, create_run, new_run, id_texts,
}
use proofgraph.Services.Creating.{insert_run-runs}
use proofgraph.Services.Fitting.{Fits, suits-Fits}
use proofgraph.Tables.{RunStatus, GenerationRun}
use proofgraph.Graph.Ids.{sorted}

-- No version has changed.
unchanged_versions :
    (versions : List (ℕ × ℕ)) (nodes : List Node)
    → Holds
        (λ changed.
          changed ≡ false
          → All (λ (n : Node). expected_version n.id versions ≡ some n.version) nodes)
        (mismatches versions nodes)
unfolding mismatches
unchanged_versions versions [] = λ h. tt
unchanged_versions versions (n ∷ nodes) = elim (Option-cases (expected_version n.id versions)) [
  | inl e ↦ rw (mismatches, e) tt
  | inr (version, e) ↦
      rw (mismatches, e)
        (>>=-Holds _ _ _ λ later k h.
          let (same, rest) = ||_false (not (version == n.version)) later h in
          let equal : version ≡ n.version = ground arith in
          (
            ap some equal,
            Holds-ok
                (λ changed.
                  changed ≡ false
                  → All (λ (n : Node). expected_version n.id versions ≡ some n.version) nodes)
                (mismatches versions nodes) later (unchanged_versions versions nodes) k rest,
          ))
]

-- As many nodes as are named, which suit the operation and have the expected versions.
abbrev pub Suitable : GenerationRunRequest → List Node → Type 0
Suitable r selected =
    (length selected ≡ length r.selected_node_ids)
    × Fits r.operation selected
    × All (λ (n : Node). expected_version n.id r.expected_node_versions ≡ some n.version) selected

-- A test that must hold does.
unrefused :
    (test : Bool) (t : Unit {0})
    → refuse (not test) 422 "invalid_generation_selection" ≡ ok t
    → test ≡ true
unrefused true t e = refl
unrefused false t e = ground arith

validate_explicit_selection-Suitable :
    (r : GenerationRunRequest) (nodes : List Node)
    → Holds (λ t. Suitable r nodes) (validate_explicit_selection r nodes)
unfolding validate_explicit_selection
validate_explicit_selection-Suitable r nodes = >>=-Holds _ _ _ λ t counted.
    >>=-Holds _ _ _ λ changed compared. >>=-Holds _ _ _ λ u same.
      let count : (length nodes == length r.selected_node_ids) ≡ true =
        unrefused (length nodes == length r.selected_node_ids) t counted in
      let kept =
        Holds-ok (λ t. changed ≡ false) _ u
          (refuse-passed changed 422 "invalid_generation_selection") same in
      Holds-map (λ t. not (suits r.operation nodes) ≡ false) (λ t. Suitable r nodes) _
        (λ v e fits. (
          (==_iff (length nodes) (length r.selected_node_ids)).0 count,
          suits-Fits r.operation nodes (ground (arith, fits)),
          Holds-ok
              (λ changed.
                changed ≡ false
                → All
                    (λ (n : Node). expected_version n.id r.expected_node_versions ≡ some n.version)
                    nodes)
              (mismatches r.expected_node_versions nodes) changed
              (unchanged_versions r.expected_node_versions nodes) compared kept,
        ))
        (refuse-passed (not (suits r.operation nodes)) 422 "invalid_generation_selection")

-- What a new run is stored with.
abbrev pub Works : GenerationRunRequest → ServiceTables → (RunCreated × ℕ) × ServiceTables → Type 0
Works r s out =
    (run : GenerationRun) × (out.1.store.runs ≡ run ∷ s.store.runs)
    × (run.selected_node_ids ≡ id_texts (sorted r.selected_node_ids))
    × (run.request.operation ≡ r.operation)
    × (run.status ≡ RunStatus.queued)

-- A run under a new key is created only for as many nodes of the canvas as the request names, each
-- in the version that the request expects, which fit the operation: a goal and constraints, all
-- manual, a strategy, a strategy and claims, or a stale node of a kind that runs make and that a
-- run has made; all but the last are not stale, and all are applied, that is, neither provisional
-- nor rejected, and accepted unless manual. The new row comes before the others; it is queued, for
-- the operation and the ids of the request.
pub create_run-Suitable :
    (comp : Composition) (now id : ℕ) (canvas : Canvas) (r : GenerationRunRequest)
    (d : Option DemoSession) (fingerprint : String) (s : ServiceTables)
    → Holds
        (λ (out : (RunCreated × ℕ) × ServiceTables).
          Suitable r (order_by_id (keep (is_selected canvas.id r.selected_node_ids) s.nodes))
          × Works r s out)
        (create_run comp now id canvas r d fingerprint s)
unfolding create_run new_run
create_run-Suitable comp now id canvas r d fingerprint s =
    let selected = order_by_id (keep (is_selected canvas.id r.selected_node_ids) s.nodes) in
    >>=-Holds _ _ _ λ configuration e. >>=-Holds _ _ _ λ t checked. >>=-Holds _ _ _ λ context e.
      >>=-Holds _ _ _ λ quota e. >>=-Holds _ _ _ λ after e. >>=-Holds _ _ _ λ store inserted. (
        Holds-ok (λ t. Suitable r selected) _ t (validate_explicit_selection-Suitable r selected)
            checked,
        (_, Holds-ok _ _ store (insert_run-runs _ s.store) inserted, refl, refl, refl),
      )
