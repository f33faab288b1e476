-- ===== src/Graph/Operations/Versions/Revising.antt =====
-- The handlers that revise a node take the version that the request expects, and pass it.
use proofgraph.Base.{
  ℕ, ◌+◌, ◌≡◌, ◌∙◌, refl, sym, ap, subst, String, Bool, true, false, some, List, ok, Option-cases,
  inl, inr,
}
use proofgraph.Base.Checks.{Holds, >>=-Holds, Holds-ok}
use proofgraph.Json.{Json, Fields}
use proofgraph.Graph.Tables.{Node}
use proofgraph.Graph.Queries.{GraphStore, find_node}
use proofgraph.Graph.Operations.Payload.{item, parse_uuid, positive_version}
use proofgraph.Graph.Operations.Rows.{
  Platform, Supply, locked_node, check_version, delete_node_row, update_node,
}
use proofgraph.Graph.Operations.Changes.{expected_node, semantic_node_changes, revised}
use proofgraph.Graph.Operations.Nodes.{delete_node}
use proofgraph.Graph.Operations.Assumptions.{replace_assumption, replaced}
use proofgraph.Graph.Operations.Support.{reviewed}
use proofgraph.Graph.Operations.Review.{reject_evidence}
use proofgraph.Graph.Operations.Apply.{handle}
use proofgraph.Graph.Operations.Effects.Finding.{
  find_node-found, positive_version-num, check_version-equal,
}
use proofgraph.Graph.Operations.Versions.{Passed, Passed-update_node, Passed-delete}

-- The operations that expect a version of a node and revise it.
pub data Revising : String → Type 0 where
  updates : Revising "UPDATE_NODE"
  patches : Revising "PATCH_NODE_METADATA"
  deletes : Revising "DELETE_NODE"
  replaces : Revising "REPLACE_ASSUMPTION"
  rejects : Revising "REJECT_EVIDENCE"

-- The request names a node, and the version that it expects.
abbrev pub Targets : Platform → Fields → ℕ → ℕ → Type 0
Targets p payload id version =
    (value : Json) × (item "node_id" payload ≡ ok value)
    × (parse_uuid p.uuid_of value ≡ ok id)
    × (item "expected_version" payload ≡ ok (Json.num version))

-- The node was there in the version, and the version is passed afterwards.
abbrev pub Revised : ℕ → ℕ → ℕ → GraphStore → GraphStore → Type 0
Revised canvas id version g after =
    (n : Node) × (find_node canvas id g.nodes ≡ some n)
    × (n.version ≡ version)
    × Passed canvas id (version + 1) after.nodes

module _ (p : Platform) (supply : Supply) (canvas : ℕ) (g : GraphStore) (payload : Fields)
    (id version : ℕ) (target : Targets p payload id version) where
  -- The row that a request has locked, in the version that it expects.
  abbrev IsTarget : Node → Type 0
  IsTarget n = (find_node canvas id g.nodes ≡ some n) × (n.id ≡ id) × (n.version ≡ version)

  locked_node-id :
      (value : Json)
      → item "node_id" payload ≡ ok value
      → Holds
          (λ (n : Node). (find_node canvas id g.nodes ≡ some n) × (n.id ≡ id))
          (locked_node p canvas g value)
  unfolding locked_node
  locked_node-id value e = >>=-Holds _ _ _ λ i h.
      let (named, e', h', expects) = target in
      let same : value ≡ named = cc in
      let found : i ≡ id = cc in
      elim (Option-cases (find_node canvas i g.nodes)) [
        | inl k ↦ rw k tt
        | inr (n, k) ↦ rw k (
          subst (λ j. find_node canvas j g.nodes ≡ some n) found k,
          (find_node-found canvas i g.nodes n k).0 ∙ found,
        )
      ]

  locked-IsTarget :
      (value wanted : Json) (n : Node) (expected : ℕ) (t : Unit {0})
      → item "node_id" payload ≡ ok value
      → locked_node p canvas g value ≡ ok n
      → item "expected_version" payload ≡ ok wanted
      → positive_version wanted ≡ ok expected
      → check_version n.version expected ≡ ok t
      → IsTarget n
  locked-IsTarget value wanted n expected t e locked k l m =
      let (found, same) = Holds-ok _ _ n (locked_node-id value e) locked in
      let (named, e', h', expects) = target in
      let num = Holds-ok _ _ expected (positive_version-num wanted) l in
      let equal =
        Holds-ok (λ t. n.version ≡ expected) _ t (check_version-equal n.version expected) m in
      let current : expected ≡ version = cc in (found, same, equal ∙ current)

  expected_node-IsTarget : Holds IsTarget (expected_node p canvas g payload)
  unfolding expected_node
  expected_node-IsTarget = >>=-Holds _ _ _ λ value e. >>=-Holds _ _ _ λ n locked.
      >>=-Holds _ _ _ λ wanted k. >>=-Holds _ _ _ λ expected l.
        >>=-Holds _ _ _ λ t m. locked-IsTarget value wanted n expected t e locked k l m

  -- A write on the target that raises the version.
  write-Revised :
      (n : Node) (write : Node → Node) (nodes : List Node)
      → IsTarget n
      → ((m : Node) → ((write m).id ≡ m.id) × ((write m).version ≡ n.version + 1))
      → Revised canvas id version g (record g { nodes = update_node n.id write nodes })
  write-Revised n write nodes (found, same, current) k = (
    n,
    found,
    current,
    subst (λ i. Passed canvas id (version + 1) (update_node i write nodes)) (sym same)
        (Passed-update_node canvas id (version + 1) write nodes
          (λ m. ((k m).0, (k m).1 ∙ ap (λ v. v + 1) current))),
  )

  pub semantic_node_changes-Revised :
      (metadata_only : Bool)
      → Holds
          (λ (out : Fields × GraphStore). Revised canvas id version g out.1)
          (semantic_node_changes metadata_only p supply canvas g payload)
  unfolding semantic_node_changes revised
  semantic_node_changes-Revised metadata_only = >>=-Holds _ _ _ λ a e. >>=-Holds _ _ _ λ n expected.
      >>=-Holds _ _ _ λ changes e. >>=-Holds _ _ _ λ b e. >>=-Holds _ _ _ λ c e.
        >>=-Holds _ _ _ λ d e. >>=-Holds _ _ _ λ f e. >>=-Holds _ _ _ λ patch e.
          >>=-Holds _ _ _ λ root e. >>=-Holds _ _ _ λ title e. >>=-Holds _ _ _ λ body e.
            write-Revised n _ g.nodes (Holds-ok IsTarget _ n expected_node-IsTarget expected)
              (λ m. (refl, refl))

  pub delete_node-Revised :
      Holds
        (λ (out : Fields × GraphStore). Revised canvas id version g out.1)
        (delete_node p supply canvas g payload)
  unfolding delete_node delete_node_row
  delete_node-Revised = >>=-Holds _ _ _ λ a e. >>=-Holds _ _ _ λ n expected.
      >>=-Holds _ _ _ λ t passed.
        let (found, same, current) = Holds-ok IsTarget _ n expected_node-IsTarget expected in
        (
          n,
          found,
          current,
          subst (λ i. Passed canvas id (version + 1) (delete_node_row i g).nodes) (sym same)
              (Passed-delete canvas id (version + 1) g.nodes),
        )

  pub replace_assumption-Revised :
      Holds
        (λ (out : Fields × GraphStore). Revised canvas id version g out.1)
        (replace_assumption p supply canvas g payload)
  unfolding replace_assumption replaced
  replace_assumption-Revised = >>=-Holds _ _ _ λ a e. >>=-Holds _ _ _ λ value named.
      >>=-Holds _ _ _ λ n locked. >>=-Holds _ _ _ λ b e. >>=-Holds _ _ _ λ c e.
        >>=-Holds _ _ _ λ wanted k. >>=-Holds _ _ _ λ expected l. >>=-Holds _ _ _ λ t m.
          >>=-Holds _ _ _ λ i e. >>=-Holds _ _ _ λ j e. >>=-Holds _ _ _ λ o e.
            >>=-Holds _ _ _ λ owner e. >>=-Holds _ _ _ λ q e. >>=-Holds _ _ _ λ title e.
              >>=-Holds _ _ _ λ body e.
                write-Revised n _ g.nodes
                  (locked-IsTarget value wanted n expected t named locked k l m) (λ m. (refl, refl))

  pub reject_evidence-Revised :
      Holds
        (λ (out : Fields × GraphStore). Revised canvas id version g out.1)
        (reject_evidence p supply canvas g payload)
  unfolding reject_evidence reviewed
  reject_evidence-Revised = >>=-Holds _ _ _ λ a e. >>=-Holds _ _ _ λ value named.
      >>=-Holds _ _ _ λ n locked. >>=-Holds _ _ _ λ b e. >>=-Holds _ _ _ λ c e.
        >>=-Holds _ _ _ λ d e. >>=-Holds _ _ _ λ wanted k. >>=-Holds _ _ _ λ expected l.
          >>=-Holds _ _ _ λ t m.
            write-Revised n _ _ (locked-IsTarget value wanted n expected t named locked k l m)
              (λ m. (refl, refl))

  pub handle-Revised :
      (op : String)
      → Revising op
      → Holds
          (λ (out : Fields × GraphStore). Revised canvas id version g out.1)
          (handle op p supply canvas g payload)
  unfolding handle
  handle-Revised op updates = semantic_node_changes-Revised false
  handle-Revised op patches = semantic_node_changes-Revised true
  handle-Revised op deletes = delete_node-Revised
  handle-Revised op replaces = replace_assumption-Revised
  handle-Revised op rejects = reject_evidence-Revised
