-- ===== src/Graph/Staleness/Marking/Reports.antt =====
-- What apply_staleness reports, and what it writes to the nodes.
use proofgraph.Base.{
  ℕ, ◌+◌, ◌≡◌, ◌≢◌, ◌∙◌, refl, sym, ap, ◌↔◌, ◌⊎◌, inl, inr, Bool, true, false, not, ◌&&◌, Option,
  none, some, List, [], ◌∷◌, ◌==◌, arith, All, All-map, Bool-cases, &&_true, ==_iff, str_eq, eq_iff,
}
use proofgraph.Json.{Json, Fields, get}
use proofgraph.Graph.Ids.{member}
use proofgraph.Graph.Tables.{NodeKind, Node, OriginType}
use proofgraph.Graph.Queries.{GraphStore}
use proofgraph.Graph.Operations.Effects.{Pointwise, none_left, row}
use proofgraph.Graph.Staleness.Marking.Members.{UniqueNodes}
use proofgraph.Graph.Staleness.Marking.Consistency.{affects, stale_ids, newly_ids}
use proofgraph.Graph.Staleness.Marking.{
  StalenessResult, is_placeholder, is_rejected, is_eligible, is_selected, marked, mark_nodes,
  apply_staleness,
}

-- A node of the canvas and of the set, neither a placeholder nor rejected.
pub record IsAffected (canvas : ℕ) (ids : List ℕ) (n : Node) : Type 0 where
  pub on_canvas : n.canvas_id ≡ canvas
  pub in_set : member n.id ids ≡ true
  pub real : n.kind ≢ NodeKind.generation_placeholder
  pub accepted : get "review_status" n.metadata ≢ some (Json.text "rejected")

-- A row that became stale: the mark, a new version, no cached tokens; the rest stays.
pub record BecameStale (revision now : ℕ) (old new : Node) : Type 0 where
  pub was_fresh : old.stale ≡ false
  pub is_stale : new.stale ≡ true
  pub since : new.stale_since_revision ≡ some revision
  pub new_version : new.version ≡ old.version + 1
  pub no_tokens : new.context_token_count ≡ none
  pub no_hash : new.context_content_hash ≡ none
  pub touched : (new.semantic_updated_at ≡ now) × (new.updated_at ≡ now)
  pub same_place :
      (new.id ≡ old.id) × (new.canvas_id ≡ old.canvas_id) × (new.position ≡ old.position)
  pub same_text :
      (new.kind ≡ old.kind)
      × (new.title ≡ old.title)
      × (new.body ≡ old.body)
      × (new.metadata ≡ old.metadata)
  pub same_versions :
      (new.position_version ≡ old.position_version)
      × (new.context_representation_version ≡ old.context_representation_version)
  pub same_dates :
      (new.created_at ≡ old.created_at) × (new.position_updated_at ≡ old.position_updated_at)
  pub same_branch : new.branch_root_id ≡ old.branch_root_id

placeholder_only : (k : NodeKind) → is_placeholder k ≡ true → k ≡ NodeKind.generation_placeholder
unfolding is_placeholder
placeholder_only NodeKind.generation_placeholder h = refl
placeholder_only _ h = cc

rejected_text : Option Json → Bool
rejected_text (some (Json.text s)) = str_eq s "rejected"
rejected_text _ = false

is_rejected-get :
    (metadata : Fields) → is_rejected metadata ≡ rejected_text (get "review_status" metadata)
unfolding is_rejected rejected_text
is_rejected-get metadata = ground arith

rejected_only : (o : Option Json) → rejected_text o ≡ true → o ≡ some (Json.text "rejected")
unfolding rejected_text
rejected_only (some (Json.text s)) h = ap (λ x. some (Json.text x)) ((eq_iff s "rejected").0 h)
rejected_only (some _) h = cc
rejected_only none h = cc

affects-IsAffected :
    (canvas : ℕ) (ids : List ℕ) (n : Node) → affects canvas ids n ≡ true → IsAffected canvas ids n
unfolding is_selected is_eligible is_placeholder rejected_text
affects-IsAffected canvas ids n h =
    let (selected, eligible) = &&_true (is_selected canvas ids n) (is_eligible n) h in
    let (here, named) = &&_true (n.canvas_id == canvas) (member n.id ids) selected in
    let (real, accepted) =
      &&_true (not (is_placeholder n.kind)) (not (is_rejected n.metadata)) eligible in
    record {
      on_canvas = (==_iff n.canvas_id canvas).0 here;
      in_set = named;
      real = λ e. let same = ap is_placeholder e in ground (arith, real, same);
      accepted = λ e. ground (
        arith,
        accepted,
        is_rejected-get n.metadata,
        ap rejected_text e,
        eq_iff "rejected" "rejected",
      );
    }

IsAffected-affects :
    (canvas : ℕ) (ids : List ℕ) (n : Node) → IsAffected canvas ids n → affects canvas ids n ≡ true
unfolding is_selected is_eligible
IsAffected-affects canvas ids n a = elim (Bool-cases (is_placeholder n.kind)) [
  | inl e ↦ elim (a.real (placeholder_only n.kind e)) [ ]
  | inr e ↦ elim (Bool-cases (is_rejected n.metadata)) [
    | inl f ↦
        elim (a.accepted (
          rejected_only (get "review_status" n.metadata)
            (sym (is_rejected-get n.metadata) ∙ f))) [ ]
    | inr f ↦ ground (arith, e, f, a.on_canvas, a.in_set)
  ]
]

-- What a row of the table becomes.
abbrev pub RowAfter : ℕ → List ℕ → ℕ → ℕ → Node → Node → Type 0
RowAfter canvas ids revision now old new =
    (IsAffected canvas ids old × BecameStale revision now old new)
    ⊎ ((IsAffected canvas ids old → old.stale ≡ true) × (new ≡ old))

marked-BecameStale :
    (revision now : ℕ) (n : Node)
    → n.stale ≡ false
    → BecameStale revision now n (marked revision now n)
unfolding marked
marked-BecameStale revision now n h = record {
  was_fresh = h;
  is_stale = refl;
  since = refl;
  new_version = refl;
  no_tokens = refl;
  no_hash = refl;
  touched = (refl, refl);
  same_place = (refl, refl, refl);
  same_text = (refl, refl, refl, refl);
  same_versions = (refl, refl);
  same_dates = (refl, refl);
  same_branch = refl;
}

mark_nodes-RowAfter :
    (canvas : ℕ) (ids newly : List ℕ) (revision now : ℕ) (nodes : List Node)
    → All (λ (n : Node). member n.id newly ≡ (affects canvas ids n && not n.stale)) nodes
    → Pointwise (RowAfter canvas ids revision now) nodes (mark_nodes revision now newly nodes)
unfolding mark_nodes
mark_nodes-RowAfter canvas ids newly revision now [] h = none_left
mark_nodes-RowAfter canvas ids newly revision now (n ∷ nodes) (first, h) =
    row
      (elim (Bool-cases (member n.id newly)) [
        | inl e ↦
            let (affected, fresh) = &&_true (affects canvas ids n) (not n.stale) (sym first ∙ e) in
            rw e (
              inl (
                affects-IsAffected canvas ids n affected,
                marked-BecameStale revision now n (ground (arith, fresh)),
              ))
        | inr e ↦ rw e (
            inr (
              (λ (a : IsAffected canvas ids n).
                  ground (arith, IsAffected-affects canvas ids n a, first, e)),
              refl,
            ))
      ])
      (mark_nodes-RowAfter canvas ids newly revision now nodes h)

-- What was reported, and the rows of the nodes afterwards.
pub record Reported (canvas : ℕ) (ids : List ℕ) (revision now : ℕ) (nodes after : List Node)
    (result : StalenessResult) : Type 0 where
  pub stale_nodes :
      All (λ (n : Node). (member n.id result.stale_node_ids ≡ true) ↔ IsAffected canvas ids n) nodes
  pub newly_stale_nodes :
      All
        (λ (n : Node).
          (member n.id result.newly_stale_node_ids ≡ true)
          ↔ (IsAffected canvas ids n × (n.stale ≡ false)))
        nodes
  pub rows : Pointwise (RowAfter canvas ids revision now) nodes after

-- Node ids are unique. apply_staleness reports as stale, of the rows of the table, exactly the
-- nodes of the canvas and of the set that are no generation placeholder and have no review_status
-- "rejected", and as newly stale exactly those of them that were not stale. A row whose node is
-- newly stale is marked stale since the revision, gets a new version and loses its cached tokens
-- and hash, and keeps everything else; every other row stays as it was.
pub apply_staleness-Reported :
    (canvas : ℕ) (ids : List ℕ) (operation : ℕ) (origin_type : OriginType)
    (origin_id revision now : ℕ) (g : GraphStore)
    → UniqueNodes g.nodes
    → Reported canvas ids revision now g.nodes
        (apply_staleness canvas ids operation origin_type origin_id revision now g).1.nodes
        (apply_staleness canvas ids operation origin_type origin_id revision now g).0
unfolding apply_staleness
apply_staleness-Reported canvas ids operation origin_type origin_id revision now g u = record {
  stale_nodes =
      All-map _ _ g.nodes
        (λ (n : Node) h. (
          (λ e. affects-IsAffected canvas ids n (sym h ∙ e)),
          (λ (a : IsAffected canvas ids n). h ∙ IsAffected-affects canvas ids n a),
        ))
        (stale_ids canvas ids g.nodes u);
  newly_stale_nodes =
      All-map _ _ g.nodes
        (λ (n : Node) h. (
          (λ e.
              let (affected, fresh) = &&_true (affects canvas ids n) (not n.stale) (sym h ∙ e) in
              (affects-IsAffected canvas ids n affected, ground (arith, fresh))),
          (λ a. h ∙ ground (arith, IsAffected-affects canvas ids n a.0, a.1)),
        ))
        (newly_ids canvas ids g.nodes u);
  rows = mark_nodes-RowAfter canvas ids _ revision now g.nodes (newly_ids canvas ids g.nodes u);
}
