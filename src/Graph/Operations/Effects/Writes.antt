-- ===== src/Graph/Operations/Effects/Writes.antt =====
-- The writes on the rows of a table keep what they may not change.
use proofgraph.Base.{
  true, false, ℕ, ◌≡◌, ◌⊎◌, ◌∙◌, refl, sym, subst, String, ◌&&◌, ◌||◌, Option, some, List, [], ◌∷◌,
  ◌==◌, All, All-map, arith, Bool-cases, inl, inr, ==_iff, &&_true,
}
use proofgraph.Json.{Fields}
use proofgraph.Graph.Ids.{member}
use proofgraph.Graph.Tables.{EdgeKind, Node, Edge}
use proofgraph.Graph.Queries.{find_node, find_edge}
use proofgraph.Graph.Staleness.Marking.Members.{UniqueNodes}
use proofgraph.Graph.Operations.Payload.{is_source_kind}
use proofgraph.Graph.Operations.Rows.{update_node, update_edge}
use proofgraph.Graph.Operations.Changes.{revised}
use proofgraph.Graph.Operations.Nodes.{moved}
use proofgraph.Graph.Operations.Edges.{rewired}
use proofgraph.Graph.Operations.Assumptions.{replaced}
use proofgraph.Graph.Operations.Support.{reviewed}
use proofgraph.Graph.Operations.Settling.{stamped, stamp_nodes}
use proofgraph.Graph.Operations.Effects.{
  Pointwise, none_left, row, Rewritten, Rewired, Anchored, Brief, Connected, UniqueEdges,
}
use proofgraph.Graph.Operations.Effects.Finding.{
  find_node-found, find_edge-found, only_row, only_edge,
}

pub Pointwise-refl :
    {A : Type 0} (R : A → A → Type 0) → ((x : A) → R x x) → (xs : List A) → Pointwise R xs xs
Pointwise-refl R r [] = none_left
Pointwise-refl R r (x ∷ xs) = row (r x) (Pointwise-refl R r xs)

pub Rewritten-refl : (canvas : ℕ) (nodes : List Node) (n : Node) → Rewritten canvas nodes n n
Rewritten-refl canvas nodes n = (refl, refl, refl, refl, omega arith, inl refl, inl refl, λ b. b)

pub Rewired-refl : (canvas : ℕ) (nodes : List Node) (e : Edge) → Rewired canvas nodes e e
Rewired-refl canvas nodes e = (refl, refl, omega arith, inl refl)

update_node-Pointwise :
    (R : Node → Node → Type 0) (id : ℕ) (write : Node → Node) (xs ys : List Node)
    → All (λ (x : Node). (y : Node) → R x y → y.id ≡ id → R x (write y)) xs
    → Pointwise R xs ys
    → Pointwise R xs (update_node id write ys)
unfolding update_node
update_node-Pointwise R id write [] [] h none_left = none_left
update_node-Pointwise R id write [] (y ∷ ys) h absurd = elim absurd [ ]
update_node-Pointwise R id write (x ∷ xs) [] h absurd = elim absurd [ ]
update_node-Pointwise R id write (x ∷ xs) (y ∷ ys) h (row r rest) =
    row
      (elim (Bool-cases (y.id == id)) [
        | inl e ↦ rw e (h.0 y r ((==_iff y.id id).0 e))
        | inr e ↦ rw e r
      ])
      (update_node-Pointwise R id write xs ys h.1 rest)

update_edge-Pointwise :
    (R : Edge → Edge → Type 0) (id : ℕ) (write : Edge → Edge) (xs ys : List Edge)
    → All (λ (x : Edge). (y : Edge) → R x y → y.id ≡ id → R x (write y)) xs
    → Pointwise R xs ys
    → Pointwise R xs (update_edge id write ys)
unfolding update_edge
update_edge-Pointwise R id write [] [] h none_left = none_left
update_edge-Pointwise R id write [] (y ∷ ys) h absurd = elim absurd [ ]
update_edge-Pointwise R id write (x ∷ xs) [] h absurd = elim absurd [ ]
update_edge-Pointwise R id write (x ∷ xs) (y ∷ ys) h (row r rest) =
    row
      (elim (Bool-cases (y.id == id)) [
        | inl e ↦ rw e (h.0 y r ((==_iff y.id id).0 e))
        | inr e ↦ rw e r
      ])
      (update_edge-Pointwise R id write xs ys h.1 rest)

-- A write on the row of a node that was found, in a table that other writes may have changed.
pub write_found :
    (canvas : ℕ) (nodes ys : List Node) (n : Node) (write : Node → Node)
    → UniqueNodes nodes
    → find_node canvas n.id nodes ≡ some n
    → ((y : Node) → Rewritten canvas nodes n y → Rewritten canvas nodes n (write y))
    → Pointwise (Rewritten canvas nodes) nodes ys
    → Pointwise (Rewritten canvas nodes) nodes (update_node n.id write ys)
write_found canvas nodes ys n write u found step h =
    update_node-Pointwise (Rewritten canvas nodes) n.id write nodes ys
      (All-map (λ (x : Node). x.id ≡ n.id → x ≡ n)
        (λ (x : Node).
          (y : Node)
          → Rewritten canvas nodes x y
          → y.id ≡ n.id
          → Rewritten canvas nodes x (write y))
        nodes
        (λ (x : Node) only y r e.
          let same = only (sym r.0 ∙ e) in
          subst (λ z. Rewritten canvas nodes z (write y)) (sym same)
            (step y (subst (λ z. Rewritten canvas nodes z y) same r)))
        (only_row canvas n.id nodes n u found))
      h

pub write_found_edge :
    (canvas : ℕ) (nodes : List Node) (edges ys : List Edge) (e : Edge) (write : Edge → Edge)
    → UniqueEdges edges
    → find_edge canvas e.id edges ≡ some e
    → ((y : Edge) → Rewired canvas nodes e y → Rewired canvas nodes e (write y))
    → Pointwise (Rewired canvas nodes) edges ys
    → Pointwise (Rewired canvas nodes) edges (update_edge e.id write ys)
write_found_edge canvas nodes edges ys e write u found step h =
    update_edge-Pointwise (Rewired canvas nodes) e.id write edges ys
      (All-map (λ (x : Edge). x.id ≡ e.id → x ≡ e)
        (λ (x : Edge).
          (y : Edge) → Rewired canvas nodes x y → y.id ≡ e.id → Rewired canvas nodes x (write y))
        edges
        (λ (x : Edge) only y r k.
          let same = only (sym r.0 ∙ k) in
          subst (λ z. Rewired canvas nodes z (write y)) (sym same)
            (step y (subst (λ z. Rewired canvas nodes z y) same r)))
        (only_edge canvas e.id edges e u found))
      h

module _ (canvas : ℕ) (nodes : List Node) (n : Node)
    (found : find_node canvas n.id nodes ≡ some n) where
  local : (m : Node) → (m ≡ n) ⊎ (n.canvas_id ≡ canvas)
  local m = inr (find_node-found canvas n.id nodes n found).1

  pub revised-Rewritten :
      (now : ℕ) (title : String) (body : Option String) (metadata : Fields) (root : Option ℕ)
      → Anchored nodes (record n { branch_root_id = root })
      → (Brief n → Brief (record n { title = title; body = body }))
      → (y : Node) → Rewritten canvas nodes n y
      → Rewritten canvas nodes n (revised n.version now title body metadata root y)
  unfolding revised
  revised-Rewritten now title body metadata root a fits y
        (id, c, kind, stale, older, rooted, here, brief) =
      (
        id,
        c,
        kind,
        stale,
        omega arith,
        inr (λ r e. rw (kind, c) (a r e)),
        local _,
        λ b source. fits b (subst (λ k. is_source_kind k ≡ true) kind source),
      )

  pub moved-Rewritten :
      (now : ℕ) (position : Fields) (y : Node)
      → Rewritten canvas nodes n y
      → Rewritten canvas nodes n (moved n.position_version now position y)
  unfolding moved
  moved-Rewritten now position y (id, c, kind, stale, older, rooted, here, brief) =
      (id, c, kind, stale, older, rooted, local _, brief)

  pub replaced-Rewritten :
      (now : ℕ) (title : String) (body : Option String)
      → is_source_kind n.kind ≡ false
      → (y : Node) → Rewritten canvas nodes n y
      → Rewritten canvas nodes n (replaced n.version now title body y)
  unfolding replaced
  replaced-Rewritten now title body other y (id, c, kind, stale, older, rooted, here, brief) = (
    id,
    c,
    kind,
    stale,
    omega arith,
    rooted,
    local _,
    λ b source. let mine = subst (λ k. is_source_kind k ≡ true) kind source in ground arith,
  )

  pub reviewed-Rewritten :
      (now : ℕ) (metadata : Fields) (y : Node)
      → Rewritten canvas nodes n y
      → Rewritten canvas nodes n (reviewed n.version now metadata y)
  unfolding reviewed
  reviewed-Rewritten now metadata y (id, c, kind, stale, older, rooted, here, brief) =
      (id, c, kind, stale, omega arith, rooted, local _, brief)

pub rewired-Rewired :
    (canvas : ℕ) (nodes : List Node) (edges : List Edge) (e : Edge) (now source target : ℕ)
    (kind : EdgeKind) (metadata : Fields)
    → find_edge canvas e.id edges ≡ some e
    → Connected nodes (record e { source_id = source; target_id = target })
    → (y : Edge) → Rewired canvas nodes e y
    → Rewired canvas nodes e (rewired e.version now source target kind metadata y)
unfolding rewired
rewired-Rewired canvas nodes edges e now source target kind metadata found ends y
      (id, c, older, here) =
    (id, c, omega arith, inr ((find_edge-found canvas e.id edges e found).1, rw c ends))

-- The stamp of a review.
pub stamp_nodes-Pointwise :
    (canvas operation now : ℕ) (rejected retained : List ℕ) (nodes xs : List Node)
    → Pointwise (Rewritten canvas nodes) xs (stamp_nodes canvas operation now rejected retained xs)
unfolding stamp_nodes stamped
stamp_nodes-Pointwise canvas operation now rejected retained nodes [] = none_left
stamp_nodes-Pointwise canvas operation now rejected retained nodes (n ∷ xs) =
    row
      (elim (Bool-cases (n.canvas_id == canvas && (member n.id rejected || member n.id retained))) [
        | inl e ↦ rw e (
          refl,
          refl,
          refl,
          refl,
          omega arith,
          inl refl,
          inr ((==_iff n.canvas_id canvas).0 (&&_true _ _ e).0),
          (λ b. b),
        )
        | inr e ↦ rw e (Rewritten-refl canvas nodes n)
      ])
      (stamp_nodes-Pointwise canvas operation now rejected retained nodes xs)
