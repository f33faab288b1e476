-- ===== src/Graph/Operations/Effects/Roots.antt =====
-- The roots and endpoints that a request names are rows of the canvas.
use proofgraph.Base.{
  ℕ, ◌≡◌, refl, sym, subst, String, Bool, true, false, not, ◌&&◌, Option, none, some, List, [], ◌∷◌,
  ◌==◌, any, arith, Bool-cases, Option-cases, inl, inr, ==_refl, &&_true, ok,
}
use proofgraph.Base.Checks.{◌>>=◌, Holds, >>=-Holds, Holds-ok, refuse}
use proofgraph.Json.{Json, Fields}
use proofgraph.Graph.Tables.{NodeKind, Node}
use proofgraph.Graph.Queries.{GraphStore}
use proofgraph.Graph.Operations.Rows.{
  Platform, Scope, node_by_pk, is_root_kind, is_constraint, resolve_branch_root, scoped_root,
  constraint_root, has_node, lock_endpoints,
}
use proofgraph.Graph.Operations.Effects.{has_root}

node_by_pk-has_root :
    (canvas id : ℕ) (nodes : List Node) (n : Node)
    → node_by_pk id nodes ≡ some n
    → (n.canvas_id == canvas && is_root_kind n.kind) ≡ true
    → has_root canvas n.id nodes ≡ true
unfolding node_by_pk has_root any
node_by_pk-has_root canvas id [] n h k = ground arith
node_by_pk-has_root canvas id (m ∷ nodes) n h k = elim (Bool-cases (m.id == id)) [
  | inl e ↦
      let same : m ≡ n = ground arith in
      let k' =
        subst (λ (z : Node). (z.canvas_id == canvas && is_root_kind z.kind) ≡ true) (sym same) k in
      subst (λ (z : Node). has_root canvas z.id (m ∷ nodes) ≡ true) same
        (ground (arith, k', ==_refl m.id))
  | inr e ↦
      let rest = node_by_pk-has_root canvas id nodes n (ground arith) k in ground (arith, rest)
]

resolve_branch_root-has_root :
    (p : Platform) (canvas : ℕ) (g : GraphStore) (value : Json)
    → Holds (λ root. has_root canvas root g.nodes ≡ true) (resolve_branch_root p canvas g value)
unfolding resolve_branch_root
resolve_branch_root-has_root p canvas g value =
    >>=-Holds _ _ (λ root. has_root canvas root g.nodes ≡ true)
      λ id e. elim (Option-cases (node_by_pk id g.nodes)) [
        | inl h ↦ rw h tt
        | inr (n, h) ↦ elim (Bool-cases (n.canvas_id == canvas && is_root_kind n.kind)) [
          | inl k ↦ rw (h, k) (node_by_pk-has_root canvas id g.nodes n h k)
          | inr k ↦ rw (h, k) tt
        ]
      ]

-- The root that a constraint gets.
abbrev pub RootOf : ℕ → List Node → NodeKind → Option ℕ → Type 0
RootOf canvas nodes kind root =
    (r : ℕ) → root ≡ some r → (is_constraint kind ≡ true) × (has_root canvas r nodes ≡ true)

no_root : (canvas : ℕ) (nodes : List Node) (kind : NodeKind) → RootOf canvas nodes kind none
no_root canvas nodes kind r e = ground arith

resolved-RootOf :
    (p : Platform) (canvas : ℕ) (g : GraphStore) (kind : NodeKind) (value : Json)
    → is_constraint kind ≡ true
    → Holds
        (RootOf canvas g.nodes kind)
        (resolve_branch_root p canvas g value >>= λ root. ok (some root))
resolved-RootOf p canvas g kind value c = >>=-Holds _ _ (RootOf canvas g.nodes kind) λ root e r h.
    let found =
      Holds-ok (λ i. has_root canvas i g.nodes ≡ true) _ root
        (resolve_branch_root-has_root p canvas g value) e in
    let same : root ≡ r = ground arith in
    (c, subst (λ i. has_root canvas i g.nodes ≡ true) same found)

scoped_root-RootOf :
    (p : Platform) (canvas : ℕ) (g : GraphStore) (kind : NodeKind) (value : Option Json)
    (scope : Scope)
    → is_constraint kind ≡ true
    → Holds (RootOf canvas g.nodes kind) (scoped_root p canvas g value scope)
unfolding scoped_root
scoped_root-RootOf p canvas g kind value Scope.global c =
    >>=-Holds _ _ (RootOf canvas g.nodes kind) λ t e. no_root canvas g.nodes kind
scoped_root-RootOf p canvas g kind none Scope.branch c = tt
scoped_root-RootOf p canvas g kind (some Json.null) Scope.branch c = tt
scoped_root-RootOf p canvas g kind (some (Json.bool b)) Scope.branch c =
    resolved-RootOf p canvas g kind (Json.bool b) c
scoped_root-RootOf p canvas g kind (some (Json.num n)) Scope.branch c =
    resolved-RootOf p canvas g kind (Json.num n) c
scoped_root-RootOf p canvas g kind (some (Json.decimal s)) Scope.branch c =
    resolved-RootOf p canvas g kind (Json.decimal s) c
scoped_root-RootOf p canvas g kind (some (Json.text s)) Scope.branch c =
    resolved-RootOf p canvas g kind (Json.text s) c
scoped_root-RootOf p canvas g kind (some (Json.arr items)) Scope.branch c =
    resolved-RootOf p canvas g kind (Json.arr items) c
scoped_root-RootOf p canvas g kind (some (Json.obj fields)) Scope.branch c =
    resolved-RootOf p canvas g kind (Json.obj fields) c

pub constraint_root-RootOf :
    (p : Platform) (canvas : ℕ) (g : GraphStore) (kind : NodeKind) (metadata : Fields)
    (value : Option Json)
    → Holds (RootOf canvas g.nodes kind) (constraint_root p canvas g kind metadata value)
unfolding constraint_root
constraint_root-RootOf p canvas g kind metadata value = elim (Bool-cases (is_constraint kind)) [
  | inl e ↦ rw e (
      >>=-Holds _ _ (RootOf canvas g.nodes kind) λ scope h.
        >>=-Holds _ _ (RootOf canvas g.nodes kind)
          λ t k. scoped_root-RootOf p canvas g kind value scope e)
  | inr e ↦ rw e (>>=-Holds _ _ (RootOf canvas g.nodes kind) λ t k. no_root canvas g.nodes kind)
]

pub refuse-passed :
    (test : Bool) (status : ℕ) (code : String) → Holds (λ t. test ≡ false) (refuse test status code)
refuse-passed true status code = tt
refuse-passed false status code = refl

pub lock_endpoints-has_node :
    (p : Platform) (canvas : ℕ) (g : GraphStore) (source target : Json)
    → Holds
        (λ (ends : ℕ × ℕ).
          (has_node canvas ends.0 g.nodes ≡ true) × (has_node canvas ends.1 g.nodes ≡ true))
        (lock_endpoints p canvas g source target)
unfolding lock_endpoints
lock_endpoints-has_node p canvas g source target = >>=-Holds _ _ _ λ source_id e.
    >>=-Holds _ _ _ λ target_id h. >>=-Holds _ _ _ λ t k.
      let passed =
        Holds-ok _ _ t
          (refuse-passed
            (not (has_node canvas source_id g.nodes && has_node canvas target_id g.nodes)) 422
            "invalid_edge_endpoint")
          k in
      &&_true _ _ (ground (arith, passed))
