-- ===== src/Services/Fitting.antt =====
-- proofgraph/generation/context.py: the selections that an operation works on, stated of the kinds,
-- the stale marks and the metadata of their nodes.
use proofgraph.Base.{
  ◌+◌, ◌≤◌, ◌<◌, String, ◌≡◌, ◌≢◌, ◌∙◌, refl, ap, Bool, true, false, not, ◌&&◌, ◌||◌, Option, none,
  some, List, [], ◌∷◌, ◌++◌, ◌==◌, keep, length, any, Bool-cases, inl, inr, arith, All, All-map,
  &&_true, str_eq, eq_iff,
}
use proofgraph.Json.{Json, Fields, get}
use proofgraph.Tables.{RunOperation}
use proofgraph.Graph.Tables.{NodeKind, Node}
use proofgraph.Graph.Queries.{is_claim}
use proofgraph.Graph.Operations.Rows.{is_constraint}
use proofgraph.Graph.Operations.Support.{has_review_status}
use proofgraph.Services.Selection.{
  is_true, is_generated, is_provisional_node, is_applied, is_manually_authored, is_generated_kind,
  is_goal, is_strategy, of_kind, one_with_some, is_fresh, is_only, is_regenerable, suits,
  generated_keys,
}

-- Nothing says that a run has made the node.
abbrev pub IsManual : Node → Type 0
IsManual n = All (λ key. is_true (get key n.metadata) ≡ false) generated_keys

-- A part of the graph: neither provisional nor rejected, and accepted if a run has made it.
pub record IsApplied (n : Node) : Type 0 where
  pub final : get "provisional" n.metadata ≢ some (Json.bool true)
  pub settled : get "review_status" n.metadata ≢ some (Json.text "provisional")
  pub not_rejected : get "review_status" n.metadata ≢ some (Json.text "rejected")
  pub accepted : ¬ IsManual n → get "review_status" n.metadata ≡ some (Json.text "accepted")

pub data IsMade : NodeKind → Type 0 where
  strategy : IsMade NodeKind.strategy
  claim : IsMade NodeKind.claim
  opportunity : IsMade NodeKind.opportunity
  assumption : IsMade NodeKind.assumption
  risk : IsMade NodeKind.risk
  validation_experiment : IsMade NodeKind.validation_experiment

-- One node of a kind, among at least one and only nodes of another kind.
pub record OneWithSome (first second : NodeKind) (nodes : List Node) : Type 0 where
  pub before : List Node
  pub one : Node
  pub after : List Node
  pub parts : nodes ≡ before ++ one ∷ after
  pub is_first : one.kind ≡ first
  pub are_second : All (λ (n : Node). n.kind ≡ second) (before ++ after)
  pub several : 1 < length nodes

-- The selections of the four operations.
abbrev pub Fits : RunOperation → List Node → Type 0
Fits RunOperation.generate_strategies nodes =
    OneWithSome NodeKind.goal NodeKind.constraint nodes
    × All (λ (n : Node). (n.stale ≡ false) × IsApplied n × IsManual n) nodes
Fits RunOperation.research_evidence nodes =
    (n : Node) × (nodes ≡ n ∷ []) × (n.kind ≡ NodeKind.strategy) × (n.stale ≡ false) × IsApplied n
Fits RunOperation.synthesize_opportunities nodes =
    OneWithSome NodeKind.strategy NodeKind.claim nodes
    × All (λ (n : Node). (n.stale ≡ false) × IsApplied n) nodes
Fits RunOperation.regenerate_stale nodes =
    (n : Node) × (nodes ≡ n ∷ []) × IsMade n.kind × (n.stale ≡ true) × IsApplied n × (¬ IsManual n)

goal_only : (k : NodeKind) → is_goal k ≡ true → k ≡ NodeKind.goal
unfolding is_goal
goal_only NodeKind.goal h = refl
goal_only _ h = cc

constraint_only : (k : NodeKind) → is_constraint k ≡ true → k ≡ NodeKind.constraint
unfolding is_constraint
constraint_only NodeKind.constraint h = refl
constraint_only _ h = cc

strategy_only : (k : NodeKind) → is_strategy k ≡ true → k ≡ NodeKind.strategy
unfolding is_strategy
strategy_only NodeKind.strategy h = refl
strategy_only _ h = cc

claim_only : (k : NodeKind) → is_claim k ≡ true → k ≡ NodeKind.claim
unfolding is_claim
claim_only NodeKind.claim h = refl
claim_only _ h = cc

kind-IsMade : (k : NodeKind) → is_generated_kind k ≡ true → IsMade k
unfolding is_generated_kind
kind-IsMade NodeKind.strategy h = strategy
kind-IsMade NodeKind.claim h = claim
kind-IsMade NodeKind.opportunity h = opportunity
kind-IsMade NodeKind.assumption h = assumption
kind-IsMade NodeKind.risk h = risk
kind-IsMade NodeKind.validation_experiment h = validation_experiment
kind-IsMade _ h = absurd (cc h)

is_generated-IsManual : (n : Node) → is_generated n.metadata ≡ false → IsManual n
unfolding is_generated any
is_generated-IsManual n h = ground arith

IsManual-is_generated : (n : Node) → IsManual n → is_generated n.metadata ≡ false
unfolding is_generated any
IsManual-is_generated n h = ground arith

has_review_status-get :
    (status : String) (metadata : Fields)
    → get "review_status" metadata ≡ some (Json.text status)
    → has_review_status status metadata ≡ true
unfolding has_review_status
has_review_status-get status metadata h = rw (has_review_status, h) ((eq_iff status status).1 refl)

provisional_made :
    (metadata : Fields)
    → get "provisional" metadata ≡ some (Json.bool true)
    → is_provisional_node metadata ≡ true
unfolding is_provisional_node
provisional_made metadata h = rw (is_provisional_node, h) refl

text_status : (status : String) → Option Json → Bool
text_status status (some (Json.text s)) = str_eq s status
text_status status _ = false

text_status_only :
    (status : String) (o : Option Json) → text_status status o ≡ true → o ≡ some (Json.text status)
unfolding text_status
text_status_only status (some (Json.text s)) h =
    ap (λ (x : String). some (Json.text x)) ((eq_iff s status).0 h)
text_status_only status (some _) h = cc
text_status_only status none h = cc

get-has_review_status :
    (status : String) (metadata : Fields)
    → has_review_status status metadata ≡ true
    → get "review_status" metadata ≡ some (Json.text status)
unfolding has_review_status text_status
get-has_review_status status metadata h =
    text_status_only status (get "review_status" metadata) (ground (arith, h))

is_applied-IsApplied : (n : Node) → is_applied n ≡ true → IsApplied n
unfolding is_applied
is_applied-IsApplied n h =
    let (unsettled, reviewed) =
      &&_true
        (not (
          is_provisional_node n.metadata
          || has_review_status "provisional" n.metadata
          || has_review_status "rejected" n.metadata))
        (not (is_generated n.metadata) || has_review_status "accepted" n.metadata) h in
    record {
      final = λ e. let made = provisional_made n.metadata e in ground (arith, unsettled, made);
      settled = λ e.
          let made = has_review_status-get "provisional" n.metadata e in
          ground (arith, unsettled, made);
      not_rejected = λ e.
          let made = has_review_status-get "rejected" n.metadata e in
          ground (arith, unsettled, made);
      accepted = λ no. elim (Bool-cases (is_generated n.metadata)) [
        | inl e ↦ get-has_review_status "accepted" n.metadata (ground (arith, reviewed, e))
        | inr e ↦ elim (no (is_generated-IsManual n e)) [ ]
      ];
    }

-- Counting the nodes of two kinds tells which there are.
module _ (f s : NodeKind → Bool) (first second : NodeKind)
    (only_first : (k : NodeKind) → f k ≡ true → k ≡ first)
    (only_second : (k : NodeKind) → s k ≡ true → k ≡ second) (apart : s first ≡ false) where
  of_kind-le-length :
      (test : NodeKind → Bool) (nodes : List Node) → of_kind test nodes ≤ length nodes
  unfolding of_kind keep
  of_kind-le-length test [] = omega arith
  of_kind-le-length test (n ∷ nodes) = ground (arith, of_kind-le-length test nodes)

  kinds-le-length : (nodes : List Node) → of_kind f nodes + of_kind s nodes ≤ length nodes
  unfolding of_kind keep
  kinds-le-length [] = omega arith
  kinds-le-length (n ∷ nodes) = elim (Bool-cases (f n.kind)) [
    | inl e ↦
        let other : s n.kind ≡ false = ap s (only_first n.kind e) ∙ apart in
        ground (arith, e, other, kinds-le-length nodes)
    | inr e ↦ ground (arith, e, kinds-le-length nodes)
  ]

  all_second :
      (nodes : List Node)
      → of_kind s nodes ≡ length nodes
      → All (λ (n : Node). n.kind ≡ second) nodes
  unfolding of_kind keep
  all_second [] h = tt
  all_second (n ∷ nodes) h = elim (Bool-cases (s n.kind)) [
    | inl e ↦ (only_second n.kind e, all_second nodes (ground (arith, h, e)))
    | inr e ↦
        let few = of_kind-le-length s nodes in let no : ⊥ = ground (arith, h, e, few) in elim no [ ]
  ]

  split :
      (nodes : List Node)
      → of_kind f nodes ≡ 1
      → of_kind f nodes + of_kind s nodes ≡ length nodes
      → (before : List Node) × (one : Node) × (after : List Node) × (nodes ≡ before ++ one ∷ after)
        × (one.kind ≡ first)
        × All (λ (n : Node). n.kind ≡ second) (before ++ after)
  unfolding of_kind keep
  split [] one both = let no : ⊥ = omega (arith, one) in elim no [ ]
  split (n ∷ nodes) one both = elim (Bool-cases (f n.kind)) [
    | inl e ↦
        let is_first = only_first n.kind e in
        let other : s n.kind ≡ false = ap s is_first ∙ apart in
        ([], n, nodes, refl, is_first, all_second nodes (ground (arith, one, both, e, other)))
    | inr e ↦ elim (Bool-cases (s n.kind)) [
      | inl g ↦
          let (before, m, after, parts, is_first, rest) =
            split nodes (ground (arith, one, e)) (ground (arith, both, e, g)) in
          (
            n ∷ before,
            m,
            after,
            ap (λ (ns : List Node). n ∷ ns) parts,
            is_first,
            (only_second n.kind g, rest),
          )
      | inr g ↦
          let few = kinds-le-length nodes in
          let no : ⊥ = ground (arith, both, e, g, few) in elim no [ ]
    ]
  ]

  one_with_some-OneWithSome :
      (nodes : List Node) → one_with_some f s nodes ≡ true → OneWithSome first second nodes
  unfolding one_with_some
  one_with_some-OneWithSome nodes h =
      let (present, sum) =
        &&_true (of_kind f nodes == 1 && not (of_kind s nodes == 0))
          (of_kind f nodes + of_kind s nodes == length nodes) h in
      let (ones, some_second) =
        &&_true (of_kind f nodes == 1) (not (of_kind s nodes == 0)) present in
      let (before, one, after, parts, is_first, are_second) =
        split nodes (ground (arith, ones)) (ground (arith, sum)) in
      record {
        before = before;
        one = one;
        after = after;
        parts = parts;
        is_first = is_first;
        are_second = are_second;
        several = ground (arith, ones, some_second, sum);
      }

no_exception :
    (test : Node → Bool) (nodes : List Node)
    → any (λ n. not (test n)) nodes ≡ false
    → All (λ n. test n ≡ true) nodes
unfolding any
no_exception test [] h = tt
no_exception test (n ∷ nodes) h = (ground arith, no_exception test nodes (ground arith))

only_one :
    (test : Node → Bool) (nodes : List Node)
    → is_only test nodes ≡ true
    → (n : Node) × (nodes ≡ n ∷ []) × (test n ≡ true)
unfolding is_only
only_one test [] h = absurd (cc h)
only_one test (n ∷ []) h = (n, refl, h)
only_one test (n ∷ m ∷ nodes) h = absurd (cc h)

is_fresh-IsApplied : (n : Node) → is_fresh n ≡ true → (n.stale ≡ false) × IsApplied n
unfolding is_fresh
is_fresh-IsApplied n h =
    let (fresh, applied) = &&_true (not n.stale) (is_applied n) h in
    (ground (arith, fresh), is_applied-IsApplied n applied)

-- Every selection that suits an operation fits it.
pub suits-Fits :
    (operation : RunOperation) (nodes : List Node)
    → suits operation nodes ≡ true
    → Fits operation nodes
unfolding suits is_goal is_constraint is_strategy is_claim is_manually_authored is_regenerable
suits-Fits RunOperation.generate_strategies nodes h =
    let (kinds, each) =
      &&_true (one_with_some is_goal is_constraint nodes)
        (not (any (λ n. not (is_fresh n && is_manually_authored n)) nodes)) h in
    (
      one_with_some-OneWithSome is_goal is_constraint NodeKind.goal NodeKind.constraint goal_only
          constraint_only refl nodes kinds,
      All-map _ _ nodes
          (λ (n : Node) both.
            let (fresh, manual) = &&_true (is_fresh n) (is_manually_authored n) both in
            let (current, applied) = is_fresh-IsApplied n fresh in
            (current, applied, is_generated-IsManual n (ground (arith, manual))))
          (no_exception (λ n. is_fresh n && is_manually_authored n) nodes (ground (arith, each))),
    )
suits-Fits RunOperation.research_evidence nodes h =
    let (n, same, fits) = only_one (λ (n : Node). is_strategy n.kind && is_fresh n) nodes h in
    let (kind, fresh) = &&_true (is_strategy n.kind) (is_fresh n) fits in
    let (current, applied) = is_fresh-IsApplied n fresh in
    (n, same, strategy_only n.kind kind, current, applied)
suits-Fits RunOperation.synthesize_opportunities nodes h =
    let (kinds, each) =
      &&_true (one_with_some is_strategy is_claim nodes) (not (any (λ n. not (is_fresh n)) nodes))
        h in
    (
      one_with_some-OneWithSome is_strategy is_claim NodeKind.strategy NodeKind.claim strategy_only
          claim_only refl nodes kinds,
      All-map _ _ nodes (λ (n : Node) fresh. is_fresh-IsApplied n fresh)
          (no_exception is_fresh nodes (ground (arith, each))),
    )
suits-Fits RunOperation.regenerate_stale nodes h =
    let (n, same, fits) = only_one is_regenerable nodes h in
    let (rest, generated) =
      &&_true (is_generated_kind n.kind && n.stale && is_applied n) (not (is_manually_authored n))
        fits in
    let (old, applied) = &&_true (is_generated_kind n.kind && n.stale) (is_applied n) rest in
    let (made, stale) = &&_true (is_generated_kind n.kind) n.stale old in
    (
      n,
      same,
      kind-IsMade n.kind made,
      stale,
      is_applied-IsApplied n applied,
      λ manual. let quiet = IsManual-is_generated n manual in ground (arith, generated, quiet),
    )
