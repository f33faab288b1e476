-- ===== src/Graph/Operations/Effects/Texts.antt =====
-- The texts that a request may give a source are brief.
use proofgraph.Base.{
  ◌≤◌, ◌≡◌, refl, subst, String, true, false, not, Option, some, length, arith, Option-cases, inl,
  inr,
}
use proofgraph.Base.Checks.{Holds, >>=-Holds, Holds-ok}
use proofgraph.Json.{Json, Fields, get, codes}
use proofgraph.Graph.Tables.{NodeKind, Node}
use proofgraph.Graph.Operations.Payload.{
  strip, is_source_kind, too_long, max_retained_source_chars, validate_title, validate_body,
}
use proofgraph.Graph.Operations.Changes.{title_after, body_after}
use proofgraph.Graph.Operations.Assumptions.{is_assumption}
use proofgraph.Graph.Operations.Effects.{Brief}
use proofgraph.Graph.Operations.Effects.Roots.{refuse-passed}

abbrev pub Fits : NodeKind → String → Type 0
Fits kind s = is_source_kind kind ≡ true → length (codes s) ≤ max_retained_source_chars

abbrev pub FitsBody : NodeKind → Option String → Type 0
FitsBody kind body = (s : String) → body ≡ some s → Fits kind s

not_too_long : (kind : NodeKind) (s : String) → too_long kind s ≡ false → Fits kind s
unfolding too_long
not_too_long kind s h source = ground arith

pub validate_title-Fits :
    (kind : NodeKind) (value : Json) → Holds (Fits kind) (validate_title kind value)
unfolding validate_title
validate_title-Fits kind (Json.text s) = >>=-Holds _ _ (Fits kind) λ t e.
    >>=-Holds _ _ (Fits kind) λ u passed. not_too_long kind (strip s) (
      Holds-ok (λ t. too_long kind (strip s) ≡ false) _ u
        (refuse-passed (too_long kind (strip s)) 422 "retention_policy_violation") passed)
validate_title-Fits kind Json.null = tt
validate_title-Fits kind (Json.bool b) = tt
validate_title-Fits kind (Json.num n) = tt
validate_title-Fits kind (Json.decimal s) = tt
validate_title-Fits kind (Json.arr items) = tt
validate_title-Fits kind (Json.obj fields) = tt

pub validate_body-Fits :
    (kind : NodeKind) (value : Json) → Holds (FitsBody kind) (validate_body kind value)
unfolding validate_body
validate_body-Fits kind (Json.text s) = >>=-Holds _ _ (FitsBody kind) λ u passed t e.
    let same : s ≡ t = ground arith in
    subst (Fits kind) same (
      not_too_long kind s (
        Holds-ok (λ t. too_long kind s ≡ false) _ u
          (refuse-passed (too_long kind s) 422 "retention_policy_violation") passed))
validate_body-Fits kind Json.null = λ s e. ground arith
validate_body-Fits kind (Json.bool b) = tt
validate_body-Fits kind (Json.num n) = tt
validate_body-Fits kind (Json.decimal s) = tt
validate_body-Fits kind (Json.arr items) = tt
validate_body-Fits kind (Json.obj fields) = tt

pub title_after-Fits :
    (n : Node) (changes : Fields) → Brief n → Holds (Fits n.kind) (title_after n changes)
unfolding title_after
title_after-Fits n changes brief = elim (Option-cases (get "title" changes)) [
  | inl e ↦ rw (Holds, e) (λ source. (brief source).0)
  | inr (value, e) ↦ rw (Holds, e) (validate_title-Fits n.kind value)
]

pub body_after-Fits :
    (n : Node) (changes : Fields) → Brief n → Holds (FitsBody n.kind) (body_after n changes)
unfolding body_after
body_after-Fits n changes brief = elim (Option-cases (get "body" changes)) [
  | inl e ↦ rw (Holds, e) (λ s k source. (brief source).1 s k)
  | inr (value, e) ↦ rw (Holds, e) (validate_body-Fits n.kind value)
]

-- An assumption is no source.
pub assumption_other :
    (kind : NodeKind) → not (is_assumption kind) ≡ false → is_source_kind kind ≡ false
unfolding is_assumption is_source_kind
assumption_other NodeKind.source h = ground arith
assumption_other NodeKind.goal h = refl
assumption_other NodeKind.constraint h = refl
assumption_other NodeKind.strategy h = refl
assumption_other NodeKind.claim h = refl
assumption_other NodeKind.opportunity h = refl
assumption_other NodeKind.assumption h = refl
assumption_other NodeKind.risk h = refl
assumption_other NodeKind.validation_experiment h = refl
assumption_other NodeKind.generation_placeholder h = refl
