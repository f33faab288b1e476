-- ===== src/Services/Creating.antt =====
-- proofgraph/generation/services.py: what create_generation_run does in one call.
use proofgraph.Base.{
  ℕ, ◌≡◌, refl, String, true, Option, none, some, ◌∷◌, ◌==◌, str_eq, any, Result, ok, Option-cases,
  Bool-cases, inl, inr,
}
use proofgraph.Base.Checks.{Holds, >>=-Holds, Holds-ok}
use proofgraph.Tables.{GenerationRun, Store}
use proofgraph.Demo.{DemoSession}
use proofgraph.Graph.Tables.{Canvas}
use proofgraph.Graph.Operations.Rows.{Platform}
use proofgraph.Graph.Operations.Apply.{find_canvas}
use proofgraph.Graph.Operations.Calls.{find_canvas_id}
use proofgraph.Services.Selection.{GenerationRunRequest}
use proofgraph.Services.Creation.{
  Composition, ServiceTables, RunCreated, find_by_key, new_run, insert_run, create_run, repeat_run,
  run_created, create_generation_run,
}
use proofgraph.Services.Fingerprint.{generation_request_fingerprint}

pub record Creation : Type 0 where
  pub now : ℕ
  pub fresh_id : ℕ
  pub canvas_id : ℕ
  pub request : GenerationRunRequest
  pub demo_session_id : Option ℕ

abbrev pub create :
    Platform → Composition → Creation → ServiceTables → Result ((RunCreated × ℕ) × ServiceTables)
create p comp c s =
    create_generation_run p comp c.now c.fresh_id c.canvas_id c.request c.demo_session_id s

-- A property of what a creation leaves, if it holds of a repetition and of a new run.
pub create-Holds :
    (p : Platform) (comp : Composition) (c : Creation) (s : ServiceTables)
    (P : (RunCreated × ℕ) × ServiceTables → Type 0)
    → ((fingerprint : String) (canvas : Canvas) (run : GenerationRun)
        → generation_request_fingerprint p c.request ≡ ok fingerprint
        → canvas.id ≡ c.canvas_id
        → find_by_key canvas.id c.request.idempotency_key s.store.runs ≡ some run
        → str_eq run.request_fingerprint fingerprint ≡ true
        → P ((run_created run run.events_after_sequence, 202), s))
    → ((fingerprint : String) (d : Option DemoSession) (canvas : Canvas)
        → generation_request_fingerprint p c.request ≡ ok fingerprint
        → canvas.id ≡ c.canvas_id
        → find_by_key canvas.id c.request.idempotency_key s.store.runs ≡ none
        → Holds P (create_run comp c.now c.fresh_id canvas c.request d fingerprint s))
    → Holds P (create p comp c s)
unfolding create_generation_run repeat_run
create-Holds p comp c s P repeated new = >>=-Holds _ _ P λ fingerprint e. >>=-Holds _ _ P λ d h.
    elim (Option-cases (find_canvas c.canvas_id s.canvases)) [
      | inl k ↦ rw k tt
      | inr (canvas, k) ↦
          let here = find_canvas_id c.canvas_id s.canvases canvas k in
          elim (Option-cases (find_by_key canvas.id c.request.idempotency_key s.store.runs)) [
            | inl l ↦ rw (k, l) (new fingerprint d canvas e here l)
            | inr (run, l) ↦ elim (Bool-cases (str_eq run.request_fingerprint fingerprint)) [
              | inl m ↦ rw (k, l, repeat_run, m) (repeated fingerprint canvas run e here l m)
              | inr m ↦ rw (k, l, repeat_run, m) tt
            ]
          ]
    ]

-- What is stored with a new run.
abbrev pub Stored :
    Canvas
    → GenerationRunRequest
    → String
    → ServiceTables
    → (RunCreated × ℕ) × ServiceTables
    → Type 0
Stored canvas r fingerprint s out =
    (run : GenerationRun) × (out.1.store.runs ≡ run ∷ s.store.runs)
    × (run.canvas_id ≡ canvas.id)
    × (run.idempotency_key ≡ r.idempotency_key)
    × (run.request_fingerprint ≡ fingerprint)
    × (out.0 ≡ (run_created run run.events_after_sequence, 202))

pub insert_run-runs :
    (run : GenerationRun) (store : Store)
    → Holds (λ (after : Store). after.runs ≡ run ∷ store.runs) (insert_run run store)
unfolding insert_run
insert_run-runs run store =
    elim (Bool-cases (any (λ (other : GenerationRun). other.id == run.id) store.runs)) [
      | inl e ↦ rw e tt
      | inr e ↦ rw e refl
    ]

pub create_run-Stored :
    (comp : Composition) (now id : ℕ) (canvas : Canvas) (r : GenerationRunRequest)
    (d : Option DemoSession) (fingerprint : String) (s : ServiceTables)
    → Holds (Stored canvas r fingerprint s) (create_run comp now id canvas r d fingerprint s)
unfolding create_run new_run
create_run-Stored comp now id canvas r d fingerprint s = >>=-Holds _ _ _ λ configuration e.
    >>=-Holds _ _ _ λ t e. >>=-Holds _ _ _ λ context e. >>=-Holds _ _ _ λ quota e.
      >>=-Holds _ _ _ λ after e. >>=-Holds _ _ _ λ store inserted.
        (_, Holds-ok _ _ store (insert_run-runs _ s.store) inserted, refl, refl, refl, refl)
