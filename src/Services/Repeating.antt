-- ===== src/Services/Repeating.antt =====
-- proofgraph/generation/services.py: one run for each idempotency key of a canvas.
use proofgraph.Base.{
  ℕ, ◌≡◌, ◌∙◌, refl, sym, ap, subst, String, true, false, Option, some, str_eq, eq_iff, Error, ok,
  err,
}
use proofgraph.Base.Checks.{◌>>=◌, Holds-ok}
use proofgraph.Tables.{RunRequest, GenerationRun}
use proofgraph.Demo.{DemoSession}
use proofgraph.Graph.Tables.{Canvas}
use proofgraph.Graph.Operations.Rows.{Platform}
use proofgraph.Graph.Operations.Apply.{find_canvas}
use proofgraph.Graph.Operations.Calls.{find_canvas_id}
use proofgraph.Services.Creation.{
  Composition, ServiceTables, RunCreated, checked_session, find_by_key, repeat_run, run_created,
  create_generation_run,
}
use proofgraph.Services.Fingerprint.{generation_request_fingerprint}
use proofgraph.Services.Creating.{Creation, create}
use proofgraph.Services.Keeping.{Later, Later-KeptRun, Made, create-Made}

-- The answer to a request under a key that has a run.
answer_to_key :
    (p : Platform) (comp : Composition) (c : Creation) (s : ServiceTables) (fingerprint : String)
    (d : Option DemoSession) (canvas : Canvas) (run : GenerationRun)
    → generation_request_fingerprint p c.request ≡ ok fingerprint
    → checked_session c.now c.canvas_id c.request c.demo_session_id s.sessions ≡ ok d
    → find_canvas c.canvas_id s.canvases ≡ some canvas
    → find_by_key c.canvas_id c.request.idempotency_key s.store.runs ≡ some run
    → create p comp c s ≡ repeat_run fingerprint run s
unfolding create_generation_run ◌>>=◌
answer_to_key p comp c s fingerprint d canvas run e session found kept =
    let here =
      subst (λ i. find_by_key i c.request.idempotency_key s.store.runs ≡ some run)
        (sym (find_canvas_id c.canvas_id s.canvases canvas found)) kept in
    rw (e, session, found, here) refl

repeated_answer :
    (fingerprint : String) (run present : GenerationRun) (later : ServiceTables)
    (answer : RunCreated)
    → run.request_fingerprint ≡ fingerprint
    → present.id ≡ run.id
    → present.request ≡ run.request
    → answer ≡ run_created run run.events_after_sequence
    → repeat_run fingerprint present later
      ≡ ok ((record answer { status = present.status }, 202), later)
unfolding repeat_run run_created
repeated_answer fingerprint run present later answer content same_id same_request first =
    let same : str_eq present.request_fingerprint fingerprint ≡ true =
      (eq_iff present.request_fingerprint fingerprint).1
        (ap (λ (q : RunRequest). q.request_fingerprint) same_request ∙ content) in
    rw (same, first, same_id, same_request) refl

-- A request for a run that was answered may be sent again, at any time and with any fresh id,
-- whatever runs were created or inserted in between, whatever other canvases were deleted, and
-- whatever other transactions wrote, as long as they keep the identity and the request of the
-- runs: if the canvas is still there and the demo session is still accepted, the first run is
-- still the one of the key, the answer names it again, with the status of its row now, and
-- nothing changes.
pub create_generation_run_once :
    (p : Platform) (comp : Composition) (c : Creation) (s t later : ServiceTables)
    (answer : RunCreated) (status now id : ℕ) (session : Option ℕ) (d : Option DemoSession)
    (canvas : Canvas)
    → create p comp c s ≡ ok ((answer, status), t)
    → Later p comp c.canvas_id t later
    → checked_session now c.canvas_id c.request session later.sessions ≡ ok d
    → find_canvas c.canvas_id later.canvases ≡ some canvas
    → (present : GenerationRun) × (find_by_key c.canvas_id c.request.idempotency_key
          later.store.runs
        ≡ some present)
      × (present.id ≡ answer.run_id)
      × (create p comp (record c { now = now; fresh_id = id; demo_session_id = session }) later
          ≡ ok ((record answer { status = present.status }, 202), later))
unfolding repeat_run run_created
create_generation_run_once p comp c s t later answer status now id session d canvas made steps
      accepted found =
    let (f, e, run, first, content, answered) =
      Holds-ok (Made p c) (create p comp c s) ((answer, status), t) (create-Made p comp c s) made in
    let (present, kept, (same_id, same_request)) =
      Later-KeptRun p comp c.canvas_id t later c.request.idempotency_key run steps
        (run, first, (refl, refl)) in
    (
      present,
      kept,
      same_id ∙ ap (λ (x : RunCreated × ℕ). x.0.run_id) (sym answered),
      answer_to_key p comp (record c { now = now; fresh_id = id; demo_session_id = session }) later
            f d canvas present e accepted found kept
          ∙ repeated_answer f run present later answer content same_id same_request
              (ap (λ (x : RunCreated × ℕ). x.0) answered),
    )

-- A creation was answered; since then runs were created or inserted, other canvases were deleted,
-- and other transactions wrote what keeps the identity and the request of the runs. If the canvas
-- is still there and the demo session of a request under the same key is accepted, a request
-- with another fingerprint is refused with 409.
pub idempotency_key_conflict :
    (p : Platform) (comp : Composition) (c again : Creation) (s t later : ServiceTables)
    (answer : RunCreated) (status : ℕ) (d : Option DemoSession) (canvas : Canvas)
    (fingerprint other : String)
    → create p comp c s ≡ ok ((answer, status), t)
    → Later p comp c.canvas_id t later
    → checked_session again.now again.canvas_id again.request again.demo_session_id later.sessions
      ≡ ok d
    → find_canvas again.canvas_id later.canvases ≡ some canvas
    → again.canvas_id ≡ c.canvas_id
    → again.request.idempotency_key ≡ c.request.idempotency_key
    → generation_request_fingerprint p c.request ≡ ok fingerprint
    → generation_request_fingerprint p again.request ≡ ok other
    → str_eq fingerprint other ≡ false
    → create p comp again later ≡ err (Error.api 409 "idempotency_key_conflict")
unfolding repeat_run
idempotency_key_conflict p comp c again s t later answer status d canvas fingerprint other made
      steps accepted found here key e e' differs =
    let (f, e'', run, first, content, answered) =
      Holds-ok (Made p c) (create p comp c s) ((answer, status), t) (create-Made p comp c s) made in
    let (present, kept, (same_id, same_request)) =
      Later-KeptRun p comp c.canvas_id t later c.request.idempotency_key run steps
        (run, first, (refl, refl)) in
    let same : f ≡ fingerprint = cc in
    answer_to_key p comp again later other d canvas present e' accepted found (rw (here, key) kept)
    ∙ rw (same_request, content, same, differs) refl
