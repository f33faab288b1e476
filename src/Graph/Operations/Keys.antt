-- ===== src/Graph/Operations/Keys.antt =====
-- The operation key: an operation is applied once, whatever is called in between.
use proofgraph.Base.{
  ℕ, ◌+◌, ◌≡◌, refl, sym, ◌∙◌, String, false, Option, none, some, List, [], ◌∷◌, ◌==◌, str_eq,
  Error, ok, err, Bool-cases, inl, inr, committed, arith, subst, eq_iff, ==_refl, ◌&&◌, &&_true,
  ==_iff, ◌+◌,
}
use proofgraph.Base.Checks.{Holds, Holds-map, Holds-ok, committed-Holds, ◌>>=◌}
use proofgraph.Json.{Fields}
use proofgraph.Graph.Tables.{Canvas, GraphOperation}
use proofgraph.Graph.Operations.Rows.{Platform, Supply}
use proofgraph.Graph.Operations.Apply.{
  GraphTables, Request, canonical_request, find_canvas, find_operation, operation_row, replay,
  apply_request, apply_graph_operation,
}
use proofgraph.Graph.Operations.Calls.{
  Call, call, serve, call-Holds, perform_operation-Performed, Performed, find_canvas_id, saved,
  find_canvas-save_canvas,
}

-- The canvas is there, with an operation of the actor under the key.
abbrev pub Kept : ℕ → String → String → GraphOperation → GraphTables → Type 0
Kept canvas_id actor key o t =
    ((canvas : Canvas) × (find_canvas canvas_id t.canvases ≡ some canvas))
    × (find_operation canvas_id actor key t.operations ≡ some o)

-- A row under a new key does not come before the one that is kept.
find_operation-new :
    (id : ℕ) (actor key : String) (new o : GraphOperation) (operations : List GraphOperation)
    → find_operation id actor key operations ≡ some o
    → find_operation new.canvas_id new.actor_type new.operation_key operations ≡ none
    → find_operation id actor key (new ∷ operations) ≡ some o
unfolding find_operation
find_operation-new id actor key new o operations h absent =
    elim (Bool-cases
      (new.canvas_id == id && str_eq new.actor_type actor && str_eq new.operation_key key)) [
        | inl e ↦
            let (ab, k) = &&_true _ _ e in
            let (a, b) = &&_true _ _ ab in
            let same = (==_iff new.canvas_id id).0 a in
            let actors = (eq_iff new.actor_type actor).0 b in
            let keys = (eq_iff new.operation_key key).0 k in ground (arith, same, actors, keys)
        | inr e ↦ rw e h
      ]

-- What a call leaves keeps the operation.
call-Kept :
    (p : Platform) (c : Call) (s : GraphTables) (id : ℕ) (actor key : String) (o : GraphOperation)
    → Kept id actor key o s
    → Holds (λ (out : Fields × GraphTables). Kept id actor key o out.1) (call p c s)
unfolding operation_row
call-Kept p c s id actor key o ((canvas, found), h) =
    call-Holds p c s _ (λ r d old e1 e2 e3 e4. ((canvas, found), h))
      λ r d e1 e2 e3.
        Holds-map (Performed c.supply d c.actor_type c.actor_id r s)
          (λ (out : Fields × GraphTables). Kept id actor key o out.1) _
          (λ out k (operations, canvases). (
            (
              saved d.id (d.revision + 1) c.supply.now canvas,
              rw canvases (
                  find_canvas-save_canvas id d.id (d.revision + 1) c.supply.now s.canvases canvas
                    found),
            ),
            rw operations (find_operation-new id actor key _ o s.operations h e3),
          ))
          (perform_operation-Performed p c.supply d c.actor_type c.actor_id r s)

serve-Kept :
    (p : Platform) (calls : List Call) (s : GraphTables) (id : ℕ) (actor key : String)
    (o : GraphOperation)
    → Kept id actor key o s
    → Kept id actor key o (serve p calls s)
unfolding serve
serve-Kept p [] s id actor key o h = h
serve-Kept p (c ∷ calls) s id actor key o h =
    serve-Kept p calls (committed s (call p c s)) id actor key o
      (committed-Holds (Kept id actor key o) s (call p c s) h (call-Kept p c s id actor key o h))

-- What a call that commits leaves behind: its operation, with its result and its fingerprint.
abbrev pub Recorded : Platform → Call → Fields × GraphTables → Type 0
Recorded p c out =
    (r : Request) × (canonical_request p c.payload ≡ ok r)
    × (o : GraphOperation) × Kept c.canvas_id c.actor_type r.operation_key o out.1
    × (o.result_payload ≡ out.0)
    × (o.request_fingerprint ≡ r.fingerprint)

call-Recorded : (p : Platform) (c : Call) (s : GraphTables) → Holds (Recorded p c) (call p c s)
unfolding find_operation operation_row
call-Recorded p c s =
    call-Holds p c s (Recorded p c)
      (λ r canvas old e1 e2 e3 e4. (
        r,
        e1,
        old,
        (
          (canvas, e2),
          subst (λ id. find_operation id c.actor_type r.operation_key s.operations ≡ some old)
              (find_canvas_id c.canvas_id s.canvases canvas e2) e3,
        ),
        refl,
        (eq_iff old.request_fingerprint r.fingerprint).0 e4,
      ))
      λ r canvas e1 e2 e3.
        Holds-map (Performed c.supply canvas c.actor_type c.actor_id r s) (Recorded p c) _
          (λ out k (operations, canvases). (
            r,
            e1,
            operation_row c.supply canvas c.actor_type c.actor_id r out.0,
            (
              (
                saved canvas.id (canvas.revision + 1) c.supply.now canvas,
                rw canvases (
                    find_canvas-save_canvas c.canvas_id canvas.id (canvas.revision + 1) c.supply.now
                      s.canvases canvas e2),
              ),
              rw
                  (
                    operations,
                    find_canvas_id c.canvas_id s.canvases canvas e2,
                    (eq_iff c.actor_type c.actor_type).1 refl,
                    (eq_iff r.operation_key r.operation_key).1 refl,
                    ==_refl c.canvas_id,
                  )
                  refl,
            ),
            refl,
            refl,
          ))
          (perform_operation-Performed p c.supply canvas c.actor_type c.actor_id r s)

-- The answer to a call under a key that is kept.
answer_to_key :
    (p : Platform) (c : Call) (t : GraphTables) (r : Request) (o : GraphOperation)
    → canonical_request p c.payload ≡ ok r
    → Kept c.canvas_id c.actor_type r.operation_key o t
    → call p c t ≡ replay r o t
unfolding apply_graph_operation apply_request ◌>>=◌
answer_to_key p c t r o e ((canvas, found), kept) =
    let same = find_canvas_id c.canvas_id t.canvases canvas found in
    let here =
      subst (λ id. find_operation id c.actor_type r.operation_key t.operations ≡ some o) (sym same)
        kept in
    rw (e, apply_request, found, here) refl

-- A call that committed may be sent again, with any clock and by any client of the same actor
-- type: whatever was called in between, the answer is the first one and nothing changes.
pub apply_graph_operation_once :
    (p : Platform) (c : Call) (s t : GraphTables) (result : Fields) (calls : List Call)
    (supply : Supply) (actor_id : Option String)
    → call p c s ≡ ok (result, t)
    → let later = serve p calls t in
      call p (record c { supply = supply; actor_id = actor_id }) later ≡ ok (result, later)
unfolding replay
apply_graph_operation_once p c s t result calls supply actor_id h =
    let (r, e, o, kept, same_result, same_content) =
      Holds-ok (Recorded p c) (call p c s) (result, t) (call-Recorded p c s) h in
    let later = serve p calls t in
    answer_to_key p (record c { supply = supply; actor_id = actor_id }) later r o e
      (serve-Kept p calls t c.canvas_id c.actor_type r.operation_key o kept)
    ∙ rw (same_result, same_content, (eq_iff r.fingerprint r.fingerprint).1 refl) refl

-- A key that a committed call has used is refused with 409 for a request with another
-- fingerprint, whatever was called in between.
pub operation_key_conflict :
    (p : Platform) (c d : Call) (s t : GraphTables) (result : Fields) (calls : List Call)
    (r other : Request)
    → call p c s ≡ ok (result, t)
    → canonical_request p c.payload ≡ ok r
    → canonical_request p d.payload ≡ ok other
    → d.canvas_id ≡ c.canvas_id
    → d.actor_type ≡ c.actor_type
    → other.operation_key ≡ r.operation_key
    → str_eq r.fingerprint other.fingerprint ≡ false
    → call p d (serve p calls t) ≡ err (Error.api 409 "operation_key_conflict")
unfolding replay
operation_key_conflict p c d s t result calls r other h e e' canvas actor key differs =
    let (r', e'', o, kept, same_result, same_content) =
      Holds-ok (Recorded p c) (call p c s) (result, t) (call-Recorded p c s) h in
    let same : r' ≡ r = cc in
    let later = serve p calls t in
    answer_to_key p d later other o e' (
      rw (canvas, actor, key, sym same)
        (serve-Kept p calls t c.canvas_id c.actor_type r'.operation_key o kept))
    ∙ rw (same_content, same, differs) refl
