-- ===== src/Services/Keeping.antt =====
-- proofgraph/generation/services.py: the run of a key stays.
use proofgraph.Base.{
  ℕ, ◌≡◌, ◌∙◌, refl, subst, String, ◌&&◌, none, some, List, [], ◌∷◌, ◌==◌, str_eq, eq_iff, ok,
  Bool-cases, false, not, keep, inl, inr, arith, &&_true, ==_iff, ==_refl, committed,
}
use proofgraph.Base.Checks.{Holds, Holds-map, committed-Holds}
use proofgraph.Tables.{GenerationRun}
use proofgraph.Graph.Operations.Rows.{Platform}
use proofgraph.Graph.Operations.Effects.{Pointwise, none_left, row}
use proofgraph.Services.Creation.{Composition, ServiceTables, RunCreated, find_by_key, run_created}
use proofgraph.Services.Fingerprint.{generation_request_fingerprint}
use proofgraph.Services.Creating.{Creation, create, create-Holds, Stored, create_run-Stored}

-- A write on runs that keeps their identity and their request.
abbrev pub SameRun : GenerationRun → GenerationRun → Type 0
SameRun x y = (y.id ≡ x.id) × (y.request ≡ x.request)

-- What may follow: creations; runs that other transactions insert, under keys that have none, as
-- the unique key asks; writes that keep the requests of the runs; and the deletion of another
-- canvas with its runs.
pub data Later (p : Platform) (comp : Composition) (canvas : ℕ)
    : ServiceTables → ServiceTables → Type 0 where
  nothing : {s : ServiceTables} → Later p comp canvas s s
  creating :
      {s u : ServiceTables}
      → (c : Creation) → Later p comp canvas (committed s (create p comp c s)) u
      → Later p comp canvas s u
  updating :
      {s u : ServiceTables}
      → (t : ServiceTables) → Pointwise SameRun s.store.runs t.store.runs
      → Later p comp canvas t u
      → Later p comp canvas s u
  inserting :
      {s u : ServiceTables}
      → (t : ServiceTables) (run : GenerationRun) → t.store.runs ≡ run ∷ s.store.runs
      → find_by_key run.canvas_id run.idempotency_key s.store.runs ≡ none
      → Later p comp canvas t u
      → Later p comp canvas s u
  removing :
      {s u : ServiceTables}
      → (t : ServiceTables) (gone : ℕ) → (canvas == gone) ≡ false
      → t.store.runs ≡ keep (λ (run : GenerationRun). not (run.canvas_id == gone)) s.store.runs
      → Later p comp canvas t u
      → Later p comp canvas s u

-- The run of a key, but for what other transactions write.
abbrev pub KeptRun : ℕ → String → GenerationRun → List GenerationRun → Type 0
KeptRun canvas key run runs =
    (now : GenerationRun) × (find_by_key canvas key runs ≡ some now) × SameRun run now

find_by_key-new :
    (canvas : ℕ) (key : String) (new : GenerationRun) (run : GenerationRun)
    (runs : List GenerationRun)
    → find_by_key canvas key runs ≡ some run
    → find_by_key new.canvas_id new.idempotency_key runs ≡ none
    → find_by_key canvas key (new ∷ runs) ≡ some run
unfolding find_by_key
find_by_key-new canvas key new run runs h absent =
    elim (Bool-cases (new.canvas_id == canvas && str_eq new.idempotency_key key)) [
      | inl e ↦
          let (a, b) = &&_true _ _ e in
          let same = (==_iff new.canvas_id canvas).0 a in
          let keys = (eq_iff new.idempotency_key key).0 b in ground (arith, same, keys)
      | inr e ↦ rw e h
    ]

find_by_key-keep :
    (canvas gone : ℕ) (key : String) (run : GenerationRun) (runs : List GenerationRun)
    → (canvas == gone) ≡ false
    → find_by_key canvas key runs ≡ some run
    → find_by_key canvas key (keep (λ (r : GenerationRun). not (r.canvas_id == gone)) runs)
      ≡ some run
unfolding find_by_key keep
find_by_key-keep canvas gone key run [] other h = h
find_by_key-keep canvas gone key run (r ∷ runs) other h =
    ground (arith, find_by_key-keep canvas gone key run runs other)

find_by_key-Pointwise :
    (canvas : ℕ) (key : String) (run : GenerationRun) (xs ys : List GenerationRun)
    → Pointwise SameRun xs ys
    → find_by_key canvas key xs ≡ some run
    → KeptRun canvas key run ys
unfolding find_by_key
find_by_key-Pointwise canvas key run [] [] none_left h = ground arith
find_by_key-Pointwise canvas key run [] (y ∷ ys) absurd h = elim absurd [ ]
find_by_key-Pointwise canvas key run (x ∷ xs) [] absurd h = elim absurd [ ]
find_by_key-Pointwise canvas key run (x ∷ xs) (y ∷ ys) (row (id, request) rest) h =
    elim (Bool-cases (x.canvas_id == canvas && str_eq x.idempotency_key key)) [
      | inl e ↦
          let same : x ≡ run = ground arith in
          (y, rw (request, e) refl, subst (λ (z : GenerationRun). SameRun z y) same (id, request))
      | inr e ↦
          let (now, found, kept) = find_by_key-Pointwise canvas key run xs ys rest (ground arith) in
          (now, rw (request, e) found, kept)
    ]

create-KeptRun :
    (p : Platform) (comp : Composition) (c : Creation) (s : ServiceTables) (canvas : ℕ)
    (key : String) (run : GenerationRun)
    → KeptRun canvas key run s.store.runs
    → Holds
        (λ (out : (RunCreated × ℕ) × ServiceTables). KeptRun canvas key run out.1.store.runs)
        (create p comp c s)
create-KeptRun p comp c s canvas key run (now, found, kept) =
    create-Holds p comp c s _ (λ f d old e1 e2 e3 e4. (now, found, kept))
      λ f d here e1 e2 e3.
        Holds-map (Stored here c.request f s)
          (λ (out : (RunCreated × ℕ) × ServiceTables). KeptRun canvas key run out.1.store.runs) _
          (λ out k (new, runs, a, b, g, answer). (
            now,
            rw runs (find_by_key-new canvas key new now s.store.runs found (rw (a, b) e3)),
            kept,
          ))
          (create_run-Stored comp c.now c.fresh_id here c.request d f s)

pub Later-KeptRun :
    (p : Platform) (comp : Composition) (canvas : ℕ) (s u : ServiceTables) (key : String)
    (run : GenerationRun)
    → Later p comp canvas s u
    → KeptRun canvas key run s.store.runs
    → KeptRun canvas key run u.store.runs
Later-KeptRun p comp canvas s u key run nothing h = h
Later-KeptRun p comp canvas s u key run (creating c rest) h =
    Later-KeptRun p comp canvas (committed s (create p comp c s)) u key run rest (
      committed-Holds (λ (t : ServiceTables). KeptRun canvas key run t.store.runs) s
        (create p comp c s) h (create-KeptRun p comp c s canvas key run h))
Later-KeptRun p comp canvas s u key run (updating t rows rest) (now, found, (id, request)) =
    let (next, here, (id', request')) =
      find_by_key-Pointwise canvas key now s.store.runs t.store.runs rows found in
    Later-KeptRun p comp canvas t u key run rest (next, here, (id' ∙ id, request' ∙ request))
Later-KeptRun p comp canvas s u key run (inserting t new rows absent rest) (now, found, kept) =
    Later-KeptRun p comp canvas t u key run rest
      (now, rw rows (find_by_key-new canvas key new now s.store.runs found absent), kept)
Later-KeptRun p comp canvas s u key run (removing t gone other rows rest) (now, found, kept) =
    Later-KeptRun p comp canvas t u key run rest
      (now, rw rows (find_by_key-keep canvas gone key now s.store.runs other found), kept)

-- What a creation leaves behind.
abbrev pub Made : Platform → Creation → (RunCreated × ℕ) × ServiceTables → Type 0
Made p c out =
    (fingerprint : String) × (generation_request_fingerprint p c.request ≡ ok fingerprint)
    × (run : GenerationRun) × (find_by_key c.canvas_id c.request.idempotency_key out.1.store.runs
        ≡ some run)
    × (run.request_fingerprint ≡ fingerprint)
    × (out.0 ≡ (run_created run run.events_after_sequence, 202))

pub create-Made :
    (p : Platform) (comp : Composition) (c : Creation) (s : ServiceTables)
    → Holds (Made p c) (create p comp c s)
unfolding find_by_key
create-Made p comp c s =
    create-Holds p comp c s (Made p c)
      (λ f here run e1 e2 e3 e4. (
        f,
        e1,
        run,
        subst (λ i. find_by_key i c.request.idempotency_key s.store.runs ≡ some run) e2 e3,
        (eq_iff run.request_fingerprint f).0 e4,
        refl,
      ))
      λ f d here e1 e2 e3.
        Holds-map (Stored here c.request f s) (Made p c) _
          (λ out k (new, runs, a, b, g, answer). (
            f,
            e1,
            new,
            rw
                (
                  runs,
                  a,
                  b,
                  e2,
                  ==_refl c.canvas_id,
                  (eq_iff c.request.idempotency_key c.request.idempotency_key).1 refl,
                )
                refl,
            g,
            answer,
          ))
          (create_run-Stored comp c.now c.fresh_id here c.request d f s)
