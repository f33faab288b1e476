-- ===== src/Queue/Steps.antt =====
-- How an operation may change a run, and a table of runs, row by row.
use proofgraph.Base.{
  ℕ, ◌≤◌, ◌≡◌, refl, ap, ◌∙◌, ◌⊎◌, inl, inr, Bool, true, false, none, List, [], ◌∷◌, arith, ◌==◌,
  if◌then◌else◌, Bool-cases,
}
use proofgraph.Tables.{RunStatus, RunRequest, GenerationRun, find_run, save_run}
use proofgraph.Services.{is_some}
use proofgraph.Queue.Rows.{In, UniqueIds, find_run-In'}

-- The statuses in which a worker holds the run.
abbrev pub is_leased : RunStatus → Bool
is_leased RunStatus.running = true
is_leased RunStatus.patch_ready = true
is_leased _ = false

-- models.py: the check constraint ck_run_lease_state. All lease fields are set in a leased status,
-- and none in any other.
pub record LeaseState (r : GenerationRun) : Type 0 where
  pub worker : is_some r.worker_id ≡ is_leased r.status
  pub token : is_some r.lease_token ≡ is_leased r.status
  pub heartbeat : is_some r.heartbeat_at ≡ is_leased r.status
  pub expiry : is_some r.lease_expires_at ≡ is_leased r.status

-- Completed and cancelled runs stay so.
abbrev pub is_closed : RunStatus → Bool
is_closed RunStatus.completed = true
is_closed RunStatus.cancelled = true
is_closed _ = false

-- What any operation keeps of a run.
pub record RunStep (r q : GenerationRun) : Type 0 where
  pub same_id : q.id ≡ r.id
  pub same_request : q.request ≡ r.request
  pub epoch : r.lease_epoch ≤ q.lease_epoch
  pub attempts : r.attempt ≤ q.attempt
  pub budget : r.attempt ≤ r.max_attempts → q.attempt ≤ r.max_attempts
  pub fenced :
      q.lease_epoch ≡ r.lease_epoch
      → (q.lease_token ≡ none) ⊎ ((q.lease_token ≡ r.lease_token) × (q.worker_id ≡ r.worker_id))
  pub closed : is_closed r.status ≡ true → q.status ≡ r.status
  pub lease : LeaseState r → LeaseState q

pub RunStep-refl : (r : GenerationRun) → RunStep r r
RunStep-refl r = record {
  same_id = refl;
  same_request = refl;
  epoch = omega arith;
  attempts = omega arith;
  budget = λ h. h;
  fenced = λ e. inr (refl, refl);
  closed = λ c. refl;
  lease = λ l. l;
}

-- A write that keeps the epoch and the attempt, and gives the lease back or keeps it.
module _ (run new : GenerationRun) (same_id : new.id ≡ run.id)
    (same_request : new.request ≡ run.request) (epoch : new.lease_epoch ≡ run.lease_epoch)
    (attempt : new.attempt ≡ run.attempt) where
  pub ending-RunStep :
      new.lease_token ≡ none
      → (is_closed run.status ≡ true → new.status ≡ run.status)
      → LeaseState new
      → RunStep run new
  ending-RunStep gone closed lease = record {
    same_id = same_id;
    same_request = same_request;
    epoch = omega arith;
    attempts = omega arith;
    budget = λ b. omega arith;
    fenced = λ e. inl gone;
    closed = closed;
    lease = λ l. lease;
  }

  pub holding-RunStep :
      new.lease_token ≡ run.lease_token
      → new.worker_id ≡ run.worker_id
      → (is_closed run.status ≡ true → new.status ≡ run.status)
      → (LeaseState run → LeaseState new)
      → RunStep run new
  holding-RunStep token worker closed lease = record {
    same_id = same_id;
    same_request = same_request;
    epoch = omega arith;
    attempts = omega arith;
    budget = λ b. omega arith;
    fenced = λ e. inr (token, worker);
    closed = closed;
    lease = lease;
  }

fenced_trans :
    (a b c : GenerationRun)
    → RunStep a b
    → RunStep b c
    → c.lease_epoch ≡ a.lease_epoch
    → (c.lease_token ≡ none) ⊎ ((c.lease_token ≡ a.lease_token) × (c.worker_id ≡ a.worker_id))
fenced_trans a b c p q e =
    join (p.fenced (omega (arith, p.epoch, q.epoch))) (q.fenced (omega (arith, p.epoch, q.epoch)))
  where
    join :
        (b.lease_token ≡ none) ⊎ ((b.lease_token ≡ a.lease_token) × (b.worker_id ≡ a.worker_id))
        → (c.lease_token ≡ none) ⊎ ((c.lease_token ≡ b.lease_token) × (c.worker_id ≡ b.worker_id))
        → (c.lease_token ≡ none) ⊎ ((c.lease_token ≡ a.lease_token) × (c.worker_id ≡ a.worker_id))
    join _ (inl gone) = inl gone
    join (inl gone) (inr (t, w)) = inl (t ∙ gone)
    join (inr (t, w)) (inr (t', w')) = inr (t' ∙ t, w' ∙ w)

pub RunStep-trans : (a b c : GenerationRun) → RunStep a b → RunStep b c → RunStep a c
RunStep-trans a b c p q = record {
  same_id = q.same_id ∙ p.same_id;
  same_request = q.same_request ∙ p.same_request;
  epoch = omega (arith, p.epoch, q.epoch);
  attempts = omega (arith, p.attempts, q.attempts);
  budget = λ h.
      rw (ap (λ (r : RunRequest). r.max_attempts) p.same_request) at
        (q.budget (rw (ap (λ (r : RunRequest). r.max_attempts) p.same_request) (p.budget h)));
  fenced = fenced_trans a b c p q;
  closed = λ h. q.closed (rw (p.closed h) h) ∙ p.closed h;
  lease = λ l. q.lease (p.lease l);
}

-- The rows step one by one; none appears or goes.
abbrev pub Steps : List GenerationRun → List GenerationRun → Type 0
Steps [] [] = Unit
Steps (r ∷ rows) (q ∷ rows') = RunStep r q × Steps rows rows'
Steps _ _ = ⊥

pub Steps-refl : (rows : List GenerationRun) → Steps rows rows
Steps-refl [] = tt
Steps-refl (r ∷ rows) = (RunStep-refl r, Steps-refl rows)

pub Steps-trans : (a b c : List GenerationRun) → Steps a b → Steps b c → Steps a c
Steps-trans [] [] [] p q = tt
Steps-trans [] [] (z ∷ c) p q = q
Steps-trans [] (y ∷ b) c p q = elim p [ ]
Steps-trans (x ∷ a) [] c p q = elim p [ ]
Steps-trans (x ∷ a) (y ∷ b) [] p q = elim q [ ]
Steps-trans (x ∷ a) (y ∷ b) (z ∷ c) p q = (RunStep-trans x y z p.0 q.0, Steps-trans a b c p.1 q.1)

-- A save under the primary key steps the row that was read.
pub save_run-Steps :
    (run new : GenerationRun) (rows : List GenerationRun)
    → ((row : GenerationRun) → In row rows → row.id ≡ new.id → row ≡ run)
    → RunStep run new
    → Steps rows (save_run new rows)
unfolding save_run
save_run-Steps run new [] only st = tt
save_run-Steps run new (row ∷ rows) only st =
    (stepped, save_run-Steps run new rows (λ r h. only r (inr h)) st)
  where
    stepped : RunStep row (if row.id == new.id then new else row)
    stepped = elim (Bool-cases (row.id == new.id)) [
      | inl e ↦ rw e (rw (only row (inl refl) (ground arith)) st)
      | inr e ↦ rw e (RunStep-refl row)
    ]

-- The only row with the identifier of a run is that run.
pub only_row :
    (run : GenerationRun) (rows : List GenerationRun)
    → UniqueIds rows
    → In run rows
    → (row : GenerationRun) → In row rows
    → row.id ≡ run.id
    → row ≡ run
only_row run rows u h row h' e =
    cc (find_run-In' run rows u h, find_run-In' row rows u h', ap (λ (n : ℕ). find_run n rows) e)
