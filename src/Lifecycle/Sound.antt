-- ===== src/Lifecycle/Sound.antt =====
-- What every transaction on the generation tables keeps, and how the parts of one keep it.
use proofgraph.Base.{
  ℕ, ◌≡◌, refl, Bool, true, Option, List, Result, ok, err, Tx, Commits, ◌>>=◌, >>=-Commits, arith,
  Option-cases, Bool-cases, inl, inr,
}
use proofgraph.Json.{Fields}
use proofgraph.Tables.{
  EventType, RunStatus, GenerationRun, GenerationEvent, Store, find_run, find_cursor,
}
use proofgraph.Events.{is_terminal, create_event, append_event_locked}
use proofgraph.Events.Sequences.{InSequence, append_event_locked-InSequence}
use proofgraph.Events.Endings.{EndsOnce, append_event_locked-EndsOnce}
use proofgraph.Queue.{RunLease, store_run, lock_fenced_run, holds}
use proofgraph.Queue.Rows.{In, UniqueIds, find_run-In}
use proofgraph.Queue.Steps.{RunStep, Steps, Steps-refl, Steps-trans, save_run-Steps, only_row}

-- The runs step row by row, events stay numbered without gaps, and an attempt ends once.
pub record Sound (s t : Store) : Type 0 where
  pub steps : Steps s.runs t.runs
  pub sequence : InSequence s → InSequence t
  pub ended : EndsOnce s.events → EndsOnce t.events

pub Sound-refl : (s : Store) → Sound s s
Sound-refl s = record { steps = Steps-refl s.runs; sequence = λ v. v; ended = λ v. v }

pub Sound-trans : (s t u : Store) → Sound s t → Sound t u → Sound s u
Sound-trans s t u p q = record {
  steps = Steps-trans s.runs t.runs u.runs p.steps q.steps;
  sequence = λ v. q.sequence (p.sequence v);
  ended = λ v. q.ended (p.ended v);
}

-- A transaction that is sound from `s` whenever it commits.
abbrev pub SoundTx : {A : Type 0} → Store → Result (A × Store) → Type 0
SoundTx s = Commits (λ _ t. Sound s t)

-- Events and cursors are not touched.
pub same_events :
    (s t : Store) → Steps s.runs t.runs → t.events ≡ s.events → t.cursors ≡ s.cursors → Sound s t
same_events s t st e c = record {
  steps = st;
  sequence = λ v. record {
    canvases = λ canvas last h. rw e (v.canvases canvas last (rw c at h));
    runs = λ run. rw e (v.runs run);
  };
  ended = λ v. rw e v;
}

pub store_run-Sound :
    (run new : GenerationRun) (s : Store)
    → UniqueIds s.runs
    → In run s.runs
    → RunStep run new
    → Sound s (store_run new s)
unfolding store_run
store_run-Sound run new s u there st =
    same_events s (store_run new s)
      (save_run-Steps run new s.runs
        (λ row h e. only_row run s.runs u there row h (rw st.same_id at e)) st)
      refl refl

runs-create_event :
    (run : GenerationRun) (event_type : EventType) (payload : Fields) (s : Store)
    → Commits (λ e t. t.runs ≡ s.runs) (create_event run event_type payload s)
unfolding create_event
runs-create_event run event_type payload s =
    elim (Option-cases (find_cursor run.canvas_id s.cursors)) [
      | inl e ↦ rw (e, create_event) tt
      | inr (last, e) ↦ rw (e, create_event) refl
    ]

pub runs-append_event_locked :
    (run : GenerationRun) (event_type : EventType) (payload : Fields) (once : Bool) (s : Store)
    → Commits (λ e t. t.runs ≡ s.runs) (append_event_locked run event_type payload once s)
unfolding append_event_locked
runs-append_event_locked run event_type payload once s =
    ground (arith, runs-create_event run event_type payload s)

Commits-Sound :
    {A : Type 0} (s : Store) (r : Result (A × Store))
    → Commits (λ _ t. t.runs ≡ s.runs) r
    → (InSequence s → Commits (λ _ t. InSequence t) r)
    → (EndsOnce s.events → Commits (λ _ t. EndsOnce t.events) r)
    → SoundTx s r
Commits-Sound s (ok (a, t)) runs sequence ended = record {
  steps = rw runs (Steps-refl s.runs);
  sequence = sequence;
  ended = ended;
}
Commits-Sound s (err e) runs sequence ended = tt

pub append-Sound :
    (run : GenerationRun) (event_type : EventType) (payload : Fields) (once : Bool) (s : Store)
    → (is_terminal event_type ≡ true → once ≡ true)
    → SoundTx s (append_event_locked run event_type payload once s)
append-Sound run event_type payload once s checked =
    Commits-Sound s _ (runs-append_event_locked run event_type payload once s)
      (append_event_locked-InSequence run event_type payload once s)
      (append_event_locked-EndsOnce run event_type payload once s checked)

pub SoundTx-trans :
    {C : Type 0} (s t : Store) (r : Result (C × Store)) → Sound s t → SoundTx t r → SoundTx s r
SoundTx-trans s t (ok (a, u)) st tu = Sound-trans s t u st tu
SoundTx-trans s t (err e) st tu = tt

-- Soundness of one part after another.
pub bind-Sound :
    {A B : Type 0} (m : Tx Store A) (f : A → Tx Store B) (s : Store) (t : Store)
    → Sound s t
    → SoundTx t (m t)
    → ((a : A) (u : Store) → Sound t u → SoundTx u (f a u))
    → SoundTx s ((m >>= f) t)
bind-Sound m f s t st first rest =
    >>=-Commits m f (λ _ u. Sound t u) (λ _ u. Sound s u) t first
      (λ a u tu. SoundTx-trans s u (f a u) (Sound-trans s t u st tu) (rest a u tu))

-- A run written, an event appended, and the rest of the transaction, which writes nothing.
pub write_append-Sound :
    {B : Type 0} (run new : GenerationRun) (event_type : EventType) (payload : Fields) (once : Bool)
    (f : Option GenerationEvent → Tx Store B) (s : Store)
    → UniqueIds s.runs
    → In run s.runs
    → RunStep run new
    → (is_terminal event_type ≡ true → once ≡ true)
    → ((e : Option GenerationEvent) (u : Store) → SoundTx u (f e u))
    → SoundTx s ((append_event_locked new event_type payload once >>= f) (store_run new s))
write_append-Sound run new event_type payload once f s u there st checked rest =
    bind-Sound (append_event_locked new event_type payload once) f s (store_run new s)
      (store_run-Sound run new s u there st)
      (append-Sound new event_type payload once (store_run new s) checked) (λ a t _. rest a t)

-- What a fenced lock gives: a row of the table that the lease holds, and the same tables.
pub lock_fenced_run-Commits :
    (lease : RunLease) (statuses : List _) (live : Bool) (now : ℕ) (s : Store)
    → Commits
        (λ run t. (t ≡ s) × In run s.runs × (holds lease statuses live now run ≡ true))
        (lock_fenced_run lease statuses live now s)
unfolding lock_fenced_run
lock_fenced_run-Commits lease statuses live now s =
    elim (Option-cases (find_run lease.run_id s.runs)) [
      | inl e ↦ rw (e, lock_fenced_run) tt
      | inr (run, e) ↦ elim (Bool-cases (holds lease statuses live now run)) [
        | inl held ↦
            rw (e, lock_fenced_run, held) (refl, (find_run-In lease.run_id run s.runs e).0, held)
        | inr lost ↦ rw (e, lock_fenced_run, lost) tt
      ]
    ]

-- The body of a transaction that first reads.
pub reads-Sound :
    {A B : Type 0} (P : A → Type 0) (m : Tx Store A) (f : A → Tx Store B) (s : Store)
    → Commits (λ a t. (t ≡ s) × P a) (m s)
    → ((a : A) → P a → SoundTx s (f a s))
    → SoundTx s ((m >>= f) s)
reads-Sound P m f s read body =
    >>=-Commits m f (λ a t. (t ≡ s) × P a) (λ _ t. Sound s t) s read
      (λ a t (same, p). rw same (body a p))

-- The body of a transaction under a fenced lock.
pub locked-Sound :
    {B : Type 0} (lease : RunLease) (statuses : List RunStatus) (live : Bool) (now : ℕ)
    (f : GenerationRun → Tx Store B) (s : Store)
    → ((run : GenerationRun)
        → In run s.runs
        → holds lease statuses live now run ≡ true
        → SoundTx s (f run s))
    → SoundTx s ((lock_fenced_run lease statuses live now >>= f) s)
locked-Sound lease statuses live now f s body =
    >>=-Commits (lock_fenced_run lease statuses live now) f _ (λ _ t. Sound s t) s
      (lock_fenced_run-Commits lease statuses live now s)
      (λ run t (same, there, held). rw same (body run there held))
