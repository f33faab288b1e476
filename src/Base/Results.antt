-- ===== src/Base/Results.antt =====
-- Results of code that may raise, and transactions: an error rolls the whole transaction back,
-- so it carries no state.
use Prim.Native.Nat.{ℕ}
use Prim.Native.String.{String}
use mathlib.Core.Bool.{Bool}
use mathlib.Core.Path.{◌≡◌, refl, sym, subst}
use mathlib.Core.Logic.{◌⊎◌, inl, inr}

-- The exceptions of the modelled code: `GraphAPIError(status, code)`, `LeaseLostError`, a
-- queryset's `DoesNotExist`, `RetentionPolicyError`, `StageExecutionError(code, retryable)`, and
-- any other exception, by the text of its message.
pub data Error : Type 0 where
  api : ℕ → String → Error
  lease_lost : Error
  does_not_exist : Error
  retention_policy : Error
  stage_execution : String → Bool → Error
  other_exception : String → Error

pub data Result {ℓ} (A : Type ℓ) : Type ℓ where
  ok : A → Result A
  err : Error → Result A

abbrev pub bind_result {ℓ κ} : {A : Type ℓ} {B : Type κ} → Result A → (A → Result B) → Result B
bind_result (ok a) f = f a
bind_result (err e) f = err e

pub Result-cases {ℓ} :
    {A : Type ℓ} (r : Result A) → ((a : A) × (r ≡ ok a)) ⊎ ((e : Error) × (r ≡ err e))
Result-cases (ok a) = inl (a, refl)
Result-cases (err e) = inr (e, refl)

-- A block under `transaction.atomic()` over the tables `S`.
abbrev pub Tx : Type 0 → Type 0 → Type 0
Tx S A = S → Result (A × S)

module _ {S : Type 0} where
  infixl 5 ◌>>=◌ ◌>>◌
  abbrev pub ◌>>=◌ : {A B : Type 0} → Tx S A → (A → Tx S B) → Tx S B
  ◌>>=◌ m f s = elim (m s) [ ok (a, t) ↦ f a t | err e ↦ err e ]

  abbrev pub ◌>>◌ : {A B : Type 0} → Tx S A → Tx S B → Tx S B
  m >> n = m >>= λ _. n

  abbrev pub pure : {A : Type 0} → A → Tx S A
  pure a s = ok (a, s)

  abbrev pub raise : {A : Type 0} → Error → Tx S A
  raise e s = err e

  abbrev pub gets : {A : Type 0} → (S → A) → Tx S A
  gets f s = ok (f s, s)

  abbrev pub modify : (S → S) → Tx S (Unit {0})
  modify f s = ok (tt, f s)

  abbrev pub lift : {A : Type 0} → Result A → Tx S A
  lift (ok a) s = ok (a, s)
  lift (err e) s = err e

  -- The state that a transaction leaves: that of the commit, or the old one after a rollback.
  abbrev pub committed : {A : Type 0} → S → Result (A × S) → S
  committed s (ok (a, t)) = t
  committed s (err e) = s

  -- A property that holds of the value and the state of a transaction that commits.
  abbrev pub Commits : {A : Type 0} → (A → S → Type 0) → Result (A × S) → Type 0
  Commits P (ok (a, t)) = P a t
  Commits P (err e) = Unit

  pub >>=-Commits :
      {A B : Type 0} (m : Tx S A) (f : A → Tx S B) (P : A → S → Type 0) (Q : B → S → Type 0) (s : S)
      → Commits P (m s)
      → ((a : A) (t : S) → P a t → Commits Q (f a t))
      → Commits Q ((m >>= f) s)
  >>=-Commits m f P Q s = go (m s)
    where
      go :
          (r : Result (_ × S))
          → Commits P r
          → ((a : _) (t : S) → P a t → Commits Q (f a t))
          → Commits Q (elim r [ ok (a, t) ↦ f a t | err e ↦ err e ])
      go (ok (a, t)) h k = k a t h
      go (err e) h k = tt

  -- One step of a block, whose value is known.
  pub >>=-step :
      {A B : Type 0} (m : Tx S A) (f : A → Tx S B) (Q : B → S → Type 0) (s : S) (a : A) (t : S)
      → m s ≡ ok (a, t)
      → Commits Q (f a t)
      → Commits Q ((m >>= f) s)
  >>=-step m f Q s a t e h =
      >>=-Commits m f (λ b u. Commits Q (f b u)) Q s
        (subst (Commits (λ b u. Commits Q (f b u))) (sym e) h) (λ b u k. k)

  pub >>=-ok :
      {A B : Type 0} (m : Tx S A) (f : A → Tx S B) (s : S) (a : A) (t : S)
      → m s ≡ ok (a, t)
      → (m >>= f) s ≡ f a t
  >>=-ok m f s a t e = rw (e, ◌>>=◌) refl
