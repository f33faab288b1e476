-- ===== src/Base/Checks.antt =====
-- Code that only reads and may raise, as `do` blocks of results.
use Prim.Native.String.{String}
use Prim.Native.Nat.{ℕ}
use mathlib.Core.Path.{◌≡◌, refl, subst}
use mathlib.Core.Bool.{Bool}
use proofgraph.Base.Tests.{if◌then◌else◌}
use proofgraph.Base.Results.{Error, Result, ok, err, committed}

infixl 5 ◌>>=◌ ◌>>◌
unfoldable pub ◌>>=◌ {ℓ κ} : {A : Type ℓ} {B : Type κ} → Result A → (A → Result B) → Result B
ok a >>= f = f a
err e >>= f = err e

abbrev pub ◌>>◌ {κ} : {B : Type κ} → Result (Unit {0}) → Result B → Result B
m >> k = m >>= λ _. k

-- raise GraphAPIError(status=..., code=...), if the test holds.
abbrev pub refuse : Bool → ℕ → String → Result (Unit {0})
refuse test status code = if test then err (Error.api status code) else ok tt

-- A property of the value, if there is one.
abbrev pub Holds {ℓ κ} : {A : Type ℓ} → (A → Type κ) → Result A → Type κ
Holds P (ok a) = P a
Holds P (err e) = Unit

-- After a step that is known to have succeeded.
pub >>=-Holds {ℓ κ μ} :
    {A : Type ℓ} {B : Type κ} (m : Result A) (f : A → Result B) (P : B → Type μ)
    → ((a : A) → m ≡ ok a → Holds P (f a))
    → Holds P (m >>= f)
unfolding ◌>>=◌
>>=-Holds (ok a) f P h = h a refl
>>=-Holds (err e) f P h = tt

pub Holds-map {ℓ κ μ} :
    {A : Type ℓ} (P : A → Type κ) (Q : A → Type μ) (r : Result A)
    → ((a : A) → r ≡ ok a → P a → Q a)
    → Holds P r
    → Holds Q r
Holds-map P Q (ok a) k h = k a refl h
Holds-map P Q (err e) k h = tt

-- What is known of every value, of the value there is.
pub Holds-ok {ℓ κ} :
    {A : Type ℓ} (P : A → Type κ) (r : Result A) (a : A) → Holds P r → r ≡ ok a → P a
Holds-ok P r a h e = subst (Holds P) e h

-- The state that a transaction leaves has what the old state and every new one have.
pub committed-Holds {κ} :
    {A S : Type 0} (P : S → Type κ) (s : S) (r : Result (A × S))
    → P s
    → Holds (λ out. P out.1) r
    → P (committed s r)
committed-Holds P s (ok (a, t)) h k = k
committed-Holds P s (err e) h k = h
