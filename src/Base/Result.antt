-- ===== src/Base/Result.antt =====
-- What a handler gives: a value, or the `HTTPException` that it raises, by its status code.
use mathlib.Core.Path.{◌≡◌, refl}
use mathlib.Core.Logic.{◌⊎◌, inl, inr}
use mathlib.Core.Bool.{Bool, true, false}
use mathlib.Core.Option.{Option, none, some}

pub data HttpError : Type 0 where
  bad_request unauthorized forbidden not_found conflict too_large unprocessable : HttpError
  rate_limited server_error : HttpError

pub data Result {ℓ} (A : Type ℓ) : Type ℓ where
  ok : A → Result A
  err : HttpError → Result A

-- An exception that is raised ends the handler.
infixl 5 ◌>>=◌
abbrev pub ◌>>=◌ {κ ℓ} : {B : Type κ} {A : Type ℓ} → Result B → (B → Result A) → Result A
err raised >>= next = err raised
ok value >>= next = next value

infixl 5 ◌>>◌
abbrev pub ◌>>◌ {κ ℓ} : {B : Type κ} {A : Type ℓ} → Result B → Result A → Result A
first >> then_this = first >>= λ value. then_this

-- `if not test: raise HTTPException(e)`
abbrev pub guard : Bool → HttpError → Result (Unit {0})
guard true e = ok tt
guard false e = err e

-- `if row is None: raise HTTPException(e)`
abbrev pub or_raise {ℓ} : {A : Type ℓ} → Option A → HttpError → Result A
or_raise none e = err e
or_raise (some a) e = ok a

pub Result-cases {ℓ} :
    {A : Type ℓ} (r : Result A) → ((a : A) × (r ≡ ok a)) ⊎ ((e : HttpError) × (r ≡ err e))
Result-cases (ok a) = inl (a, refl)
Result-cases (err e) = inr (e, refl)

-- A chain that succeeds has steps that succeed.
pub bind_ok {ℓ κ} :
    {A : Type ℓ} {B : Type κ} (first : Result A) (next : A → Result B) {answer : B}
    → (first >>= next) ≡ ok answer
    → (value : A) × (first ≡ ok value) × (next value ≡ ok answer)
bind_ok (err raised) next h = absurd (cc)
bind_ok (ok value) next h = (value, refl, h)

pub guard_ok : (test : Bool) (e : HttpError) {u : Unit {0}} → guard test e ≡ ok u → test ≡ true
guard_ok true e h = refl
guard_ok false e h = absurd (cc)

pub or_raise_ok {ℓ} :
    {A : Type ℓ} (o : Option A) (e : HttpError) {a : A} → or_raise o e ≡ ok a → o ≡ some a
or_raise_ok none e h = absurd (cc)
or_raise_ok (some b) e h = cc

-- A request that raises is rolled back: the state stays.
abbrev pub after_request {ℓ} : {A : Type ℓ} → A → Result A → A
after_request a (ok b) = b
after_request a (err e) = a

pub after_request-keeps {ℓ κ} :
    {A : Type ℓ} (P : A → Type κ) (a : A) (r : Result A)
    → ((b : A) → r ≡ ok b → P b)
    → P a
    → P (after_request a r)
after_request-keeps P a (ok b) h v = h b refl
after_request-keeps P a (err e) h v = v

-- The state of an answer with a value.
abbrev pub state_of {ℓ κ} : {A : Type ℓ} {B : Type κ} → Result (A × B) → Result A
state_of (ok (a, b)) = ok a
state_of (err e) = err e
