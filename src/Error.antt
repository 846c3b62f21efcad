-- ===== src/Error.antt =====
-- src/error.rs: the application errors, and `AppResult`. Recursive code takes fuel, so a result of
-- the model has one more form, `out_of_fuel`, which the code does not have.
use mathlib.Core.Path.{subst}
use kokoadb.Prelude.{ℕ, String, Bool, true, false, ◌≡◌, ◌≢◌, refl, if◌then◌else◌}

pub data AppError : Type 0 where
  bad_request unauthorized conflict not_found timeout internal : String → AppError

pub data AppResult {ℓ} (A : Type ℓ) : Type ℓ where
  ok : A → AppResult A
  err : AppError → AppResult A
  out_of_fuel : AppResult A

infixl 5 ◌>>=◌ ◌>>◌
abbrev pub ◌>>=◌ {ℓ κ} : {A : Type ℓ} {B : Type κ} → AppResult A → (A → AppResult B) → AppResult B
ok a >>= f = f a
err e >>= f = err e
out_of_fuel >>= f = out_of_fuel

abbrev pub ◌>>◌ {ℓ} : {B : Type ℓ} → AppResult (Unit {0}) → AppResult B → AppResult B
m >> k = m >>= λ _. k

-- `into_response`: the HTTP status of an error and the message that is sent.
abbrev pub status_and_message : AppError → ℕ × String
status_and_message (bad_request m) = (400, m)
status_and_message (unauthorized m) = (401, m)
status_and_message (conflict m) = (409, m)
status_and_message (not_found m) = (404, m)
status_and_message (timeout m) = (408, m)
status_and_message (internal m) = (500, m)

-- The run ends within its fuel, and `P` holds of its value if it has one.
pub data Ensures {ℓ κ} {A : Type ℓ} (P : A → Type κ) : AppResult A → Type (ℓ ⊔ κ) where
  holds : {a : A} → P a → Ensures P (ok a)
  failed : {e : AppError} → Ensures P (err e)

module _ {ℓ κ} {A : Type ℓ} {P : A → Type κ} where
  Ensures_at : {r : AppResult A} {a : A} → Ensures P r → r ≡ ok a → P a
  Ensures_at {a} (holds {a = b} p) e = subst P (cc) p
  Ensures_at failed e = cc

  pub Ensures-ok : {r : AppResult A} {a : A} → Ensures P r → r ≡ ok a → P a
  Ensures-ok = Ensures_at

  pub Ensures-returns : {r : AppResult A} → Ensures P r → r ≢ out_of_fuel
  Ensures-returns (holds p) e = cc
  Ensures-returns failed e = cc

  pub Ensures-if :
      (b : Bool) {r t : AppResult A} → Ensures P r → Ensures P t → Ensures P (if b then r else t)
  Ensures-if true p q = p
  Ensures-if false p q = q

module _ {ℓ κ} {A B : Type ℓ} {P : A → Type κ} {Q : B → Type κ} where
  pub Ensures-bind :
      {r : AppResult A} (f : A → AppResult B)
      → Ensures P r
      → ((a : A) → P a → Ensures Q (f a))
      → Ensures Q (r >>= f)
  Ensures-bind f (holds {a = a} p) k = k a p
  Ensures-bind f failed k = failed

-- A run of two steps that succeeds is a success of both.
pub bind-ok {ℓ κ} :
    {A : Type ℓ} {B : Type κ} (r : AppResult A) (f : A → AppResult B) {b : B}
    → (r >>= f) ≡ ok b
    → (a : A) × (r ≡ ok a) × (f a ≡ ok b)
bind-ok (ok a) f h = (a, refl, h)
bind-ok (err e) f h = cc
bind-ok out_of_fuel f h = cc

pub ok_injective : {A : Type 0} {a b : A} → ok a ≡ ok b → a ≡ b
ok_injective h = cc
