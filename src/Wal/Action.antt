-- ===== src/Wal/Action.antt =====
-- Actions on the object store: the `async` methods of src/storage/s3_wal, which end with `?` at the
-- first error.
use kokoadb.Prelude.{◌≡◌, refl, ap, Option, none, some, arith, sym}
use kokoadb.Error.{AppError, AppResult, ok, err, out_of_fuel}

-- An action may fail, and what it has written before stays written.
abbrev pub Action : Type 0 → Type 0 → Type 0
Action S A = S → AppResult A × S

module _ {S A B : Type 0} where
  abbrev pub continue : AppResult A → (A → Action S B) → Action S B
  continue (ok a) f s = f a s
  continue (err e) f s = (err e, s)
  continue out_of_fuel f s = (out_of_fuel, s)

  infixl 5 ◌>>=◌ ◌>>◌
  abbrev pub ◌>>=◌ : Action S A → (A → Action S B) → Action S B
  ◌>>=◌ m f s = continue (m s).0 f (m s).1

  abbrev pub ◌>>◌ : Action S A → Action S B → Action S B
  m >> k = m >>= λ _. k

abbrev pub pure : {S A : Type 0} → A → Action S A
pure a s = (ok a, s)

abbrev pub raise : {S A : Type 0} → AppError → Action S A
raise e s = (err e, s)

abbrev pub expect : {S A : Type 0} → Option A → AppError → Action S A
expect none e = raise e
expect (some a) e = pure a

-- Inversion of a successful sequence.
module _ {S A B : Type 0} where
  continue-ok :
      (w : AppResult A) (f : A → Action S B) (s : S) {b : B} {t : S}
      → continue w f s ≡ (ok b, t)
      → (a : A) × (w ≡ ok a) × (f a s ≡ (ok b, t))
  continue-ok (ok a) f s h = (a, refl, h)
  continue-ok (err e) f s h = cc (ap (λ p. p.0) h)
  continue-ok out_of_fuel f s h = cc (ap (λ p. p.0) h)

  pub bind-ok :
      (m : Action S A) (f : A → Action S B) (s : S) {b : B} {t : S}
      → (m >>= f) s ≡ (ok b, t)
      → (a : A) × ((m s).0 ≡ ok a) × (f a (m s).1 ≡ (ok b, t))
  bind-ok m f s h = continue-ok (m s).0 f (m s).1 h

pub expect-ok :
    {S A : Type 0} (o : Option A) (e : AppError) (s : S) {a : A} {t : S}
    → expect o e s ≡ (ok a, t)
    → (o ≡ some a) × (s ≡ t)
expect-ok none e s h = cc (ap (λ p. p.0) h)
expect-ok (some x) e s h = (ground arith, ground arith)

ok_injective : {A : Type 0} {a b : A} → ok a ≡ ok b → a ≡ b
ok_injective h = cc

-- An action whose result is then replaced.
pub then_pure-ok :
    {S A B : Type 0} (m : Action S A) (x : B) (s : S) {b : B} {t : S}
    → (m >> pure x) s ≡ (ok b, t)
    → (a : A) × (m s ≡ (ok a, t)) × (b ≡ x)
then_pure-ok m x s h =
    let (a, ran, rest) = bind-ok m (λ _. pure x) s h in
    let state = ap (λ p. p.1) rest in
    let value = ap (λ p. p.0) rest in (a, (λ i. (ran i, state i)), sym (ok_injective value))
