-- ===== src/Application/Io.antt =====
-- A coroutine of the service: it runs on a state, may raise, and leaves the state it has reached
-- beside its result or its error.
use answer_service.Base.{◌≡◌, refl, ◌∙◌, ap, Bool, true, false}
use answer_service.Errors.{Error, Result, ok, err}
use answer_service.Errors.Hierarchy.{caught}

abbrev pub Io {ℓ κ} : Type ℓ → Type κ → Type (ℓ ⊔ κ)
Io S A = S → Result A × S

module _ {ℓ κ} {S : Type ℓ} {A : Type κ} where
  abbrev pub pure : A → Io S A
  pure a s = (ok a, s)

  abbrev pub raise : Error → Io S A
  raise e s = (err e, s)

  -- A call that does not await.
  abbrev pub lift : Result A → Io S A
  lift r s = (r, s)

module _ {ℓ κ μ} {S : Type ℓ} {A : Type κ} {B : Type μ} where
  abbrev pub continue : Result A → (A → Io S B) → Io S B
  continue (ok a) f s = f a s
  continue (err e) f s = (err e, s)

  infixl 5 ◌>>=◌
  abbrev pub ◌>>=◌ : Io S A → (A → Io S B) → Io S B
  ◌>>=◌ m f s = continue (m s).0 f (m s).1

  -- A coroutine that returns has gone through a first part that returned.
  pub >>=-eq-ok :
      (m : Io S A) (f : A → Io S B) (s : S) {b : B} {s' : S}
      → (m >>= f) s ≡ (ok b, s')
      → (a : A) × (t : S) × (m s ≡ (ok a, t)) × (f a t ≡ (ok b, s'))
  >>=-eq-ok m f s {b} {s'} h = go (m s).0 refl h
    where
      go :
          (r : Result A)
          → (m s).0 ≡ r
          → continue r f (m s).1 ≡ (ok b, s')
          → (a : A) × (t : S) × (m s ≡ (ok a, t)) × (f a t ≡ (ok b, s'))
      go (ok a) e k = (a, (m s).1, λ i. (e i, (m s).1), k)
      go (err x) e k = cc (ap (λ (q : Result B × S). q.0) k)

module _ {ℓ κ} {S : Type ℓ} {B : Type κ} where
  infixl 5 ◌>>◌
  abbrev pub ◌>>◌ : Io S (Unit {0}) → Io S B → Io S B
  m >> k = m >>= λ _. k

module _ {ℓ κ} {S : Type ℓ} {A : Type κ} where
  abbrev pub on_caught : Bool → Error → Io S A → Io S A
  on_caught true e k = k
  on_caught false e k = raise e

  abbrev pub try_result : Result A → (Error → Io S A) → Io S A
  try_result (ok a) k s = (ok a, s)
  try_result (err e) k s = on_caught (caught e) e (k e) s

  -- `try: m` with `except AppError as error: k(error)`
  abbrev pub try_app_error : Io S A → (Error → Io S A) → Io S A
  try_app_error m k s = try_result (m s).0 k (m s).1

module _ {ℓ κ μ ν} {S : Type ℓ} {A : Type κ} {B : Type μ} (P : S → Type ν) where
  -- An invariant of the state through a bind, whether its parts return or raise.
  pub >>=-keeps :
      (m : Io S A) (f : A → Io S B) (s : S)
      → P (m s).1
      → ((a : A) → (m s).0 ≡ ok a → P (f a (m s).1).1)
      → P ((m >>= f) s).1
  >>=-keeps m f s h k = go (m s).0 refl
    where
      go : (r : Result A) → (m s).0 ≡ r → P (continue r f (m s).1).1
      go (ok a) e = k a e
      go (err x) e = h

module _ {ℓ ν} {S : Type ℓ} {R : Type ν} (observe : S → R) where
  -- A coroutine that changes nothing of what is observed, whether it returns or raises.
  abbrev pub Keeps {κ} : {A : Type κ} → Io S A → Type (ℓ ⊔ ν)
  Keeps m = (s : S) → observe (m s).1 ≡ observe s

  pub >>=-Keeps {κ μ} :
      {A : Type κ} {B : Type μ} (m : Io S A) (f : A → Io S B)
      → Keeps m
      → ((a : A) → Keeps (f a))
      → Keeps (m >>= f)
  >>=-Keeps {A = A} {B = B} m f h k s = go (m s).0
    where
      go : (r : Result A) → observe (continue r f (m s).1).1 ≡ observe s
      go (ok a) = k a (m s).1 ∙ h s
      go (err x) = h s
