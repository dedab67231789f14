-- ===== src/Web/Replies.antt =====
-- What a route answers: its schema with the status code of the route, or the answer of
-- presentation/http/v1/common/exception_handler.py to the exception that it raised.
use answer_service.Base.{ℕ, ◌≡◌, refl, Option, none, some, sym, ap}
use answer_service.Errors.{Result, ok, err}
use answer_service.Errors.Status.{service, request_validation, Response, handle}
use answer_service.Application.Io.{Io}

pub data Reply (A : Type 0) : Type 0 where
  shown : (status_code : ℕ) → A → Reply A
  refused : Response → Reply A

module _ {A : Type 0} where
  abbrev pub reply_of : ℕ → Result A → Reply A
  reply_of code (ok a) = shown code a
  reply_of code (err e) = refused (handle (service e))

  reply_of-shown :
      (code code' : ℕ) (r : Result A) (x : A)
      → reply_of code r ≡ shown code' x
      → (code' ≡ code) × (r ≡ ok x)
  reply_of-shown code code' (ok a) x h =
      let e : code ≡ code' = cc h in let k : a ≡ x = cc h in (sym e, ap ok k)
  reply_of-shown code code' (err e) x h = let no : ⊥ = cc h in elim no [ ]

module _ {S A : Type 0} where
  -- The framework around a route's function.
  unfoldable pub respond : (status_code : ℕ) → Io S A → S → Reply A × S
  respond code m s = (reply_of code (m s).0, (m s).1)

  -- The framework's validation of the parameters comes first: RequestValidationError, or the function
  -- of the route.
  unfoldable pub validated :
      {R : Type 0} → (status_code : ℕ) → Option R → (R → Io S A) → S → Reply A × S
  unfolding respond
  validated code none f s = (refused (handle request_validation), s)
  validated code (some r) f s = respond code (f r) s

  -- A route that shows something has accepted its parameters, and its function has returned it.
  pub validated-shown :
      {R : Type 0} (code code' : ℕ) (r : Option R) (f : R → Io S A) (s t : S) (x : A)
      → validated code r f s ≡ (shown code' x, t)
      → (code' ≡ code) × (q : R) × (r ≡ some q) × (f q s ≡ (ok x, t))
  unfolding validated respond
  validated-shown code code' none f s t x h =
      let no : ⊥ = cc (ap (λ (q : Reply A × S). q.0) h) in elim no [ ]
  validated-shown code code' (some q) f s t x h =
      let (same, returned) =
        reply_of-shown code code' (f q s).0 x (ap (λ (p : Reply A × S). p.0) h) in
      let reached : (f q s).1 ≡ t = ap (λ (p : Reply A × S). p.1) h in
      (same, q, refl, λ i. (returned i, reached i))
