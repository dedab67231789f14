-- ===== src/Base/Dict.antt =====
-- Python's `dict`: an association list in insertion order.
use mathlib.Core.Path.{◌≡◌, refl}
use mathlib.Core.Bool.{Bool}
use mathlib.Core.Option.{Option, none, some}
use mathlib.Core.List.{List, [], ◌∷◌, map}
use native.Mathlib.Omega.{arith}
use answer_service.Base.Tests.{Eq, ◌==◌, if◌then◌else◌}
use answer_service.Base.Lists.{contains}

abbrev pub Dict {ℓ κ} : Type ℓ → Type κ → Type (ℓ ⊔ κ)
Dict K V = List (K × V)

abbrev pub keys {ℓ κ} : {K : Type ℓ} {V : Type κ} → Dict K V → List K
keys m = map (λ e. e.0) m

module _ {ℓ κ} {K : Type ℓ} {V : Type κ} ⦃e : Eq K⦄ where
  -- `m.get(k)`
  abbrev pub get : Dict K V → K → Option V
  get [] k = none
  get ((j, v) ∷ m) k = if j == k then some v else get m k

  -- `m[k] = v`: in place for a key that is there, at the end for a new one.
  abbrev pub put : Dict K V → K → V → Dict K V
  put [] k v = (k, v) ∷ []
  put ((j, w) ∷ m) k v = if j == k then (j, v) ∷ m else (j, w) ∷ put m k v

  -- `k in m`
  abbrev pub has : Dict K V → K → Bool
  has m k = contains (keys m) k

  pub get-put :
      (m : Dict K V) (k : K) (v : V) (i : K)
      → get (put m k v) i ≡ (if k == i then some v else get m i)
  get-put [] k v i = refl
  get-put ((j, w) ∷ m) k v i =
      ground (arith, e.beq_iff j k, e.beq_iff j i, e.beq_iff k i, get-put m k v i)
