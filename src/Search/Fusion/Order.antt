-- ===== src/Search/Fusion/Order.antt =====
-- The sort of the fused ids: its elements, and the total order that its key puts on them.
use answer_service.Base.{
  ℕ, ◌≡◌, refl, sym, ◌∙◌, ap, subst, Bool, true, List, [], ◌∷◌, map, all, All, if◌then◌else◌, arith,
  ◌⊎◌,
}
use answer_service.Base.Text.{text_leb_total, text_leb_antisym, text_leb_trans}
use answer_service.Base.Dict.{get}
use answer_service.Base.Sorting.{Reorders, nil, cons, swap, trans, OrderOn}
use answer_service.Errors.{ok, err, invalid_score}
use answer_service.Indexing.Values.{ExternalId, external_id_eq}
use answer_service.Search.Values.{Float, score}
use answer_service.Search.Fusion.{
  Positions, hit_score, Fused, contribution, fuse_one, fuse_all, key_le,
}

-- IEEE 754: `<=` is a total preorder on the finite floats.
pub record FloatLaws (float : Float) : Type 0 where
  pub total :
      (a b : float.F)
      → float.is_finite a ≡ true
      → float.is_finite b ≡ true
      → (float.le a b ≡ true) ⊎ (float.le b a ≡ true)
  pub trans :
      (a b c : float.F)
      → float.is_finite a ≡ true
      → float.is_finite b ≡ true
      → float.is_finite c ≡ true
      → float.le a b ≡ true
      → float.le b c ≡ true
      → float.le a c ≡ true

module _ (float : Float) (k : ℕ) (dense lexical : Positions float) where
  abbrev pub fused_of : ExternalId → Fused float
  fused_of i = record {
    external_id = i;
    scores = record {
      final = record { value = contribution float k dense lexical i };
      dense = hit_score float (get dense i);
      lexical = hit_score float (get lexical i);
    };
  }

  abbrev pub finite_at : ExternalId → Bool
  finite_at i = float.is_finite (contribution float k dense lexical i)

  pub fuse_all-eq :
      (is : List ExternalId)
      → fuse_all float k dense lexical is
        ≡ (if all finite_at is then ok (map fused_of is) else err invalid_score)
  unfolding fuse_all fuse_one score
  fuse_all-eq [] = refl
  fuse_all-eq (i ∷ is) = ground (arith, fuse_all-eq is)

  pub all-Reorders :
      {xs ys : List ExternalId} → Reorders xs ys → all finite_at xs ≡ all finite_at ys
  all-Reorders nil = refl
  all-Reorders (cons x r) = rw (all-Reorders r)
  all-Reorders (swap x y xs) = ground arith
  all-Reorders (trans r s) = all-Reorders r ∙ all-Reorders s

  pub map-Reorders :
      {xs ys : List ExternalId} → Reorders xs ys → Reorders (map fused_of xs) (map fused_of ys)
  map-Reorders nil = nil
  map-Reorders (cons x r) = cons (fused_of x) (map-Reorders r)
  map-Reorders (swap x y xs) = swap (fused_of x) (fused_of y) (map fused_of xs)
  map-Reorders (trans r s) = trans (map-Reorders r) (map-Reorders s)

  -- An element that the loop makes.
  abbrev pub Made : Fused float → Type 0
  Made x = (finite_at x.external_id ≡ true) × (fused_of x.external_id ≡ x)

  pub All-Made : (is : List ExternalId) → all finite_at is ≡ true → All Made (map fused_of is)
  All-Made [] h = tt
  All-Made (i ∷ is) h = ((ground arith, refl), All-Made is (ground arith))

module _ (float : Float) (laws : FloatLaws float) where
  abbrev pub value_of : Fused float → float.F
  value_of x = x.scores.final.value

  key_le_total :
      (x y : Fused float)
      → float.is_finite (value_of x) ≡ true
      → float.is_finite (value_of y) ≡ true
      → (key_le float x y ≡ true) ⊎ (key_le float y x ≡ true)
  unfolding key_le
  key_le_total x y p q = ground (
    arith,
    laws.total (value_of x) (value_of y) p q,
    text_leb_total x.external_id.value y.external_id.value,
  )

  key_le_trans :
      (x y z : Fused float)
      → float.is_finite (value_of x) ≡ true
      → float.is_finite (value_of y) ≡ true
      → float.is_finite (value_of z) ≡ true
      → key_le float x y ≡ true
      → key_le float y z ≡ true
      → key_le float x z ≡ true
  unfolding key_le
  key_le_trans x y z p q r h k = ground (
    arith,
    laws.trans (value_of x) (value_of y) (value_of z) p q r,
    laws.trans (value_of z) (value_of y) (value_of x) r q p,
    laws.trans (value_of y) (value_of z) (value_of x) q r p,
    laws.trans (value_of z) (value_of x) (value_of y) r p q,
    laws.trans (value_of x) (value_of z) (value_of y) p r q,
    laws.trans (value_of y) (value_of x) (value_of z) q p r,
    text_leb_trans x.external_id.value y.external_id.value z.external_id.value,
  )

  key_le_antisym :
      (x y : Fused float)
      → key_le float x y ≡ true
      → key_le float y x ≡ true
      → x.external_id.value ≡ y.external_id.value
  unfolding key_le
  key_le_antisym x y h k = ground (arith, text_leb_antisym x.external_id.value y.external_id.value)

  module _ (k : ℕ) (dense lexical : Positions float) where
    abbrev Element : Fused float → Type 0
    Element = Made float k dense lexical

    Made-finite : (x : Fused float) → Element x → float.is_finite (value_of x) ≡ true
    Made-finite x (f, e) = subst (λ (y : Fused float). float.is_finite (value_of y) ≡ true) e f

    Made-unique :
        (x y : Fused float) → Element x → Element y → x.external_id ≡ y.external_id → x ≡ y
    Made-unique x y (_, e) (_, e') h = sym e ∙ ap (fused_of float k dense lexical) h ∙ e'

    pub key_order : OrderOn (key_le float) Element
    key_order = record {
      total = λ x y p q. key_le_total x y (Made-finite x p) (Made-finite y q);
      trans =
          λ x y z p q r. key_le_trans x y z (Made-finite x p) (Made-finite y q) (Made-finite z r);
      antisym =
          λ x y p q h h'. Made-unique x y p q (λ i. record { value = key_le_antisym x y h h' i });
    }
