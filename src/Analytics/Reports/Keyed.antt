-- ===== src/Analytics/Reports/Keyed.antt =====
-- The order of the listings over rows with a primary key: it does not depend on how they are stored.
use answer_service.Base.{
  ℕ, ◌≡◌, ◌≤◌, ◌<◌, sym, ◌∙◌, ap, Bool, true, Option, some, List, [], ◌∷◌, filter, All, ◌⊎◌, inl,
  inr, Bool-cases, All-imp, All-filter, arith,
}
use answer_service.Base.Sorting.{
  Reorders, nil, cons, swap, trans, insert, sort, Sorted, OrderOn, sort-Sorted, sort-Reorders,
}
use answer_service.Analytics.Values.{QueryLog}
use answer_service.Analytics.Reports.{QueryLogFilters, SortingOrder, asc, desc, matching, row_le}

module _ {A : Type 0} where
  Reorders-refl : (xs : List A) → Reorders xs xs
  Reorders-refl [] = nil
  Reorders-refl (x ∷ xs) = cons x (Reorders-refl xs)

  pub filter-Reorders :
      (p : A → Bool) {xs ys : List A} → Reorders xs ys → Reorders (filter p xs) (filter p ys)
  filter-Reorders p nil = nil
  filter-Reorders p (cons x r) = elim (Bool-cases (p x)) [
    | inl e ↦ rw e (cons x (filter-Reorders p r))
    | inr e ↦ rw e (filter-Reorders p r)
  ]
  filter-Reorders p (swap x y xs) = elim (Bool-cases (p x)) [
    | inl e ↦ elim (Bool-cases (p y)) [
      | inl h ↦ rw (e, h) (swap x y (filter p xs))
      | inr h ↦ rw (e, h) (cons x (Reorders-refl (filter p xs)))
    ]
    | inr e ↦ elim (Bool-cases (p y)) [
      | inl h ↦ rw (e, h) (cons y (Reorders-refl (filter p xs)))
      | inr h ↦ rw (e, h) (Reorders-refl (filter p xs))
    ]
  ]
  filter-Reorders p (trans r s) = trans (filter-Reorders p r) (filter-Reorders p s)

  insert-Reordering : (le : A → A → Bool) (x : A) (xs : List A) → Reorders (insert le x xs) (x ∷ xs)
  insert-Reordering le x [] = Reorders-refl (x ∷ [])
  insert-Reordering le x (y ∷ ys) = elim (Bool-cases (le x y)) [
    | inl e ↦ rw e (Reorders-refl (x ∷ y ∷ ys))
    | inr e ↦ rw e (trans (cons y (insert-Reordering le x ys)) (swap y x ys))
  ]

  -- A sort reorders its list.
  pub sort-Reordering : (le : A → A → Bool) (xs : List A) → Reorders (sort le xs) xs
  sort-Reordering le [] = nil
  sort-Reordering le (x ∷ xs) =
      trans (insert-Reordering le x (sort le xs)) (cons x (sort-Reordering le xs))

  -- Each element is related to every later one.
  abbrev pub Ordered : (A → A → Type 0) → List A → Type 0
  Ordered R [] = Unit
  Ordered R (x ∷ xs) = All (R x) xs × Ordered R xs

  pub Sorted-Ordered :
      (le : A → A → Bool) (R : A → A → Type 0)
      → ((x y : A) → le x y ≡ true → R x y)
      → (xs : List A) → Sorted le xs
      → Ordered R xs
  Sorted-Ordered le R f [] s = tt
  Sorted-Ordered le R f (x ∷ xs) (a, s) = (All-imp (R x) (f x) xs a, Sorted-Ordered le R f xs s)

module _ {F : Type 0} where
  -- The id of a row is the primary key of its table.
  pub record IsKeyed (rows : List (QueryLog F)) : Type 0 where
    pub row_of : ℕ → Option (QueryLog F)
    pub keyed : All (λ log. row_of log.id ≡ some log) rows

  -- Before in the listing: by the time of the request, and among those of one time by id upwards.
  abbrev pub Precedes : SortingOrder → QueryLog F → QueryLog F → Type 0
  Precedes asc a b =
      (a.occurred_at < b.occurred_at) ⊎ ((a.occurred_at ≡ b.occurred_at) × (a.id ≤ b.id))
  Precedes desc a b =
      (b.occurred_at < a.occurred_at) ⊎ ((a.occurred_at ≡ b.occurred_at) × (a.id ≤ b.id))

  row_le-Precedes : (o : SortingOrder) (a b : QueryLog F) → row_le o a b ≡ true → Precedes o a b
  unfolding row_le
  row_le-Precedes asc a b h = ground arith
  row_le-Precedes desc a b h = ground arith

  module _ (row_of : ℕ → Option (QueryLog F)) where
    abbrev IsStored : QueryLog F → Type 0
    IsStored log = row_of log.id ≡ some log

    row_order : (o : SortingOrder) → OrderOn (row_le o) IsStored
    unfolding row_le
    row_order asc = record {
      total = λ x y p q. ground arith;
      trans = λ x y z p q r h k. ground arith;
      antisym = λ x y p q h k. same x y p q (ground arith);
    }
      where
        same : (x y : QueryLog F) → IsStored x → IsStored y → x.id ≡ y.id → x ≡ y
        same x y p q e = let both : some x ≡ some y = sym p ∙ ap row_of e ∙ q in cc both
    row_order desc = record {
      total = λ x y p q. ground arith;
      trans = λ x y z p q r h k. ground arith;
      antisym = λ x y p q h k. same x y p q (ground arith);
    }
      where
        same : (x y : QueryLog F) → IsStored x → IsStored y → x.id ≡ y.id → x ≡ y
        same x y p q e = let both : some x ≡ some y = sym p ∙ ap row_of e ∙ q in cc both

    kept-IsStored :
        (f : QueryLogFilters) (rows : List (QueryLog F))
        → All IsStored rows
        → All IsStored (filter (matching f) rows)
    kept-IsStored f rows a =
        All-imp IsStored (λ x h. h.0) (filter (matching f) rows)
          (All-filter IsStored (matching f) rows a)

  -- Two scans of the same rows are sorted to the same listing.
  pub listing-Reorders :
      (f : QueryLogFilters) (o : SortingOrder) {rows rows' : List (QueryLog F)}
      → IsKeyed rows
      → Reorders rows rows'
      → sort (row_le o) (filter (matching f) rows) ≡ sort (row_le o) (filter (matching f) rows')
  listing-Reorders f o {rows} k r =
      sort-Reorders (row_le o) (IsStored k.row_of) (row_order k.row_of o)
        (filter-Reorders (matching f) r) (kept-IsStored k.row_of f rows k.keyed)

  pub listing-Ordered :
      (f : QueryLogFilters) (o : SortingOrder) (rows : List (QueryLog F))
      → IsKeyed rows
      → Ordered (Precedes o) (sort (row_le o) (filter (matching f) rows))
  listing-Ordered f o rows k = Sorted-Ordered (row_le o) (Precedes o) (row_le-Precedes o) _ (
      sort-Sorted (row_le o) (IsStored k.row_of) (row_order k.row_of o) (filter (matching f) rows)
        (kept-IsStored k.row_of f rows k.keyed))
