-- ===== src/Base/Sorting.antt =====
-- `list.sort`: a stable sort by a Boolean order.
use answer_service.Base.{
  ◌≡◌, refl, ◌∙◌, ap, Bool, true, false, List, [], ◌∷◌, inl, inr, suc, arith, if◌then◌else◌, ◌⊎◌,
  All, length, ℕ, zero, take, All-take,
}

-- The second list is the first one in another order: the library's Perm before its truncation, since
-- the lists of a sort need not form a set.
pub data Reorders {ℓ} {A : Type ℓ} : List A → List A → Type ℓ where
  nil : Reorders [] []
  cons : (a : A) {xs ys : List A} → Reorders xs ys → Reorders (a ∷ xs) (a ∷ ys)
  swap : (a b : A) (xs : List A) → Reorders (a ∷ b ∷ xs) (b ∷ a ∷ xs)
  trans : {xs ys zs : List A} → Reorders xs ys → Reorders ys zs → Reorders xs zs

module _ {ℓ} {A : Type ℓ} (le : A → A → Bool) where
  abbrev pub insert : A → List A → List A
  insert x [] = x ∷ []
  insert x (y ∷ ys) = let rest = insert x ys in if le x y then x ∷ y ∷ ys else y ∷ rest

  abbrev pub sort : List A → List A
  sort [] = []
  sort (x ∷ xs) = insert x (sort xs)

  pub length-insert : (x : A) (xs : List A) → length (insert x xs) ≡ suc (length xs)
  length-insert x [] = refl
  length-insert x (y ∷ ys) = ground (arith, length-insert x ys)

  pub length-sort : (xs : List A) → length (sort xs) ≡ length xs
  length-sort [] = refl
  length-sort (x ∷ xs) = length-insert x (sort xs) ∙ ap suc (length-sort xs)

  -- Each element is at most every later one.
  abbrev pub Sorted : List A → Type ℓ
  Sorted [] = Unit
  Sorted (x ∷ xs) = All (λ y. le x y ≡ true) xs × Sorted xs

  All-insert {κ} : (Q : A → Type κ) (x : A) (xs : List A) → Q x → All Q xs → All Q (insert x xs)
  All-insert Q x [] q a = (q, tt)
  All-insert Q x (y ∷ ys) q (b, a) = go (le x y) (All-insert Q x ys q a)
    where
      go : (c : Bool) → All Q (insert x ys) → All Q (if c then x ∷ y ∷ ys else y ∷ insert x ys)
      go true r = (q, (b, a))
      go false r = (b, r)

  pub All-sort {κ} : (Q : A → Type κ) (xs : List A) → All Q xs → All Q (sort xs)
  All-sort Q [] a = tt
  All-sort Q (x ∷ xs) (q, a) = All-insert Q x (sort xs) q (All-sort Q xs a)

  pub Sorted-take : (n : ℕ) (xs : List A) → Sorted xs → Sorted (take n xs)
  Sorted-take zero xs s = tt
  Sorted-take (suc n) [] s = tt
  Sorted-take (suc n) (x ∷ xs) (a, s) = (All-take (λ y. le x y ≡ true) n xs a, Sorted-take n xs s)

  -- A total order, on the elements of which `P` holds.
  pub record OrderOn (P : A → Type ℓ) : Type ℓ where
    pub total : (x y : A) → P x → P y → (le x y ≡ true) ⊎ (le y x ≡ true)
    pub trans : (x y z : A) → P x → P y → P z → le x y ≡ true → le y z ≡ true → le x z ≡ true
    pub antisym : (x y : A) → P x → P y → le x y ≡ true → le y x ≡ true → x ≡ y

module _ {ℓ} {A : Type ℓ} (le : A → A → Bool) (P : A → Type ℓ) (order : OrderOn le P) where
  le-All :
      (x y : A) (ys : List A)
      → P x
      → P y
      → All P ys
      → le x y ≡ true
      → All (λ z. le y z ≡ true) ys
      → All (λ z. le x z ≡ true) ys
  le-All x y [] p q a h b = tt
  le-All x y (z ∷ zs) p q (r, a) h (k, b) = (order.trans x y z p q r h k, le-All x y zs p q a h b)

  insert-Sorted : (x : A) (xs : List A) → P x → All P xs → Sorted le xs → Sorted le (insert le x xs)
  insert-Sorted x [] p a s = (tt, tt)
  insert-Sorted x (y ∷ ys) p (q, a) (b, s) = go (le x y) refl (insert-Sorted x ys p a s)
    where
      go :
          (c : Bool)
          → le x y ≡ c
          → Sorted le (insert le x ys)
          → Sorted le (if c then x ∷ y ∷ ys else y ∷ insert le x ys)
      go true h r = ((h, le-All x y ys p q a h b), (b, s))
      go false h r = (All-insert le (λ z. le y z ≡ true) x ys other b, r)
        where
          other : le y x ≡ true
          other = elim (order.total x y p q) [ inl k ↦ cc | inr k ↦ k ]

  pub sort-Sorted : (xs : List A) → All P xs → Sorted le (sort le xs)
  sort-Sorted [] a = tt
  sort-Sorted (x ∷ xs) (p, a) =
      insert-Sorted x (sort le xs) p (All-sort le P xs a) (sort-Sorted xs a)

  insert-insert :
      (x y : A) (zs : List A)
      → P x
      → P y
      → All P zs
      → insert le x (insert le y zs) ≡ insert le y (insert le x zs)
  insert-insert x y [] p q a = ground (arith, order.total x y p q, order.antisym x y p q)
  insert-insert x y (z ∷ zs) p q (r, a) = ground (
    arith,
    insert-insert x y zs p q a,
    order.total x y p q,
    order.antisym x y p q,
    order.trans x y z p q r,
    order.trans y x z q p r,
  )

  All-Reorders : (Q : A → Type ℓ) {xs ys : List A} → Reorders xs ys → All Q xs → All Q ys
  All-Reorders Q nil a = tt
  All-Reorders Q (cons x r) (q, a) = (q, All-Reorders Q r a)
  All-Reorders Q (swap x y xs) (q, (p, a)) = (p, (q, a))
  All-Reorders Q (trans r s) a = All-Reorders Q s (All-Reorders Q r a)

  -- A total order on its elements sorts a list to the same result from every order.
  pub sort-Reorders : {xs ys : List A} → Reorders xs ys → All P xs → sort le xs ≡ sort le ys
  sort-Reorders nil a = refl
  sort-Reorders (cons x r) (p, a) = ap (insert le x) (sort-Reorders r a)
  sort-Reorders (swap x y xs) (p, (q, a)) = insert-insert x y (sort le xs) p q (All-sort le P xs a)
  sort-Reorders (trans r s) a = sort-Reorders r a ∙ sort-Reorders s (All-Reorders P r a)
