-- ===== src/Indexing/Fingerprint/Injective.antt =====
-- When the joined fields of `ContentHash.of` tell two contents apart.
use answer_service.Base.{not, ◌≡◌, Bool, true, [], ◌∷◌, ◌++◌, contains, nat_eq, arith}
use answer_service.Base.Text.{Text}
use answer_service.Indexing.Fingerprint.{QaContent, field_separator, payload}

-- The text holds no field separator.
abbrev pub is_clean : Text → Bool
is_clean s = not (contains s field_separator)

cut-eq :
    (xs ys us vs : Text)
    → is_clean xs ≡ true
    → is_clean ys ≡ true
    → xs ++ field_separator ∷ us ≡ ys ++ field_separator ∷ vs
    → (xs ≡ ys) × (us ≡ vs)
cut-eq [] [] us vs h k e = ground arith
cut-eq [] (y ∷ ys) us vs h k e = ground arith
cut-eq (x ∷ xs) [] us vs h k e = ground arith
cut-eq (x ∷ xs) (y ∷ ys) us vs h k e = ground (arith, cut-eq xs ys us vs)

-- Two contents whose questions and answers hold no field separator have the same joined fields only
-- if they are the same content.
pub payload-injective :
    (a b : QaContent)
    → is_clean a.question.content ≡ true
    → is_clean a.answer.content ≡ true
    → is_clean b.question.content ≡ true
    → is_clean b.answer.content ≡ true
    → payload a ≡ payload b
    → a ≡ b
unfolding payload
payload-injective a b qa aa qb ab e =
    let (q, rest) = cut-eq a.question.content b.question.content _ _ qa qb e in
    let (w, c) = cut-eq a.answer.content b.answer.content _ _ aa ab rest in
    λ i. record {
      question = record { content = q i };
      answer = record { content = w i };
      category = record { value = c i };
    }
