-- ===== src/Settings/Decimals.antt =====
-- Python's `str` of an integer, and that different integers have different texts.
use answer_service.Base.{
  ℕ, zero, suc, ◌+◌, ◌-◌, ◌*◌, ◌/◌, ◌≤◌, ◌≡◌, refl, sym, ◌∙◌, ap, Bool, false, [], ◌∷◌, ◌++◌, ltb,
  nat_beq, if◌then◌else◌, arith,
}
use Prim.Native.Nat.{◌%◌}
use answer_service.Base.Int.{ℤ, pos, negsuc}
use answer_service.Base.Text.{Text}

abbrev pub ℤ_beq : ℤ → ℤ → Bool
ℤ_beq (pos a) (pos b) = nat_beq a b
ℤ_beq (negsuc a) (negsuc b) = nat_beq a b
ℤ_beq _ _ = false

-- The digits of `n`, on fuel that is at least `n`.
digits : ℕ → ℕ → Text
digits zero n = (48 + n) ∷ []
digits (suc fuel) n =
    let front = digits fuel (n / 10) in
    if ltb n 10 then (48 + n) ∷ [] else front ++ ((48 + n % 10) ∷ [])

unfoldable pub show_ℕ : ℕ → Text
unfolding digits
show_ℕ n = digits n n

-- `str(n)`; 45 is the minus sign.
unfoldable pub show_ℤ : ℤ → Text
unfolding show_ℕ
show_ℤ (pos n) = show_ℕ n
show_ℤ (negsuc n) = 45 ∷ show_ℕ (suc n)

-- The number that digits after `a` make.
scan : ℕ → Text → ℕ
scan a [] = a
scan a (c ∷ s) = scan (a * 10 + (c - 48)) s

scan-append : (a : ℕ) (s t : Text) → scan a (s ++ t) ≡ scan (scan a s) t
unfolding scan
scan-append a [] t = refl
scan-append a (c ∷ s) t = scan-append (a * 10 + (c - 48)) s t

scan-digits : (fuel n : ℕ) → n ≤ fuel → scan 0 (digits fuel n) ≡ n
unfolding scan digits
scan-digits zero n h = omega (arith, h)
scan-digits (suc fuel) n h =
    ground
      (arith, scan-digits fuel (n / 10), scan-append 0 (digits fuel (n / 10)) ((48 + n % 10) ∷ []))

-- Different numbers have different texts.
pub show_ℕ-injective : (a b : ℕ) → show_ℕ a ≡ show_ℕ b → a ≡ b
unfolding show_ℕ
show_ℕ-injective a b h =
    sym (scan-digits a a (omega arith)) ∙ ap (scan 0) h ∙ scan-digits b b (omega arith)
