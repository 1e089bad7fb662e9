-- ===== src/Common/Xor.antt =====
-- The exclusive or of two numbers, which Go writes `a ^ b`.
use Prim.Native.Nat.{
  ℕ, zero, suc, ◌+◌, ◌*◌, ◌/◌, ◌%◌, ◌<◌, ◌≤◌, bit_xor, bit_xor-bitwise, digits, differ,
}
use mathlib.Core.Path.{◌≡◌, refl, sym, ap, ◌∙◌}
use netman.Common.{ap₂}
use native.Mathlib.Omega.{arith}

abbrev xor_digits : ℕ → ℕ → ℕ → ℕ
xor_digits n a b = digits (λ x. x) differ n a b

enough_digits : (n m a b : ℕ) → a ≤ n → a ≤ m → xor_digits n a b ≡ xor_digits m a b
enough_digits zero zero a b h k = refl
enough_digits zero (suc m) zero b h k = refl
enough_digits (suc n) zero zero b h k = refl
enough_digits (suc n) (suc m) zero b h k = refl
enough_digits (suc n) (suc m) (suc a) b h k =
    ap (λ x. x * 2 + differ (suc a % 2) (b % 2))
      (enough_digits n m (suc a / 2) (b / 2) (omega arith) (omega arith))
enough_digits zero m (suc a) b h k = absurd (omega arith)
enough_digits (suc n) zero (suc a) b h k = absurd (omega arith)

to_digits : (a b : ℕ) → bit_xor a b ≡ xor_digits a a b
to_digits a b = λ i. bit_xor-bitwise a b i

-- The lowest digit, and the digits above it.
bit_xor-digits : (a b : ℕ) → bit_xor a b ≡ bit_xor (a / 2) (b / 2) * 2 + differ (a % 2) (b % 2)
bit_xor-digits zero b = omega (arith, to_digits 0 b, to_digits 0 (b / 2))
bit_xor-digits (suc a) b =
    to_digits (suc a) b
    ∙ ap (λ x. x * 2 + differ (suc a % 2) (b % 2))
        (enough_digits a (suc a / 2) (suc a / 2) (b / 2) (omega arith) (omega arith)
          ∙ sym (to_digits (suc a / 2) (b / 2)))

differ_cases : (p q : ℕ) → p < 2 → q < 2 → (differ p q < 2) × (differ (differ p q) q ≡ p)
differ_cases zero zero h k = (omega arith, refl)
differ_cases zero (suc zero) h k = (omega arith, refl)
differ_cases (suc zero) zero h k = (omega arith, refl)
differ_cases (suc zero) (suc zero) h k = (omega arith, refl)
differ_cases (suc (suc p)) q h k = absurd (omega arith)
differ_cases zero (suc (suc q)) h k = absurd (omega arith)
differ_cases (suc zero) (suc (suc q)) h k = absurd (omega arith)

undo_within : (n a b : ℕ) → a ≤ n → b ≤ n → bit_xor (bit_xor a b) b ≡ a
undo_within zero zero zero ha hb = refl
undo_within zero (suc a) b ha hb = absurd (omega arith)
undo_within zero zero (suc b) ha hb = absurd (omega arith)
undo_within (suc n) a b ha hb =
    let above = bit_xor (a / 2) (b / 2) in
    let low = differ_cases (a % 2) (b % 2) (omega arith) (omega arith) in
    let digit = differ (a % 2) (b % 2) in
    let high : bit_xor a b / 2 ≡ above = omega (arith, bit_xor-digits a b, low.0) in
    let lowest : bit_xor a b % 2 ≡ digit = omega (arith, bit_xor-digits a b, low.0) in
    bit_xor-digits (bit_xor a b) b
    ∙ ap₂ (λ x y. bit_xor x (b / 2) * 2 + differ y (b % 2)) high lowest
    ∙ omega (arith, low.1, undo_within n (a / 2) (b / 2) (omega arith) (omega arith))

-- A second exclusive or with the same number undoes the first.
pub bit_xor_undo : (a b : ℕ) → bit_xor (bit_xor a b) b ≡ a
bit_xor_undo a b = undo_within (a + b) a b (omega arith) (omega arith)
