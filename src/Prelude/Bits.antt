-- ===== src/Prelude/Bits.antt =====
-- Bounds on the bits that a mask keeps, and the numbers of one bit at most.
use Prim.Native.Nat.{
  ℕ, zero, suc, ◌+◌, ◌-◌, ◌*◌, ◌/◌, ◌^◌, ◌≤◌, ◌<◌, min, bit_and, bit_and-bitwise, digits,
}
use mathlib.Core.Path.{◌≡◌, refl, sym, ap, subst, ◌∙◌}
use mathlib.Core.Logic.{◌⊎◌, inl, inr}
use native.Mathlib.Nat.{pow-suc, one-le-pow}
use native.Mathlib.Omega.{arith}

no_digits : (n a : ℕ) → digits (λ b. zero) min n a 0 ≡ 0
no_digits zero a = refl
no_digits (suc n) zero = refl
no_digits (suc n) (suc a) = omega (arith, no_digits n (suc a / 2))

one_digit : (n a : ℕ) → digits (λ b. zero) min n a 1 < 2
one_digit zero a = omega arith
one_digit (suc n) zero = omega arith
one_digit (suc n) (suc a) = omega (arith, no_digits n (suc a / 2))

second_digit : (n a : ℕ) → digits (λ b. zero) min n a 2 < 4
second_digit zero a = omega arith
second_digit (suc n) zero = omega arith
second_digit (suc n) (suc a) = omega (arith, one_digit n (suc a / 2))

two_digits : (n a : ℕ) → digits (λ b. zero) min n a 3 < 4
two_digits zero a = omega arith
two_digits (suc n) zero = omega arith
two_digits (suc n) (suc a) = omega (arith, one_digit n (suc a / 2))

pub bit_and_2 : (s : ℕ) → bit_and s 2 < 4
bit_and_2 s =
    let e : bit_and s 2 ≡ digits (λ b. zero) min s s 2 = λ i. bit_and-bitwise s 2 i in
    omega (arith, e, second_digit s s)

pub bit_and_3 : (s : ℕ) → bit_and s 3 < 4
bit_and_3 s =
    let e : bit_and s 3 ≡ digits (λ b. zero) min s s 3 = λ i. bit_and-bitwise s 3 i in
    omega (arith, e, two_digits s s)

-- A number with one bit set at most.
abbrev pub AtMostOneBit : ℕ → Type 0
AtMostOneBit v = (v ≡ 0) ⊎ ((i : ℕ) × (v ≡ 2 ^ i))

-- The digits of `bit_and`, on any fuel that is enough.
abbrev common_digits : ℕ → ℕ → ℕ → ℕ
common_digits n a b = digits (λ b. zero) min n a b

common_digits_self : (n a : ℕ) → a ≤ n → common_digits n a a ≡ a
common_digits_self zero a h = omega arith
common_digits_self (suc n) zero h = refl
common_digits_self (suc n) (suc a) h = omega (arith, common_digits_self n (suc a / 2) (omega arith))

one_bit_above : (a i : ℕ) → a ≡ 2 ^ i → a + a ≡ 2 ^ suc i
one_bit_above a i e = omega (arith, e, pow-suc 2 i)

-- A number and the one below differ in their lowest digit.
common_digits-pred :
    (n a : ℕ) → common_digits (suc n) (suc a) a ≡ common_digits n (suc a / 2) (a / 2) * 2
common_digits-pred n a = ground arith

common_digits-below :
    (n a : ℕ) → common_digits (suc n) (suc a) (suc a - 1) ≡ common_digits (suc n) (suc a) a
common_digits-below n a =
    let below : suc a - 1 ≡ a = omega arith in ap (common_digits (suc n) (suc a)) below

-- Even or odd, by the halves.
halves :
    (a : ℕ)
    → ((a / 2 ≡ suc a / 2 - 1) × (suc a ≡ suc a / 2 + suc a / 2))
      ⊎ ((a / 2 ≡ suc a / 2) × (a ≡ suc a / 2 + suc a / 2))
halves a = ground arith

doubled : (h : ℕ) → AtMostOneBit h → AtMostOneBit (h + h)
doubled h (inl e) = inl (omega (arith, e))
doubled h (inr (i, e)) = inr (suc i, one_bit_above h i e)

common_digits-one_bit : (n a : ℕ) → a ≤ n → common_digits n a (a - 1) ≡ 0 → AtMostOneBit a
common_digits-one_bit n zero h e = inl refl
common_digits-one_bit zero (suc a) h e = absurd (omega arith)
common_digits-one_bit (suc n) (suc a) h e =
    let half = common_digits-one_bit n (suc a / 2) (omega arith) in
    let last : common_digits (suc n) (suc a) a ≡ 0 = sym (common_digits-below n a) ∙ e in
    let rest : common_digits n (suc a / 2) (a / 2) ≡ 0 =
      omega (arith, last, common_digits-pred n a) in
    elim (halves a) [
      | inl (pred, even) ↦
          let one = half (sym (ap (common_digits n (suc a / 2)) pred) ∙ rest) in
          subst AtMostOneBit (sym even) (doubled (suc a / 2) one)
      | inr (same, odd) ↦
          let none : suc a / 2 ≡ 0 =
            sym (common_digits_self n (suc a / 2) (omega arith))
            ∙ sym (ap (common_digits n (suc a / 2)) same)
            ∙ rest in
          inr (0, omega (arith, none, odd))
    ]

common_digits-doubled :
    (n h b : ℕ)
    → b ≡ h + h
    → 0 < h
    → common_digits n h (h - 1) ≡ 0
    → common_digits (suc n) b (b - 1) ≡ 0
common_digits-doubled n h zero e some rest = absurd (omega arith)
common_digits-doubled n h (suc a) e some rest =
    let half : suc a / 2 ≡ h = omega (arith, e) in
    let pred : a / 2 ≡ h - 1 = omega (arith, e) in
    common_digits-below n a ∙ common_digits-pred n a ∙ rw (half, pred, rest) refl

one_bit-common_digits : (i n : ℕ) → 2 ^ i ≤ n → common_digits n (2 ^ i) (2 ^ i - 1) ≡ 0
one_bit-common_digits i zero h = absurd (omega (arith, one-le-pow i 2))
one_bit-common_digits zero (suc n) h = omega (arith, no_digits n 0)
one_bit-common_digits (suc i) (suc n) h =
    common_digits-doubled n (2 ^ i) (2 ^ suc i) (omega (arith, pow-suc 2 i))
      (omega (arith, one-le-pow i 2))
      (one_bit-common_digits i n (omega (arith, pow-suc 2 i, one-le-pow i 2)))

-- The test by the number and its predecessor.
pub bit_and-pred : (v : ℕ) → bit_and v (v - 1) ≡ 0 → AtMostOneBit v
bit_and-pred v e =
    let as_digits : bit_and v (v - 1) ≡ common_digits v v (v - 1) =
      λ i. bit_and-bitwise v (v - 1) i in
    common_digits-one_bit v v (omega arith) (sym as_digits ∙ e)

pub bit_and-one_bit : (i : ℕ) → bit_and (2 ^ i) (2 ^ i - 1) ≡ 0
bit_and-one_bit i =
    (λ j. bit_and-bitwise (2 ^ i) (2 ^ i - 1) j) ∙ one_bit-common_digits i (2 ^ i) (omega arith)
