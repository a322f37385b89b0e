-- ===== src/Stun/Packets/Xor.antt =====
-- The exclusive or of the digits of two numbers, which hides the address in a STUN reply.
use bingle_rust.Base.{ℕ, zero, suc, ◌+◌, ◌*◌, ◌/◌, ◌%◌, ◌^◌, ◌≤◌, ◌<◌, ◌≡◌, refl, subst, ap, arith}
use Prim.Native.Nat.{bit_xor, digits, differ, bit_xor-bitwise}
use native.Mathlib.Omega.{pow_step}

abbrev xor_digits : ℕ → ℕ → ℕ → ℕ
xor_digits n a b = digits (λ b. b) differ n a b

differ_lem : (x y : ℕ) → x < 2 → y < 2 → differ x y ≡ (x + y) % 2
differ_lem zero y h k = omega arith
differ_lem (suc zero) zero h k = refl
differ_lem (suc zero) (suc zero) h k = refl
differ_lem (suc zero) (suc (suc y)) h k = absurd (omega arith)
differ_lem (suc (suc x)) y h k = absurd (omega arith)

differ-mod : (a b : ℕ) → differ (a % 2) (b % 2) ≡ (a + b) % 2
differ-mod a b = omega (arith, differ_lem (a % 2) (b % 2) (omega arith) (omega arith))

-- Enough digits to go make no difference.
xor_digits-fuel : (n m a b : ℕ) → a ≤ n → a ≤ m → xor_digits n a b ≡ xor_digits m a b
xor_digits-fuel zero zero a b p q = refl
xor_digits-fuel zero (suc m) zero b p q = refl
xor_digits-fuel zero (suc m) (suc a) b p q = absurd (omega arith)
xor_digits-fuel (suc n) zero zero b p q = refl
xor_digits-fuel (suc n) zero (suc a) b p q = absurd (omega arith)
xor_digits-fuel (suc n) (suc m) zero b p q = refl
xor_digits-fuel (suc n) (suc m) (suc a) b p q =
    omega (arith, xor_digits-fuel n m (suc a / 2) (b / 2) (omega arith) (omega arith))

zero-bit_xor : (b : ℕ) → bit_xor 0 b ≡ b
zero-bit_xor b = bit_xor-bitwise 0 b

pub bit_xor_step : (a b : ℕ) → bit_xor a b ≡ bit_xor (a / 2) (b / 2) * 2 + (a + b) % 2
bit_xor_step zero b = omega (arith, zero-bit_xor b, zero-bit_xor (b / 2))
bit_xor_step (suc a) b = omega (
  arith,
  bit_xor-bitwise (suc a) b,
  bit_xor-bitwise (suc a / 2) (b / 2),
  xor_digits-fuel a (suc a / 2) (suc a / 2) (b / 2) (omega arith) (omega arith),
  differ-mod (suc a) b,
)

-- Twice the same number gives the first one back.
bit_xor_twice_fuel : (n a c : ℕ) → a ≤ n → c ≤ n → bit_xor (bit_xor a c) c ≡ a
bit_xor_twice_fuel zero a c h k =
    let a0 : 0 ≡ a = omega arith in
    let c0 : 0 ≡ c = omega arith in
    subst (λ x. bit_xor (bit_xor x c) c ≡ x) a0 (subst (λ y. bit_xor (bit_xor 0 y) y ≡ 0) c0 refl)
bit_xor_twice_fuel (suc n) a c h k =
    let half : bit_xor a c / 2 ≡ bit_xor (a / 2) (c / 2) = omega (arith, bit_xor_step a c) in
    omega (
      arith,
      bit_xor_step a c,
      bit_xor_step (bit_xor a c) c,
      ap (λ y. bit_xor y (c / 2)) half,
      bit_xor_twice_fuel n (a / 2) (c / 2) (omega arith) (omega arith),
    )

pub bit_xor_twice : (a c : ℕ) → bit_xor (bit_xor a c) c ≡ a
bit_xor_twice a c = bit_xor_twice_fuel (a + c) a c (omega arith) (omega arith)

-- No digit is added.
pub bit_xor-lt : (k a b : ℕ) → a < 2 ^ k → b < 2 ^ k → bit_xor a b < 2 ^ k
bit_xor-lt zero a b h l =
    let a0 : 0 ≡ a = omega arith in
    let b0 : 0 ≡ b = omega arith in
    subst (λ x. bit_xor x b < 1) a0 (subst (λ y. bit_xor 0 y < 1) b0 (omega arith))
bit_xor-lt (suc k) a b h l = omega (
  arith,
  pow_step 2 k,
  bit_xor_step a b,
  bit_xor-lt k (a / 2) (b / 2) (omega (arith, pow_step 2 k)) (omega (arith, pow_step 2 k)),
)
