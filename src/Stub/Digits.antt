-- ===== src/Stub/Digits.antt =====
-- What the stub needs of `|` and `&` on numbers: disjoint parts are added, and a mask of ones cuts off.
use Prim.Native.Nat.{bit_and, bit_or, bit_or-bitwise, bit_and-bitwise, digits, max, min}
use dse_network.Prelude.{ℕ, zero, suc, ◌+◌, ◌*◌, ◌/◌, ◌%◌, ◌≤◌, ◌<◌, ◌≡◌, refl, ap, ◌∙◌, arith}

-- Fuel beyond the first argument is not used.
digits_enough :
    (z : ℕ → ℕ) (f : ℕ → ℕ → ℕ) (n m a b : ℕ) → a ≤ n → a ≤ m → digits z f n a b ≡ digits z f m a b
digits_enough z f zero zero a b p q = refl
digits_enough z f zero (suc m) zero b p q = refl
digits_enough z f zero (suc m) (suc a) b p q = absurd (omega arith)
digits_enough z f (suc n) zero zero b p q = refl
digits_enough z f (suc n) zero (suc a) b p q = absurd (omega arith)
digits_enough z f (suc n) (suc m) zero b p q = refl
digits_enough z f (suc n) (suc m) (suc a) b p q =
    rw (digits_enough z f n m (suc a / 2) (b / 2) (omega arith) (omega arith))

pub zero-bit_or : (b : ℕ) → bit_or 0 b ≡ b
zero-bit_or b = bit_or-bitwise 0 b

zero-bit_and : (b : ℕ) → bit_and 0 b ≡ 0
zero-bit_and b = bit_and-bitwise 0 b

bit_or_step :
    (a b : ℕ) → bit_or (suc a) b ≡ bit_or (suc a / 2) (b / 2) * 2 + max (suc a % 2) (b % 2)
bit_or_step a b = omega (
  arith,
  bit_or-bitwise (suc a) b,
  bit_or-bitwise (suc a / 2) (b / 2),
  digits_enough (λ y. y) max a (suc a / 2) (suc a / 2) (b / 2) (omega arith) (omega arith),
)

bit_and_step :
    (a b : ℕ) → bit_and (suc a) b ≡ bit_and (suc a / 2) (b / 2) * 2 + min (suc a % 2) (b % 2)
bit_and_step a b = omega (
  arith,
  bit_and-bitwise (suc a) b,
  bit_and-bitwise (suc a / 2) (b / 2),
  digits_enough (λ y. 0) min a (suc a / 2) (suc a / 2) (b / 2) (omega arith) (omega arith),
)

bit_or_even : (a c : ℕ) → bit_or a (c * 2) ≡ bit_or (a / 2) c * 2 + a % 2
bit_or_even zero c = omega (arith, zero-bit_or (c * 2), zero-bit_or c)
bit_or_even (suc a) c =
    let half : c * 2 / 2 ≡ c = omega arith in
    let even : c * 2 % 2 ≡ 0 = omega arith in bit_or_step a (c * 2) ∙ rw (half, even) (omega arith)

bit_and_odd : (a c : ℕ) → bit_and a (c * 2 + 1) ≡ bit_and (a / 2) c * 2 + a % 2
bit_and_odd zero c = omega (arith, zero-bit_and (c * 2 + 1), zero-bit_and c)
bit_and_odd (suc a) c =
    let half : (c * 2 + 1) / 2 ≡ c = omega arith in
    let odd : (c * 2 + 1) % 2 ≡ 1 = omega arith in
    bit_and_step a (c * 2 + 1) ∙ rw (half, odd) (omega arith)

bit_and_none_at : (n a : ℕ) → a ≤ n → bit_and a 0 ≡ 0
bit_and_none_at n zero h = zero-bit_and 0
bit_and_none_at zero (suc a) h = absurd (omega arith)
bit_and_none_at (suc n) (suc a) h =
    omega (arith, bit_and_step a 0, bit_and_none_at n (suc a / 2) (omega arith))

bit_and_none : (a : ℕ) → bit_and a 0 ≡ 0
bit_and_none a = bit_and_none_at a a (omega arith)

-- Doubled `k` times.
unfoldable pub doubled : ℕ → ℕ → ℕ
doubled zero c = c
doubled (suc k) c = doubled k c * 2

pub bit_or_disjoint : (k a c : ℕ) → a < doubled k 1 → bit_or a (doubled k c) ≡ a + doubled k c
unfolding doubled
bit_or_disjoint zero a c h =
    let none : a ≡ 0 = omega arith in rw none (omega (arith, zero-bit_or c))
bit_or_disjoint (suc k) a c h =
    omega (arith, bit_or_even a (doubled k c), bit_or_disjoint k (a / 2) c (omega arith))

pub bit_and_byte : (a : ℕ) → bit_and a 255 ≡ a % 256
bit_and_byte a = omega (
  arith,
  bit_and_odd a 127,
  bit_and_odd (a / 2) 63,
  bit_and_odd (a / 2 / 2) 31,
  bit_and_odd (a / 2 / 2 / 2) 15,
  bit_and_odd (a / 2 / 2 / 2 / 2) 7,
  bit_and_odd (a / 2 / 2 / 2 / 2 / 2) 3,
  bit_and_odd (a / 2 / 2 / 2 / 2 / 2 / 2) 1,
  bit_and_odd (a / 2 / 2 / 2 / 2 / 2 / 2 / 2) 0,
  bit_and_none (a / 2 / 2 / 2 / 2 / 2 / 2 / 2 / 2),
)

bit_or_none_at : (n a : ℕ) → a ≤ n → bit_or a 0 ≡ a
bit_or_none_at n zero h = zero-bit_or 0
bit_or_none_at zero (suc a) h = absurd (omega arith)
bit_or_none_at (suc n) (suc a) h =
    omega (arith, bit_or_step a 0, bit_or_none_at n (suc a / 2) (omega arith))

-- The larger part first.
bit_or_even_first : (c a : ℕ) → bit_or (c * 2) a ≡ bit_or c (a / 2) * 2 + a % 2
bit_or_even_first zero a = omega (arith, zero-bit_or a, zero-bit_or (a / 2))
bit_or_even_first (suc c) a =
    let double : suc c * 2 ≡ suc (c * 2 + 1) = omega arith in
    let half : suc (c * 2 + 1) / 2 ≡ suc c = omega arith in
    let even : suc (c * 2 + 1) % 2 ≡ 0 = omega arith in
    ap (λ x. bit_or x a) double ∙ bit_or_step (c * 2 + 1) a ∙ rw (half, even) (omega arith)

pub bit_or_above : (k c a : ℕ) → a < doubled k 1 → bit_or (doubled k c) a ≡ doubled k c + a
unfolding doubled
bit_or_above zero c a h =
    let none : a ≡ 0 = omega arith in rw none (omega (arith, bit_or_none_at c c (omega arith)))
bit_or_above (suc k) c a h =
    omega (arith, bit_or_even_first (doubled k c) a, bit_or_above k c (a / 2) (omega arith))

pub bit_and_one : (a : ℕ) → bit_and a 1 ≡ a % 2
bit_and_one a = omega (arith, bit_and_odd a 0, bit_and_none (a / 2))

bit_and_even : (a c : ℕ) → bit_and a (c * 2) ≡ bit_and (a / 2) c * 2
bit_and_even zero c = omega (arith, zero-bit_and (c * 2), zero-bit_and c)
bit_and_even (suc a) c =
    let half : c * 2 / 2 ≡ c = omega arith in
    let even : c * 2 % 2 ≡ 0 = omega arith in bit_and_step a (c * 2) ∙ rw (half, even) (omega arith)

pub bit_and_254 : (a : ℕ) → bit_and a 254 ≡ a / 2 % 128 * 2
bit_and_254 a = omega (
  arith,
  bit_and_even a 127,
  bit_and_odd (a / 2) 63,
  bit_and_odd (a / 2 / 2) 31,
  bit_and_odd (a / 2 / 2 / 2) 15,
  bit_and_odd (a / 2 / 2 / 2 / 2) 7,
  bit_and_odd (a / 2 / 2 / 2 / 2 / 2) 3,
  bit_and_odd (a / 2 / 2 / 2 / 2 / 2 / 2) 1,
  bit_and_odd (a / 2 / 2 / 2 / 2 / 2 / 2 / 2) 0,
  bit_and_none (a / 2 / 2 / 2 / 2 / 2 / 2 / 2 / 2),
)
