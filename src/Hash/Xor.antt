-- ===== src/Hash/Xor.antt =====
-- What the hash needs of `^` on numbers: it is injective in each argument, and it makes no digit
-- above those of its arguments.
use Prim.Native.Nat.{bit_xor, digits, differ, bit_xor-bitwise}
use native.Mathlib.Nat.{pow-suc}
use dse_network.Prelude.{ℕ, zero, suc, ◌+◌, ◌*◌, ◌/◌, ◌%◌, ◌^◌, ◌≤◌, ◌<◌, ◌≡◌, refl, arith}

abbrev xor_digits : ℕ → ℕ → ℕ → ℕ
xor_digits n a b = digits (λ y. y) differ n a b

-- Fuel beyond the first argument is not used.
xor_digits_enough : (n m a b : ℕ) → a ≤ n → a ≤ m → xor_digits n a b ≡ xor_digits m a b
xor_digits_enough zero zero a b p q = refl
xor_digits_enough zero (suc m) zero b p q = refl
xor_digits_enough zero (suc m) (suc a) b p q = absurd (omega arith)
xor_digits_enough (suc n) zero zero b p q = refl
xor_digits_enough (suc n) zero (suc a) b p q = absurd (omega arith)
xor_digits_enough (suc n) (suc m) zero b p q = refl
xor_digits_enough (suc n) (suc m) (suc a) b p q =
    rw (xor_digits_enough n m (suc a / 2) (b / 2) (omega arith) (omega arith))

differ-le-one : (x y : ℕ) → x ≤ 1 → y ≤ 1 → differ x y ≤ 1
differ-le-one zero y p q = q
differ-le-one (suc zero) zero p q = p
differ-le-one (suc zero) (suc zero) p q = omega arith
differ-le-one (suc zero) (suc (suc y)) p q = absurd (omega arith)
differ-le-one (suc (suc x)) y p q = absurd (omega arith)

differ_digit : (y : ℕ) → y ≤ 1 → differ 0 y ≡ y
differ_digit y p = refl

zero-bit_xor : (b : ℕ) → bit_xor 0 b ≡ b
zero-bit_xor b = bit_xor-bitwise 0 b

bit_xor_step : (a b : ℕ) → bit_xor a b ≡ bit_xor (a / 2) (b / 2) * 2 + differ (a % 2) (b % 2)
bit_xor_step zero b =
    omega (arith, zero-bit_xor b, zero-bit_xor (b / 2), differ_digit (b % 2) (omega arith))
bit_xor_step (suc a) b = omega (
  arith,
  bit_xor-bitwise (suc a) b,
  bit_xor-bitwise (suc a / 2) (b / 2),
  xor_digits_enough a (suc a / 2) (suc a / 2) (b / 2) (omega arith) (omega arith),
)

differ_cancel_left : (x y z : ℕ) → x ≤ 1 → y ≤ 1 → z ≤ 1 → differ x y ≡ differ x z → y ≡ z
differ_cancel_left zero y z p q r e = e
differ_cancel_left (suc zero) zero zero p q r e = refl
differ_cancel_left (suc zero) zero (suc zero) p q r e = absurd (omega arith)
differ_cancel_left (suc zero) (suc zero) zero p q r e = absurd (omega arith)
differ_cancel_left (suc zero) (suc zero) (suc zero) p q r e = refl
differ_cancel_left (suc zero) y (suc (suc z)) p q r e = absurd (omega arith)
differ_cancel_left (suc zero) (suc (suc y)) z p q r e = absurd (omega arith)
differ_cancel_left (suc (suc x)) y z p q r e = absurd (omega arith)

differ_cancel_right : (x y z : ℕ) → x ≤ 1 → y ≤ 1 → z ≤ 1 → differ x z ≡ differ y z → x ≡ y
differ_cancel_right zero zero z p q r e = refl
differ_cancel_right (suc zero) (suc zero) z p q r e = refl
differ_cancel_right zero (suc zero) zero p q r e = absurd (omega arith)
differ_cancel_right zero (suc zero) (suc zero) p q r e = absurd (omega arith)
differ_cancel_right zero (suc zero) (suc (suc z)) p q r e = absurd (omega arith)
differ_cancel_right (suc zero) zero zero p q r e = absurd (omega arith)
differ_cancel_right (suc zero) zero (suc zero) p q r e = absurd (omega arith)
differ_cancel_right (suc zero) zero (suc (suc z)) p q r e = absurd (omega arith)
differ_cancel_right (suc (suc x)) y z p q r e = absurd (omega arith)
differ_cancel_right x (suc (suc y)) z p q r e = absurd (omega arith)

module _ (a b c d : ℕ) (e : bit_xor a b ≡ bit_xor c d) where
  abbrev LowBound : ℕ → ℕ → Type 0
  LowBound x y = differ (x % 2) (y % 2) ≤ 1

  halves_agree :
      (bit_xor (a / 2) (b / 2) ≡ bit_xor (c / 2) (d / 2))
      × (differ (a % 2) (b % 2) ≡ differ (c % 2) (d % 2))
  halves_agree =
      let left : LowBound a b = differ-le-one (a % 2) (b % 2) (omega arith) (omega arith) in
      let right : LowBound c d = differ-le-one (c % 2) (d % 2) (omega arith) (omega arith) in
      omega (arith, bit_xor_step a b, bit_xor_step c d)

pub bit_xor_cancel_left : (k h a b : ℕ) → h ≤ k → bit_xor h a ≡ bit_xor h b → a ≡ b
bit_xor_cancel_left zero zero a b p e = omega (arith, zero-bit_xor a, zero-bit_xor b)
bit_xor_cancel_left zero (suc h) a b p e = absurd (omega arith)
bit_xor_cancel_left (suc k) h a b p e =
    let (high, low) = halves_agree h a h b e in
    omega (
      arith,
      bit_xor_cancel_left k (h / 2) (a / 2) (b / 2) (omega arith) high,
      differ_cancel_left (h % 2) (a % 2) (b % 2) (omega arith) (omega arith) (omega arith) low,
    )

pub bit_xor_cancel_right : (k a b h : ℕ) → a ≤ k → b ≤ k → bit_xor a h ≡ bit_xor b h → a ≡ b
bit_xor_cancel_right zero a b h p q e = omega arith
bit_xor_cancel_right (suc k) a b h p q e =
    let (high, low) = halves_agree a h b h e in
    omega (
      arith,
      bit_xor_cancel_right k (a / 2) (b / 2) (h / 2) (omega arith) (omega arith) high,
      differ_cancel_right (a % 2) (b % 2) (h % 2) (omega arith) (omega arith) (omega arith) low,
    )

pub bit_xor-lt : (k a b : ℕ) → a < 2 ^ k → b < 2 ^ k → bit_xor a b < 2 ^ k
bit_xor-lt zero zero zero p q = omega (arith, zero-bit_xor 0)
bit_xor-lt zero zero (suc b) p q = absurd (omega arith)
bit_xor-lt zero (suc a) b p q = absurd (omega arith)
bit_xor-lt (suc k) a b p q = omega (
  arith,
  pow-suc 2 k,
  bit_xor_step a b,
  bit_xor-lt k (a / 2) (b / 2) (omega (arith, pow-suc 2 k)) (omega (arith, pow-suc 2 k)),
  differ-le-one (a % 2) (b % 2) (omega arith) (omega arith),
)
