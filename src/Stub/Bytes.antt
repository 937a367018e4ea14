-- ===== src/Stub/Bytes.antt =====
-- Single bytes through the shift functions, by running them on every value.
use Prim.Native.Nat.{bit_or}
use native.Mathlib.Decide.{ℕ_discrete}
use dse_network.Prelude.{
  ℕ, zero, suc, ◌%◌, ◌^◌, ◌<◌, ◌==◌, ◌&&◌, ◌≡◌, refl, ◌∙◌, ap, true, Bool, arith, ==_iff,
}
use dse_network.Stub.{pack_left_shift, unpack_right_shift}

all_below : ℕ → (ℕ → Bool) → Bool
all_below zero f = true
all_below (suc n) f = f n && all_below n f

and-true : (a b : Bool) → (a && b) ≡ true → (a ≡ true) × (b ≡ true)
and-true a b e = ground arith

lt-all_below : (n : ℕ) (f : ℕ → Bool) (x : ℕ) → all_below n f ≡ true → x < n → f x ≡ true
unfolding all_below
lt-all_below zero f x e h = elim h [ ]
lt-all_below (suc n) f x e h =
    let (last, before) = and-true (f n) (all_below n f) e in
    elim (ℕ_discrete x n) [
      | yes here ↦ ap f here ∙ last
      | no other ↦ lt-all_below n f x before (omega arith)
    ]

-- A value in a byte that was 0, and read back.
abbrev pub through : ℕ → ℕ → ℕ → ℕ
through value shift mask =
    unpack_right_shift (bit_or 0 (pack_left_shift value shift mask) % 2 ^ 8) shift mask

bytes_kept : all_below 256 (λ x. through x 0 255 == x) ≡ true
unfolding all_below unpack_right_shift pack_left_shift
bytes_kept = refl

six_bits_kept : all_below 64 (λ x. through x 1 126 == x) ≡ true
unfolding all_below unpack_right_shift pack_left_shift
six_bits_kept = refl

pub through_byte : (x : ℕ) → x < 256 → through x 0 255 ≡ x
through_byte x h =
    (==_iff (through x 0 255) x).0 (lt-all_below 256 (λ x. through x 0 255 == x) x bytes_kept h)

pub through_six_bits : (x : ℕ) → x < 64 → through x 1 126 ≡ x
through_six_bits x h =
    (==_iff (through x 1 126) x).0 (lt-all_below 64 (λ x. through x 1 126 == x) x six_bits_kept h)
