-- ===== src/Stub/Shifted.antt =====
-- Numbers that lie across bytes: the lowest seven bits of each share a byte with the highest bit of the
-- next.
pub mod Long
use Prim.Native.Nat.{bit_or}
use dse_network.Prelude.{ℕ, ◌+◌, ◌*◌, ◌/◌, ◌%◌, ◌^◌, ◌<◌, ◌≡◌, refl, sym, ap, ◌∙◌, [], ◌∷◌, arith}
use dse_network.Stub.{pack_left_shift, pack_right_shift, unpack_left_shift, unpack_right_shift}
use dse_network.Stub.Wide.{or_all}
use dse_network.Stub.Digits.{zero-bit_or, bit_and_one, bit_and_254, bit_or_above, doubled}
use dse_network.Stub.Members.{unpacked_byte}

-- The highest bit of a number, its lowest seven bits, and a byte shared by two numbers.
pub packed_top :
    (v shift : ℕ) → bit_or 0 (pack_right_shift v shift 1) % 2 ^ 8 ≡ 0 * 2 + v / 2 ^ shift % 2
unfolding pack_right_shift
packed_top v shift =
    rw (zero-bit_or (pack_right_shift v shift 1), bit_and_one (v / 2 ^ shift % 2 ^ 8)) (omega arith)

packed_seven : (v : ℕ) → bit_or 0 (pack_left_shift v 1 254) % 2 ^ 8 ≡ v % 128 * 2
unfolding pack_left_shift
packed_seven v =
    rw (zero-bit_or (pack_left_shift v 1 254), bit_and_254 (v * 2 ^ 1 % 2 ^ 8)) (omega arith)

pub packed_last : (v : ℕ) → bit_or 0 (pack_left_shift v 1 254) % 2 ^ 8 ≡ v % 128 * 2 + 0
packed_last v = packed_seven v ∙ omega arith

-- The part that is a multiple of a power of two is added to what is below that power.
pub above : (k c x y : ℕ) → doubled k c ≡ x → y < doubled k 1 → bit_or x y ≡ x + y
above k c x y e h = ap (λ z. bit_or z y) (sym e) ∙ bit_or_above k c y h ∙ ap (λ z. z + y) e

shared_top :
    (x v shift : ℕ) → bit_or (x * 2) (pack_right_shift v shift 1) ≡ x * 2 + v / 2 ^ shift % 2
unfolding pack_right_shift doubled
shared_top x v shift =
    let one : v / 2 ^ shift % 2 ^ 8 % 2 ≡ v / 2 ^ shift % 2 = omega arith in
    rw (bit_and_one (v / 2 ^ shift % 2 ^ 8), one)
      (above 1 x (x * 2) (v / 2 ^ shift % 2) refl (omega arith))

pub packed_shared :
    (v w shift : ℕ)
    → bit_or (bit_or 0 (pack_left_shift v 1 254) % 2 ^ 8) (pack_right_shift w shift 1) % 2 ^ 8
      ≡ v % 128 * 2 + w / 2 ^ shift % 2
packed_shared v w shift = rw (packed_seven v, shared_top (v % 128) w shift) (omega arith)

pub top_at : (w x shift y : ℕ) → x % 2 * 2 ^ shift % 2 ^ w ≡ y → unpack_left_shift w x shift 1 ≡ y
unfolding unpack_left_shift
top_at w x shift y e = rw (bit_and_one x) e

pub bottom_at : (x y : ℕ) → x / 2 % 128 ≡ y → unpack_right_shift x 1 254 ≡ y
unfolding unpack_right_shift
bottom_at x y e = rw (bit_and_254 x) (omega (arith, e))

pub byte_at :
    (w v shift place y : ℕ)
    → v / 2 ^ shift % 256 * 2 ^ place % 2 ^ w ≡ y
    → unpack_left_shift w (v / 2 ^ shift % 256) place 255 ≡ y
byte_at w v shift place y e = unpacked_byte w (v / 2 ^ shift % 256) place (omega arith) ∙ e

pub multiple_7 : (c x : ℕ) → c * 2 ^ 7 ≡ x → doubled 7 c ≡ x
unfolding doubled
multiple_7 c x e = omega (arith, e)

pub small_7 : (y : ℕ) → y < 2 ^ 7 → y < doubled 7 1
unfolding doubled
small_7 y h = h

pub multiple_15 : (c x : ℕ) → c * 2 ^ 15 ≡ x → doubled 15 c ≡ x
unfolding doubled
multiple_15 c x e = omega (arith, e)

pub small_15 : (y : ℕ) → y < 2 ^ 15 → y < doubled 15 1
unfolding doubled
small_15 y h = h

pub multiple_23 : (c x : ℕ) → c * 2 ^ 23 ≡ x → doubled 23 c ≡ x
unfolding doubled
multiple_23 c x e = omega (arith, e)

pub small_23 : (y : ℕ) → y < 2 ^ 23 → y < doubled 23 1
unfolding doubled
small_23 y h = h

pub multiple_31 : (c x : ℕ) → c * 2 ^ 31 ≡ x → doubled 31 c ≡ x
unfolding doubled
multiple_31 c x e = omega (arith, e)

pub small_31 : (y : ℕ) → y < 2 ^ 31 → y < doubled 31 1
unfolding doubled
small_31 y h = h

pub multiple_39 : (c x : ℕ) → c * 2 ^ 39 ≡ x → doubled 39 c ≡ x
unfolding doubled
multiple_39 c x e = omega (arith, e)

pub small_39 : (y : ℕ) → y < 2 ^ 39 → y < doubled 39 1
unfolding doubled
small_39 y h = h

pub multiple_47 : (c x : ℕ) → c * 2 ^ 47 ≡ x → doubled 47 c ≡ x
unfolding doubled
multiple_47 c x e = omega (arith, e)

pub small_47 : (y : ℕ) → y < 2 ^ 47 → y < doubled 47 1
unfolding doubled
small_47 y h = h

pub multiple_55 : (c x : ℕ) → c * 2 ^ 55 ≡ x → doubled 55 c ≡ x
unfolding doubled
multiple_55 c x e = omega (arith, e)

pub small_55 : (y : ℕ) → y < 2 ^ 55 → y < doubled 55 1
unfolding doubled
small_55 y h = h

pub multiple_63 : (c x : ℕ) → c * 2 ^ 63 ≡ x → doubled 63 c ≡ x
unfolding doubled
multiple_63 c x e = omega (arith, e)

pub small_63 : (y : ℕ) → y < 2 ^ 63 → y < doubled 63 1
unfolding doubled
small_63 y h = h

pub across_8 :
    (a v u : ℕ)
    → v < 2 ^ 8
    → u < 2
    → or_all
        (unpack_left_shift 8 (a * 2 + v / 2 ^ 7 % 2) 7 1)
        (unpack_right_shift (v % 128 * 2 + u) 1 254 ∷ [])
      ≡ v
unfolding or_all
across_8 a v u h g =
    rw
      (
        top_at 8 (a * 2 + v / 2 ^ 7 % 2) 7 (v / 2 ^ 7 % 2 * 2 ^ 7) (omega arith),
        bottom_at (v % 128 * 2 + u) (v % 128) (omega arith),
        above 7 ((v / 2 ^ 7 % 2 * 2 ^ 7) / 2 ^ 7) (v / 2 ^ 7 % 2 * 2 ^ 7) (v % 128)
            (multiple_7 ((v / 2 ^ 7 % 2 * 2 ^ 7) / 2 ^ 7) (v / 2 ^ 7 % 2 * 2 ^ 7) (omega arith))
            (small_7 (v % 128) (omega arith)),
      )
      (omega arith)

pub across_16 :
    (a v u : ℕ)
    → v < 2 ^ 16
    → u < 2
    → or_all (unpack_left_shift 16 (a * 2 + v / 2 ^ 15 % 2) 15 1) (
        unpack_left_shift 16 (v / 2 ^ 7 % 256) 7 255
        ∷ unpack_right_shift (v % 128 * 2 + u) 1 254
        ∷ [])
      ≡ v
unfolding or_all
across_16 a v u h g =
    rw
      (
        top_at 16 (a * 2 + v / 2 ^ 15 % 2) 15 (v / 2 ^ 15 % 2 * 2 ^ 15) (omega arith),
        byte_at 16 v 7 7 (v / 2 ^ 7 % 256 * 2 ^ 7) (omega arith),
        bottom_at (v % 128 * 2 + u) (v % 128) (omega arith),
        above 15 ((v / 2 ^ 15 % 2 * 2 ^ 15) / 2 ^ 15) (v / 2 ^ 15 % 2 * 2 ^ 15)
            (v / 2 ^ 7 % 256 * 2 ^ 7)
            (multiple_15 ((v / 2 ^ 15 % 2 * 2 ^ 15) / 2 ^ 15) (v / 2 ^ 15 % 2 * 2 ^ 15)
              (omega arith))
            (small_15 (v / 2 ^ 7 % 256 * 2 ^ 7) (omega arith)),
        above 7 ((v / 2 ^ 15 % 2 * 2 ^ 15 + v / 2 ^ 7 % 256 * 2 ^ 7) / 2 ^ 7)
            (v / 2 ^ 15 % 2 * 2 ^ 15 + v / 2 ^ 7 % 256 * 2 ^ 7) (v % 128)
            (multiple_7 ((v / 2 ^ 15 % 2 * 2 ^ 15 + v / 2 ^ 7 % 256 * 2 ^ 7) / 2 ^ 7)
              (v / 2 ^ 15 % 2 * 2 ^ 15 + v / 2 ^ 7 % 256 * 2 ^ 7) (omega arith))
            (small_7 (v % 128) (omega arith)),
      )
      (omega arith)
