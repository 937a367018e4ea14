-- ===== src/Stub/Members.antt =====
-- Numbers of four and eight bytes through the shift functions.
use Prim.Native.Nat.{bit_or}
use dse_network.Prelude.{ℕ, ◌+◌, ◌*◌, ◌/◌, ◌%◌, ◌^◌, ◌<◌, ◌≡◌, refl, sym, ap, ◌∙◌, [], ◌∷◌, arith}
use dse_network.Stub.{pack_left_shift, pack_right_shift, unpack_left_shift, unpack_right_shift}
use dse_network.Stub.Wide.{or_all}
use dse_network.Stub.Digits.{zero-bit_or, doubled, bit_or_disjoint, bit_and_byte}

-- The lowest byte, in a byte that was 0.
pub packed_low : (v : ℕ) → bit_or 0 (pack_left_shift v 0 255) % 2 ^ 8 ≡ v % 256
unfolding pack_left_shift
packed_low v =
    rw (zero-bit_or (pack_left_shift v 0 255), bit_and_byte (v * 2 ^ 0 % 2 ^ 8)) (omega arith)

pub packed_byte :
    (v shift : ℕ) → bit_or 0 (pack_right_shift v shift 255) % 2 ^ 8 ≡ v / 2 ^ shift % 256
unfolding pack_right_shift
packed_byte v shift =
    rw (zero-bit_or (pack_right_shift v shift 255), bit_and_byte (v / 2 ^ shift % 2 ^ 8))
      (omega arith)

pub unpacked_low : (x : ℕ) → x < 256 → unpack_right_shift x 0 255 ≡ x
unfolding unpack_right_shift
unpacked_low x h = rw (bit_and_byte x) (omega arith)

pub unpacked_byte :
    (w x shift : ℕ) → x < 256 → unpack_left_shift w x shift 255 ≡ x * 2 ^ shift % 2 ^ w
unfolding unpack_left_shift
unpacked_byte w x shift h = let small : x % 256 ≡ x = omega arith in rw (bit_and_byte x, small) refl

joined : (k a x y : ℕ) → doubled k x ≡ y → a < doubled k 1 → bit_or a y ≡ a + y
joined k a x y e h = ap (bit_or a) (sym e) ∙ bit_or_disjoint k a x h ∙ ap (λ z. a + z) e

joined_8 : (a x : ℕ) → a < 2 ^ 8 → bit_or a (x * 2 ^ 8) ≡ a + x * 2 ^ 8
unfolding doubled
joined_8 a x h = joined 8 a x (x * 2 ^ 8) (omega arith) h

joined_16 : (a x : ℕ) → a < 2 ^ 16 → bit_or a (x * 2 ^ 16) ≡ a + x * 2 ^ 16
unfolding doubled
joined_16 a x h = joined 16 a x (x * 2 ^ 16) (omega arith) h

joined_24 : (a x : ℕ) → a < 2 ^ 24 → bit_or a (x * 2 ^ 24) ≡ a + x * 2 ^ 24
unfolding doubled
joined_24 a x h = joined 24 a x (x * 2 ^ 24) (omega arith) h

joined_32 : (a x : ℕ) → a < 2 ^ 32 → bit_or a (x * 2 ^ 32) ≡ a + x * 2 ^ 32
unfolding doubled
joined_32 a x h = joined 32 a x (x * 2 ^ 32) (omega arith) h

joined_40 : (a x : ℕ) → a < 2 ^ 40 → bit_or a (x * 2 ^ 40) ≡ a + x * 2 ^ 40
unfolding doubled
joined_40 a x h = joined 40 a x (x * 2 ^ 40) (omega arith) h

joined_48 : (a x : ℕ) → a < 2 ^ 48 → bit_or a (x * 2 ^ 48) ≡ a + x * 2 ^ 48
unfolding doubled
joined_48 a x h = joined 48 a x (x * 2 ^ 48) (omega arith) h

joined_56 : (a x : ℕ) → a < 2 ^ 56 → bit_or a (x * 2 ^ 56) ≡ a + x * 2 ^ 56
unfolding doubled
joined_56 a x h = joined 56 a x (x * 2 ^ 56) (omega arith) h

-- Four bytes, lowest first.
abbrev pub four : ℕ → ℕ → ℕ → ℕ → ℕ
four x0 x1 x2 x3 = x0 + x1 * 2 ^ 8 + x2 * 2 ^ 16 + x3 * 2 ^ 24

pub or_four :
    (x0 x1 x2 x3 : ℕ)
    → x0 < 256
    → x1 < 256
    → x2 < 256
    → x3 < 256
    → bit_or (bit_or (bit_or x0 (x1 * 2 ^ 8)) (x2 * 2 ^ 16)) (x3 * 2 ^ 24) ≡ four x0 x1 x2 x3
or_four x0 x1 x2 x3 h0 h1 h2 h3 =
    rw
      (
        joined_8 x0 x1 (omega arith),
        joined_16 (x0 + x1 * 2 ^ 8) x2 (omega arith),
        joined_24 (x0 + x1 * 2 ^ 8 + x2 * 2 ^ 16) x3 (omega arith),
      )
      refl

pub or_eight :
    (low x4 x5 x6 x7 : ℕ)
    → low < 2 ^ 32
    → x4 < 256
    → x5 < 256
    → x6 < 256
    → bit_or (bit_or (bit_or (bit_or low (x4 * 2 ^ 32)) (x5 * 2 ^ 40)) (x6 * 2 ^ 48)) (x7 * 2 ^ 56)
      ≡ low + x4 * 2 ^ 32 + x5 * 2 ^ 40 + x6 * 2 ^ 48 + x7 * 2 ^ 56
or_eight low x4 x5 x6 x7 h h4 h5 h6 =
    rw
      (
        joined_32 low x4 h,
        joined_40 (low + x4 * 2 ^ 32) x5 (omega arith),
        joined_48 (low + x4 * 2 ^ 32 + x5 * 2 ^ 40) x6 (omega arith),
        joined_56 (low + x4 * 2 ^ 32 + x5 * 2 ^ 40 + x6 * 2 ^ 48) x7 (omega arith),
      )
      refl

-- A shifted byte fits.
byte_at :
    (w v shift y : ℕ)
    → v / 2 ^ shift % 256 * 2 ^ shift % 2 ^ w ≡ y
    → unpack_left_shift w (v / 2 ^ shift % 256) shift 255 ≡ y
byte_at w v shift y e = unpacked_byte w (v / 2 ^ shift % 256) shift (omega arith) ∙ e

-- The bytes of a number of 32 bits, and of one of 64, make the number again.
pub four_bytes :
    (v : ℕ)
    → v < 2 ^ 32
    → or_all (unpack_right_shift (v % 256) 0 255) (
        unpack_left_shift 32 (v / 2 ^ 8 % 256) 8 255
        ∷ unpack_left_shift 32 (v / 2 ^ 16 % 256) 16 255
        ∷ unpack_left_shift 32 (v / 2 ^ 24 % 256) 24 255
        ∷ [])
      ≡ v
unfolding or_all
four_bytes v h =
    rw
      (
        unpacked_low (v % 256) (omega arith),
        byte_at 32 v 8 (v / 2 ^ 8 % 256 * 2 ^ 8) (omega arith),
        byte_at 32 v 16 (v / 2 ^ 16 % 256 * 2 ^ 16) (omega arith),
        byte_at 32 v 24 (v / 2 ^ 24 % 256 * 2 ^ 24) (omega arith),
        or_four (v % 256) (v / 2 ^ 8 % 256) (v / 2 ^ 16 % 256) (v / 2 ^ 24 % 256) (omega arith)
            (omega arith) (omega arith) (omega arith),
      )
      (omega arith)

pub eight_bytes :
    (v : ℕ)
    → v < 2 ^ 64
    → or_all (unpack_right_shift (v % 256) 0 255) (
        unpack_left_shift 64 (v / 2 ^ 8 % 256) 8 255
        ∷ unpack_left_shift 64 (v / 2 ^ 16 % 256) 16 255
        ∷ unpack_left_shift 64 (v / 2 ^ 24 % 256) 24 255
        ∷ unpack_left_shift 64 (v / 2 ^ 32 % 256) 32 255
        ∷ unpack_left_shift 64 (v / 2 ^ 40 % 256) 40 255
        ∷ unpack_left_shift 64 (v / 2 ^ 48 % 256) 48 255
        ∷ unpack_left_shift 64 (v / 2 ^ 56 % 256) 56 255
        ∷ [])
      ≡ v
unfolding or_all
eight_bytes v h =
    let low = four (v % 256) (v / 2 ^ 8 % 256) (v / 2 ^ 16 % 256) (v / 2 ^ 24 % 256) in
    rw
      (
        unpacked_low (v % 256) (omega arith),
        byte_at 64 v 8 (v / 2 ^ 8 % 256 * 2 ^ 8) (omega arith),
        byte_at 64 v 16 (v / 2 ^ 16 % 256 * 2 ^ 16) (omega arith),
        byte_at 64 v 24 (v / 2 ^ 24 % 256 * 2 ^ 24) (omega arith),
        byte_at 64 v 32 (v / 2 ^ 32 % 256 * 2 ^ 32) (omega arith),
        byte_at 64 v 40 (v / 2 ^ 40 % 256 * 2 ^ 40) (omega arith),
        byte_at 64 v 48 (v / 2 ^ 48 % 256 * 2 ^ 48) (omega arith),
        byte_at 64 v 56 (v / 2 ^ 56 % 256 * 2 ^ 56) (omega arith),
        or_four (v % 256) (v / 2 ^ 8 % 256) (v / 2 ^ 16 % 256) (v / 2 ^ 24 % 256) (omega arith)
            (omega arith) (omega arith) (omega arith),
        or_eight low (v / 2 ^ 32 % 256) (v / 2 ^ 40 % 256) (v / 2 ^ 48 % 256) (v / 2 ^ 56 % 256)
            (omega arith) (omega arith) (omega arith) (omega arith),
      )
      (omega arith)

-- The same for 24 of 32 bits.
pub three_bytes :
    (v : ℕ)
    → v < 2 ^ 24
    → or_all (unpack_right_shift (v % 256) 0 255) (
        unpack_left_shift 32 (v / 2 ^ 8 % 256) 8 255
        ∷ unpack_left_shift 32 (v / 2 ^ 16 % 256) 16 255
        ∷ [])
      ≡ v
unfolding or_all
three_bytes v h =
    rw
      (
        unpacked_low (v % 256) (omega arith),
        byte_at 32 v 8 (v / 2 ^ 8 % 256 * 2 ^ 8) (omega arith),
        byte_at 32 v 16 (v / 2 ^ 16 % 256 * 2 ^ 16) (omega arith),
        joined_8 (v % 256) (v / 2 ^ 8 % 256) (omega arith),
        joined_16 (v % 256 + v / 2 ^ 8 % 256 * 2 ^ 8) (v / 2 ^ 16 % 256) (omega arith),
      )
      (omega arith)

pub one_byte : (v : ℕ) → v < 2 ^ 8 → unpack_right_shift (v % 256) 0 255 ≡ v
one_byte v h = let small : v % 256 ≡ v = omega arith in unpacked_low (v % 256) (omega arith) ∙ small
