-- ===== src/Stub/Floats/Roundtrip.antt =====
-- What is packed into a float_types message is unpacked again.
use dse_network.Prelude.{ℕ, ◌%◌, ◌/◌, ◌^◌, ◌≤◌, ◌<◌, ◌≡◌, refl, ap₂, List, ◌++◌, ltb, false, arith}
use dse_network.Stub.{or_byte, unpack_left_shift, unpack_right_shift}
use dse_network.Stub.Wide.{clear_first, or_bytes, or_all, FloatTypes}
use dse_network.Stub.Floats.{
  double_bytes, float_bytes, unpack_double, unpack_float, stub_float_types_pack,
  stub_float_types_unpack,
}
use dse_network.Stub.Members.{packed_low, packed_byte, four_bytes, eight_bytes}

le-ltb_16 : (size : ℕ) → 16 ≤ size → ltb size 16 ≡ false
le-ltb_16 size h = ground arith

abbrev float_types : ℕ → ℕ → FloatTypes
float_types d f = record { double_signal = d; float_signal = f }

-- The bytes of a packed message, as digits of its members.
abbrev digit : ℕ → ℕ → ℕ
digit v shift = v / 2 ^ shift % 256

-- The members, unpacked from the packed bytes.
module _ (before : List ℕ) (v u : ℕ) where
  abbrev out : List ℕ
  out = or_bytes (clear_first 16 before) (double_bytes 0 v ++ float_bytes 8 u)

  packed_double : v < 2 ^ 64 → unpack_double 0 out ≡ v
  unfolding clear_first or_bytes or_byte double_bytes float_bytes unpack_double unpack_left_shift
      unpack_right_shift or_all
  packed_double h =
      rw
        (
          packed_low v,
          packed_byte v 8,
          packed_byte v 16,
          packed_byte v 24,
          packed_byte v 32,
          packed_byte v 40,
          packed_byte v 48,
          packed_byte v 56,
        )
        (eight_bytes v h)

  packed_float : u < 2 ^ 32 → unpack_float 8 out ≡ u
  unfolding clear_first or_bytes or_byte double_bytes float_bytes unpack_float unpack_left_shift
      unpack_right_shift or_all
  packed_float h =
      rw (packed_low u, packed_byte u 8, packed_byte u 16, packed_byte u 24) (four_bytes u h)

-- A float_types message, packed into a payload of 16 bytes or more, whatever was there before, and
-- unpacked again, is as it was, for every bit pattern of its `double` and its `float`; packing
-- returns 16 and unpacking 0.
pub stub_float_types_unpack-stub_float_types_pack :
    (before : List ℕ) (old message : FloatTypes) (size : ℕ)
    → 16 ≤ size
    → message.double_signal < 2 ^ 64
    → message.float_signal < 2 ^ 32
    → let packed = stub_float_types_pack before message size in
      (packed.rc ≡ 16) × (stub_float_types_unpack old packed.out size ≡ (0, message))
unfolding stub_float_types_pack stub_float_types_unpack
stub_float_types_unpack-stub_float_types_pack before old message size fits d f =
    let v = message.double_signal in
    let u = message.float_signal in
    rw (le-ltb_16 size fits, stub_float_types_pack, stub_float_types_unpack)
      (
        refl,
        ap₂ (λ x y. (0, float_types x y)) (packed_double before v u d) (packed_float before v u f),
      )
