-- ===== src/Stub/Types.antt =====
-- What is packed into an unsigned_types or a signed_types message is unpacked again.
use dse_network.Prelude.{ℕ, ◌%◌, ◌/◌, ◌^◌, ◌≤◌, ◌<◌, ◌≡◌, refl, ap₂, List, ltb, false, arith}
use dse_network.Stub.{or_byte}
use dse_network.Stub.Wide.{
  clear_first, or_bytes, or_all, types_bytes, unpack_int8, unpack_int16, unpack_int32, unpack_int64,
  UnsignedTypes, SignedTypes, stub_unsigned_types_pack, stub_unsigned_types_unpack,
  stub_signed_types_pack, stub_signed_types_unpack,
}
use dse_network.Stub.Members.{packed_byte}
use dse_network.Stub.Shifted.{packed_top, packed_last, packed_shared, across_8, across_16}
use dse_network.Stub.Shifted.Long.{across_32, across_64}

le-ltb_16 : (size : ℕ) → 16 ≤ size → ltb size 16 ≡ false
le-ltb_16 size h = ground arith

module _ (before : List ℕ) (a b c d : ℕ) where
  abbrev out : List ℕ
  out = or_bytes (clear_first 16 before) (types_bytes a b c d)

  back_8 : a < 2 ^ 8 → unpack_int8 out ≡ a
  unfolding clear_first or_bytes or_byte types_bytes unpack_int8 or_all
  back_8 h =
      rw (packed_top a 7, packed_shared a b 15) (across_8 0 a (b / 2 ^ 15 % 2) h (omega arith))

  back_16 : b < 2 ^ 16 → unpack_int16 out ≡ b
  unfolding clear_first or_bytes or_byte types_bytes unpack_int16 or_all
  back_16 h =
      rw (packed_shared a b 15, packed_byte b 7, packed_shared b c 31)
        (across_16 (a % 128) b (c / 2 ^ 31 % 2) h (omega arith))

  back_32 : c < 2 ^ 32 → unpack_int32 out ≡ c
  unfolding clear_first or_bytes or_byte types_bytes unpack_int32 or_all
  back_32 h =
      rw
        (
          packed_shared b c 31,
          packed_byte c 23,
          packed_byte c 15,
          packed_byte c 7,
          packed_shared c d 63,
        )
        (across_32 (b % 128) c (d / 2 ^ 63 % 2) h (omega arith))

  back_64 : d < 2 ^ 64 → unpack_int64 out ≡ d
  unfolding clear_first or_bytes or_byte types_bytes unpack_int64 or_all
  back_64 h =
      rw
        (
          packed_shared c d 63,
          packed_byte d 55,
          packed_byte d 47,
          packed_byte d 39,
          packed_byte d 31,
          packed_byte d 23,
          packed_byte d 15,
          packed_byte d 7,
          packed_last d,
        )
        (across_64 (c % 128) d 0 h (omega arith))

abbrev four {ℓ} : {A : Type ℓ} → (ℕ → ℕ → ℕ → ℕ → A) → ℕ × ℕ → ℕ × ℕ → A
four make x y = make x.0 x.1 y.0 y.1

abbrev pair : ℕ → ℕ → ℕ × ℕ
pair x y = (x, y)

-- All four members.
back :
    {A : Type 0} (make : ℕ → ℕ → ℕ → ℕ → A) (before : List ℕ) (a b c d : ℕ)
    → a < 2 ^ 8
    → b < 2 ^ 16
    → c < 2 ^ 32
    → d < 2 ^ 64
    → let src = out before a b c d in
      make (unpack_int8 src) (unpack_int16 src) (unpack_int32 src) (unpack_int64 src) ≡ make a b c d
back make before a b c d ha hb hc hd =
    ap₂ (four make) (ap₂ pair (back_8 before a b c d ha) (back_16 before a b c d hb))
      (ap₂ pair (back_32 before a b c d hc) (back_64 before a b c d hd))

abbrev unsigned_types : ℕ → ℕ → ℕ → ℕ → ℕ × UnsignedTypes
unsigned_types a b c d =
    (0, record { u_int8_signal = a; u_int16_signal = b; u_int32_signal = c; u_int64_signal = d })

abbrev signed_types : ℕ → ℕ → ℕ → ℕ → ℕ × SignedTypes
signed_types a b c d =
    (0, record { int8_signal = a; int16_signal = b; int32_signal = c; int64_signal = d })

-- An unsigned_types message, packed into a payload of 16 bytes or more, whatever was there before,
-- and unpacked again, is as it was, for all values of its members of 8, 16, 32 and 64 bits, none of
-- which starts at the border of a byte; packing returns 16 and unpacking 0.
pub stub_unsigned_types_unpack-stub_unsigned_types_pack :
    (before : List ℕ) (old message : UnsignedTypes) (size : ℕ)
    → 16 ≤ size
    → message.u_int8_signal < 2 ^ 8
    → message.u_int16_signal < 2 ^ 16
    → message.u_int32_signal < 2 ^ 32
    → message.u_int64_signal < 2 ^ 64
    → let packed = stub_unsigned_types_pack before message size in
      (packed.rc ≡ 16) × (stub_unsigned_types_unpack old packed.out size ≡ (0, message))
unfolding stub_unsigned_types_pack stub_unsigned_types_unpack
stub_unsigned_types_unpack-stub_unsigned_types_pack before old message size fits a b c d =
    rw (le-ltb_16 size fits, stub_unsigned_types_pack, stub_unsigned_types_unpack)
      (
        refl,
        back unsigned_types before message.u_int8_signal message.u_int16_signal
            message.u_int32_signal message.u_int64_signal a b c d,
      )

-- The same for a signed_types message, for all bit patterns of its members.
pub stub_signed_types_unpack-stub_signed_types_pack :
    (before : List ℕ) (old message : SignedTypes) (size : ℕ)
    → 16 ≤ size
    → message.int8_signal < 2 ^ 8
    → message.int16_signal < 2 ^ 16
    → message.int32_signal < 2 ^ 32
    → message.int64_signal < 2 ^ 64
    → let packed = stub_signed_types_pack before message size in
      (packed.rc ≡ 16) × (stub_signed_types_unpack old packed.out size ≡ (0, message))
unfolding stub_signed_types_pack stub_signed_types_unpack
stub_signed_types_unpack-stub_signed_types_pack before old message size fits a b c d =
    rw (le-ltb_16 size fits, stub_signed_types_pack, stub_signed_types_unpack)
      (
        refl,
        back signed_types before message.int8_signal message.int16_signal message.int32_signal
            message.int64_signal a b c d,
      )
