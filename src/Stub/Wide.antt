-- ===== src/Stub/Wide.antt =====
-- dse/network/examples/stub/stub.c, continued: the messages unsigned_types, signed_types, float_types
-- and mux_message, whose signals are wider than a byte. A signed number, a `double` and a `float` are
-- bit patterns. A destination has at least the bytes that the size promises.
use Prim.Native.Nat.{bit_or}
use dse_network.Prelude.{
  ℕ, ◌-◌, ◌||◌, ◌^◌, Bool, true, Option, none, some, List, [], ◌∷◌, ◌++◌, ltb, leb, get_or, drop,
  replicate, if◌then◌else◌,
}
use dse_network.Types.{Double, PackResult}
use dse_network.Library.{einval}
use dse_network.Stub.{
  pack_left_shift, pack_right_shift, unpack_left_shift, unpack_right_shift, or_byte,
}

-- `memset(&dst_p[0], 0, n)`
unfoldable pub clear_first : ℕ → List ℕ → List ℕ
clear_first n dst = replicate n 0 ++ drop n dst

-- `dst_p[i] |= x`, for one pair after the other.
unfoldable pub or_bytes : List ℕ → List (ℕ × ℕ) → List ℕ
unfolding or_byte
or_bytes dst [] = dst
or_bytes dst (x ∷ xs) = or_bytes (or_byte dst x.0 x.1) xs

-- `x = a; x |= b;` and so on.
unfoldable pub or_all : ℕ → List ℕ → ℕ
or_all x [] = x
or_all x (b ∷ bs) = or_all (bit_or x b) bs

pub record UnsignedTypes : Type 0 where
  pub u_int8_signal : ℕ
  pub u_int16_signal : ℕ
  pub u_int32_signal : ℕ
  pub u_int64_signal : ℕ

pub record SignedTypes : Type 0 where
  pub int8_signal : ℕ
  pub int16_signal : ℕ
  pub int32_signal : ℕ
  pub int64_signal : ℕ

pub record FloatTypes : Type 0 where
  pub double_signal : Double
  pub float_signal : ℕ

pub record MuxMessage : Type 0 where
  pub header_id : ℕ
  pub header_dlc : ℕ
  pub foo_double : Double
  pub bar_float : ℕ

-- The layout that unsigned_types and signed_types have in common: highest bits first, from bit 0.
unfoldable pub types_bytes : ℕ → ℕ → ℕ → ℕ → List (ℕ × ℕ)
unfolding pack_left_shift pack_right_shift
types_bytes int8 int16 int32 int64 =
    (0, pack_right_shift int8 7 1)
    ∷ (1, pack_left_shift int8 1 254)
    ∷ (1, pack_right_shift int16 15 1)
    ∷ (2, pack_right_shift int16 7 255)
    ∷ (3, pack_left_shift int16 1 254)
    ∷ (3, pack_right_shift int32 31 1)
    ∷ (4, pack_right_shift int32 23 255)
    ∷ (5, pack_right_shift int32 15 255)
    ∷ (6, pack_right_shift int32 7 255)
    ∷ (7, pack_left_shift int32 1 254)
    ∷ (7, pack_right_shift int64 63 1)
    ∷ (8, pack_right_shift int64 55 255)
    ∷ (9, pack_right_shift int64 47 255)
    ∷ (10, pack_right_shift int64 39 255)
    ∷ (11, pack_right_shift int64 31 255)
    ∷ (12, pack_right_shift int64 23 255)
    ∷ (13, pack_right_shift int64 15 255)
    ∷ (14, pack_right_shift int64 7 255)
    ∷ (15, pack_left_shift int64 1 254)
    ∷ []

unfoldable pub unpack_int8 : List ℕ → ℕ
unfolding unpack_left_shift unpack_right_shift or_all
unpack_int8 src =
    or_all (unpack_left_shift 8 (get_or src 0 0) 7 1)
      (unpack_right_shift (get_or src 1 0) 1 254 ∷ [])

unfoldable pub unpack_int16 : List ℕ → ℕ
unfolding unpack_left_shift unpack_right_shift or_all
unpack_int16 src =
    or_all (unpack_left_shift 16 (get_or src 1 0) 15 1)
      (unpack_left_shift 16 (get_or src 2 0) 7 255 ∷ unpack_right_shift (get_or src 3 0) 1 254 ∷ [])

unfoldable pub unpack_int32 : List ℕ → ℕ
unfolding unpack_left_shift unpack_right_shift or_all
unpack_int32 src = or_all (unpack_left_shift 32 (get_or src 3 0) 31 1) (
    unpack_left_shift 32 (get_or src 4 0) 23 255
    ∷ unpack_left_shift 32 (get_or src 5 0) 15 255
    ∷ unpack_left_shift 32 (get_or src 6 0) 7 255
    ∷ unpack_right_shift (get_or src 7 0) 1 254
    ∷ [])

unfoldable pub unpack_int64 : List ℕ → ℕ
unfolding unpack_left_shift unpack_right_shift or_all
unpack_int64 src = or_all (unpack_left_shift 64 (get_or src 7 0) 63 1) (
    unpack_left_shift 64 (get_or src 8 0) 55 255
    ∷ unpack_left_shift 64 (get_or src 9 0) 47 255
    ∷ unpack_left_shift 64 (get_or src 10 0) 39 255
    ∷ unpack_left_shift 64 (get_or src 11 0) 31 255
    ∷ unpack_left_shift 64 (get_or src 12 0) 23 255
    ∷ unpack_left_shift 64 (get_or src 13 0) 15 255
    ∷ unpack_left_shift 64 (get_or src 14 0) 7 255
    ∷ unpack_right_shift (get_or src 15 0) 1 254
    ∷ [])

unfoldable pub stub_unsigned_types_pack : List ℕ → UnsignedTypes → ℕ → PackResult
unfolding clear_first or_bytes types_bytes
stub_unsigned_types_pack dst src size =
    if ltb size 16 then record { rc = einval; out = dst } else record {
      rc = 16;
      out =
          or_bytes (clear_first 16 dst) (
            types_bytes src.u_int8_signal src.u_int16_signal src.u_int32_signal src.u_int64_signal);
    }

unfoldable pub stub_unsigned_types_unpack : UnsignedTypes → List ℕ → ℕ → ℕ × UnsignedTypes
unfolding unpack_int8 unpack_int16 unpack_int32 unpack_int64
stub_unsigned_types_unpack dst src size = if ltb size 16 then (einval, dst) else (
  0,
  record {
    u_int8_signal = unpack_int8 src;
    u_int16_signal = unpack_int16 src;
    u_int32_signal = unpack_int32 src;
    u_int64_signal = unpack_int64 src;
  },
)

unfoldable pub stub_unsigned_types_init : Option UnsignedTypes → ℕ × Option UnsignedTypes
stub_unsigned_types_init none = (1, none)
stub_unsigned_types_init (some old) = (
  0,
  some (record { u_int8_signal = 0; u_int16_signal = 0; u_int32_signal = 0; u_int64_signal = 0 }),
)

unfoldable pub stub_unsigned_types_u_int8_signal_is_in_range : ℕ → Bool
stub_unsigned_types_u_int8_signal_is_in_range value = leb value 250

unfoldable pub stub_unsigned_types_u_int16_signal_is_in_range : ℕ → Bool
stub_unsigned_types_u_int16_signal_is_in_range value = leb value 1000

unfoldable pub stub_unsigned_types_u_int32_signal_is_in_range : ℕ → Bool
stub_unsigned_types_u_int32_signal_is_in_range value = leb value 40000

unfoldable pub stub_unsigned_types_u_int64_signal_is_in_range : ℕ → Bool
stub_unsigned_types_u_int64_signal_is_in_range value = leb value 800000

unfoldable pub stub_signed_types_pack : List ℕ → SignedTypes → ℕ → PackResult
unfolding clear_first or_bytes types_bytes
stub_signed_types_pack dst src size =
    if ltb size 16 then record { rc = einval; out = dst } else record {
      rc = 16;
      out =
          or_bytes (clear_first 16 dst)
            (types_bytes src.int8_signal src.int16_signal src.int32_signal src.int64_signal);
    }

unfoldable pub stub_signed_types_unpack : SignedTypes → List ℕ → ℕ → ℕ × SignedTypes
unfolding unpack_int8 unpack_int16 unpack_int32 unpack_int64
stub_signed_types_unpack dst src size = if ltb size 16 then (einval, dst) else (
  0,
  record {
    int8_signal = unpack_int8 src;
    int16_signal = unpack_int16 src;
    int32_signal = unpack_int32 src;
    int64_signal = unpack_int64 src;
  },
)

unfoldable pub stub_signed_types_init : Option SignedTypes → ℕ × Option SignedTypes
stub_signed_types_init none = (1, none)
stub_signed_types_init (some old) =
    (0, some (record { int8_signal = 0; int16_signal = 0; int32_signal = 0; int64_signal = 0 }))

unfoldable pub stub_signed_types_int8_signal_is_in_range : ℕ → Bool
stub_signed_types_int8_signal_is_in_range value = true

-- From -2501 to 2500.
unfoldable pub stub_signed_types_int16_signal_is_in_range : ℕ → Bool
stub_signed_types_int16_signal_is_in_range value = leb value 2500 || leb (2 ^ 16 - 2501) value

unfoldable pub stub_signed_types_int32_signal_is_in_range : ℕ → Bool
stub_signed_types_int32_signal_is_in_range value = leb value 210000 || leb (2 ^ 32 - 210001) value

unfoldable pub stub_signed_types_int64_signal_is_in_range : ℕ → Bool
stub_signed_types_int64_signal_is_in_range value = leb value 900000 || leb (2 ^ 64 - 900001) value
