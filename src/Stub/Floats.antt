-- ===== src/Stub/Floats.antt =====
-- dse/network/examples/stub/stub.c, continued: the messages float_types and mux_message, lowest byte
-- first. A `double` and a `float` are bit patterns.
pub mod Roundtrip
pub mod Mux
use dse_network.Prelude.{
  ℕ, ◌+◌, ◌==◌, Bool, true, Option, none, some, List, [], ◌∷◌, ◌++◌, ltb, leb, get_or,
  if◌then◌else◌,
}
use dse_network.Types.{PackResult}
use dse_network.Library.{einval}
use dse_network.Stub.{pack_left_shift, pack_right_shift, unpack_left_shift, unpack_right_shift}
use dse_network.Stub.Wide.{clear_first, or_bytes, or_all, FloatTypes, MuxMessage}

-- The eight bytes of a `double`, from byte `i` on, and the four of a `float`.
unfoldable pub double_bytes : ℕ → ℕ → List (ℕ × ℕ)
unfolding pack_left_shift pack_right_shift
double_bytes i value =
    (i, pack_left_shift value 0 255)
    ∷ (i + 1, pack_right_shift value 8 255)
    ∷ (i + 2, pack_right_shift value 16 255)
    ∷ (i + 3, pack_right_shift value 24 255)
    ∷ (i + 4, pack_right_shift value 32 255)
    ∷ (i + 5, pack_right_shift value 40 255)
    ∷ (i + 6, pack_right_shift value 48 255)
    ∷ (i + 7, pack_right_shift value 56 255)
    ∷ []

unfoldable pub unpack_double : ℕ → List ℕ → ℕ
unfolding unpack_left_shift unpack_right_shift or_all
unpack_double i src = or_all (unpack_right_shift (get_or src i 0) 0 255) (
    unpack_left_shift 64 (get_or src (i + 1) 0) 8 255
    ∷ unpack_left_shift 64 (get_or src (i + 2) 0) 16 255
    ∷ unpack_left_shift 64 (get_or src (i + 3) 0) 24 255
    ∷ unpack_left_shift 64 (get_or src (i + 4) 0) 32 255
    ∷ unpack_left_shift 64 (get_or src (i + 5) 0) 40 255
    ∷ unpack_left_shift 64 (get_or src (i + 6) 0) 48 255
    ∷ unpack_left_shift 64 (get_or src (i + 7) 0) 56 255
    ∷ [])

unfoldable pub float_bytes : ℕ → ℕ → List (ℕ × ℕ)
unfolding pack_left_shift pack_right_shift
float_bytes i value =
    (i, pack_left_shift value 0 255)
    ∷ (i + 1, pack_right_shift value 8 255)
    ∷ (i + 2, pack_right_shift value 16 255)
    ∷ (i + 3, pack_right_shift value 24 255)
    ∷ []

unfoldable pub unpack_float : ℕ → List ℕ → ℕ
unfolding unpack_left_shift unpack_right_shift or_all
unpack_float i src = or_all (unpack_right_shift (get_or src i 0) 0 255) (
    unpack_left_shift 32 (get_or src (i + 1) 0) 8 255
    ∷ unpack_left_shift 32 (get_or src (i + 2) 0) 16 255
    ∷ unpack_left_shift 32 (get_or src (i + 3) 0) 24 255
    ∷ [])

unfoldable pub stub_float_types_pack : List ℕ → FloatTypes → ℕ → PackResult
unfolding clear_first or_bytes double_bytes float_bytes
stub_float_types_pack dst src size =
    if ltb size 16 then record { rc = einval; out = dst } else record {
      rc = 16;
      out =
          or_bytes (clear_first 16 dst)
            (double_bytes 0 src.double_signal ++ float_bytes 8 src.float_signal);
    }

unfoldable pub stub_float_types_unpack : FloatTypes → List ℕ → ℕ → ℕ × FloatTypes
unfolding unpack_double unpack_float
stub_float_types_unpack dst src size =
    if ltb size 16
    then (einval, dst)
    else (0, record { double_signal = unpack_double 0 src; float_signal = unpack_float 8 src })

unfoldable pub stub_float_types_init : Option FloatTypes → ℕ × Option FloatTypes
stub_float_types_init none = (1, none)
stub_float_types_init (some old) = (0, some (record { double_signal = 0; float_signal = 0 }))

unfoldable pub stub_float_types_double_signal_is_in_range : ℕ → Bool
stub_float_types_double_signal_is_in_range value = true

unfoldable pub stub_float_types_float_signal_is_in_range : ℕ → Bool
stub_float_types_float_signal_is_in_range value = true

-- The four bytes of the header.
unfoldable pub header_bytes : MuxMessage → List (ℕ × ℕ)
unfolding pack_left_shift pack_right_shift
header_bytes src =
    (0, pack_left_shift src.header_id 0 255)
    ∷ (1, pack_right_shift src.header_id 8 255)
    ∷ (2, pack_right_shift src.header_id 16 255)
    ∷ (3, pack_left_shift src.header_dlc 0 255)
    ∷ []

-- The header id selects what follows the header.
unfoldable pub selected_bytes : MuxMessage → List (ℕ × ℕ)
unfolding double_bytes float_bytes
selected_bytes src =
    if src.header_id == 601
    then double_bytes 4 src.foo_double
    else if src.header_id == 602
    then float_bytes 4 src.bar_float
    else []

unfoldable pub stub_mux_message_pack : List ℕ → MuxMessage → ℕ → PackResult
unfolding clear_first or_bytes header_bytes selected_bytes
stub_mux_message_pack dst src size =
    if ltb size 12 then record { rc = einval; out = dst } else record {
      rc = 12;
      out = or_bytes (clear_first 12 dst) (header_bytes src ++ selected_bytes src);
    }

unfoldable pub unpack_header_id : List ℕ → ℕ
unfolding unpack_left_shift unpack_right_shift or_all
unpack_header_id src = or_all (unpack_right_shift (get_or src 0 0) 0 255) (
    unpack_left_shift 32 (get_or src 1 0) 8 255 ∷ unpack_left_shift 32 (get_or src 2 0) 16 255 ∷ [])

-- The member that the header id does not select stays as it was.
unfoldable pub unpack_selected : ℕ → List ℕ → MuxMessage → MuxMessage
unfolding unpack_double unpack_float
unpack_selected header_id src dst =
    if header_id == 601
    then record dst { foo_double = unpack_double 4 src }
    else if header_id == 602
    then record dst { bar_float = unpack_float 4 src }
    else dst

unfoldable pub stub_mux_message_unpack : MuxMessage → List ℕ → ℕ → ℕ × MuxMessage
unfolding unpack_header_id unpack_selected unpack_right_shift
stub_mux_message_unpack dst src size =
    if ltb size 12
    then (einval, dst)
    else (let header_id = unpack_header_id src in
        let header_dlc = unpack_right_shift (get_or src 3 0) 0 255 in
        (
          0,
          unpack_selected header_id src
              (record dst { header_id = header_id; header_dlc = header_dlc }),
        ))

unfoldable pub stub_mux_message_init : Option MuxMessage → ℕ × Option MuxMessage
stub_mux_message_init none = (1, none)
stub_mux_message_init (some old) =
    (0, some (record { header_id = 0; header_dlc = 0; foo_double = 0; bar_float = 0 }))

unfoldable pub stub_mux_message_header_id_is_in_range : ℕ → Bool
stub_mux_message_header_id_is_in_range value = leb value 16777215

unfoldable pub stub_mux_message_header_dlc_is_in_range : ℕ → Bool
stub_mux_message_header_dlc_is_in_range value = true

unfoldable pub stub_mux_message_foo_double_is_in_range : ℕ → Bool
stub_mux_message_foo_double_is_in_range value = true

unfoldable pub stub_mux_message_bar_float_is_in_range : ℕ → Bool
stub_mux_message_bar_float_is_in_range value = true
