-- ===== src/Stub.antt =====
-- dse/network/examples/stub/stub.c, in part: the shift functions, and the pack, unpack, init and
-- range functions of the messages example_message, example_message2, function_example and
-- scheduled_message; Wide and Floats have the other messages. The encode and decode functions
-- compute in floating point. A destination has at least the bytes that the size promises, as the
-- functions assume; a return code below 0 is given as its absolute value. An init function is given
-- the message, none for NULL, and returns the code and the message.
pub mod Bytes
pub mod Roundtrip
pub mod Wide
pub mod Floats
pub mod Digits
pub mod Members
pub mod Shifted
pub mod Types
use Prim.Native.Nat.{bit_and, bit_or}
use dse_network.Prelude.{
  ℕ, ◌-◌, ◌*◌, ◌==◌, ◌||◌, ◌/◌, ◌%◌, ◌^◌, Bool, true, Option, none, some, List, ◌++◌, ltb, leb,
  get_or, set, drop, replicate, if◌then◌else◌,
}
use dse_network.Types.{PackResult}
use dse_network.Library.{einval}

-- `(uint8_t)((uint8_t)(value << shift) & mask)`, the same for each width of the value.
unfoldable pub pack_left_shift : ℕ → ℕ → ℕ → ℕ
pack_left_shift value shift mask = bit_and (value * 2 ^ shift % 2 ^ 8) mask

unfoldable pub pack_right_shift : ℕ → ℕ → ℕ → ℕ
pack_right_shift value shift mask = bit_and (value / 2 ^ shift % 2 ^ 8) mask

-- The result has `w` bits.
unfoldable pub unpack_left_shift : ℕ → ℕ → ℕ → ℕ → ℕ
unpack_left_shift w value shift mask = bit_and value mask * 2 ^ shift % 2 ^ w

unfoldable pub unpack_right_shift : ℕ → ℕ → ℕ → ℕ
unpack_right_shift value shift mask = bit_and value mask / 2 ^ shift

-- `dst_p[i] |= x`
unfoldable pub or_byte : List ℕ → ℕ → ℕ → List ℕ
or_byte dst i x = set dst i (bit_or (get_or dst i 0) x % 2 ^ 8)

-- `memset(&dst_p[0], 0, 8)`
unfoldable pub clear_bytes : List ℕ → List ℕ
clear_bytes dst = replicate 8 0 ++ drop 8 dst

pub record FunctionExample : Type 0 where
  pub crc : ℕ
  pub alive : ℕ
  pub foo : ℕ
  pub bar : ℕ

pub record ExampleMessage2 : Type 0 where
  pub radius : ℕ

pub record ScheduledMessage : Type 0 where
  pub schedule_signal : ℕ

unfoldable pub stub_function_example_pack : List ℕ → FunctionExample → ℕ → PackResult
unfolding pack_left_shift or_byte clear_bytes
stub_function_example_pack dst src size =
    if ltb size 8
    then record { rc = einval; out = dst }
    else (let crc = or_byte (clear_bytes dst) 0 (pack_left_shift src.crc 0 255) in
        let alive = or_byte crc 1 (pack_left_shift src.alive 0 255) in
        let foo = or_byte alive 2 (pack_left_shift src.foo 0 255) in
        record { rc = 8; out = or_byte foo 3 (pack_left_shift src.bar 0 255) })

unfoldable pub stub_function_example_unpack : FunctionExample → List ℕ → ℕ → ℕ × FunctionExample
unfolding unpack_right_shift
stub_function_example_unpack dst src size = if ltb size 8 then (einval, dst) else (
  0,
  record {
    crc = unpack_right_shift (get_or src 0 0) 0 255;
    alive = unpack_right_shift (get_or src 1 0) 0 255;
    foo = unpack_right_shift (get_or src 2 0) 0 255;
    bar = unpack_right_shift (get_or src 3 0) 0 255;
  },
)

unfoldable pub stub_function_example_init : Option FunctionExample → ℕ × Option FunctionExample
stub_function_example_init none = (1, none)
stub_function_example_init (some old) = (0, some (record { crc = 0; alive = 0; foo = 0; bar = 0 }))

unfoldable pub stub_example_message2_pack : List ℕ → ExampleMessage2 → ℕ → PackResult
unfolding pack_left_shift or_byte clear_bytes
stub_example_message2_pack dst src size =
    if ltb size 8
    then record { rc = einval; out = dst }
    else record { rc = 8; out = or_byte (clear_bytes dst) 0 (pack_left_shift src.radius 1 126) }

unfoldable pub stub_example_message2_unpack : ExampleMessage2 → List ℕ → ℕ → ℕ × ExampleMessage2
unfolding unpack_right_shift
stub_example_message2_unpack dst src size =
    if ltb size 8
    then (einval, dst)
    else (0, record { radius = unpack_right_shift (get_or src 0 0) 1 126 })

unfoldable pub stub_example_message2_init : Option ExampleMessage2 → ℕ × Option ExampleMessage2
stub_example_message2_init none = (1, none)
stub_example_message2_init (some old) = (0, some (record { radius = 0 }))

unfoldable pub stub_example_message2_radius_is_in_range : ℕ → Bool
stub_example_message2_radius_is_in_range value = leb value 50

unfoldable pub stub_scheduled_message_pack : List ℕ → ScheduledMessage → ℕ → PackResult
unfolding pack_left_shift or_byte clear_bytes
stub_scheduled_message_pack dst src size =
    if ltb size 8 then record { rc = einval; out = dst } else record {
      rc = 8;
      out = or_byte (clear_bytes dst) 0 (pack_left_shift src.schedule_signal 0 1);
    }

unfoldable pub stub_scheduled_message_unpack : ScheduledMessage → List ℕ → ℕ → ℕ × ScheduledMessage
unfolding unpack_right_shift
stub_scheduled_message_unpack dst src size =
    if ltb size 8
    then (einval, dst)
    else (0, record { schedule_signal = unpack_right_shift (get_or src 0 0) 0 1 })

unfoldable pub stub_scheduled_message_init : Option ScheduledMessage → ℕ × Option ScheduledMessage
stub_scheduled_message_init none = (1, none)
stub_scheduled_message_init (some old) = (0, some (record { schedule_signal = 0 }))

unfoldable pub stub_scheduled_message_schedule_signal_is_in_range : ℕ → Bool
stub_scheduled_message_schedule_signal_is_in_range value = leb value 1

-- `temperature` is an `int16_t`, as its bit pattern.
pub record ExampleMessage : Type 0 where
  pub enable : ℕ
  pub average_radius : ℕ
  pub temperature : ℕ

unfoldable pub stub_example_message_pack : List ℕ → ExampleMessage → ℕ → PackResult
unfolding pack_left_shift pack_right_shift or_byte clear_bytes
stub_example_message_pack dst src size =
    if ltb size 8
    then record { rc = einval; out = dst }
    else (let temperature = src.temperature % 2 ^ 16 in
        let enable = or_byte (clear_bytes dst) 0 (pack_left_shift src.enable 7 128) in
        let radius = or_byte enable 0 (pack_left_shift src.average_radius 1 126) in
        let high = or_byte radius 0 (pack_right_shift temperature 11 1) in
        let middle = or_byte high 1 (pack_right_shift temperature 3 255) in
        record { rc = 8; out = or_byte middle 2 (pack_left_shift temperature 5 224) })

-- The sign of the 12 bits is extended to 16.
unfoldable pub extend_sign : ℕ → ℕ
extend_sign temperature =
    if bit_and temperature (2 ^ 11) == 0 then temperature else bit_or temperature 61440

unfoldable pub stub_example_message_unpack : ExampleMessage → List ℕ → ℕ → ℕ × ExampleMessage
unfolding unpack_left_shift unpack_right_shift extend_sign
stub_example_message_unpack dst src size =
    if ltb size 8
    then (einval, dst)
    else (let high = unpack_left_shift 16 (get_or src 0 0) 11 1 in
        let middle = bit_or high (unpack_left_shift 16 (get_or src 1 0) 3 255) in
        let temperature = bit_or middle (unpack_right_shift (get_or src 2 0) 5 224) in
        (
          0,
          record {
            enable = unpack_right_shift (get_or src 0 0) 7 128;
            average_radius = unpack_right_shift (get_or src 0 0) 1 126;
            temperature = extend_sign temperature;
          },
        ))

unfoldable pub stub_example_message_init : Option ExampleMessage → ℕ × Option ExampleMessage
stub_example_message_init none = (1, none)
stub_example_message_init (some old) =
    (0, some (record { enable = 0; average_radius = 0; temperature = 0 }))

unfoldable pub stub_example_message_enable_is_in_range : ℕ → Bool
stub_example_message_enable_is_in_range value = leb value 1

unfoldable pub stub_example_message_average_radius_is_in_range : ℕ → Bool
stub_example_message_average_radius_is_in_range value = leb value 50

-- From -2048 to 2047, on bit patterns of 16 bits.
unfoldable pub stub_example_message_temperature_is_in_range : ℕ → Bool
stub_example_message_temperature_is_in_range value = leb value 2047 || leb (2 ^ 16 - 2048) value
