-- ===== src/Stub/Roundtrip.antt =====
-- What is packed is unpacked again.
use dse_network.Prelude.{ℕ, ◌<◌, ◌≤◌, ◌≡◌, refl, ap, ap₂, List, true, false, ltb, arith}
use dse_network.Stub.{
  unpack_right_shift, pack_left_shift, FunctionExample, ExampleMessage2, stub_function_example_pack,
  stub_function_example_unpack, stub_example_message2_pack, stub_example_message2_unpack,
  stub_example_message2_radius_is_in_range,
}
use dse_network.Stub.Bytes.{through_byte, through_six_bits}

le-ltb : (size : ℕ) → 8 ≤ size → ltb size 8 ≡ false
le-ltb size h = ground arith

abbrev function_example : ℕ → ℕ → ℕ → ℕ → FunctionExample
function_example crc alive foo bar = record { crc = crc; alive = alive; foo = foo; bar = bar }

abbrev example_message2 : ℕ → ExampleMessage2
example_message2 radius = record { radius = radius }

abbrev pair : ℕ → ℕ → ℕ × ℕ
pair x y = (x, y)

-- A function_example whose members are bytes, packed into a payload of 8 bytes or more, whatever
-- was there before, and unpacked again, is as it was; packing returns 8 and unpacking 0.
pub stub_function_example_unpack-stub_function_example_pack :
    (before : List ℕ) (old message : FunctionExample) (size : ℕ)
    → 8 ≤ size
    → message.crc < 256
    → message.alive < 256
    → message.foo < 256
    → message.bar < 256
    → let packed = stub_function_example_pack before message size in
      (packed.rc ≡ 8) × (stub_function_example_unpack old packed.out size ≡ (0, message))
unfolding stub_function_example_pack stub_function_example_unpack unpack_right_shift pack_left_shift
stub_function_example_unpack-stub_function_example_pack before old message size fits c a f b =
    rw (le-ltb size fits, stub_function_example_pack, stub_function_example_unpack)
      (
        refl,
        ap₂ (λ (x : ℕ × ℕ) (y : ℕ × ℕ). (0, function_example x.0 x.1 y.0 y.1))
            (ap₂ pair (through_byte message.crc c) (through_byte message.alive a))
            (ap₂ pair (through_byte message.foo f) (through_byte message.bar b)),
      )

-- An example_message2 whose radius is in range, packed into a payload of 8 bytes or more, whatever
-- was there before, and unpacked again, is as it was; packing returns 8 and unpacking 0.
pub stub_example_message2_unpack-stub_example_message2_pack :
    (before : List ℕ) (old : ExampleMessage2) (radius size : ℕ)
    → 8 ≤ size
    → stub_example_message2_radius_is_in_range radius ≡ true
    → let packed = stub_example_message2_pack before (record { radius = radius }) size in
      (packed.rc ≡ 8)
      × (stub_example_message2_unpack old packed.out size ≡ (0, record { radius = radius }))
unfolding stub_example_message2_pack stub_example_message2_unpack
    stub_example_message2_radius_is_in_range
stub_example_message2_unpack-stub_example_message2_pack before old radius size fits ranged =
    let small : radius < 64 = ground arith in
    rw (le-ltb size fits, stub_example_message2_pack, stub_example_message2_unpack)
      (refl, ap (λ x. (0, example_message2 x)) (through_six_bits radius small))
