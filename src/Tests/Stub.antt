-- ===== src/Tests/Stub.antt =====
-- Messages of the stub library, packed and unpacked.
use dse_network.Prelude.{◌≡◌, refl, arith, replicate}
use dse_network.Stub.{ExampleMessage, stub_example_message_pack, stub_example_message_unpack}
use dse_network.Stub.Wide.{
  FloatTypes, MuxMessage, UnsignedTypes, stub_unsigned_types_pack, stub_unsigned_types_unpack,
}
use dse_network.Stub.Types.{stub_unsigned_types_unpack-stub_unsigned_types_pack}
use dse_network.Stub.Floats.{
  stub_float_types_pack, stub_float_types_unpack, stub_mux_message_pack, stub_mux_message_unpack,
}
use dse_network.Stub.Floats.Roundtrip.{stub_float_types_unpack-stub_float_types_pack}
use dse_network.Stub.Floats.Mux.{stub_mux_message_unpack-stub_mux_message_pack}

abbrev numbers : UnsignedTypes
numbers = record {
  u_int8_signal = 250;
  u_int16_signal = 65535;
  u_int32_signal = 4000000001;
  u_int64_signal = 18446744073709551615;
}

abbrev no_numbers : UnsignedTypes
no_numbers = record {
  u_int8_signal = 0;
  u_int16_signal = 0;
  u_int32_signal = 0;
  u_int64_signal = 0;
}

stub_unsigned_types_unpack-stub_unsigned_types_pack_example :
    let packed = stub_unsigned_types_pack (replicate 16 9) numbers 16 in
    (packed.rc ≡ 16) × (stub_unsigned_types_unpack no_numbers packed.out 16 ≡ (0, numbers))
stub_unsigned_types_unpack-stub_unsigned_types_pack_example =
    stub_unsigned_types_unpack-stub_unsigned_types_pack (replicate 16 9) no_numbers numbers 16
      (omega arith) (omega arith) (omega arith) (omega arith) (omega arith)

abbrev floats : FloatTypes
floats = record { double_signal = 4607182418800017408; float_signal = 1065353216 }

stub_float_types_unpack-stub_float_types_pack_example :
    let packed = stub_float_types_pack (replicate 16 9) floats 16 in
    (packed.rc ≡ 16) × (stub_float_types_unpack floats packed.out 16 ≡ (0, floats))
stub_float_types_unpack-stub_float_types_pack_example =
    stub_float_types_unpack-stub_float_types_pack (replicate 16 9) floats floats 16 (omega arith)
      (omega arith) (omega arith)

abbrev selects_float : MuxMessage
selects_float = record { header_id = 602; header_dlc = 4; foo_double = 1; bar_float = 1065353216 }

abbrev old_mux : MuxMessage
old_mux = record { header_id = 601; header_dlc = 8; foo_double = 5; bar_float = 6 }

stub_mux_message_unpack-stub_mux_message_pack_example :
    let packed = stub_mux_message_pack (replicate 12 9) selects_float 12 in
    (packed.rc ≡ 12)
    × (stub_mux_message_unpack old_mux packed.out 12 ≡ (0, record selects_float { foo_double = 5 }))
stub_mux_message_unpack-stub_mux_message_pack_example =
    stub_mux_message_unpack-stub_mux_message_pack (replicate 12 9) selects_float old_mux
      (omega arith) (omega arith) (omega arith) (omega arith) 12 (omega arith)

-- A temperature of -2000.
abbrev cold : ExampleMessage
cold = record { enable = 1; average_radius = 33; temperature = 63536 }

cold_back :
    stub_example_message_unpack cold (stub_example_message_pack (replicate 8 9) cold 8).out 8
    ≡ (0, cold)
unfolding stub_example_message_unpack stub_example_message_pack
cold_back = refl
