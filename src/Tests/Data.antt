-- ===== src/Tests/Data.antt =====
-- A network of two messages, one sent on change and one every 10 ms, with functions of libraries
-- that copy bytes and values.
use dse_network.Prelude.{
  suc, ◌≡◌, refl, ap, length, List, ℕ, String, true, false, none, some, [], ◌∷◌,
}
use dse_network.Types.{Codec, MessageLib, Network, NetworkMessage, NetworkSignal, PackFunc}
use dse_network.Bus.{CanMessage}

abbrev pub identity : Codec
identity = record { encode = λ v. v; decode = λ x. x; is_in_range = λ x. true }

abbrev pub copy : PackFunc
copy = λ dst src size. record { rc = 0; out = src }

-- Bytes over bytes: as many as there is room for.
unfoldable pub overlay : List ℕ → List ℕ → List ℕ
overlay [] src = []
overlay (d ∷ ds) [] = d ∷ ds
overlay (d ∷ ds) (b ∷ bs) = b ∷ overlay ds bs

pub length-overlay : (dst src : List ℕ) → length (overlay dst src) ≡ length dst
unfolding overlay
length-overlay [] src = refl
length-overlay (d ∷ ds) [] = refl
length-overlay (d ∷ ds) (b ∷ bs) = ap suc (length-overlay ds bs)

abbrev pub overlay_func : PackFunc
overlay_func = λ dst src size. record { rc = 0; out = overlay dst src }

abbrev pub library : MessageLib
library = record {
  pack_symbol = λ name. some overlay_func;
  encode_symbol = λ name. some (λ v. v);
  decode_symbol = λ name. some (λ x. x);
  range_symbol = λ name. some (λ x. true);
}

-- A signal of the type `uint8_t`, in the byte at the offset.
abbrev pub byte_signal : String → ℕ → NetworkSignal
byte_signal name offset = record {
  name = some name;
  signal_name = name;
  member_type = some "uint8_t";
  buffer_offset = offset;
  init_value = 0;
  internal = false;
  value = 0;
  mux_signal = false;
  mux_mi = none;
  func_int8 = some identity;
  func_int16 = none;
  func_int32 = none;
  func_int64 = none;
  func_float = none;
  func_double = none;
}

-- A signal of the type `int64_t`, at the start of the buffer.
abbrev pub long_signal : NetworkSignal
long_signal = record (byte_signal "distance" 0) {
  member_type = some "int64_t";
  func_int8 = none;
  func_int64 = some identity;
}

abbrev pub status : NetworkMessage
status = record {
  name = "status";
  frame_id = 100;
  frame_type = 0;
  signals = byte_signal "speed" 0 ∷ byte_signal "gear" 1 ∷ [];
  container = none;
  mux_id = 0;
  mux_signal = none;
  buffer = 5 ∷ 3 ∷ [];
  buffer_len = 2;
  cycle_time_ms = 0;
  payload = 0 ∷ 0 ∷ [];
  payload_len = 2;
  buffer_checksum = 0;
  needs_tx = false;
  pack_func = some copy;
  unpack_func = some copy;
  update_signals = false;
  encode_functions = [];
  decode_functions = [];
}

abbrev pub cyclic : NetworkMessage
cyclic = record status { name = "alive"; frame_id = 200; cycle_time_ms = 10 }

abbrev pub network : Network
network = record {
  name = "can";
  has_messages = true;
  messages = status ∷ cyclic ∷ [];
  message_lib = library;
  function_lib = none;
  marshal_list = [];
  signal_name = [];
  signal_vector = 0 ∷ 0 ∷ 0 ∷ 0 ∷ [];
  schedule_list = none;
  tick = 0;
  netoff_value = none;
  message_lib_path = some "lib.so";
  function_lib_path = none;
  netoff_signal = none;
  bus_id = 1;
  node_id = 2;
  interface_id = 3;
}

-- A frame for the first message.
abbrev pub frame : CanMessage
frame = record { frame_id = 100; frame_type = 0; buffer = 8 ∷ 3 ∷ []; len = 2 }
