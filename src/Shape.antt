-- ===== src/Shape.antt =====
-- What no step of the model changes: of a message all but the bytes of buffer and payload, the
-- recorded hash, the two flags and the instance data of its functions; of the buffer its length.
-- A network is sound if the lists and indices that the engine follows without a test lead somewhere.
use dse_network.Prelude.{
  All, map_agrees, ℕ, String, ◌+◌, ◌<◌, ◌≤◌, ◌*◌, ◌/◌, ◌≡◌, refl, ap, false, true, Bool, Option,
  none, some, List, [], map, length, get_elem?,
}
use dse_network.Types.{
  Codec, Double, NetworkScheduleItem, MarshalItem, Network, NetworkFunction, NetworkMessage,
  NetworkSignal, PackFunc,
}
use dse_network.Engine.Member.{Primitive, primitive, size_of, func_of}

abbrev pub blank_function : NetworkFunction → NetworkFunction
blank_function nf = record nf { inst = none }

abbrev pub blank : NetworkMessage → NetworkMessage
blank m = record m {
  buffer = [];
  payload = [];
  buffer_checksum = 0;
  needs_tx = false;
  update_signals = false;
  encode_functions = map blank_function m.encode_functions;
  decode_functions = map blank_function m.decode_functions;
}

-- The message and the length of its buffer.
abbrev pub Shape : Type 0
Shape = NetworkMessage × ℕ

abbrev pub shape : NetworkMessage → Shape
shape m = (blank m, length m.buffer)

-- All but the bytes of the buffer.
abbrev pub core : NetworkMessage → Shape
core m = (record m { buffer = [] }, length m.buffer)

pub shapes-cores :
    (xs ys : List NetworkMessage) → map core xs ≡ map core ys → map shape xs ≡ map shape ys
shapes-cores xs ys = map_agrees core (λ x. (blank x.0, x.1)) shape xs ys (λ x. refl)

-- A signal has a type; if the engine knows it, its functions are loaded and its struct member lies
-- inside the buffer.
pub record IsSound (size : ℕ) (s : NetworkSignal) : Type 0 where
  pub type_name : String
  pub typed : s.member_type ≡ some type_name
  pub codec : (p : Primitive) → primitive type_name ≡ some p → (c : Codec) × (func_of p s ≡ some c)
  pub inside :
      (p : Primitive)
      → primitive type_name ≡ some p
      → s.buffer_offset / size_of p * size_of p + size_of p ≤ size

-- A marshal item leads to a message, a signal and a value.
pub record Leads (shapes : List Shape) (values : ℕ) (mi : MarshalItem) : Type 0 where
  pub message : Shape
  pub message_there : get_elem? shapes mi.message ≡ some message
  pub signal : NetworkSignal
  pub signal_there : get_elem? message.0.signals mi.signal ≡ some signal
  pub sound : IsSound message.1 signal
  pub value_there : mi.signal_vector_index < values

-- The unpack function is loaded and keeps the length of the buffer, and the mux signal of a container
-- is a signal with a marshal item.
pub record IsReceivable (items : ℕ) (m : Shape) : Type 0 where
  pub unpack : PackFunc
  pub unpack_there : m.0.unpack_func ≡ some unpack
  pub keeps_length :
      (buffer payload : List ℕ) (len : ℕ) → length (unpack buffer payload len).out ≡ length buffer
  pub mux_there :
      (j : ℕ) → m.0.mux_signal ≡ some j → (s : NetworkSignal) × (get_elem? m.0.signals j ≡ some s)
  pub item_there :
      (j k : ℕ) (s : NetworkSignal)
      → m.0.mux_signal ≡ some j
      → get_elem? m.0.signals j ≡ some s
      → s.mux_mi ≡ some k
      → k < items

abbrev pub schedule_messages : Option (List NetworkScheduleItem) → Option (List ℕ)
schedule_messages none = none
schedule_messages (some items) = some (map (λ (x : NetworkScheduleItem). x.message) items)

-- What no step changes of a network.
pub record Form : Type 0 where
  pub has_messages : Bool
  pub shapes : List Shape
  pub items : List MarshalItem
  pub values : ℕ
  pub scheduled : Option (List ℕ)

abbrev pub form : Network → Form
form n = record {
  has_messages = n.has_messages;
  shapes = map shape n.messages;
  items = n.marshal_list;
  values = length n.signal_vector;
  scheduled = schedule_messages n.schedule_list;
}

-- What the engine needs of a network to run with no fault.
pub record IsReady (f : Form) : Type 0 where
  pub allocated : f.has_messages ≡ true
  pub items : All (Leads f.shapes f.values) f.items
  pub messages : All (IsReceivable (length f.items)) f.shapes

-- The form of a network after a change of the messages that keeps their shapes.
pub form-messages :
    (n : Network) (messages : List NetworkMessage)
    → map shape messages ≡ map shape n.messages
    → form (record n { messages = messages }) ≡ form n
form-messages n messages same = ap (λ x. record (form n) { shapes = x }) same

pub form-vector :
    (n : Network) (vector : List Double)
    → length vector ≡ length n.signal_vector
    → form (record n { signal_vector = vector }) ≡ form n
form-vector n vector same = ap (λ x. record (form n) { values = x }) same
