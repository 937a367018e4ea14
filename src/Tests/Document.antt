-- ===== src/Tests/Document.antt =====
-- A YAML document of one message with one signal, and the network that is read from it.
use dse_network.Prelude.{
  ◌*◌, ◌+◌, ◌/◌, ◌≤◌, subst, ℕ, String, ◌&&◌, ◌==◌, ◌<◌, ◌≡◌, refl, false, Option, none, some, List,
  [], ◌∷◌, Outcome, ok, fault, true, ◌>>=◌, length, str_eq, arith, if◌then◌else◌, replicate,
}
use mathlib.Core.Option.{some-injective}
use dse_network.Engine.Member.{primitive, size_of}
use dse_network.Schedule.{network_schedule_reset}
use dse_network.Shape.{form}
use dse_network.Model.Open.{cleared_network}
use dse_network.Model.Total.{IsRunnable}
use dse_network.Load.Signals.{IsTyped}
use dse_network.Load.Messages.{IsServed}
use dse_network.Load.Runnable.{network_schedule_reset-network_load}
use dse_network.Types.{MarshalItem, Network, NetworkMessage, NetworkSignal}
use dse_network.Engine.Lists.{
  signal_items, message_items, signal_of, set_mux_reference, set_mux_references,
  network_load_marshal_lists, signal_names, network_get_signal_names,
}
use dse_network.Parser.{
  Yaml, NamedNode, get_uint32t, object_generator, parse_objects, parse_signal, parse_signals,
  parse_function, parse_functions, message_of, parse_message, parse_messages, network_match_handler,
  network_parse,
}
use dse_network.Parser.Enumerate.{Enumerates, IsComplete, parse_messages_lem}
use dse_network.Loader.{
  load_message_funcs, network_load_message_funcs, find_codec, assign_int8, assign_wider,
  load_network_funcs, load_signals, load_messages_signals, network_load_signal_funcs,
  load_functions, load_messages_functions, network_load_function_funcs, symbol_owner,
}
use dse_network.Load.{network_load_message_lib, network_load_function_lib, load_lists, network_load}
use dse_network.Load.Vector.{network_load_lem}
use dse_network.Tests.Data.{overlay_func, length-overlay, byte_signal, library, status}

pub data Node : Type 0 where
  document message signal message_name signal_name : Node

abbrev pub scalar_of : Node → Option String
scalar_of message_name = some "status"
scalar_of signal_name = some "speed"
scalar_of _ = none

abbrev pub node_at : Node → String → Option Node
node_at message path = if str_eq path "message" then some message_name else none
node_at signal path = if str_eq path "signal" then some signal_name else none
node_at _ path = none

abbrev pub text_at : Node → String → Option String
text_at document path =
    if str_eq path "metadata/annotations/message_lib" then some "lib.so" else none
text_at message path =
    if str_eq path "message"
    then some "status"
    else if str_eq path "annotations/frame_id"
    then some "100"
    else none
text_at signal path =
    if str_eq path "annotations/struct_member_name"
    then some "speed"
    else if str_eq path "annotations/struct_member_primitive_type"
    then some "uint8_t"
    else none
text_at _ path = none

abbrev pub number_at : Node → String → Option ℕ
number_at message path =
    if str_eq path "annotations/struct_size"
    then some 1
    else if str_eq path "annotations/frame_length"
    then some 1
    else none
number_at _ path = none

abbrev pub enumerate_at : {A : Type 0} → Node → String → ℕ → (Node → Option A) → Option A × ℕ
enumerate_at document path index generate =
    if str_eq path "spec/messages" && index == 0 then (generate message, 1) else (none, index)
enumerate_at message path index generate =
    if str_eq path "signals" && index == 0 then (generate signal, 1) else (none, index)
enumerate_at _ path index generate = (none, index)

-- NULL is no key.
abbrev pub set_key : Option String → Outcome ℕ
set_key none = fault
set_key (some key) = ok 0

abbrev pub yaml : Yaml
yaml = record {
  YamlNode = Node;
  scalar = scalar_of;
  find_node = node_at;
  get_scalar = text_at;
  get_string = text_at;
  get_uint = number_at;
  get_double = λ n path. none;
  enumerator = enumerate_at;
  hashmap_set = set_key;
}

abbrev pub strtoul : String → ℕ
strtoul text = 100

abbrev message_object : NamedNode Node
message_object = record { name = "status"; node = message }

abbrev signal_objects : Node → List (NamedNode Node)
signal_objects message = record { name = "speed"; node = signal } ∷ []
signal_objects _ = []

listed_signals : (n : Node) → Enumerates yaml strtoul n "signals" "signal" 0 (signal_objects n)
unfolding object_generator
listed_signals document = refl
listed_signals message = (refl, refl)
listed_signals signal = refl
listed_signals message_name = refl
listed_signals signal_name = refl

no_functions :
    (path : String) (n : Node)
    → str_eq path "signals" ≡ false
    → str_eq path "spec/messages" ≡ false
    → Enumerates yaml strtoul n path "function" 0 []
no_functions path document other there = rw there refl
no_functions path message other there = rw other refl
no_functions path signal other there = refl
no_functions path message_name other there = refl
no_functions path signal_name other there = refl

message_object-IsComplete :
    IsComplete yaml strtoul signal_objects
      (λ n. [])
      (λ n. [])
      listed_signals
      (λ n. no_functions "functions/encode" n refl refl)
      (λ n. no_functions "functions/decode" n refl refl)
      3
      message_object
message_object-IsComplete = record {
  named = refl;
  frame_id = "100";
  framed = refl;
  few_signals = omega arith;
  few_encode = omega arith;
  few_decode = omega arith;
}

abbrev speed : NetworkSignal
speed = record (byte_signal "speed" 0) { func_int8 = none }

abbrev pub parsed_message : NetworkMessage
parsed_message = record status {
  signals = speed ∷ [];
  buffer = replicate 8 0;
  buffer_len = 1;
  payload = replicate 8 0;
  payload_len = 1;
  pack_func = none;
  unpack_func = none;
}

parse_messages_lem_example : parse_messages yaml strtoul 3 document ≡ ok (parsed_message ∷ [])
unfolding object_generator message_of parse_signal get_uint32t
parse_messages_lem_example =
    parse_messages_lem yaml strtoul signal_objects (λ n. []) (λ n. []) listed_signals
      (λ n. no_functions "functions/encode" n refl refl)
      (λ n. no_functions "functions/decode" n refl refl) (λ key. (0, refl)) 3 document
      (message_object ∷ []) (refl, refl) (omega arith) (message_object-IsComplete, tt)

abbrev pub unloaded : Network
unloaded = cleared_network library "can"

abbrev only_item : MarshalItem
only_item = record { signal = 0; message = 0; signal_vector_index = 0 }

abbrev pub loaded_message : NetworkMessage
loaded_message = record parsed_message {
  signals = byte_signal "speed" 0 ∷ [];
  pack_func = some overlay_func;
  unpack_func = some overlay_func;
}

abbrev pub loaded : Network
loaded = record unloaded {
  has_messages = true;
  message_lib_path = some "lib.so";
  messages = loaded_message ∷ [];
  function_lib = some (λ name. none);
  marshal_list = only_item ∷ [];
  signal_name = "speed" ∷ [];
  signal_vector = 0 ∷ [];
  bus_id = 0;
  node_id = 0;
  interface_id = 0;
}

abbrev pub search_document :
    String → String → (Node → Network → Outcome (ℕ × Network)) → Network → Outcome Network
search_document kind name handler n = handler document n >>= λ r. ok r.1

pub network_load-loaded :
    network_load yaml strtoul search_document
      (λ path. some library)
      (λ path. some (λ name. none))
      3
      unloaded
    ≡ ok loaded
unfolding object_generator message_of parse_signal get_uint32t parse_messages parse_objects
    parse_message parse_signals parse_functions parse_function network_match_handler network_parse
    signal_items message_items signal_of set_mux_reference set_mux_references
    network_load_marshal_lists signal_names network_get_signal_names load_message_funcs
    network_load_message_funcs find_codec assign_int8 assign_wider load_network_funcs load_signals
    load_messages_signals network_load_signal_funcs load_functions load_messages_functions
    network_load_function_funcs symbol_owner network_load_message_lib network_load_function_lib
    load_lists network_load
network_load-loaded = refl

network_load_lem_example :
    (only_item.signal_vector_index ≡ 0)
    × (only_item.signal_vector_index < length loaded.signal_vector)
network_load_lem_example =
    network_load_lem yaml strtoul search_document (λ path. some library)
      (λ path. some (λ name. none)) 3 unloaded 0 only_item {n = loaded} network_load-loaded refl

abbrev pub parsed : Network
parsed = record unloaded {
  has_messages = true;
  messages = parsed_message ∷ [];
  message_lib_path = some "lib.so";
  bus_id = 0;
  node_id = 0;
  interface_id = 0;
}

pub network_parse-parsed : network_parse yaml strtoul search_document 3 unloaded ≡ ok parsed
unfolding object_generator message_of parse_signal get_uint32t parse_messages parse_objects
    parse_message parse_signals parse_functions parse_function network_match_handler network_parse
network_parse-parsed = refl

speed-IsTyped : IsTyped 8 speed
unfolding primitive size_of
speed-IsTyped = record {
  name = "speed";
  named = refl;
  type_name = "uint8_t";
  typed = refl;
  inside = λ p e.
      subst (λ q. 0 / size_of q * size_of q + size_of q ≤ 8) (some-injective _ _ e) (omega arith);
  unmuxed = refl;
}

pub parsed_message-IsServed : IsServed library "can" parsed_message
unfolding symbol_owner
parsed_message-IsServed = record {
  signals = (speed-IsTyped, tt);
  unmuxed = refl;
  plain = λ contained. (refl, tt);
  unpacks = record {
    unpack = overlay_func;
    found = refl;
    keeps_length = λ buffer payload len. length-overlay buffer payload;
  };
}

network_schedule_reset-network_load_example :
    IsRunnable (form (network_schedule_reset loaded))
    × (length loaded.signal_name ≡ length loaded.signal_vector)
network_schedule_reset-network_load_example =
    network_schedule_reset-network_load yaml strtoul search_document (λ path. some library)
      (λ path. some (λ name. none)) 3 unloaded parsed library {n = loaded} network_parse-parsed refl
      refl (parsed_message-IsServed, tt) network_load-loaded
