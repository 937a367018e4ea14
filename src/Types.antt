-- ===== src/Types.antt =====
-- The structs of dse/network/network.h. A pointer into an array of the network is its index there,
-- a NULL terminated array is a list, and a pointer that may be NULL is an option. A buffer that
-- was not allocated is the empty list: `calloc` runs exactly when the length is not 0.
use dse_network.Prelude.{ℕ, String, Bool, List, Option, Outcome}

-- The bit pattern of a C `double`, which the engine moves and never computes with.
abbrev pub Double : Type 0
Double = ℕ

-- The encode, decode and range functions of one signal, from the message library. The loader
-- sets the three pointers of one width together. An integer or a `float` is its bit pattern.
pub record Codec : Type 0 where
  pub encode : Double → ℕ
  pub decode : ℕ → Double
  pub is_in_range : ℕ → Bool

pub record PackResult : Type 0 where
  pub rc : ℕ
  pub out : List ℕ

-- `int f(dst, src, size)`: the bytes of `dst` afterwards and the return code. The code tests only
-- whether it is 0; one below 0 is given as its absolute value.
abbrev pub PackFunc : Type 0
PackFunc = List ℕ → List ℕ → ℕ → PackResult

-- The annotations of a function: the scalar at a path, if there is one.
abbrev pub Annotations : Type 0
Annotations = String → Option String

-- `inst` is the block that the field `data` of the C struct points to.
pub record FunctionResult : Type 0 where
  pub rc : ℕ
  pub inst : Option (List ℕ)
  pub payload : List ℕ

-- A function of the function library: annotations, instance data, payload, payload length.
abbrev pub NetworkFunctionFunc : Type 0
NetworkFunctionFunc = Option Annotations → Option (List ℕ) → List ℕ → ℕ → Outcome FunctionResult

pub record NetworkFunction : Type 0 where
  pub name : String
  pub annotations : Option Annotations
  pub inst : Option (List ℕ)
  pub function : Option NetworkFunctionFunc

-- `name` and `member_type` are NULL when the document lacks the annotation.
pub record NetworkSignal : Type 0 where
  pub name : Option String
  pub signal_name : String
  pub member_type : Option String
  pub buffer_offset : ℕ
  pub init_value : Double
  pub internal : Bool
  pub value : Double
  pub mux_signal : Bool
  pub mux_mi : Option ℕ
  pub func_int8 : Option Codec
  pub func_int16 : Option Codec
  pub func_int32 : Option Codec
  pub func_int64 : Option Codec
  pub func_float : Option Codec
  pub func_double : Option Codec

pub record NetworkMessage : Type 0 where
  pub name : String
  pub frame_id : ℕ
  pub frame_type : ℕ
  pub signals : List NetworkSignal
  pub container : Option String
  pub mux_id : ℕ
  pub mux_signal : Option ℕ
  pub buffer : List ℕ
  pub buffer_len : ℕ
  pub cycle_time_ms : ℕ
  pub payload : List ℕ
  pub payload_len : ℕ
  pub buffer_checksum : ℕ
  pub needs_tx : Bool
  pub pack_func : Option PackFunc
  pub unpack_func : Option PackFunc
  pub update_signals : Bool
  pub encode_functions : List NetworkFunction
  pub decode_functions : List NetworkFunction

-- `message` is an index into the messages, `signal` one into that message's signals.
pub record MarshalItem : Type 0 where
  pub signal : ℕ
  pub message : ℕ
  pub signal_vector_index : ℕ

pub record NetworkScheduleItem : Type 0 where
  pub message : ℕ
  pub alarm : ℕ

-- The symbols that `dlsym` finds in the two shared libraries, at the type at which the loader
-- uses them.
pub record MessageLib : Type 0 where
  pub pack_symbol : String → Option PackFunc
  pub encode_symbol : String → Option (Double → ℕ)
  pub decode_symbol : String → Option (ℕ → Double)
  pub range_symbol : String → Option (ℕ → Bool)

abbrev pub FunctionLib : Type 0
FunctionLib = String → Option NetworkFunctionFunc

-- `has_messages` is false where the pointer to the messages is NULL; then the list is empty.
-- `netoff_value` is the value that the pointer shows, if it is set.
pub record Network : Type 0 where
  pub name : String
  pub has_messages : Bool
  pub messages : List NetworkMessage
  pub message_lib : MessageLib
  pub function_lib : Option FunctionLib
  pub marshal_list : List MarshalItem
  pub signal_name : List String
  pub signal_vector : List Double
  pub schedule_list : Option (List NetworkScheduleItem)
  pub tick : ℕ
  pub netoff_value : Option Double
  pub message_lib_path : Option String
  pub function_lib_path : Option String
  pub netoff_signal : Option String
  pub bus_id : ℕ
  pub node_id : ℕ
  pub interface_id : ℕ
