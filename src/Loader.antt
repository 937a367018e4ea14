-- ===== src/Loader.antt =====
-- dse/network/loader.c: the functions of the two shared libraries are looked up by name. What
-- `dlsym` finds is a parameter, in the records of the libraries. Symbol names are shorter than the
-- 1024 bytes of `func_name`.
pub mod Complete
use Prim.Native.String.{◌++◌}
use dse_network.Prelude.{
  ℕ, String, ◌||◌, Option, none, some, List, [], ◌∷◌, Outcome, ok, fatal, ◌>>=◌, deref, map, str_eq,
  if◌then◌else◌,
}
use dse_network.Types.{
  Codec, FunctionLib, MessageLib, NetworkFunction, NetworkMessage, NetworkSignal, Network,
}

-- A message in a container has the functions of the container message.
unfoldable pub symbol_owner : NetworkMessage → String
symbol_owner m = elim m.container [ none ↦ m.name | some container ↦ container ]

-- `%s_%s_pack` and `%s_%s_unpack`. A missing function is logged, and the pointer stays NULL.
unfoldable pub load_message_funcs : Network → NetworkMessage → NetworkMessage
load_message_funcs n m =
    let prefix = n.name ++ "_" ++ symbol_owner m in
    record m {
      pack_func = n.message_lib.pack_symbol (prefix ++ "_pack");
      unpack_func = n.message_lib.pack_symbol (prefix ++ "_unpack");
    }

unfoldable pub network_load_message_funcs : Network → Network
network_load_message_funcs n = record n { messages = map (load_message_funcs n) n.messages }

-- The three lookups of `__load_network_funcs`: one that fails ends the process.
unfoldable pub find_codec : MessageLib → String → Outcome Codec
find_codec lib prefix = elim (lib.encode_symbol (prefix ++ "_encode")) [
  | none ↦ fatal
  | some encode ↦ elim (lib.decode_symbol (prefix ++ "_decode")) [
    | none ↦ fatal
    | some decode ↦ elim (lib.range_symbol (prefix ++ "_is_in_range")) [
      | none ↦ fatal
      | some is_in_range ↦
          ok (record { encode = encode; decode = decode; is_in_range = is_in_range })
    ]
  ]
]

-- The chain over the member type. The test for 8 bits stands by itself.
unfoldable pub assign_int8 : String → Codec → NetworkSignal → NetworkSignal
assign_int8 t c s =
    if str_eq t "int8_t" || str_eq t "uint8_t" then record s { func_int8 = some c } else s

unfoldable pub assign_wider : String → Codec → NetworkSignal → NetworkSignal
assign_wider t c s =
    if str_eq t "int16_t" || str_eq t "uint16_t"
    then record s { func_int16 = some c }
    else if str_eq t "int32_t" || str_eq t "uint32_t"
    then record s { func_int32 = some c }
    else if str_eq t "int64_t" || str_eq t "uint64_t"
    then record s { func_int64 = some c }
    else if str_eq t "float"
    then record s { func_float = some c }
    else if str_eq t "double"
    then record s { func_double = some c }
    else s

-- `%s_%s_%s`: network, message or container, and the name of the struct member.
unfoldable pub load_network_funcs :
    Network → NetworkMessage → String → NetworkSignal → Outcome NetworkSignal
load_network_funcs n m name s = do
  codec ← find_codec n.message_lib (n.name ++ "_" ++ symbol_owner m ++ "_" ++ name)
  t ← deref s.member_type
  ok (assign_wider t codec (assign_int8 t codec s))

-- The signals of one message, up to the first with no name.
unfoldable pub load_signals :
    Network → NetworkMessage → List NetworkSignal → Outcome (List NetworkSignal)
load_signals n m [] = ok []
load_signals n m (s ∷ signals) = elim s.name [
  | none ↦ ok (s ∷ signals)
  | some name ↦ (do
    s' ← load_network_funcs n m name s
    rest ← load_signals n m signals
    ok (s' ∷ rest))
]

unfoldable pub load_messages_signals : Network → List NetworkMessage → Outcome (List NetworkMessage)
load_messages_signals n [] = ok []
load_messages_signals n (m ∷ messages) = do
  signals ← load_signals n m m.signals
  rest ← load_messages_signals n messages
  ok (record m { signals = signals } ∷ rest)

unfoldable pub network_load_signal_funcs : Network → Outcome Network
network_load_signal_funcs n = do
  messages ← load_messages_signals n n.messages
  ok (record n { messages = messages })

-- The functions of one list; one that the library lacks ends the process.
unfoldable pub load_functions : FunctionLib → List NetworkFunction → Outcome (List NetworkFunction)
load_functions lib [] = ok []
load_functions lib (nf ∷ functions) = elim (lib nf.name) [
  | none ↦ fatal
  | some f ↦ (do rest ← load_functions lib functions; ok (record nf { function = some f } ∷ rest))
]

unfoldable pub load_messages_functions :
    FunctionLib → List NetworkMessage → Outcome (List NetworkMessage)
load_messages_functions lib [] = ok []
load_messages_functions lib (m ∷ messages) = do
  encode ← load_functions lib m.encode_functions
  decode ← load_functions lib m.decode_functions
  rest ← load_messages_functions lib messages
  ok (record m { encode_functions = encode; decode_functions = decode } ∷ rest)

-- The return code, 1 if there is no library, and the network.
unfoldable pub network_load_function_funcs : Network → Outcome (ℕ × Network)
network_load_function_funcs n = elim n.function_lib [
  | none ↦ ok (1, n)
  | some lib ↦ (do
    messages ← load_messages_functions lib n.messages
    ok (0, record n { messages = messages }))
]
