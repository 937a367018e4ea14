-- ===== src/Parser.antt =====
-- dse/network/parser.c: a network is read from a YAML document. The YAML and schema functions of
-- the libraries dse.clib and dse.modelc are the parameters `Yaml` and `search`; `strtoul` is the C
-- library's reading of a number in base 0. The hash lists that collect the objects keep their order.
-- The hash map of messages is filled and not read: of `hashmap_set` only that it returns, for its
-- key, matters, and a call that does not return is a fault.
pub mod Enumerate
use dse_network.Prelude.{
  ℕ, zero, suc, String, ◌+◌, ◌*◌, ◌%◌, ◌^◌, ◌==◌, not, Bool, true, false, Option, none, some, List,
  [], ◌∷◌, Outcome, ok, out_of_fuel, ◌>>=◌, deref, replicate,
}
use dse_network.Types.{Annotations, Double, Network, NetworkFunction, NetworkMessage, NetworkSignal}

-- The functions of the YAML interface that the parser calls. A getter that fails leaves the
-- variable that it was to set as it was; here it returns none. `enumerator` is
-- `schema_object_enumerator`: given the index, it returns an object or NULL, and the next index.
-- `hashmap_set` is given its key, which is none for NULL.
pub record Yaml : Type 1 where
  pub YamlNode : Type 0
  pub scalar : YamlNode → Option String
  pub find_node : YamlNode → String → Option YamlNode
  pub get_scalar : YamlNode → String → Option String
  pub get_string : YamlNode → String → Option String
  pub get_uint : YamlNode → String → Option ℕ
  pub get_double : YamlNode → String → Option Double
  pub enumerator : {A : Type 0} → YamlNode → String → ℕ → (YamlNode → Option A) → Option A × ℕ
  pub hashmap_set : Option String → Outcome ℕ

-- MessageObject, SignalObject and FunctionObject, which have the same form.
pub record NamedNode (Node : Type 0) : Type 0 where
  pub name : String
  pub node : Node

abbrev pub or_else {ℓ} : {A : Type ℓ} → Option A → A → A
or_else none d = d
or_else (some a) d = a

abbrev pub or_keep {ℓ} : {A : Type ℓ} → Option A → Option A → Option A
or_keep none old = old
or_keep (some a) old = some a

module _ (y : Yaml) (strtoul : String → ℕ) where
  open y use {
    YamlNode, scalar, find_node, get_scalar, get_string, get_uint, get_double, enumerator,
    hashmap_set,
  }

  -- `_get_uint32t`: 0 if the value is missing.
  unfoldable pub get_uint32t : YamlNode → String → ℕ
  get_uint32t n path = or_else (get_uint n path) 0 % 2 ^ 32

  -- The generators `_message_object_generator`, `_signal_object_generator` and
  -- `_function_object_generator`, with their key.
  unfoldable pub object_generator : String → YamlNode → Option (NamedNode YamlNode)
  object_generator key item = elim (find_node item key) [
    | none ↦ none
    | some n ↦ elim (scalar n) [
      | none ↦ none
      | some name ↦ some (record { name = name; node = item })
    ]
  ]

  -- The loop over the enumerator, from `index` on; `parse` is its body.
  unfoldable pub parse_objects :
      {A : Type 0}
      → ℕ
      → YamlNode
      → String
      → String
      → (NamedNode YamlNode → Outcome A)
      → ℕ
      → Outcome (List A)
  parse_objects zero node path key parse index = out_of_fuel
  parse_objects (suc fuel) node path key parse index =
      let (object, next) = enumerator node path index (object_generator key) in
      elim object [
        | none ↦ ok []
        | some o ↦ (do
          a ← parse o
          rest ← parse_objects fuel node path key parse next
          ok (a ∷ rest))
      ]

  unfoldable pub parse_signal : NamedNode YamlNode → NetworkSignal
  parse_signal o = record {
    name = get_scalar o.node "annotations/struct_member_name";
    signal_name = o.name;
    member_type = get_scalar o.node "annotations/struct_member_primitive_type";
    buffer_offset = get_uint32t o.node "annotations/struct_member_offset";
    init_value = or_else (get_double o.node "annotations/init_value") 0;
    internal = not (get_uint32t o.node "annotations/internal" == 0);
    value = or_else (get_double o.node "annotations/value") 0;
    mux_signal = not (get_uint32t o.node "annotations/mux_signal" == 0);
    mux_mi = none;
    func_int8 = none;
    func_int16 = none;
    func_int32 = none;
    func_int64 = none;
    func_float = none;
    func_double = none;
  }

  unfoldable pub parse_signals : ℕ → YamlNode → Outcome (List NetworkSignal)
  parse_signals fuel node = parse_objects fuel node "signals" "signal" (λ o. ok (parse_signal o)) 0

  -- The annotations are those of the node found, read as scalars.
  unfoldable pub parse_function : NamedNode YamlNode → NetworkFunction
  parse_function o = record {
    name = o.name;
    annotations = elim (find_node o.node "annotations") [
      | none ↦ none
      | some n ↦ some (get_scalar n)
    ];
    inst = none;
    function = none;
  }

  unfoldable pub parse_functions : ℕ → YamlNode → String → Outcome (List NetworkFunction)
  parse_functions fuel node path =
      parse_objects fuel node path "function" (λ o. ok (parse_function o)) 0

  -- The scalar members of a message. `calloc` is given the size of a pointer, 8, for each byte.
  unfoldable pub message_of :
      YamlNode
      → String
      → List NetworkSignal
      → List NetworkFunction
      → List NetworkFunction
      → NetworkMessage
  message_of node name signals encode decode =
      let buffer_len = get_uint32t node "annotations/struct_size" in
      let payload_len = get_uint32t node "annotations/frame_length" % 2 ^ 8 in
      record {
        name = name;
        frame_id = elim (get_scalar node "annotations/frame_id") [
          | none ↦ 0
          | some text ↦ strtoul text % 2 ^ 32
        ];
        frame_type = get_uint32t node "annotations/frame_type" % 2 ^ 8;
        signals = signals;
        container = get_string node "annotations/container";
        mux_id = get_uint32t node "annotations/container_mux_id";
        mux_signal = none;
        buffer = replicate (buffer_len * 8) 0;
        buffer_len = buffer_len;
        cycle_time_ms = get_uint32t node "annotations/cycle_time_ms" % 2 ^ 16;
        payload = replicate (payload_len * 8) 0;
        payload_len = payload_len;
        buffer_checksum = 0;
        needs_tx = false;
        pack_func = none;
        unpack_func = none;
        update_signals = false;
        encode_functions = encode;
        decode_functions = decode;
      }

  -- The name is read again from the node, whose scalar the generator has found; NULL, which is
  -- given to the log as a string, is a fault. The frame id is the key in the hash map.
  unfoldable pub parse_message : ℕ → NamedNode YamlNode → Outcome NetworkMessage
  parse_message fuel o = do
    name ← deref (get_scalar o.node "message")
    signals ← parse_signals fuel o.node
    encode ← parse_functions fuel o.node "functions/encode"
    decode ← parse_functions fuel o.node "functions/decode"
    done ← hashmap_set (get_scalar o.node "annotations/frame_id")
    ok (message_of o.node name signals encode decode)

  unfoldable pub parse_messages : ℕ → YamlNode → Outcome (List NetworkMessage)
  parse_messages fuel doc = parse_objects fuel doc "spec/messages" "message" (parse_message fuel) 0

  -- The return code, 1 if there is no message library, and the network.
  unfoldable pub network_match_handler : ℕ → YamlNode → Network → Outcome (ℕ × Network)
  network_match_handler fuel doc n =
      let paths = record n {
        message_lib_path =
            or_keep (get_string doc "metadata/annotations/message_lib") n.message_lib_path;
        function_lib_path =
            or_keep (get_string doc "metadata/annotations/function_lib") n.function_lib_path;
        netoff_signal =
            or_keep (get_string doc "metadata/annotations/netoff_signal") n.netoff_signal;
      } in
      elim paths.message_lib_path [
        | none ↦ ok (1, paths)
        | some path ↦ (do
          messages ← parse_messages fuel doc
          ok (
            0,
            record paths {
              node_id = or_else (get_uint doc "metadata/annotations/node_id") 0;
              interface_id = or_else (get_uint doc "metadata/annotations/interface_id") 0;
              bus_id = or_else (get_uint doc "metadata/annotations/bus_id") 0;
              has_messages = true;
              messages = messages;
            },
          ))
      ]

  -- `schema_object_search` calls the handler on the documents of a kind and name.
  unfoldable pub network_parse :
      (String → String → (YamlNode → Network → Outcome (ℕ × Network)) → Network → Outcome Network)
      → ℕ
      → Network
      → Outcome Network
  network_parse search fuel n = search "Network" n.name (network_match_handler fuel) n
