-- ===== src/Load.antt =====
-- `network_load` of dse/network/network.c, which calls parser, loader and engine in turn. `dlopen` is
-- a parameter, for each of the two libraries: given the path, which may be NULL, it returns the
-- library, or none where `dlerror` reports an error.
pub mod Vector
pub mod Signals
pub mod Messages
pub mod References
pub mod Served
pub mod Runnable
use dse_network.Prelude.{
  ℕ, String, Option, none, some, List, Outcome, ok, fatal, ◌>>=◌, length, replicate,
}
use dse_network.Types.{FunctionLib, MessageLib, Network}
use dse_network.Parser.{Yaml, network_parse}
use dse_network.Engine.Lists.{network_load_marshal_lists, network_get_signal_names}
use dse_network.Loader.{
  network_load_message_funcs, network_load_signal_funcs, network_load_function_funcs,
}

unfoldable pub network_load_message_lib :
    (Option String → Option MessageLib) → Network → Outcome Network
network_load_message_lib open_library n = elim (open_library n.message_lib_path) [
  | none ↦ fatal
  | some library ↦ ok (record n { message_lib = library })
]

unfoldable pub network_load_function_lib :
    (Option String → Option FunctionLib) → Network → Outcome Network
network_load_function_lib open_library n = elim (open_library n.function_lib_path) [
  | none ↦ fatal
  | some library ↦ ok (record n { function_lib = some library })
]

-- The part of `network_load` that follows the libraries. The signal vector is allocated with one
-- value, 0.0, for each signal.
unfoldable pub load_lists : Network → Outcome Network
load_lists opened = do
  functions ← network_load_function_funcs opened
  signals ← network_load_signal_funcs functions.1
  lists ← network_load_marshal_lists (network_load_message_funcs signals)
  named ← network_get_signal_names lists
  ok (record named { signal_vector = replicate (length named.signal_name) 0 })

module _ (y : Yaml) (strtoul : String → ℕ)
    (search : String
      → String
      → (y.YamlNode → Network → Outcome (ℕ × Network))
      → Network
      → Outcome Network)
    (open_message_lib : Option String → Option MessageLib)
    (open_function_lib : Option String → Option FunctionLib) where
  -- The fuel is that of the parser.
  unfoldable pub network_load : ℕ → Network → Outcome Network
  network_load fuel n = do
    parsed ← network_parse y strtoul search fuel n
    with_messages ← network_load_message_lib open_message_lib parsed
    with_functions ← network_load_function_lib open_function_lib with_messages
    load_lists with_functions
