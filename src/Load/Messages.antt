-- ===== src/Load/Messages.antt =====
-- What the loading of the functions makes of the messages.
use Prim.Native.String.{◌++◌}
use dse_network.Prelude.{
  ℕ, String, ◌≡◌, ◌≢◌, subst, false, none, some, List, [], ◌∷◌, ok, >>=-elim, length, All,
  All-agree,
}
use dse_network.Types.{MessageLib, FunctionLib, Network, NetworkMessage, NetworkSignal, PackFunc}
use dse_network.Loader.{
  symbol_owner, load_signals, load_messages_signals, load_functions, load_messages_functions,
}
use dse_network.Load.Signals.{IsTyped, IsLoaded, unloaded, load_signals-IsLoaded}

-- The message library has an unpack function that keeps the length of the buffer.
pub record Unpacks (lib : MessageLib) (network : String) (m : NetworkMessage) : Type 0 where
  pub unpack : PackFunc
  pub found : lib.pack_symbol ((network ++ "_" ++ symbol_owner m) ++ "_unpack") ≡ some unpack
  pub keeps_length :
      (buffer payload : List ℕ) (len : ℕ) → length (unpack buffer payload len).out ≡ length buffer

-- A message of a document that the message library serves: each signal is typed, and a message with a
-- mux id has no mux signal.
pub record IsServed (lib : MessageLib) (network : String) (m : NetworkMessage) : Type 0 where
  pub signals : All (IsTyped (length m.buffer)) m.signals
  pub unmuxed : m.mux_signal ≡ none
  pub plain : m.mux_id ≢ 0 → All (λ (s : NetworkSignal). s.mux_signal ≡ false) m.signals
  pub unpacks : Unpacks lib network m

-- What is known of a message once the functions of its signals are loaded.
pub record HasLoaded (lib : MessageLib) (network : String) (m : NetworkMessage) : Type 0 where
  pub signals : All (IsLoaded (length m.buffer)) m.signals
  pub unmuxed : m.mux_signal ≡ none
  pub plain : m.mux_id ≢ 0 → All (λ (s : NetworkSignal). s.mux_signal ≡ false) m.signals
  pub unpacks : Unpacks lib network m

pub load_messages_signals-HasLoaded :
    (lib : MessageLib) (network : String) (n : Network) (messages : List NetworkMessage)
    {messages' : List NetworkMessage}
    → All (IsServed lib network) messages
    → load_messages_signals n messages ≡ ok messages'
    → All (HasLoaded lib network) messages'
unfolding load_messages_signals symbol_owner
load_messages_signals-HasLoaded lib network n [] {messages'} served e =
    let same : [] ≡ messages' = cc in subst (All (HasLoaded lib network)) same tt
load_messages_signals-HasLoaded lib network n (m ∷ messages) {messages'} served e =
    >>=-elim (load_signals n m m.signals) _ e λ signals ran e1.
      >>=-elim (load_messages_signals n messages) _ e1 λ rest ran1 e2.
        let result : record m { signals = signals } ∷ rest ≡ messages' = cc in
        let (all, kept) =
          load_signals-IsLoaded (length m.buffer) n m m.signals served.0.signals ran in
        let one : HasLoaded lib network (record m { signals = signals }) = record {
          signals = all;
          unmuxed = served.0.unmuxed;
          plain = λ contained.
              All-agree (λ (s : NetworkSignal). s.mux_signal ≡ false) unloaded m.signals signals
                kept (served.0.plain contained);
          unpacks = record {
            unpack = served.0.unpacks.unpack;
            found = served.0.unpacks.found;
            keeps_length = served.0.unpacks.keeps_length;
          };
        } in
        subst (All (HasLoaded lib network)) result
          (one, load_messages_signals-HasLoaded lib network n messages served.1 ran1)

pub load_messages_functions-IsServed :
    (lib : MessageLib) (network : String) (functions : FunctionLib) (messages : List NetworkMessage)
    {messages' : List NetworkMessage}
    → All (IsServed lib network) messages
    → load_messages_functions functions messages ≡ ok messages'
    → All (IsServed lib network) messages'
unfolding load_messages_functions symbol_owner
load_messages_functions-IsServed lib network functions [] {messages'} served e =
    let same : [] ≡ messages' = cc in subst (All (IsServed lib network)) same tt
load_messages_functions-IsServed lib network functions (m ∷ messages) {messages'} served e =
    >>=-elim (load_functions functions m.encode_functions) _ e λ encode ran e1.
      >>=-elim (load_functions functions m.decode_functions) _ e1 λ decode ran1 e2.
        >>=-elim (load_messages_functions functions messages) _ e2 λ rest ran2 e3.
          let m' = record m { encode_functions = encode; decode_functions = decode } in
          let result : m' ∷ rest ≡ messages' = cc in
          let one : IsServed lib network m' = record {
            signals = served.0.signals;
            unmuxed = served.0.unmuxed;
            plain = served.0.plain;
            unpacks = record {
              unpack = served.0.unpacks.unpack;
              found = served.0.unpacks.found;
              keeps_length = served.0.unpacks.keeps_length;
            };
          } in
          subst (All (IsServed lib network)) result
            (one, load_messages_functions-IsServed lib network functions messages served.1 ran2)
