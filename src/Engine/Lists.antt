-- ===== src/Engine/Lists.antt =====
-- `network_load_marshal_lists` and `network_get_signal_names`: one marshal item for each signal,
-- and the signal vector's layout.
pub mod Layout
pub mod Skipped
pub mod Names
use dse_network.Prelude.{
  ℕ, suc, ◌+◌, ◌==◌, Bool, true, false, Option, none, some, String, List, [], ◌∷◌, ◌++◌, Outcome,
  ok, fault, ◌>>=◌, deref, get_elem?, set, length, if◌then◌else◌,
}
use dse_network.Types.{NetworkSignal, NetworkMessage, MarshalItem, Network}

-- The inner loop, from signal `j` of message `i` on. It ends at the first signal with no name.
unfoldable pub signal_items : ℕ → ℕ → List NetworkSignal → List MarshalItem
signal_items i j [] = []
signal_items i j (s ∷ signals) = elim s.name [
  | none ↦ []
  | some _ ↦
      record { signal = j; message = i; signal_vector_index = 0 } ∷ signal_items i (j + 1) signals
]

-- The outer loop. At a message with no buffer it advances by two: past the last message that is
-- an access behind the end of the array.
unfoldable pub message_items : ℕ → List NetworkMessage → Outcome (List MarshalItem)
message_items i [] = ok []
message_items i (m ∷ []) = if m.buffer_len == 0 then fault else ok (signal_items i 0 m.signals)
message_items i (m ∷ next ∷ rest) = elim (m.buffer_len == 0) [
  | true ↦ message_items (i + 2) rest
  | false ↦
      message_items (i + 1) (next ∷ rest) >>= λ items. ok (signal_items i 0 m.signals ++ items)
]

-- The signal that a marshal item points to.
unfoldable pub signal_of : List NetworkMessage → MarshalItem → Outcome NetworkSignal
signal_of messages mi = do
  m ← deref (get_elem? messages mi.message)
  deref (get_elem? m.signals mi.signal)

-- `mi->signal->mux_mi = mi; mi->message->mux_signal = mi->signal;` for the item at index `k`.
unfoldable pub set_mux_reference :
    ℕ → MarshalItem → List NetworkMessage → Outcome (List NetworkMessage)
set_mux_reference k mi messages = do
  m ← deref (get_elem? messages mi.message)
  s ← deref (get_elem? m.signals mi.signal)
  ok (
      if s.mux_signal
      then set messages mi.message (record m {
        signals = set m.signals mi.signal (record s { mux_mi = some k });
        mux_signal = some mi.signal;
      })
      else messages)

unfoldable pub set_mux_references :
    ℕ → List MarshalItem → List NetworkMessage → Outcome (List NetworkMessage)
set_mux_references k [] messages = ok messages
set_mux_references k (mi ∷ items) messages = do
  messages' ← set_mux_reference k mi messages
  set_mux_references (k + 1) items messages'

unfoldable pub network_load_marshal_lists : Network → Outcome Network
network_load_marshal_lists n = do
  items ← message_items 0 n.messages
  messages ← set_mux_references 0 items n.messages
  ok (record n { marshal_list = items; messages = messages })

-- The names and the items with their vector index, from offset `k` on.
unfoldable pub signal_names :
    ℕ → List NetworkMessage → List MarshalItem → Outcome (List String × List MarshalItem)
signal_names k messages [] = ok ([], [])
signal_names k messages (mi ∷ items) = do
  s ← signal_of messages mi
  let name = if s.internal then "" else s.signal_name
  rest ← signal_names (k + 1) messages items
  ok (name ∷ rest.0, record mi { signal_vector_index = k } ∷ rest.1)

-- The list of names and its length are what the C function returns through its arguments.
unfoldable pub network_get_signal_names : Network → Outcome Network
network_get_signal_names n = do
  named ← signal_names 0 n.messages n.marshal_list
  ok (record n { signal_name = named.0; marshal_list = named.1 })
