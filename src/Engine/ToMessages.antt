-- ===== src/Engine/ToMessages.antt =====
-- `network_marshal_signals_to_messages`: each signal of the vector is encoded and, if its value
-- is in range, stored into its message's buffer.
pub mod Store
pub mod Total
use dse_network.Prelude.{
  ℕ, ◌/◌, Bool, true, false, ◌&&◌, Option, none, some, List, [], ◌∷◌, Outcome, ok, ◌>>=◌, deref,
  get_elem?, set, if◌then◌else◌,
}
use dse_network.Memory.{store}
use dse_network.Types.{Double, NetworkSignal, NetworkMessage, MarshalItem, Network, Codec}
use dse_network.Engine.Member.{Primitive, primitive, size_of, func_of, narrow}

-- One branch of the chain: encode, test the range, store.
unfoldable pub store_encoded :
    Primitive → Double → NetworkSignal → NetworkMessage → Outcome NetworkMessage
store_encoded p v s m = do
  codec ← deref (func_of p s)
  let value = narrow p (codec.encode v)
  if codec.is_in_range value
      then (do
        buffer ← store (size_of p) (s.buffer_offset / size_of p) value m.buffer
        ok (record m { buffer = buffer }))
      else ok m

-- The chain over `member_type`; an unknown type is logged and passed over.
unfoldable pub signal_to_message : Double → NetworkSignal → NetworkMessage → Outcome NetworkMessage
signal_to_message v s m = do
  t ← deref s.member_type
  elim (primitive t) [ none ↦ ok m | some p ↦ store_encoded p v s m ]

abbrev pub is_set {ℓ} : {A : Type ℓ} → Option A → Bool
is_set none = false
is_set (some a) = true

-- Internal signals on container messages take a constant value.
unfoldable pub signal_value : Double → NetworkSignal → NetworkMessage → Double
signal_value v s m = if s.internal && is_set m.container then s.value else v

-- The loop body for one marshal item.
unfoldable pub item_to_message :
    List Double → MarshalItem → List NetworkMessage → Outcome (List NetworkMessage)
item_to_message vector mi messages = do
  m ← deref (get_elem? messages mi.message)
  s ← deref (get_elem? m.signals mi.signal)
  v ← deref (get_elem? vector mi.signal_vector_index)
  m' ← signal_to_message (signal_value v s m) s m
  ok (set messages mi.message m')

unfoldable pub signals_to_messages :
    List Double → List MarshalItem → List NetworkMessage → Outcome (List NetworkMessage)
signals_to_messages vector [] messages = ok messages
signals_to_messages vector (mi ∷ items) messages = do
  messages' ← item_to_message vector mi messages
  signals_to_messages vector items messages'

-- The return code and the network afterwards; a list that is NULL gives 1.
unfoldable pub network_marshal_signals_to_messages :
    Network → Option (List MarshalItem) → Outcome (ℕ × Network)
network_marshal_signals_to_messages n none = ok (1, n)
network_marshal_signals_to_messages n (some items) = do
  messages ← signals_to_messages n.signal_vector items n.messages
  ok (0, record n { messages = messages })
