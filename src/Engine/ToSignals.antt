-- ===== src/Engine/ToSignals.antt =====
-- `network_marshal_messages_to_signals`: the cells of updated messages are decoded into the
-- signal vector, if they are in range.
pub mod Total
use dse_network.Prelude.{
  ℕ, ◌/◌, Bool, false, not, ◌&&◌, Option, none, some, List, [], ◌∷◌, Outcome, ok, fault, length,
  ltb, ◌>>=◌, deref, get_elem?, set, map, if◌then◌else◌,
}
use dse_network.Memory.{load}
use dse_network.Types.{Double, NetworkSignal, NetworkMessage, MarshalItem, Network}
use dse_network.Engine.Member.{Primitive, primitive, size_of, func_of}

-- One branch of the chain: read the cell, test the range, decode.
unfoldable pub load_decoded :
    Primitive → NetworkSignal → NetworkMessage → ℕ → List Double → Outcome (List Double)
load_decoded p s m index vector = do
  codec ← deref (func_of p s)
  value ← load (size_of p) (s.buffer_offset / size_of p) m.buffer
  if codec.is_in_range value
      then (if ltb index (length vector) then ok (set vector index (codec.decode value)) else fault)
      else ok vector

unfoldable pub message_to_signal :
    NetworkSignal → NetworkMessage → ℕ → List Double → Outcome (List Double)
message_to_signal s m index vector = do
  t ← deref s.member_type
  elim (primitive t) [ none ↦ ok vector | some p ↦ load_decoded p s m index vector ]

-- The loop body for one marshal item. A message with no update is skipped, unless `single`.
unfoldable pub item_to_signal :
    Bool → MarshalItem → List NetworkMessage → List Double → Outcome (List Double)
item_to_signal single mi messages vector = do
  m ← deref (get_elem? messages mi.message)
  if not m.update_signals && not single then ok vector else (do
    s ← deref (get_elem? m.signals mi.signal)
    message_to_signal s m mi.signal_vector_index vector)

-- With `single` the loop returns after its first item.
unfoldable pub messages_to_signals :
    Bool → List MarshalItem → List NetworkMessage → List Double → Outcome (List Double)
messages_to_signals single [] messages vector = ok vector
messages_to_signals single (mi ∷ items) messages vector = do
  vector' ← item_to_signal single mi messages vector
  if single then ok vector' else messages_to_signals single items messages vector'

-- The early return of `single` leaves the message flags as they are.
unfoldable pub returns_early : Bool → List MarshalItem → Bool
returns_early single [] = false
returns_early single (mi ∷ items) = single

unfoldable pub clear_update_signals : NetworkMessage → NetworkMessage
clear_update_signals m = record m { update_signals = false }

unfoldable pub network_marshal_messages_to_signals :
    Network → Option (List MarshalItem) → Bool → Outcome (ℕ × Network)
network_marshal_messages_to_signals n none single = ok (1, n)
network_marshal_messages_to_signals n (some items) single = do
  vector ← messages_to_signals single items n.messages n.signal_vector
  ok (
    0,
    if returns_early single items
        then record n { signal_vector = vector }
        else record n { signal_vector = vector; messages = map clear_update_signals n.messages },
  )
