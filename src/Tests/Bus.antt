-- ===== src/Tests/Bus.antt =====
-- Frames received and written.
use dse_network.Prelude.{
  ◌≡◌, ◌≢◌, ◌==◌, ◌↔◌, not, refl, true, false, some, [], ◌∷◌, map, ok, out_of_fuel, get_elem?,
}
use dse_network.Types.{NetworkMessage, Network}
use dse_network.Hash.{simbus_generate_uid_hash}
use dse_network.Bus.{
  messages_array, find_frame, process_message, process_contained, process_can_frame, mux_item,
  filter_update, set_message, network_decode_from_bus, frame_of, network_encode_to_bus,
}
use dse_network.Bus.Encode.{without_mark, network_encode_to_bus_lem}
use dse_network.Bus.Decode.{IsFirst, rest_of, find_frame_iff, network_decode_from_bus_keeps}
use dse_network.Bus.Decode.Once.{process_message_twice}
use dse_network.Bus.Decode.Ends.{IsFlat, network_decode_from_bus-Ends}
use dse_network.Tests.Data.{copy, status, cyclic, network, frame}

find_frame_iff_example :
    (find_frame 0 (status ∷ cyclic ∷ []) 200 ≡ some 1) ↔ IsFirst (status ∷ cyclic ∷ []) 200 1
find_frame_iff_example = find_frame_iff (status ∷ cyclic ∷ []) 200 1

-- The first message after the frame was received.
abbrev heard : NetworkMessage
heard = record status {
  buffer = 8 ∷ 3 ∷ [];
  buffer_checksum = simbus_generate_uid_hash (8 ∷ 3 ∷ []) 2;
  update_signals = true;
}

network_decode_from_bus_keeps_example :
    map rest_of (heard ∷ cyclic ∷ []) ≡ map rest_of (status ∷ cyclic ∷ [])
unfolding network_decode_from_bus messages_array process_can_frame find_frame process_message
    process_contained mux_item filter_update set_message simbus_generate_uid_hash
network_decode_from_bus_keeps_example =
    network_decode_from_bus_keeps (λ d. d) 2 network (frame ∷ [])
      {n' = record network { messages = heard ∷ cyclic ∷ [] }} refl

process_message_twice_example :
    (n1 : Network) × (n2 : Network) × (m1 : NetworkMessage) × (m2 : NetworkMessage)
    × (process_message (λ d. d) 1 network 0 frame ≡ ok n1)
    × (get_elem? n1.messages 0 ≡ some m1)
    × (m1.update_signals ≡ not (simbus_generate_uid_hash (8 ∷ 3 ∷ []) 2 == 0))
    × (process_message (λ d. d) 1 n1 0 frame ≡ ok n2)
    × (get_elem? n2.messages 0 ≡ some m2)
    × (m2.update_signals ≡ false)
process_message_twice_example =
    process_message_twice (λ d. d) 0 frame copy 0 network status refl refl refl refl refl

network-IsFlat : IsFlat (status ∷ cyclic ∷ [])
network-IsFlat = ((λ ne. refl), ((λ ne. refl), tt))

network_decode_from_bus-Ends_example :
    network_decode_from_bus (λ d. d) 2 network (frame ∷ frame ∷ []) ≢ out_of_fuel
network_decode_from_bus-Ends_example =
    network_decode_from_bus-Ends (λ d. d) 0 network (frame ∷ frame ∷ []) network-IsFlat

abbrev marked : Network
marked = record network { messages = record status { needs_tx = true } ∷ cyclic ∷ [] }

network_encode_to_bus_lem_example :
    let n' : Network = record network { messages = map without_mark marked.messages } in
    (network_encode_to_bus marked ≡ ok (frame_of (record status { needs_tx = true }) ∷ [], n'))
    × (network_encode_to_bus n' ≡ ok ([], n'))
network_encode_to_bus_lem_example = network_encode_to_bus_lem marked refl
