-- ===== src/Engine/Pack.antt =====
-- `network_pack_messages` and `network_unpack_messages`: the library's pack functions fill the
-- payloads, and the hash of the buffer decides which messages are to be sent.
pub mod Filter
use dse_network.Prelude.{ℕ, Bool, true, false, Option, none, some, map, ◌==◌, if◌then◌else◌}
use dse_network.Types.{NetworkMessage, PackFunc, PackResult, Network}
use dse_network.Hash.{simbus_generate_uid_hash}

-- What follows the call of `pack_func`. A cyclic message is left to the schedule.
unfoldable pub update_checksum : NetworkMessage → NetworkMessage
update_checksum m =
    let payload_checksum = simbus_generate_uid_hash m.buffer m.buffer_len in
    if payload_checksum == m.buffer_checksum
    then record m { needs_tx = false }
    else if m.cycle_time_ms == 0
    then record m { needs_tx = true; buffer_checksum = payload_checksum }
    else m

unfoldable pub pack_message : NetworkMessage → NetworkMessage
pack_message m = elim m.pack_func [
  | none ↦ m
  | some pack ↦ update_checksum (record m { payload = (pack m.payload m.buffer m.payload_len).out })
]

unfoldable pub network_pack_messages : Network → Network
network_pack_messages n = record n { messages = map pack_message n.messages }

unfoldable pub unpack_message : NetworkMessage → NetworkMessage
unpack_message m = elim m.unpack_func [
  | none ↦ m
  | some unpack ↦ record m { buffer = (unpack m.buffer m.payload m.payload_len).out }
]

unfoldable pub network_unpack_messages : Network → Network
network_unpack_messages n = record n { messages = map unpack_message n.messages }
