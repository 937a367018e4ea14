-- ===== src/Engine/Pack/Filter.antt =====
-- Which messages `network_pack_messages` marks for sending.
use dse_network.Prelude.{
  ℕ, ◌<◌, ◌≡◌, ◌≢◌, true, false, not, ◌&&◌, some, List, ◌∷◌, ◌++◌, arith, ◌==◌, length, IsBytes,
}
use dse_network.Types.{NetworkMessage, PackFunc}
use dse_network.Hash.{simbus_generate_uid_hash}
use dse_network.Hash.Change.{simbus_generate_uid_hash-ne}
use dse_network.Engine.Pack.{update_checksum, pack_message}

abbrev pub hash_of : NetworkMessage → ℕ
hash_of m = simbus_generate_uid_hash m.buffer m.buffer_len

-- A message with no cycle time and with a pack function is marked for sending exactly if the hash
-- of its buffer is not the one recorded. That hash is then recorded, so that packing it again with
-- the buffer as it is takes the mark away. The buffer stays, and the payload is what the pack
-- function makes of it.
pub pack_message_on_change :
    (m : NetworkMessage) (pack : PackFunc)
    → m.pack_func ≡ some pack
    → m.cycle_time_ms ≡ 0
    → ((pack_message m).needs_tx ≡ not (hash_of m == m.buffer_checksum))
      × ((pack_message m).buffer_checksum ≡ hash_of m)
      × ((pack_message (pack_message m)).needs_tx ≡ false)
      × ((pack_message m).buffer ≡ m.buffer)
      × ((pack_message m).payload ≡ (pack m.payload m.buffer m.payload_len).out)
unfolding pack_message update_checksum
pack_message_on_change m pack packs acyclic = ground arith

-- A message with a cycle time and a pack function is never marked by packing: it stays marked
-- only if the schedule marked it and its hash is not the one recorded, which packing keeps.
pub pack_message_cyclic :
    (m : NetworkMessage) (pack : PackFunc)
    → m.pack_func ≡ some pack
    → m.cycle_time_ms ≢ 0
    → ((pack_message m).needs_tx ≡ (m.needs_tx && not (hash_of m == m.buffer_checksum)))
      × ((pack_message m).buffer_checksum ≡ m.buffer_checksum)
unfolding pack_message update_checksum
pack_message_cyclic m pack packs cyclic = ground arith

-- A message that is sent on change is marked for sending whenever its buffer, within its length,
-- differs in exactly one byte from the buffer whose hash was recorded.
pub pack_message_byte_changed :
    (m : NetworkMessage) (pack : PackFunc) (xs : List ℕ) (a b : ℕ) (ys : List ℕ)
    → m.pack_func ≡ some pack
    → m.cycle_time_ms ≡ 0
    → m.buffer ≡ xs ++ a ∷ ys
    → m.buffer_checksum ≡ simbus_generate_uid_hash (xs ++ b ∷ ys) m.buffer_len
    → a < 256
    → b < 256
    → IsBytes ys
    → a ≢ b
    → length xs < m.buffer_len
    → (pack_message m).needs_tx ≡ true
pack_message_byte_changed m pack xs a b ys packs acyclic now before p q r ne inside = ground (
  arith,
  pack_message_on_change m pack packs acyclic,
  simbus_generate_uid_hash-ne xs a b ys m.buffer_len p q r ne inside,
)
