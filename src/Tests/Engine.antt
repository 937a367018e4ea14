-- ===== src/Tests/Engine.antt =====
-- The hash, the buffers, the packing and the schedule at concrete inputs.
use dse_network.Prelude.{
  ℕ, ◌+◌, inl, ◌/◌, ◌-◌, ◌^◌, ◌<◌, ◌≤◌, ◌⊎◌, ◌↔◌, ◌≡◌, ◌≢◌, ◌==◌, not, refl, true, false, some,
  List, [], ◌∷◌, map, ok, arith, length, get_elem?, set,
}
use dse_network.Types.{NetworkMessage, MarshalItem, Network}
use dse_network.Memory.{load, store, to_bytes, set_bytes}
use dse_network.Hash.{simbus_generate_uid_hash}
use dse_network.Hash.Change.{simbus_generate_uid_hash-ne}
use dse_network.Engine.Member.{uint16, int64, uint8, primitive, size_of, func_of, narrow}
use dse_network.Engine.ToMessages.{signal_to_message, store_encoded}
use dse_network.Engine.ToSignals.{message_to_signal}
use dse_network.Engine.ToMessages.Store.{
  narrow_int64_iff, message_to_signal-signal_to_message, message_to_signal-Apart, int64_value_lost,
}
use dse_network.Engine.Pack.{pack_message}
use dse_network.Engine.Pack.Filter.{hash_of, pack_message_on_change, pack_message_byte_changed}
use dse_network.Engine.Lists.{message_items, signal_items}
use dse_network.Engine.Lists.Layout.{offset, named, IsBuffered, message_items_lem}
use dse_network.Engine.Lists.Skipped.{message_items_skips}
use dse_network.Schedule.{
  schedule_items, tick_items, tick_item, decrement_alarm, fire_alarm, network_schedule_reset,
  network_schedule_tick, schedule_ticks,
}
use dse_network.Schedule.Alarm.{
  OnSchedule, send_due, sent_through, network_schedule_reset-OnSchedule, network_schedule_tick_lem,
  network_schedule_tick-OnSchedule, schedule_ticks_lem,
}
use dse_network.Tests.Data.{identity, copy, byte_signal, long_signal, status, cyclic, network}

simbus_generate_uid_hash-ne_example :
    simbus_generate_uid_hash (7 ∷ 1 ∷ 9 ∷ []) 3 ≢ simbus_generate_uid_hash (7 ∷ 2 ∷ 9 ∷ []) 3
simbus_generate_uid_hash-ne_example =
    simbus_generate_uid_hash-ne (7 ∷ []) 1 2 (9 ∷ []) 3 (omega arith) (omega arith)
      (omega arith, tt) (omega arith) (omega arith)

uint16-ne-int64 : uint16 ≢ int64
uint16-ne-int64 e = cc

narrow_int64_iff_example :
    (narrow int64 40000 ≡ 40000) ↔ ((40000 < 2 ^ 15) ⊎ (2 ^ 64 - 2 ^ 15 ≤ 40000))
narrow_int64_iff_example = narrow_int64_iff 40000 (omega arith)

message_to_signal-signal_to_message_example :
    (m' : NetworkMessage) × (signal_to_message 200 (byte_signal "gear" 1) status ≡ ok m')
    × (message_to_signal (byte_signal "gear" 1) m' 1 (0 ∷ 0 ∷ [])
        ≡ ok (set (0 ∷ 0 ∷ []) 1 (narrow uint8 200)))
unfolding primitive size_of func_of
message_to_signal-signal_to_message_example =
    message_to_signal-signal_to_message "uint8_t" uint8 identity 200 (byte_signal "gear" 1) status 1
      (0 ∷ 0 ∷ []) refl refl refl (omega arith) refl (omega arith)

message_to_signal-Apart_example :
    message_to_signal
      (byte_signal "gear" 1)
      (record status { buffer = 200 ∷ 3 ∷ [] })
      1
      (0 ∷ 0 ∷ [])
    ≡ message_to_signal (byte_signal "gear" 1) status 1 (0 ∷ 0 ∷ [])
unfolding primitive size_of func_of signal_to_message store_encoded narrow store to_bytes set_bytes
message_to_signal-Apart_example =
    message_to_signal-Apart "uint8_t" "uint8_t" uint8 uint8 identity identity 200
      (byte_signal "speed" 0) (byte_signal "gear" 1) status 1 (0 ∷ 0 ∷ []) refl refl refl refl refl
      refl (inl (omega arith)) refl

abbrev trip : NetworkMessage
trip = record status {
  signals = long_signal ∷ [];
  buffer = 0 ∷ 0 ∷ 0 ∷ 0 ∷ 0 ∷ 0 ∷ 0 ∷ 0 ∷ [];
  buffer_len = 8;
}

int64_value_lost_example :
    (m' : NetworkMessage) × (signal_to_message 40000 long_signal trip ≡ ok m')
    × (load 8 (0 / 8) m'.buffer ≢ ok 40000)
unfolding size_of narrow
int64_value_lost_example =
    int64_value_lost identity 40000 long_signal trip refl refl (omega arith) refl (omega arith)
      (omega arith)

pack_message_on_change_example :
    ((pack_message status).needs_tx ≡ not (hash_of status == 0))
    × ((pack_message status).buffer_checksum ≡ hash_of status)
    × ((pack_message (pack_message status)).needs_tx ≡ false)
    × ((pack_message status).buffer ≡ 5 ∷ 3 ∷ [])
    × ((pack_message status).payload ≡ 5 ∷ 3 ∷ [])
pack_message_on_change_example = pack_message_on_change status copy refl refl

-- The first byte was 6 when the hash was recorded.
abbrev changed : NetworkMessage
changed = record status { buffer_checksum = simbus_generate_uid_hash (6 ∷ 3 ∷ []) 2 }

pack_message_byte_changed_example : (pack_message changed).needs_tx ≡ true
pack_message_byte_changed_example =
    pack_message_byte_changed changed copy [] 5 6 (3 ∷ []) refl refl refl refl (omega arith)
      (omega arith) (omega arith, tt) (omega arith) (omega arith)

network_schedule_tick_lem_example :
    (n' : Network) × (network_schedule_tick (network_schedule_reset network) ≡ ok n')
    × (n'.messages ≡ map (send_due 0) (status ∷ cyclic ∷ []))
    × (n'.tick ≡ 1)
unfolding network_schedule_reset
network_schedule_tick_lem_example =
    network_schedule_tick_lem (network_schedule_reset network)
      (network_schedule_reset-OnSchedule network refl)

abbrev ticked : Network
ticked = record network { schedule_list = some (record { message = 1; alarm = 10 } ∷ []); tick = 1 }

network_schedule_tick-OnSchedule_example : OnSchedule ticked
unfolding network_schedule_reset schedule_items network_schedule_tick tick_items tick_item
    decrement_alarm fire_alarm
network_schedule_tick-OnSchedule_example =
    network_schedule_tick-OnSchedule (network_schedule_reset network)
      (network_schedule_reset-OnSchedule network refl) (omega arith) refl

schedule_ticks_lem_example :
    (n' : Network) × (schedule_ticks 25 (network_schedule_reset network) ≡ ok n')
    × (n'.messages ≡ sent_through 25 (status ∷ cyclic ∷ []))
    × (n'.tick ≡ 25)
    × OnSchedule n'
schedule_ticks_lem_example = schedule_ticks_lem 25 network refl (omega arith)

message_items_lem_example :
    (items : List MarshalItem) × (message_items 0 (status ∷ cyclic ∷ []) ≡ ok items)
    × (length items ≡ offset (status ∷ cyclic ∷ []) 2)
    × (get_elem? items (offset (status ∷ cyclic ∷ []) 1 + 1)
        ≡ some (record { signal = 1; message = 1; signal_vector_index = 0 }))
unfolding IsBuffered named
message_items_lem_example =
    message_items_lem (status ∷ cyclic ∷ []) 1 1 cyclic (omega arith, (omega arith, tt)) refl
      (omega arith)

abbrev empty : NetworkMessage
empty = record status { buffer = []; buffer_len = 0 }

abbrev item_at : ℕ → ℕ → ℕ → MarshalItem
item_at signal message index = record {
  signal = signal;
  message = message;
  signal_vector_index = index;
}

message_items_skips_example : 2 ≤ (item_at 1 2 0).message
unfolding message_items signal_items
message_items_skips_example =
    message_items_skips empty status (cyclic ∷ []) 1 (item_at 1 2 0) refl refl refl
