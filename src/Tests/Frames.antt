-- ===== src/Tests/Frames.antt =====
-- The frames of a step.
use dse_network.Prelude.{
  ℕ, ◌≡◌, ◌≢◌, refl, sym, ap, subst, ◌∙◌, true, none, some, List, [], ◌∷◌, map, ok, get_elem?,
  arith,
}
use mathlib.Core.Option.{some-injective}
use dse_network.Types.{Network, NetworkMessage}
use dse_network.Memory.{store, load, set_bytes, to_bytes, get_bytes, of_bytes}
use dse_network.Hash.{hash_loop, hash_byte, simbus_generate_uid_hash}
use dse_network.Engine.Member.{primitive, func_of, size_of, narrow}
use dse_network.Engine.ToMessages.{
  signals_to_messages, item_to_message, signal_to_message, signal_value, store_encoded,
  network_marshal_signals_to_messages,
}
use dse_network.Engine.Pack.Filter.{hash_of}
use dse_network.Schedule.{decrement_alarm, fire_alarm, tick_item, tick_items, network_schedule_tick}
use dse_network.Schedule.Alarm.{OnSchedule, scheduled}
use dse_network.Engine.ToSignals.{
  messages_to_signals, item_to_signal, message_to_signal, load_decoded, returns_early,
  clear_update_signals, network_marshal_messages_to_signals,
}
use dse_network.Engine.Pack.{network_pack_messages, pack_message, update_checksum}
use dse_network.Function.{
  net_off, network_function_apply_encode, apply_encode, encode_message, run_encode_functions,
  run_encode_function, adopt_payload, network_function_annotation,
}
use dse_network.Library.{crc_generate, with_position, configure, position_of, crc_sum, crc_add}
use dse_network.Bus.{CanMessage, messages_array, network_encode_to_bus, encode_messages, frame_of}
use dse_network.Library.Works.{example_library}
use dse_network.Model.{transmit}
use dse_network.Model.Frames.{heading_of, sent_headings, transmit-headings}
use dse_network.Model.Frames.Due.{due_message_sent}
use dse_network.Tests.Data.{overlay, overlay_func}
use dse_network.Tests.Ready.{one, in_second_byte, checked_with, working_with, working-Runs}

-- The clock is at the cycle time of the message.
abbrev at_ten : Network
at_ten = working_with 10 (some (record { message = 0; alarm = 1 } ∷ [])) 10

at_ten-OnSchedule : OnSchedule at_ten
unfolding scheduled
at_ten-OnSchedule = record { list = refl; clock = omega arith }

-- The message after the tick and the marshalling of the values 7 and 2.
abbrev stored : NetworkMessage
stored = record (checked_with 10) { buffer = 7 ∷ 2 ∷ []; buffer_checksum = 0; needs_tx = true }

abbrev ticked : Network
ticked = record at_ten {
  messages = record (checked_with 10) { buffer_checksum = 0; needs_tx = true } ∷ [];
  schedule_list = some (record { message = 0; alarm = 10 } ∷ []);
  tick = 11;
}

tick-at_ten : network_schedule_tick at_ten ≡ ok ticked
unfolding decrement_alarm fire_alarm tick_item tick_items network_schedule_tick
tick-at_ten = refl

marshal-ticked :
    network_marshal_signals_to_messages ticked (some ticked.marshal_list)
    ≡ ok (0, record ticked { messages = stored ∷ [] })
unfolding primitive func_of size_of narrow signals_to_messages item_to_message signal_to_message
    signal_value store_encoded store set_bytes to_bytes network_marshal_signals_to_messages
marshal-ticked = refl

hash-stored : hash_of stored ≢ 0
unfolding hash_loop hash_byte simbus_generate_uid_hash
hash-stored e = omega (arith, e)

stored_only :
    (n1 : Network) (marshalled : ℕ × Network) (m' : NetworkMessage)
    → network_schedule_tick at_ten ≡ ok n1
    → network_marshal_signals_to_messages n1 (some n1.marshal_list) ≡ ok marshalled
    → get_elem? marshalled.1.messages 0 ≡ some m'
    → hash_of m' ≢ 0
stored_only n1 marshalled m' e e1 e2 =
    let outcome : ok ticked ≡ ok n1 = sym tick-at_ten ∙ e in
    let same : ticked ≡ n1 = cc in
    let outcome1 : ok (0, record ticked { messages = stored ∷ [] }) ≡ ok marshalled =
      sym marshal-ticked
      ∙ subst
          (λ (x : Network).
            network_marshal_signals_to_messages x (some x.marshal_list) ≡ ok marshalled)
          (sym same) e1 in
    let same1 : (0, record ticked { messages = stored ∷ [] }) ≡ marshalled = cc in
    let same2 : some stored ≡ some m' =
      ap (λ (x : ℕ × Network). get_elem? x.1.messages 0) same1 ∙ e2 in
    subst (λ (x : NetworkMessage). hash_of x ≢ 0) (some-injective _ _ same2) hash-stored

due_message_sent_example :
    (n1 : Network) × (r : List CanMessage × Network) × (network_schedule_tick at_ten ≡ ok n1)
    × (transmit none n1 ≡ ok r)
    × (k : ℕ) × (frame : CanMessage) × (get_elem? r.0 k ≡ some frame)
    × (heading_of frame ≡ (100, 0, 2))
due_message_sent_example =
    due_message_sent (example_library one) at_ten none 0 {m = checked_with 10} (overlay_func)
      (working-Runs 10 (some (record { message = 0; alarm = 1 } ∷ [])) 10 (omega arith, tt))
      at_ten-OnSchedule (unfold net_off in refl) refl refl refl stored_only

-- The message after the transmission: the checksum is in the second byte.
abbrev delivered : NetworkMessage
delivered = record (checked_with 10) {
  buffer = 7 ∷ 7 ∷ [];
  payload = 7 ∷ 7 ∷ [];
  buffer_checksum = simbus_generate_uid_hash (7 ∷ 7 ∷ []) 2;
  encode_functions =
      record (in_second_byte "crc_generate" (crc_generate one)) { inst = some (1 ∷ []) } ∷ [];
}

abbrev delivery : List CanMessage × Network
delivery = (
  record { frame_id = 100; frame_type = 0; buffer = 7 ∷ 7 ∷ []; len = 2 } ∷ [],
  record ticked { messages = delivered ∷ []; signal_vector = 7 ∷ 7 ∷ [] },
)

transmit-ticked : transmit none ticked ≡ ok delivery
unfolding hash_loop hash_byte simbus_generate_uid_hash primitive func_of size_of narrow
    signals_to_messages item_to_message signal_to_message signal_value store_encoded store set_bytes
    to_bytes network_marshal_signals_to_messages network_pack_messages pack_message update_checksum
    overlay net_off network_function_apply_encode apply_encode encode_message run_encode_functions
    run_encode_function adopt_payload crc_generate with_position configure position_of
    network_function_annotation crc_sum crc_add network_encode_to_bus messages_array encode_messages
    frame_of messages_to_signals item_to_signal message_to_signal load_decoded load of_bytes
    get_bytes returns_early clear_update_signals network_marshal_messages_to_signals transmit
transmit-ticked = refl

transmit-headings_example : map heading_of delivery.0 ≡ sent_headings (stored ∷ [])
transmit-headings_example =
    transmit-headings none ticked {r = delivery} (unfold net_off in refl) marshal-ticked
      transmit-ticked
