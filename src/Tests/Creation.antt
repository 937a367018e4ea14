-- ===== src/Tests/Creation.antt =====
-- A model that is created from the document, and a step that follows.
use mathlib.Core.Option.{some-injective}
use dse_network.Prelude.{
  ◌≡◌, refl, subst, true, false, none, some, [], ◌∷◌, ok, goes_on, length, replicate,
}
use dse_network.Types.{PackFunc}
use dse_network.Memory.{store, set_bytes, to_bytes}
use dse_network.Hash.{hash_loop, hash_byte, simbus_generate_uid_hash}
use dse_network.Engine.Member.{primitive, size_of, func_of, narrow}
use dse_network.Engine.Lists.{signal_of}
use dse_network.Engine.ToMessages.{
  signals_to_messages, item_to_message, signal_to_message, signal_value, store_encoded,
  network_marshal_signals_to_messages,
}
use dse_network.Engine.Pack.{network_pack_messages, pack_message, update_checksum}
use dse_network.Schedule.{schedule_items, network_schedule_reset}
use dse_network.Function.Contract.{Works}
use dse_network.Library.Works.{example_library}
use dse_network.Model.{
  NetworkModelDesc, StepResult, find_signal, create_sr_map, assign, set_init_values, write_signals,
  clear_needs_tx, model_start, model_step,
}
use dse_network.Model.Open.{
  SignalVector, find_channel, find_network_signal, model_create, model_create-Reach,
}
use dse_network.Model.Reach.{Reach, here, next, write}
use dse_network.Tests.Data.{overlay, length-overlay, library, frame}
use dse_network.Tests.Document.{
  yaml, strtoul, search_document, parsed, network_parse-parsed, parsed_message-IsServed,
  loaded_message, loaded, network_load-loaded,
}

abbrev signal_channel : SignalVector
signal_channel = record {
  alias = "signal_channel";
  is_binary = false;
  signal = "speed" ∷ [];
  scalar = 5 ∷ [];
  annotation = [];
  codec = λ i. false;
}

abbrev network_channel : SignalVector
network_channel = record {
  alias = "network_channel";
  is_binary = true;
  signal = "bus" ∷ [];
  scalar = [];
  annotation = some "can" ∷ [];
  codec = λ i. true;
}

-- The signal has its initial value, and the hash of the buffer is recorded.
abbrev model : NetworkModelDesc
model = record {
  network = record loaded {
    messages =
        record loaded_message { buffer_checksum = simbus_generate_uid_hash (replicate 8 0) 1 } ∷ [];
    schedule_list = some [];
  };
  init_tick_done = false;
  last_tick = 0;
  signal = "speed" ∷ [];
  scalar = 0 ∷ [];
  sr_map = record { active = true; vector_index = 0; signal_index = 0 } ∷ [];
  netoff_index = none;
}

model_create-model :
    model_create yaml strtoul search_document
      (λ path. some library)
      (λ path. some (λ name. none))
      (λ name. none)
      3
      library
      (some "can")
      (signal_channel ∷ network_channel ∷ [])
    ≡ ok model
unfolding find_channel find_network_signal model_create schedule_items network_schedule_reset
    hash_loop hash_byte simbus_generate_uid_hash primitive func_of size_of narrow
    signals_to_messages item_to_message signal_to_message signal_value store_encoded store set_bytes
    to_bytes network_marshal_signals_to_messages network_pack_messages pack_message update_checksum
    find_signal create_sr_map assign signal_of set_init_values write_signals clear_needs_tx
    model_start overlay
model_create-model = goes_on _ network_load-loaded refl

loaded_message-Works : Works (example_library strtoul) loaded_message
loaded_message-Works = record {
  encode = tt;
  decode = tt;
  keeps_length = λ pack payload buffer len e.
      subst (λ (f : PackFunc). length (f payload buffer len).out ≡ length payload)
        (some-injective _ _ e) (length-overlay payload buffer);
}

-- After the simulation wrote a new value into the channel.
model_create-Reach_example :
    (r : StepResult) × (model_step
        (λ d. d)
        (λ now last. 1)
        2
        (frame ∷ [])
        (record model { scalar = 9 ∷ [] })
        1
        2
      ≡ ok r)
    × Reach (λ d. d) (λ now last. 1) model r.model
model_create-Reach_example =
    model_create-Reach yaml strtoul search_document (λ path. some library)
      (λ path. some (λ name. none)) (λ name. none) (example_library strtoul) (λ d. d)
      (λ now last. 1) 3 library library parsed loaded "can" (signal_channel ∷ network_channel ∷ [])
      signal_channel {from = model} {m = record model { scalar = 9 ∷ [] }} network_parse-parsed refl
      refl (parsed_message-IsServed, tt) network_load-loaded (loaded_message-Works, tt)
      (unfold find_channel in refl) refl (λ name i e. absurd (cc)) model_create-model
      (next here (write model (9 ∷ []) refl)) 0 (frame ∷ []) 1 2
