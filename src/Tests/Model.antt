-- ===== src/Tests/Model.antt =====
-- A step of the model.
use dse_network.Prelude.{
  String, ◌+◌, ◌≡◌, ◌≢◌, refl, true, false, some, [], ◌∷◌, ok, get_elem?, str_eq,
}
use dse_network.Hash.{hash_loop, hash_byte, simbus_generate_uid_hash}
use dse_network.Engine.ToMessages.{signals_to_messages, network_marshal_signals_to_messages}
use dse_network.Engine.ToSignals.{
  messages_to_signals, returns_early, clear_update_signals, network_marshal_messages_to_signals,
}
use dse_network.Engine.Pack.{network_pack_messages, pack_message, update_checksum}
use dse_network.Schedule.{schedule_ticks}
use dse_network.Function.{
  net_off, network_function_apply_encode, apply_encode, network_function_apply_decode, apply_decode,
}
use dse_network.Bus.{
  messages_array, network_decode_from_bus, network_encode_to_bus, encode_messages,
}
use dse_network.Model.{
  NetworkModelDesc, StepResult, create_sr_map, find_signal, netoff_value_of, is_zero, initial_tick,
  read_signals, write_signals, receive, transmit, model_step,
}
use dse_network.Model.Mapping.{create_sr_map_lem}
use dse_network.Model.Missing.{model_step_missing}
use dse_network.Model.Step.{IsSettled, model_step-IsSettled, model_step_off}
use dse_network.Tests.Data.{status, cyclic, network}

create_sr_map_lem_example :
    (name : String) × (get_elem? {A = String} ("lamp" ∷ "gear" ∷ []) 1 ≡ some name)
    × (get_elem? {A = String} ("gear" ∷ []) 0 ≡ some name)
    × (1 ≡ 0 + 1)
    × (str_eq name "" ≡ false)
unfolding create_sr_map find_signal
create_sr_map_lem_example =
    create_sr_map_lem 1 0 ("lamp" ∷ "gear" ∷ []) ("gear" ∷ [])
      {x = record { active = true; vector_index = 1; signal_index = 0 }} refl refl

-- A model whose network is off: the signal at place 0 is 1.0.
abbrev model : NetworkModelDesc
model = record {
  network = network;
  init_tick_done = true;
  last_tick = 0;
  signal = "off" ∷ [];
  scalar = 4607182418800017408 ∷ [];
  sr_map = record { active = false; vector_index = 0; signal_index = 0 } ∷ [];
  netoff_index = some 0;
}

abbrev after : StepResult
after = record {
  frames = [];
  model = record model {
    network = record network {
      messages =
          record status {
            payload = 5 ∷ 3 ∷ [];
            buffer_checksum = simbus_generate_uid_hash (5 ∷ 3 ∷ []) 2;
          }
          ∷ record cyclic { payload = 5 ∷ 3 ∷ [] }
          ∷ [];
      netoff_value = some 4607182418800017408;
    };
  };
  model_time = 1;
}

model_step-after : model_step (λ d. d) (λ now last. 0) 2 [] model 1 1 ≡ ok after
unfolding hash_loop hash_byte simbus_generate_uid_hash signals_to_messages
    network_marshal_signals_to_messages messages_to_signals returns_early clear_update_signals
    network_marshal_messages_to_signals network_pack_messages pack_message update_checksum
    schedule_ticks net_off network_function_apply_encode apply_encode network_function_apply_decode
    apply_decode network_decode_from_bus messages_array network_encode_to_bus encode_messages
    netoff_value_of is_zero initial_tick read_signals write_signals receive transmit model_step
model_step-after = refl

netoff-model : net_off (some 4607182418800017408) ≡ true
unfolding net_off
netoff-model = refl

model_step-IsSettled_example : IsSettled after.model.network.messages
model_step-IsSettled_example =
    model_step-IsSettled (λ d. d) (λ now last. 0) 2 [] model 1 1 {r = after} model_step-after

model_step_off_example : after.frames ≡ []
unfolding netoff_value_of
model_step_off_example =
    model_step_off (λ d. d) (λ now last. 0) 2 [] model 1 1 {r = after} refl netoff-model
      model_step-after

-- A model whose document had no message library.
abbrev missing : NetworkModelDesc
missing = record model { network = record network { has_messages = false; messages = [] } }

model_step_missing_example : model_step (λ d. d) (λ now last. 0) 2 [] missing 1 1 ≢ ok after
model_step_missing_example =
    model_step_missing (λ d. d) (λ now last. 0) 2 [] missing 1 1 {r = after} refl
