-- ===== src/Tests/Ready.antt =====
-- A network with functions of the example library, which can run.
use dse_network.Prelude.{
  ℕ, String, ◌+◌, ◌*◌, ◌/◌, ◌≤◌, ◌<◌, ◌≡◌, inr, refl, subst, true, false, Option, none, some, List,
  [], ◌∷◌, ok, length, sym, arith,
}
use mathlib.Core.Option.{some-injective}
use dse_network.Types.{
  Annotations, Codec, Network, NetworkScheduleItem, NetworkFunction, NetworkFunctionFunc,
  NetworkMessage, PackFunc,
}
use dse_network.Engine.Member.{primitive, size_of, func_of}
use dse_network.Function.{network_function_annotation}
use dse_network.Function.Contract.{Works}
use dse_network.Bus.{network_decode_from_bus}
use dse_network.Bus.Decode.Total.{network_decode_from_bus_total}
use dse_network.Library.{configure, crc_generate, crc_validate}
use dse_network.Library.Works.{example_library}
use dse_network.Schedule.Total.{Scheduled}
use dse_network.Shape.{shape, schedule_messages, IsSound, form, IsReady}
use dse_network.Model.{NetworkModelDesc, StepResult, model_start, model_step}
use dse_network.Model.Total.{Runs}
use dse_network.Model.Total.Step.{IsAlive, model_step_total}
use dse_network.Model.Create.{model_start_total}
use dse_network.Tests.Data.{
  length-overlay, overlay_func, identity, byte_signal, status, network, frame,
}

-- The annotation that puts the checksum into the second byte, and the reading of its digit.
abbrev second_byte : Annotations
second_byte name = some "1"

abbrev pub one : String → ℕ
one digits = 1

abbrev pub in_second_byte : String → NetworkFunctionFunc → NetworkFunction
in_second_byte name f = record {
  name = name;
  annotations = some second_byte;
  inst = none;
  function = some f;
}

-- The message, with a cycle time.
abbrev pub checked_with : ℕ → NetworkMessage
checked_with cycle = record status {
  cycle_time_ms = cycle;
  pack_func = some overlay_func;
  unpack_func = some overlay_func;
  encode_functions = in_second_byte "crc_generate" (crc_generate one) ∷ [];
  decode_functions = in_second_byte "crc_validate" (crc_validate one) ∷ [];
}

-- The network, with its schedule and clock.
abbrev pub working_with : ℕ → Option (List NetworkScheduleItem) → ℕ → Network
working_with cycle schedule tick = record network {
  messages = checked_with cycle ∷ [];
  schedule_list = schedule;
  tick = tick;
  marshal_list =
      record { signal = 0; message = 0; signal_vector_index = 0 }
      ∷ record { signal = 1; message = 0; signal_vector_index = 1 }
      ∷ [];
  signal_name = "speed" ∷ "gear" ∷ [];
  signal_vector = 7 ∷ 2 ∷ [];
}

byte_signal-IsSound :
    (name : String) (offset : ℕ) → offset < 2 → IsSound 2 (byte_signal name offset)
unfolding primitive func_of size_of
byte_signal-IsSound name offset small = record {
  type_name = "uint8_t";
  typed = refl;
  codec = λ p e.
      subst (λ q. (c : Codec) × (func_of q (byte_signal name offset) ≡ some c))
        (some-injective _ _ e) (identity, refl);
  inside = λ p e.
      subst (λ q. offset / size_of q * size_of q + size_of q ≤ 2) (some-injective _ _ e)
        (omega arith);
}

working-IsReady :
    (cycle : ℕ) (schedule : Option (List NetworkScheduleItem)) (tick : ℕ)
    → IsReady (form (working_with cycle schedule tick))
working-IsReady cycle schedule tick = record {
  allocated = refl;
  items = (
    record {
      message = shape (checked_with cycle);
      message_there = refl;
      signal = byte_signal "speed" 0;
      signal_there = refl;
      sound = byte_signal-IsSound "speed" 0 (omega arith);
      value_there = omega arith;
    },
    (
      record {
        message = shape (checked_with cycle);
        message_there = refl;
        signal = byte_signal "gear" 1;
        signal_there = refl;
        sound = byte_signal-IsSound "gear" 1 (omega arith);
        value_there = omega arith;
      },
      tt,
    ),
  );
  messages = (
    record {
      unpack = overlay_func;
      unpack_there = refl;
      keeps_length = λ buffer payload len. length-overlay buffer payload;
      mux_there = λ j e. absurd (cc);
      item_there = λ j k s e there found. absurd (cc);
    },
    tt,
  );
}

working-Works : (cycle : ℕ) → Works (example_library one) (checked_with cycle)
unfolding configure network_function_annotation
working-Works cycle = record {
  encode = (
    (
      λ f e. inr (some-injective _ _ (sym e)),
      record { position = 1; configured = refl; inside = omega arith; fits = omega arith },
    ),
    tt,
  );
  decode = (
    (
      λ f e. some-injective _ _ (sym e),
      record { position = 1; configured = refl; inside = omega arith; fits = omega arith },
    ),
    tt,
  );
  keeps_length = λ pack payload buffer len e.
      subst (λ (f : PackFunc). length (f payload buffer len).out ≡ length payload)
        (some-injective _ _ e) (length-overlay payload buffer);
}

pub working-Runs :
    (cycle : ℕ) (schedule : Option (List NetworkScheduleItem)) (tick : ℕ)
    → Scheduled 1 (schedule_messages schedule)
    → Runs (example_library one) (working_with cycle schedule tick)
working-Runs cycle schedule tick leads = (
  record { ready = working-IsReady cycle schedule tick; flat = ((λ ne. refl), tt); leads = leads },
  (working-Works cycle, tt),
)

-- The network with its message sent on change.
abbrev checked : NetworkMessage
checked = checked_with 0

abbrev working : Network
working = working_with 0 none 0

-- Receiving a frame.
network_decode_from_bus_total_example :
    (n' : Network) × (network_decode_from_bus (λ d. d) 2 working (frame ∷ []) ≡ ok n')
    × (form n' ≡ form working)
network_decode_from_bus_total_example =
    network_decode_from_bus_total (λ d. d) 0 working (frame ∷ []) (working-IsReady 0 none 0)
      ((λ ne. refl), tt)

-- The model joins a channel of one signal to the second signal of the network.
abbrev alive : NetworkModelDesc
alive = record {
  network = working;
  init_tick_done = false;
  last_tick = 0;
  signal = "gear" ∷ [];
  scalar = 2 ∷ [];
  sr_map = record { active = true; vector_index = 0; signal_index = 1 } ∷ [];
  netoff_index = some 0;
}

alive-IsAlive : IsAlive (example_library one) alive
alive-IsAlive = record {
  runs = (working-Runs 0 none 0 tt);
  joined = ((λ on. (omega arith, omega arith)), tt);
  switched = omega arith;
}

model_step_total_example :
    (r : StepResult) × (model_step (λ d. d) (λ now last. 1) 2 (frame ∷ []) alive 1 2 ≡ ok r)
    × (length r.model.scalar ≡ 1)
    × IsAlive (example_library one) r.model
model_step_total_example =
    model_step_total (example_library one) (λ d. d) (λ now last. 1) 0 (frame ∷ []) alive 1 2
      alive-IsAlive

model_start_total_example :
    (m : NetworkModelDesc) × (model_start working ("gear" ∷ []) (4 ∷ []) (some 0) ≡ ok m)
    × (length m.scalar ≡ 1)
    × IsAlive (example_library one) m
model_start_total_example =
    model_start_total (example_library one) working ("gear" ∷ []) (4 ∷ []) (some 0)
      (working-Runs 0 none 0 tt) refl refl (omega arith)
