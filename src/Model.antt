-- ===== src/Model.antt =====
-- dse/network/model.c: the runnable model. The signal channel is the list of its signal names and
-- that of its values; both come from the simulation, which also reads the values after a step. A
-- step is given the frames that the codec delivers and returns those written to it. The quotient
-- that gives the number of ticks is computed in floating point: `tick_count` is the number of
-- rounds of the loop over it, for the model time and that of the last tick.
pub mod Mapping
pub mod Step
pub mod Total
pub mod Create
pub mod Reach
pub mod Frames
pub mod Open
pub mod Missing
use dse_network.Prelude.{
  ℕ, zero, suc, String, ◌+◌, ◌^◌, ◌==◌, ◌&&◌, ◌||◌, not, Bool, true, false, Option, none, some,
  List, [], ◌∷◌, map, Outcome, ok, fault, ◌>>=◌, deref, get_elem?, set, length, ltb, str_eq,
  if◌then◌else◌,
}
use dse_network.Types.{Double, MarshalItem, NetworkMessage, Network}
use dse_network.Engine.Lists.{signal_of}
use dse_network.Engine.ToMessages.{network_marshal_signals_to_messages}
use dse_network.Engine.ToSignals.{network_marshal_messages_to_signals}
use dse_network.Engine.Pack.{network_pack_messages}
use dse_network.Schedule.{network_schedule_tick, schedule_ticks}
use dse_network.Function.{network_function_apply_encode, network_function_apply_decode}
use dse_network.Bus.{CanMessage, network_decode_from_bus, network_encode_to_bus}

pub record SrMap : Type 0 where
  pub active : Bool
  pub vector_index : ℕ
  pub signal_index : ℕ

-- `netoff_index` is the place in the signal channel that `netoff_value` points to.
pub record NetworkModelDesc : Type 0 where
  pub network : Network
  pub init_tick_done : Bool
  pub last_tick : Double
  pub signal : List String
  pub scalar : List Double
  pub sr_map : List SrMap
  pub netoff_index : Option ℕ

-- The inner loop of the mapping, from network signal `k` on: the first with this name, if the name
-- is not empty.
unfoldable pub find_signal : ℕ → String → List String → Option ℕ
find_signal k name [] = none
find_signal k name (s ∷ names) =
    if str_eq name s && not (str_eq s "") then some k else find_signal (k + 1) name names

-- The outer loop, from signal `i` of the channel on; `calloc` clears the entries.
unfoldable pub create_sr_map : ℕ → List String → List String → List SrMap
create_sr_map i [] names = []
create_sr_map i (s ∷ signals) names =
    let rest = create_sr_map (i + 1) signals names in
    elim (find_signal 0 s names) [
      | none ↦ record { active = false; vector_index = 0; signal_index = 0 } ∷ rest
      | some k ↦ record { active = true; vector_index = i; signal_index = k } ∷ rest
    ]

-- `xs[i] = v`
unfoldable pub assign : List Double → ℕ → Double → Outcome (List Double)
assign xs i v = if ltb i (length xs) then ok (set xs i v) else fault

unfoldable pub set_init_values :
    List NetworkMessage → List MarshalItem → List Double → Outcome (List Double)
set_init_values messages [] vector = ok vector
set_init_values messages (mi ∷ items) vector = do
  s ← signal_of messages mi
  vector' ← assign vector mi.signal_vector_index s.init_value
  set_init_values messages items vector'

-- RX: SignalVector -> Network.
unfoldable pub read_signals : List SrMap → List Double → List Double → Outcome (List Double)
read_signals [] scalar vector = ok vector
read_signals (x ∷ sr_map) scalar vector = elim x.active [
  | false ↦ read_signals sr_map scalar vector
  | true ↦ (do
    v ← deref (get_elem? scalar x.vector_index)
    vector' ← assign vector x.signal_index v
    read_signals sr_map scalar vector')
]

-- TX: Network -> SignalVector.
unfoldable pub write_signals : List SrMap → List Double → List Double → Outcome (List Double)
write_signals [] vector scalar = ok scalar
write_signals (x ∷ sr_map) vector scalar = elim x.active [
  | false ↦ write_signals sr_map vector scalar
  | true ↦ (do
    v ← deref (get_elem? vector x.signal_index)
    scalar' ← assign scalar x.vector_index v
    write_signals sr_map vector scalar')
]

unfoldable pub clear_needs_tx : NetworkMessage → NetworkMessage
clear_needs_tx m = record m { needs_tx = false }

-- The rest of `model_create`, from the mapping on, for a network that was loaded and its schedule
-- reset; the names are those of the signal channel and the values its values.
unfoldable pub model_start :
    Network → List String → List Double → Option ℕ → Outcome NetworkModelDesc
model_start n signal scalar netoff_index = do
  let sr_map = create_sr_map 0 signal n.signal_name
  vector ← set_init_values n.messages n.marshal_list n.signal_vector
  scalar' ← write_signals sr_map vector scalar
  marshalled ←
      network_marshal_signals_to_messages (record n { signal_vector = vector })
        (some n.marshal_list)
  let packed = network_pack_messages marshalled.1
  ok (record {
    network = record packed { messages = map clear_needs_tx packed.messages };
    init_tick_done = false;
    last_tick = 0;
    signal = signal;
    scalar = scalar';
    sr_map = sr_map;
    netoff_index = netoff_index;
  })

-- `*model_time == 0.0`, for +0 and -0.
unfoldable pub is_zero : Double → Bool
is_zero d = d == 0 || d == 2 ^ 63

-- What `netoff_value` points to, if it is set.
abbrev pub netoff_at : List Double → Option ℕ → Outcome (Option Double)
netoff_at scalar none = ok none
netoff_at scalar (some i) = do v ← deref (get_elem? scalar i); ok (some v)

unfoldable pub netoff_value_of : NetworkModelDesc → Outcome (Option Double)
netoff_value_of m = netoff_at m.scalar m.netoff_index

-- The initial tick, which occurs once.
unfoldable pub initial_tick : Double → Bool → Network → Outcome (Bool × Network)
initial_tick model_time done n =
    if is_zero model_time && not done
    then (do n' ← network_schedule_tick n; ok (true, n'))
    else ok (done, n)

-- From the bus to the signal vector.
unfoldable pub receive : (Double → ℕ) → ℕ → List CanMessage → Network → Outcome Network
receive to_uint32 fuel frames n = do
  decoded ← network_decode_from_bus to_uint32 fuel n frames
  checked ← network_function_apply_decode decoded
  done ← network_marshal_messages_to_signals checked (some checked.marshal_list) false
  ok done.1

-- From the signal vector to the bus, and back where functions changed the payload.
unfoldable pub transmit : Option Double → Network → Outcome (List CanMessage × Network)
transmit netoff n = do
  marshalled ← network_marshal_signals_to_messages n (some n.marshal_list)
  let packed = network_pack_messages marshalled.1
  applied ← network_function_apply_encode (record packed { netoff_value = netoff })
  sent ← network_encode_to_bus applied
  done ← network_marshal_messages_to_signals sent.1 (some sent.1.marshal_list) false
  ok (sent.0, done.1)

pub record StepResult : Type 0 where
  pub frames : List CanMessage
  pub model : NetworkModelDesc
  pub model_time : Double

module _ (to_uint32 : Double → ℕ) (tick_count : Double → Double → ℕ) where
  unfoldable pub model_step :
      ℕ → List CanMessage → NetworkModelDesc → Double → Double → Outcome StepResult
  model_step fuel frames m model_time stop_time = do
    vector ← read_signals m.sr_map m.scalar m.network.signal_vector
    received ← receive to_uint32 fuel frames (record m.network { signal_vector = vector })
    first ← initial_tick model_time m.init_tick_done received
    let ticks = tick_count model_time m.last_tick
    ticked ← schedule_ticks ticks first.1
    netoff ← netoff_value_of m
    sent ← transmit netoff ticked
    scalar ← write_signals m.sr_map sent.1.signal_vector m.scalar
    ok (record {
      frames = sent.0;
      model = record m {
        network = sent.1;
        init_tick_done = first.0;
        last_tick = if ticks == 0 then m.last_tick else model_time;
        scalar = scalar;
      };
      model_time = stop_time;
    })
