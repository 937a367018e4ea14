-- ===== src/Model/Missing.antt =====
-- A model whose network has no array of messages, as a document with no message library leaves it.
use dse_network.Prelude.{
  ℕ, zero, suc, ◌≡◌, ◌≢◌, sym, ap, ◌∙◌, not, ◌&&◌, true, false, Bool, Option, none, some, List, [],
  ◌∷◌, map, Outcome, ok, fault, ◌>>=◌, >>=-elim, if_true, if_false, Bool-cases, Option-cases, inl,
  inr,
}
use dse_network.Types.{Double, Network, NetworkMessage, NetworkScheduleItem}
use dse_network.Engine.ToMessages.{signals_to_messages, network_marshal_signals_to_messages}
use dse_network.Engine.ToSignals.Total.{returns_early-false}
use dse_network.Engine.ToSignals.{
  messages_to_signals, clear_update_signals, network_marshal_messages_to_signals,
}
use dse_network.Engine.Pack.{network_pack_messages}
use dse_network.Schedule.{tick_items, network_schedule_tick, schedule_ticks}
use dse_network.Function.{
  net_off, apply_encode, apply_decode, map_messages, network_function_apply_encode,
  network_function_apply_decode,
}
use dse_network.Bus.{
  CanMessage, messages_array, process_can_frame, network_decode_from_bus, network_encode_to_bus,
}
use dse_network.Model.{
  NetworkModelDesc, StepResult, netoff_value_of, is_zero, read_signals, initial_tick, receive,
  transmit, model_step,
}

abbrev Lacks : Network → Type 0
Lacks n = n.has_messages ≡ false

messages_array-Lacks :
    (n : Network) {messages : List NetworkMessage} → Lacks n → messages_array n ≢ ok messages
unfolding messages_array
messages_array-Lacks n lacks e =
    let faults : messages_array n ≡ fault = if_false n.has_messages (ok n.messages) lacks in cc

-- With no array of messages only an empty list of frames is received.
network_decode_from_bus-Lacks :
    (to_uint32 : Double → ℕ) (fuel : ℕ) (n : Network) (frames : List CanMessage) {n' : Network}
    → Lacks n
    → network_decode_from_bus to_uint32 fuel n frames ≡ ok n'
    → Lacks n'
unfolding network_decode_from_bus process_can_frame
network_decode_from_bus-Lacks to_uint32 fuel n [] {n'} lacks e =
    let same : n ≡ n' = cc in ap (λ (x : Network). x.has_messages) (sym same) ∙ lacks
network_decode_from_bus-Lacks to_uint32 fuel n (msg ∷ frames) lacks e =
    >>=-elim (process_can_frame to_uint32 fuel n msg) _ e λ n1 ran _.
      >>=-elim (messages_array n) _ ran
        λ messages there _. absurd (messages_array-Lacks n lacks there)

network_function_apply_decode-Lacks :
    (n : Network) {n' : Network} → Lacks n → network_function_apply_decode n ≡ ok n' → Lacks n'
unfolding network_function_apply_decode
network_function_apply_decode-Lacks n {n'} lacks e =
    >>=-elim (map_messages apply_decode n.messages) _ e λ messages ran end.
      let same : record n { messages = messages } ≡ n' = cc in
      ap (λ (x : Network). x.has_messages) (sym same) ∙ lacks

network_function_apply_encode-Lacks :
    (n : Network) {n' : Network} → Lacks n → network_function_apply_encode n ≡ ok n' → Lacks n'
unfolding network_function_apply_encode
network_function_apply_encode-Lacks n {n'} lacks e =
    >>=-elim (map_messages (apply_encode (net_off n.netoff_value)) n.messages) _ e
      λ messages ran end.
        let same : record n { messages = messages } ≡ n' = cc in
        ap (λ (x : Network). x.has_messages) (sym same) ∙ lacks

network_marshal_signals_to_messages-Lacks :
    (n : Network) {r : ℕ × Network}
    → Lacks n
    → network_marshal_signals_to_messages n (some n.marshal_list) ≡ ok r
    → Lacks r.1
unfolding network_marshal_signals_to_messages
network_marshal_signals_to_messages-Lacks n {r} lacks e =
    >>=-elim (signals_to_messages n.signal_vector n.marshal_list n.messages) _ e λ messages ran end.
      let same : (0, record n { messages = messages }) ≡ r = cc in
      ap (λ (x : ℕ × Network). x.1.has_messages) (sym same) ∙ lacks

network_marshal_messages_to_signals-Lacks :
    (n : Network) {r : ℕ × Network}
    → Lacks n
    → network_marshal_messages_to_signals n (some n.marshal_list) false ≡ ok r
    → Lacks r.1
unfolding network_marshal_messages_to_signals
network_marshal_messages_to_signals-Lacks n {r} lacks e =
    >>=-elim (messages_to_signals false n.marshal_list n.messages n.signal_vector) _ e
      λ vector ran end.
        let same : (
          0,
          record n { messages = map clear_update_signals n.messages; signal_vector = vector },
        )
            ≡ r =
          cc (returns_early-false n.marshal_list) in
        ap (λ (x : ℕ × Network). x.1.has_messages) (sym same) ∙ lacks

-- A tick, given the schedule.
abbrev tick_by : Network → Option (List NetworkScheduleItem) → Outcome Network
unfolding network_schedule_tick
tick_by n schedule = network_schedule_tick (record n { schedule_list = schedule })

network_schedule_tick-Lacks :
    (n : Network) {n' : Network} → Lacks n → network_schedule_tick n ≡ ok n' → Lacks n'
unfolding network_schedule_tick
network_schedule_tick-Lacks n {n'} lacks e = elim (Option-cases n.schedule_list) [
  | inl unscheduled ↦
      let ran : tick_by n none ≡ ok n' = sym (ap (tick_by n) unscheduled) ∙ e in
      let kept : n.has_messages ≡ n'.has_messages = cc in sym kept ∙ lacks
  | inr (items, scheduled) ↦
      let ran : tick_by n (some items) ≡ ok n' = sym (ap (tick_by n) scheduled) ∙ e in
      >>=-elim (tick_items n.tick items n.messages) _ ran
        λ after _ end. let kept : n.has_messages ≡ n'.has_messages = cc in sym kept ∙ lacks
]

schedule_ticks-Lacks :
    (ticks : ℕ) (n : Network) {n' : Network} → Lacks n → schedule_ticks ticks n ≡ ok n' → Lacks n'
unfolding schedule_ticks
schedule_ticks-Lacks zero n {n'} lacks e =
    let same : n ≡ n' = cc in ap (λ (x : Network). x.has_messages) (sym same) ∙ lacks
schedule_ticks-Lacks (suc left) n lacks e =
    >>=-elim (network_schedule_tick n) _ e
      λ n1 ran rest. schedule_ticks-Lacks left n1 (network_schedule_tick-Lacks n lacks ran) rest

initial_tick-Lacks :
    (model_time : Double) (done : Bool) (n : Network) {r : Bool × Network}
    → Lacks n
    → initial_tick model_time done n ≡ ok r
    → Lacks r.1
unfolding initial_tick
initial_tick-Lacks model_time done n {r} lacks e =
    let first : Bool = is_zero model_time && not done in
    let ticked : Outcome (Bool × Network) = network_schedule_tick n >>= λ n'. ok (true, n') in
    elim (Bool-cases first) [
      | inl due ↦
          let ran : ticked ≡ ok r = sym (if_true first (ok (done, n)) due) ∙ e in
          >>=-elim (network_schedule_tick n) _ ran λ n' went end.
            let same : (true, n') ≡ r = cc in
            ap (λ (x : Bool × Network). x.1.has_messages) (sym same)
            ∙ network_schedule_tick-Lacks n lacks went
      | inr past ↦
          let ran : ok (done, n) ≡ ok r = sym (if_false first ticked past) ∙ e in
          let same : (done, n) ≡ r = cc in
          ap (λ (x : Bool × Network). x.1.has_messages) (sym same) ∙ lacks
    ]

receive-Lacks :
    (to_uint32 : Double → ℕ) (fuel : ℕ) (frames : List CanMessage) (n : Network) {n' : Network}
    → Lacks n
    → receive to_uint32 fuel frames n ≡ ok n'
    → Lacks n'
unfolding receive
receive-Lacks to_uint32 fuel frames n {n'} lacks e =
    >>=-elim (network_decode_from_bus to_uint32 fuel n frames) _ e λ decoded ran e1.
      >>=-elim (network_function_apply_decode decoded) _ e1 λ checked ran1 e2.
        >>=-elim (network_marshal_messages_to_signals checked (some checked.marshal_list) false) _
          e2
          λ done ran2 end.
            let same : done.1 ≡ n' = cc in
            ap (λ (x : Network). x.has_messages) (sym same)
            ∙ network_marshal_messages_to_signals-Lacks checked
                (network_function_apply_decode-Lacks decoded
                  (network_decode_from_bus-Lacks to_uint32 fuel n frames lacks ran) ran1)
                ran2

transmit-Lacks :
    (netoff : Option Double) (n : Network) {r : List CanMessage × Network}
    → Lacks n
    → transmit netoff n ≢ ok r
unfolding transmit network_pack_messages network_encode_to_bus
transmit-Lacks netoff n lacks e =
    >>=-elim (network_marshal_signals_to_messages n (some n.marshal_list)) _ e λ marshalled ran e1.
      let packed : Network = record (network_pack_messages marshalled.1) {
        netoff_value = netoff;
      } in
      >>=-elim (network_function_apply_encode packed) _ e1 λ applied ran1 e2.
        >>=-elim (network_encode_to_bus applied) _ e2 λ sent wrote _.
          >>=-elim (messages_array applied) _ wrote λ messages there _.
            messages_array-Lacks applied
              (network_function_apply_encode-Lacks packed
                (network_marshal_signals_to_messages-Lacks n lacks ran) ran1)
              there

-- Where the network has no array of messages no step of the model returns, whatever frames arrive
-- and whatever the times are.
pub model_step_missing :
    (to_uint32 : Double → ℕ) (tick_count : Double → Double → ℕ) (fuel : ℕ)
    (frames : List CanMessage) (m : NetworkModelDesc) (model_time stop_time : Double)
    {r : StepResult}
    → m.network.has_messages ≡ false
    → model_step to_uint32 tick_count fuel frames m model_time stop_time ≢ ok r
unfolding model_step
model_step_missing to_uint32 tick_count fuel frames m model_time stop_time lacks e =
    >>=-elim (read_signals m.sr_map m.scalar m.network.signal_vector) _ e λ vector _ e1.
      let n : Network = record m.network { signal_vector = vector } in
      >>=-elim (receive to_uint32 fuel frames n) _ e1 λ received heard e2.
        >>=-elim (initial_tick model_time m.init_tick_done received) _ e2 λ first began e3.
          >>=-elim (schedule_ticks (tick_count model_time m.last_tick) first.1) _ e3
            λ ticked ran e4. >>=-elim (netoff_value_of m) _ e4 λ netoff _ e5.
              >>=-elim (transmit netoff ticked) _ e5 λ sent went _.
                transmit-Lacks netoff ticked
                  (schedule_ticks-Lacks (tick_count model_time m.last_tick) first.1
                    (initial_tick-Lacks model_time m.init_tick_done received
                      (receive-Lacks to_uint32 fuel frames n lacks heard) began)
                    ran)
                  went
