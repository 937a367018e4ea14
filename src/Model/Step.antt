-- ===== src/Model/Step.antt =====
-- What holds after each step of the model.
use dse_network.Prelude.{
  ℕ, ◌≡◌, refl, sym, subst, ap, ◌∙◌, true, false, Option, some, List, [], ◌∷◌, map, Outcome, ok,
  ◌>>=◌, >>=-elim,
}
use dse_network.Types.{Double, MarshalItem, NetworkMessage, Network}
use dse_network.Engine.ToMessages.{network_marshal_signals_to_messages}
use dse_network.Engine.ToSignals.Total.{returns_early-false}
use dse_network.Engine.ToSignals.{
  messages_to_signals, clear_update_signals, network_marshal_messages_to_signals,
}
use dse_network.Engine.Pack.{network_pack_messages}
use dse_network.Schedule.{schedule_ticks}
use dse_network.Function.{net_off, network_function_apply_encode}
use dse_network.Function.Apply.{network_function_apply_encode_off}
use dse_network.Bus.{CanMessage, frame_of, network_encode_to_bus}
use dse_network.Bus.Encode.{pending, without_mark, pending-without_mark, network_encode_to_bus_inv}
use dse_network.Model.{
  NetworkModelDesc, StepResult, netoff_value_of, read_signals, write_signals, receive, initial_tick,
  transmit, model_step,
}

-- No message is marked for sending or for an update of the signals.
abbrev pub IsSettled : List NetworkMessage → Type 0
IsSettled [] = Unit {0}
IsSettled (m ∷ messages) = (m.needs_tx ≡ false) × (m.update_signals ≡ false) × IsSettled messages

settled :
    (messages : List NetworkMessage)
    → IsSettled (map clear_update_signals (map without_mark messages))
unfolding clear_update_signals
settled [] = tt
settled (m ∷ messages) = (refl, refl, settled messages)

messages-marshal :
    (n : Network) (items : List MarshalItem) {r : ℕ × Network}
    → network_marshal_messages_to_signals n (some items) false ≡ ok r
    → r.1.messages ≡ map clear_update_signals n.messages
unfolding network_marshal_messages_to_signals
messages-marshal n items {r} e =
    >>=-elim (messages_to_signals false items n.messages n.signal_vector) _ e λ vector ran rest.
      let result : (
        0,
        record n { messages = map clear_update_signals n.messages; signal_vector = vector },
      )
          ≡ r =
        cc (returns_early-false items) in
      ap (λ (x : ℕ × Network). x.1.messages) (sym result)

-- What the transmitting half of a step leaves.
transmit-IsSettled :
    (netoff : Option Double) (n : Network) {r : List CanMessage × Network}
    → transmit netoff n ≡ ok r
    → IsSettled r.1.messages
unfolding transmit
transmit-IsSettled netoff n {r} e =
    >>=-elim (network_marshal_signals_to_messages n (some n.marshal_list)) _ e λ marshalled ran e1.
      >>=-elim
        (network_function_apply_encode
          (record (network_pack_messages marshalled.1) { netoff_value = netoff }))
        _ e1
        λ applied ran1 e2. >>=-elim (network_encode_to_bus applied) _ e2 λ sent wrote e3.
          >>=-elim (network_marshal_messages_to_signals sent.1 (some sent.1.marshal_list) false) _
            e3
            λ done ran2 e4.
              let result : (sent.0, done.1) ≡ r = cc in
              let cleared : r.1.messages
                  ≡ map clear_update_signals (map without_mark applied.messages) =
                ap (λ (x : List CanMessage × Network). x.1.messages) (sym result)
                ∙ messages-marshal sent.1 sent.1.marshal_list ran2
                ∙ ap (λ (x : List CanMessage × Network). map clear_update_signals x.1.messages)
                    (sym (network_encode_to_bus_inv applied wrote)) in
              subst IsSettled (sym cleared) (settled applied.messages)

transmit_off :
    (netoff : Option Double) (n : Network) {r : List CanMessage × Network}
    → net_off netoff ≡ true
    → transmit netoff n ≡ ok r
    → r.0 ≡ []
unfolding transmit
transmit_off netoff n {r} off e =
    >>=-elim (network_marshal_signals_to_messages n (some n.marshal_list)) _ e λ marshalled ran e1.
      let packed = record (network_pack_messages marshalled.1) { netoff_value = netoff } in
      >>=-elim (network_function_apply_encode packed) _ e1 λ applied ran1 e2.
        >>=-elim (network_encode_to_bus applied) _ e2 λ sent wrote e3.
          >>=-elim (network_marshal_messages_to_signals sent.1 (some sent.1.marshal_list) false) _
            e3
            λ done ran2 e4.
              let result : (sent.0, done.1) ≡ r = cc in
              let (n', runs, kept, _) = network_function_apply_encode_off packed off in
              let outcome : ok n' ≡ ok applied = sym runs ∙ ran1 in
              let same : n' ≡ applied = cc in
              ap (λ (x : List CanMessage × Network). x.0) (sym result)
              ∙ ap (λ (x : List CanMessage × Network). x.0)
                  (sym (network_encode_to_bus_inv applied wrote))
              ∙ ap (λ (x : Network). map frame_of (pending x.messages)) (sym same)
              ∙ ap (λ ms. map frame_of (pending ms)) kept
              ∙ ap (map frame_of)
                  (pending-without_mark (network_pack_messages marshalled.1).messages)

module _ (to_uint32 : Double → ℕ) (tick_count : Double → Double → ℕ) where
  abbrev sent_by : Outcome StepResult → Outcome (List CanMessage × Network)
  sent_by o = o >>= λ r. ok (r.frames, r.model.network)

  -- A step that succeeds ends with the transmission of some network.
  model_step-transmit :
      (fuel : ℕ) (frames : List CanMessage) (m : NetworkModelDesc) (model_time stop_time : Double)
      {r : StepResult}
      → model_step to_uint32 tick_count fuel frames m model_time stop_time ≡ ok r
      → (n : Network) × (netoff : Option Double) × (netoff_value_of m ≡ ok netoff)
        × (transmit netoff n ≡ ok (r.frames, r.model.network))
  unfolding model_step
  model_step-transmit fuel frames m model_time stop_time {r} e =
      >>=-elim (read_signals m.sr_map m.scalar m.network.signal_vector) _ e λ vector read e1.
        >>=-elim (receive to_uint32 fuel frames (record m.network { signal_vector = vector })) _ e1
          λ received heard e2.
            >>=-elim (initial_tick model_time m.init_tick_done received) _ e2 λ first began e3.
              >>=-elim (schedule_ticks (tick_count model_time m.last_tick) first.1) _ e3
                λ ticked ran e4. >>=-elim (netoff_value_of m) _ e4 λ netoff shown e5.
                  >>=-elim (transmit netoff ticked) _ e5 λ sent went e6.
                    >>=-elim (write_signals m.sr_map sent.1.signal_vector m.scalar) _ e6
                      λ scalar wrote e7. (ticked, netoff, shown, went ∙ ap sent_by e7)

  -- After a step that succeeds no message is marked for sending, and none for an update of the
  -- signals.
  pub model_step-IsSettled :
      (fuel : ℕ) (frames : List CanMessage) (m : NetworkModelDesc) (model_time stop_time : Double)
      {r : StepResult}
      → model_step to_uint32 tick_count fuel frames m model_time stop_time ≡ ok r
      → IsSettled r.model.network.messages
  model_step-IsSettled fuel frames m model_time stop_time e =
      let (n, netoff, _, sent) = model_step-transmit fuel frames m model_time stop_time e in
      transmit-IsSettled netoff n sent

  -- A step that succeeds while the signal that turns the network off is not 0 writes no frame.
  pub model_step_off :
      (fuel : ℕ) (frames : List CanMessage) (m : NetworkModelDesc) (model_time stop_time : Double)
      {netoff : Option Double} {r : StepResult}
      → netoff_value_of m ≡ ok netoff
      → net_off netoff ≡ true
      → model_step to_uint32 tick_count fuel frames m model_time stop_time ≡ ok r
      → r.frames ≡ []
  model_step_off fuel frames m model_time stop_time {netoff} shown off e =
      let (n, netoff', shown', sent) = model_step-transmit fuel frames m model_time stop_time e in
      let outcome : ok netoff ≡ ok netoff' = sym shown ∙ shown' in
      let same : netoff ≡ netoff' = cc in transmit_off netoff' n (sym (ap net_off same) ∙ off) sent
