-- ===== src/Model/Total.antt =====
-- In a network that can run, the parts of a step up to the transmission succeed.
pub mod Send
pub mod Step
use dse_network.Prelude.{
  ℕ, zero, suc, ◌+◌, ◌<◌, ◌==◌, ◌&&◌, ◌≡◌, ◌≢◌, refl, sym, ap, ap₂, ◌∙◌, subst, not, true, false,
  Bool, Option, none, some, List, [], ◌∷◌, map, Outcome, ok, ◌>>=◌, deref, get_elem?, set, length,
  ltb, lt→ltb, arith, if◌then◌else◌, goes_on, deref_there, All, All-map, All-of_map, map-set,
  get-lt_length, length-set, length-map, map_agrees, Option-cases, Bool-cases, inl, inr, if_true,
  if_false,
}
use dse_network.Types.{Double, NetworkMessage, Network, PackFunc}
use dse_network.Hash.{simbus_generate_uid_hash}
use dse_network.Engine.ToMessages.{network_marshal_signals_to_messages}
use dse_network.Engine.ToMessages.Total.{network_marshal_signals_to_messages_total}
use dse_network.Engine.ToSignals.{clear_update_signals, network_marshal_messages_to_signals}
use dse_network.Engine.ToSignals.Total.{network_marshal_messages_to_signals_total}
use dse_network.Engine.Pack.{pack_message, update_checksum, network_pack_messages}
use dse_network.Schedule.{network_schedule_tick, schedule_ticks}
use dse_network.Schedule.Total.{
  unscheduled, Scheduled, network_schedule_tick_total, schedule_ticks_total,
}
use dse_network.Function.{network_function_apply_encode, network_function_apply_decode}
use dse_network.Function.Contract.{Contract, Vitals, vitals, WorksAt, Works, Works-agree}
use dse_network.Function.Total.{
  network_function_apply_encode_total, network_function_apply_decode_total,
}
use dse_network.Bus.{CanMessage, network_decode_from_bus, network_encode_to_bus}
use dse_network.Bus.Decode.{rest_of, network_decode_from_bus_keeps}
use dse_network.Bus.Decode.Ends.{IsFlat}
use dse_network.Bus.Decode.Total.{network_decode_from_bus_total}
use dse_network.Bus.Encode.{without_mark, network_encode_to_bus_lem}
use dse_network.Shape.{
  Shape, shape, core, shapes-cores, Form, form, IsReady, form-messages, form-vector,
}
use dse_network.Model.{
  SrMap, is_zero, assign, read_signals, write_signals, initial_tick, receive, transmit,
}

-- A message with a mux id is no container.
abbrev pub IsPlain : Shape → Type 0
IsPlain x = x.0.mux_id ≢ 0 → x.0.mux_signal ≡ none

no_nesting : (messages : List NetworkMessage) → All IsPlain (map shape messages) → IsFlat messages
no_nesting [] all = tt
no_nesting (m ∷ messages) all = (all.0, no_nesting messages all.1)

-- What a network must have for its steps to succeed; no step changes it.
pub record IsRunnable (f : Form) : Type 0 where
  pub ready : IsReady f
  pub flat : All IsPlain f.shapes
  pub leads : Scheduled (length f.shapes) f.scheduled

-- An active entry joins a signal of the channel to a value of the network.
abbrev pub Joins : ℕ → ℕ → SrMap → Type 0
Joins channel values x = x.active ≡ true → (x.vector_index < channel) × (x.signal_index < values)

pub assign_total :
    (xs : List Double) (i : ℕ) (v : Double)
    → i < length xs
    → (assign xs i v ≡ ok (set xs i v)) × (length (set xs i v) ≡ length xs)
unfolding assign
assign_total xs i v below = (rw (lt→ltb i (length xs) below) refl, length-set xs i v)

pub read_signals_total :
    (sr_map : List SrMap) (scalar vector : List Double)
    → All (Joins (length scalar) (length vector)) sr_map
    → (vector' : List Double) × (read_signals sr_map scalar vector ≡ ok vector')
      × (length vector' ≡ length vector)
unfolding read_signals
read_signals_total [] scalar vector all = (vector, refl, refl)
read_signals_total (x ∷ sr_map) scalar vector all = elim (Bool-cases x.active) [
  | inr idle ↦
      let (v', runs, same) = read_signals_total sr_map scalar vector all.1 in
      (v', rw idle runs, same)
  | inl active ↦
      let (from, to) = all.0 active in
      let (v, there) = get-lt_length scalar x.vector_index from in
      let (runs, kept) = assign_total vector x.signal_index v to in
      let later : All (Joins (length scalar) (length (set vector x.signal_index v))) sr_map =
        subst (λ k. All (Joins (length scalar) k) sr_map) (sym kept) all.1 in
      let (v', runs', same) =
        read_signals_total sr_map scalar (set vector x.signal_index v) later in
      (v', rw active (goes_on _ (deref_there there) (goes_on _ runs runs')), same ∙ kept)
]

pub write_signals_total :
    (sr_map : List SrMap) (vector scalar : List Double)
    → All (Joins (length scalar) (length vector)) sr_map
    → (scalar' : List Double) × (write_signals sr_map vector scalar ≡ ok scalar')
      × (length scalar' ≡ length scalar)
unfolding write_signals
write_signals_total [] vector scalar all = (scalar, refl, refl)
write_signals_total (x ∷ sr_map) vector scalar all = elim (Bool-cases x.active) [
  | inr idle ↦
      let (s', runs, same) = write_signals_total sr_map vector scalar all.1 in
      (s', rw idle runs, same)
  | inl active ↦
      let (to, from) = all.0 active in
      let (v, there) = get-lt_length vector x.signal_index from in
      let (runs, kept) = assign_total scalar x.vector_index v to in
      let later : All (Joins (length (set scalar x.vector_index v)) (length vector)) sr_map =
        subst (λ k. All (Joins k (length vector)) sr_map) (sym kept) all.1 in
      let (s', runs', same) =
        write_signals_total sr_map vector (set scalar x.vector_index v) later in
      (s', rw active (goes_on _ (deref_there there) (goes_on _ runs runs')), same ∙ kept)
]

module _ (contract : Contract) where
  -- The network runs: its form allows it, and its functions keep to the contract.
  abbrev pub Runs : Network → Type 0
  Runs n = IsRunnable (form n) × All (Works contract) n.messages

  -- A part of a step that succeeds, with what it keeps.
  abbrev pub Goes : Network → Outcome Network → Type 0
  Goes n r = (n' : Network) × (r ≡ ok n') × (form n' ≡ form n) × Runs n'

  pub carry_over :
      (n n' : Network) → form n' ≡ form n → Runs n → All (Works contract) n'.messages → Runs n'
  carry_over n n' same runs works = (subst IsRunnable (sym same) runs.0, works)

  -- The messages to the signals, after which no message is to be updated.
  pub to_signals_total :
      (n : Network)
      → Runs n
      → (n' : Network) × (network_marshal_messages_to_signals n (some n.marshal_list) false
          ≡ ok (0, n'))
        × (form n' ≡ form n)
        × Runs n'
  unfolding clear_update_signals
  to_signals_total n runs =
      let (vector, goes, fits) = network_marshal_messages_to_signals_total n runs.0.ready.items in
      let messages = map clear_update_signals n.messages in
      let n' : Network = record n { signal_vector = vector; messages = messages } in
      let kept : map shape messages ≡ map shape n.messages = same_shapes n.messages in
      let same : form n' ≡ form n =
        ap₂ (λ x y. record (form n) { shapes = x; values = y }) kept fits in
      (
        n',
        goes,
        same,
        carry_over n n' same runs (
            All-map (Works contract) (Works contract) clear_update_signals n.messages (λ m w. w)
              runs.1),
      )
    where
      same_shapes :
          (messages : List NetworkMessage)
          → map shape (map clear_update_signals messages) ≡ map shape messages
      same_shapes [] = refl
      same_shapes (m ∷ messages) = ap (◌∷◌ (shape m)) (same_shapes messages)

  pub receive_total :
      (to_uint32 : Double → ℕ) (fuel : ℕ) (frames : List CanMessage) (n : Network)
      → Runs n
      → Goes n (receive to_uint32 (suc (suc fuel)) frames n)
  unfolding receive
  receive_total to_uint32 fuel frames n runs =
      let (n1, goes1, same1) =
        network_decode_from_bus_total to_uint32 fuel n frames runs.0.ready
          (no_nesting n.messages runs.0.flat) in
      let kept1 = network_decode_from_bus_keeps to_uint32 (suc (suc fuel)) n frames goes1 in
      let works1 =
        Works-agree contract n.messages n1.messages
          (map_agrees rest_of vitals vitals n1.messages n.messages (λ m. refl) kept1) runs.1 in
      let runs1 = carry_over n n1 same1 runs works1 in
      let (n2, goes2, (same2, works2)) =
        network_function_apply_decode_total contract n1 runs1.0.ready works1 in
      let (n3, goes3, same3, runs3) = to_signals_total n2 (carry_over n1 n2 same2 runs1 works2) in
      (n3, goes_on _ goes1 (goes_on _ goes2 (goes_on _ goes3 refl)), same3 ∙ same2 ∙ same1, runs3)

  schedule_kept :
      (n n' : Network)
      → form n' ≡ form n
      → map unscheduled n'.messages ≡ map unscheduled n.messages
      → Runs n
      → Runs n'
  schedule_kept n n' same kept runs = carry_over n n' same runs (
      Works-agree contract n.messages n'.messages
        (map_agrees unscheduled vitals vitals n'.messages n.messages (λ m. refl) kept) runs.1)

  leads_of : (n : Network) → Runs n → Scheduled (length n.messages) (form n).scheduled
  leads_of n runs =
      subst (λ k. Scheduled k (form n).scheduled) (length-map shape n.messages) runs.0.leads

  pub ticks_total : (ticks : ℕ) (n : Network) → Runs n → Goes n (schedule_ticks ticks n)
  ticks_total ticks n runs =
      let (n', goes, (same, kept)) = schedule_ticks_total ticks n (leads_of n runs) in
      (n', goes, same, schedule_kept n n' same kept runs)

  pub tick_total : (n : Network) → Runs n → Goes n (network_schedule_tick n)
  tick_total n runs =
      let (n', goes, (same, kept)) = network_schedule_tick_total n (leads_of n runs) in
      (n', goes, same, schedule_kept n n' same kept runs)

  pub initial_tick_total :
      (model_time : Double) (done : Bool) (n : Network)
      → Runs n
      → (r : Bool × Network) × (initial_tick model_time done n ≡ ok r)
        × (form r.1 ≡ form n)
        × Runs r.1
  unfolding initial_tick
  initial_tick_total model_time done n runs =
      let first : Bool = is_zero model_time && not done in
      elim (Bool-cases first) [
        | inl due ↦
            let (n', goes, same, runs') = tick_total n runs in
            ((true, n'), if_true first (ok (done, n)) due ∙ goes_on _ goes refl, same, runs')
        | inr past ↦ (
          (done, n),
          if_false first (network_schedule_tick n >>= λ n'. ok (true, n')) past,
          refl,
          runs,
        )
      ]
