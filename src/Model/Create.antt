-- ===== src/Model/Create.antt =====
-- The creation of the model from a loaded network.
use dse_network.Prelude.{
  ℕ, String, ◌<◌, ◌≡◌, refl, sym, ap, ◌∙◌, subst, false, Option, some, List, [], ◌∷◌, map, ok,
  get_elem?, set, length, arith, goes_on, deref_there, All, All-map, All-of_get, get_elem?-map,
  lt-length_of_get,
}
use dse_network.Types.{Double, MarshalItem, NetworkMessage, Network}
use dse_network.Engine.Lists.{signal_of}
use dse_network.Function.Contract.{Contract, Works}
use dse_network.Engine.Pack.{network_pack_messages, pack_message}
use dse_network.Shape.{Shape, shape, Leads, Form, form, form-messages, form-vector}
use dse_network.Model.{
  NetworkModelDesc, clear_needs_tx, create_sr_map, set_init_values, model_start,
}
use dse_network.Model.Mapping.{create_sr_map_lem}
use dse_network.Model.Total.{Joins, Runs, carry_over, assign_total, write_signals_total}
use dse_network.Model.Total.Send.{packed_total}
use dse_network.Model.Total.Step.{IsInside, IsAlive}

-- The mapping stays inside the channel and inside the list of names.
create_sr_map-Joins :
    (signals names : List String)
    → All (Joins (length signals) (length names)) (create_sr_map 0 signals names)
create_sr_map-Joins signals names =
    All-of_get (Joins (length signals) (length names)) (create_sr_map 0 signals names)
      λ k x there on.
        let (name, here, found, index, _) = create_sr_map_lem k 0 signals names there on in
        let at : x.vector_index ≡ k = omega (arith, index) in
        (
          subst (λ j. j < length signals) (sym at) (lt-length_of_get signals k here),
          lt-length_of_get names x.signal_index found,
        )

set_init_values_total :
    (messages : List NetworkMessage) (items : List MarshalItem) (vector : List Double)
    → All (Leads (map shape messages) (length vector)) items
    → (vector' : List Double) × (set_init_values messages items vector ≡ ok vector')
      × (length vector' ≡ length vector)
unfolding set_init_values signal_of
set_init_values_total messages [] vector all = (vector, refl, refl)
set_init_values_total messages (mi ∷ items) vector all =
    let leads = all.0 in
    let (m, there, same) = get_elem?-map shape messages mi.message leads.message_there in
    let here : get_elem? m.signals mi.signal ≡ some leads.signal =
      ap (λ (x : Shape). get_elem? x.0.signals mi.signal) same ∙ leads.signal_there in
    let value = leads.signal.init_value in
    let (runs, kept) = assign_total vector mi.signal_vector_index value leads.value_there in
    let later : All (Leads (map shape messages) (length (set vector mi.signal_vector_index value)))
        items =
      subst (λ k. All (Leads (map shape messages) k) items) (sym kept) all.1 in
    let (v', runs', same') =
      set_init_values_total messages items (set vector mi.signal_vector_index value) later in
    (
      v',
      goes_on _ (goes_on _ (deref_there there) (deref_there here)) (goes_on _ runs runs'),
      same' ∙ kept,
    )

cleared_shapes :
    (messages : List NetworkMessage) → map shape (map clear_needs_tx messages) ≡ map shape messages
unfolding clear_needs_tx
cleared_shapes [] = refl
cleared_shapes (m ∷ messages) = ap (◌∷◌ (shape m)) (cleared_shapes messages)

-- From a network that can run, with a value for each name, and a channel with a value for each
-- signal and, if one is set, for that which turns the network off, the model is created with no
-- fault, and it can run.
pub model_start_total :
    (contract : Contract) (n : Network) (signal : List String) (scalar : List Double)
    (netoff_index : Option ℕ)
    → Runs contract n
    → length n.signal_name ≡ length n.signal_vector
    → length signal ≡ length scalar
    → IsInside netoff_index (length scalar)
    → (m : NetworkModelDesc) × (model_start n signal scalar netoff_index ≡ ok m)
      × (length m.scalar ≡ length signal)
      × IsAlive contract m
unfolding model_start network_pack_messages clear_needs_tx
model_start_total contract n signal scalar netoff_index runs named valued inside =
    let sr_map = create_sr_map 0 signal n.signal_name in
    let joined : All (Joins (length scalar) (length n.signal_vector)) sr_map =
      subst (λ k. All (Joins k (length n.signal_vector)) sr_map) valued
        (subst (λ k. All (Joins (length signal) k) sr_map) named
          (create_sr_map-Joins signal n.signal_name)) in
    let (vector, goes, fits) =
      set_init_values_total n.messages n.marshal_list n.signal_vector runs.0.ready.items in
    let joined1 : All (Joins (length scalar) (length vector)) sr_map =
      subst (λ k. All (Joins (length scalar) k) sr_map) (sym fits) joined in
    let (scalar', wrote, room) = write_signals_total sr_map vector scalar joined1 in
    let n1 : Network = record n { signal_vector = vector } in
    let runs1 = carry_over contract n n1 (form-vector n vector fits) runs runs.1 in
    let (messages, marshalled, same, works) = packed_total contract n1 runs1 in
    let cleared = map clear_needs_tx (map pack_message messages) in
    let n2 : Network = record n1 { messages = cleared } in
    let same2 : form n2 ≡ form n1 =
      form-messages n1 cleared
        (cleared_shapes (map pack_message messages) ∙ ap (λ (x : Form). x.shapes) same) in
    (
      record {
        network = n2;
        init_tick_done = false;
        last_tick = 0;
        signal = signal;
        scalar = scalar';
        sr_map = sr_map;
        netoff_index = netoff_index;
      },
      goes_on _ goes (goes_on _ wrote (goes_on _ marshalled refl)),
      room ∙ sym valued,
      record {
        runs = carry_over contract n1 n2 same2 runs1 (
            All-map (Works contract) (Works contract) clear_needs_tx (map pack_message messages)
              (λ m w. w) works);
        joined = subst (λ k. All (Joins k (length vector)) sr_map) (sym room) joined1;
        switched = subst (IsInside netoff_index) (sym room) inside;
      },
    )
