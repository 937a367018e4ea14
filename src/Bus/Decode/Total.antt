-- ===== src/Bus/Decode/Total.antt =====
-- In a ready network frames are received with no fault.
use dse_network.Prelude.{
  All-get, ℕ, zero, suc, ◌<◌, ◌==◌, ◌≡◌, ◌⊎◌, inl, inr, refl, sym, ap, ◌∙◌, subst, true, Option,
  none, some, List, [], ◌∷◌, map, Outcome, ok, out_of_fuel, goes_on, deref_there, stops, length,
  get_elem?, set, arith, Bool-cases, Option-cases, get_elem?-map, map_at, map-set, get-lt_length,
}
use dse_network.Types.{Double, Network, NetworkMessage}
use dse_network.Engine.ToSignals.{network_marshal_messages_to_signals, returns_early}
use dse_network.Engine.ToSignals.Total.{messages_to_signals_single_total}
use dse_network.Bus.{
  CanMessage, find_mux_message, mux_item, filter_update, set_message, read_mux_id,
  process_contained, process_message, find_frame, process_can_frame, network_decode_from_bus,
}
use dse_network.Bus.Encode.{messages_array_there}
use dse_network.Bus.Decode.{find_frame_iff, get-IsFirst, drop_at}
use dse_network.Bus.Decode.Ends.{IsFlat, find_mux_message_there, network_decode_from_bus-Ends}
use dse_network.Shape.{
  shape, blank, Leads, IsReceivable, Form, form, IsReady, form-messages, form-vector,
}

-- The network afterwards has the form of the one before, unless the fuel ends.
abbrev Safe : Network → Outcome Network → Type 0
Safe n r = ((n' : Network) × (r ≡ ok n') × (form n' ≡ form n)) ⊎ (r ≡ out_of_fuel)

form-set_message :
    (n : Network) (i : ℕ) (m m' : NetworkMessage)
    → get_elem? n.messages i ≡ some m
    → shape m' ≡ shape m
    → form (set_message n i m') ≡ form n
unfolding set_message
form-set_message n i m m' there same =
    form-messages n (set n.messages i m') (map-set shape n.messages i there same)

shape-filter_update : (m : NetworkMessage) → shape (filter_update m) ≡ shape m
unfolding filter_update
shape-filter_update m = ground arith

-- What a ready network knows of the message at an index.
receivable :
    (n : Network) (i : ℕ) (m : NetworkMessage)
    → IsReady (form n)
    → get_elem? n.messages i ≡ some m
    → IsReceivable (length n.marshal_list) (shape m)
receivable n i m ready there =
    All-get (IsReceivable (length n.marshal_list)) (map shape n.messages) i ready.messages
      (map_at shape n.messages i there)

-- A message is still there where the form is the same.
still_there :
    (n n' : Network) (i : ℕ) {m : NetworkMessage}
    → form n' ≡ form n
    → get_elem? n.messages i ≡ some m
    → (m' : NetworkMessage) × (get_elem? n'.messages i ≡ some m')
still_there n n' i {m} same there =
    let shapes : map shape n'.messages ≡ map shape n.messages = ap (λ (x : Form). x.shapes) same in
    let (m', there', _) =
      get_elem?-map shape n'.messages i
        (ap (λ x. get_elem? x i) shapes ∙ map_at shape n.messages i there) in
    (m', there')

mux_item_total :
    (items : ℕ) (m : NetworkMessage)
    → IsReceivable items (shape m)
    → (container : Option ℕ) × (mux_item m ≡ ok container)
      × ((k : ℕ) → container ≡ some k → k < items)
unfolding mux_item
mux_item_total items m r = elim (Option-cases m.mux_signal) [
  | inl none_here ↦ (none, rw (none_here, mux_item) refl, λ k e. absurd (cc))
  | inr (j, here) ↦
      let (s, there) = r.mux_there j here in
      (
        s.mux_mi,
        rw (here, mux_item) (goes_on _ (deref_there there) refl),
        λ k e. r.item_there j k s here there e,
      )
]

module _ (to_uint32 : Double → ℕ) where
  read_mux_id_total :
      (n : Network) (k : ℕ)
      → IsReady (form n)
      → k < length n.marshal_list
      → (mux : ℕ × Network) × (read_mux_id to_uint32 n k ≡ ok mux) × (form mux.1 ≡ form n)
  unfolding read_mux_id network_marshal_messages_to_signals returns_early
  read_mux_id_total n k ready below =
      let (mi, there) = get-lt_length n.marshal_list k below in
      let (rest, dropped) = drop_at n.marshal_list k (deref_there there) in
      let leads =
        All-get (Leads (map shape n.messages) (length n.signal_vector)) n.marshal_list k ready.items
          there in
      let (vector, runs, same) =
        messages_to_signals_single_total mi rest n.messages n.signal_vector leads in
      let (v, value) =
        get-lt_length vector mi.signal_vector_index
          (subst (λ x. mi.signal_vector_index < x) (sym same) leads.value_there) in
      (
        (to_uint32 v, record n { signal_vector = vector }),
        goes_on _
            (ap (λ xs. network_marshal_messages_to_signals n (some xs) true) dropped
              ∙ goes_on _ runs refl)
            (goes_on _ (deref_there there) (goes_on _ (deref_there value) refl)),
        form-vector n vector same,
      )

  -- What the recursion is given of the fuel that is left.
  abbrev SafeAt : ℕ → CanMessage → Type 0
  SafeAt fuel msg =
      (n : Network) (i : ℕ) (m : NetworkMessage)
      → IsReady (form n)
      → get_elem? n.messages i ≡ some m
      → Safe n (process_message to_uint32 fuel n i msg)

  process_contained-Safe :
      (fuel : ℕ) (n : Network) (container : Option ℕ) (msg : CanMessage)
      → SafeAt fuel msg
      → IsReady (form n)
      → ((k : ℕ) → container ≡ some k → k < length n.marshal_list)
      → Safe n (process_contained to_uint32 (process_message to_uint32 fuel) n container msg)
  unfolding process_contained
  process_contained-Safe fuel n none msg inner ready below = inl (n, refl, refl)
  process_contained-Safe fuel n (some k) msg inner ready below =
      let (mux, runs, same) = read_mux_id_total n k ready (below k refl) in
      elim (Option-cases (find_mux_message mux.1 mux.0 msg.frame_id)) [
        | inl missing ↦ inl (mux.1, goes_on _ runs (rw missing refl), same)
        | inr (j, found) ↦
            let (m, there, _) = find_mux_message_there mux.1 mux.0 msg.frame_id j found in
            elim (inner mux.1 j m (subst IsReady (sym same) ready) there) [
              | inl (n2, ran, same2) ↦ inl (n2, goes_on _ runs (rw found ran), same2 ∙ same)
              | inr ended ↦ inr (goes_on _ runs (rw found ended))
            ]
      ]

  process_message-Safe : (fuel : ℕ) (msg : CanMessage) → SafeAt fuel msg
  unfolding process_message set_message
  process_message-Safe zero msg n i m ready there = inr refl
  process_message-Safe (suc fuel) msg n i m ready there =
      let able = receivable n i m ready there in
      let r = able.unpack m.buffer msg.buffer msg.len in
      let m1 : NetworkMessage = record m { buffer = r.out } in
      let n1 : Network = set_message n i m1 in
      let same1 : form n1 ≡ form n =
        form-set_message n i m m1 there
          (ap (λ (x : ℕ). (blank m, x)) (able.keeps_length m.buffer msg.buffer msg.len)) in
      elim (Bool-cases (r.rc == 0)) [
        | inr error ↦ inl (
          n1,
          goes_on _ (deref_there there) (goes_on _ (deref_there able.unpack_there) (rw error refl)),
          same1,
        )
        | inl good ↦
            let (container, looked, below) = mux_item_total (length n.marshal_list) m able in
            elim (process_contained-Safe fuel n1 container msg (process_message-Safe fuel msg)
              (subst IsReady (sym same1) ready) below) [
                | inl (n2, ran, same2) ↦
                    let (m2, there2) = still_there n n2 i (same2 ∙ same1) there in
                    inl (
                      set_message n2 i (filter_update m2),
                      goes_on _ (deref_there there) (
                          goes_on _ (deref_there able.unpack_there) (
                            rw good (
                              goes_on _ looked
                                (goes_on _ ran (goes_on _ (deref_there there2) refl))))),
                      form-set_message n2 i m2 (filter_update m2) there2 (shape-filter_update m2)
                          ∙ same2
                          ∙ same1,
                    )
                | inr ended ↦ inr (
                    goes_on _ (deref_there there) (
                      goes_on _ (deref_there able.unpack_there)
                        (rw good (goes_on _ looked (stops _ ended)))))
              ]
      ]

  process_can_frame-Safe :
      (fuel : ℕ) (n : Network) (msg : CanMessage)
      → IsReady (form n)
      → Safe n (process_can_frame to_uint32 fuel n msg)
  unfolding process_can_frame
  process_can_frame-Safe fuel n msg ready =
      let there = messages_array_there n ready.allocated in
      elim (Option-cases (find_frame 0 n.messages msg.frame_id)) [
        | inl unknown ↦ inl (n, goes_on _ there (rw unknown refl), refl)
        | inr (i, found) ↦
            let (m, found_there) =
              get-IsFirst n.messages msg.frame_id i
                ((find_frame_iff n.messages msg.frame_id i).0 found) in
            elim (process_message-Safe fuel msg n i m ready found_there) [
              | inl (n', ran, same) ↦ inl (n', goes_on _ there (rw found ran), same)
              | inr ended ↦ inr (goes_on _ there (rw found ended))
            ]
      ]

  network_decode_from_bus-Safe :
      (fuel : ℕ) (n : Network) (frames : List CanMessage)
      → IsReady (form n)
      → Safe n (network_decode_from_bus to_uint32 fuel n frames)
  unfolding network_decode_from_bus
  network_decode_from_bus-Safe fuel n [] ready = inl (n, refl, refl)
  network_decode_from_bus-Safe fuel n (msg ∷ frames) ready =
      elim (process_can_frame-Safe fuel n msg ready) [
        | inl (n1, ran, same1) ↦
            elim (network_decode_from_bus-Safe fuel n1 frames (subst IsReady (sym same1) ready)) [
              | inl (n2, ran2, same2) ↦ inl (n2, goes_on _ ran ran2, same2 ∙ same1)
              | inr ended ↦ inr (goes_on _ ran ended)
            ]
        | inr ended ↦ inr (stops _ ended)
      ]

  -- In a ready network in which no contained message is a container, receiving any frames succeeds,
  -- with fuel 2 or more, and the network keeps its form.
  pub network_decode_from_bus_total :
      (fuel : ℕ) (n : Network) (frames : List CanMessage)
      → IsReady (form n)
      → IsFlat n.messages
      → (n' : Network) × (network_decode_from_bus to_uint32 (suc (suc fuel)) n frames ≡ ok n')
        × (form n' ≡ form n)
  network_decode_from_bus_total fuel n frames ready flat =
      elim (network_decode_from_bus-Safe (suc (suc fuel)) n frames ready) [
        | inl done ↦ done
        | inr ended ↦ absurd (network_decode_from_bus-Ends to_uint32 fuel n frames flat ended)
      ]
