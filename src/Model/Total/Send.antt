-- ===== src/Model/Total/Send.antt =====
-- In a network that can run, the transmission succeeds.
use dse_network.Prelude.{
  ℕ, ◌≡◌, refl, ap, ap₂, ◌∙◌, Option, none, some, List, [], ◌∷◌, map, ok, length, arith, goes_on,
  All, All-map, map_agrees, Option-cases, inl, inr,
}
use dse_network.Types.{Double, NetworkMessage, Network, PackFunc}
use dse_network.Engine.ToMessages.{network_marshal_signals_to_messages}
use dse_network.Engine.ToMessages.Total.{network_marshal_signals_to_messages_total}
use dse_network.Engine.Pack.{pack_message, update_checksum, network_pack_messages}
use dse_network.Function.Contract.{Contract, vitals, Works, Works-agree}
use dse_network.Function.Total.{network_function_apply_encode_total}
use dse_network.Bus.{CanMessage, network_encode_to_bus}
use dse_network.Bus.Encode.{without_mark, network_encode_to_bus_lem}
use dse_network.Shape.{Shape, shape, core, shapes-cores, form, form-messages}
use dse_network.Model.{transmit}
use dse_network.Model.Total.{Runs, carry_over, to_signals_total}

module _ (contract : Contract) where
  same_vitals :
      (m : NetworkMessage) (payload : List ℕ)
      → length payload ≡ length m.payload
      → vitals (record m { payload = payload }) ≡ vitals m
  same_vitals m payload same = ap (λ x. record (vitals m) { size = x }) same

  shape-update_checksum : (m : NetworkMessage) → shape (update_checksum m) ≡ shape m
  unfolding update_checksum
  shape-update_checksum m = ground arith

  vitals-update_checksum : (m : NetworkMessage) → vitals (update_checksum m) ≡ vitals m
  unfolding update_checksum
  vitals-update_checksum m = ground arith

  -- What packing makes of a message, given the pack function.
  abbrev packed_by : NetworkMessage → Option PackFunc → NetworkMessage
  packed_by m o = elim o [
    | none ↦ m
    | some pack ↦
        update_checksum (record m { payload = (pack m.payload m.buffer m.payload_len).out })
  ]

  packed :
      (m : NetworkMessage) {o : Option PackFunc} → m.pack_func ≡ o → pack_message m ≡ packed_by m o
  unfolding pack_message
  packed m e = ap (packed_by m) e

  pack_message_keeps :
      (m : NetworkMessage)
      → Works contract m
      → (shape (pack_message m) ≡ shape m) × (vitals (pack_message m) ≡ vitals m)
  pack_message_keeps m works = elim (Option-cases m.pack_func) [
    | inl absent ↦ (ap shape (packed m absent), ap vitals (packed m absent))
    | inr (pack, present) ↦
        let payload = (pack m.payload m.buffer m.payload_len).out in
        let m1 : NetworkMessage = record m { payload = payload } in
        (
          ap shape (packed m present) ∙ shape-update_checksum m1,
          ap vitals (packed m present)
              ∙ vitals-update_checksum m1
              ∙ same_vitals m payload
                  (works.keeps_length pack m.payload m.buffer m.payload_len present),
        )
  ]

  pack_messages_keep :
      (messages : List NetworkMessage)
      → All (Works contract) messages
      → (map shape (map pack_message messages) ≡ map shape messages)
        × (map vitals (map pack_message messages) ≡ map vitals messages)
  pack_messages_keep [] works = (refl, refl)
  pack_messages_keep (m ∷ messages) works =
      let (one, one') = pack_message_keeps m works.0 in
      let (rest, rest') = pack_messages_keep messages works.1 in
      (ap₂ ◌∷◌ one rest, ap₂ ◌∷◌ one' rest')

  -- Marshalled and packed.
  pub packed_total :
      (n : Network)
      → Runs contract n
      → (messages : List NetworkMessage) × (network_marshal_signals_to_messages n
            (some n.marshal_list)
          ≡ ok (0, record n { messages = messages }))
        × (form (record n { messages = map pack_message messages }) ≡ form n)
        × All (Works contract) (map pack_message messages)
  packed_total n runs =
      let (messages, goes, cores) =
        network_marshal_signals_to_messages_total n runs.0.ready.items in
      let works =
        Works-agree contract n.messages messages
          (map_agrees core (λ (x : Shape). vitals x.0) vitals messages n.messages (λ m. refl) cores)
          runs.1 in
      let (shapes, alive) = pack_messages_keep messages works in
      (
        messages,
        goes,
        form-messages n (map pack_message messages)
            (shapes ∙ shapes-cores messages n.messages cores),
        Works-agree contract messages (map pack_message messages) alive works,
      )

  sent_shapes :
      (messages : List NetworkMessage) → map shape (map without_mark messages) ≡ map shape messages
  sent_shapes [] = refl
  sent_shapes (m ∷ messages) = ap (◌∷◌ (shape m)) (sent_shapes messages)

  -- After the frames are written.
  encoded_total :
      (n : Network)
      → Runs contract n
      → (r : List CanMessage × Network) × (network_encode_to_bus n ≡ ok r)
        × (form r.1 ≡ form n)
        × Runs contract r.1
  encoded_total n runs =
      let n1 : Network = record n { messages = map without_mark n.messages } in
      let same : form n1 ≡ form n = form-messages n n1.messages (sent_shapes n.messages) in
      (
        (_, n1),
        (network_encode_to_bus_lem n runs.0.ready.allocated).0,
        same,
        carry_over contract n n1 same runs
            (All-map (Works contract) (Works contract) without_mark n.messages (λ m w. w) runs.1),
      )

  pub transmit_total :
      (netoff : Option Double) (n : Network)
      → Runs contract n
      → (r : List CanMessage × Network) × (transmit netoff n ≡ ok r)
        × (form r.1 ≡ form n)
        × Runs contract r.1
  unfolding transmit network_pack_messages
  transmit_total netoff n runs =
      let (messages, goes, same, works) = packed_total n runs in
      let n1 : Network = record n { messages = map pack_message messages; netoff_value = netoff } in
      let runs1 = carry_over contract n n1 same runs works in
      let (n2, goes2, (same2, works2)) =
        network_function_apply_encode_total contract n1 runs1.0.ready works in
      let (sent, goes3, same3, runs3) =
        encoded_total n2 (carry_over contract n1 n2 same2 runs1 works2) in
      let (n4, goes4, same4, runs4) = to_signals_total contract sent.1 runs3 in
      (
        (sent.0, n4),
        goes_on _ goes (goes_on _ goes2 (goes_on _ goes3 (goes_on _ goes4 refl))),
        same4 ∙ same3 ∙ same2 ∙ same,
        runs4,
      )
