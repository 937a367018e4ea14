-- ===== src/Bus/Encode.antt =====
-- What `network_encode_to_bus` writes.
use dse_network.Prelude.{
  ◌≡◌, ◌∙◌, refl, sym, ap, ap₂, true, false, List, [], ◌∷◌, map, Outcome, ok, fault, ◌>>=◌, goes_on,
  if_true, if_false, Bool-cases, inl, inr, if◌then◌else◌, arith,
}
use dse_network.Types.{NetworkMessage, Network}
use dse_network.Bus.{CanMessage, messages_array, frame_of, encode_messages, network_encode_to_bus}

-- The messages that are marked for sending, in order.
abbrev pub pending : List NetworkMessage → List NetworkMessage
pending [] = []
pending (m ∷ messages) = if m.needs_tx then m ∷ pending messages else pending messages

abbrev pub without_mark : NetworkMessage → NetworkMessage
without_mark m = record m { needs_tx = false }

pub encode_messages-frames :
    (messages : List NetworkMessage)
    → (encode_messages messages).0 ≡ map frame_of (pending messages)
unfolding encode_messages
encode_messages-frames [] = refl
encode_messages-frames (m ∷ messages) = ground (arith, encode_messages-frames messages)

encode_messages-messages :
    (messages : List NetworkMessage) → (encode_messages messages).1 ≡ map without_mark messages
unfolding encode_messages
encode_messages-messages [] = refl
encode_messages-messages (m ∷ messages) = ground (arith, encode_messages-messages messages)

pub pending-without_mark :
    (messages : List NetworkMessage) → pending (map without_mark messages) ≡ []
pending-without_mark [] = refl
pending-without_mark (m ∷ messages) = pending-without_mark messages

pub messages_array_there : (n : Network) → n.has_messages ≡ true → messages_array n ≡ ok n.messages
unfolding messages_array
messages_array_there n there = if_true n.has_messages fault there

network_encode_to_bus_runs :
    (n : Network)
    → n.has_messages ≡ true
    → network_encode_to_bus n
      ≡ ok (map frame_of (pending n.messages), record n { messages = map without_mark n.messages })
unfolding network_encode_to_bus
network_encode_to_bus_runs n there = goes_on _ (messages_array_there n there) (
    ap₂
      (λ (frames : List CanMessage) (ms : List NetworkMessage).
        ok (frames, record n { messages = ms }))
      (encode_messages-frames n.messages) (encode_messages-messages n.messages))

without_mark_twice :
    (messages : List NetworkMessage)
    → map without_mark (map without_mark messages) ≡ map without_mark messages
without_mark_twice [] = refl
without_mark_twice (m ∷ messages) = ap (◌∷◌ (without_mark m)) (without_mark_twice messages)

-- Where the array of messages exists, every marked message is written as one frame, in the order of
-- the messages, and no other frame is. Afterwards no message is marked and nothing else has
-- changed, so that writing again immediately succeeds, writes no frame and changes nothing.
pub network_encode_to_bus_lem :
    (n : Network)
    → n.has_messages ≡ true
    → let n' : Network = record n { messages = map without_mark n.messages } in
      (network_encode_to_bus n ≡ ok (map frame_of (pending n.messages), n'))
      × (network_encode_to_bus n' ≡ ok ([], n'))
network_encode_to_bus_lem n there =
    let n' : Network = record n { messages = map without_mark n.messages } in
    (
      network_encode_to_bus_runs n there,
      network_encode_to_bus_runs n' there
          ∙ ap₂
              (λ (frames : List CanMessage) (ms : List NetworkMessage).
                ok (frames, record n { messages = ms }))
              (ap (map frame_of) (pending-without_mark n.messages)) (without_mark_twice n.messages),
    )

-- What a transmission that returns has written.
pub network_encode_to_bus_inv :
    (n : Network) {r : List CanMessage × Network}
    → network_encode_to_bus n ≡ ok r
    → (map frame_of (pending n.messages), record n { messages = map without_mark n.messages }) ≡ r
unfolding network_encode_to_bus messages_array
network_encode_to_bus_inv n {r} e = elim (Bool-cases n.has_messages) [
  | inl there ↦
      let outcome : ok
            (map frame_of (pending n.messages), record n { messages = map without_mark n.messages })
          ≡ ok r =
        sym (network_encode_to_bus_runs n there) ∙ e in
      cc
  | inr missing ↦
      let faults : network_encode_to_bus n ≡ fault =
        ap
          (λ (o : Outcome (List NetworkMessage)). o >>= λ messages.
            ok ((encode_messages messages).0, record n { messages = (encode_messages messages).1 }))
          (if_false n.has_messages (ok n.messages) missing) in
      absurd (cc)
]
