-- ===== src/Function/Total.antt =====
-- Functions that keep to a contract are applied with no fault and no fatal error.
use dse_network.Prelude.{
  ℕ, ◌==◌, ◌≡◌, inl, inr, refl, sym, ap, ap₂, ◌∙◌, subst, not, true, false, Bool, List, [], ◌∷◌,
  map, Outcome, ok, goes_on, deref_there, length, Bool-cases, All, if_true, if_false,
}
use dse_network.Types.{Network, NetworkMessage}
use dse_network.Hash.{simbus_generate_uid_hash}
use dse_network.Function.{
  net_off, adopt_payload, encode_message, apply_encode, map_messages, network_function_apply_encode,
  apply_decode, network_function_apply_decode,
}
use dse_network.Shape.{shape, blank, IsReceivable, form, IsReady, form-messages}
use dse_network.Function.Contract.{
  Contract, Works, run_encode_functions_total, run_decode_functions_total,
}

module _ (contract : Contract) where
  open contract use {Encodes, Decodes, encode_runs, decode_runs}

  -- What the functions of one message leave as it was.
  abbrev Done : NetworkMessage → Outcome NetworkMessage → Type 0
  Done m r = (m' : NetworkMessage) × (r ≡ ok m') × (shape m' ≡ shape m) × Works contract m'

  module _ (items : ℕ) (m : NetworkMessage) (works : Works contract m)
      (able : IsReceivable items (shape m)) where
    encode_message_total : Done m (encode_message m)
    unfolding encode_message adopt_payload
    encode_message_total =
        let (done, runs, holds, same, kept) =
          run_encode_functions_total contract (length m.payload) m.payload_len m.encode_functions
            m.payload works.encode refl in
        let m1 : NetworkMessage = record m { encode_functions = done.0; payload = done.1 } in
        let works1 : Works contract m1 = record {
          encode = subst (λ x. All (Encodes x m.payload_len) done.0) (sym kept) holds;
          decode =
              subst (λ x. All (Decodes x m.payload_len) m.decode_functions) (sym kept) works.decode;
          keeps_length = works.keeps_length;
        } in
        let blank1 : blank m1 ≡ blank m =
          ap (λ x. record (blank m) { encode_functions = x }) same in
        elim (Bool-cases (
          simbus_generate_uid_hash done.1 m.payload_len
          == simbus_generate_uid_hash m.payload m.payload_len)) [
            | inl unchanged ↦ (
              m1,
              goes_on _ runs (rw unchanged refl),
              ap (λ x. (x, length m.buffer)) blank1,
              works1,
            )
            | inr changed ↦
                let buffer = (able.unpack m.buffer done.1 m.payload_len).out in
                (
                  record m1 {
                    update_signals = true;
                    buffer = buffer;
                    buffer_checksum = simbus_generate_uid_hash buffer m.buffer_len;
                  },
                  goes_on _ runs (rw changed (goes_on _ (deref_there able.unpack_there) refl)),
                  ap₂ (λ x y. (x, y)) blank1 (able.keeps_length m.buffer done.1 m.payload_len),
                  works1,
                )
          ]

    apply_encode_total : (off : Bool) → Done m (apply_encode off m)
    unfolding apply_encode
    apply_encode_total true = (record m { needs_tx = false }, refl, refl, works)
    apply_encode_total false = elim (Bool-cases m.needs_tx) [
      | inl marked ↦
          let (m', runs, same, works') = encode_message_total in
          (m', if_true m.needs_tx (ok m) marked ∙ runs, same, works')
      | inr unmarked ↦ (m, if_false m.needs_tx (encode_message m) unmarked, refl, works)
    ]

    apply_decode_total : Done m (apply_decode m)
    unfolding apply_decode
    apply_decode_total =
        let (done, runs, holds, same, kept) =
          run_decode_functions_total contract (length m.payload) m.payload_len m.decode_functions
            m.payload true works.decode refl in
        elim (Bool-cases (not m.update_signals)) [
          | inl skipped ↦ (m, rw (skipped, apply_decode) refl, refl, works)
          | inr taken ↦ (
            record m { decode_functions = done.0; payload = done.1; update_signals = done.2 },
            rw (taken, apply_decode) (goes_on _ runs refl),
            ap (λ x. (record (blank m) { decode_functions = x }, length m.buffer)) same,
            record {
              encode =
                  subst (λ x. All (Encodes x m.payload_len) m.encode_functions) (sym kept)
                    works.encode;
              decode = subst (λ x. All (Decodes x m.payload_len) done.0) (sym kept) holds;
              keeps_length = works.keeps_length;
            },
          )
        ]

  map_messages_total :
      (f : NetworkMessage → Outcome NetworkMessage) (items : ℕ) (messages : List NetworkMessage)
      → ((m : NetworkMessage) → Works contract m → IsReceivable items (shape m) → Done m (f m))
      → All (Works contract) messages
      → All (IsReceivable items) (map shape messages)
      → (messages' : List NetworkMessage) × (map_messages f messages ≡ ok messages')
        × (map shape messages' ≡ map shape messages)
        × All (Works contract) messages'
  map_messages_total f items [] each works able = ([], refl, refl, tt)
  map_messages_total f items (m ∷ messages) each works able =
      let (m', runs, same, works') = each m works.0 able.0 in
      let (rest, runs2, same2, works2) = map_messages_total f items messages each works.1 able.1 in
      (m' ∷ rest, goes_on _ runs (goes_on _ runs2 refl), ap₂ ◌∷◌ same same2, (works', works2))

  -- A step keeps the form of a network, and its functions and pack functions at work.
  abbrev pub Keeps : Network → Network → Type 0
  Keeps n n' = (form n' ≡ form n) × All (Works contract) n'.messages

  -- In a ready network whose functions keep to the contract, the encode functions are applied with
  -- no fault and no fatal error, whether the network is turned off or not, and the same holds of
  -- the network afterwards.
  pub network_function_apply_encode_total :
      (n : Network)
      → IsReady (form n)
      → All (Works contract) n.messages
      → (n' : Network) × (network_function_apply_encode n ≡ ok n') × Keeps n n'
  unfolding network_function_apply_encode
  network_function_apply_encode_total n ready works =
      let off = net_off n.netoff_value in
      let items = length n.marshal_list in
      let (messages, runs, same, works') =
        map_messages_total (apply_encode off) items n.messages
          (λ m w able. apply_encode_total items m w able off) works ready.messages in
      (
        record n { messages = messages },
        goes_on _ runs refl,
        (form-messages n messages same, works'),
      )

  -- The same for the decode functions, which may refuse a payload by EBADMSG.
  pub network_function_apply_decode_total :
      (n : Network)
      → IsReady (form n)
      → All (Works contract) n.messages
      → (n' : Network) × (network_function_apply_decode n ≡ ok n') × Keeps n n'
  unfolding network_function_apply_decode
  network_function_apply_decode_total n ready works =
      let items = length n.marshal_list in
      let (messages, runs, same, works') =
        map_messages_total apply_decode items n.messages (apply_decode_total items) works
          ready.messages in
      (
        record n { messages = messages },
        goes_on _ runs refl,
        (form-messages n messages same, works'),
      )
